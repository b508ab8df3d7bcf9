-- ===== src/Client/Healthy.antt =====
-- tlsconn/tlsconn.go: a connection over TLS is as healthy as the connection that crypto/tls gives.
use mh2c_go.Tlsconn.{Tls, read_conn, write_conn, tls_conn}
use mh2c_go.Client.Transport.{InOrder}

unfoldable pub tls_conn-InOrder : (T : Tls) → InOrder T.raw → InOrder (tls_conn T)
unfolding read_conn write_conn
tls_conn-InOrder T healthy = record {
  unread = λ c. healthy.unread c.raw;
  sent = λ c. healthy.sent c.raw;
  writes = λ bs c ne.
      let w = healthy.writes bs c.raw ne in
      record {
        no_error = w.no_error;
        progress = w.progress;
        within = w.within;
        sends = w.sends;
        keeps = w.keeps;
      };
  reads = λ n c room waits.
      let r = healthy.reads n c.raw room waits in
      record {
        no_error = r.no_error;
        progress = r.progress;
        within = r.within;
        takes = r.takes;
        keeps = r.keeps;
      };
}
