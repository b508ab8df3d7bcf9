-- ===== src/Tlsconn.antt =====
-- tlsconn/tlsconn.go: the connection over TLS, and the part of the package net that it calls.
use mh2c_go.Base.{
  ℕ, Bool, true, false, ◌||◌, List, [], ◌∷◌, ◌++◌, if◌then◌else◌, Option, none, some, Bytes,
  bytes_eq, codes, Error, Result, ok, err, ◌>>=◌, wrong_protocol,
}
use mh2c_go.Base.State.{M}
use mh2c_go.Frame.Strings.{number_text}
use mh2c_go.Client.Conn.{Conn, write_all, read_full}
use mh2c_go.Script.Text.{find_byte}

-- `net.JoinHostPort`: a host with a colon stands in brackets.
abbrev is_found : Option ℕ → Bool
is_found none = false
is_found (some _) = true

unfoldable pub join_host_port : Bytes → Bytes → Bytes
join_host_port host port =
    if is_found (find_byte 58 host)
    then codes "[" ++ host ++ codes "]:" ++ port
    else host ++ codes ":" ++ port

pub data VerifyMode : Type 0 where
  verify_server_cert skip_verify_server_cert : VerifyMode

abbrev skips : VerifyMode → Bool
skips verify_server_cert = false
skips skip_verify_server_cert = true

-- `tls.Config`: the fields that `Dial` sets, and the others, which `Clone` keeps.
pub record TlsConfig (Others : Type 0) : Type 0 where
  pub server_name : Bytes
  pub next_protos : List Bytes
  pub insecure_skip_verify : Bool
  pub others : Others

-- The package crypto/tls: the other fields of its configuration, the connections it gives, its dial
-- over TCP with a timeout of 5 seconds, and the protocol that a handshake settled on.
pub record Tls : Type 1 where
  pub Others : Type 0
  pub no_others : Others
  pub raw : Conn
  pub dial : Bytes → TlsConfig Others → Result raw.State
  pub negotiated_protocol : raw.State → Bytes

-- `Conn`
pub record TlsConn (T : Tls) : Type 0 where
  pub raw : T.raw.State

abbrev h2 : Bytes
h2 = codes "h2"

abbrev or_h2 : List Bytes → List Bytes
or_h2 [] = h2 ∷ []
or_h2 (p ∷ ps) = p ∷ ps

abbrev or_host : Bytes → Bytes → Bytes
or_host host [] = host
or_host host (c ∷ name) = c ∷ name

module _ (T : Tls) where
  -- `conf`, without a base and with one.
  unfoldable pub handshake_config :
      Bytes → VerifyMode → Option (TlsConfig T.Others) → TlsConfig T.Others
  handshake_config host mode none = record {
    server_name = host;
    next_protos = h2 ∷ [];
    insecure_skip_verify = skips mode;
    others = T.no_others;
  }
  handshake_config host mode (some base) = record {
    server_name = or_host host base.server_name;
    next_protos = or_h2 base.next_protos;
    insecure_skip_verify = skips mode || base.insecure_skip_verify;
    others = base.others;
  }

  -- A connection that speaks another protocol is closed and dropped.
  abbrev pub speaking_h2 : T.raw.State → Result (TlsConn T)
  speaking_h2 s =
      if bytes_eq (T.negotiated_protocol s) h2
      then ok (record { raw = s })
      else err (wrong_protocol (T.negotiated_protocol s))

  unfoldable pub dial : Bytes → ℕ → VerifyMode → Option (TlsConfig T.Others) → Result (TlsConn T)
  unfolding handshake_config
  dial host port mode base =
      T.dial (join_host_port host (number_text port)) (handshake_config host mode base) >>= λ s.
      speaking_h2 s

  abbrev on_raw : {A : Type 0} → M T.raw.State A → M (TlsConn T) A
  on_raw m c = (record { raw = (m c.raw).0 }, (m c.raw).1)

  -- What `Read` and `Write` give beside the state.
  abbrev wrapped : {A : Type 0} → T.raw.State × A × Option Error → TlsConn T × A × Option Error
  wrapped (s, a, e) = (record { raw = s }, a, e)

  unfoldable pub read_conn : ℕ → TlsConn T → TlsConn T × Bytes × Option Error
  read_conn n c = wrapped (T.raw.read n c.raw)

  unfoldable pub write_conn : Bytes → TlsConn T → TlsConn T × ℕ × Option Error
  write_conn bytes c = wrapped (T.raw.write bytes c.raw)

  unfoldable pub close_conn : M (TlsConn T) (Unit {0})
  close_conn = on_raw T.raw.close

  -- `ReadFull` and `WriteAll`, with `fuel` rounds.
  unfoldable pub read_full_conn : ℕ → ℕ → M (TlsConn T) Bytes
  read_full_conn fuel n = on_raw (read_full T.raw fuel n [])

  unfoldable pub write_all_conn : ℕ → Bytes → M (TlsConn T) (Unit {0})
  write_all_conn fuel bytes = on_raw (write_all T.raw fuel bytes)

  -- The connection as the client holds it.
  abbrev pub tls_conn : Conn
  tls_conn = record { State = TlsConn T; write = write_conn; read = read_conn; close = close_conn }
