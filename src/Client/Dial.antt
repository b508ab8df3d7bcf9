-- ===== src/Client/Dial.antt =====
-- client/client.go: the options of a client, and a client over a connection that it dials.
use mh2c_go.Base.{ℕ, List, [], ◌∷◌, Option, none, some, Bytes, Result, ok, ◌>>=◌}
use mh2c_go.Hpack.{Library}
use mh2c_go.Tlsconn.{
  Tls, TlsConfig, TlsConn, VerifyMode, verify_server_cert, skip_verify_server_cert, dial, tls_conn,
}
use mh2c_go.Client.Conn.{Conn}
use mh2c_go.Client.Core.{Client, new_with_conn}

-- `config`
pub record ClientConfig (Others : Type 0) : Type 0 where
  pub tls_config : Option (TlsConfig Others)
  pub verify_mode : VerifyMode
  pub max_table : ℕ

-- An `Option`; `WithTLSConfig` may be given nil.
pub data ClientOption (Others : Type 0) : Type 0 where
  with_tls_config : Option (TlsConfig Others) → ClientOption Others
  with_verify_mode : VerifyMode → ClientOption Others
  with_insecure_skip_verify : ClientOption Others
  with_max_dynamic_table_size : ℕ → ClientOption Others

module _ {R : Type 0} where
  abbrev default_client_config : ClientConfig R
  default_client_config = record {
    tls_config = none;
    verify_mode = verify_server_cert;
    max_table = 4096;
  }

  abbrev apply_option : ClientOption R → ClientConfig R → ClientConfig R
  apply_option (with_tls_config t) c = record c { tls_config = t }
  apply_option (with_verify_mode m) c = record c { verify_mode = m }
  apply_option with_insecure_skip_verify c = record c { verify_mode = skip_verify_server_cert }
  apply_option (with_max_dynamic_table_size v) c = record c { max_table = v }

  unfoldable pub apply_options : List (ClientOption R) → ClientConfig R → ClientConfig R
  apply_options [] c = c
  apply_options (o ∷ os) c = apply_options os (apply_option o c)

  abbrev pub configured : List (ClientOption R) → ClientConfig R
  configured opts = apply_options opts default_client_config

-- `NewWithConn` reads no more than the size of the table.
abbrev pub new_with_options :
    {R : Type 0} (X : Library) (C : Conn) → Option C.State → List (ClientOption R) → Client X C
new_with_options X C conn opts = new_with_conn X C conn (configured opts).max_table

module _ (X : Library) (T : Tls) where
  abbrev client_over : List (ClientOption T.Others) → TlsConn T → Client X (tls_conn T)
  client_over opts conn = new_with_options X (tls_conn T) (some conn) opts

  -- `New`
  unfoldable pub new_client :
      Bytes → ℕ → List (ClientOption T.Others) → Result (Client X (tls_conn T))
  new_client host port opts =
      dial T host port (configured opts).verify_mode (configured opts).tls_config >>= λ conn.
      ok (client_over opts conn)
