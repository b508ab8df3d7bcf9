-- ===== src/Config/Connection.antt =====
-- cmd/mh2c/script.go: the connection of a script over the configuration.
use mh2c_go.Base.{
  ℕ, ◌-◌, ◌^◌, Bool, Option, none, some, Bytes, codes, Result, Error, ok, err, ◌>>=◌,
  connection_port, connection_timeout, connection_table_size,
}
use mh2c_go.Base.Int.{ℤ, to_unsigned}
use mh2c_go.Script.Values.{ScriptTable, string_value, bool_value, int_value}
use mh2c_go.Script.Repeat.{milliseconds}
use mh2c_go.Config.{Config}

-- `if …; err != nil { … } else if ok { … }`: a value that is there is put into the configuration.
abbrev pub set_present :
    {A : Type 0} → (A → Config → Result Config) → Config → Option A → Result Config
set_present put cfg none = ok cfg
set_present put cfg (some a) = put a cfg

-- A number within a limit, or the error.
abbrev pub put_or : Error → (ℕ → Config → Config) → Config → Option ℕ → Result Config
put_or why put cfg none = err why
put_or why put cfg (some n) = ok (put n cfg)

abbrev pub put_number : ℕ → Error → (ℕ → Config → Config) → ℤ → Config → Result Config
put_number limit why put v cfg = put_or why put cfg (to_unsigned limit v)

abbrev pub string_key : ScriptTable → Bytes → (Bytes → Config → Config) → Config → Result Config
string_key t key put cfg = do v ← string_value t key; set_present (λ text c. ok (put text c)) cfg v

abbrev pub bool_key : ScriptTable → Bytes → (Bool → Config → Config) → Config → Result Config
bool_key t key put cfg = do v ← bool_value t key; set_present (λ b c. ok (put b c)) cfg v

abbrev pub number_key :
    ScriptTable → Bytes → ℕ → Error → (ℕ → Config → Config) → Config → Result Config
number_key t key limit why put cfg = do
  v ← int_value t key
  set_present (put_number limit why put) cfg v

-- The greatest int64: no further limit than the test on the sign.
abbrev pub no_limit : ℕ
no_limit = 2 ^ 63 - 1

-- What each key puts, and the reading of each.
abbrev pub put_url : Bytes → Config → Config
put_url v c = record c { raw_url = v }

abbrev pub put_scheme : Bytes → Config → Config
put_scheme v c = record c { scheme = v }

abbrev pub put_host : Bytes → Config → Config
put_host v c = record c { host = v }

abbrev pub put_authority : Bytes → Config → Config
put_authority v c = record c { authority = v }

abbrev pub put_path : Bytes → Config → Config
put_path v c = record c { path = v }

abbrev pub put_port : ℕ → Config → Config
put_port v c = record c { port = v }

abbrev pub put_insecure : Bool → Config → Config
put_insecure v c = record c { insecure = v }

abbrev pub put_send_go_away : Bool → Config → Config
put_send_go_away v c = record c { send_go_away = v }

abbrev pub put_timeout : ℕ → Config → Config
put_timeout v c = record c { timeout = milliseconds v }

abbrev pub put_max_table : ℕ → Config → Config
put_max_table v c = record c { max_table = v }

abbrev pub set_url : ScriptTable → Config → Result Config
set_url t cfg = string_key t (codes "url") put_url cfg

abbrev pub set_scheme : ScriptTable → Config → Result Config
set_scheme t cfg = string_key t (codes "scheme") put_scheme cfg

abbrev pub set_host : ScriptTable → Config → Result Config
set_host t cfg = string_key t (codes "host") put_host cfg

abbrev pub set_authority : ScriptTable → Config → Result Config
set_authority t cfg = string_key t (codes "authority") put_authority cfg

abbrev pub set_path : ScriptTable → Config → Result Config
set_path t cfg = string_key t (codes "path") put_path cfg

abbrev pub set_port : ScriptTable → Config → Result Config
set_port t cfg = number_key t (codes "port") 65535 connection_port put_port cfg

abbrev pub set_insecure : ScriptTable → Config → Result Config
set_insecure t cfg = bool_key t (codes "insecure") put_insecure cfg

abbrev pub set_send_go_away : ScriptTable → Config → Result Config
set_send_go_away t cfg = bool_key t (codes "send_goaway") put_send_go_away cfg

abbrev pub set_timeout : ScriptTable → Config → Result Config
set_timeout t cfg = number_key t (codes "timeout_ms") no_limit connection_timeout put_timeout cfg

abbrev pub set_max_table : ScriptTable → Config → Result Config
set_max_table t cfg =
    number_key t (codes "max_table_size") no_limit connection_table_size put_max_table cfg

unfoldable pub apply_script_connection : Config → ScriptTable → Result Config
apply_script_connection cfg t =
    set_url t cfg
    >>= set_scheme t
    >>= set_host t
    >>= set_authority t
    >>= set_path t
    >>= set_port t
    >>= set_insecure t
    >>= set_send_go_away t
    >>= set_timeout t
    >>= set_max_table t
