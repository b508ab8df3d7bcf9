-- ===== src/Config/Arguments.antt =====
-- cmd/mh2c/config.go: the commands and their flags.
use mh2c_go.Base.{
  ℕ, ◌-◌, ◌^◌, Bool, true, false, ◌||◌, List, [], ◌∷◌, ◌++◌, ◌==◌, if◌then◌else◌, length, take,
  Bytes, bytes_eq, codes, Result, ok, err, ◌>>=◌, help_requested, missing_command, mode_replaced,
  command_expected, unknown_command, positional_arguments, script_file_required, one_template, none,
}
use mh2c_go.Base.Int.{ℤ}
use mh2c_go.Script.Text.{Unicode}
use mh2c_go.Config.{
  Config, OptionalUint, default_config, apply_stream_filter, is_empty, validate_execution_config,
}
use mh2c_go.Config.Flags.{
  Setter, FlagSet, value_setter, string_flag, uint_flag, bool_flag, parse_decimal, parse_arguments,
}

-- What the flags of a command change: the configuration, and the stream filter beside it.
abbrev pub Parsed : Type 0
Parsed = Config × OptionalUint

abbrev pub no_filter : OptionalUint
no_filter = record { value = 0; is_set = false }

-- A change of the configuration.
abbrev on_config : (Config → Config) → Parsed → Parsed
on_config f (cfg, filter) = (f cfg, filter)

abbrev text_flag : Bytes → (Bytes → Config → Config) → Bytes × Setter Parsed
text_flag name put = (name, string_flag (λ v. on_config (put v)))

abbrev number_flag : Bytes → (ℕ → Config → Config) → Bytes × Setter Parsed
number_flag name put = (name, uint_flag (λ v. on_config (put v)))

abbrev switch_flag : Bytes → (Bool → Config → Config) → Bytes × Setter Parsed
switch_flag name put = (name, bool_flag (λ v. on_config (put v)))

-- `optionalUintFlag.Set`
abbrev filter_flag : Bytes → Parsed → Result Parsed
filter_flag text (cfg, filter) = do
  n ← parse_decimal (2 ^ 64 - 1) text
  ok (cfg, record { value = n; is_set = true })

-- `addCaptureFlags`
abbrev pub capture_flags : FlagSet Parsed
capture_flags =
    text_flag (codes "save-body") (λ v c. record c { save_body = v })
    ∷ text_flag (codes "save-headers") (λ v c. record c { save_headers = v })
    ∷ []

-- `addRequestFlags`
abbrev pub request_command_flags : FlagSet Parsed
request_command_flags =
    capture_flags
    ++ text_flag (codes "method") (λ v c. record c { method = v })
      ∷ text_flag (codes "data") (λ v c. record c { body_data = v })
      ∷ text_flag (codes "body-file") (λ v c. record c { body_file = v })
      ∷ text_flag (codes "header") (λ v c. record c { headers = c.headers ++ v ∷ [] })
      ∷ []

abbrev pub script_file_flag : Bytes × Setter Parsed
script_file_flag = text_flag (codes "script-file") (λ v c. record c { script_file = v })

-- `fs.Parse` and `rejectPositionalArgs`.
abbrev pub parse_all : FlagSet Parsed → Config → List Bytes → Result Parsed
parse_all flags cfg args = do
  r ← parse_arguments flags none (cfg, no_filter) args
  if length r.1 == 0 then ok r.0 else err (positional_arguments r.1)

abbrev pub with_filter : Parsed → Config
with_filter (cfg, filter) = apply_stream_filter cfg filter

abbrev pub with_script_file : Config → Result Config
with_script_file cfg = if is_empty cfg.script_file then err script_file_required else ok cfg

abbrev one_argument : Parsed × List Bytes → Result Config
one_argument ((cfg, _), name ∷ []) = ok (record cfg { script_template = name })
one_argument _ = err one_template

abbrev is_help : Bytes → Bool
is_help arg = bytes_eq arg (codes "-h") || bytes_eq arg (codes "--help")

abbrev pub in_mode : Bytes → Config
in_mode name = record default_config { mode = name }

-- `time.ParseDuration` is a parameter.
module _ (U : Unicode) (parse_duration : Bytes → Result ℤ) where
  abbrev duration_flag : Bytes → Parsed → Result Parsed
  duration_flag text (cfg, filter) = do
    d ← parse_duration text
    ok (record cfg { timeout = d }, filter)

  -- `addExecutionFlags`
  abbrev pub execution_flags : FlagSet Parsed
  execution_flags =
      text_flag (codes "url") (λ v c. record c { raw_url = v })
      ∷ text_flag (codes "scheme") (λ v c. record c { scheme = v })
      ∷ text_flag (codes "host") (λ v c. record c { host = v })
      ∷ number_flag (codes "port") (λ v c. record c { port = v })
      ∷ text_flag (codes "authority") (λ v c. record c { authority = v })
      ∷ text_flag (codes "path") (λ v c. record c { path = v })
      ∷ (codes "timeout", value_setter duration_flag)
      ∷ number_flag (codes "max-table-size") (λ v c. record c { max_table = v })
      ∷ number_flag (codes "stream-id") (λ v c. record c { stream_id = v })
      ∷ (codes "stream-filter", value_setter filter_flag)
      ∷ switch_flag (codes "insecure") (λ v c. record c { insecure = v })
      ∷ switch_flag (codes "send-goaway") (λ v c. record c { send_go_away = v })
      ∷ text_flag (codes "output") (λ v c. record c { output_format = v })
      ∷ text_flag (codes "data-format") (λ v c. record c { data_format = v })
      ∷ number_flag (codes "data-limit") (λ v c. record c { data_limit = v })
      ∷ switch_flag (codes "decode-headers") (λ v c. record c { decode_headers = v })
      ∷ switch_flag (codes "show-header-block") (λ v c. record c { show_header_block = v })
      ∷ text_flag (codes "save-output") (λ v c. record c { save_output = v })
      ∷ text_flag (codes "frame-filter")
          (λ v c. record c { frame_filters = c.frame_filters ++ v ∷ [] })
      ∷ text_flag (codes "direction-filter")
          (λ v c. record c { direction_filters = c.direction_filters ++ v ∷ [] })
      ∷ []

  -- The commands that run a session, with the flags that each adds.
  unfoldable pub parse_execution : FlagSet Parsed → Config → List Bytes → Result Config
  parse_execution flags cfg args = do
    p ← parse_all (execution_flags ++ flags) cfg args
    validate_execution_config U (with_filter p)

  unfoldable pub parse_request_config : Config → List Bytes → Result Config
  unfolding parse_execution
  parse_request_config cfg args = parse_execution request_command_flags cfg args

  unfoldable pub parse_ping_config : Config → List Bytes → Result Config
  unfolding parse_execution
  parse_ping_config cfg args =
      parse_execution (text_flag (codes "ping-data") (λ v c. record c { ping_data = v }) ∷ []) cfg
        args

  unfoldable pub parse_observe_config : Config → List Bytes → Result Config
  unfolding parse_execution
  parse_observe_config cfg args =
      parse_execution
        (capture_flags ++ number_flag (codes "max-recv") (λ v c. record c { max_recv = v }) ∷ [])
        cfg args

  -- The cases of `parseScriptConfig`.
  unfoldable pub parse_script_run : Config → List Bytes → Result Config
  parse_script_run cfg args = do
    p ← parse_all (execution_flags ++ script_file_flag ∷ []) cfg args
    c ← with_script_file (with_filter p)
    validate_execution_config U c

  unfoldable pub parse_script_describe : Config → List Bytes → Result Config
  parse_script_describe cfg args = do
    p ← parse_all (text_flag (codes "type") (λ v c. record c { script_describe = v }) ∷ []) cfg args
    ok p.0

  unfoldable pub parse_script_template : Config → List Bytes → Result Config
  parse_script_template cfg args = parse_arguments [] none (cfg, no_filter) args >>= one_argument

  unfoldable pub parse_script_validate : Config → List Bytes → Result Config
  parse_script_validate cfg args = do
    p ← parse_all (script_file_flag ∷ []) cfg args
    with_script_file p.0

  unfoldable pub parse_script_config : Config → List Bytes → Result Config
  unfolding parse_script_run parse_script_describe parse_script_template parse_script_validate
  parse_script_config cfg [] = err missing_command
  parse_script_config cfg (arg ∷ args) =
      if is_help arg
      then err help_requested
      else if bytes_eq arg (codes "run")
      then parse_script_run (record cfg { script_command = codes "run" }) args
      else if bytes_eq arg (codes "describe")
      then parse_script_describe (record cfg { script_command = codes "describe" }) args
      else if bytes_eq arg (codes "template")
      then parse_script_template (record cfg { script_command = codes "template" }) args
      else if bytes_eq arg (codes "validate")
      then parse_script_validate (record cfg { script_command = codes "validate" }) args
      else err (unknown_command arg)

  -- `parseConfig`; the usage that it prints for a person is left out.
  unfoldable pub parse_config : List Bytes → Result Config
  unfolding parse_request_config parse_ping_config parse_observe_config parse_script_config
  parse_config [] = err missing_command
  parse_config (arg ∷ args) =
      if is_help arg
      then err help_requested
      else if bytes_eq arg (codes "--mode") || bytes_eq (take 7 arg) (codes "--mode=")
      then err mode_replaced
      else if bytes_eq (take 1 arg) (codes "-")
      then err (command_expected arg)
      else if bytes_eq arg (codes "request")
      then parse_request_config (in_mode (codes "request")) args
      else if bytes_eq arg (codes "ping")
      then parse_ping_config (in_mode (codes "ping")) args
      else if bytes_eq arg (codes "observe")
      then parse_observe_config (in_mode (codes "observe")) args
      else if bytes_eq arg (codes "script")
      then parse_script_config (in_mode (codes "script")) args
      else err (unknown_command arg)
