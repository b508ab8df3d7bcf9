-- ===== src/Config/Checked.antt =====
-- cmd/mh2c/config.go, script.go and endpoint.go: what holds of a configuration that is accepted.
use mh2c_go.Base.{
  not-false, ◌^◌, ◌<◌, Bool, true, false, not, if◌then◌else◌, List, [], ◌∷◌, Bytes, bytes_eq, codes,
  Result, guarded_ok, ok_same, save_unsupported, invalid_output, invalid_data_format, bound_ok, ok,
  err, ◌>>=◌, ◌≡◌, sym, subst, ◌++◌, arith,
}
use mh2c_go.Base.Int.{ℤ}
use mh2c_go.Script.Text.{Unicode}
use mh2c_go.Config.{
  Config, is_format, is_data_format, saves_allowed, check_filters, check_saves, check_formats,
  validate_execution_config,
}
use mh2c_go.Config.Flags.{FlagSet}
use mh2c_go.Config.Arguments.{
  in_mode, Parsed, parse_all, with_filter, with_script_file, script_file_flag, execution_flags,
  parse_execution, parse_request_config, parse_ping_config, parse_observe_config, parse_script_run,
  parse_script_config, parse_config,
}

-- Whether the arguments are those of a command that connects, `script run` among them.
abbrev pub runs_script : List Bytes → Bool
runs_script [] = false
runs_script (arg ∷ args) = bytes_eq arg (codes "run")

abbrev pub runs_session : List Bytes → Bool
runs_session [] = false
runs_session (arg ∷ args) = if bytes_eq arg (codes "script") then runs_script args else true

-- What the validation promises of a configuration that runs a session.
abbrev pub Checked : Config → Type 0
Checked cfg =
    (0 < cfg.stream_id)
    × (cfg.max_table < 2 ^ 32)
    × (cfg.port < 2 ^ 16)
    × (is_format cfg.output_format ≡ true)
    × (is_data_format cfg.data_format ≡ true)
    × (saves_allowed cfg ≡ true)

saves-Checked :
    (cfg out : Config) → check_saves cfg ≡ ok out → (out ≡ cfg) × (saves_allowed cfg ≡ true)
saves-Checked cfg out h =
    let (allowed, same) = guarded_ok (not (saves_allowed cfg)) save_unsupported (ok cfg) out h in
    (sym (ok_same cfg out same), not-false (saves_allowed cfg) allowed)

module _ (U : Unicode) where
  formats-Checked :
      (cfg out : Config)
      → check_formats U cfg ≡ ok out
      → (out ≡ cfg)
        × (is_format cfg.output_format ≡ true)
        × (is_data_format cfg.data_format ≡ true)
        × (saves_allowed cfg ≡ true)
  formats-Checked cfg out h =
      let rest = check_filters U cfg >>= λ _. check_saves cfg in
      let data_check =
        if not (is_data_format cfg.data_format)
        then err (invalid_data_format cfg.data_format)
        else rest in
      let (f, h1) =
        guarded_ok (not (is_format cfg.output_format)) (invalid_output cfg.output_format) data_check
          out h in
      let (d, h2) =
        guarded_ok (not (is_data_format cfg.data_format)) (invalid_data_format cfg.data_format) rest
          out h1 in
      let (u, done, h3) = bound_ok (check_filters U cfg) (λ _. check_saves cfg) out h2 in
      let (same, saves) = saves-Checked cfg out h3 in
      (
        same,
        not-false (is_format cfg.output_format) f,
        not-false (is_data_format cfg.data_format) d,
        saves,
      )

  validate_execution_config-Checked :
      (cfg out : Config) → validate_execution_config U cfg ≡ ok out → (out ≡ cfg) × Checked cfg
  unfolding validate_execution_config
  validate_execution_config-Checked cfg out h = ground (arith, formats-Checked cfg out, h)

  -- What follows the parse of the flags of a command that runs a session.
  module _ (D : Bytes → Result ℤ) where
    parse_execution-Checked :
        (flags : FlagSet Parsed) (cfg : Config) (args : List Bytes) (out : Config)
        → parse_execution U D flags cfg args ≡ ok out
        → Checked out
    unfolding parse_execution
    parse_execution-Checked flags cfg args out h =
        let parsed = parse_all (execution_flags U D ++ flags) cfg args in
        let (p, _, valid) =
          bound_ok parsed (λ q. validate_execution_config U (with_filter q)) out h in
        let (same, checked) = validate_execution_config-Checked (with_filter p) out valid in
        subst Checked (sym same) checked

    parse_request_config-Checked :
        (cfg : Config) (args : List Bytes) (out : Config)
        → parse_request_config U D cfg args ≡ ok out
        → Checked out
    unfolding parse_request_config
    parse_request_config-Checked cfg args out h = parse_execution-Checked _ cfg args out h

    parse_ping_config-Checked :
        (cfg : Config) (args : List Bytes) (out : Config)
        → parse_ping_config U D cfg args ≡ ok out
        → Checked out
    unfolding parse_ping_config
    parse_ping_config-Checked cfg args out h = parse_execution-Checked _ cfg args out h

    parse_observe_config-Checked :
        (cfg : Config) (args : List Bytes) (out : Config)
        → parse_observe_config U D cfg args ≡ ok out
        → Checked out
    unfolding parse_observe_config
    parse_observe_config-Checked cfg args out h = parse_execution-Checked _ cfg args out h

    parse_script_run-Checked :
        (cfg : Config) (args : List Bytes) (out : Config)
        → parse_script_run U D cfg args ≡ ok out
        → Checked out
    unfolding parse_script_run
    parse_script_run-Checked cfg args out h =
        let parsed = parse_all (execution_flags U D ++ script_file_flag ∷ []) cfg args in
        let (p, _, h1) =
          bound_ok parsed
            (λ q. with_script_file (with_filter q) >>= λ c. validate_execution_config U c) out h in
        let (c, _, valid) =
          bound_ok (with_script_file (with_filter p)) (λ c. validate_execution_config U c) out h1 in
        let (same, checked) = validate_execution_config-Checked c out valid in
        subst Checked (sym same) checked

    parse_script_config-Checked :
        (cfg : Config) (args : List Bytes) (out : Config)
        → runs_script args ≡ true
        → parse_script_config U D cfg args ≡ ok out
        → Checked out
    unfolding parse_script_config
    parse_script_config-Checked cfg [] out runs h = absurd (ground (arith, runs))
    parse_script_config-Checked cfg (arg ∷ args) out runs h = ground (
      arith,
      parse_script_run-Checked (record cfg { script_command = codes "run" }) args out,
      runs,
      h,
    )

    pub parse_config-Checked :
        (args : List Bytes) (out : Config)
        → runs_session args ≡ true
        → parse_config U D args ≡ ok out
        → Checked out
    unfolding parse_config
    parse_config-Checked [] out runs h = absurd (ground (arith, runs))
    parse_config-Checked (arg ∷ args) out runs h = ground (
      arith,
      parse_request_config-Checked (in_mode (codes "request")) args out,
      parse_ping_config-Checked (in_mode (codes "ping")) args out,
      parse_observe_config-Checked (in_mode (codes "observe")) args out,
      parse_script_config-Checked (in_mode (codes "script")) args out,
      runs,
      h,
    )
