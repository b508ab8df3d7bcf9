-- ===== src/Main/Prepared.antt =====
-- cmd/mh2c/main.go: what holds of a session that the arguments lead to.
use mh2c_go.Base.{
  ℕ, ◌^◌, ◌≤◌, ◌<◌, inl, inr, Bool, true, false, List, [], if◌then◌else◌, Bytes, bytes_eq, codes,
  Result, bound_ok, ok_same, ok, err, panic, diverge, ◌≡◌, ◌⊎◌, refl, subst, arith,
}
use mh2c_go.Base.Int.{ℤ}
use mh2c_go.Script.Text.{Unicode}
use mh2c_go.Script.Values.{ScriptTable}
use mh2c_go.Script.Parser.{RawScript, ScriptFile, parse_script_file}
use mh2c_go.Script.Spec.Validate.{validate_script}
use mh2c_go.Config.{Config, is_empty}
use mh2c_go.Config.Arguments.{parse_config}
use mh2c_go.Config.Checked.{runs_session, Checked, parse_config-Checked}
use mh2c_go.Config.Connection.{apply_script_connection}
use mh2c_go.Config.Endpoint.{Endpoint, Url, resolve_endpoint}
use mh2c_go.Config.Setup.{as_uint32}
use mh2c_go.Config.Reached.{Reachable, apply_script_connection-Kept, resolve_endpoint-Reachable}
use mh2c_go.Main.Prepare.{
  Task, shows_usage, is_usage, describes, writes_template, validated, validate_only, behind_script,
  behind_connection, connects, checked_script, connect_script, connect_plain, task_of, after_parse,
  prepare,
}

-- What holds of a session: of its endpoint, of the stream that `run` takes from the 64 bits of the
-- configuration, and of the actions of its script.
abbrev pub Ready :
    Unicode → (ScriptTable → List Bytes) → Config → Endpoint → List ScriptTable → Type 0
Ready U keys_of cfg ep actions =
    Reachable ep
    × ((is_empty cfg.raw_url ≡ false) ⊎ (ep.port ≡ cfg.port))
    × ((0 < as_uint32 cfg.stream_id) ⊎ (2 ^ 32 ≤ cfg.stream_id))
    × ((actions ≡ [])
        ⊎ ((connection : ScriptTable) × (validate_script U keys_of connection actions ≡ ok tt)))

stream_fits : (n : ℕ) → 0 < n → (0 < as_uint32 n) ⊎ (2 ^ 32 ≤ n)
stream_fits n pos = ground arith

module _ (U : Unicode) (keys_of : ScriptTable → List Bytes) where
  abbrev TaskReady : Task → Type 0
  TaskReady (connects cfg ep actions) = Ready U keys_of cfg ep actions
  TaskReady _ = Unit {0}

  branch-TaskReady :
      (b : Bool) (r s : Result Task) (task : Task)
      → (r ≡ ok task → TaskReady task)
      → (s ≡ ok task → TaskReady task)
      → (if b then r else s) ≡ ok task
      → TaskReady task
  branch-TaskReady true r s task f g h = f h
  branch-TaskReady false r s task f g h = g h

  given-TaskReady : (t task : Task) → TaskReady t → ok t ≡ ok task → TaskReady task
  given-TaskReady t task ready h = subst TaskReady (ok_same t task h) ready

module _ (U : Unicode) (keys_of : ScriptTable → List Bytes) (D : Bytes → Result ℤ)
    (parse_url : Bytes → Result Url) (decode : Bytes → Result RawScript)
    (read_file : Bytes → Result Bytes) where
  checked_script-valid :
      (cfg : Config) (script : ScriptFile)
      → checked_script U keys_of D parse_url decode read_file cfg ≡ ok script
      → validate_script U keys_of script.connection script.actions ≡ ok tt
  checked_script-valid cfg script h =
      let (read, _, h1) =
        bound_ok (parse_script_file decode read_file cfg.script_file) _ script h in
      let (_, valid, h2) =
        bound_ok (validate_script U keys_of read.connection read.actions) (λ _. ok read) script
          h1 in
      subst (λ x. validate_script U keys_of x.connection x.actions ≡ ok tt) (ok_same read script h2)
        valid

  connect_script-Ready :
      (cfg : Config) (task : Task)
      → Checked cfg
      → connect_script U keys_of D parse_url decode read_file cfg ≡ ok task
      → TaskReady U keys_of task
  connect_script-Ready cfg task checked h =
      let run = checked_script U keys_of D parse_url decode read_file cfg in
      let (script, checked_ok, h1) =
        bound_ok run (behind_script U keys_of D parse_url decode read_file cfg) task h in
      let (cfg', applied, h2) =
        bound_ok (apply_script_connection cfg script.connection)
          (λ c. behind_connection U keys_of D parse_url decode read_file c script.actions) task
          h1 in
      let (ep, reached, h3) =
        bound_ok (resolve_endpoint parse_url cfg') (λ e. ok (connects cfg' e script.actions)) task
          h2 in
      let passed = checked_script-valid cfg script checked_ok in
      let kept = apply_script_connection-Kept cfg cfg' script.connection checked.2 applied in
      let (reachable, port) = resolve_endpoint-Reachable parse_url cfg' ep kept.0 reached in
      given-TaskReady U keys_of (connects cfg' ep script.actions) task
        (
          reachable,
          port,
          stream_fits cfg'.stream_id (rw kept.1 checked.0),
          inr (script.connection, passed),
        )
        h3

  connect_plain-Ready :
      (cfg : Config) (task : Task)
      → Checked cfg
      → connect_plain U keys_of D parse_url decode read_file cfg ≡ ok task
      → TaskReady U keys_of task
  connect_plain-Ready cfg task checked h =
      let (ep, reached, h1) =
        bound_ok (resolve_endpoint parse_url cfg) (λ e. ok (connects cfg e [])) task h in
      let (reachable, port) = resolve_endpoint-Reachable parse_url cfg ep checked.2 reached in
      given-TaskReady U keys_of (connects cfg ep []) task
        (reachable, port, stream_fits cfg.stream_id checked.0, inl refl) h1

  validate_only-TaskReady :
      (cfg : Config) (task : Task)
      → validate_only U keys_of D parse_url decode read_file cfg ≡ ok task
      → TaskReady U keys_of task
  validate_only-TaskReady cfg task h =
      let (script, _, h1) =
        bound_ok (checked_script U keys_of D parse_url decode read_file cfg) (λ _. ok validated)
          task h in
      given-TaskReady U keys_of validated task tt h1

  task_of-Ready :
      (cfg : Config) (task : Task)
      → Checked cfg
      → task_of U keys_of D parse_url decode read_file cfg ≡ ok task
      → TaskReady U keys_of task
  unfolding task_of
  task_of-Ready cfg task checked h =
      branch-TaskReady U keys_of (bytes_eq cfg.script_command (codes "describe")) _ _ task
        (given-TaskReady U keys_of (describes cfg.script_describe) task tt)
        (branch-TaskReady U keys_of (bytes_eq cfg.script_command (codes "template")) _ _ task
          (given-TaskReady U keys_of (writes_template cfg.script_template) task tt)
          (branch-TaskReady U keys_of (bytes_eq cfg.script_command (codes "validate")) _ _ task
            (validate_only-TaskReady cfg task)
            (branch-TaskReady U keys_of (bytes_eq cfg.mode (codes "script")) _ _ task
              (connect_script-Ready cfg task checked) (connect_plain-Ready cfg task checked))))
        h

  -- Where the arguments of a command that connects lead to a session, the configuration of its script
  -- applied: the endpoint has the scheme https, a path, and a port of 16 bits, which without a URL is
  -- that of the configuration; the stream that the session uses, of 32 bits, is not 0 unless the
  -- configuration has a number of more than 32 bits; and the actions have passed the validation, where
  -- there are any.
  pub prepare-Ready :
      (args : List Bytes) (cfg : Config) (ep : Endpoint) (actions : List ScriptTable)
      → runs_session args ≡ true
      → prepare U keys_of D parse_url decode read_file args ≡ ok (connects cfg ep actions)
      → Ready U keys_of cfg ep actions
  unfolding prepare after_parse
  prepare-Ready args cfg ep actions runs h = read (parse_config U D args) refl h
    where
      read :
          (r : Result Config)
          → parse_config U D args ≡ r
          → after_parse U keys_of D parse_url decode read_file r ≡ ok (connects cfg ep actions)
          → Ready U keys_of cfg ep actions
      read (ok c) e h' =
          task_of-Ready c (connects cfg ep actions) (parse_config-Checked U D args c runs e) h'
      read (err why) e h' =
          branch-TaskReady U keys_of (is_usage why) (ok shows_usage) (err why)
            (connects cfg ep actions)
            (given-TaskReady U keys_of shows_usage (connects cfg ep actions) tt)
            (λ no. absurd (ground (arith, no))) h'
      read panic e h' = absurd (ground (arith, h'))
      read diverge e h' = absurd (ground (arith, h'))
