-- ===== src/Main/Prepare.antt =====
-- cmd/mh2c/main.go: what a run does before it connects.
use mh2c_go.Base.{
  Bool, true, false, Error, List, [], if◌then◌else◌, Bytes, bytes_eq, codes, Result, ok, err, panic,
  diverge, help_requested, ◌>>=◌, ◌>>◌,
}
use mh2c_go.Base.Int.{ℤ}
use mh2c_go.Script.Text.{Unicode}
use mh2c_go.Script.Values.{ScriptTable}
use mh2c_go.Script.Parser.{RawScript, ScriptFile, parse_script_file}
use mh2c_go.Script.Spec.Validate.{validate_script}
use mh2c_go.Config.{Config}
use mh2c_go.Config.Arguments.{parse_config}
use mh2c_go.Config.Connection.{apply_script_connection}
use mh2c_go.Config.Endpoint.{Endpoint, Url, resolve_endpoint}

-- What the arguments ask for: the text that is asked for, no more than the validation of a script, or
-- a session with the endpoint, and the actions of its script.
pub data Task : Type 0 where
  shows_usage : Task
  describes : Bytes → Task
  writes_template : Bytes → Task
  validated : Task
  connects : Config → Endpoint → List ScriptTable → Task

-- `errors.Is(err, flag.ErrHelp)`
abbrev pub is_usage : Error → Bool
is_usage help_requested = true
is_usage _ = false

-- The order of a table's keys, `time.ParseDuration`, `url.Parse`, the TOML decoder and
-- `os.ReadFile` are parameters.
module _ (U : Unicode) (keys_of : ScriptTable → List Bytes) (parse_duration : Bytes → Result ℤ)
    (parse_url : Bytes → Result Url) (decode : Bytes → Result RawScript)
    (read_file : Bytes → Result Bytes) where
  abbrev pub checked_script : Config → Result ScriptFile
  checked_script cfg = do
    script ← parse_script_file decode read_file cfg.script_file
    validate_script U keys_of script.connection script.actions
    ok script

  abbrev pub behind_connection : Config → List ScriptTable → Result Task
  behind_connection cfg actions = do
    ep ← resolve_endpoint parse_url cfg
    ok (connects cfg ep actions)

  abbrev pub behind_script : Config → ScriptFile → Result Task
  behind_script cfg script = do
    cfg' ← apply_script_connection cfg script.connection
    behind_connection cfg' script.actions

  abbrev pub connect_script : Config → Result Task
  connect_script cfg = do script ← checked_script cfg; behind_script cfg script

  abbrev pub connect_plain : Config → Result Task
  connect_plain cfg = behind_connection cfg []

  abbrev pub validate_only : Config → Result Task
  validate_only cfg = do script ← checked_script cfg; ok validated

  unfoldable pub task_of : Config → Result Task
  task_of cfg =
      if bytes_eq cfg.script_command (codes "describe")
      then ok (describes cfg.script_describe)
      else if bytes_eq cfg.script_command (codes "template")
      then ok (writes_template cfg.script_template)
      else if bytes_eq cfg.script_command (codes "validate")
      then validate_only cfg
      else if bytes_eq cfg.mode (codes "script")
      then connect_script cfg
      else connect_plain cfg

  -- A call for help ends the run without an error.
  unfoldable pub after_parse : Result Config → Result Task
  after_parse (err why) = if is_usage why then ok shows_usage else err why
  after_parse (ok cfg) = task_of cfg
  after_parse panic = panic
  after_parse diverge = diverge

  -- `run` up to the endpoint.
  unfoldable pub prepare : List Bytes → Result Task
  unfolding after_parse
  prepare args = after_parse (parse_config U parse_duration args)
