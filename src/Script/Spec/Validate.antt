-- ===== src/Script/Spec/Validate.antt =====
-- cmd/mh2c/script_spec.go: the validation of a script before it runs.
use mh2c_go.Base.{
  ℕ, suc, List, [], ◌∷◌, if◌then◌else◌, Option, none, some, Bytes, bytes_eq, codes, Result, ok, err,
  ◌>>=◌, ◌>>◌, in_action, unknown_action,
}
use mh2c_go.Frame.{has_flag}
use mh2c_go.Script.Values.{
  ScriptTable, string_list_value, int_value, require_string, require_uint32, optional_uint32,
}
use mh2c_go.Script.Text.{Unicode}
use mh2c_go.Script.Fields.{
  FlagNames, settings_flag_names, headers_flag_names, continuation_flag_names, data_flag_names,
  ping_flag_names, push_promise_flag_names, parse_flags, parse_script_settings, parse_header_texts,
  parse_priority, parse_ping_action_data, parse_error_code_action,
}
use mh2c_go.Script.Build.{raw_flags}
use mh2c_go.Script.Repeat.{parse_sleep_duration}
use mh2c_go.Script.Spec.{ActionSpec, required, kind_string, connection_fields, action_fields}
use mh2c_go.Script.Spec.Actions.{find_action_spec}
use mh2c_go.Script.Spec.Checks.{
  flag_value, only_error, validate_action_repeat, validate_exactly_one, validate_hex_field,
  validate_not_both, validate_receive_action, validate_script_table,
}

module _ (U : Unicode) where
  abbrev check_headers : Option (List Bytes) → Result (Unit {0})
  check_headers none = ok tt
  check_headers (some texts) = only_error (parse_header_texts U texts)

  unfoldable pub validate_header_list : ScriptTable → Bytes → Result (Unit {0})
  validate_header_list action key = string_list_value action key >>= λ o. check_headers o

  unfoldable pub parse_flags_only : ScriptTable → FlagNames → Result (Unit {0})
  parse_flags_only action names = only_error (parse_flags U action names)

  abbrev check_settings : Option (List Bytes) → Result (Unit {0})
  check_settings none = ok tt
  check_settings (some texts) = only_error (parse_script_settings U texts)

  unfoldable pub validate_settings : ScriptTable → Result (Unit {0})
  unfolding parse_flags_only
  validate_settings action = do
    texts ← string_list_value action (codes "settings")
    check_settings texts
    parse_flags_only action settings_flag_names

  abbrev check_priority : ScriptTable → ℕ → Result (Unit {0})
  check_priority action flags =
      if has_flag flags (flag_value headers_flag_names (codes "PRIORITY"))
      then only_error (parse_priority action)
      else ok tt

  unfoldable pub validate_headers : ScriptTable → Result (Unit {0})
  unfolding validate_exactly_one validate_header_list validate_hex_field
  validate_headers action = do
    validate_exactly_one action (codes "headers") (codes "block_hex")
    validate_header_list action (codes "headers")
    validate_hex_field action (codes "block_hex")
    flags ← parse_flags U action headers_flag_names
    check_priority action flags

  unfoldable pub validate_continuation : ScriptTable → Result (Unit {0})
  unfolding validate_hex_field parse_flags_only
  validate_continuation action = do
    validate_hex_field action (codes "block_hex")
    parse_flags_only action continuation_flag_names

  unfoldable pub validate_data : ScriptTable → Result (Unit {0})
  unfolding validate_not_both validate_hex_field parse_flags_only
  validate_data action = do
    validate_not_both action (codes "data") (codes "data_hex")
    validate_hex_field action (codes "data_hex")
    parse_flags_only action data_flag_names

  unfoldable pub validate_ping : ScriptTable → Result (Unit {0})
  unfolding parse_flags_only
  validate_ping action = do
    payload ← parse_ping_action_data action
    parse_flags_only action ping_flag_names

  unfoldable pub validate_go_away : ScriptTable → Result (Unit {0})
  unfolding validate_not_both validate_hex_field
  validate_go_away action = do
    code ← parse_error_code_action U action
    validate_not_both action (codes "debug_data") (codes "debug_hex")
    validate_hex_field action (codes "debug_hex")

  unfoldable pub validate_push_promise : ScriptTable → Result (Unit {0})
  unfolding validate_exactly_one validate_header_list validate_hex_field parse_flags_only
  validate_push_promise action = do
    validate_exactly_one action (codes "headers") (codes "block_hex")
    validate_header_list action (codes "headers")
    validate_hex_field action (codes "block_hex")
    parse_flags_only action push_promise_flag_names

  unfoldable pub validate_raw : ScriptTable → Result (Unit {0})
  unfolding validate_hex_field
  validate_raw action = do
    v ← int_value action (codes "flags")
    flags ← raw_flags v
    len ← optional_uint32 action (codes "length")
    validate_hex_field action (codes "payload_hex")

  -- The switch of `validateScriptAction`.
  unfoldable pub validate_case : Bytes → ScriptTable → Result (Unit {0})
  validate_case name action =
      if bytes_eq name (codes "sleep")
      then only_error (parse_sleep_duration action)
      else if bytes_eq name (codes "settings")
      then validate_settings action
      else if bytes_eq name (codes "headers")
      then validate_headers action
      else if bytes_eq name (codes "continuation")
      then validate_continuation action
      else if bytes_eq name (codes "data")
      then validate_data action
      else if bytes_eq name (codes "ping")
      then validate_ping action
      else if bytes_eq name (codes "goaway")
      then validate_go_away action
      else if bytes_eq name (codes "window_update")
      then only_error (require_uint32 action (codes "increment"))
      else if bytes_eq name (codes "rst_stream")
      then only_error (parse_error_code_action U action)
      else if bytes_eq name (codes "priority")
      then only_error (parse_priority action)
      else if bytes_eq name (codes "push_promise")
      then validate_push_promise action
      else if bytes_eq name (codes "raw")
      then validate_raw action
      else if bytes_eq name (codes "receive")
      then validate_receive_action action
      else ok tt

  -- The order in which `range` visits the keys of a table.
  module _ (keys_of : ScriptTable → List Bytes) where
    unfoldable pub validate_script_action : ActionSpec → ScriptTable → Result (Unit {0})
    unfolding validate_script_table validate_action_repeat validate_case
    validate_script_action spec action = do
      validate_script_table (codes "action") (keys_of action) action
          (required (codes "type") kind_string ∷ action_fields spec)
      validate_action_repeat spec action
      validate_case spec.name action

    abbrev with_spec : Bytes → ScriptTable → Option ActionSpec → Result (Unit {0})
    with_spec type action none = err (unknown_action type)
    with_spec type action (some spec) = validate_script_action spec action

    abbrev in_action_error : ℕ → Result (Unit {0}) → Result (Unit {0})
    in_action_error n (err why) = err (in_action n why)
    in_action_error n r = r

    abbrev pub validate_typed : ScriptTable → Result (Unit {0})
    validate_typed action = do
      type ← require_string action (codes "type")
      with_spec type action (find_action_spec type)

    -- The loop over the actions, from the action at `index`.
    unfoldable pub validate_actions : ℕ → List ScriptTable → Result (Unit {0})
    unfolding validate_script_action
    validate_actions index [] = ok tt
    validate_actions index (action ∷ rest) =
        let others = validate_actions (suc index) rest in
        in_action_error (suc index) (validate_typed action) >> others

    -- `validateScript`, of the connection and the actions.
    unfoldable pub validate_script : ScriptTable → List ScriptTable → Result (Unit {0})
    unfolding validate_actions
    validate_script connection actions =
        validate_script_table (codes "connection") (keys_of connection) connection connection_fields
        >> validate_actions 0 actions
