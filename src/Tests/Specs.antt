-- ===== src/Tests/Specs.antt =====
-- The validation of scripts at concrete tables.
use mh2c_go.Base.{
  ℕ, true, List, [], ◌∷◌, some, none, Bytes, bytes_eq, codes, ok, err, ◌≡◌, ◌≢◌, refl, arith, All,
  if◌then◌else◌, in_action, step_overflow, key_required,
}
use mh2c_go.Base.Int.{pos}
use mh2c_go.Script.Values.{
  ScriptTable, script_string, script_number, require_string, require_uint32, int_value,
  optional_uint32,
}
use mh2c_go.Script.Parser.{no_keys}
use mh2c_go.Script.Repeat.{ActionRepeat, parse_action_repeat, action_for_repeat_iteration}
use mh2c_go.Script.Spec.{
  FieldSpec, required, optional, kind_string, kind_number, has_field, connection_fields,
}
use mh2c_go.Script.Spec.Actions.{window_update_spec, find_action_spec}
use mh2c_go.Script.Spec.Checks.{
  is_some, find_field, check_keys, check_required, check_step, validate_script_table,
  validate_action_repeat,
}
use mh2c_go.Script.Spec.Validate.{validate_typed, validate_script_action, validate_script}
use mh2c_go.Script.Spec.Conforms.{
  Conforms, Present, has_key, validate_script_table-Conforms, validate_script_table-order,
}
use mh2c_go.Script.Spec.Repeats.{validate_action_repeat-runs, validate_action_repeat-overflow}
use mh2c_go.Script.Spec.Located.{validate_script-first}
use mh2c_go.Tests.Scripts.{ascii}

-- A table with two keys, and fields for them.
abbrev two_keys : ScriptTable
two_keys k =
    if bytes_eq (codes "type") k
    then some (script_string (codes "ping"))
    else if bytes_eq (codes "stream_id") k
    then some (script_number (pos 1))
    else none

abbrev two_fields : List FieldSpec
two_fields = required (codes "type") kind_string ∷ optional (codes "stream_id") kind_number ∷ []

abbrev key_order : List Bytes
key_order = codes "type" ∷ codes "stream_id" ∷ []

abbrev other_order : List Bytes
other_order = codes "stream_id" ∷ codes "type" ∷ codes "absent" ∷ []

every_key : (k : Bytes) → is_some (two_keys k) ≡ true → has_key key_order k ≡ true
unfolding has_key
every_key k h = ground (arith, h)

two_keys_pass : validate_script_table (codes "action") key_order two_keys two_fields ≡ ok tt
unfolding validate_script_table check_keys check_required find_field bytes_eq
two_keys_pass = refl

validate_script_table-Conforms_example :
    Conforms two_keys two_fields (codes "stream_id") × All (Present two_keys) two_fields
validate_script_table-Conforms_example =
    validate_script_table-Conforms (codes "action") key_order two_keys two_fields
      (codes "stream_id") every_key two_keys_pass

validate_script_table-order_example :
    validate_script_table (codes "action") other_order two_keys two_fields ≡ ok tt
validate_script_table-order_example =
    validate_script_table-order (codes "action") key_order other_order two_keys two_fields every_key
      two_keys_pass

-- WINDOW_UPDATE three times, on streams two apart.
abbrev repeated : ℕ → ScriptTable
repeated first k =
    if bytes_eq (codes "repeat") k
    then some (script_number (pos 3))
    else if bytes_eq (codes "stream_id_step") k
    then some (script_number (pos 2))
    else if bytes_eq (codes "stream_id") k
    then some (script_number (pos first))
    else none

abbrev three_by_two : ActionRepeat
three_by_two = record { count = 3; stream_id_step = 2; has_stream_id_step = true }

repeated_parsed : (first : ℕ) → parse_action_repeat (repeated first) ≡ ok three_by_two
unfolding parse_action_repeat int_value optional_uint32 bytes_eq
repeated_parsed first = refl

repeated_pass : validate_action_repeat window_update_spec (repeated 1) ≡ ok tt
unfolding validate_action_repeat parse_action_repeat int_value optional_uint32 bytes_eq check_step
    require_uint32 has_field
repeated_pass = refl

increment_other : codes "increment" ≢ codes "stream_id"
increment_other e = ground (arith, e)

validate_action_repeat-runs_example :
    (out : ScriptTable) × (action_for_repeat_iteration (repeated 1) three_by_two 2 ≡ ok out)
    × (out (codes "increment") ≡ repeated 1 (codes "increment"))
validate_action_repeat-runs_example =
    validate_action_repeat-runs window_update_spec (repeated 1) three_by_two 2 (codes "increment")
      (repeated_parsed 1) repeated_pass (omega arith) increment_other

last_id : require_uint32 (repeated 4294967293) (codes "stream_id") ≡ ok 4294967293
unfolding require_uint32 int_value bytes_eq
last_id = refl

stream_field : has_field (codes "stream_id") window_update_spec.fields ≡ true
unfolding has_field bytes_eq
stream_field = refl

validate_action_repeat-overflow_example :
    validate_action_repeat window_update_spec (repeated 4294967293) ≡ err step_overflow
validate_action_repeat-overflow_example =
    validate_action_repeat-overflow window_update_spec (repeated 4294967293) three_by_two 4294967293
      2 (repeated_parsed 4294967293) refl stream_field last_id refl (omega arith)

-- The preface, and an action with no type.
abbrev preface_action : ScriptTable
preface_action k =
    if bytes_eq (codes "type") k then some (script_string (codes "preface")) else none

abbrev by_name : ScriptTable → List Bytes
by_name t = if is_some (t (codes "type")) then codes "type" ∷ [] else []

empty_connection :
    validate_script_table (codes "connection") (by_name no_keys) no_keys connection_fields ≡ ok tt
unfolding validate_script_table check_keys check_required bytes_eq
empty_connection = refl

preface_valid : validate_typed ascii by_name preface_action ≡ ok tt
unfolding require_string find_action_spec bytes_eq validate_script_action find_field
    parse_action_repeat int_value optional_uint32
preface_valid = refl

untyped : validate_typed ascii by_name no_keys ≡ err (key_required (codes "type"))
unfolding require_string
untyped = refl

validate_script-first_example :
    validate_script ascii by_name no_keys (preface_action ∷ no_keys ∷ [])
    ≡ err (in_action 2 (key_required (codes "type")))
validate_script-first_example =
    validate_script-first ascii by_name no_keys (preface_action ∷ []) [] no_keys
      (key_required (codes "type")) empty_connection (preface_valid, tt) untyped
