-- ===== src/Script/Spec/Checks.antt =====
-- cmd/mh2c/script_spec.go: the checks of the validation that read one table.
use mh2c_go.Base.{
  ℕ, ◌+◌, ◌-◌, ◌/◌, ◌^◌, Bool, true, false, not, ◌&&◌, ◌||◌, List, [], ◌∷◌, ltb, ◌==◌,
  if◌then◌else◌, Option, none, some, Bytes, bytes_eq, codes, Result, ok, err, ◌>>=◌, ◌>>◌,
  unsupported_key, wrong_kind, field_required, step_without_field, step_without_stream_id,
  step_overflow, unknown_until, exactly_one_of, not_together, count_not_positive, key_required,
}
use mh2c_go.Base.Int.{ℤ, is_positive}
use mh2c_go.Script.Values.{ScriptValue, ScriptTable, string_value, int_value, require_uint32}
use mh2c_go.Script.Text.{parse_hex_bytes}
use mh2c_go.Script.Fields.{FlagNames, flag_of, or_else}
use mh2c_go.Script.Repeat.{ActionRepeat, parse_action_repeat}
use mh2c_go.Script.Spec.{FieldSpec, ActionSpec, kind_of, same_kind, script_kind_name, has_field}

-- `allowed[key]`: of two fields with one name, the map has the last.
unfoldable pub find_field : Bytes → List FieldSpec → Option FieldSpec
find_field key [] = none
find_field key (f ∷ fs) = elim (find_field key fs) [
  | some g ↦ some g
  | none ↦ if bytes_eq f.name key then some f else none
]

abbrev pub is_some {ℓ} : {A : Type ℓ} → Option A → Bool
is_some none = false
is_some (some _) = true

-- What a call gives, dropped: `_, err := …; return err`.
abbrev pub only_error {ℓ} : {A : Type ℓ} → Result A → Result (Unit {0})
only_error r = r >>= λ _. ok tt

abbrev pub check_value : Bytes → Bytes → Option FieldSpec → ScriptValue → Result (Unit {0})
check_value scope key none v = err (unsupported_key scope key)
check_value scope key (some f) v =
    if same_kind (kind_of v) f.kind
    then ok tt
    else err (wrong_kind scope key (script_kind_name f.kind))

abbrev pub check_entry : Bytes → Bytes → Option FieldSpec → Option ScriptValue → Result (Unit {0})
check_entry scope key o none = ok tt
check_entry scope key o (some v) = check_value scope key o v

-- The loop over the table, which visits the keys in an order that Go leaves open.
unfoldable pub check_keys : Bytes → ScriptTable → List FieldSpec → List Bytes → Result (Unit {0})
check_keys scope table fields [] = ok tt
check_keys scope table fields (key ∷ keys) =
    let rest = check_keys scope table fields keys in
    check_entry scope key (find_field key fields) (table key) >> rest

unfoldable pub check_required : Bytes → ScriptTable → List FieldSpec → Result (Unit {0})
check_required scope table [] = ok tt
check_required scope table (f ∷ fs) =
    let rest = check_required scope table fs in
    if f.required && not (is_some (table f.name)) then err (field_required scope f.name) else rest

-- `validateScriptTable`, where the table's keys are visited in the order of the list.
unfoldable pub validate_script_table :
    Bytes → List Bytes → ScriptTable → List FieldSpec → Result (Unit {0})
unfolding check_keys check_required
validate_script_table scope keys table fields =
    check_keys scope table fields keys >> check_required scope table fields

-- The test on the last iteration; a positive int64 is itself as a uint64.
abbrev pub check_iterations : ActionRepeat → ℕ → Result (Unit {0})
check_iterations repeat base =
    if (repeat.stream_id_step == 0) || (repeat.count == 1)
    then ok tt
    else if ltb ((2 ^ 32 - 1 - base) / repeat.stream_id_step + 1) repeat.count
    then err step_overflow
    else ok tt

unfoldable pub check_step : ActionSpec → ScriptTable → ActionRepeat → Result (Unit {0})
check_step spec action repeat =
    if not repeat.has_stream_id_step
    then ok tt
    else if not (has_field (codes "stream_id") spec.fields)
    then err step_without_field
    else if not (is_some (action (codes "stream_id")))
    then err step_without_stream_id
    else (require_uint32 action (codes "stream_id") >>= λ base. check_iterations repeat base)

unfoldable pub validate_action_repeat : ActionSpec → ScriptTable → Result (Unit {0})
unfolding check_step
validate_action_repeat spec action =
    parse_action_repeat action >>= λ repeat. check_step spec action repeat

abbrev pub validate_until : ScriptTable → Option Bytes → Result (Unit {0})
validate_until action none = ok tt
validate_until action (some until) =
    if bytes_eq until (codes "settings")
    then ok tt
    else if bytes_eq until (codes "settings_ack")
    then ok tt
    else if bytes_eq until (codes "ping_ack")
    then ok tt
    else if bytes_eq until (codes "goaway")
    then ok tt
    else if not (bytes_eq until (codes "end_stream"))
    then err (unknown_until until)
    else if is_some (action (codes "stream_id"))
    then ok tt
    else err (key_required (codes "stream_id"))

abbrev check_count : Option ℤ → Result (Unit {0})
check_count none = ok tt
check_count (some v) = if is_positive v then ok tt else err count_not_positive

unfoldable pub validate_receive_action : ScriptTable → Result (Unit {0})
validate_receive_action action =
    if is_some (action (codes "count")) && is_some (action (codes "until"))
    then err (not_together (codes "count") (codes "until"))
    else (int_value action (codes "count") >>= λ count.
        check_count count
        >> (string_value action (codes "until") >>= λ until. validate_until action until))

unfoldable pub validate_exactly_one : ScriptTable → Bytes → Bytes → Result (Unit {0})
validate_exactly_one action left right = elim (is_some (action left)) [
  | true ↦ if is_some (action right) then err (exactly_one_of left right) else ok tt
  | false ↦ if is_some (action right) then ok tt else err (exactly_one_of left right)
]

unfoldable pub validate_not_both : ScriptTable → Bytes → Bytes → Result (Unit {0})
validate_not_both action left right =
    if is_some (action left) && is_some (action right) then err (not_together left right) else ok tt

abbrev check_hex : Option Bytes → Result (Unit {0})
check_hex none = ok tt
check_hex (some text) = only_error (parse_hex_bytes text)

unfoldable pub validate_hex_field : ScriptTable → Bytes → Result (Unit {0})
validate_hex_field action key = string_value action key >>= λ o. check_hex o

-- `headersFlagNames["PRIORITY"]`; a missing key gives 0.
unfoldable pub flag_value : FlagNames → Bytes → ℕ
unfolding flag_of
flag_value names key = or_else 0 (flag_of key names)
