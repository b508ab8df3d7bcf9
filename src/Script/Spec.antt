-- ===== src/Script/Spec.antt =====
-- cmd/mh2c/script_spec.go: the fields that an action may have.
pub mod Actions
pub mod Conforms
pub mod Repeats
pub mod Located
pub mod Describe
pub mod Checks
pub mod Validate
use mh2c_go.Base.{
  ℕ, Bool, true, false, not, List, [], ◌∷◌, ◌++◌, ltb, ◌==◌, if◌then◌else◌, Option, none, some,
  Bytes, bytes_eq, codes,
}
use mh2c_go.Script.Values.{
  ScriptValue, script_string, script_number, script_bool, script_string_list,
}
use mh2c_go.Script.Fields.{
  FlagNames, settings_flag_names, headers_flag_names, continuation_flag_names, data_flag_names,
  ping_flag_names, push_promise_flag_names,
}

-- `scriptValueKind`
pub data ScriptKind : Type 0 where
  kind_string : ScriptKind
  kind_number : ScriptKind
  kind_bool : ScriptKind
  kind_string_list : ScriptKind

abbrev pub kind_of : ScriptValue → ScriptKind
kind_of (script_string _) = kind_string
kind_of (script_number _) = kind_number
kind_of (script_bool _) = kind_bool
kind_of (script_string_list _) = kind_string_list

abbrev pub same_kind : ScriptKind → ScriptKind → Bool
same_kind kind_string kind_string = true
same_kind kind_number kind_number = true
same_kind kind_bool kind_bool = true
same_kind kind_string_list kind_string_list = true
same_kind _ _ = false

abbrev pub script_kind_name : ScriptKind → Bytes
script_kind_name kind_string = codes "string"
script_kind_name kind_number = codes "integer"
script_kind_name kind_bool = codes "boolean"
script_kind_name kind_string_list = codes "string array"

pub record FieldSpec : Type 0 where
  pub name : Bytes
  pub kind : ScriptKind
  pub required : Bool

pub record ActionSpec : Type 0 where
  pub name : Bytes
  pub fields : List FieldSpec
  pub flags : List Bytes
  pub settings : List Bytes
  pub until_values : List Bytes
  pub notes : List Bytes

abbrev pub optional : Bytes → ScriptKind → FieldSpec
optional name kind = record { name = name; kind = kind; required = false }

abbrev pub required : Bytes → ScriptKind → FieldSpec
required name kind = record { name = name; kind = kind; required = true }

abbrev pub connection_fields : List FieldSpec
connection_fields =
    optional (codes "url") kind_string
    ∷ optional (codes "scheme") kind_string
    ∷ optional (codes "host") kind_string
    ∷ optional (codes "authority") kind_string
    ∷ optional (codes "path") kind_string
    ∷ optional (codes "port") kind_number
    ∷ optional (codes "insecure") kind_bool
    ∷ optional (codes "send_goaway") kind_bool
    ∷ optional (codes "timeout_ms") kind_number
    ∷ optional (codes "max_table_size") kind_number
    ∷ []

abbrev pub common_action_fields : List FieldSpec
common_action_fields =
    optional (codes "repeat") kind_number ∷ optional (codes "stream_id_step") kind_number ∷ []

abbrev pub common_action_notes : List Bytes
common_action_notes =
    codes "repeat must be greater than 0 when set."
    ∷ codes "stream_id_step requires repeat and an action with stream_id."
    ∷ []

-- `sort.Strings` on the keys of a map of flags.
abbrev pub bytes_ltb : Bytes → Bytes → Bool
bytes_ltb [] [] = false
bytes_ltb [] (_ ∷ _) = true
bytes_ltb (_ ∷ _) [] = false
bytes_ltb (a ∷ xs) (b ∷ ys) = if a == b then bytes_ltb xs ys else ltb a b

abbrev insert_name : Bytes → List Bytes → List Bytes
insert_name n [] = n ∷ []
insert_name n (m ∷ ms) = if bytes_ltb m n then m ∷ insert_name n ms else (n ∷ m ∷ ms)

unfoldable pub sorted_keys : FlagNames → List Bytes
sorted_keys [] = []
sorted_keys ((n, _) ∷ rest) = insert_name n (sorted_keys rest)

-- `scriptActionFields`
abbrev pub action_fields : ActionSpec → List FieldSpec
action_fields spec = spec.fields ++ common_action_fields

unfoldable pub has_field : Bytes → List FieldSpec → Bool
has_field name [] = false
has_field name (f ∷ fs) = if bytes_eq f.name name then true else has_field name fs
