-- ===== src/Script/Parser.antt =====
-- cmd/mh2c/script_parser.go: a script from its TOML.
use mh2c_go.Base.{
  ℕ, suc, Bool, List, [], ◌∷◌, ◌++◌, none, Bytes, codes, Result, ok, err, ◌>>=◌, array_not_strings,
  unsupported_toml, no_actions, in_table,
}
use mh2c_go.Base.Int.{ℤ}
use mh2c_go.Frame.Strings.{number_text}
use mh2c_go.Script.Values.{
  ScriptValue, ScriptTable, script_string, script_number, script_bool, script_string_list, set_key,
}

-- What the TOML library decodes a value to, as far as the program tells the types apart.
pub data TomlItem : Type 0 where
  item_text : Bytes → TomlItem
  item_other : TomlItem

pub data TomlValue : Type 0 where
  toml_string : Bytes → TomlValue
  toml_integer : ℤ → TomlValue
  toml_boolean : Bool → TomlValue
  toml_array : List TomlItem → TomlValue
  toml_other : TomlValue

-- `map[string]any`, in the order in which `range` visits it.
abbrev pub TomlTable : Type 0
TomlTable = List (Bytes × TomlValue)

-- The anonymous struct of `parseScript`.
pub record RawScript : Type 0 where
  pub connection : TomlTable
  pub actions : List TomlTable

-- `scriptFile`
pub record ScriptFile : Type 0 where
  pub connection : ScriptTable
  pub actions : List ScriptTable

unfoldable pub texts_of : List TomlItem → Result (List Bytes)
texts_of [] = ok []
texts_of (item_text t ∷ items) = do rest ← texts_of items; ok (t ∷ rest)
texts_of (item_other ∷ items) = err array_not_strings

unfoldable pub convert_script_value : TomlValue → Result ScriptValue
unfolding texts_of
convert_script_value (toml_string s) = ok (script_string s)
convert_script_value (toml_integer n) = ok (script_number n)
convert_script_value (toml_boolean b) = ok (script_bool b)
convert_script_value (toml_array items) = do list ← texts_of items; ok (script_string_list list)
convert_script_value toml_other = err unsupported_toml

abbrev in_scope : Bytes → Bytes → Result ScriptValue → Result ScriptValue
in_scope scope key (err why) = err (in_table scope key why)
in_scope scope key r = r

abbrev pub no_keys : ScriptTable
no_keys = λ _. none

-- The loop of `convertScriptTable`, from the table so far.
unfoldable pub convert_entries : Bytes → ScriptTable → TomlTable → Result ScriptTable
unfolding convert_script_value
convert_entries scope out [] = ok out
convert_entries scope out ((key, value) ∷ entries) =
    in_scope scope key (convert_script_value value) >>= λ v.
    convert_entries scope (set_key out key v) entries

unfoldable pub convert_script_table : Bytes → TomlTable → Result ScriptTable
unfolding convert_entries
convert_script_table scope raw = convert_entries scope no_keys raw

-- The loop over the actions, from the action at `index`.
unfoldable pub convert_actions : ℕ → List TomlTable → Result (List ScriptTable)
unfolding convert_script_table
convert_actions index [] = ok []
convert_actions index (action ∷ rest) =
    let others = convert_actions (suc index) rest in
    convert_script_table (codes "action " ++ number_text (suc index)) action >>= λ table.
    others >>= λ tables. ok (table ∷ tables)

unfoldable pub script_of : RawScript → Result ScriptFile
unfolding convert_script_table convert_actions
script_of raw = do
  connection ← convert_script_table (codes "connection") raw.connection
  actions ← convert_actions 0 raw.actions
  ok (record { connection = connection; actions = actions })

abbrev with_actions : RawScript → List TomlTable → Result ScriptFile
unfolding script_of
with_actions raw [] = err no_actions
with_actions raw (_ ∷ _) = script_of raw

-- The decoder of the TOML library, and `os.ReadFile`.
module _ (decode : Bytes → Result RawScript) where
  unfoldable pub parse_script : Bytes → Result ScriptFile
  unfolding with_actions
  parse_script src = decode src >>= λ raw. with_actions raw raw.actions

  unfoldable pub parse_script_file : (Bytes → Result Bytes) → Bytes → Result ScriptFile
  unfolding parse_script
  parse_script_file read_file path = read_file path >>= λ src. parse_script src
