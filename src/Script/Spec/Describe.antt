-- ===== src/Script/Spec/Describe.antt =====
-- cmd/mh2c/script_spec.go: the description of the actions, and the template of a script.
use mh2c_go.Base.{
  Bool, true, false, not, List, [], ◌∷◌, ◌++◌, map, if◌then◌else◌, Option, none, some, Bytes,
  bytes_eq, codes, unknown_action_type, unknown_template,
}
use mh2c_go.Base.State.{M, ◌>>◌, pure, fail}
use mh2c_go.Script.Spec.{
  FieldSpec, ActionSpec, script_kind_name, common_action_notes, action_fields,
}
use mh2c_go.Script.Spec.Actions.{action_specs, find_action_spec}

abbrev pub request_script_template : Bytes
request_script_template =
    codes "[connection]\n"
    ++ codes "url = \"https://nghttp2.org/httpbin/headers\"\n"
    ++ codes "send_goaway = false\n"
    ++ codes "timeout_ms = 5000\n"
    ++ codes "\n"
    ++ codes "[[action]]\n"
    ++ codes "type = \"preface\"\n"
    ++ codes "\n"
    ++ codes "[[action]]\n"
    ++ codes "type = \"settings\"\n"
    ++ codes "settings = [\n"
    ++ codes "  \"ENABLE_PUSH=0\",\n"
    ++ codes "  \"INITIAL_WINDOW_SIZE=65535\",\n"
    ++ codes "  \"HEADER_TABLE_SIZE=8192\",\n"
    ++ codes "]\n"
    ++ codes "\n"
    ++ codes "[[action]]\n"
    ++ codes "type = \"receive\"\n"
    ++ codes "until = \"settings\"\n"
    ++ codes "ack_settings = true\n"
    ++ codes "\n"
    ++ codes "[[action]]\n"
    ++ codes "type = \"sleep\"\n"
    ++ codes "duration_ms = 250\n"
    ++ codes "\n"
    ++ codes "[[action]]\n"
    ++ codes "type = \"headers\"\n"
    ++ codes "stream_id = 1\n"
    ++ codes "flags = [\"END_HEADERS\", \"END_STREAM\"]\n"
    ++ codes "headers = [\n"
    ++ codes "  \":method: GET\",\n"
    ++ codes "  \":path: /httpbin/headers\",\n"
    ++ codes "  \":scheme: https\",\n"
    ++ codes "  \":authority: nghttp2.org\",\n"
    ++ codes "  \"user-agent: mh2c-go-script\",\n"
    ++ codes "]\n"
    ++ codes "\n"
    ++ codes "[[action]]\n"
    ++ codes "type = \"receive\"\n"
    ++ codes "stream_id = 1\n"
    ++ codes "until = \"end_stream\"\n"
    ++ codes "ack_ping = true\n"

-- `strings.Join(names, ", ")`
abbrev pub join_names : List Bytes → Bytes
join_names [] = []
join_names (n ∷ []) = n
join_names (n ∷ m ∷ ms) = n ++ codes ", " ++ join_names (m ∷ ms)

abbrev necessity : Bool → Bytes
necessity true = codes "required"
necessity false = codes "optional"

abbrev pub field_line : FieldSpec → Bytes
field_line f =
    codes "  - "
    ++ f.name
    ++ codes ": "
    ++ script_kind_name f.kind
    ++ codes " ("
    ++ necessity f.required
    ++ codes ")"

abbrev item_line : Bytes → Bytes
item_line text = codes "  - " ++ text

-- The writer takes what one `Fprintf` or `Fprintln` writes.
module _ {S : Type 0} (write : Bytes → M S (Unit {0})) where
  abbrev write_line : Bytes → M S (Unit {0})
  write_line line = write (line ++ (10 ∷ []))

  unfoldable pub write_lines : List Bytes → M S (Unit {0})
  write_lines [] = pure tt
  write_lines (line ∷ lines) = write_line line >> write_lines lines

  -- A heading and its lines; what no line follows is left out, or has another line instead.
  abbrev names_line : Bytes → List Bytes → M S (Unit {0})
  names_line label [] = pure tt
  names_line label (n ∷ ns) = write_line (label ++ join_names (n ∷ ns))

  abbrev fields_lines : List FieldSpec → M S (Unit {0})
  fields_lines [] = write_line (codes "Fields: none")
  fields_lines (f ∷ fs) = write_line (codes "Fields:") >> write_lines (map field_line (f ∷ fs))

  abbrev notes_lines : List Bytes → M S (Unit {0})
  notes_lines [] = pure tt
  notes_lines (n ∷ ns) = write_line (codes "Notes:") >> write_lines (map item_line (n ∷ ns))

  unfoldable pub write_script_action_description : ActionSpec → M S (Unit {0})
  unfolding write_lines
  write_script_action_description spec = do
    write_line (codes "Action: " ++ spec.name)
    fields_lines (action_fields spec)
    names_line (codes "Flags: ") spec.flags
    names_line (codes "Settings: ") spec.settings
    names_line (codes "Until values: ") spec.until_values
    notes_lines (spec.notes ++ common_action_notes)

  abbrev describe_found : Bytes → Option ActionSpec → M S (Unit {0})
  describe_found name none = fail (unknown_action_type name)
  describe_found name (some spec) = write_script_action_description spec

  abbrev spec_line : ActionSpec → Bytes
  spec_line spec = item_line spec.name

  abbrev describe_all : M S (Unit {0})
  describe_all = do
    write_line (codes "Script action types:")
    write_lines (map spec_line action_specs)
    write_line []
    write_line (codes "Use `mh2c script describe --type <action_type>` for fields.")

  unfoldable pub describe_script_actions : Bytes → M S (Unit {0})
  unfolding write_lines write_script_action_description
  describe_script_actions [] = describe_all
  describe_script_actions (c ∷ name) = describe_found (c ∷ name) (find_action_spec (c ∷ name))

  unfoldable pub write_script_template : Bytes → M S (Unit {0})
  write_script_template name =
      if not (bytes_eq name (codes "request"))
      then fail (unknown_template name)
      else write request_script_template
