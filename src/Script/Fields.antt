-- ===== src/Script/Fields.antt =====
-- cmd/mh2c/script_frame.go and request.go: the fields of an action, from the text of its keys.
use mh2c_go.Base.{
  ℕ, ◌+◌, ◌-◌, ◌^◌, Bool, true, false, not, ◌||◌, bit_or, List, [], ◌∷◌, leb, ◌==◌, if◌then◌else◌,
  length, take, drop, Option, none, some, Bytes, bytes_eq, codes, Result, Error, ok, err, ◌>>=◌,
  invalid_setting, unknown_setting_id, unknown_flag, unknown_error_code, invalid_header,
  exactly_one_of, not_together, ping_length,
}
use mh2c_go.Frame.{
  Setting, PriorityParam, flag_ack, flag_end_stream, flag_end_headers, flag_padded, flag_priority,
}
use mh2c_go.Frame.Settings.{
  setting_header_table_size, setting_enable_push, setting_max_concurrent_streams,
  setting_initial_window_size, setting_max_frame_size, setting_max_header_list_size,
}
use mh2c_go.Hpack.{HeaderField}
use mh2c_go.Script.Values.{
  ScriptTable, string_value, string_list_value, bool_value, require_uint32, require_uint8,
}
use mh2c_go.Script.Text.{Unicode, find_byte, cut, parse_uint, parse_hex_bytes}

-- The zero value where a reader gives ok = false.
abbrev pub or_else {ℓ} : {A : Type ℓ} → A → Option A → A
or_else a none = a
or_else a (some b) = b

-- An error of a call that is replaced by one of the caller's.
abbrev pub or_error {ℓ} : {A : Type ℓ} → Error → Result A → Result A
or_error why (err _) = err why
or_error why r = r

-- `map[string]uint8`
abbrev pub FlagNames : Type 0
FlagNames = List (Bytes × ℕ)

unfoldable pub flag_of : Bytes → FlagNames → Option ℕ
flag_of name [] = none
flag_of name ((n, v) ∷ rest) = if bytes_eq name n then some v else flag_of name rest

abbrev pub settings_flag_names : FlagNames
settings_flag_names = (codes "ACK", flag_ack) ∷ []

abbrev pub headers_flag_names : FlagNames
headers_flag_names =
    (codes "END_STREAM", flag_end_stream)
    ∷ (codes "END_HEADERS", flag_end_headers)
    ∷ (codes "PADDED", flag_padded)
    ∷ (codes "PRIORITY", flag_priority)
    ∷ []

abbrev pub continuation_flag_names : FlagNames
continuation_flag_names = (codes "END_HEADERS", flag_end_headers) ∷ []

abbrev pub data_flag_names : FlagNames
data_flag_names = (codes "END_STREAM", flag_end_stream) ∷ (codes "PADDED", flag_padded) ∷ []

abbrev pub ping_flag_names : FlagNames
ping_flag_names = (codes "ACK", flag_ack) ∷ []

abbrev pub push_promise_flag_names : FlagNames
push_promise_flag_names =
    (codes "END_HEADERS", flag_end_headers) ∷ (codes "PADDED", flag_padded) ∷ []

-- Whether the bytes are one of the texts of a case.
abbrev either : Bytes → Bytes → Bytes → Bool
either a b name = bytes_eq name a || bytes_eq name b

abbrev pub named_setting : Bytes → Option ℕ
named_setting name =
    if either (codes "HEADER_TABLE_SIZE") (codes "SETTINGS_HEADER_TABLE_SIZE") name
    then some setting_header_table_size
    else if either (codes "ENABLE_PUSH") (codes "SETTINGS_ENABLE_PUSH") name
    then some setting_enable_push
    else if either (codes "MAX_CONCURRENT_STREAMS") (codes "SETTINGS_MAX_CONCURRENT_STREAMS") name
    then some setting_max_concurrent_streams
    else if either (codes "INITIAL_WINDOW_SIZE") (codes "SETTINGS_INITIAL_WINDOW_SIZE") name
    then some setting_initial_window_size
    else if either (codes "MAX_FRAME_SIZE") (codes "SETTINGS_MAX_FRAME_SIZE") name
    then some setting_max_frame_size
    else if either (codes "MAX_HEADER_LIST_SIZE") (codes "SETTINGS_MAX_HEADER_LIST_SIZE") name
    then some setting_max_header_list_size
    else none

abbrev pub setting_or_number : Bytes → Option ℕ → Result ℕ
setting_or_number name (some id) = ok id
setting_or_number name none = or_error (unknown_setting_id name) (parse_uint (2 ^ 16 - 1) name)

abbrev flag_or_number : Bytes → Bytes → Option ℕ → Result ℕ
flag_or_number raw name (some v) = ok v
flag_or_number raw name none = or_error (unknown_flag raw) (parse_uint 0xff name)

-- The two sources of some bytes: text and hexadecimal text.
abbrev text_or_hex : Bytes → Bytes → Option Bytes → Option Bytes → Result Bytes
text_or_hex text_key hex_key (some _) (some _) = err (not_together text_key hex_key)
text_or_hex text_key hex_key text (some hex) = parse_hex_bytes hex
text_or_hex text_key hex_key text none = ok (or_else [] text)

abbrev eight_bytes : Bytes → Result Bytes
eight_bytes raw = if not (length raw == 8) then err (ping_length (length raw)) else ok raw

-- `parsePingData`
unfoldable pub parse_ping_data : Bytes → Result Bytes
parse_ping_data src = eight_bytes src

abbrev ping_source : Option Bytes → Option Bytes → Result Bytes
ping_source (some text) none = parse_ping_data text
ping_source none (some hex) = do raw ← parse_hex_bytes hex; eight_bytes raw
ping_source _ _ = err (exactly_one_of (codes "data") (codes "data_hex"))

unfoldable pub parse_ping_action_data : ScriptTable → Result Bytes
parse_ping_action_data action = do
  text ← string_value action (codes "data")
  hex ← string_value action (codes "data_hex")
  ping_source text hex

unfoldable pub parse_data_field : ScriptTable → Bytes → Bytes → Result Bytes
parse_data_field action text_key hex_key = do
  text ← string_value action text_key
  hex ← string_value action hex_key
  text_or_hex text_key hex_key text hex

unfoldable pub parse_priority : ScriptTable → Result PriorityParam
parse_priority action = do
  stream_dep ← require_uint32 action (codes "stream_dep")
  weight ← require_uint8 action (codes "weight")
  exclusive ← bool_value action (codes "exclusive")
  ok (record { exclusive = or_else false exclusive; stream_dep = stream_dep; weight = weight })

-- `if flags&frame.FlagHeadersPriority != 0 { … }`
abbrev pub headers_priority : Bool → ScriptTable → Result (Option PriorityParam)
headers_priority false action = ok none
headers_priority true action = do p ← parse_priority action; ok (some p)

-- Where the first `:` that ends a name stands: one at the start belongs to a pseudo-header.
abbrev separator_behind : Option ℕ → ℕ
separator_behind none = 0
separator_behind (some next) = next + 1

unfoldable pub separator : Bytes → Option ℕ
unfolding find_byte
separator [] = none
separator (c ∷ cs) =
    if c == 58 then some (separator_behind (find_byte 58 cs)) else find_byte 58 (c ∷ cs)

module _ (U : Unicode) where
  open U use {trim_space, to_upper, to_lower}

  abbrev split_header : Bytes → Option ℕ → Result HeaderField
  split_header raw none = err (invalid_header raw)
  split_header raw (some sep) =
      if (sep == 0) || leb (length raw - 1) sep
      then err (invalid_header raw)
      else if length (to_lower (trim_space (take sep raw))) == 0
      then err (invalid_header raw)
      else ok (record {
        name = to_lower (trim_space (take sep raw));
        value = trim_space (drop (sep + 1) raw);
        sensitive = false;
      })

  -- `parseHeader`
  unfoldable pub parse_header_text : Bytes → Result HeaderField
  unfolding separator
  parse_header_text raw = split_header raw (separator raw)

  -- The loops over a list of header texts.
  unfoldable pub parse_header_texts : List Bytes → Result (List HeaderField)
  unfolding parse_header_text
  parse_header_texts [] = ok []
  parse_header_texts (raw ∷ rest) =
      let fields = parse_header_texts rest in
      do field ← parse_header_text raw; fields' ← fields; ok (field ∷ fields')

  unfoldable pub parse_setting_id : Bytes → Result ℕ
  parse_setting_id name = setting_or_number name (named_setting (to_upper name))

  abbrev pub setting_of : Bytes → Option (Bytes × Bytes) → Result Setting
  setting_of entry none = err (invalid_setting entry)
  setting_of entry (some (key, text)) = do
    id ← parse_setting_id (trim_space key)
    value ← parse_uint (2 ^ 32 - 1) (trim_space text)
    ok (record { id = id; value = value })

  unfoldable pub parse_script_settings : List Bytes → Result (List Setting)
  unfolding parse_setting_id
  parse_script_settings [] = ok []
  parse_script_settings (entry ∷ rest) =
      let settings = parse_script_settings rest in
      do s ← setting_of entry (cut 61 entry); more ← settings; ok (s ∷ more)

  -- The loop of `parseFlags`, from the flags so far.
  unfoldable pub join_flags : FlagNames → ℕ → List Bytes → Result ℕ
  join_flags mapping flags [] = ok flags
  join_flags mapping flags (raw ∷ rest) =
      let name = to_upper (trim_space raw) in
      flag_or_number raw name (flag_of name mapping) >>= λ v.
      join_flags mapping (bit_or flags v) rest

  unfoldable pub parse_flags : ScriptTable → FlagNames → Result ℕ
  unfolding join_flags
  parse_flags action mapping = do
    names ← string_list_value action (codes "flags")
    join_flags mapping 0 (or_else [] names)

  abbrev error_code_of : Option Bytes → Result ℕ
  error_code_of none = ok 0
  error_code_of (some text) =
      if bytes_eq (to_upper text) (codes "NO_ERROR")
      then ok 0
      else or_error (unknown_error_code text) (parse_uint (2 ^ 32 - 1) text)

  unfoldable pub parse_error_code_action : ScriptTable → Result ℕ
  parse_error_code_action action = do
    text ← string_value action (codes "error_code")
    error_code_of text
