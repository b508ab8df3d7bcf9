-- ===== src/Script/Spec/Actions.antt =====
-- cmd/mh2c/script_spec.go: the specification of each action.
use mh2c_go.Base.{List, [], ◌∷◌, if◌then◌else◌, Option, none, some, Bytes, bytes_eq, codes}
use mh2c_go.Script.Fields.{
  settings_flag_names, headers_flag_names, continuation_flag_names, data_flag_names,
  ping_flag_names, push_promise_flag_names,
}
use mh2c_go.Script.Spec.{
  FieldSpec, ActionSpec, optional, required, kind_string, kind_number, kind_bool, kind_string_list,
  sorted_keys,
}

-- A specification with a name and fields and no more.
abbrev plain_spec : Bytes → List FieldSpec → ActionSpec
plain_spec name fields = record {
  name = name;
  fields = fields;
  flags = [];
  settings = [];
  until_values = [];
  notes = [];
}

abbrev pub preface_spec : ActionSpec
preface_spec = plain_spec (codes "preface") []

abbrev pub sleep_spec : ActionSpec
sleep_spec = record (plain_spec (codes "sleep") (required (codes "duration_ms") kind_number ∷ [])) {
  notes = codes "duration_ms must be greater than 0." ∷ [];
}

abbrev pub settings_spec : ActionSpec
settings_spec =
    record (plain_spec (codes "settings") (
      optional (codes "settings") kind_string_list
      ∷ optional (codes "flags") kind_string_list
      ∷ [])) {
        flags = sorted_keys settings_flag_names;
        settings =
            codes "HEADER_TABLE_SIZE"
            ∷ codes "ENABLE_PUSH"
            ∷ codes "MAX_CONCURRENT_STREAMS"
            ∷ codes "INITIAL_WINDOW_SIZE"
            ∷ codes "MAX_FRAME_SIZE"
            ∷ codes "MAX_HEADER_LIST_SIZE"
            ∷ [];
      }

abbrev pub headers_spec : ActionSpec
headers_spec =
    record (plain_spec (codes "headers") (
      required (codes "stream_id") kind_number
      ∷ optional (codes "flags") kind_string_list
      ∷ optional (codes "headers") kind_string_list
      ∷ optional (codes "block_hex") kind_string
      ∷ optional (codes "stream_dep") kind_number
      ∷ optional (codes "weight") kind_number
      ∷ optional (codes "exclusive") kind_bool
      ∷ optional (codes "pad_length") kind_number
      ∷ [])) {
        flags = sorted_keys headers_flag_names;
        notes =
            codes "Exactly one of headers or block_hex is required."
            ∷ codes "stream_dep and weight are required when flags contains PRIORITY."
            ∷ [];
      }

abbrev pub continuation_spec : ActionSpec
continuation_spec =
    record (plain_spec (codes "continuation") (
      required (codes "stream_id") kind_number
      ∷ optional (codes "flags") kind_string_list
      ∷ required (codes "block_hex") kind_string
      ∷ [])) { flags = sorted_keys continuation_flag_names }

abbrev pub data_spec : ActionSpec
data_spec =
    record (plain_spec (codes "data") (
      required (codes "stream_id") kind_number
      ∷ optional (codes "flags") kind_string_list
      ∷ optional (codes "data") kind_string
      ∷ optional (codes "data_hex") kind_string
      ∷ optional (codes "pad_length") kind_number
      ∷ [])) {
        flags = sorted_keys data_flag_names;
        notes = codes "data and data_hex cannot be used together." ∷ [];
      }

abbrev pub ping_spec : ActionSpec
ping_spec =
    record (plain_spec (codes "ping") (
      optional (codes "flags") kind_string_list
      ∷ optional (codes "data") kind_string
      ∷ optional (codes "data_hex") kind_string
      ∷ [])) {
        flags = sorted_keys ping_flag_names;
        notes = codes "Exactly one of data or data_hex is required." ∷ [];
      }

abbrev pub go_away_spec : ActionSpec
go_away_spec =
    record (plain_spec (codes "goaway") (
      required (codes "last_stream_id") kind_number
      ∷ optional (codes "error_code") kind_string
      ∷ optional (codes "debug_data") kind_string
      ∷ optional (codes "debug_hex") kind_string
      ∷ [])) { notes = codes "debug_data and debug_hex cannot be used together." ∷ [] }

abbrev pub window_update_spec : ActionSpec
window_update_spec =
    plain_spec (codes "window_update")
      (required (codes "stream_id") kind_number ∷ required (codes "increment") kind_number ∷ [])

abbrev pub rst_stream_spec : ActionSpec
rst_stream_spec =
    plain_spec (codes "rst_stream")
      (required (codes "stream_id") kind_number ∷ optional (codes "error_code") kind_string ∷ [])

abbrev pub priority_spec : ActionSpec
priority_spec = plain_spec (codes "priority") (
    required (codes "stream_id") kind_number
    ∷ required (codes "stream_dep") kind_number
    ∷ required (codes "weight") kind_number
    ∷ optional (codes "exclusive") kind_bool
    ∷ [])

abbrev pub push_promise_spec : ActionSpec
push_promise_spec =
    record (plain_spec (codes "push_promise") (
      required (codes "stream_id") kind_number
      ∷ required (codes "promised_stream_id") kind_number
      ∷ optional (codes "flags") kind_string_list
      ∷ optional (codes "headers") kind_string_list
      ∷ optional (codes "block_hex") kind_string
      ∷ optional (codes "pad_length") kind_number
      ∷ [])) {
        flags = sorted_keys push_promise_flag_names;
        notes = codes "Exactly one of headers or block_hex is required." ∷ [];
      }

abbrev pub raw_spec : ActionSpec
raw_spec =
    record (plain_spec (codes "raw") (
      required (codes "frame_type") kind_number
      ∷ required (codes "stream_id") kind_number
      ∷ required (codes "flags") kind_number
      ∷ optional (codes "length") kind_number
      ∷ required (codes "payload_hex") kind_string
      ∷ [])) {
        notes =
            codes
              "length is optional; when set, the raw frame header length is sent exactly as provided."
            ∷ [];
      }

abbrev pub receive_spec : ActionSpec
receive_spec =
    record (plain_spec (codes "receive") (
      optional (codes "count") kind_number
      ∷ optional (codes "until") kind_string
      ∷ optional (codes "stream_id") kind_number
      ∷ optional (codes "ack_settings") kind_bool
      ∷ optional (codes "ack_ping") kind_bool
      ∷ [])) {
        until_values =
            codes "settings"
            ∷ codes "settings_ack"
            ∷ codes "ping_ack"
            ∷ codes "goaway"
            ∷ codes "end_stream"
            ∷ [];
        notes =
            codes "count and until cannot be used together."
            ∷ codes "stream_id is required when until is end_stream."
            ∷ [];
      }

abbrev pub action_specs : List ActionSpec
action_specs =
    preface_spec ∷ sleep_spec ∷ settings_spec ∷ headers_spec ∷ continuation_spec ∷ data_spec
    ∷ ping_spec ∷ go_away_spec ∷ window_update_spec ∷ rst_stream_spec ∷ priority_spec
    ∷ push_promise_spec ∷ raw_spec ∷ receive_spec ∷ []

unfoldable pub find_in : Bytes → List ActionSpec → Option ActionSpec
find_in name [] = none
find_in name (s ∷ ss) = if bytes_eq s.name name then some s else find_in name ss

-- `findScriptActionSpec`
unfoldable pub find_action_spec : Bytes → Option ActionSpec
unfolding find_in
find_action_spec name = find_in name action_specs
