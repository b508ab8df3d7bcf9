-- ===== src/Script/Build.antt =====
-- cmd/mh2c/script_frame.go: `buildScriptFrame`, one function for each case of its switch.
use mh2c_go.Base.{
  ℕ, List, [], if◌then◌else◌, Option, none, some, Bytes, bytes_eq, codes, Result, ok, err,
  exactly_one_of, unknown_action, invalid_raw_flags,
}
use mh2c_go.Base.Int.{ℤ, to_unsigned}
use mh2c_go.Base.State.{M, ◌>>=◌, lift, pure, fail}
use mh2c_go.Frame.{
  Header, Frame, data_frame, headers_frame, priority_frame, rst_stream_frame, settings_frame,
  push_promise_frame, ping_frame, go_away_frame, window_update_frame, continuation_frame, raw_frame,
  DataFrame, HeadersFrame, PushPromiseFrame, type_data, flag_priority, has_flag,
}
use mh2c_go.Frame.Framing.{with_length}
use mh2c_go.Frame.Data.{data_payload, new_data_frame}
use mh2c_go.Frame.Headers.{headers_payload, new_headers_frame}
use mh2c_go.Frame.PushPromise.{push_promise_payload, new_push_promise_frame}
use mh2c_go.Frame.Settings.{new_settings_frame}
use mh2c_go.Frame.Control.{
  new_priority_frame, new_rst_stream_frame, new_ping_frame, new_go_away_frame,
  new_window_update_frame, new_continuation_frame, raw_frame_from_parts, raw_frame_from_exact_parts,
}
use mh2c_go.Hpack.{Library}
use mh2c_go.Client.Conn.{Conn}
use mh2c_go.Client.Core.{Client, encode_headers}
use mh2c_go.Script.Values.{
  ScriptTable, string_value, string_list_value, int_value, require_string, require_uint32,
  optional_uint32, require_uint8, optional_uint8,
}
use mh2c_go.Script.Text.{Unicode, parse_hex_bytes}
use mh2c_go.Script.Fields.{
  or_else, settings_flag_names, headers_flag_names, continuation_flag_names, data_flag_names,
  ping_flag_names, push_promise_flag_names, parse_flags, parse_script_settings, parse_header_texts,
  parse_priority, headers_priority, parse_ping_action_data, parse_data_field,
  parse_error_code_action,
}

-- The header length is that of the payload, after the fields are set.
abbrev finish_headers : HeadersFrame → Frame
finish_headers f =
    headers_frame (record f { frame_header = with_length f.frame_header (headers_payload f) })

abbrev finish_push_promise : PushPromiseFrame → Frame
finish_push_promise f =
    push_promise_frame
      (record f { frame_header = with_length f.frame_header (push_promise_payload f) })

abbrev finish_data : DataFrame → Frame
finish_data f = data_frame (record f { frame_header = with_length f.frame_header (data_payload f) })

abbrev pub with_pad_length : ℕ → ℕ → Bytes → Option ℕ → Frame
with_pad_length stream_id flags content none = data_frame (new_data_frame stream_id flags content)
with_pad_length stream_id flags content (some pad) = finish_data (record {
  frame_header = record { length = 0; type = type_data; flags = flags; stream_id = stream_id };
  pad_length = pad;
  content = content;
})

abbrev pub raw_flags : Option ℤ → Result ℕ
raw_flags none = err invalid_raw_flags
raw_flags (some v) = elim (to_unsigned 0xff v) [ none ↦ err invalid_raw_flags | some n ↦ ok n ]

abbrev pub raw_with_length : Header → Bytes → Option ℕ → Frame
raw_with_length h payload none = raw_frame (raw_frame_from_parts h payload)
raw_with_length h payload (some n) =
    raw_frame (raw_frame_from_exact_parts (record h { length = n }) payload)

module _ (U : Unicode) {X : Library} {C : Conn} where
  abbrev pub block_source :
      Bytes → Bytes → Option (List Bytes) → Option Bytes → M (Client X C) Bytes
  block_source header_key hex_key none (some hex) = lift (parse_hex_bytes hex)
  block_source header_key hex_key (some texts) none = do
    fields ← lift (parse_header_texts U texts)
    encode_headers fields
  block_source header_key hex_key _ _ = fail (exactly_one_of header_key hex_key)

  unfoldable pub build_header_block : ScriptTable → Bytes → Bytes → M (Client X C) Bytes
  build_header_block action header_key hex_key = do
    texts ← lift (string_list_value action header_key)
    hex ← lift (string_value action hex_key)
    block_source header_key hex_key texts hex

  unfoldable pub build_settings : ScriptTable → M (Client X C) Frame
  build_settings action = do
    texts ← lift (string_list_value action (codes "settings"))
    settings ← lift (parse_script_settings U (or_else [] texts))
    flags ← lift (parse_flags U action settings_flag_names)
    pure (settings_frame (new_settings_frame flags settings))

  unfoldable pub build_headers : ScriptTable → M (Client X C) Frame
  unfolding build_header_block
  build_headers action = do
    stream_id ← lift (require_uint32 action (codes "stream_id"))
    flags ← lift (parse_flags U action headers_flag_names)
    block ← build_header_block action (codes "headers") (codes "block_hex")
    priority ← lift (headers_priority (has_flag flags flag_priority) action)
    pad ← lift (optional_uint8 action (codes "pad_length"))
    pure (
        finish_headers (record (new_headers_frame stream_id flags block) {
          priority = priority;
          pad_length = or_else 0 pad;
        }))

  unfoldable pub build_continuation : ScriptTable → M (Client X C) Frame
  build_continuation action = do
    stream_id ← lift (require_uint32 action (codes "stream_id"))
    flags ← lift (parse_flags U action continuation_flag_names)
    hex ← lift (require_string action (codes "block_hex"))
    block ← lift (parse_hex_bytes hex)
    pure (continuation_frame (new_continuation_frame stream_id flags block))

  unfoldable pub build_data : ScriptTable → M (Client X C) Frame
  build_data action = do
    stream_id ← lift (require_uint32 action (codes "stream_id"))
    flags ← lift (parse_flags U action data_flag_names)
    content ← lift (parse_data_field action (codes "data") (codes "data_hex"))
    pad ← lift (optional_uint8 action (codes "pad_length"))
    pure (with_pad_length stream_id flags content pad)

  unfoldable pub build_ping : ScriptTable → M (Client X C) Frame
  build_ping action = do
    flags ← lift (parse_flags U action ping_flag_names)
    payload ← lift (parse_ping_action_data action)
    pure (ping_frame (new_ping_frame flags payload))

  unfoldable pub build_go_away : ScriptTable → M (Client X C) Frame
  build_go_away action = do
    last_stream_id ← lift (require_uint32 action (codes "last_stream_id"))
    error_code ← lift (parse_error_code_action U action)
    debug_data ← lift (parse_data_field action (codes "debug_data") (codes "debug_hex"))
    pure (go_away_frame (new_go_away_frame last_stream_id error_code debug_data))

  unfoldable pub build_window_update : ScriptTable → M (Client X C) Frame
  build_window_update action = do
    stream_id ← lift (require_uint32 action (codes "stream_id"))
    increment ← lift (require_uint32 action (codes "increment"))
    pure (window_update_frame (new_window_update_frame stream_id increment))

  unfoldable pub build_rst_stream : ScriptTable → M (Client X C) Frame
  build_rst_stream action = do
    stream_id ← lift (require_uint32 action (codes "stream_id"))
    error_code ← lift (parse_error_code_action U action)
    pure (rst_stream_frame (new_rst_stream_frame stream_id error_code))

  unfoldable pub build_priority : ScriptTable → M (Client X C) Frame
  build_priority action = do
    stream_id ← lift (require_uint32 action (codes "stream_id"))
    p ← lift (parse_priority action)
    pure (priority_frame (new_priority_frame stream_id p.exclusive p.stream_dep p.weight))

  unfoldable pub build_push_promise : ScriptTable → M (Client X C) Frame
  unfolding build_header_block
  build_push_promise action = do
    stream_id ← lift (require_uint32 action (codes "stream_id"))
    promised ← lift (require_uint32 action (codes "promised_stream_id"))
    flags ← lift (parse_flags U action push_promise_flag_names)
    block ← build_header_block action (codes "headers") (codes "block_hex")
    pad ← lift (optional_uint8 action (codes "pad_length"))
    pure (
        finish_push_promise (record (new_push_promise_frame stream_id flags promised block) {
          pad_length = or_else 0 pad;
        }))

  unfoldable pub build_raw : ScriptTable → M (Client X C) Frame
  build_raw action = do
    frame_type ← lift (require_uint8 action (codes "frame_type"))
    stream_id ← lift (require_uint32 action (codes "stream_id"))
    flags_value ← lift (int_value action (codes "flags"))
    flags ← lift (raw_flags flags_value)
    hex ← lift (require_string action (codes "payload_hex"))
    payload ← lift (parse_hex_bytes hex)
    len ← lift (optional_uint32 action (codes "length"))
    pure (
        raw_with_length
          (record { length = 0; type = frame_type; flags = flags; stream_id = stream_id }) payload
          len)

  -- The switch over the action's type.
  unfoldable pub build_case : Bytes → ScriptTable → M (Client X C) Frame
  build_case type action =
      if bytes_eq type (codes "settings")
      then build_settings action
      else if bytes_eq type (codes "headers")
      then build_headers action
      else if bytes_eq type (codes "continuation")
      then build_continuation action
      else if bytes_eq type (codes "data")
      then build_data action
      else if bytes_eq type (codes "ping")
      then build_ping action
      else if bytes_eq type (codes "goaway")
      then build_go_away action
      else if bytes_eq type (codes "window_update")
      then build_window_update action
      else if bytes_eq type (codes "rst_stream")
      then build_rst_stream action
      else if bytes_eq type (codes "priority")
      then build_priority action
      else if bytes_eq type (codes "push_promise")
      then build_push_promise action
      else if bytes_eq type (codes "raw")
      then build_raw action
      else fail (unknown_action type)

  unfoldable pub build_script_frame : ScriptTable → M (Client X C) Frame
  unfolding build_case
  build_script_frame action = do
    type ← lift (require_string action (codes "type"))
    build_case type action
