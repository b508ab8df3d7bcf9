-- ===== src/Display/Json.antt =====
-- cmd/mh2c/output_json.go: a frame as the event that is written as one line of JSON.
use mh2c_go.Base.{
  ℕ, Bool, false, not, List, [], if◌then◌else◌, length, ltb, Option, none, some, Bytes, bytes_eq,
  codes, Result, ok, ◌>>=◌,
}
use mh2c_go.Frame.{
  Frame, data_frame, headers_frame, push_promise_frame, ping_frame, go_away_frame,
  continuation_frame,
}
use mh2c_go.Frame.Codec.{header, payload}
use mh2c_go.Frame.Strings.{frame_text}
use mh2c_go.Hpack.{HeaderField}
use mh2c_go.Display.Filter.{frame_type_name}
use mh2c_go.Display.Format.{truncate_hex, data_text_json}

-- `jsonFrameEvent`; a `jsonHeaderField` is a header field.
pub record JsonFrameEvent : Type 0 where
  pub direction : Bytes
  pub frame_type : Bytes
  pub stream_id : ℕ
  pub flags : ℕ
  pub summary : Bytes
  pub payload_length : ℕ
  pub payload_hex : Bytes
  pub data_hex : Bytes
  pub data_text : Bytes
  pub decoded_headers : List HeaderField
  pub warnings : List Bytes
  pub truncated : Bool

-- An event with the fields that every one has.
abbrev pub bare_event : Bytes → Bytes → ℕ → ℕ → Bytes → JsonFrameEvent
bare_event direction frame_type stream_id flags summary = record {
  direction = direction;
  frame_type = frame_type;
  stream_id = stream_id;
  flags = flags;
  summary = summary;
  payload_length = 0;
  payload_hex = [];
  data_hex = [];
  data_text = [];
  decoded_headers = [];
  warnings = [];
  truncated = false;
}

abbrev shown_block : Bool → Bytes → Option Bytes
shown_block show block = if not show then none else some block

unfoldable pub payload_hex_for_json : Frame → Bool → Option Bytes
payload_hex_for_json (headers_frame f) show = shown_block show f.block_fragment
payload_hex_for_json (continuation_frame f) show = shown_block show f.block_fragment
payload_hex_for_json (push_promise_frame f) show = shown_block show f.block_fragment
payload_hex_for_json (data_frame f) show = none
payload_hex_for_json (ping_frame f) show = none
payload_hex_for_json (go_away_frame f) show = none
payload_hex_for_json f show = some (payload f)

-- The fields of the controller that the event depends on.
pub record JsonOptions : Type 0 where
  pub data_format : Bytes
  pub data_limit : ℕ
  pub show_header_block : Bool

module _ (quote : Bytes → Bytes) (o : JsonOptions) where
  abbrev pub with_payload : Option Bytes → JsonFrameEvent → Result JsonFrameEvent
  with_payload none e = ok e
  with_payload (some bs) e = do
    r ← truncate_hex bs o.data_limit
    ok (record e { payload_length = length bs; payload_hex = r.0; truncated = r.1 })

  unfoldable pub apply_json_data_payload : JsonFrameEvent → Bytes → Result JsonFrameEvent
  apply_json_data_payload e bs =
      if bytes_eq o.data_format (codes "text")
      then (data_text_json quote bs o.data_limit >>= λ t.
          ok (record e { payload_length = length bs; data_text = t.0; truncated = t.1 }))
      else if bytes_eq o.data_format (codes "hex")
      then (truncate_hex bs o.data_limit >>= λ h.
          ok (record e { payload_length = length bs; data_hex = h.0; truncated = h.1 }))
      else (truncate_hex bs o.data_limit >>= λ h. data_text_json quote bs o.data_limit >>= λ t.
          ok (record e {
            payload_length = length bs;
            data_hex = h.0;
            data_text = t.0;
            truncated = h.1;
          }))

  abbrev pub with_data : Frame → JsonFrameEvent → Result JsonFrameEvent
  unfolding apply_json_data_payload
  with_data (data_frame f) e = apply_json_data_payload e f.content
  with_data (ping_frame f) e = apply_json_data_payload e f.content
  with_data (go_away_frame f) e =
      if ltb 0 (length f.debug_data) then apply_json_data_payload e f.debug_data else ok e
  with_data f e = ok e

  unfoldable pub build_json_event :
      Bytes → Frame → List HeaderField → List Bytes → Result JsonFrameEvent
  unfolding payload_hex_for_json with_data
  build_json_event direction f headers warnings = do
    with_bytes ← with_payload (payload_hex_for_json f o.show_header_block) (
        bare_event direction (frame_type_name f) (header f).stream_id (header f).flags
          (frame_text f))
    e ← with_data f with_bytes
    ok (record e { decoded_headers = headers; warnings = warnings })
