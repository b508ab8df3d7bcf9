-- ===== src/Frame/Codec.antt =====
-- frame/frame.go: `Marshal` and `Unmarshal`, and the methods of the interface `Frame`.
use mh2c_go.Base.{
  ◌%◌, ◌^◌, not, ◌++◌, ◌==◌, if◌then◌else◌, length, Bytes, Result, ok, err, length_mismatch, ◌>>=◌,
}
use mh2c_go.Frame.{
  Header, Frame, data_frame, headers_frame, priority_frame, rst_stream_frame, settings_frame,
  push_promise_frame, ping_frame, go_away_frame, window_update_frame, continuation_frame, raw_frame,
  type_data, type_headers, type_priority, type_rst_stream, type_settings, type_push_promise,
  type_ping, type_go_away, type_window_update, type_continuation,
}
use mh2c_go.Frame.Framing.{with_length, marshal_header, encode}
use mh2c_go.Frame.Data.{data_payload, parse_data_frame}
use mh2c_go.Frame.Headers.{headers_payload, parse_headers_frame}
use mh2c_go.Frame.PushPromise.{push_promise_payload, parse_push_promise_frame}
use mh2c_go.Frame.Settings.{settings_payload, parse_settings_frame}
use mh2c_go.Frame.Control.{
  priority_payload, parse_priority_frame, rst_stream_payload, parse_rst_stream_frame, ping_payload,
  parse_ping_frame, go_away_payload, parse_go_away_frame, window_update_payload,
  parse_window_update_frame, continuation_payload, parse_continuation_frame, raw_frame_from_parts,
}

-- `Header()`
unfoldable pub header : Frame → Header
header (data_frame f) = f.frame_header
header (headers_frame f) = f.frame_header
header (priority_frame f) = f.frame_header
header (rst_stream_frame f) = f.frame_header
header (settings_frame f) = f.frame_header
header (push_promise_frame f) = f.frame_header
header (ping_frame f) = f.frame_header
header (go_away_frame f) = f.frame_header
header (window_update_frame f) = f.frame_header
header (continuation_frame f) = f.frame_header
header (raw_frame f) = f.frame_header

-- `Payload()`
unfoldable pub payload : Frame → Bytes
payload (data_frame f) = data_payload f
payload (headers_frame f) = headers_payload f
payload (priority_frame f) = priority_payload f
payload (rst_stream_frame f) = rst_stream_payload f
payload (settings_frame f) = settings_payload f
payload (push_promise_frame f) = push_promise_payload f
payload (ping_frame f) = ping_payload f
payload (go_away_frame f) = go_away_payload f
payload (window_update_frame f) = window_update_payload f
payload (continuation_frame f) = continuation_payload f
payload (raw_frame f) = f.raw_payload

-- `MarshalBinary()` of each type, which is `Marshal`: a raw frame keeps the length of its header.
unfoldable pub marshal : Frame → Result Bytes
unfolding header payload
marshal (raw_frame f) = do head ← marshal_header f.frame_header; ok (head ++ f.raw_payload)
marshal f = encode (header f) (payload f)

-- `frameHeader`, for display.
unfoldable pub display_header : Frame → Header
unfolding header payload
display_header f = with_length (header f) (payload f)

-- The switch of `Unmarshal`.
unfoldable pub parse_payload : Header → Bytes → Result Frame
parse_payload h p =
    if h.type == type_data
    then parse_data_frame h p
    else if h.type == type_headers
    then parse_headers_frame h p
    else if h.type == type_priority
    then parse_priority_frame h p
    else if h.type == type_settings
    then parse_settings_frame h p
    else if h.type == type_push_promise
    then parse_push_promise_frame h p
    else if h.type == type_ping
    then parse_ping_frame h p
    else if h.type == type_go_away
    then parse_go_away_frame h p
    else if h.type == type_window_update
    then parse_window_update_frame h p
    else if h.type == type_continuation
    then parse_continuation_frame h p
    else if h.type == type_rst_stream
    then parse_rst_stream_frame h p
    else ok (raw_frame (raw_frame_from_parts h p))

unfoldable pub unmarshal : Header → Bytes → Result Frame
unfolding parse_payload
unmarshal h p =
    if not (length p % 2 ^ 32 == h.length)
    then err (length_mismatch h.length (length p))
    else parse_payload h p
