-- ===== src/Frame/Control.antt =====
-- The frames of a fixed layout: frame/priority.go, rst_stream.go, ping.go, goaway.go,
-- window_update.go, continuation.go and raw.go.
use mh2c_go.Base.{
  ℕ, Bool, not, [], ◌∷◌, ◌++◌, ltb, ◌==◌, if◌then◌else◌, length, take, replicate, Bytes, Result, ok,
  err, payload_size, ◌>>=◌, slice, index, bit_and,
}
use mh2c_go.Wire.{append_uint32, read_uint32}
use mh2c_go.Frame.{
  Header, PriorityFrame, RstStreamFrame, PingFrame, GoAwayFrame, WindowUpdateFrame,
  ContinuationFrame, RawFrame, Frame, priority_frame, rst_stream_frame, ping_frame, go_away_frame,
  window_update_frame, continuation_frame, type_priority, type_rst_stream, type_ping, type_go_away,
  type_window_update, type_continuation,
}
use mh2c_go.Frame.Framing.{with_length}
use mh2c_go.Frame.Headers.{pack_dependency, is_exclusive}

-- priority.go
unfoldable pub priority_payload : PriorityFrame → Bytes
priority_payload f = append_uint32 [] (pack_dependency f.exclusive f.stream_dep) ++ (f.weight ∷ [])

unfoldable pub new_priority_frame : ℕ → Bool → ℕ → ℕ → PriorityFrame
unfolding priority_payload
new_priority_frame stream_id exclusive stream_dep weight =
    let h : Header = record {
      length = 0;
      type = type_priority;
      flags = 0;
      stream_id = stream_id;
    } in
    let frame : PriorityFrame = record {
      frame_header = h;
      exclusive = exclusive;
      stream_dep = stream_dep;
      weight = weight;
    } in
    record frame { frame_header = with_length h (priority_payload frame) }

unfoldable pub parse_priority_frame : Header → Bytes → Result Frame
parse_priority_frame h payload =
    if not (length payload == 5) then err (payload_size type_priority) else do
      dep ← read_uint32 (← slice 0 4 payload)
      weight ← index 4 payload
      ok (
          priority_frame (record {
            frame_header = h;
            exclusive = is_exclusive dep;
            stream_dep = bit_and dep 0x7fff_ffff;
            weight = weight;
          }))

-- rst_stream.go
unfoldable pub rst_stream_payload : RstStreamFrame → Bytes
rst_stream_payload f = append_uint32 [] f.error_code

unfoldable pub new_rst_stream_frame : ℕ → ℕ → RstStreamFrame
unfolding rst_stream_payload
new_rst_stream_frame stream_id error_code =
    let h : Header = record {
      length = 0;
      type = type_rst_stream;
      flags = 0;
      stream_id = stream_id;
    } in
    let frame : RstStreamFrame = record { frame_header = h; error_code = error_code } in
    record frame { frame_header = with_length h (rst_stream_payload frame) }

unfoldable pub parse_rst_stream_frame : Header → Bytes → Result Frame
parse_rst_stream_frame h payload =
    if not (length payload == 4) then err (payload_size type_rst_stream) else do
      code ← read_uint32 payload
      ok (rst_stream_frame (record { frame_header = h; error_code = code }))

-- ping.go
unfoldable pub ping_payload : PingFrame → Bytes
ping_payload f = f.content

unfoldable pub new_ping_frame : ℕ → Bytes → PingFrame
unfolding ping_payload
new_ping_frame flags content =
    let h : Header = record { length = 0; type = type_ping; flags = flags; stream_id = 0 } in
    let frame : PingFrame = record { frame_header = h; content = content } in
    record frame { frame_header = with_length h (ping_payload frame) }

-- `copy` into a zeroed array of eight bytes.
unfoldable pub copy_eight : Bytes → Bytes
copy_eight src = take 8 (src ++ replicate 8 0)

unfoldable pub parse_ping_frame : Header → Bytes → Result Frame
unfolding copy_eight
parse_ping_frame h payload =
    if not (length payload == 8)
    then err (payload_size type_ping)
    else ok (ping_frame (record { frame_header = h; content = copy_eight payload }))

-- goaway.go
unfoldable pub go_away_payload : GoAwayFrame → Bytes
go_away_payload f =
    append_uint32 (append_uint32 [] (bit_and f.last_stream_id 0x7fff_ffff)) f.error_code
    ++ f.debug_data

unfoldable pub new_go_away_frame : ℕ → ℕ → Bytes → GoAwayFrame
unfolding go_away_payload
new_go_away_frame last_stream_id error_code debug_data =
    let h : Header = record { length = 0; type = type_go_away; flags = 0; stream_id = 0 } in
    let frame : GoAwayFrame = record {
      frame_header = h;
      last_stream_id = last_stream_id;
      error_code = error_code;
      debug_data = debug_data;
    } in
    record frame { frame_header = with_length h (go_away_payload frame) }

unfoldable pub parse_go_away_frame : Header → Bytes → Result Frame
parse_go_away_frame h payload =
    if ltb (length payload) 8 then err (payload_size type_go_away) else do
      last ← read_uint32 (← slice 0 4 payload)
      code ← read_uint32 (← slice 4 8 payload)
      debug_data ← slice 8 (length payload) payload
      ok (
          go_away_frame (record {
            frame_header = h;
            last_stream_id = bit_and last 0x7fff_ffff;
            error_code = code;
            debug_data = debug_data;
          }))

-- window_update.go
unfoldable pub window_update_payload : WindowUpdateFrame → Bytes
window_update_payload f = append_uint32 [] (bit_and f.increment 0x7fff_ffff)

unfoldable pub new_window_update_frame : ℕ → ℕ → WindowUpdateFrame
unfolding window_update_payload
new_window_update_frame stream_id increment =
    let h : Header = record {
      length = 0;
      type = type_window_update;
      flags = 0;
      stream_id = stream_id;
    } in
    let frame : WindowUpdateFrame = record { frame_header = h; increment = increment } in
    record frame { frame_header = with_length h (window_update_payload frame) }

unfoldable pub parse_window_update_frame : Header → Bytes → Result Frame
parse_window_update_frame h payload =
    if not (length payload == 4) then err (payload_size type_window_update) else do
      increment ← read_uint32 payload
      ok (
          window_update_frame
            (record { frame_header = h; increment = bit_and increment 0x7fff_ffff }))

-- continuation.go
unfoldable pub continuation_payload : ContinuationFrame → Bytes
continuation_payload f = f.block_fragment

unfoldable pub new_continuation_frame : ℕ → ℕ → Bytes → ContinuationFrame
unfolding continuation_payload
new_continuation_frame stream_id flags block =
    let h : Header = record {
      length = 0;
      type = type_continuation;
      flags = flags;
      stream_id = stream_id;
    } in
    let frame : ContinuationFrame = record { frame_header = h; block_fragment = block } in
    record frame { frame_header = with_length h (continuation_payload frame) }

unfoldable pub parse_continuation_frame : Header → Bytes → Result Frame
parse_continuation_frame h payload =
    ok (continuation_frame (record { frame_header = h; block_fragment = payload }))

-- raw.go
unfoldable pub raw_frame_from_parts : Header → Bytes → RawFrame
raw_frame_from_parts h payload = record {
  frame_header = with_length h payload;
  raw_payload = payload;
}

unfoldable pub raw_frame_from_exact_parts : Header → Bytes → RawFrame
raw_frame_from_exact_parts h payload = record { frame_header = h; raw_payload = payload }
