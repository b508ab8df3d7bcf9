-- ===== src/Frame/PushPromise.antt =====
-- frame/push_promise.go
use mh2c_go.Base.{
  ℕ, ◌+◌, ◌-◌, [], ◌++◌, ltb, if◌then◌else◌, length, Bytes, Result, ok, err, frame_too_short,
  invalid_padding, ◌>>=◌, slice, bit_and,
}
use mh2c_go.Wire.{append_uint32, read_uint32}
use mh2c_go.Frame.{
  Header, PushPromiseFrame, Frame, push_promise_frame, type_push_promise, flag_padded, has_flag,
}
use mh2c_go.Frame.Framing.{with_length}
use mh2c_go.Frame.Padding.{pad_prefix, pad_suffix, parse_pad_length}

unfoldable pub push_promise_payload : PushPromiseFrame → Bytes
push_promise_payload f =
    let padded = has_flag f.frame_header.flags flag_padded in
    pad_prefix padded f.pad_length
    ++ (append_uint32 [] (bit_and f.promised_stream_id 0x7fff_ffff)
        ++ (f.block_fragment ++ pad_suffix padded f.pad_length))

unfoldable pub new_push_promise_frame : ℕ → ℕ → ℕ → Bytes → PushPromiseFrame
unfolding push_promise_payload
new_push_promise_frame stream_id flags promised block =
    let h : Header = record {
      length = 0;
      type = type_push_promise;
      flags = flags;
      stream_id = stream_id;
    } in
    let frame : PushPromiseFrame = record {
      frame_header = h;
      pad_length = 0;
      promised_stream_id = promised;
      block_fragment = block;
    } in
    record frame { frame_header = with_length h (push_promise_payload frame) }

unfoldable pub parse_push_promise_frame : Header → Bytes → Result Frame
unfolding parse_pad_length
parse_push_promise_frame h payload = do
  (pad, after_pad) ← parse_pad_length type_push_promise (has_flag h.flags flag_padded) payload
  if ltb (length payload) (after_pad + 4) then err (frame_too_short type_push_promise) else do
    promised ← read_uint32 (← slice after_pad (after_pad + 4) payload)
    let offset = after_pad + 4
    if ltb (length payload) (offset + pad) then err (invalid_padding type_push_promise) else do
      block ← slice offset (length payload - pad) payload
      ok (
          push_promise_frame (record {
            frame_header = h;
            pad_length = pad;
            promised_stream_id = bit_and promised 0x7fff_ffff;
            block_fragment = block;
          }))
