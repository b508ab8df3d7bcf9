-- ===== src/Frame/Headers.antt =====
-- frame/headers.go
use mh2c_go.Base.{
  ℕ, ◌+◌, ◌-◌, Bool, not, [], ◌∷◌, ◌++◌, ltb, ◌==◌, if◌then◌else◌, length, Option, none, some,
  Bytes, Result, ok, err, frame_too_short, invalid_padding, ◌>>=◌, slice, index, bit_and, bit_or,
}
use mh2c_go.Wire.{append_uint32, read_uint32}
use mh2c_go.Frame.{
  Header, PriorityParam, HeadersFrame, Frame, headers_frame, type_headers, flag_padded,
  flag_priority, has_flag,
}
use mh2c_go.Frame.Framing.{with_length}
use mh2c_go.Frame.Padding.{pad_prefix, pad_suffix, parse_pad_length}

-- The stream dependency with its exclusive bit, and back.
abbrev pub pack_dependency : Bool → ℕ → ℕ
pack_dependency exclusive stream_dep =
    let dep = bit_and stream_dep 0x7fff_ffff in if exclusive then bit_or dep 0x8000_0000 else dep

abbrev pub is_exclusive : ℕ → Bool
is_exclusive dep = not (bit_and dep 0x8000_0000 == 0)

-- The five bytes of the priority fields; a missing parameter is written as zeros.
unfoldable pub priority_fields : Option PriorityParam → Bytes
priority_fields none = append_uint32 [] 0 ++ (0 ∷ [])
priority_fields (some p) =
    append_uint32 [] (pack_dependency p.exclusive p.stream_dep) ++ (p.weight ∷ [])

unfoldable pub headers_payload : HeadersFrame → Bytes
headers_payload f =
    let flags = f.frame_header.flags in
    let padded = has_flag flags flag_padded in
    pad_prefix padded f.pad_length
    ++ ((if has_flag flags flag_priority then priority_fields f.priority else [])
        ++ (f.block_fragment ++ pad_suffix padded f.pad_length))

unfoldable pub new_headers_frame : ℕ → ℕ → Bytes → HeadersFrame
unfolding headers_payload
new_headers_frame stream_id flags block =
    let h : Header = record {
      length = 0;
      type = type_headers;
      flags = flags;
      stream_id = stream_id;
    } in
    let frame : HeadersFrame = record {
      frame_header = h;
      pad_length = 0;
      priority = none;
      block_fragment = block;
    } in
    record frame { frame_header = with_length h (headers_payload frame) }

-- The priority parameter at an offset, where the flag is set, and the offset behind it.
unfoldable pub parse_priority_param : Bool → ℕ → Bytes → Result (Option PriorityParam × ℕ)
parse_priority_param present offset payload =
    if not present
    then ok (none, offset)
    else if ltb (length payload) (offset + 5)
    then err (frame_too_short type_headers)
    else do
      dep ← read_uint32 (← slice offset (offset + 4) payload)
      weight ← index (offset + 4) payload
      ok (
        some (record {
          exclusive = is_exclusive dep;
          stream_dep = bit_and dep 0x7fff_ffff;
          weight = weight;
        }),
        offset + 5,
      )

unfoldable pub parse_headers_frame : Header → Bytes → Result Frame
unfolding parse_pad_length parse_priority_param
parse_headers_frame h payload = do
  (pad, after_pad) ← parse_pad_length type_headers (has_flag h.flags flag_padded) payload
  (priority, offset) ← parse_priority_param (has_flag h.flags flag_priority) after_pad payload
  if ltb (length payload) (offset + pad) then err (invalid_padding type_headers) else do
    block ← slice offset (length payload - pad) payload
    ok (
        headers_frame (record {
          frame_header = h;
          pad_length = pad;
          priority = priority;
          block_fragment = block;
        }))
