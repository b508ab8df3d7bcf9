-- ===== src/Frame/Data.antt =====
-- frame/data.go
use mh2c_go.Base.{
  ℕ, ◌+◌, ◌-◌, ◌++◌, ltb, if◌then◌else◌, length, Bytes, Result, ok, err, invalid_padding, ◌>>=◌,
  slice,
}
use mh2c_go.Frame.{Header, DataFrame, Frame, data_frame, type_data, flag_padded, has_flag}
use mh2c_go.Frame.Framing.{with_length}
use mh2c_go.Frame.Padding.{pad_prefix, pad_suffix, parse_pad_length}

unfoldable pub data_payload : DataFrame → Bytes
data_payload f =
    let padded = has_flag f.frame_header.flags flag_padded in
    pad_prefix padded f.pad_length ++ (f.content ++ pad_suffix padded f.pad_length)

unfoldable pub new_data_frame : ℕ → ℕ → Bytes → DataFrame
unfolding data_payload
new_data_frame stream_id flags content =
    let h : Header = record {
      length = 0;
      type = type_data;
      flags = flags;
      stream_id = stream_id;
    } in
    let frame : DataFrame = record { frame_header = h; pad_length = 0; content = content } in
    record frame { frame_header = with_length h (data_payload frame) }

unfoldable pub parse_data_frame : Header → Bytes → Result Frame
unfolding parse_pad_length
parse_data_frame h payload = do
  (pad, offset) ← parse_pad_length type_data (has_flag h.flags flag_padded) payload
  if ltb (length payload) (offset + pad) then err (invalid_padding type_data) else do
    content ← slice offset (length payload - pad) payload
    ok (data_frame (record { frame_header = h; pad_length = pad; content = content }))
