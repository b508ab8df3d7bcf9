-- ===== src/Frame/Framing.antt =====
-- The frame header of frame/frame.go: nine bytes.
use mh2c_go.Base.{
  ◌%◌, ◌^◌, bit_and, [], ◌∷◌, ◌++◌, ◌==◌, not, if◌then◌else◌, length, Bytes, Result, ok, err,
  header_size, ◌>>=◌, slice, index,
}
use mh2c_go.Wire.{frame_header_length, append_uint24, append_uint32, read_uint24, read_uint32}
use mh2c_go.Frame.{Header}

-- `Header.MarshalBinary`
unfoldable pub marshal_header : Header → Result Bytes
marshal_header h = do
  out ← append_uint24 [] h.length
  ok (append_uint32 (out ++ (h.type ∷ h.flags ∷ [])) (bit_and h.stream_id 0x7fff_ffff))

unfoldable pub parse_header : Bytes → Result Header
parse_header src =
    if not (length src == frame_header_length) then err (header_size (length src)) else do
      len ← read_uint24 (← slice 0 3 src)
      stream_id ← read_uint32 (← slice 5 frame_header_length src)
      type ← index 3 src
      flags ← index 4 src
      ok (record {
        length = len;
        type = type;
        flags = flags;
        stream_id = bit_and stream_id 0x7fff_ffff;
      })

-- The header that is written before a payload: its length is that of the payload.
abbrev pub with_length : Header → Bytes → Header
with_length h payload = record h { length = length payload % 2 ^ 32 }

unfoldable pub encode : Header → Bytes → Result Bytes
encode h payload = do head ← marshal_header (with_length h payload); ok (head ++ payload)
