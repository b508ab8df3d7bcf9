-- ===== src/Tests/Frames.antt =====
-- Frames: runs, and the theorems of Frame at concrete inputs.
use mh2c_go.Base.{
  ℕ, ◌+◌, ◌^◌, ◌≡◌, ◌≢◌, refl, arith, true, [], ◌∷◌, length, take, drop, Bytes, ok, err, panic,
  some, uint24_overflow, replicate, index, length-replicate, invalid_padding,
}
use mh2c_go.Wire.{append_uint24, append_uint32}
use mh2c_go.Frame.{Header, Frame, headers_frame, continuation_frame, type_data}
use mh2c_go.Frame.Framing.{marshal_header, parse_header, encode}
use mh2c_go.Frame.Headers.{headers_payload, priority_fields}
use mh2c_go.Frame.Data.{parse_data_frame}
use mh2c_go.Frame.Control.{continuation_payload}
use mh2c_go.Frame.Codec.{header, payload, marshal, unmarshal}
use mh2c_go.Frame.Safety.{unmarshal-ne-panic}
use mh2c_go.Frame.RoundTrip.{IsValid, unmarshal-marshal, marshal_overflow}
use mh2c_go.Frame.RoundTrip.HeaderBytes.{parse_header-marshal_header}

-- HEADERS with padding and priority on stream 3.
abbrev padded_headers : Frame
padded_headers = headers_frame (record {
  frame_header = record { length = 10; type = 1; flags = 0x2c; stream_id = 3 };
  pad_length = 2;
  priority = some (record { exclusive = true; stream_dep = 1; weight = 15 });
  block_fragment = 0x82 ∷ 0x84 ∷ [];
})

padded_headers-payload :
    payload padded_headers ≡ 2 ∷ 0x80 ∷ 0 ∷ 0 ∷ 1 ∷ 15 ∷ 0x82 ∷ 0x84 ∷ 0 ∷ 0 ∷ []
unfolding payload headers_payload priority_fields append_uint32
padded_headers-payload = refl

padded_headers-marshal :
    marshal padded_headers
    ≡ ok (
        0 ∷ 0 ∷ 10 ∷ 1 ∷ 0x2c ∷ 0 ∷ 0 ∷ 0 ∷ 3 ∷ 2 ∷ 0x80 ∷ 0 ∷ 0 ∷ 1 ∷ 15 ∷ 0x82 ∷ 0x84 ∷ 0 ∷ 0
        ∷ [])
unfolding marshal encode marshal_header append_uint24 payload headers_payload priority_fields
    append_uint32
padded_headers-marshal = refl

padded_headers-IsValid : IsValid padded_headers
unfolding header payload headers_payload priority_fields append_uint32
padded_headers-IsValid = record {
  length_is = refl;
  short = omega arith;
  stream_id_fits = omega arith;
  body = (refl, λ e. cc, omega arith);
}

unmarshal-marshal_example :
    (raw : Bytes) × (marshal padded_headers ≡ ok raw)
    × (length raw ≡ 9 + length (payload padded_headers))
    × (parse_header (take 9 raw) ≡ ok (header padded_headers))
    × (unmarshal (header padded_headers) (drop 9 raw) ≡ ok padded_headers)
unmarshal-marshal_example = unmarshal-marshal padded_headers padded_headers-IsValid

-- A DATA payload whose pad length is larger than the payload.
abbrev padded_data : Header
padded_data = record { length = 2; type = type_data; flags = 8; stream_id = 1 }

padded_data_refused : unmarshal padded_data (9 ∷ 0 ∷ []) ≡ err (invalid_padding type_data)
unfolding unmarshal parse_data_frame index
padded_data_refused = refl

unmarshal-ne-panic_example : unmarshal padded_data (9 ∷ 0 ∷ []) ≢ panic
unmarshal-ne-panic_example = unmarshal-ne-panic padded_data (9 ∷ 0 ∷ [])

abbrev reserved_bit : Header
reserved_bit = record { length = 5; type = 7; flags = 0; stream_id = 0x8000_0001 }

parse_header-marshal_header_example :
    (bs : Bytes) × (marshal_header reserved_bit ≡ ok bs)
    × (length bs ≡ 9)
    × (parse_header bs ≡ ok (record reserved_bit { stream_id = 1 }))
parse_header-marshal_header_example = parse_header-marshal_header reserved_bit (omega arith)

-- A CONTINUATION frame one byte too long for its header; the zeros are shut, so nothing counts them.
zeros : ℕ → Bytes
zeros n = replicate n 0

length-zeros : (n : ℕ) → length (zeros n) ≡ n
unfolding zeros
length-zeros n = length-replicate n 0

abbrev oversized : Frame
oversized = continuation_frame (record {
  frame_header = record { length = 0; type = 9; flags = 4; stream_id = 1 };
  block_fragment = zeros (2 ^ 24);
})

length-oversized : length (payload oversized) ≡ 2 ^ 24
unfolding payload continuation_payload
length-oversized = length-zeros (2 ^ 24)

marshal_overflow_example : marshal oversized ≡ err (uint24_overflow (length (payload oversized)))
marshal_overflow_example =
    marshal_overflow oversized refl (omega (arith, length-oversized))
      (omega (arith, length-oversized))
