-- ===== src/Frame/RoundTrip/HeaderBytes.antt =====
-- The nine bytes of a frame header are read back, but for the reserved bit of the stream identifier.
use mh2c_go.Base.{
  ℕ, ◌+◌, ◌*◌, ◌/◌, ◌%◌, ◌^◌, ◌≤◌, ◌<◌, ◌≡◌, refl, arith, [], ◌∷◌, length, Bytes, ok, err,
  uint24_overflow, bit_and, slice, index, le→ltb, lt→ltb,
}
use mh2c_go.Base.Bits.{bit_and_low_ones, bit_and_top_bit}
use mh2c_go.Wire.{append_uint24, append_uint32, read_uint32}
use mh2c_go.Wire.RoundTrip.{read_uint24_bytes}
use mh2c_go.Frame.{Header}
use mh2c_go.Frame.Framing.{marshal_header, parse_header}

pub mask_31 : (x : ℕ) → bit_and x 0x7fff_ffff ≡ x % 2 ^ 31
mask_31 x = bit_and_low_ones 31 x

pub bit_31 : (x : ℕ) → x < 2 ^ 32 → bit_and x 0x8000_0000 ≡ x / 2 ^ 31 * 2 ^ 31
bit_31 x h = bit_and_top_bit 31 x h

-- The bytes of a header whose length fits.
abbrev pub header_bytes : Header → Bytes
header_bytes h =
    h.length / 2 ^ 16 % 256
    ∷ h.length / 2 ^ 8 % 256
    ∷ h.length % 256
    ∷ h.type
    ∷ h.flags
    ∷ h.stream_id % 2 ^ 31 / 2 ^ 24 % 256
    ∷ h.stream_id % 2 ^ 31 / 2 ^ 16 % 256
    ∷ h.stream_id % 2 ^ 31 / 2 ^ 8 % 256
    ∷ h.stream_id % 2 ^ 31 % 256
    ∷ []

pub marshal_header-header_bytes :
    (h : Header) → h.length < 2 ^ 24 → marshal_header h ≡ ok (header_bytes h)
unfolding marshal_header append_uint24 append_uint32
marshal_header-header_bytes h fits = rw (le→ltb 0x00ff_ffff h.length (omega arith), mask_31)

pub marshal_header_overflow :
    (h : Header) → 2 ^ 24 ≤ h.length → marshal_header h ≡ err (uint24_overflow h.length)
unfolding marshal_header append_uint24
marshal_header_overflow h big = rw (lt→ltb 0x00ff_ffff h.length big)

parse_header_nine :
    (a b c t f w x y z : ℕ)
    → b < 256
    → c < 256
    → w < 128
    → x < 256
    → y < 256
    → z < 256
    → parse_header (a ∷ b ∷ c ∷ t ∷ f ∷ w ∷ x ∷ y ∷ z ∷ [])
      ≡ ok (record {
        length = a * 2 ^ 16 + b * 2 ^ 8 + c;
        type = t;
        flags = f;
        stream_id = w * 2 ^ 24 + x * 2 ^ 16 + y * 2 ^ 8 + z;
      })
unfolding parse_header slice index read_uint32
parse_header_nine a b c t f w x y z hb hc hw hx hy hz =
    ground
      (arith, read_uint24_bytes a b c [] hb hc, mask_31 (w * 2 ^ 24 + x * 2 ^ 16 + y * 2 ^ 8 + z))

-- A header that is written is read back with the reserved bit of the stream identifier cleared.
pub parse_header-header_bytes :
    (h : Header)
    → h.length < 2 ^ 24
    → parse_header (header_bytes h) ≡ ok (record h { stream_id = h.stream_id % 2 ^ 31 })
parse_header-header_bytes h fits = ground (
  arith,
  parse_header_nine (h.length / 2 ^ 16 % 256) (h.length / 2 ^ 8 % 256) (h.length % 256) h.type
      h.flags (h.stream_id % 2 ^ 31 / 2 ^ 24 % 256) (h.stream_id % 2 ^ 31 / 2 ^ 16 % 256)
      (h.stream_id % 2 ^ 31 / 2 ^ 8 % 256) (h.stream_id % 2 ^ 31 % 256),
)

-- A header whose length fits 24 bits is written as nine bytes, and `ParseHeader` reads them back with
-- the reserved bit of the stream identifier cleared.
pub parse_header-marshal_header :
    (h : Header)
    → h.length < 2 ^ 24
    → (bs : Bytes) × (marshal_header h ≡ ok bs)
      × (length bs ≡ 9)
      × (parse_header bs ≡ ok (record h { stream_id = h.stream_id % 2 ^ 31 }))
parse_header-marshal_header h fits =
    (header_bytes h, marshal_header-header_bytes h fits, refl, parse_header-header_bytes h fits)
