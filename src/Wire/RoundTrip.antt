-- ===== src/Wire/RoundTrip.antt =====
-- Reading back what was appended, and the shape of what is read.
use mh2c_go.Base.{ℕ, ◌+◌, ◌*◌, ◌^◌, ◌<◌, ◌≡◌, arith, bit_or, [], ◌∷◌, ◌++◌, Bytes, IsByte, ok}
use mh2c_go.Base.Bits.{bit_or_high_low}
use mh2c_go.Wire.{append_uint16, read_uint16, read_uint24, append_uint32, read_uint32}

pub read_uint16-append_uint16 :
    (v : ℕ) (rest : Bytes) → v < 2 ^ 16 → read_uint16 (append_uint16 [] v ++ rest) ≡ ok v
unfolding read_uint16 append_uint16
read_uint16-append_uint16 v rest h = ground arith

pub read_uint32-append_uint32 :
    (v : ℕ) (rest : Bytes) → v < 2 ^ 32 → read_uint32 (append_uint32 [] v ++ rest) ≡ ok v
unfolding read_uint32 append_uint32
read_uint32-append_uint32 v rest h = ground arith

-- Three bytes joined by `<<` and `|` are their sum at base 256.
or_bytes :
    (a b c : ℕ)
    → IsByte b
    → IsByte c
    → bit_or (bit_or (a * 2 ^ 16) (b * 2 ^ 8)) c ≡ a * 2 ^ 16 + b * 2 ^ 8 + c
or_bytes a b c hb hc = ground (
  arith,
  bit_or_high_low 16 a (b * 2 ^ 8) (omega arith),
  bit_or_high_low 8 (a * 2 ^ 8 + b) c (omega arith),
)

pub read_uint24_bytes :
    (a b c : ℕ) (rest : Bytes)
    → IsByte b
    → IsByte c
    → read_uint24 (a ∷ b ∷ c ∷ rest) ≡ ok (a * 2 ^ 16 + b * 2 ^ 8 + c)
unfolding read_uint24
read_uint24_bytes a b c rest hb hc = ground (arith, or_bytes a b c)
