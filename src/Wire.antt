-- ===== src/Wire.antt =====
-- internal/wire/wire.go: big-endian integers of a frame. A uint32 is a number below 2 ^ 32.
pub mod RoundTrip
use mh2c_go.Base.{
  ℕ, ◌+◌, ◌*◌, ◌/◌, ◌%◌, ◌^◌, bit_or, List, [], ◌∷◌, ◌++◌, ltb, if◌then◌else◌, length, Bytes,
  Result, ok, err, panic, uint16_short, uint24_overflow, uint24_short, uint32_short, ◌>>=◌, index,
}

abbrev pub frame_header_length : ℕ
frame_header_length = 9

-- The bytes that `binary.BigEndian.PutUint16` and `PutUint32` write.
abbrev put_uint16 : ℕ → Bytes
put_uint16 v = v / 2 ^ 8 % 256 ∷ v % 256 ∷ []

abbrev put_uint32 : ℕ → Bytes
put_uint32 v = v / 2 ^ 24 % 256 ∷ v / 2 ^ 16 % 256 ∷ v / 2 ^ 8 % 256 ∷ v % 256 ∷ []

-- `binary.BigEndian.Uint16` and `Uint32`, which panic on a slice that is too short.
abbrev uint16 : Bytes → Result ℕ
uint16 (a ∷ b ∷ rest) = ok (a * 2 ^ 8 + b)
uint16 _ = panic

abbrev uint32 : Bytes → Result ℕ
uint32 (a ∷ b ∷ c ∷ d ∷ rest) = ok (a * 2 ^ 24 + b * 2 ^ 16 + c * 2 ^ 8 + d)
uint32 _ = panic

unfoldable pub append_uint16 : Bytes → ℕ → Bytes
append_uint16 dst v = dst ++ put_uint16 v

unfoldable pub read_uint16 : Bytes → Result ℕ
read_uint16 src = if ltb (length src) 2 then err (uint16_short (length src)) else uint16 src

-- `v >> 16` and `v >> 8`, each cut to its low byte.
unfoldable pub append_uint24 : Bytes → ℕ → Result Bytes
append_uint24 dst v =
    if ltb 0x00ff_ffff v
    then err (uint24_overflow v)
    else ok (dst ++ (v / 2 ^ 16 % 256 ∷ v / 2 ^ 8 % 256 ∷ v % 256 ∷ []))

unfoldable pub read_uint24 : Bytes → Result ℕ
unfolding index
read_uint24 src = if ltb (length src) 3 then err (uint24_short (length src)) else do
  a ← index 0 src
  b ← index 1 src
  c ← index 2 src
  ok (bit_or (bit_or (a * 2 ^ 16) (b * 2 ^ 8)) c)

unfoldable pub append_uint32 : Bytes → ℕ → Bytes
append_uint32 dst v = dst ++ put_uint32 v

unfoldable pub read_uint32 : Bytes → Result ℕ
read_uint32 src = if ltb (length src) 4 then err (uint32_short (length src)) else uint32 src
