-- ===== src/Display/Format.antt =====
-- internal/framefmt/format.go and cmd/mh2c/output_format.go: bytes as hexadecimal text and as text,
-- and the parts of encoding/hex, fmt and unicode/utf8 that they call.
use mh2c_go.Base.{
  ℕ, zero, suc, ◌^◌, Bool, true, false, not, ◌&&◌, ◌||◌, List, [], ◌∷◌, ◌++◌, ltb, leb, ◌==◌,
  if◌then◌else◌, length, take, Option, none, some, Bytes, codes, Result, ok, ◌>>=◌, slice,
}
use mh2c_go.Frame.Strings.{number_text, encode_hex}

-- Where the bytes of a code point that follow its first must lie.
abbrev tail_byte : ℕ × ℕ
tail_byte = (0x80, 0xbf)

abbrev between : ℕ → ℕ → ℕ → Bool
between lo hi b = leb lo b && leb b hi

abbrev pub tail_of : ℕ → Option (List (ℕ × ℕ))
tail_of b =
    if ltb b 0x80
    then some []
    else if between 0xc2 0xdf b
    then some (tail_byte ∷ [])
    else if b == 0xe0
    then some ((0xa0, 0xbf) ∷ tail_byte ∷ [])
    else if b == 0xed
    then some ((0x80, 0x9f) ∷ tail_byte ∷ [])
    else if between 0xe1 0xef b
    then some (tail_byte ∷ tail_byte ∷ [])
    else if b == 0xf0
    then some ((0x90, 0xbf) ∷ tail_byte ∷ tail_byte ∷ [])
    else if b == 0xf4
    then some ((0x80, 0x8f) ∷ tail_byte ∷ tail_byte ∷ [])
    else if between 0xf1 0xf3 b
    then some (tail_byte ∷ tail_byte ∷ tail_byte ∷ [])
    else none

-- Whether the bytes are UTF-8, behind the first bytes of a code point that lacks the rest.
unfoldable pub utf8_from : List (ℕ × ℕ) → Bytes → Bool
utf8_from [] [] = true
utf8_from (_ ∷ _) [] = false
utf8_from ((lo, hi) ∷ ranges) (b ∷ bs) = between lo hi b && utf8_from ranges bs
utf8_from [] (b ∷ bs) = elim (tail_of b) [ none ↦ false | some ranges ↦ utf8_from ranges bs ]

-- `utf8.Valid`
unfoldable pub utf8_valid : Bytes → Bool
unfolding utf8_from
utf8_valid bs = utf8_from [] bs

-- The loop of `truncateUTF8Prefix`, which drops a byte at a time, from the first n bytes.
unfoldable pub shorter_prefix : ℕ → Bytes → Bytes
shorter_prefix zero bs = []
shorter_prefix (suc n) bs =
    let rest = shorter_prefix n bs in if utf8_valid (take n bs) then take n bs else rest

unfoldable pub truncate_utf8_prefix : Bytes → Bytes
unfolding shorter_prefix
truncate_utf8_prefix bs = if utf8_valid bs then bs else shorter_prefix (length bs) bs

-- `len > int(limit)`: an int of 64 bits, where a limit from 2 ^ 63 on is negative.
abbrev pub over_limit : ℕ → ℕ → Bool
over_limit len limit = if ltb limit (2 ^ 63) then ltb limit len else true

abbrev pub truncated_note : ℕ → ℕ → Bytes
truncated_note limit len =
    codes "...(truncated " ++ number_text limit ++ codes "/" ++ number_text len ++ codes " bytes)"

unfoldable pub truncate_hex : Bytes → ℕ → Result (Bytes × Bool)
truncate_hex bs limit =
    if (limit == 0) || not (over_limit (length bs) limit)
    then ok (encode_hex bs, false)
    else do cut ← slice 0 limit bs; ok (encode_hex cut ++ truncated_note limit (length bs), true)

unfoldable pub hex_summary : Bytes → ℕ → Result Bytes
unfolding truncate_hex
hex_summary bs limit = do r ← truncate_hex bs limit; ok r.0

-- `strconv.Quote`, which reads the tables of the printable code points, is a parameter.
module _ (quote : Bytes → Bytes) where
  abbrev quoted : Bytes → Bool → Bytes × Bool
  quoted bs truncated =
      if utf8_valid bs
      then (quote bs ++ (if truncated then codes " (truncated)" else []), truncated)
      else (codes "<non-utf8>", truncated)

  unfoldable pub data_text_json : Bytes → ℕ → Result (Bytes × Bool)
  unfolding truncate_utf8_prefix
  data_text_json bs limit =
      if length bs == 0
      then ok (codes "<empty>", false)
      else if not (limit == 0) && over_limit (length bs) limit
      then (slice 0 limit bs >>= λ cut. ok (quoted (truncate_utf8_prefix cut) true))
      else ok (quoted bs false)

  unfoldable pub data_text_limited : Bytes → ℕ → Result Bytes
  unfolding data_text_json
  data_text_limited bs limit = do r ← data_text_json bs limit; ok r.0
