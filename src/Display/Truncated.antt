-- ===== src/Display/Truncated.antt =====
-- internal/framefmt/format.go: the limit on the bytes that are shown.
use mh2c_go.Base.{
  ℕ, zero, suc, ◌^◌, ◌≤◌, ◌<◌, Bool, true, false, not, ◌&&◌, Bool-cases, inl, inr, ltb, ◌==◌,
  if◌then◌else◌, [], ◌∷◌, ◌++◌, append-nil, take, length, take-length, All, IsByte, Bytes, ok,
  panic, slice, slice_in_range, ◌≡◌, refl, ap, sym, ◌∙◌, arith,
}
use mh2c_go.Frame.Strings.{encode_hex}
use mh2c_go.Script.Text.{decode_hex}
use mh2c_go.Script.Numbers.{decode_hex-encode_hex}
use mh2c_go.Display.Format.{truncated_note, truncate_hex}

take-All : (n : ℕ) (bs : Bytes) → All IsByte bs → All IsByte (take n bs)
take-All zero bs h = tt
take-All (suc n) [] h = tt
take-All (suc n) (b ∷ bs) (h, hs) = (h, take-All n bs hs)

-- How many bytes are shown.
abbrev pub shown_length : ℕ → ℕ → ℕ
shown_length limit len = if limit == 0 then len else if ltb limit len then limit else len

abbrev pub was_cut : ℕ → ℕ → Bool
was_cut limit len = not (limit == 0) && ltb limit len

abbrev pub note_of : ℕ → ℕ → Bytes
note_of limit len =
    if limit == 0 then [] else if ltb limit len then truncated_note limit len else []

cut_ok : (n : ℕ) (bs : Bytes) → n ≤ length bs → slice 0 n bs ≡ ok (take n bs)
cut_ok n bs h = slice_in_range 0 n bs (omega arith) h ∙ ap (λ k. ok (take k bs)) (omega arith)

-- With a limit below 2 ^ 63 the text ends behind the bytes that the limit lets through, with a note
-- and the flag only where bytes are left out, and its digits are read as just those bytes.
pub truncate_hex-decodes :
    (bs : Bytes) (limit : ℕ)
    → limit < 2 ^ 63
    → All IsByte bs
    → (text : Bytes) × (truncate_hex bs limit
        ≡ ok (text ++ note_of limit (length bs), was_cut limit (length bs)))
      × (decode_hex text ≡ ok (take (shown_length limit (length bs)) bs))
unfolding truncate_hex
truncate_hex-decodes bs limit small bytes = elim (Bool-cases (limit == 0)) [
  | inl all ↦ whole (rw all refl) (rw all refl) (rw all refl) (rw all refl)
  | inr limited ↦ elim (Bool-cases (ltb limit (length bs))) [
    | inr fits ↦
        whole (ground (arith, limited, fits)) (rw (limited, fits) refl) (rw (limited, fits) refl)
          (rw (limited, fits) refl)
    | inl over ↦ cut_short limited over
  ]
]
  where
    decodes : (n : ℕ) → decode_hex (encode_hex (take n bs)) ≡ ok (take n bs)
    decodes n = decode_hex-encode_hex (take n bs) (take-All n bs bytes)

    ShownText : Type 0
    ShownText =
        (text : Bytes) × (truncate_hex bs limit
          ≡ ok (text ++ note_of limit (length bs), was_cut limit (length bs)))
        × (decode_hex text ≡ ok (take (shown_length limit (length bs)) bs))

    whole :
        truncate_hex bs limit ≡ ok (encode_hex bs, false)
        → note_of limit (length bs) ≡ []
        → shown_length limit (length bs) ≡ length bs
        → was_cut limit (length bs) ≡ false
        → ShownText
    whole e no_note all flag = (
      encode_hex bs,
      rw (no_note, flag) (e ∙ ap (λ t. ok (t, false)) (sym (append-nil (encode_hex bs)))),
      rw (all, take-length bs) (decode_hex-encode_hex bs bytes),
    )

    small_limit : ltb limit (2 ^ 63) ≡ true
    small_limit = ground arith

    cut_short : (limit == 0) ≡ false → ltb limit (length bs) ≡ true → ShownText
    cut_short limited over = (
      encode_hex (take limit bs),
      rw (limited, small_limit, over, cut_ok limit bs (ground (arith, over))) refl,
      rw (limited, over) (decodes limit),
    )

-- A limit from 2 ^ 63 on, which an option takes, ends every call with a panic, whatever the bytes.
pub truncate_hex-panics :
    (bs : Bytes) (limit : ℕ) → 2 ^ 63 ≤ limit → length bs < 2 ^ 63 → truncate_hex bs limit ≡ panic
unfolding truncate_hex slice
truncate_hex-panics bs limit large fits = ground arith
