-- ===== src/Frame/Padding.antt =====
-- The padding of DATA, HEADERS and PUSH_PROMISE frames, and cutting a payload at known seams.
use mh2c_go.Base.{
  ℕ, not, ◌==◌, ◌+◌, ◌-◌, ◌≡◌, arith, Bool, [], ◌∷◌, ◌++◌, if◌then◌else◌, length, length-append,
  take, replicate, take-append_left, drop-append_left, ap, ◌∙◌, Bytes, Result, ok, err,
  missing_pad_length, ◌>>=◌, slice, slice_in_range, index,
}

-- What a padded frame has before and behind its content.
abbrev pub pad_prefix : Bool → ℕ → Bytes
pad_prefix padded pad = if padded then pad ∷ [] else []

abbrev pub pad_suffix : Bool → ℕ → Bytes
pad_suffix padded pad = if padded then replicate pad 0 else []

-- The pad length and the offset behind it, as the three parsers read them; `type` is for the message.
unfoldable pub parse_pad_length : ℕ → Bool → Bytes → Result (ℕ × ℕ)
parse_pad_length type padded payload =
    if not padded
    then ok (0, 0)
    else if length payload == 0
    then err (missing_pad_length type)
    else do pad ← index 0 payload; ok (pad, 1)

-- `lo:hi` around the middle part.
pub slice_middle :
    (xs ys zs : Bytes) (lo hi : ℕ)
    → lo ≡ length xs
    → hi ≡ lo + length ys
    → slice lo hi (xs ++ (ys ++ zs)) ≡ ok ys
slice_middle xs ys zs lo hi el eh =
    slice_in_range lo hi (xs ++ (ys ++ zs)) (omega arith)
      (omega (arith, length-append xs (ys ++ zs), length-append ys zs))
    ∙ ap ok (
        ap (take (hi - lo)) (drop-append_left lo xs (ys ++ zs) el)
        ∙ take-append_left (hi - lo) ys zs (omega arith))
