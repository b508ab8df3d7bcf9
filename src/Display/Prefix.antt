-- ===== src/Display/Prefix.antt =====
-- internal/framefmt/format.go: what `truncateUTF8Prefix` keeps of bytes that are cut somewhere.
use mh2c_go.Base.{
  leb, subst, ℕ, zero, suc, ◌≤◌, ◌<◌, take, length, length-take, take-length, Bytes, Bool-cases,
  inl, inr, ◌≡◌, refl, sym, arith, true, false,
}
use mh2c_go.Display.Format.{utf8_valid, shorter_prefix, truncate_utf8_prefix}

-- A prefix that is UTF-8 is not the longest one where that is not UTF-8.
unless_whole :
    (n m : ℕ) (bs : Bytes)
    → m ≤ n
    → utf8_valid (take m bs) ≡ true
    → utf8_valid (take n bs) ≡ false
    → m < n
unless_whole n m bs h good cut = elim (Bool-cases (leb n m)) [
  | inr p ↦ ground (arith, p)
  | inl p ↦
      let e : m ≡ n = ground (arith, p) in
      absurd (ground (arith, cut, subst (λ k. utf8_valid (take k bs) ≡ true) e good))
]

-- Of the prefixes of fewer than n bytes: one that is UTF-8, and none that is UTF-8 is longer.
shorter_prefix-longest :
    (n m : ℕ) (bs : Bytes)
    → m < n
    → n ≤ length bs
    → utf8_valid (take m bs) ≡ true
    → (k : ℕ) × (m ≤ k)
      × (k < n)
      × (shorter_prefix n bs ≡ take k bs)
      × (utf8_valid (take k bs) ≡ true)
unfolding shorter_prefix
shorter_prefix-longest zero m bs h fits good = absurd (omega arith)
shorter_prefix-longest (suc n) m bs h fits good = elim (Bool-cases (utf8_valid (take n bs))) [
  | inl whole ↦ (n, omega arith, omega arith, rw whole refl, whole)
  | inr cut ↦
      let p = unless_whole n m bs (omega arith) good cut in
      let (k, low, high, same, valid) = shorter_prefix-longest n m bs p (omega arith) good in
      (k, low, omega arith, rw cut same, valid)
]

-- What is kept is a prefix of the bytes, and it is UTF-8; each prefix that is UTF-8 is no longer.
pub truncate_utf8_prefix-longest :
    (bs : Bytes) (m : ℕ)
    → m ≤ length bs
    → utf8_valid (take m bs) ≡ true
    → (m ≤ length (truncate_utf8_prefix bs))
      × (truncate_utf8_prefix bs ≡ take (length (truncate_utf8_prefix bs)) bs)
      × (utf8_valid (truncate_utf8_prefix bs) ≡ true)
unfolding truncate_utf8_prefix
truncate_utf8_prefix-longest bs m h good = elim (Bool-cases (utf8_valid bs)) [
  | inl whole ↦ rw whole (h, sym (take-length bs), whole)
  | inr cut ↦
      let all : utf8_valid (take (length bs) bs) ≡ false = rw (take-length bs) cut in
      let p = unless_whole (length bs) m bs h good all in
      let (k, low, high, same, valid) =
        shorter_prefix-longest (length bs) m bs p (omega arith) good in
      let size : length (take k bs) ≡ k = omega (arith, length-take k bs) in
      rw (cut, same, size) (low, refl, valid)
]
