-- ===== src/Base/Bits.antt =====
-- `&` and `|` of Go's unsigned integers as arithmetic, at every width.
use Prim.Native.Nat.{ℕ, zero, suc, ◌+◌, ◌-◌, ◌*◌, ◌/◌, ◌%◌, ◌^◌, ◌≤◌, ◌<◌, min, max}
use Prim.Native.Nat.{bit_and, bit_or, bitwise, digits, bit_and-bitwise, bit_or-bitwise}
use mathlib.Core.Path.{◌≡◌, refl, ap}
use native.Mathlib.Nat.{pow-suc, one-le-pow, le_refl, mod-lt, div-add-mod', div-lt_iff_lt-mul}
use native.Mathlib.Omega.{arith}

-- Any count of rounds that reaches `a` gives the same digits.
module _ (z : ℕ → ℕ) (f : ℕ → ℕ → ℕ) where
  digits_rounds : (n a b : ℕ) → a ≤ n → (m : ℕ) → a ≤ m → digits z f n a b ≡ digits z f m a b
  digits_rounds zero zero b p zero q = refl
  digits_rounds zero zero b p (suc m) q = refl
  digits_rounds (suc n) zero b p zero q = refl
  digits_rounds (suc n) zero b p (suc m) q = refl
  digits_rounds zero (suc a) b p m q = absurd (omega arith)
  digits_rounds (suc n) (suc a) b p zero q = absurd (omega arith)
  digits_rounds (suc n) (suc a) b p (suc m) q =
      ap (λ d. d * 2 + f (suc a % 2) (b % 2))
        (digits_rounds n (suc a / 2) (b / 2) (omega arith) m (omega arith))

  bitwise_halves :
      (a b : ℕ)
      → bitwise z f (suc a) b ≡ bitwise z f (suc a / 2) (b / 2) * 2 + f (suc a % 2) (b % 2)
  bitwise_halves a b =
      ap (λ d. d * 2 + f (suc a % 2) (b % 2))
        (digits_rounds a (suc a / 2) (b / 2) (omega arith) (suc a / 2) (le_refl _))

-- Peeling the lowest digit off both sides.
bit_and_halves : (a b : ℕ) → bit_and a b ≡ bit_and (a / 2) (b / 2) * 2 + min (a % 2) (b % 2)
bit_and_halves zero b = omega (arith, bit_and-bitwise 0 b, bit_and-bitwise 0 (b / 2))
bit_and_halves (suc a) b = omega (
  arith,
  bit_and-bitwise (suc a) b,
  bit_and-bitwise (suc a / 2) (b / 2),
  bitwise_halves (λ _. 0) min a b,
)

bit_or_halves : (a b : ℕ) → bit_or a b ≡ bit_or (a / 2) (b / 2) * 2 + max (a % 2) (b % 2)
bit_or_halves zero b = omega (arith, bit_or-bitwise 0 b, bit_or-bitwise 0 (b / 2))
bit_or_halves (suc a) b = omega (
  arith,
  bit_or-bitwise (suc a) b,
  bit_or-bitwise (suc a / 2) (b / 2),
  bitwise_halves (λ y. y) max a b,
)

zero-bit_or : (b : ℕ) → bit_or 0 b ≡ b
zero-bit_or b = bit_or-bitwise 0 b

zero-bit_and : (b : ℕ) → bit_and 0 b ≡ 0
zero-bit_and b = bit_and-bitwise 0 b

-- By rounds: `a / 2` is smaller than `a`, and no part of it.
bit_or-zero_below : (n a : ℕ) → a ≤ n → bit_or a 0 ≡ a
bit_or-zero_below zero zero h = refl
bit_or-zero_below zero (suc a) h = absurd (omega arith)
bit_or-zero_below (suc n) zero h = refl
bit_or-zero_below (suc n) (suc a) h =
    omega (arith, bit_or_halves (suc a) 0, bit_or-zero_below n (suc a / 2) (omega arith))

bit_and-zero_below : (n a : ℕ) → a ≤ n → bit_and a 0 ≡ 0
bit_and-zero_below zero zero h = refl
bit_and-zero_below zero (suc a) h = absurd (omega arith)
bit_and-zero_below (suc n) zero h = refl
bit_and-zero_below (suc n) (suc a) h =
    omega (arith, bit_and_halves (suc a) 0, bit_and-zero_below n (suc a / 2) (omega arith))

bit_or-zero : (a : ℕ) → bit_or a 0 ≡ a
bit_or-zero a = bit_or-zero_below a a (le_refl _)

pub bit_and-zero : (a : ℕ) → bit_and a 0 ≡ 0
bit_and-zero a = bit_and-zero_below a a (le_refl _)

double_pow : (q k : ℕ) → q * 2 ^ suc k ≡ 2 * (q * 2 ^ k)
double_pow q k = omega (arith, ap (λ (t : ℕ). q * t) (pow-suc 2 k))

-- `hi << k | lo` and `lo | hi << k` for a `lo` of k bits.
pub bit_or_high_low : (k hi lo : ℕ) → lo < 2 ^ k → bit_or (hi * 2 ^ k) lo ≡ hi * 2 ^ k + lo
bit_or_high_low zero hi lo h = ground (arith, bit_or-zero hi)
bit_or_high_low (suc k) hi lo h = ground (
  arith,
  bit_or_halves (hi * 2 ^ suc k) lo,
  double_pow hi k,
  pow-suc 2 k,
  bit_or_high_low k hi (lo / 2) (omega (arith, pow-suc 2 k)),
)

pub bit_or_low_high : (k lo hi : ℕ) → lo < 2 ^ k → bit_or lo (hi * 2 ^ k) ≡ lo + hi * 2 ^ k
bit_or_low_high zero lo hi h = ground (arith, zero-bit_or hi)
bit_or_low_high (suc k) lo hi h = ground (
  arith,
  bit_or_halves lo (hi * 2 ^ suc k),
  double_pow hi k,
  pow-suc 2 k,
  bit_or_low_high k (lo / 2) hi (omega (arith, pow-suc 2 k)),
)

-- `&` with k ones, on a number given as `hi << k + lo`.
low_ones_parts : (k hi lo : ℕ) → lo < 2 ^ k → bit_and (hi * 2 ^ k + lo) (2 ^ k - 1) ≡ lo
low_ones_parts zero hi lo h = ground (arith, bit_and-zero (hi * 2 ^ 0 + lo))
low_ones_parts (suc k) hi lo h = ground (
  arith,
  bit_and_halves (hi * 2 ^ suc k + lo) (2 ^ suc k - 1),
  double_pow hi k,
  pow-suc 2 k,
  one-le-pow k 2,
  low_ones_parts k hi (lo / 2) (omega (arith, pow-suc 2 k)),
)

-- `&` with k ones is the remainder by `2 ^ k`.
pub bit_and_low_ones : (k a : ℕ) → bit_and a (2 ^ k - 1) ≡ a % 2 ^ k
bit_and_low_ones k a = ground (arith, one-le-pow k 2, low_ones_parts k (a / 2 ^ k) (a % 2 ^ k))

-- `&` with bit k of a number given as `hi << (k + 1) + bit << k + lo`.
one_bit_parts :
    (k hi bit lo : ℕ)
    → bit < 2
    → lo < 2 ^ k
    → bit_and (hi * 2 ^ suc k + bit * 2 ^ k + lo) (2 ^ k) ≡ bit * 2 ^ k
one_bit_parts zero hi bit lo hb h = ground (
  arith,
  bit_and_halves (hi * 2 ^ 1 + bit * 2 ^ 0 + lo) 1,
  bit_and-zero ((hi * 2 ^ 1 + bit * 2 ^ 0 + lo) / 2),
)
one_bit_parts (suc k) hi bit lo hb h = ground (
  arith,
  bit_and_halves (hi * 2 ^ suc (suc k) + bit * 2 ^ suc k + lo) (2 ^ suc k),
  double_pow hi (suc k),
  double_pow bit k,
  pow-suc 2 k,
  one_bit_parts k hi bit (lo / 2) hb (omega (arith, pow-suc 2 k)),
)

-- `&` with bit k keeps that bit of a number below `2 ^ (k + 1)`.
pub bit_and_top_bit : (k a : ℕ) → a < 2 ^ suc k → bit_and a (2 ^ k) ≡ a / 2 ^ k * 2 ^ k
bit_and_top_bit k a h = ground (
  arith,
  div-add-mod' a (2 ^ k),
  mod-lt a positive,
  one_bit_parts k 0 (a / 2 ^ k) (a % 2 ^ k) quotient,
)
  where
    positive : 0 < 2 ^ k
    positive = one-le-pow k 2 (omega arith)

    quotient : a / 2 ^ k < 2
    quotient = (div-lt_iff_lt-mul positive).1 (omega (arith, pow-suc 2 k))
