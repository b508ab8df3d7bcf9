-- ===== src/Base/Int.antt =====
-- Go's int64, as an integer.
use Prim.Native.Nat.{ℕ, suc}
use mathlib.Core.Bool.{Bool, true, false}
use mathlib.Core.Option.{Option, none, some}
use mh2c_go.Base.Tests.{leb, if◌then◌else◌}

-- `negsuc n` is -(n + 1).
pub data ℤ : Type 0 where
  pos : ℕ → ℤ
  negsuc : ℕ → ℤ

-- The conversion to an unsigned type behind the test `value < 0 || value > limit`.
abbrev pub to_unsigned : ℕ → ℤ → Option ℕ
to_unsigned limit (negsuc n) = none
to_unsigned limit (pos n) = if leb n limit then some n else none

-- `value <= 0`
abbrev pub is_positive : ℤ → Bool
is_positive (negsuc n) = false
is_positive (pos ℕ.zero) = false
is_positive (pos (suc n)) = true

-- The value of a number that is not negative.
abbrev pub to_nat : ℤ → ℕ
to_nat (pos n) = n
to_nat (negsuc n) = 0
