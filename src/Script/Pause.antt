-- ===== src/Script/Pause.antt =====
-- cmd/mh2c/script.go: the length of a pause.
use mh2c_go.Base.{
  ℕ, suc, ◌-◌, ◌*◌, ◌%◌, ◌^◌, ◌≤◌, ◌<◌, ◌≡◌, refl, ap, arith, lt→ltb, le→ltb, some, codes, ok,
}
use mh2c_go.Base.Int.{pos, negsuc}
use mh2c_go.Script.Values.{ScriptTable, int_value}
use mh2c_go.Script.Repeat.{milliseconds, parse_sleep_duration}

milliseconds-pos : (n : ℕ) → n * 1_000_000 < 2 ^ 63 → milliseconds n ≡ pos (n * 1_000_000)
milliseconds-pos n h =
    let same : n * 1_000_000 % 2 ^ 64 ≡ n * 1_000_000 = omega arith in
    rw (same, lt→ltb (n * 1_000_000) (2 ^ 63) h) refl

milliseconds-negsuc :
    (n : ℕ)
    → 2 ^ 63 ≤ n * 1_000_000
    → n * 1_000_000 < 2 ^ 64
    → milliseconds n ≡ negsuc (2 ^ 64 - 1 - n * 1_000_000)
milliseconds-negsuc n h k =
    let same : n * 1_000_000 % 2 ^ 64 ≡ n * 1_000_000 = omega arith in
    rw (same, le→ltb (n * 1_000_000) (2 ^ 63) h) refl

-- A pause of a positive number of milliseconds, up to the 292 years that a duration holds, is that
-- many million nanoseconds.
pub parse_sleep_duration_lem :
    (action : ScriptTable) (n : ℕ)
    → int_value action (codes "duration_ms") ≡ ok (some (pos (suc n)))
    → suc n * 1_000_000 < 2 ^ 63
    → parse_sleep_duration action ≡ ok (pos (suc n * 1_000_000))
unfolding parse_sleep_duration
parse_sleep_duration_lem action n has short = rw has (ap ok (milliseconds-pos (suc n) short))

-- Beyond that the product wraps: a number of milliseconds between 2 ^ 63 and 2 ^ 64 nanoseconds is
-- accepted as a negative pause, which is no pause at all.
pub parse_sleep_duration_wraps :
    (action : ScriptTable) (n : ℕ)
    → int_value action (codes "duration_ms") ≡ ok (some (pos (suc n)))
    → 2 ^ 63 ≤ suc n * 1_000_000
    → suc n * 1_000_000 < 2 ^ 64
    → parse_sleep_duration action ≡ ok (negsuc (2 ^ 64 - 1 - suc n * 1_000_000))
unfolding parse_sleep_duration
parse_sleep_duration_wraps action n has long fits =
    rw has (ap ok (milliseconds-negsuc (suc n) long fits))
