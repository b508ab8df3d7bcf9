-- ===== src/Script/Repeat.antt =====
-- cmd/mh2c/script.go: how an action is repeated, and the length of a pause.
use mh2c_go.Base.{
  ℕ, ◌+◌, ◌-◌, ◌*◌, ◌%◌, ◌^◌, Bool, true, false, not, ltb, ◌==◌, if◌then◌else◌, Option, none, some,
  codes, Result, Error, ok, err, ◌>>=◌, key_required, repeat_not_positive, step_without_repeat,
  stream_id_overflow, duration_not_positive, in_action, in_iteration,
}
use mh2c_go.Base.Int.{ℤ, pos, negsuc, is_positive, to_nat}
use mh2c_go.Script.Values.{
  ScriptTable, script_number, set_key, int_value, require_uint32, optional_uint32,
}

pub record ActionRepeat : Type 0 where
  pub count : ℕ
  pub stream_id_step : ℕ
  pub has_stream_id_step : Bool

abbrev is_some {ℓ} : {A : Type ℓ} → Option A → Bool
is_some none = false
is_some (some _) = true

abbrev repeat_count : Option ℤ → Result ℕ
repeat_count none = ok 1
repeat_count (some v) = if is_positive v then ok (to_nat v) else err repeat_not_positive

abbrev with_step : ℕ → Bool → Option ℕ → Result ActionRepeat
with_step n has_repeat none =
    ok (record { count = n; stream_id_step = 0; has_stream_id_step = false })
with_step n true (some step) =
    ok (record { count = n; stream_id_step = step; has_stream_id_step = true })
with_step n false (some step) = err step_without_repeat

unfoldable pub parse_action_repeat : ScriptTable → Result ActionRepeat
parse_action_repeat action = do
  v ← int_value action (codes "repeat")
  n ← repeat_count v
  step ← optional_uint32 action (codes "stream_id_step")
  with_step n (is_some (action (codes "repeat"))) step

abbrev pub numbered : ScriptTable → ℕ → Result ScriptTable
numbered action stream_id =
    if ltb (2 ^ 32 - 1) stream_id
    then err stream_id_overflow
    else ok (set_key action (codes "stream_id") (script_number (pos stream_id)))

-- The product and the sum are of 64 bits.
unfoldable pub action_for_repeat_iteration : ScriptTable → ActionRepeat → ℕ → Result ScriptTable
action_for_repeat_iteration action repeat iteration =
    if not repeat.has_stream_id_step then ok action else do
      base ← require_uint32 action (codes "stream_id")
      numbered action ((base + repeat.stream_id_step * iteration % 2 ^ 64) % 2 ^ 64)

-- `formatScriptActionError`
unfoldable pub format_script_action_error : ℕ → ℕ → ℕ → Error → Error
format_script_action_error index repeat_count iteration why =
    if repeat_count == 1
    then in_action (index + 1) why
    else in_iteration (index + 1) (iteration + 1) why

-- An int64 that holds a number modulo 2 ^ 64.
abbrev pub wrap_int64 : ℕ → ℤ
wrap_int64 n = let m = n % 2 ^ 64 in if ltb m (2 ^ 63) then pos m else negsuc (2 ^ 64 - 1 - m)

-- `time.Duration(durationMS) * time.Millisecond`, in nanoseconds.
abbrev pub milliseconds : ℕ → ℤ
milliseconds n = wrap_int64 (n * 1_000_000)

abbrev positive_duration : Option ℤ → Result ℤ
positive_duration none = err (key_required (codes "duration_ms"))
positive_duration (some v) =
    if is_positive v then ok (milliseconds (to_nat v)) else err duration_not_positive

unfoldable pub parse_sleep_duration : ScriptTable → Result ℤ
parse_sleep_duration action = do v ← int_value action (codes "duration_ms"); positive_duration v
