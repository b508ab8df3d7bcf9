-- ===== src/Script/Spec/Repeats.antt =====
-- cmd/mh2c/script_spec.go: the test on the last iteration, against the run of the iterations.
use mh2c_go.Base.{
  ℕ, zero, suc, ◌+◌, ◌*◌, ◌-◌, ◌/◌, ◌^◌, ◌≤◌, ◌<◌, true, ◌≡◌, ◌≢◌, refl, arith, Bytes, Bool-cases,
  inl, inr, codes, bound_ok, ok, err, step_overflow,
}
use mh2c_go.Script.Values.{
  ScriptTable, require_uint32, require_uint32-bound, require_uint32-present,
}
use mh2c_go.Script.Repeat.{ActionRepeat, parse_action_repeat, action_for_repeat_iteration}
use mh2c_go.Script.Iterations.{action_for_repeat_iteration_lem}
use mh2c_go.Script.Spec.{ActionSpec, has_field}
use mh2c_go.Script.Spec.Checks.{is_some, check_iterations, check_step, validate_action_repeat}

times_le : (s i j : ℕ) → i ≤ j → s * i ≤ s * j
times_le zero i j h = omega arith
times_le (suc s) i j h = omega (arith, times_le s i j h)

-- The multiples of a step up to the quotient stay within the dividend, and the next is over it.
quotient_fits : (room s i : ℕ) → i ≤ room / s → s * i ≤ room
quotient_fits room s i h = omega (arith, times_le s i (room / s) h)

step_zero : (s i : ℕ) → s ≡ 0 → s * i ≡ 0
step_zero s i e = rw e (omega arith)

pub check_iterations-fits :
    (repeat : ActionRepeat) (base iteration : ℕ)
    → base < 2 ^ 32
    → iteration < repeat.count
    → check_iterations repeat base ≡ ok tt
    → base + repeat.stream_id_step * iteration < 2 ^ 32
check_iterations-fits repeat base iteration small before passes =
    let s = repeat.stream_id_step in
    ground (arith, step_zero s iteration, quotient_fits (2 ^ 32 - 1 - base) s iteration)

pub check_iterations-overflow :
    (repeat : ActionRepeat) (base last : ℕ)
    → repeat.count ≡ suc last
    → base < 2 ^ 32
    → 2 ^ 32 ≤ base + repeat.stream_id_step * last
    → check_iterations repeat base ≡ err step_overflow
check_iterations-overflow repeat base last e small over =
    let s = repeat.stream_id_step in
    ground (arith, step_zero s last, quotient_fits (2 ^ 32 - 1 - base) s last)

-- What `check_step` asks of a table before it looks at the iterations.
step_base :
    (spec : ActionSpec) (action : ScriptTable) (repeat : ActionRepeat)
    → repeat.has_stream_id_step ≡ true
    → check_step spec action repeat ≡ ok tt
    → (base : ℕ) × (require_uint32 action (codes "stream_id") ≡ ok base)
      × (check_iterations repeat base ≡ ok tt)
unfolding check_step
step_base spec action repeat steps h =
    elim (Bool-cases (has_field (codes "stream_id") spec.fields)) [
      | inr missing ↦ absurd (ground (arith, steps, missing, h))
      | inl field ↦ elim (Bool-cases (is_some (action (codes "stream_id")))) [
        | inr absent ↦ absurd (ground (arith, steps, field, absent, h))
        | inl present ↦
            bound_ok (require_uint32 action (codes "stream_id")) (check_iterations repeat) tt
              (ground (arith, steps, field, present, h))
      ]
    ]

-- A repetition that the validation lets pass runs to its end: every iteration below the count has an
-- action, which has every key but `stream_id` as the script writes it.
pub validate_action_repeat-runs :
    (spec : ActionSpec) (action : ScriptTable) (repeat : ActionRepeat) (iteration : ℕ) (key : Bytes)
    → parse_action_repeat action ≡ ok repeat
    → validate_action_repeat spec action ≡ ok tt
    → iteration < repeat.count
    → key ≢ codes "stream_id"
    → (out : ScriptTable) × (action_for_repeat_iteration action repeat iteration ≡ ok out)
      × (out key ≡ action key)
unfolding validate_action_repeat action_for_repeat_iteration
validate_action_repeat-runs spec action repeat iteration key parsed passes before other =
    elim (Bool-cases repeat.has_stream_id_step) [
      | inr plain ↦ (action, rw plain refl, refl)
      | inl steps ↦
          let (base, has, fits) =
            step_base spec action repeat steps (ground (arith, parsed, passes)) in
          let small = require_uint32-bound action (codes "stream_id") base has in
          let fit = check_iterations-fits repeat base iteration small before fits in
          let (out, runs, number, same) =
            action_for_repeat_iteration_lem action repeat base iteration key steps has fit other in
          (out, runs, same)
    ]

-- A repetition whose last identifier would not be of 32 bits is refused before anything is sent,
-- where the action has a field for the identifier and a value of 32 bits in it.
pub validate_action_repeat-overflow :
    (spec : ActionSpec) (action : ScriptTable) (repeat : ActionRepeat) (base last : ℕ)
    → parse_action_repeat action ≡ ok repeat
    → repeat.has_stream_id_step ≡ true
    → has_field (codes "stream_id") spec.fields ≡ true
    → require_uint32 action (codes "stream_id") ≡ ok base
    → repeat.count ≡ suc last
    → 2 ^ 32 ≤ base + repeat.stream_id_step * last
    → validate_action_repeat spec action ≡ err step_overflow
unfolding validate_action_repeat check_step
validate_action_repeat-overflow spec action repeat base last parsed steps field has e over =
    let small = require_uint32-bound action (codes "stream_id") base has in
    let refused = check_iterations-overflow repeat base last e small over in
    let present : is_some (action (codes "stream_id")) ≡ true =
      rw (require_uint32-present action (codes "stream_id") base has).1 refl in
    rw (parsed, steps, field, present, has) refused
