-- ===== src/Script/Iterations.antt =====
-- cmd/mh2c/script.go: the stream identifiers of the iterations of an action.
use mh2c_go.Base.{
  ℕ, suc, ◌+◌, ◌*◌, ◌%◌, ◌^◌, ◌≤◌, ◌<◌, ◌-◌, lt→ltb, le→ltb, ◌≡◌, ◌≢◌, refl, ap, ◌∙◌, arith, true,
  false, Bool-cases, inl, inr, Bytes, bytes_eq, bytes_eq_iff, codes, ok, err, stream_id_overflow,
}
use mh2c_go.Base.Int.{pos}
use mh2c_go.Script.Values.{ScriptTable, script_number, set_key, require_uint32}
use mh2c_go.Script.Repeat.{ActionRepeat, numbered, action_for_repeat_iteration}

key_same : (k : Bytes) → bytes_eq k k ≡ true
key_same k = (bytes_eq_iff k k).1 refl

key_other : (k l : Bytes) → k ≢ l → bytes_eq k l ≡ false
key_other k l h = elim (Bool-cases (bytes_eq k l)) [
  | inl same ↦ absurd (h ((bytes_eq_iff k l).0 same))
  | inr different ↦ different
]

numbered_fits :
    (action : ScriptTable) (n : ℕ)
    → n < 2 ^ 32
    → numbered action n ≡ ok (set_key action (codes "stream_id") (script_number (pos n)))
numbered_fits action n h = rw (le→ltb (2 ^ 32 - 1) n (omega arith)) refl

numbered_overflow :
    (action : ScriptTable) (n : ℕ) → 2 ^ 32 ≤ n → numbered action n ≡ err stream_id_overflow
numbered_overflow action n h = rw (lt→ltb (2 ^ 32 - 1) n (omega arith)) refl

stored_id :
    (action : ScriptTable) (n : ℕ)
    → n < 2 ^ 32
    → require_uint32
        (set_key action (codes "stream_id") (script_number (pos n)))
        (codes "stream_id")
      ≡ ok n
unfolding require_uint32 set_key
stored_id action n h = ground (arith, key_same (codes "stream_id"))

stored_other :
    (action : ScriptTable) (key : Bytes) (n : ℕ)
    → key ≢ codes "stream_id"
    → set_key action (codes "stream_id") (script_number (pos n)) key ≡ action key
unfolding set_key
stored_other action key n h = rw (key_other key (codes "stream_id") h) refl

-- Where the stream identifier fits, the action of an iteration has it, exactly, at `stream_id`, and
-- every other key as before: for a step of 32 bits no wrap at 64 bits comes in.
pub action_for_repeat_iteration_lem :
    (action : ScriptTable) (repeat : ActionRepeat) (base iteration : ℕ) (key : Bytes)
    → repeat.has_stream_id_step ≡ true
    → require_uint32 action (codes "stream_id") ≡ ok base
    → base + repeat.stream_id_step * iteration < 2 ^ 32
    → key ≢ codes "stream_id"
    → (out : ScriptTable) × (action_for_repeat_iteration action repeat iteration ≡ ok out)
      × (require_uint32 out (codes "stream_id") ≡ ok (base + repeat.stream_id_step * iteration))
      × (out key ≡ action key)
unfolding action_for_repeat_iteration
action_for_repeat_iteration_lem action repeat base iteration key steps has fits other =
    let n = base + repeat.stream_id_step * iteration in
    let exact : (base + repeat.stream_id_step * iteration % 2 ^ 64) % 2 ^ 64 ≡ n = omega arith in
    (
      set_key action (codes "stream_id") (script_number (pos n)),
      rw (steps, has) (ap (numbered action) exact ∙ numbered_fits action n (omega arith)),
      stored_id action n (omega arith),
      stored_other action key n other,
    )

-- The iteration behind the last one whose identifier fits is refused, and so the script ends there:
-- the product, which would wrap at 64 bits for far larger iterations, is exact.
pub action_for_repeat_iteration_overflow :
    (action : ScriptTable) (repeat : ActionRepeat) (base before : ℕ)
    → repeat.has_stream_id_step ≡ true
    → repeat.stream_id_step < 2 ^ 32
    → require_uint32 action (codes "stream_id") ≡ ok base
    → base + repeat.stream_id_step * before < 2 ^ 32
    → 2 ^ 32 ≤ base + repeat.stream_id_step * suc before
    → action_for_repeat_iteration action repeat (suc before) ≡ err stream_id_overflow
unfolding action_for_repeat_iteration
action_for_repeat_iteration_overflow action repeat base before steps small has fits over =
    let p = repeat.stream_id_step * before in
    let n = base + (p + repeat.stream_id_step) in
    let next : repeat.stream_id_step * suc before ≡ p + repeat.stream_id_step = omega arith in
    let exact : (base + repeat.stream_id_step * suc before % 2 ^ 64) % 2 ^ 64 ≡ n =
      omega (arith, next) in
    rw (steps, has) (ap (numbered action) exact ∙ numbered_overflow action n (omega (arith, next)))
