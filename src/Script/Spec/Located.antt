-- ===== src/Script/Spec/Located.antt =====
-- cmd/mh2c/script_spec.go: which action an error of the validation names.
use mh2c_go.Base.{
  ℕ, suc, ◌+◌, List, [], ◌∷◌, ◌++◌, All, length, ◌≡◌, ap, ◌∙◌, arith, Bytes, codes, Error, ok, err,
  in_action,
}
use mh2c_go.Script.Values.{ScriptTable}
use mh2c_go.Script.Text.{Unicode}
use mh2c_go.Script.Spec.{connection_fields}
use mh2c_go.Script.Spec.Checks.{validate_script_table}
use mh2c_go.Script.Spec.Validate.{validate_typed, validate_actions, validate_script}

module _ (U : Unicode) (keys_of : ScriptTable → List Bytes) where
  validate_actions-first :
      (index : ℕ) (before rest : List ScriptTable) (bad : ScriptTable) (why : Error)
      → All (λ action. validate_typed U keys_of action ≡ ok tt) before
      → validate_typed U keys_of bad ≡ err why
      → validate_actions U keys_of index (before ++ bad ∷ rest)
        ≡ err (in_action (suc (index + length before)) why)
  unfolding validate_actions
  validate_actions-first index [] rest bad why good fails =
      rw fails (ap (λ n. err (in_action (suc n) why)) (omega arith))
  validate_actions-first index (a ∷ before) rest bad why good fails =
      let later = validate_actions-first (suc index) before rest bad why good.1 fails in
      rw good.0 (later ∙ ap (λ n. err (in_action (suc n) why)) (omega arith))

  -- An error that the validation of a script reports names the first action that is wrong, counted
  -- from 1, and is that action's error; so it does not go on behind it.
  pub validate_script-first :
      (connection : ScriptTable) (before rest : List ScriptTable) (bad : ScriptTable) (why : Error)
      → validate_script_table (codes "connection") (keys_of connection) connection connection_fields
        ≡ ok tt
      → All (λ action. validate_typed U keys_of action ≡ ok tt) before
      → validate_typed U keys_of bad ≡ err why
      → validate_script U keys_of connection (before ++ bad ∷ rest)
        ≡ err (in_action (suc (length before)) why)
  unfolding validate_script
  validate_script-first connection before rest bad why opens good fails = rw opens (
      validate_actions-first 0 before rest bad why good fails
      ∙ ap (λ n. err (in_action (suc n) why)) (omega arith))
