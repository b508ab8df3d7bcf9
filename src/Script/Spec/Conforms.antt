-- ===== src/Script/Spec/Conforms.antt =====
-- cmd/mh2c/script_spec.go: what the validation of a table promises, whatever the order of its keys.
use mh2c_go.Base.{
  Bool, true, false, not, ◌&&◌, List, [], ◌∷◌, All, ◌≡◌, refl, arith, if◌then◌else◌, Option, none,
  some, Bytes, bytes_eq, bytes_eq_iff, Bool-cases, inl, inr, Result, ok, err, panic, diverge, ap,
  subst, ◌>>◌, ◌↔◌,
}
use mh2c_go.Script.Values.{ScriptValue, ScriptTable}
use mh2c_go.Script.Spec.{FieldSpec, kind_of, same_kind}
use mh2c_go.Script.Spec.Checks.{
  find_field, is_some, check_entry, check_keys, check_required, validate_script_table,
}

unfoldable pub has_key : List Bytes → Bytes → Bool
has_key [] key = false
has_key (k ∷ ks) key = if bytes_eq k key then true else has_key ks key

-- A present key is one of the fields, with a value of the field's kind.
abbrev pub EntryConforms : Option FieldSpec → Option ScriptValue → Type 0
EntryConforms o none = Unit {0}
EntryConforms none (some v) = true ≡ false
EntryConforms (some f) (some v) = same_kind (kind_of v) f.kind ≡ true

abbrev pub Conforms : ScriptTable → List FieldSpec → Bytes → Type 0
Conforms table fields key = EntryConforms (find_field key fields) (table key)

-- A field that is required is present.
abbrev pub Present : ScriptTable → FieldSpec → Type 0
Present table f = (f.required && not (is_some (table f.name))) ≡ false

both_ok : (m k : Result (Unit {0})) → (m >> k ≡ ok tt) ↔ ((m ≡ ok tt) × (k ≡ ok tt))
both_ok (ok a) k = (λ h. (refl, h), λ h. h.1)
both_ok (err e) k = (λ h. absurd (ground (arith, h)), λ h. absurd (ground (arith, h.0)))
both_ok panic k = (λ h. absurd (ground (arith, h)), λ h. absurd (ground (arith, h.0)))
both_ok diverge k = (λ h. absurd (ground (arith, h)), λ h. absurd (ground (arith, h.0)))

entry-Conforms :
    (scope key : Bytes) (o : Option FieldSpec) (v : Option ScriptValue)
    → (check_entry scope key o v ≡ ok tt) ↔ EntryConforms o v
entry-Conforms scope key none none = (λ h. tt, λ h. refl)
entry-Conforms scope key (some f) none = (λ h. tt, λ h. refl)
entry-Conforms scope key none (some v) = ground arith
entry-Conforms scope key (some f) (some v) = ground arith

check_keys-Conforms :
    (scope : Bytes) (table : ScriptTable) (fields : List FieldSpec) (keys : List Bytes)
    → (check_keys scope table fields keys ≡ ok tt) ↔ All (Conforms table fields) keys
unfolding check_keys
check_keys-Conforms scope table fields [] = (λ h. tt, λ h. refl)
check_keys-Conforms scope table fields (key ∷ keys) =
    let here = entry-Conforms scope key (find_field key fields) (table key) in
    let there = check_keys-Conforms scope table fields keys in
    let parts =
      both_ok (check_entry scope key (find_field key fields) (table key))
        (check_keys scope table fields keys) in
    (λ h. (here.0 (parts.0 h).0, there.0 (parts.0 h).1), λ h. parts.1 (here.1 h.0, there.1 h.1))

check_required-Present :
    (scope : Bytes) (table : ScriptTable) (fields : List FieldSpec)
    → (check_required scope table fields ≡ ok tt) ↔ All (Present table) fields
unfolding check_required
check_required-Present scope table [] = (λ h. tt, λ h. refl)
check_required-Present scope table (f ∷ fs) = ground (arith, check_required-Present scope table fs)

has_key-All :
    (table : ScriptTable) (fields : List FieldSpec) (keys : List Bytes) (key : Bytes)
    → has_key keys key ≡ true
    → All (Conforms table fields) keys
    → Conforms table fields key
unfolding has_key
has_key-All table fields [] key h all = absurd (ground (arith, h))
has_key-All table fields (k ∷ ks) key h all = elim (Bool-cases (bytes_eq k key)) [
  | inl same ↦ subst (Conforms table fields) ((bytes_eq_iff k key).0 same) all.0
  | inr other ↦ has_key-All table fields ks key (ground (arith, h, other)) all.1
]

-- A table that passes, with a loop that meets each of its keys, has no key outside of the fields and
-- no value of another kind than its field's, and every required field is in it.
pub validate_script_table-Conforms :
    (scope : Bytes) (keys : List Bytes) (table : ScriptTable) (fields : List FieldSpec)
    (key : Bytes)
    → ((k : Bytes) → is_some (table k) ≡ true → has_key keys k ≡ true)
    → validate_script_table scope keys table fields ≡ ok tt
    → Conforms table fields key × All (Present table) fields
unfolding validate_script_table
validate_script_table-Conforms scope keys table fields key met passes =
    let parts = both_ok (check_keys scope table fields keys) (check_required scope table fields) in
    (
      visited
          (λ h.
            has_key-All table fields keys key (met key h)
              ((check_keys-Conforms scope table fields keys).0 (parts.0 passes).0))
          (table key) refl,
      (check_required-Present scope table fields).0 (parts.0 passes).1,
    )
  where
    visited :
        (is_some (table key) ≡ true → Conforms table fields key)
        → (v : Option ScriptValue) → table key ≡ v
        → EntryConforms (find_field key fields) v
    visited f none e = tt
    visited f (some v) e = subst (EntryConforms (find_field key fields)) e (f (ap is_some e))

everywhere :
    (table : ScriptTable) (fields : List FieldSpec) (keys : List Bytes)
    → ((key : Bytes) → Conforms table fields key)
    → All (Conforms table fields) keys
everywhere table fields [] f = tt
everywhere table fields (k ∷ ks) f = (f k, everywhere table fields ks f)

-- Whether a table passes does not hang on the order in which the map is visited: where a loop that
-- meets every key of the table lets it pass, a loop over any other list of keys does so too.
pub validate_script_table-order :
    (scope : Bytes) (keys others : List Bytes) (table : ScriptTable) (fields : List FieldSpec)
    → ((k : Bytes) → is_some (table k) ≡ true → has_key keys k ≡ true)
    → validate_script_table scope keys table fields ≡ ok tt
    → validate_script_table scope others table fields ≡ ok tt
unfolding validate_script_table
validate_script_table-order scope keys others table fields met passes =
    let conforms =
      λ (key : Bytes). validate_script_table-Conforms scope keys table fields key met passes in
    (both_ok (check_keys scope table fields others) (check_required scope table fields)).1 (
      (check_keys-Conforms scope table fields others).1
          (everywhere table fields others (λ key. (conforms key).0)),
      (check_required-Present scope table fields).1 (conforms []).1,
    )
