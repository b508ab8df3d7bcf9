-- ===== src/Script/Values.antt =====
-- cmd/mh2c/script_value.go: the tables of a script, and the typed reading of their keys.
use mh2c_go.Base.{
  ℕ, ◌-◌, ◌^◌, ◌<◌, ◌≡◌, refl, arith, Bool, List, if◌then◌else◌, Option, none, some, Bytes,
  bytes_eq, Result, Error, ok, err, ◌>>=◌, key_required, key_not_string, key_not_string_list,
  key_not_bool, key_not_integer, key_not_uint32, key_not_uint8,
}
use mh2c_go.Base.Int.{ℤ, pos, negsuc, to_unsigned}

-- `scriptValue`, whose kind says which field counts.
pub data ScriptValue : Type 0 where
  script_string : Bytes → ScriptValue
  script_number : ℤ → ScriptValue
  script_bool : Bool → ScriptValue
  script_string_list : List Bytes → ScriptValue

-- `map[string]scriptValue`
abbrev pub ScriptTable : Type 0
ScriptTable = Bytes → Option ScriptValue

-- `out[key] = value`
unfoldable pub set_key : ScriptTable → Bytes → ScriptValue → ScriptTable
set_key t key v = λ k. if bytes_eq k key then some v else t k

-- Each reader below gives `none` where the source gives ok = false.
abbrev as_string : Bytes → Option ScriptValue → Result (Option Bytes)
as_string key none = ok none
as_string key (some (script_string s)) = ok (some s)
as_string key (some _) = err (key_not_string key)

unfoldable pub string_value : ScriptTable → Bytes → Result (Option Bytes)
string_value t key = as_string key (t key)

abbrev as_string_list : Bytes → Option ScriptValue → Result (Option (List Bytes))
as_string_list key none = ok none
as_string_list key (some (script_string_list l)) = ok (some l)
as_string_list key (some _) = err (key_not_string_list key)

unfoldable pub string_list_value : ScriptTable → Bytes → Result (Option (List Bytes))
string_list_value t key = as_string_list key (t key)

abbrev as_bool : Bytes → Option ScriptValue → Result (Option Bool)
as_bool key none = ok none
as_bool key (some (script_bool b)) = ok (some b)
as_bool key (some _) = err (key_not_bool key)

unfoldable pub bool_value : ScriptTable → Bytes → Result (Option Bool)
bool_value t key = as_bool key (t key)

abbrev as_int : Bytes → Option ScriptValue → Result (Option ℤ)
as_int key none = ok none
as_int key (some (script_number n)) = ok (some n)
as_int key (some _) = err (key_not_integer key)

unfoldable pub int_value : ScriptTable → Bytes → Result (Option ℤ)
int_value t key = as_int key (t key)

-- A value that is required, and a number within a limit.
abbrev required : {A : Type 0} → Bytes → Option A → Result A
required key none = err (key_required key)
required key (some a) = ok a

abbrev within : Error → Option ℕ → Result ℕ
within why none = err why
within why (some n) = ok n

abbrev optional_within : ℕ → Error → Option ℤ → Result (Option ℕ)
optional_within limit why none = ok none
optional_within limit why (some v) = do n ← within why (to_unsigned limit v); ok (some n)

unfoldable pub require_string : ScriptTable → Bytes → Result Bytes
unfolding string_value
require_string t key = do v ← string_value t key; required key v

unfoldable pub require_uint32 : ScriptTable → Bytes → Result ℕ
unfolding int_value
require_uint32 t key = do
  v ← int_value t key
  n ← required key v
  within (key_not_uint32 key) (to_unsigned (2 ^ 32 - 1) n)

unfoldable pub optional_uint32 : ScriptTable → Bytes → Result (Option ℕ)
unfolding int_value
optional_uint32 t key = do v ← int_value t key; optional_within (2 ^ 32 - 1) (key_not_uint32 key) v

unfoldable pub require_uint8 : ScriptTable → Bytes → Result ℕ
unfolding int_value
require_uint8 t key = do
  v ← int_value t key
  n ← required key v
  within (key_not_uint8 key) (to_unsigned 0xff n)

unfoldable pub optional_uint8 : ScriptTable → Bytes → Result (Option ℕ)
unfolding int_value
optional_uint8 t key = do v ← int_value t key; optional_within 0xff (key_not_uint8 key) v

pub require_uint32-bound :
    (t : ScriptTable) (key : Bytes) (n : ℕ) → require_uint32 t key ≡ ok n → n < 2 ^ 32
unfolding require_uint32 int_value
require_uint32-bound t key n h = small (t key) h
  where
    small :
        (v : Option ScriptValue)
        → as_int key v >>= (λ o.
          required key o >>= λ i. within (key_not_uint32 key) (to_unsigned (2 ^ 32 - 1) i))
          ≡ ok n
        → n < 2 ^ 32
    small none e = absurd (ground (arith, e))
    small (some (script_string s)) e = absurd (ground (arith, e))
    small (some (script_bool s)) e = absurd (ground (arith, e))
    small (some (script_string_list s)) e = absurd (ground (arith, e))
    small (some (script_number (pos m))) e = ground (arith, e)
    small (some (script_number (negsuc m))) e = absurd (ground (arith, e))

pub require_uint32-present :
    (t : ScriptTable) (key : Bytes) (n : ℕ)
    → require_uint32 t key ≡ ok n
    → (v : ScriptValue) × (t key ≡ some v)
unfolding require_uint32 int_value
require_uint32-present t key n h = present (t key) refl
  where
    present : (o : Option ScriptValue) → t key ≡ o → (v : ScriptValue) × (t key ≡ some v)
    present (some v) e = (v, e)
    present none e = absurd (ground (arith, e, h))
