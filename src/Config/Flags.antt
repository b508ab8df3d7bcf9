-- ===== src/Config/Flags.antt =====
-- The package flag, as cmd/mh2c/config.go uses it: a set of flags, and the reading of the arguments.
use mh2c_go.Base.{
  ℕ, ◌-◌, ◌^◌, Bool, true, false, ◌||◌, List, [], ◌∷◌, ◌==◌, if◌then◌else◌, Option, none, some,
  Bytes, bytes_eq, codes, Result, Error, ok, err, ◌>>=◌, bad_flag, undefined_flag, help_requested,
  flag_needs_argument, invalid_boolean, invalid_uint,
}
use mh2c_go.Script.Text.{cut, parse_uint, uint_step, digit}

-- What a flag does with its value; S is what the flags change.
pub data Setter (S : Type 0) : Type 0 where
  bool_setter : (Bool → S → S) → Setter S
  value_setter : (Bytes → S → Result S) → Setter S

-- `flag.FlagSet`: the flags by their names.
abbrev pub FlagSet : Type 0 → Type 0
FlagSet S = List (Bytes × Setter S)

abbrev is_one_of : Bytes → List Bytes → Bool
is_one_of t [] = false
is_one_of t (n ∷ ns) = bytes_eq t n || is_one_of t ns

abbrev true_texts : List Bytes
true_texts = codes "1" ∷ codes "t" ∷ codes "T" ∷ codes "TRUE" ∷ codes "true" ∷ codes "True" ∷ []

abbrev false_texts : List Bytes
false_texts = codes "0" ∷ codes "f" ∷ codes "F" ∷ codes "FALSE" ∷ codes "false" ∷ codes "False" ∷ []

-- `strconv.ParseBool`
unfoldable pub parse_bool : Bytes → Result Bool
parse_bool text =
    if is_one_of text true_texts
    then ok true
    else if is_one_of text false_texts
    then ok false
    else err (invalid_boolean text)

unfoldable decimal_digits : Bytes → ℕ → ℕ → Bytes → Result ℕ
decimal_digits s limit n [] = ok n
decimal_digits s limit n (c ∷ cs) =
    uint_step s limit 10 n (digit c) >>= λ m. decimal_digits s limit m cs

-- `strconv.ParseUint(text, 10, bits)`, where `limit` is the greatest number of that many bits.
unfoldable pub parse_decimal : ℕ → Bytes → Result ℕ
unfolding decimal_digits
parse_decimal limit [] = err (invalid_uint [])
parse_decimal limit (c ∷ cs) = decimal_digits (c ∷ cs) limit 0 (c ∷ cs)

-- What one argument is, where the flags change an S.
pub data Argument (S : Type 0) : Type 0 where
  no_flag : Argument S
  terminator : Argument S
  bad_argument : Error → Argument S
  sets : Result S → Argument S
  wants_value : (Bytes → S → Result S) → Argument S

module _ {S : Type 0} where
  unfoldable pub find_flag : Bytes → FlagSet S → Option (Setter S)
  find_flag name [] = none
  find_flag name ((n, setter) ∷ flags) =
      if bytes_eq n name then some setter else find_flag name flags

  -- `StringVar`, `UintVar` and `BoolVar`.
  abbrev pub string_flag : (Bytes → S → S) → Setter S
  string_flag put = value_setter (λ text s. ok (put text s))

  abbrev pub uint_flag : (ℕ → S → S) → Setter S
  uint_flag put = value_setter (λ text s. do n ← parse_uint (2 ^ 64 - 1) text; ok (put n s))

  abbrev pub bool_flag : (Bool → S → S) → Setter S
  bool_flag put = bool_setter put

  abbrev with_bool : (Bool → S → S) → S → Result Bool → Result S
  with_bool put s r = do b ← r; ok (put b s)

  abbrev with_setter : Bytes → Option Bytes → S → Option (Setter S) → Argument S
  with_setter name value s none =
      if bytes_eq name (codes "help") || bytes_eq name (codes "h")
      then bad_argument help_requested
      else bad_argument (undefined_flag name)
  with_setter name none s (some (bool_setter put)) = sets (ok (put true s))
  with_setter name (some text) s (some (bool_setter put)) = sets (with_bool put s (parse_bool text))
  with_setter name none s (some (value_setter put)) = wants_value put
  with_setter name (some text) s (some (value_setter put)) = sets (put text s)

  abbrev named_flag : FlagSet S → S → Bytes → Option (Bytes × Bytes) → Argument S
  named_flag flags s name none = with_setter name none s (find_flag name flags)
  named_flag flags s name (some (key, value)) = with_setter key (some value) s (find_flag key flags)

  -- The argument behind its dashes; a name has one byte at least before the `=`.
  abbrev flag_body : FlagSet S → S → Bytes → Argument S
  flag_body flags s [] = bad_argument (bad_flag [])
  flag_body flags s (c ∷ cs) =
      if (c == 45) || (c == 61)
      then bad_argument (bad_flag (c ∷ cs))
      else named_flag flags s (c ∷ cs) (cut 61 (c ∷ cs))

  abbrev behind_dash : FlagSet S → S → Bytes → Argument S
  behind_dash flags s [] = no_flag
  behind_dash flags s (c ∷ []) = if c == 45 then terminator else flag_body flags s (c ∷ [])
  behind_dash flags s (c ∷ d ∷ ds) =
      if c == 45 then flag_body flags s (d ∷ ds) else flag_body flags s (c ∷ d ∷ ds)

  unfoldable pub read_argument : FlagSet S → S → Bytes → Argument S
  unfolding find_flag
  read_argument flags s [] = no_flag
  read_argument flags s (c ∷ cs) = if c == 45 then behind_dash flags s cs else no_flag

  -- `fs.Parse`, with the flag that waits for the next argument as its value. The result has the
  -- arguments that are left, `fs.Args()`.
  unfoldable pub parse_arguments :
      FlagSet S → Option (Bytes → S → Result S) → S → List Bytes → Result (S × List Bytes)
  unfolding read_argument
  parse_arguments flags none s [] = ok (s, [])
  parse_arguments flags (some put) s [] = err flag_needs_argument
  parse_arguments flags (some put) s (text ∷ rest) =
      put text s >>= λ s'. parse_arguments flags none s' rest
  parse_arguments flags none s (text ∷ rest) = elim (read_argument flags s text) [
    | no_flag ↦ ok (s, text ∷ rest)
    | terminator ↦ ok (s, rest)
    | bad_argument why ↦ err why
    | sets r ↦ r >>= λ s'. parse_arguments flags none s' rest
    | wants_value put ↦ parse_arguments flags (some put) s rest
  ]
