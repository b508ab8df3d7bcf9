-- ===== src/Script/Numbers.antt =====
-- cmd/mh2c/script_frame.go: the numbers and the bytes that the text of an action stands for.
use mh2c_go.Base.{
  ℕ, suc, ◌+◌, ◌-◌, ◌*◌, ◌/◌, ◌%◌, ◌^◌, ◌≤◌, ◌<◌, ◌≡◌, ◌≢◌, refl, ap, subst, ◌∙◌, arith, Bool, true,
  false, Bool-cases, inl, inr, List, [], ◌∷◌, ◌==◌, length, All, IsByte, Option, none, some, Bytes,
  Result, Error, ok, err, panic, diverge, ◌>>=◌,
}
use mh2c_go.Frame.{Setting}
use mh2c_go.Frame.Strings.{hex_char, encode_hex}
use mh2c_go.Frame.RoundTrip.SettingsList.{IsSetting}
use mh2c_go.Script.Text.{
  Unicode, digit, hex_digit, decode_hex, remove_byte, parse_hex_bytes, cut, base_of, uint_step,
  uint_digits, parse_uint,
}
use mh2c_go.Script.Fields.{
  named_setting, setting_or_number, or_error, parse_setting_id, setting_of, parse_script_settings,
}

-- The first text is the second with spaces and tabs in it.
pub data Blanked : Bytes → Bytes → Type 0 where
  no_text : Blanked [] []
  space : {t u : Bytes} → Blanked t u → Blanked (32 ∷ t) u
  tab : {t u : Bytes} → Blanked t u → Blanked (9 ∷ t) u
  other : {t u : Bytes} (c : ℕ) → c ≢ 32 → c ≢ 9 → Blanked t u → Blanked (c ∷ t) (c ∷ u)

remove_blanks : (t u : Bytes) → Blanked t u → remove_byte 9 (remove_byte 32 t) ≡ u
unfolding remove_byte
remove_blanks _ _ no_text = refl
remove_blanks _ _ (space {t} {u} b) = remove_blanks t u b
remove_blanks _ _ (tab {t} {u} b) = remove_blanks t u b
remove_blanks _ _ (other {t} {u} c h k b) = ground (arith, remove_blanks t u b)

hex_digit-hex_char : (n : ℕ) → n < 16 → hex_digit (hex_char n) ≡ ok n
unfolding hex_digit
hex_digit-hex_char n h = ground arith

pub decode_hex-encode_hex : (bs : Bytes) → All IsByte bs → decode_hex (encode_hex bs) ≡ ok bs
unfolding decode_hex
decode_hex-encode_hex [] h = refl
decode_hex-encode_hex (b ∷ bs) (h, hs) =
    rw
      (
        decode_hex-encode_hex bs hs,
        hex_digit-hex_char (b / 16) (omega arith),
        hex_digit-hex_char (b % 16) (omega arith),
      )
      (ap (λ n. ok (n ∷ bs)) joined)
  where
    joined : b / 16 * 16 + b % 16 ≡ b
    joined = omega arith

-- The hexadecimal digits of some bytes, with spaces and tabs anywhere between, are read as those
-- bytes.
pub parse_hex_bytes-encode_hex :
    (t bs : Bytes) → All IsByte bs → Blanked t (encode_hex bs) → parse_hex_bytes t ≡ ok bs
unfolding parse_hex_bytes
parse_hex_bytes-encode_hex t bs h blanked =
    ap decode_hex (remove_blanks t (encode_hex bs) blanked) ∙ decode_hex-encode_hex bs h

-- A value of `r` is within the limit.
abbrev Within : ℕ → Result ℕ → Type 0
Within limit (ok n) = n ≤ limit
Within limit (err _) = Unit {0}
Within limit panic = Unit {0}
Within limit diverge = Unit {0}

abbrev WithinPair : ℕ → Result (ℕ × Bool) → Type 0
WithinPair limit (ok (n, _)) = n ≤ limit
WithinPair limit (err _) = Unit {0}
WithinPair limit panic = Unit {0}
WithinPair limit diverge = Unit {0}

uint_step-Within :
    (s : Bytes) (limit base n : ℕ) (d : Option ℕ) → Within limit (uint_step s limit base n d)
uint_step-Within s limit base n none = tt
uint_step-Within s limit base n (some d) = ground arith

after_step :
    (limit : ℕ) (r : Result ℕ) (k : ℕ → Result (ℕ × Bool))
    → Within limit r
    → ((n : ℕ) → n ≤ limit → WithinPair limit (k n))
    → WithinPair limit (r >>= k)
after_step limit (ok n) k h f = f n h
after_step limit (err _) k h f = tt
after_step limit panic k h f = tt
after_step limit diverge k h f = tt

after_digits :
    (limit : ℕ) (r : Result (ℕ × Bool)) (k : ℕ × Bool → Result ℕ)
    → WithinPair limit r
    → ((n : ℕ) (u : Bool) → n ≤ limit → Within limit (k (n, u)))
    → Within limit (r >>= k)
after_digits limit (ok (n, u)) k h f = f n u h
after_digits limit (err _) k h f = tt
after_digits limit panic k h f = tt
after_digits limit diverge k h f = tt

uint_digits-WithinPair :
    (s : Bytes) (limit base : ℕ) (u : Bool) (n : ℕ) (cs : Bytes)
    → n ≤ limit
    → WithinPair limit (uint_digits s limit base u n cs)
unfolding uint_digits
uint_digits-WithinPair s limit base u n [] h = h
uint_digits-WithinPair s limit base u n (c ∷ cs) h = elim (Bool-cases (c == 95)) [
  | inl underscore ↦ rw underscore (uint_digits-WithinPair s limit base true n cs h)
  | inr other_byte ↦ rw other_byte (
      after_step limit (uint_step s limit base n (digit c)) (λ n'. uint_digits s limit base u n' cs)
        (uint_step-Within s limit base n (digit c))
        (λ n' h'. uint_digits-WithinPair s limit base u n' cs h'))
]

parse_uint-Within : (limit : ℕ) (s : Bytes) → Within limit (parse_uint limit s)
unfolding parse_uint
parse_uint-Within limit [] = tt
parse_uint-Within limit (c ∷ cs) =
    after_digits limit
      (uint_digits (c ∷ cs) limit (base_of (c ∷ cs)).0 false 0 (base_of (c ∷ cs)).1) _
      (uint_digits-WithinPair (c ∷ cs) limit (base_of (c ∷ cs)).0 false 0 (base_of (c ∷ cs)).1
        (omega arith))
      (λ n u h. ground arith)

or_error-Within :
    (limit : ℕ) (why : Error) (r : Result ℕ) → Within limit r → Within limit (or_error why r)
or_error-Within limit why (ok n) h = h
or_error-Within limit why (err _) h = tt
or_error-Within limit why panic h = tt
or_error-Within limit why diverge h = tt

-- The settings of `r` fit, and are as many as the entries.
abbrev Fits : ℕ → Result (List Setting) → Type 0
Fits n (ok ss) = (length ss ≡ n) × All IsSetting ss
Fits n (err _) = Unit {0}
Fits n panic = Unit {0}
Fits n diverge = Unit {0}

abbrev FitsOne : Result Setting → Type 0
FitsOne (ok s) = IsSetting s
FitsOne (err _) = Unit {0}
FitsOne panic = Unit {0}
FitsOne diverge = Unit {0}

make_setting :
    (r : Result ℕ) (q : Result ℕ)
    → Within (2 ^ 16 - 1) r
    → Within (2 ^ 32 - 1) q
    → FitsOne (r >>= λ id. q >>= λ value. ok (record { id = id; value = value }))
make_setting (ok id) (ok value) h k = (omega arith, omega arith)
make_setting (ok id) (err _) h k = tt
make_setting (ok id) panic h k = tt
make_setting (ok id) diverge h k = tt
make_setting (err _) q h k = tt
make_setting panic q h k = tt
make_setting diverge q h k = tt

more_settings :
    (n : ℕ) (r : Result Setting) (q : Result (List Setting))
    → FitsOne r
    → Fits n q
    → Fits (suc n) (r >>= λ s. q >>= λ ss. ok (s ∷ ss))
more_settings n (ok s) (ok ss) h (size, k) = (ap suc size, (h, k))
more_settings n (ok s) (err _) h k = tt
more_settings n (ok s) panic h k = tt
more_settings n (ok s) diverge h k = tt
more_settings n (err _) q h k = tt
more_settings n panic q h k = tt
more_settings n diverge q h k = tt

abbrev Small : Option ℕ → Type 0
Small none = Unit {0}
Small (some v) = v ≤ 2 ^ 16 - 1

named_setting-Small : (name : Bytes) → Small (named_setting name)
named_setting-Small name = ground arith

module _ (U : Unicode) where
  open U use {trim_space, to_upper}

  setting_or_number-Within :
      (name : Bytes) (o : Option ℕ) → Small o → Within (2 ^ 16 - 1) (setting_or_number name o)
  setting_or_number-Within name none h =
      or_error-Within (2 ^ 16 - 1) _ _ (parse_uint-Within (2 ^ 16 - 1) name)
  setting_or_number-Within name (some id) h = h

  setting_of-FitsOne : (entry : Bytes) (o : Option (Bytes × Bytes)) → FitsOne (setting_of U entry o)
  unfolding parse_setting_id
  setting_of-FitsOne entry none = tt
  setting_of-FitsOne entry (some (key, text)) =
      make_setting (parse_setting_id U (trim_space key)) (parse_uint (2 ^ 32 - 1) (trim_space text))
        (setting_or_number-Within (trim_space key) _
          (named_setting-Small (to_upper (trim_space key))))
        (parse_uint-Within (2 ^ 32 - 1) (trim_space text))

  parse_script_settings-Fits :
      (entries : List Bytes) → Fits (length entries) (parse_script_settings U entries)
  unfolding parse_script_settings
  parse_script_settings-Fits [] = (refl, tt)
  parse_script_settings-Fits (entry ∷ rest) =
      more_settings (length rest) (setting_of U entry (cut 61 entry)) (parse_script_settings U rest)
        (setting_of-FitsOne entry (cut 61 entry)) (parse_script_settings-Fits rest)

  -- The settings that a script's entries are read as are as many as the entries, and each has an
  -- identifier of 16 bits and a value of 32, so that SETTINGS can carry them.
  parse_script_settings-IsSetting :
      (entries : List Bytes) (settings : List Setting)
      → parse_script_settings U entries ≡ ok settings
      → (length settings ≡ length entries) × All IsSetting settings
  parse_script_settings-IsSetting entries settings e =
      subst (Fits (length entries)) e (parse_script_settings-Fits entries)
