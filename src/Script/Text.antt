-- ===== src/Script/Text.antt =====
-- The parts of strings, strconv and encoding/hex that cmd/mh2c/script_frame.go and request.go call.
use mh2c_go.Base.{
  ℕ, suc, ◌+◌, ◌-◌, ◌*◌, Bool, true, false, not, ◌&&◌, ◌||◌, bit_or, [], ◌∷◌, ltb, leb, ◌==◌,
  if◌then◌else◌, Option, none, some, Bytes, Result, ok, err, ◌>>=◌, invalid_uint, uint_out_of_range,
  invalid_hex, odd_hex,
}

abbrev map_option {ℓ κ} : {A : Type ℓ} {B : Type κ} → (A → B) → Option A → Option B
map_option f none = none
map_option f (some a) = some (f a)

-- `strings.TrimSpace`, `ToUpper` and `ToLower` read the Unicode tables of the library.
pub record Unicode : Type 0 where
  pub trim_space : Bytes → Bytes
  pub to_upper : Bytes → Bytes
  pub to_lower : Bytes → Bytes

-- `strings.Index(s, sep)` of one byte.
unfoldable pub find_byte : ℕ → Bytes → Option ℕ
find_byte sep [] = none
find_byte sep (b ∷ bs) = if b == sep then some 0 else map_option suc (find_byte sep bs)

abbrev before : ℕ → Bytes × Bytes → Bytes × Bytes
before b (l, r) = (b ∷ l, r)

-- `strings.Cut(s, "=")` for the byte `sep`.
unfoldable pub cut : ℕ → Bytes → Option (Bytes × Bytes)
cut sep [] = none
cut sep (b ∷ bs) = if b == sep then some ([], bs) else map_option (before b) (cut sep bs)

-- `strings.ReplaceAll(s, b, "")` of one byte.
unfoldable pub remove_byte : ℕ → Bytes → Bytes
remove_byte sep [] = []
remove_byte sep (b ∷ bs) = if b == sep then remove_byte sep bs else (b ∷ remove_byte sep bs)

-- `lower` of strconv: c | ('x' - 'X').
abbrev pub lower : ℕ → ℕ
lower c = bit_or c 0x20

abbrev in_range : ℕ → ℕ → ℕ → Bool
in_range lo hi c = leb lo c && leb c hi

-- The value of a byte as a digit in a base up to 36.
unfoldable pub digit : ℕ → Option ℕ
digit c =
    if in_range 48 57 c
    then some (c - 48)
    else if in_range 97 122 (lower c)
    then some (lower c - 97 + 10)
    else none

-- What the loop of `underscoreOK` remembers of the byte before.
pub data Seen : Type 0 where
  seen_start : Seen
  seen_digit : Seen
  seen_underscore : Seen
  seen_other : Seen

abbrev is_digit_seen : Seen → Bool
is_digit_seen seen_digit = true
is_digit_seen _ = false

abbrev is_underscore_seen : Seen → Bool
is_underscore_seen seen_underscore = true
is_underscore_seen _ = false

unfoldable pub underscores_between : Bool → Seen → Bytes → Bool
underscores_between hex i [] = not (is_underscore_seen i)
underscores_between hex i (c ∷ cs) =
    if in_range 48 57 c || (hex && in_range 97 102 (lower c))
    then underscores_between hex seen_digit cs
    else if c == 95
    then is_digit_seen i && underscores_between hex seen_underscore cs
    else not (is_underscore_seen i) && underscores_between hex seen_other cs

abbrev is_prefix_letter : ℕ → Bool
is_prefix_letter c = (lower c == 98) || ((lower c == 111) || (lower c == 120))

abbrev without_sign : Bytes → Bytes
without_sign [] = []
without_sign (c ∷ cs) = if (c == 45) || (c == 43) then cs else (c ∷ cs)

abbrev underscore_body : Bytes → Bool
underscore_body (z ∷ c ∷ cs) =
    if (z == 48) && is_prefix_letter c
    then underscores_between (lower c == 120) seen_digit cs
    else underscores_between false seen_start (z ∷ c ∷ cs)
underscore_body cs = underscores_between false seen_start cs

-- `underscoreOK`
unfoldable pub underscore_ok : Bytes → Bool
underscore_ok s = underscore_body (without_sign s)

-- The base that a prefix stands for, with the bytes behind it.
abbrev prefix_base : ℕ → Bytes → ℕ × Bytes
prefix_base c rest =
    if lower c == 98
    then (2, rest)
    else if lower c == 111
    then (8, rest)
    else if lower c == 120
    then (16, rest)
    else (8, c ∷ rest)

unfoldable pub base_of : Bytes → ℕ × Bytes
base_of (z ∷ c ∷ d ∷ rest) = if z == 48 then prefix_base c (d ∷ rest) else (10, z ∷ c ∷ d ∷ rest)
base_of (z ∷ rest) = if z == 48 then (8, rest) else (10, z ∷ rest)
base_of [] = (10, [])

abbrev pub uint_step : Bytes → ℕ → ℕ → ℕ → Option ℕ → Result ℕ
uint_step s limit base n none = err (invalid_uint s)
uint_step s limit base n (some d) =
    if leb base d
    then err (invalid_uint s)
    else if ltb limit (n * base + d)
    then err (uint_out_of_range s)
    else ok (n * base + d)

-- The loop over the digits, from the value so far; it tells whether it passed an underscore.
unfoldable pub uint_digits : Bytes → ℕ → ℕ → Bool → ℕ → Bytes → Result (ℕ × Bool)
uint_digits s limit base underscores n [] = ok (n, underscores)
uint_digits s limit base underscores n (c ∷ cs) =
    if c == 95
    then uint_digits s limit base true n cs
    else (uint_step s limit base n (digit c) >>= λ n'. uint_digits s limit base underscores n' cs)

-- `strconv.ParseUint(s, 0, bits)`, where `limit` is the greatest number of that many bits.
unfoldable pub parse_uint : ℕ → Bytes → Result ℕ
parse_uint limit [] = err (invalid_uint [])
parse_uint limit (c ∷ cs) =
    let s = c ∷ cs in
    uint_digits s limit (base_of s).0 false 0 (base_of s).1 >>= λ r.
    if r.1 && not (underscore_ok s) then err (invalid_uint s) else ok r.0

-- The value of a byte as a hexadecimal digit.
unfoldable pub hex_digit : ℕ → Result ℕ
hex_digit c =
    if in_range 48 57 c
    then ok (c - 48)
    else if in_range 97 102 c
    then ok (c - 97 + 10)
    else if in_range 65 70 c
    then ok (c - 65 + 10)
    else err (invalid_hex c)

-- `hex.DecodeString`
unfoldable pub decode_hex : Bytes → Result Bytes
decode_hex [] = ok []
decode_hex (p ∷ []) = do a ← hex_digit p; err odd_hex
decode_hex (p ∷ q ∷ rest) =
    let rest' = decode_hex rest in
    do a ← hex_digit p; b ← hex_digit q; bs ← rest'; ok ((a * 16 + b) ∷ bs)

-- `parseHexBytes`
unfoldable pub parse_hex_bytes : Bytes → Result Bytes
unfolding remove_byte
parse_hex_bytes src = decode_hex (remove_byte 9 (remove_byte 32 src))
