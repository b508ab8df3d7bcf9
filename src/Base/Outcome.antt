-- ===== src/Base/Outcome.antt =====
-- Go's (value, error) results, the errors that the packages make, and the panics of slices.
use Prim.Native.Nat.{ℕ, zero, suc, ◌-◌, ◌≤◌, ◌<◌}
use mathlib.Core.Path.{◌≡◌, refl, ap}
use mathlib.Core.Bool.{Bool, true, false, ◌&&◌}
use mathlib.Core.List.{List, [], ◌∷◌}
use native.Mathlib.Omega.{arith}
use mh2c_go.Base.Tests.{leb, if◌then◌else◌}
use mh2c_go.Base.Lists.{length, take, drop, Bytes}

-- One constructor for each message; the arguments are the values that the message shows.
-- Where frame types share a message, the number of the frame type comes first.
pub data Error : Type 0 where
  uint16_short : ℕ → Error
  uint24_overflow : ℕ → Error
  uint24_short : ℕ → Error
  uint32_short : ℕ → Error
  header_size : ℕ → Error
  length_mismatch : ℕ → ℕ → Error
  missing_pad_length : ℕ → Error
  invalid_padding : ℕ → Error
  frame_too_short : ℕ → Error
  payload_size : ℕ → Error
  connection_nil : Error
  eof unexpected_eof : Error
  unexpected_continuation : ℕ → Error
  continuation_mismatch : ℕ → ℕ → Error
  header_block_unfinished : ℕ → Error
  external : ℕ → Error
  key_required : Bytes → Error
  key_not_string : Bytes → Error
  key_not_string_list : Bytes → Error
  key_not_bool : Bytes → Error
  key_not_integer : Bytes → Error
  key_not_uint32 : Bytes → Error
  key_not_uint8 : Bytes → Error
  unknown_action : Bytes → Error
  invalid_setting : Bytes → Error
  unknown_setting_id : Bytes → Error
  unknown_flag : Bytes → Error
  unknown_error_code : Bytes → Error
  invalid_uint : Bytes → Error
  uint_out_of_range : Bytes → Error
  invalid_hex : ℕ → Error
  odd_hex : Error
  invalid_header : Bytes → Error
  invalid_raw_flags : Error
  exactly_one_of : Bytes → Bytes → Error
  invalid_frame_filter : Bytes → Error
  invalid_direction_filter : Bytes → Error
  not_together : Bytes → Bytes → Error
  ping_length : ℕ → Error
  repeat_not_positive : Error
  step_without_repeat : Error
  stream_id_overflow : Error
  duration_not_positive : Error
  count_not_positive : Error
  unsupported_key : Bytes → Bytes → Error
  wrong_kind : Bytes → Bytes → Bytes → Error
  field_required : Bytes → Bytes → Error
  step_without_field : Error
  step_without_stream_id : Error
  step_overflow : Error
  unknown_until : Bytes → Error
  unknown_action_type : Bytes → Error
  unknown_template : Bytes → Error
  array_not_strings : Error
  unsupported_toml : Error
  no_actions : Error
  in_table : Bytes → Bytes → Error → Error
  stream_id_not_positive : Error
  max_table_overflow : ℕ → Error
  port_out_of_range : ℕ → Error
  invalid_output : Bytes → Error
  invalid_data_format : Bytes → Error
  save_unsupported : Error
  bad_flag : Bytes → Error
  undefined_flag : Bytes → Error
  help_requested : Error
  flag_needs_argument : Error
  invalid_boolean : Bytes → Error
  missing_command : Error
  mode_replaced : Error
  command_expected : Bytes → Error
  unknown_command : Bytes → Error
  positional_arguments : List Bytes → Error
  script_file_required : Error
  one_template : Error
  connection_port : Error
  connection_timeout : Error
  connection_table_size : Error
  url_not_absolute : Bytes → Error
  scheme_not_supported : Bytes → Error
  url_without_host : Bytes → Error
  unsupported_mode : Bytes → Error
  wrong_protocol : Bytes → Error
  in_action : ℕ → Error → Error
  in_iteration : ℕ → ℕ → Error → Error

-- `panic` is a run-time panic: an index or a slice bound out of range. `diverge` is no Go value: a
-- loop ran out of the rounds that the model was given. `external` is an error of the connection or
-- of the HPACK library.
pub data Result {ℓ} (A : Type ℓ) : Type ℓ where
  ok : A → Result A
  err : Error → Result A
  panic : Result A
  diverge : Result A

infixl 5 ◌>>=◌ ◌>>◌
abbrev pub ◌>>=◌ {ℓ κ} : {A : Type ℓ} {B : Type κ} → Result A → (A → Result B) → Result B
ok a >>= f = f a
err e >>= f = err e
panic >>= f = panic
diverge >>= f = diverge

abbrev pub ◌>>◌ {ℓ} : {B : Type ℓ} → Result (Unit {0}) → Result B → Result B
m >> k = m >>= λ _. k

abbrev value_or {ℓ} : {A : Type ℓ} → A → Result A → A
value_or a (ok b) = b
value_or a _ = a

pub ok_same {ℓ} : {A : Type ℓ} (a b : A) → ok a ≡ ok b → a ≡ b
ok_same a b h = ap (value_or a) h

-- A chain gives a value only where its first call does.
pub bound_ok {ℓ κ} :
    {A : Type ℓ} {B : Type κ} (m : Result A) (f : A → Result B) (b : B)
    → m >>= f ≡ ok b
    → (a : A) × (m ≡ ok a) × (f a ≡ ok b)
bound_ok (ok a) f b h = (a, refl, h)
bound_ok (err e) f b h = absurd (ground (arith, h))
bound_ok Result.panic f b h = absurd (ground (arith, h))
bound_ok Result.diverge f b h = absurd (ground (arith, h))

-- Behind a guard that an error follows, a value is given only where the guard is false.
pub guarded_ok {ℓ} :
    {A : Type ℓ} (b : Bool) (e : Error) (r : Result A) (a : A)
    → (if b then err e else r) ≡ ok a
    → (b ≡ false) × (r ≡ ok a)
guarded_ok true e r a h = absurd (ground (arith, h))
guarded_ok false e r a h = (refl, h)

-- `xs[lo:hi]`
unfoldable pub slice : ℕ → ℕ → Bytes → Result Bytes
slice lo hi xs = if leb lo hi && leb hi (length xs) then ok (take (hi - lo) (drop lo xs)) else panic

-- `xs[i]`
unfoldable pub index : ℕ → Bytes → Result ℕ
index i [] = panic
index zero (x ∷ xs) = ok x
index (suc i) (x ∷ xs) = index i xs

pub slice_in_range :
    (lo hi : ℕ) (xs : Bytes)
    → lo ≤ hi
    → hi ≤ length xs
    → slice lo hi xs ≡ ok (take (hi - lo) (drop lo xs))
unfolding slice
slice_in_range lo hi xs p q = ground arith

pub index_in_range : (i : ℕ) (xs : Bytes) → i < length xs → (x : ℕ) × (index i xs ≡ ok x)
unfolding index
index_in_range i [] h = absurd (omega arith)
index_in_range zero (x ∷ xs) h = (x, refl)
index_in_range (suc i) (x ∷ xs) h = index_in_range i xs (omega arith)
