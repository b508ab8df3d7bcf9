-- ===== src/Frame/Safety.antt =====
-- `Unmarshal` on any header and payload: it never panics, and what it accepts keeps its shape.
use mh2c_go.Base.{
  ℕ, zero, suc, ◌+◌, ◌-◌, ◌*◌, ◌/◌, ◌^◌, ◌≤◌, ◌<◌, ◌≡◌, ◌≢◌, refl, arith, Bool, true, false, List,
  [], ◌∷◌, ◌++◌, ltb, ◌==◌, if◌then◌else◌, length, take, drop, Bytes, Result, ok, err, panic,
  diverge, ◌>>=◌, slice, slice_in_range, index, index_in_range, Bool-cases, length-take,
  length-drop, inl, inr,
}
use mh2c_go.Wire.{read_uint16, read_uint32}
use mh2c_go.Frame.{
  Header, Setting, type_headers, type_push_promise, flag_padded, flag_priority, has_flag,
}
use mh2c_go.Frame.Padding.{parse_pad_length}
use mh2c_go.Frame.Data.{parse_data_frame}
use mh2c_go.Frame.Headers.{parse_headers_frame, parse_priority_param}
use mh2c_go.Frame.PushPromise.{parse_push_promise_frame}
use mh2c_go.Frame.Settings.{parse_settings, parse_settings_frame}
use mh2c_go.Frame.Control.{
  parse_priority_frame, parse_rst_stream_frame, parse_ping_frame, parse_go_away_frame,
  parse_window_update_frame, parse_continuation_frame,
}
use mh2c_go.Frame.Codec.{parse_payload, unmarshal}

slice-ne-panic : (lo hi : ℕ) (xs : Bytes) → lo ≤ hi → hi ≤ length xs → slice lo hi xs ≢ panic
unfolding slice
slice-ne-panic lo hi xs p q = ground arith

-- A slice within range, read as an integer of its length.
read_uint16-ne-panic : (xs : Bytes) → read_uint16 xs ≢ panic
unfolding read_uint16
read_uint16-ne-panic (a ∷ b ∷ xs) = ground arith
read_uint16-ne-panic _ = ground arith

read_uint32-ne-panic : (xs : Bytes) → read_uint32 xs ≢ panic
unfolding read_uint32
read_uint32-ne-panic (a ∷ b ∷ c ∷ d ∷ xs) = ground arith
read_uint32-ne-panic _ = ground arith

index-ne-panic : (i : ℕ) (xs : Bytes) → i < length xs → index i xs ≢ panic
index-ne-panic i xs h = let (x, e) = index_in_range i xs h in rw e (λ p. cc)

bind-ne-panic {ℓ κ} :
    {A : Type ℓ} {B : Type κ} (m : Result A) (f : A → Result B)
    → m ≢ panic
    → ((a : A) → m ≡ ok a → f a ≢ panic)
    → (m >>= f) ≢ panic
bind-ne-panic (ok a) f h k = k a refl
bind-ne-panic (err e) f h k = λ p. cc
bind-ne-panic panic f h k = absurd (h refl)
bind-ne-panic diverge f h k = λ p. cc

parse_data_frame-ne-panic : (h : Header) (p : Bytes) → parse_data_frame h p ≢ panic
unfolding parse_data_frame index
parse_data_frame-ne-panic h [] = ground (arith, slice-ne-panic 0 0 [])
parse_data_frame-ne-panic h (x ∷ xs) = ground (
  arith,
  slice-ne-panic 0 (length (x ∷ xs) - 0) (x ∷ xs),
  slice-ne-panic 1 (length (x ∷ xs) - x) (x ∷ xs),
)

-- An integer field within the payload is read.
read_uint32_total : (s : Bytes) → 4 ≤ length s → (v : ℕ) × (read_uint32 s ≡ ok v)
unfolding read_uint32
read_uint32_total (a ∷ b ∷ c ∷ d ∷ s) h = (_, refl_of)
  where
    refl_of : read_uint32 (a ∷ b ∷ c ∷ d ∷ s) ≡ ok (a * 2 ^ 24 + b * 2 ^ 16 + c * 2 ^ 8 + d)
    refl_of = ground arith
read_uint32_total _ h = absurd (omega arith)

read_uint16_total : (s : Bytes) → 2 ≤ length s → (v : ℕ) × (read_uint16 s ≡ ok v)
unfolding read_uint16
read_uint16_total (a ∷ b ∷ s) h = (_, read)
  where
    read : read_uint16 (a ∷ b ∷ s) ≡ ok (a * 2 ^ 8 + b)
    read = ground arith
read_uint16_total _ h = absurd (omega arith)

-- `ReadUint32(p[i:i+4])` succeeds.
record Field32 (i : ℕ) (p : Bytes) : Type 0 where
  part : Bytes
  value : ℕ
  cut : slice i (i + 4) p ≡ ok part
  read : read_uint32 part ≡ ok value

field32 : (i : ℕ) (p : Bytes) → i + 4 ≤ length p → Field32 i p
field32 i p h =
    let part : Bytes = take (i + 4 - i) (drop i p) in
    let (value, read) =
      read_uint32_total part (omega (arith, length-take (i + 4 - i) (drop i p), length-drop i p)) in
    record {
      part = part;
      value = value;
      cut = slice_in_range i (i + 4) p (omega arith) h;
      read = read;
    }

parse_priority_param-ne-panic : (b : Bool) (i : ℕ) (p : Bytes) → parse_priority_param b i p ≢ panic
unfolding parse_priority_param
parse_priority_param-ne-panic false i p = λ e. cc
parse_priority_param-ne-panic true i p = elim (Bool-cases (ltb (length p) (i + 5))) [
  | inl short ↦ rw short (λ e. cc)
  | inr fits ↦
      let f = field32 i p (ground arith) in ground (arith, f.cut, f.read, index-ne-panic (i + 4) p)
]

parse_pad_length-ne-panic : (t : ℕ) (b : Bool) (p : Bytes) → parse_pad_length t b p ≢ panic
unfolding parse_pad_length
parse_pad_length-ne-panic t b p = ground (arith, index-ne-panic 0 p)

parse_headers_frame-ne-panic : (h : Header) (p : Bytes) → parse_headers_frame h p ≢ panic
unfolding parse_headers_frame
parse_headers_frame-ne-panic h p =
    let padded = has_flag h.flags flag_padded in
    let prioritised = has_flag h.flags flag_priority in
    bind-ne-panic (parse_pad_length type_headers padded p) _
      (parse_pad_length-ne-panic type_headers padded p)
      λ (pad, i) _.
        bind-ne-panic (parse_priority_param prioritised i p) _
          (parse_priority_param-ne-panic prioritised i p)
          λ (priority, offset) _. ground (arith, slice-ne-panic offset (length p - pad) p)

parse_push_promise_frame-ne-panic : (h : Header) (p : Bytes) → parse_push_promise_frame h p ≢ panic
unfolding parse_push_promise_frame
parse_push_promise_frame-ne-panic h p =
    let padded = has_flag h.flags flag_padded in
    bind-ne-panic (parse_pad_length type_push_promise padded p) _
      (parse_pad_length-ne-panic type_push_promise padded p)
      λ (pad, i) _. elim (Bool-cases (ltb (length p) (i + 4))) [
        | inl short ↦ rw short (λ e. cc)
        | inr fits ↦
            let f = field32 i p (ground arith) in
            ground (arith, f.cut, f.read, slice-ne-panic (i + 4) (length p - pad) p)
      ]

-- Each round of the SETTINGS loop stays within a payload of six bytes a round.
parse_settings-ne-panic :
    (rounds i : ℕ) (p : Bytes) (acc : List Setting)
    → i + 6 * rounds ≤ length p
    → parse_settings rounds i p acc ≢ panic
unfolding parse_settings
parse_settings-ne-panic zero i p acc h = λ e. cc
parse_settings-ne-panic (suc rounds) i p acc h =
    let f = field32 (i + 2) p (omega arith) in
    let part : Bytes = take (i + 2 - i) (drop i p) in
    let cut = slice_in_range i (i + 2) p (omega arith) (omega arith) in
    let (id, read) =
      read_uint16_total part (omega (arith, length-take (i + 2 - i) (drop i p), length-drop i p)) in
    let next : Setting = record { id = id; value = f.value } in
    ground (
      arith,
      cut,
      read,
      f.cut,
      f.read,
      parse_settings-ne-panic rounds (i + 6) p (acc ++ (next ∷ [])),
    )

parse_settings_frame-ne-panic : (h : Header) (p : Bytes) → parse_settings_frame h p ≢ panic
unfolding parse_settings_frame
parse_settings_frame-ne-panic h p =
    ground (arith, parse_settings-ne-panic ((length p + 5) / 6) 0 p [])

parse_priority_frame-ne-panic : (h : Header) (p : Bytes) → parse_priority_frame h p ≢ panic
unfolding parse_priority_frame
parse_priority_frame-ne-panic h p = elim (Bool-cases (length p == 5)) [
  | inl five ↦
      let f = field32 0 p (ground arith) in ground (arith, f.cut, f.read, index-ne-panic 4 p)
  | inr other ↦ rw other (λ e. cc)
]

parse_go_away_frame-ne-panic : (h : Header) (p : Bytes) → parse_go_away_frame h p ≢ panic
unfolding parse_go_away_frame
parse_go_away_frame-ne-panic h p = elim (Bool-cases (ltb (length p) 8)) [
  | inl short ↦ rw short (λ e. cc)
  | inr long ↦
      let f = field32 0 p (ground arith) in
      let g = field32 4 p (ground arith) in
      ground (arith, f.cut, f.read, g.cut, g.read, slice-ne-panic 8 (length p) p)
]

parse_rst_stream_frame-ne-panic : (h : Header) (p : Bytes) → parse_rst_stream_frame h p ≢ panic
unfolding parse_rst_stream_frame
parse_rst_stream_frame-ne-panic h p = ground (arith, read_uint32-ne-panic p)

parse_window_update_frame-ne-panic :
    (h : Header) (p : Bytes) → parse_window_update_frame h p ≢ panic
unfolding parse_window_update_frame
parse_window_update_frame-ne-panic h p = ground (arith, read_uint32-ne-panic p)

parse_ping_frame-ne-panic : (h : Header) (p : Bytes) → parse_ping_frame h p ≢ panic
unfolding parse_ping_frame
parse_ping_frame-ne-panic h p = ground arith

parse_continuation_frame-ne-panic : (h : Header) (p : Bytes) → parse_continuation_frame h p ≢ panic
unfolding parse_continuation_frame
parse_continuation_frame-ne-panic h p = ground arith

if-ne-panic {ℓ} :
    {A : Type ℓ} (b : Bool) (x y : Result A) → x ≢ panic → y ≢ panic → (if b then x else y) ≢ panic
if-ne-panic true x y hx hy = hx
if-ne-panic false x y hx hy = hy

parse_payload-ne-panic : (h : Header) (p : Bytes) → parse_payload h p ≢ panic
unfolding parse_payload
parse_payload-ne-panic h p = if-ne-panic (h.type == 0) _ _ (parse_data_frame-ne-panic h p) (
    if-ne-panic (h.type == 1) _ _ (parse_headers_frame-ne-panic h p) (
      if-ne-panic (h.type == 2) _ _ (parse_priority_frame-ne-panic h p) (
        if-ne-panic (h.type == 4) _ _ (parse_settings_frame-ne-panic h p) (
          if-ne-panic (h.type == 5) _ _ (parse_push_promise_frame-ne-panic h p) (
            if-ne-panic (h.type == 6) _ _ (parse_ping_frame-ne-panic h p) (
              if-ne-panic (h.type == 7) _ _ (parse_go_away_frame-ne-panic h p) (
                if-ne-panic (h.type == 8) _ _ (parse_window_update_frame-ne-panic h p) (
                  if-ne-panic (h.type == 9) _ _ (parse_continuation_frame-ne-panic h p) (
                    if-ne-panic (h.type == 3) _ _ (parse_rst_stream_frame-ne-panic h p)
                      (λ e. cc))))))))))

-- `Unmarshal` never panics: on every header and every payload, well formed or not, its slices and
-- indexes stay in range.
pub unmarshal-ne-panic : (h : Header) (p : Bytes) → unmarshal h p ≢ panic
unfolding unmarshal
unmarshal-ne-panic h p = ground (arith, parse_payload-ne-panic h p)
