-- ===== src/Frame/RoundTrip/Padded.antt =====
-- DATA, HEADERS and PUSH_PROMISE frames: the padding and the fields before the content, read back.
use mh2c_go.Base.{
  ℕ, zero, suc, ◌+◌, ◌-◌, ◌^◌, ◌<◌, ◌≡◌, refl, sym, ap, ◌∙◌, arith, Bool, true, false, [], ◌∷◌,
  ◌++◌, append_assoc, length, length-append, length-replicate, if◌then◌else◌, Bytes, ok, slice,
  index, Option, none, some, ltb, le→ltb,
}
use mh2c_go.Wire.{append_uint32}
use mh2c_go.Frame.{
  DataFrame, HeadersFrame, PriorityParam, PushPromiseFrame, data_frame, headers_frame,
  push_promise_frame, has_flag, flag_padded, flag_priority,
}
use mh2c_go.Frame.Padding.{slice_middle, pad_prefix, pad_suffix, parse_pad_length}
use mh2c_go.Frame.Data.{data_payload, parse_data_frame}
use mh2c_go.Frame.Headers.{
  headers_payload, priority_fields, parse_priority_param, parse_headers_frame, pack_dependency,
}
use mh2c_go.Frame.PushPromise.{push_promise_payload, parse_push_promise_frame}
use mh2c_go.Frame.RoundTrip.Fields.{
  length-append_uint32, slice-append_uint32, read_uint32_back, pack_dependency-lt,
  is_exclusive-pack_dependency, stream_dep-pack_dependency, mask_31_small,
}

-- A frame that is not padded has no pad length.
abbrev pub PadFits : Bool → ℕ → Type 0
PadFits padded pad = padded ≡ false → pad ≡ 0

abbrev pub pad_offset : Bool → ℕ
pad_offset padded = if padded then 1 else 0

pub length-pad_prefix : (b : Bool) (pad : ℕ) → length (pad_prefix b pad) ≡ pad_offset b
length-pad_prefix b pad = ground arith

pub length-pad_suffix : (b : Bool) (pad : ℕ) → PadFits b pad → length (pad_suffix b pad) ≡ pad
length-pad_suffix true pad h = length-replicate pad 0
length-pad_suffix false pad h = sym (h refl)

-- The pad length and the offset behind it are read back.
parse_pad_length-pad_prefix :
    (t : ℕ) (b : Bool) (pad : ℕ) (rest : Bytes)
    → PadFits b pad
    → parse_pad_length t b (pad_prefix b pad ++ rest) ≡ ok (pad, pad_offset b)
unfolding parse_pad_length index
parse_pad_length-pad_prefix t true pad rest h = ground arith
parse_pad_length-pad_prefix t false pad rest h = ap (λ n. ok (n, 0)) (sym (h refl))

-- The content between a front of `offset` bytes and the padding: the bounds test passes, and the
-- slice is the content.
module _ (b : Bool) (pad : ℕ) (front content p : Bytes) (offset : ℕ) where
  padded_fits :
      PadFits b pad
      → offset ≡ length front
      → p ≡ front ++ (content ++ pad_suffix b pad)
      → ltb (length p) (offset + pad) ≡ false
  padded_fits h at e = le→ltb _ _ (
      omega (
        arith,
        ap (length {0}) e,
        length-append front (content ++ pad_suffix b pad),
        length-append content (pad_suffix b pad),
        length-pad_suffix b pad h,
      ))

  slice_content :
      PadFits b pad
      → offset ≡ length front
      → p ≡ front ++ (content ++ pad_suffix b pad)
      → slice offset (length p - pad) p ≡ ok content
  slice_content h at e =
      ap (slice offset (length p - pad)) e
      ∙ slice_middle front content (pad_suffix b pad) offset (length p - pad) at (
          omega (
            arith,
            ap (length {0}) e,
            length-append front (content ++ pad_suffix b pad),
            length-append content (pad_suffix b pad),
            length-pad_suffix b pad h,
          ))

pub parse_data_frame-data_payload :
    (f : DataFrame)
    → PadFits (has_flag f.frame_header.flags flag_padded) f.pad_length
    → parse_data_frame f.frame_header (data_payload f) ≡ ok (data_frame f)
unfolding parse_data_frame data_payload
parse_data_frame-data_payload f h =
    let b = has_flag f.frame_header.flags flag_padded in
    let front = pad_prefix b f.pad_length in
    let p = front ++ (f.content ++ pad_suffix b f.pad_length) in
    let at = sym (length-pad_prefix b f.pad_length) in
    rw (
      parse_pad_length-pad_prefix 0 b f.pad_length _ h,
      padded_fits b f.pad_length front f.content p (pad_offset b) h at refl,
      slice_content b f.pad_length front f.content p (pad_offset b) h at refl,
    )

abbrev pub priority_part : Bool → Option PriorityParam → Bytes
priority_part present priority = if present then priority_fields priority else []

-- The parameter is there exactly when its flag is, and its stream dependency has 31 bits.
abbrev pub PriorityFits : Bool → Option PriorityParam → Type 0
PriorityFits true (some p) = p.stream_dep < 2 ^ 31
PriorityFits true none = ⊥
PriorityFits false (some _) = ⊥
PriorityFits false none = Unit

abbrev priority_offset : Bool → ℕ
priority_offset present = if present then 5 else 0

length-priority_part :
    (b : Bool) (q : Option PriorityParam) → length (priority_part b q) ≡ priority_offset b
unfolding priority_fields append_uint32
length-priority_part false q = refl
length-priority_part true none = refl
length-priority_part true (some p) = refl

index-append :
    (front rest : Bytes) (i x : ℕ) → i ≡ length front → index i (front ++ (x ∷ rest)) ≡ ok x
unfolding index
index-append [] rest zero x e = refl
index-append [] rest (suc i) x e = absurd (omega arith)
index-append (y ∷ front) rest zero x e = absurd (omega arith)
index-append (y ∷ front) rest (suc i) x e = index-append front rest i x (omega arith)

parse_priority_param-priority_part :
    (b : Bool) (q : Option PriorityParam) (front rest p : Bytes) (i : ℕ)
    → PriorityFits b q
    → i ≡ length front
    → p ≡ front ++ (priority_part b q ++ rest)
    → parse_priority_param b i p ≡ ok (q, i + priority_offset b)
unfolding parse_priority_param priority_fields
parse_priority_param-priority_part false none front rest p i h at e =
    ap (λ n. ok (none, n)) (omega arith)
parse_priority_param-priority_part false (some q) front rest p i h at e = absurd h
parse_priority_param-priority_part true none front rest p i h at e = absurd h
parse_priority_param-priority_part true (some q) front rest p i h at e = ground (
  arith,
  ap (length {0}) e,
  length-append front (((append_uint32 [] dep) ++ (q.weight ∷ [])) ++ rest),
  length-append (append_uint32 [] dep ++ (q.weight ∷ [])) rest,
  length-append (append_uint32 [] dep) (q.weight ∷ []),
  length-append_uint32 dep,
  slice-append_uint32 front (q.weight ∷ rest) p i dep at split,
  read_uint32_back dep (pack_dependency-lt q.exclusive q.stream_dep h),
  weight_read,
  is_exclusive-pack_dependency q.exclusive q.stream_dep h,
  stream_dep-pack_dependency q.exclusive q.stream_dep h,
)
  where
    dep : ℕ
    dep = pack_dependency q.exclusive q.stream_dep

    split : p ≡ front ++ (append_uint32 [] dep ++ (q.weight ∷ rest))
    split = e ∙ ap (λ t. front ++ t) (append_assoc (append_uint32 [] dep) (q.weight ∷ []) rest)

    weight_read : index (i + 4) p ≡ ok q.weight
    weight_read =
        ap (index (i + 4))
          (split ∙ sym (append_assoc front (append_uint32 [] dep) (q.weight ∷ rest)))
        ∙ index-append (front ++ append_uint32 [] dep) rest (i + 4) q.weight
            (omega (arith, length-append front (append_uint32 [] dep), length-append_uint32 dep))

pub parse_headers_frame-headers_payload :
    (f : HeadersFrame)
    → PadFits (has_flag f.frame_header.flags flag_padded) f.pad_length
    → PriorityFits (has_flag f.frame_header.flags flag_priority) f.priority
    → parse_headers_frame f.frame_header (headers_payload f) ≡ ok (headers_frame f)
unfolding parse_headers_frame headers_payload
parse_headers_frame-headers_payload f h hq =
    let b = has_flag f.frame_header.flags flag_padded in
    let c = has_flag f.frame_header.flags flag_priority in
    let front = pad_prefix b f.pad_length in
    let middle = priority_part c f.priority in
    let rest = f.block_fragment ++ pad_suffix b f.pad_length in
    let p = front ++ (middle ++ rest) in
    let at = sym (length-pad_prefix b f.pad_length) in
    let offset = pad_offset b + priority_offset c in
    let at' : offset ≡ length (front ++ middle) = omega (
      arith,
      length-append front middle,
      length-pad_prefix b f.pad_length,
      length-priority_part c f.priority,
    ) in
    let split : p ≡ (front ++ middle) ++ rest = sym (append_assoc front middle rest) in
    rw (
      parse_pad_length-pad_prefix 1 b f.pad_length _ h,
      parse_priority_param-priority_part c f.priority front rest p (pad_offset b) hq at refl,
      padded_fits b f.pad_length (front ++ middle) f.block_fragment p offset h at' split,
      slice_content b f.pad_length (front ++ middle) f.block_fragment p offset h at' split,
    )

pub parse_push_promise_frame-push_promise_payload :
    (f : PushPromiseFrame)
    → PadFits (has_flag f.frame_header.flags flag_padded) f.pad_length
    → f.promised_stream_id < 2 ^ 31
    → parse_push_promise_frame f.frame_header (push_promise_payload f) ≡ ok (push_promise_frame f)
unfolding parse_push_promise_frame push_promise_payload
parse_push_promise_frame-push_promise_payload f h hp =
    let b = has_flag f.frame_header.flags flag_padded in
    let front = pad_prefix b f.pad_length in
    let middle = append_uint32 [] f.promised_stream_id in
    let rest = f.block_fragment ++ pad_suffix b f.pad_length in
    let p = front ++ (middle ++ rest) in
    let at = sym (length-pad_prefix b f.pad_length) in
    let at' : pad_offset b + 4 ≡ length (front ++ middle) = omega (
      arith,
      length-append front middle,
      length-pad_prefix b f.pad_length,
      length-append_uint32 f.promised_stream_id,
    ) in
    let split : p ≡ (front ++ middle) ++ rest = sym (append_assoc front middle rest) in
    let short : ltb (length p) (pad_offset b + 4) ≡ false =
      le→ltb _ _
        (omega (arith, ap (length {0}) split, length-append (front ++ middle) rest, at')) in
    rw (
      mask_31_small f.promised_stream_id hp,
      parse_pad_length-pad_prefix 5 b f.pad_length _ h,
      short,
      slice-append_uint32 front rest p (pad_offset b) f.promised_stream_id at refl,
      read_uint32_back f.promised_stream_id (omega arith),
      padded_fits b f.pad_length (front ++ middle) f.block_fragment p (pad_offset b + 4) h at'
          split,
      slice_content b f.pad_length (front ++ middle) f.block_fragment p (pad_offset b + 4) h at'
          split,
      mask_31_small f.promised_stream_id hp,
    )
