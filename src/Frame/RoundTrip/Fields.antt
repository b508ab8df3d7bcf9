-- ===== src/Frame/RoundTrip/Fields.antt =====
-- Integer fields inside a payload, and the payloads of a fixed layout, read back.
use mh2c_go.Base.{
  ℕ, ◌+◌, ◌%◌, ◌^◌, ◌<◌, ◌≡◌, refl, sym, ap, ◌∙◌, arith, Bool, [], ◌∷◌, ◌++◌, append-nil,
  append_assoc, length, length-append, if◌then◌else◌, Bytes, ok, bit_and, slice, index, replicate,
  take-append_left,
}
use mh2c_go.Base.Bits.{bit_or_low_high}
use mh2c_go.Wire.{append_uint16, append_uint32, read_uint16, read_uint32}
use mh2c_go.Wire.RoundTrip.{read_uint16-append_uint16, read_uint32-append_uint32}
use mh2c_go.Frame.{
  PriorityFrame, RstStreamFrame, PingFrame, GoAwayFrame, WindowUpdateFrame, priority_frame,
  rst_stream_frame, ping_frame, go_away_frame, window_update_frame,
}
use mh2c_go.Frame.Padding.{slice_middle}
use mh2c_go.Frame.Headers.{pack_dependency, is_exclusive}
use mh2c_go.Frame.Control.{
  priority_payload, parse_priority_frame, rst_stream_payload, parse_rst_stream_frame, ping_payload,
  parse_ping_frame, go_away_payload, parse_go_away_frame, window_update_payload,
  parse_window_update_frame,
}
use mh2c_go.Frame.RoundTrip.HeaderBytes.{mask_31, bit_31}

pub length-append_uint16 : (v : ℕ) → length (append_uint16 [] v) ≡ 2
unfolding append_uint16
length-append_uint16 v = refl

pub length-append_uint32 : (v : ℕ) → length (append_uint32 [] v) ≡ 4
unfolding append_uint32
length-append_uint32 v = refl

-- Appending to a prefix.
append_uint32_front : (out : Bytes) (v : ℕ) → append_uint32 out v ≡ out ++ append_uint32 [] v
unfolding append_uint32
append_uint32_front out v = refl

pub mask_31_small : (x : ℕ) → x < 2 ^ 31 → bit_and x 0x7fff_ffff ≡ x
mask_31_small x h = omega (arith, mask_31 x)

-- The rest of a slice behind its front.
pub slice_rest :
    (front rest : Bytes) (i : ℕ)
    → i ≡ length front
    → slice i (length (front ++ rest)) (front ++ rest) ≡ ok rest
slice_rest front rest i e = rw append-nil at (
    slice_middle front rest [] i (length (front ++ (rest ++ []))) e
      (omega (arith, length-append front (rest ++ []), ap (length {0}) (append-nil rest))))

-- The dependency word, without bit operations.
pack_dependency_sum :
    (e : Bool) (d : ℕ) → d < 2 ^ 31 → pack_dependency e d ≡ (if e then d + 2 ^ 31 else d)
pack_dependency_sum e d h = ground (arith, mask_31 d, bit_or_low_high 31 d 1)

pub pack_dependency-lt : (e : Bool) (d : ℕ) → d < 2 ^ 31 → pack_dependency e d < 2 ^ 32
pack_dependency-lt e d h = ground (arith, mask_31 d, bit_or_low_high 31 d 1)

-- Both fields of the dependency word are read back.
pub is_exclusive-pack_dependency :
    (e : Bool) (d : ℕ) → d < 2 ^ 31 → is_exclusive (pack_dependency e d) ≡ e
is_exclusive-pack_dependency e d h =
    rw (pack_dependency_sum e d h) (ground (arith, bit_31 d, bit_31 (d + 2 ^ 31)))

pub stream_dep-pack_dependency :
    (e : Bool) (d : ℕ) → d < 2 ^ 31 → bit_and (pack_dependency e d) 0x7fff_ffff ≡ d
stream_dep-pack_dependency e d h =
    rw (pack_dependency_sum e d h) (ground (arith, mask_31 d, mask_31 (d + 2 ^ 31)))

-- A field behind the bytes `front` of a payload `p`.
module _ (front rest p : Bytes) (i v : ℕ) (at : i ≡ length front) where
  pub slice-append_uint16 :
      p ≡ front ++ (append_uint16 [] v ++ rest) → slice i (i + 2) p ≡ ok (append_uint16 [] v)
  slice-append_uint16 e =
      ap (slice i (i + 2)) e
      ∙ slice_middle front (append_uint16 [] v) rest i (i + 2) at
          (omega (arith, length-append_uint16 v))

  pub slice-append_uint32 :
      p ≡ front ++ (append_uint32 [] v ++ rest) → slice i (i + 4) p ≡ ok (append_uint32 [] v)
  slice-append_uint32 e =
      ap (slice i (i + 4)) e
      ∙ slice_middle front (append_uint32 [] v) rest i (i + 4) at
          (omega (arith, length-append_uint32 v))

pub read_uint16_back : (v : ℕ) → v < 2 ^ 16 → read_uint16 (append_uint16 [] v) ≡ ok v
read_uint16_back v h = rw append-nil at (read_uint16-append_uint16 v [] h)

pub read_uint32_back : (v : ℕ) → v < 2 ^ 32 → read_uint32 (append_uint32 [] v) ≡ ok v
read_uint32_back v h = rw append-nil at (read_uint32-append_uint32 v [] h)

pub parse_priority_frame-priority_payload :
    (f : PriorityFrame)
    → f.stream_dep < 2 ^ 31
    → parse_priority_frame f.frame_header (priority_payload f) ≡ ok (priority_frame f)
unfolding parse_priority_frame priority_payload
parse_priority_frame-priority_payload f h =
    let dep = pack_dependency f.exclusive f.stream_dep in
    ground (
      arith,
      length-append (append_uint32 [] dep) (f.weight ∷ []),
      length-append_uint32 dep,
      slice-append_uint32 [] (f.weight ∷ []) (append_uint32 [] dep ++ (f.weight ∷ [])) 0 dep refl
          refl,
      read_uint32_back dep (pack_dependency-lt f.exclusive f.stream_dep h),
      weight_read,
      is_exclusive-pack_dependency f.exclusive f.stream_dep h,
      stream_dep-pack_dependency f.exclusive f.stream_dep h,
    )
  where
    weight_read :
        index 4 (append_uint32 [] (pack_dependency f.exclusive f.stream_dep) ++ (f.weight ∷ []))
        ≡ ok f.weight
    weight_read = unfold index append_uint32 in refl

pub parse_rst_stream_frame-rst_stream_payload :
    (f : RstStreamFrame)
    → f.error_code < 2 ^ 32
    → parse_rst_stream_frame f.frame_header (rst_stream_payload f) ≡ ok (rst_stream_frame f)
unfolding parse_rst_stream_frame rst_stream_payload
parse_rst_stream_frame-rst_stream_payload f h =
    ground (arith, length-append_uint32 f.error_code, read_uint32_back f.error_code h)

pub parse_window_update_frame-window_update_payload :
    (f : WindowUpdateFrame)
    → f.increment < 2 ^ 31
    → parse_window_update_frame f.frame_header (window_update_payload f)
      ≡ ok (window_update_frame f)
unfolding parse_window_update_frame window_update_payload
parse_window_update_frame-window_update_payload f h = rw (mask_31 f.increment) (
    ground (
      arith,
      length-append_uint32 (f.increment % 2 ^ 31),
      read_uint32_back (f.increment % 2 ^ 31),
      mask_31 (f.increment % 2 ^ 31),
    ))

pub parse_ping_frame-ping_payload :
    (f : PingFrame)
    → length f.content ≡ 8
    → parse_ping_frame f.frame_header (ping_payload f) ≡ ok (ping_frame f)
unfolding parse_ping_frame ping_payload
parse_ping_frame-ping_payload f h =
    ground (arith, take-append_left 8 f.content (replicate 8 0) (sym h))

pub parse_go_away_frame-go_away_payload :
    (f : GoAwayFrame)
    → f.last_stream_id < 2 ^ 31
    → f.error_code < 2 ^ 32
    → parse_go_away_frame f.frame_header (go_away_payload f) ≡ ok (go_away_frame f)
unfolding parse_go_away_frame go_away_payload
parse_go_away_frame-go_away_payload f hl hc =
    rw (mask_31_small f.last_stream_id hl, append_uint32_front)
      (ground (
        arith,
        length-append front f.debug_data,
        length-append (append_uint32 [] f.last_stream_id) (append_uint32 [] f.error_code),
        length-append_uint32 f.last_stream_id,
        length-append_uint32 f.error_code,
        slice-append_uint32 [] (append_uint32 [] f.error_code ++ f.debug_data) whole 0
            f.last_stream_id refl
            (append_assoc (append_uint32 [] f.last_stream_id) (append_uint32 [] f.error_code)
              f.debug_data),
        slice-append_uint32 (append_uint32 [] f.last_stream_id) f.debug_data whole 4 f.error_code
            (sym (length-append_uint32 f.last_stream_id))
            (append_assoc (append_uint32 [] f.last_stream_id) (append_uint32 [] f.error_code)
              f.debug_data),
        slice_rest front f.debug_data 8 (
            omega (
              arith,
              length-append (append_uint32 [] f.last_stream_id) (append_uint32 [] f.error_code),
              length-append_uint32 f.last_stream_id,
              length-append_uint32 f.error_code,
            )),
        read_uint32_back f.last_stream_id (omega arith),
        read_uint32_back f.error_code hc,
        mask_31_small f.last_stream_id hl,
      ))
  where
    front : Bytes
    front = append_uint32 [] f.last_stream_id ++ append_uint32 [] f.error_code

    whole : Bytes
    whole = front ++ f.debug_data
