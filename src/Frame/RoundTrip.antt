-- ===== src/Frame/RoundTrip.antt =====
-- What is written for a frame is read back as that frame.
pub mod HeaderBytes
pub mod Fields
pub mod SettingsList
pub mod Padded
use mh2c_go.Base.{
  ℕ, zero, suc, ◌+◌, ◌-◌, ◌*◌, ◌/◌, ◌%◌, ◌^◌, ◌≤◌, ◌<◌, ◌≡◌, refl, sym, ap, ◌∙◌, arith, Bool, true,
  false, List, [], ◌∷◌, ◌++◌, length, length-append, take, drop, take-append_left, drop-append_left,
  All, Bytes, Result, ok, err, panic, uint24_overflow,
}
use mh2c_go.Frame.{
  Header, Frame, data_frame, headers_frame, priority_frame, rst_stream_frame, settings_frame,
  push_promise_frame, ping_frame, go_away_frame, window_update_frame, continuation_frame, raw_frame,
  type_data, type_headers, type_priority, type_rst_stream, type_settings, type_push_promise,
  type_ping, type_go_away, type_window_update, type_continuation, has_flag, flag_padded,
  flag_priority,
}
use mh2c_go.Frame.Framing.{marshal_header, parse_header, encode, with_length}
use mh2c_go.Frame.Control.{continuation_payload, parse_continuation_frame, raw_frame_from_parts}
use mh2c_go.Frame.Codec.{header, payload, marshal, parse_payload, unmarshal}
use HeaderBytes.{
  header_bytes, marshal_header-header_bytes, marshal_header_overflow, parse_header-header_bytes,
}
use Fields.{
  parse_priority_frame-priority_payload, parse_rst_stream_frame-rst_stream_payload,
  parse_ping_frame-ping_payload, parse_go_away_frame-go_away_payload,
  parse_window_update_frame-window_update_payload,
}
use SettingsList.{IsSetting, parse_settings_frame-settings_payload}
use Padded.{
  PadFits, PriorityFits, parse_data_frame-data_payload, parse_headers_frame-headers_payload,
  parse_push_promise_frame-push_promise_payload,
}

-- The frame type matches, and each field has the width that its encoding has.
abbrev pub BodyFits : Frame → Type 0
BodyFits (data_frame f) =
    (f.frame_header.type ≡ type_data)
    × PadFits (has_flag f.frame_header.flags flag_padded) f.pad_length
BodyFits (headers_frame f) =
    (f.frame_header.type ≡ type_headers)
    × PadFits (has_flag f.frame_header.flags flag_padded) f.pad_length
    × PriorityFits (has_flag f.frame_header.flags flag_priority) f.priority
BodyFits (priority_frame f) = (f.frame_header.type ≡ type_priority) × (f.stream_dep < 2 ^ 31)
BodyFits (rst_stream_frame f) = (f.frame_header.type ≡ type_rst_stream) × (f.error_code < 2 ^ 32)
BodyFits (settings_frame f) = (f.frame_header.type ≡ type_settings) × All IsSetting f.settings
BodyFits (push_promise_frame f) =
    (f.frame_header.type ≡ type_push_promise)
    × PadFits (has_flag f.frame_header.flags flag_padded) f.pad_length
    × (f.promised_stream_id < 2 ^ 31)
BodyFits (ping_frame f) = (f.frame_header.type ≡ type_ping) × (length f.content ≡ 8)
BodyFits (go_away_frame f) =
    (f.frame_header.type ≡ type_go_away) × (f.last_stream_id < 2 ^ 31) × (f.error_code < 2 ^ 32)
BodyFits (window_update_frame f) =
    (f.frame_header.type ≡ type_window_update) × (f.increment < 2 ^ 31)
BodyFits (continuation_frame f) = f.frame_header.type ≡ type_continuation
BodyFits (raw_frame f) = type_continuation < f.frame_header.type

-- A frame that one frame on the wire can carry; its header gives the length of its payload.
pub record IsValid (f : Frame) : Type 0 where
  pub length_is : (header f).length ≡ length (payload f)
  pub short : length (payload f) < 2 ^ 24
  pub stream_id_fits : (header f).stream_id < 2 ^ 31
  pub body : BodyFits f

pub parse_payload-payload :
    (f : Frame)
    → BodyFits f
    → (header f).length ≡ length (payload f)
    → length (payload f) < 2 ^ 24
    → parse_payload (header f) (payload f) ≡ ok f
unfolding parse_payload header payload
parse_payload-payload (data_frame f) (t, h) e s = ground (arith, parse_data_frame-data_payload f h)
parse_payload-payload (headers_frame f) (t, h, k) e s =
    ground (arith, parse_headers_frame-headers_payload f h k)
parse_payload-payload (priority_frame f) (t, h) e s =
    ground (arith, parse_priority_frame-priority_payload f h)
parse_payload-payload (rst_stream_frame f) (t, h) e s =
    ground (arith, parse_rst_stream_frame-rst_stream_payload f h)
parse_payload-payload (settings_frame f) (t, h) e s =
    ground (arith, parse_settings_frame-settings_payload f h)
parse_payload-payload (push_promise_frame f) (t, h, k) e s =
    ground (arith, parse_push_promise_frame-push_promise_payload f h k)
parse_payload-payload (ping_frame f) (t, h) e s = ground (arith, parse_ping_frame-ping_payload f h)
parse_payload-payload (go_away_frame f) (t, h, k) e s =
    ground (arith, parse_go_away_frame-go_away_payload f h k)
parse_payload-payload (window_update_frame f) (t, h) e s =
    ground (arith, parse_window_update_frame-window_update_payload f h)
parse_payload-payload (continuation_frame f) t e s =
    unfold parse_continuation_frame continuation_payload in ground arith
parse_payload-payload (raw_frame f) t e s = unfold raw_frame_from_parts in ground arith

-- `Unmarshal` gives back a valid frame from its header and payload.
pub unmarshal-payload : (f : Frame) → IsValid f → unmarshal (header f) (payload f) ≡ ok f
unfolding unmarshal
unmarshal-payload f v = ground (arith, parse_payload-payload f v.body v.length_is v.short)

encode-header_bytes :
    (h : Header) (p : Bytes)
    → h.length ≡ length p
    → length p < 2 ^ 24
    → encode h p ≡ ok (header_bytes h ++ p)
unfolding encode
encode-header_bytes h p e s =
    let same : with_length h p ≡ h = ground arith in
    rw (same, marshal_header-header_bytes h (omega arith))

-- A valid frame is written as its nine header bytes and its payload.
pub marshal-header_bytes :
    (f : Frame) → IsValid f → marshal f ≡ ok (header_bytes (header f) ++ payload f)
unfolding marshal
marshal-header_bytes (raw_frame f) v =
    rw (marshal_header-header_bytes f.frame_header (omega (arith, v.length_is, v.short)))
marshal-header_bytes (data_frame f) v = encode-header_bytes _ _ v.length_is v.short
marshal-header_bytes (headers_frame f) v = encode-header_bytes _ _ v.length_is v.short
marshal-header_bytes (priority_frame f) v = encode-header_bytes _ _ v.length_is v.short
marshal-header_bytes (rst_stream_frame f) v = encode-header_bytes _ _ v.length_is v.short
marshal-header_bytes (settings_frame f) v = encode-header_bytes _ _ v.length_is v.short
marshal-header_bytes (push_promise_frame f) v = encode-header_bytes _ _ v.length_is v.short
marshal-header_bytes (ping_frame f) v = encode-header_bytes _ _ v.length_is v.short
marshal-header_bytes (go_away_frame f) v = encode-header_bytes _ _ v.length_is v.short
marshal-header_bytes (window_update_frame f) v = encode-header_bytes _ _ v.length_is v.short
marshal-header_bytes (continuation_frame f) v = encode-header_bytes _ _ v.length_is v.short

-- A valid frame, marshalled, is nine bytes and its payload; `ParseHeader` on the nine bytes and
-- `Unmarshal` on the rest give back its header and the frame itself.
pub unmarshal-marshal :
    (f : Frame)
    → IsValid f
    → (raw : Bytes) × (marshal f ≡ ok raw)
      × (length raw ≡ 9 + length (payload f))
      × (parse_header (take 9 raw) ≡ ok (header f))
      × (unmarshal (header f) (drop 9 raw) ≡ ok f)
unmarshal-marshal f v =
    let head = header_bytes (header f) in
    (
      head ++ payload f,
      marshal-header_bytes f v,
      length-append head (payload f),
      ap parse_header (take-append_left 9 head (payload f) refl) ∙ parsed,
      ap (unmarshal (header f)) (drop-append_left 9 head (payload f) refl) ∙ unmarshal-payload f v,
    )
  where
    parsed : parse_header (header_bytes (header f)) ≡ ok (header f)
    parsed =
        parse_header-header_bytes (header f) (omega (arith, v.length_is, v.short))
        ∙ (ground (arith, v.stream_id_fits))

abbrev is_raw : Frame → Bool
is_raw (raw_frame _) = true
is_raw _ = false

-- A frame that is not raw is refused when its payload has 2 ^ 24 bytes or more (and less than 2 ^ 32):
-- `Marshal` returns the overflow with the payload's length, whatever length the header holds.
pub marshal_overflow :
    (f : Frame)
    → is_raw f ≡ false
    → 2 ^ 24 ≤ length (payload f)
    → length (payload f) < 2 ^ 32
    → marshal f ≡ err (uint24_overflow (length (payload f)))
unfolding marshal encode
marshal_overflow (raw_frame f) r big small = cc
marshal_overflow f r big small =
    ground (arith, marshal_header_overflow (with_length (header f) (payload f)))
