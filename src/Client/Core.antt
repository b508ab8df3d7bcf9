-- ===== src/Client/Core.antt =====
-- client/client.go: the client's state and its operations.
use mh2c_go.Base.{
  ◌⊎◌, inl, inr, ℕ, ◌%◌, ◌^◌, not, List, [], ◌∷◌, ◌++◌, ◌==◌, if◌then◌else◌, length, Option, none,
  some, Bytes, Result, Error, ok, err, codes, connection_nil,
}
use mh2c_go.Base.State.{M, ◌>>=◌, ◌>>◌, lift}
use mh2c_go.Wire.{frame_header_length}
use mh2c_go.Frame.{Header, Setting, Frame, settings_frame}
use mh2c_go.Frame.Framing.{marshal_header, parse_header, with_length}
use mh2c_go.Frame.Settings.{setting_header_table_size}
use mh2c_go.Frame.Codec.{marshal, unmarshal}
use mh2c_go.Hpack.{
  Library, Codec, HeaderField, DecodeReport, new_request_codec, new_response_codec, encode, decode,
  decode_detailed, set_max_dynamic_table_size, set_decoder_allowed_max_dynamic_table_size,
}
use mh2c_go.Client.Conn.{Conn, write_all, read_full}
use mh2c_go.Client.Tracker.{FrameEvent, Tracker, idle, consume}

abbrev pub connection_preface : Bytes
connection_preface = codes "PRI * HTTP/2.0\r\n\r\nSM\r\n\r\n"

-- A client over the library `X` on a connection of `C`; `conn` may be nil.
pub record Client (X : Library) (C : Conn) : Type 0 where
  pub conn : Option C.State
  pub request_codec : Codec X
  pub response_codec : Codec X
  pub sent_header_block : Tracker
  pub received_header_block : Tracker

-- `NewWithConn`, where `max_table` is 4096 or what the last `WithMaxDynamicTableSize` option gave.
unfoldable pub new_with_conn : (X : Library) (C : Conn) → Option C.State → ℕ → Client X C
new_with_conn X C conn max_table = record {
  conn = conn;
  request_codec = new_request_codec X;
  response_codec = new_response_codec X max_table;
  sent_header_block = idle;
  received_header_block = idle;
}

-- The (value, error) pair of the HPACK calls.
abbrev to_result : {A : Type 0} → A ⊎ Error → Result A
to_result (inl a) = ok a
to_result (inr why) = err why

module _ {X : Library} {C : Conn} where
  -- Running a step of the connection, of a tracker and its codec, inside the client.
  abbrev pub on_conn : {A : Type 0} → M C.State A → M (Client X C) A
  on_conn {A} m c = elim c.conn [
    | none ↦ (c, err connection_nil)
    | some s ↦ (record c { conn = some (m s).0 }, (m s).1)
  ]

  unfoldable pub close : M (Client X C) (Unit {0})
  close c = elim c.conn [
    | none ↦ (c, ok tt)
    | some s ↦ (record c { conn = some (C.close s).0 }, (C.close s).1)
  ]

  -- The loops have `fuel` rounds.
  unfoldable pub send_raw : ℕ → Bytes → M (Client X C) (Unit {0})
  send_raw fuel bytes = on_conn (write_all C fuel bytes)

  unfoldable pub receive_raw : ℕ → ℕ → M (Client X C) Bytes
  receive_raw fuel n = on_conn (read_full C fuel n [])

  unfoldable pub send_connection_preface : ℕ → M (Client X C) (Unit {0})
  unfolding send_raw
  send_connection_preface fuel = send_raw fuel connection_preface

  -- `TrackSentFrame` and `TrackReceivedFrame`
  unfoldable pub track_sent_frame : Frame → M (Client X C) FrameEvent
  track_sent_frame f c =
      let ((t, k), r) = consume decode_detailed f (c.sent_header_block, c.request_codec) in
      (record c { sent_header_block = t; request_codec = k }, ok r)

  unfoldable pub track_received_frame : Frame → M (Client X C) FrameEvent
  track_received_frame f c =
      let ((t, k), r) = consume decode_detailed f (c.received_header_block, c.response_codec) in
      (record c { received_header_block = t; response_codec = k }, ok r)

  -- The loops of `applyFrame` and `applySentFrame` over the settings.
  unfoldable pub apply_settings : List Setting → Client X C → Client X C
  apply_settings [] c = c
  apply_settings (s ∷ rest) c = apply_settings rest (
      if s.id == setting_header_table_size
      then record c { request_codec = set_max_dynamic_table_size s.value c.request_codec }
      else c)

  unfoldable pub apply_sent_settings : List Setting → Client X C → Client X C
  apply_sent_settings [] c = c
  apply_sent_settings (s ∷ rest) c = apply_sent_settings rest (
      if s.id == setting_header_table_size
      then record c {
        response_codec = set_decoder_allowed_max_dynamic_table_size s.value c.response_codec;
      }
      else c)

  unfoldable pub apply_frame : Frame → Client X C → Client X C
  unfolding apply_settings
  apply_frame (settings_frame f) c = apply_settings f.settings c
  apply_frame _ c = c

  unfoldable pub apply_sent_frame : Frame → Client X C → Client X C
  unfolding apply_sent_settings
  apply_sent_frame (settings_frame f) c = apply_sent_settings f.settings c
  apply_sent_frame _ c = c

  abbrev modify : (Client X C → Client X C) → M (Client X C) (Unit {0})
  modify f c = (f c, ok tt)

  unfoldable pub send_frame : ℕ → Frame → M (Client X C) FrameEvent
  unfolding send_raw apply_sent_frame track_sent_frame
  send_frame fuel f = do
    raw ← lift (marshal f)
    send_raw fuel raw
    modify (apply_sent_frame f)
    track_sent_frame f

  unfoldable pub send_raw_frame_exact : ℕ → Header → Bytes → M (Client X C) (Unit {0})
  unfolding send_raw
  send_raw_frame_exact fuel h payload = do
    head ← lift (marshal_header h)
    send_raw fuel (head ++ payload)

  unfoldable pub send_raw_frame : ℕ → Header → Bytes → M (Client X C) (Unit {0})
  unfolding send_raw_frame_exact
  send_raw_frame fuel h payload =
      send_raw_frame_exact fuel
        (if not (length payload % 2 ^ 32 == h.length) then with_length h payload else h) payload

  unfoldable pub receive_frame : ℕ → M (Client X C) FrameEvent
  unfolding receive_raw apply_frame track_received_frame
  receive_frame fuel = do
    head ← receive_raw fuel frame_header_length
    h ← lift (parse_header head)
    payload ← receive_raw fuel h.length
    f ← lift (unmarshal h payload)
    modify (apply_frame f)
    track_received_frame f

  unfoldable pub encode_headers : List HeaderField → M (Client X C) Bytes
  encode_headers fields c =
      let (k, r) = encode fields c.request_codec in (record c { request_codec = k }, r)

  unfoldable pub decode_headers : Bytes → M (Client X C) (List HeaderField)
  decode_headers block c =
      let (k, r) = decode block c.response_codec in (record c { response_codec = k }, to_result r)

  unfoldable pub decode_headers_detailed : Bytes → M (Client X C) DecodeReport
  decode_headers_detailed block c =
      let (k, r) = decode_detailed block c.response_codec in
      (record c { response_codec = k }, to_result r)
