-- ===== src/Client/Delivery.antt =====
-- `SendFrame` and `ReceiveFrame` over a healthy connection, and their error paths.
use mh2c_go.Base.{
  ℕ, ◌+◌, ◌^◌, ◌≤◌, ◌<◌, ◌≡◌, refl, ◌∙◌, arith, [], ◌++◌, length, length-append, none, some, Bytes,
  Result, Error, ok, err, connection_nil,
}
use mh2c_go.Base.State.{M}
use mh2c_go.Frame.{Header, Frame}
use mh2c_go.Frame.Framing.{parse_header}
use mh2c_go.Frame.Codec.{header, payload, unmarshal}
use mh2c_go.Frame.RoundTrip.{IsValid, unmarshal-payload, marshal-header_bytes}
use mh2c_go.Frame.RoundTrip.HeaderBytes.{header_bytes, parse_header-header_bytes}
use mh2c_go.Hpack.{Library}
use mh2c_go.Client.Conn.{Conn, write_all, read_full}
use mh2c_go.Client.Transport.{InOrder, write_all_sends, read_full_fills}
use mh2c_go.Client.Core.{
  Client, send_raw, receive_raw, send_frame, receive_frame, apply_frame, apply_sent_frame,
  track_sent_frame, track_received_frame, on_conn,
}

module _ {X : Library} {C : Conn} (healthy : InOrder C) where
  open healthy use {unread, sent}

  abbrev connected : Client X C → C.State → Client X C
  connected c s = record c { conn = some s }

  -- `on_conn` on a client that has a connection.
  on_conn-some :
      {A : Type 0} (m : M C.State A) (c : Client X C) (s s' : C.State) (r : Result A)
      → c.conn ≡ some s
      → m s ≡ (s', r)
      → on_conn m c ≡ (connected c s', r)
  on_conn-some m c s s' r has runs = rw has (rw runs)

  pub send_raw_sends :
      (fuel : ℕ) (bs : Bytes) (c : Client X C) (s : C.State)
      → c.conn ≡ some s
      → length bs ≤ fuel
      → (s' : C.State) × (send_raw fuel bs c ≡ (connected c s', ok tt))
        × (sent s' ≡ sent s ++ bs)
        × (unread s' ≡ unread s)
  unfolding send_raw
  send_raw_sends fuel bs c s has enough =
      let m = write_all_sends C healthy fuel bs s enough in
      (
        m.after,
        on_conn-some (write_all C fuel bs) c s m.after (ok tt) has m.returns,
        m.sends,
        m.keeps,
      )

  receive_raw_fills :
      (fuel n : ℕ) (bs rest : Bytes) (c : Client X C) (s : C.State)
      → c.conn ≡ some s
      → n ≡ length bs
      → unread s ≡ bs ++ rest
      → length bs ≤ fuel
      → (s' : C.State) × (receive_raw fuel n c ≡ (connected c s', ok bs))
        × (unread s' ≡ rest)
        × (sent s' ≡ sent s)
  unfolding receive_raw
  receive_raw_fills fuel n bs rest c s has size waits enough =
      let m = read_full_fills C healthy fuel n [] bs rest s (omega arith) waits enough in
      (
        m.after,
        on_conn-some (read_full C fuel n []) c s m.after (ok bs) has m.returns,
        m.leaves,
        m.keeps,
      )

  -- `SendFrame` of a valid frame writes exactly its bytes, and then applies its settings and tracks it.
  pub send_frame_sends :
      (fuel : ℕ) (f : Frame) (c : Client X C) (s : C.State)
      → IsValid f
      → c.conn ≡ some s
      → 9 + length (payload f) ≤ fuel
      → (s' : C.State) × (send_frame fuel f c
          ≡ track_sent_frame f (apply_sent_frame f (record c { conn = some s' })))
        × (sent s' ≡ sent s ++ (header_bytes (header f) ++ payload f))
        × (unread s' ≡ unread s)
  unfolding send_frame
  send_frame_sends fuel f c s v has enough =
      let bs = header_bytes (header f) ++ payload f in
      let (s', runs, sends, keeps) =
        send_raw_sends fuel bs c s has
          (omega (arith, length-append (header_bytes (header f)) (payload f))) in
      (s', rw (marshal-header_bytes f v) (rw runs), sends, keeps)

  -- `ReceiveFrame`, when the bytes of a valid frame wait, takes exactly those and returns that frame's
  -- event, after its settings are applied.
  pub receive_frame_delivers :
      (fuel : ℕ) (f : Frame) (rest : Bytes) (c : Client X C) (s : C.State)
      → IsValid f
      → c.conn ≡ some s
      → unread s ≡ header_bytes (header f) ++ (payload f ++ rest)
      → 9 + length (payload f) ≤ fuel
      → (s' : C.State) × (receive_frame fuel c
          ≡ track_received_frame f (apply_frame f (record c { conn = some s' })))
        × (unread s' ≡ rest)
        × (sent s' ≡ sent s)
  unfolding receive_frame
  receive_frame_delivers fuel f rest c s v has waits enough =
      let (s₁, head_read, left, quiet) =
        receive_raw_fills fuel 9 (header_bytes (header f)) (payload f ++ rest) c s has refl waits
          (omega arith) in
      let (s', payload_read, left', quiet') =
        receive_raw_fills fuel (header f).length (payload f) rest (connected c s₁) s₁ refl
          v.length_is left (omega arith) in
      (
        s',
        rw head_read (rw parsed (rw payload_read (rw (unmarshal-payload f v)))),
        left',
        quiet' ∙ quiet,
      )
    where
      parsed : parse_header (header_bytes (header f)) ≡ ok (header f)
      parsed =
          parse_header-header_bytes (header f) (omega (arith, v.length_is, v.short))
          ∙ (ground (arith, v.stream_id_fits))

  -- `ReceiveFrame`, when a frame waits that `Unmarshal` refuses, returns that error: it has taken the
  -- whole frame, so that the next one is read at its start, and changed nothing but the connection.
  pub receive_frame_malformed :
      (fuel : ℕ) (h : Header) (p rest : Bytes) (why : Error) (c : Client X C) (s : C.State)
      → h.length ≡ length p
      → length p < 2 ^ 24
      → h.stream_id < 2 ^ 31
      → unmarshal h p ≡ err why
      → c.conn ≡ some s
      → unread s ≡ header_bytes h ++ (p ++ rest)
      → 9 + length p ≤ fuel
      → (s' : C.State) × (receive_frame fuel c ≡ (record c { conn = some s' }, err why))
        × (unread s' ≡ rest)
        × (sent s' ≡ sent s)
  unfolding receive_frame
  receive_frame_malformed fuel h p rest why c s size short fits refused has waits enough =
      let (s₁, head_read, left, quiet) =
        receive_raw_fills fuel 9 (header_bytes h) (p ++ rest) c s has refl waits (omega arith) in
      let (s', payload_read, left', quiet') =
        receive_raw_fills fuel h.length p rest (connected c s₁) s₁ refl size left (omega arith) in
      (s', rw head_read (rw parsed (rw payload_read (rw refused))), left', quiet' ∙ quiet)
    where
      parsed : parse_header (header_bytes h) ≡ ok h
      parsed = parse_header-header_bytes h (omega arith) ∙ ground arith

-- Without a connection nothing is sent or received: the client is unchanged, and the error says so.
without_connection :
    {X : Library} {C : Conn} (fuel : ℕ) (f : Frame) (c : Client X C)
    → IsValid f
    → c.conn ≡ none
    → (send_frame fuel f c ≡ (c, err connection_nil))
      × (receive_frame fuel c ≡ (c, err connection_nil))
unfolding send_frame receive_frame send_raw receive_raw
without_connection fuel f c v has = (rw (marshal-header_bytes f v) (rw has), rw has)
