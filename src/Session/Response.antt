-- ===== src/Session/Response.antt =====
-- cmd/mh2c/session.go: the loop of the mode request, on a healthy connection.
use mh2c_go.Base.{
  ℕ, zero, suc, ◌+◌, ◌≤◌, ◌<◌, ◌≡◌, refl, sym, subst, ap, ◌∙◌, arith, Bool, true, false, ◌||◌, ◌&&◌,
  ◌==◌, List, [], ◌∷◌, ◌++◌, append_assoc, if◌then◌else◌, length, All, Bytes, none, Bool-cases, inl,
  inr, Result, ok,
}
use mh2c_go.Base.State.{continue_ok}
use mh2c_go.Frame.{Frame, GoAwayFrame, data_frame, has_flag, go_away_frame}
use mh2c_go.Frame.Codec.{payload}
use mh2c_go.Frame.RoundTrip.{IsValid}
use mh2c_go.Hpack.{Library}
use mh2c_go.Client.Conn.{Conn}
use mh2c_go.Client.Tracker.{FrameEvent}
use mh2c_go.Client.Transport.{InOrder}
use mh2c_go.Session.{Output, Session}
use mh2c_go.Session.Loops.{
  Verdict, go_on, return_with, receive_and_ack, receive_response_frames, response_verdict,
  ends_stream, is_go_away, follow,
}
use mh2c_go.Session.Exchange.{Succeeds, At, frame_bytes}
use mh2c_go.Session.Hearing.{Decodes, Hearing, hearing, heard, heard_event, unheard}
use mh2c_go.Session.Observe.{wire, Plain, receive_and_ack_lem}

-- Whether an event ends the response on a stream: it completes a header block there that has
-- END_STREAM, or it is a DATA frame there with END_STREAM.
abbrev last_data : ℕ → Frame → Bool
last_data stream_id (data_frame f) =
    f.frame_header.stream_id == stream_id && has_flag f.frame_header.flags 0x1
last_data stream_id _ = false

abbrev done : ℕ → FrameEvent → Bool
done stream_id e =
    e.header_block_complete && (e.header_block_stream_id == stream_id && e.header_block_end_stream)
    || last_data stream_id e.frame

ends_stream-last_data :
    (stream_id : ℕ) (f : Frame) → ends_stream stream_id f ≡ last_data stream_id f
ends_stream-last_data stream_id (data_frame f) = refl
ends_stream-last_data stream_id _ = refl

-- What the loop leaves of some frames with GOAWAY and other bytes behind them: what follows the first
-- frame that ends the response, or, where none does, what follows GOAWAY. Next to it stands whether
-- GOAWAY was seen.
abbrev pub left_behind :
    {X : Library} → ℕ → List Frame → GoAwayFrame → Bytes → Hearing X → Bool × Bytes
left_behind stream_id [] g rest p = (true, rest)
left_behind stream_id (f ∷ fs) g rest p =
    if done stream_id (heard_event f p)
    then (false, wire fs ++ (frame_bytes (go_away_frame g) ++ rest))
    else left_behind stream_id fs g rest (heard f p)

response_verdict_quiet :
    (stream_id : ℕ) (e : FrameEvent) (b : Bool)
    → is_go_away e.frame ≡ false
    → e.decode_error ≡ none
    → done stream_id e ≡ b
    → response_verdict stream_id e ≡ ok (if b then return_with false else go_on false)
unfolding response_verdict
response_verdict_quiet stream_id e true stays fine is_done =
    rw (stays, fine, ends_stream-last_data stream_id e.frame, is_done) refl
response_verdict_quiet stream_id e false stays fine is_done =
    rw (stays, fine, ends_stream-last_data stream_id e.frame, is_done) refl

go_away_verdict :
    (stream_id : ℕ) (e : FrameEvent)
    → is_go_away e.frame ≡ true
    → response_verdict stream_id e ≡ ok (return_with true)
unfolding response_verdict
go_away_verdict stream_id e h = rw h refl

module _ {X : Library} {C : Conn} {O : Output} (healthy : InOrder C) (succeeds : Succeeds O) where
  open healthy use {unread, sent}

  -- The loop ends without an error, with a flag, and leaves some bytes.
  pub record Ending (q : Session X C O × Result Bool) (saw : Bool) (rest : Bytes) : Type 0 where
    pub after : C.State
    pub returns : q.1 ≡ ok saw
    pub at : At healthy succeeds q.0 after
    pub leaves : unread after ≡ rest

  response_round :
      (fuel rounds stream_id : ℕ) (e : FrameEvent) (v : Verdict) (s : Session X C O)
      → (receive_and_ack fuel s).1 ≡ ok e
      → response_verdict stream_id e ≡ ok v
      → receive_response_frames fuel (suc rounds) stream_id s
        ≡ follow v (receive_response_frames fuel rounds stream_id) (receive_and_ack fuel s).0
  unfolding receive_response_frames
  response_round fuel rounds stream_id e v s got is_v =
      continue_ok (receive_and_ack fuel s) e _ got ∙ rw is_v refl

  -- In the mode request, over a healthy connection and with an output that does not fail, when valid
  -- frames wait of which none is GOAWAY and whose header blocks decode, and then GOAWAY: the loop ends
  -- without an error, in at most as many rounds as frames. It has taken the frames up to the first one
  -- that ends the response on its stream, by END_STREAM on a DATA frame or on a header block that it
  -- completes, and no more; where none does, it has seen GOAWAY and taken that too, and no more.
  pub receive_response_frames_lem :
      (fuel rounds stream_id : ℕ) (fs : List Frame) (g : GoAwayFrame) (rest : Bytes)
      (s : Session X C O) (k : C.State)
      → All (Plain fuel) fs
      → IsValid (go_away_frame g)
      → 9 + length (payload (go_away_frame g)) ≤ fuel
      → At healthy succeeds s k
      → unread k ≡ wire fs ++ (frame_bytes (go_away_frame g) ++ rest)
      → Decodes fs (hearing s.client)
      → length fs < rounds
      → 17 ≤ fuel
      → Ending
          (receive_response_frames fuel rounds stream_id s)
          (left_behind stream_id fs g rest (hearing s.client)).0
          (left_behind stream_id fs g rest (hearing s.client)).1
  receive_response_frames_lem fuel zero stream_id fs g rest s k plain v fits at waits decode enough
        room =
      absurd (omega arith)
  receive_response_frames_lem fuel (suc rounds) stream_id [] g rest s k plain v fits at waits decode
        enough room =
      let (e, is_f, _, got) =
        receive_and_ack_lem healthy succeeds fuel (go_away_frame g) rest s k v at waits fits room
          (unheard (go_away_frame g) (hearing s.client) refl).0 in
      rw
        (response_round fuel rounds stream_id e (return_with true) s got.returns
          (go_away_verdict stream_id e (ap is_go_away is_f)))
        (record { after = got.after; returns = refl; at = got.at; leaves = got.leaves })
  receive_response_frames_lem fuel (suc rounds) stream_id (f ∷ fs) g rest s k (plain, plains) valid
        fits at waits (decodes, decode) enough room =
      let behind = frame_bytes (go_away_frame g) ++ rest in
      let p = hearing s.client in
      let (e, is_f, is_event, got) =
        receive_and_ack_lem healthy succeeds fuel f (wire fs ++ behind) s k plain.valid at
          (waits ∙ append_assoc (frame_bytes f) (wire fs) behind) plain.fits room decodes in
      let s₁ = (receive_and_ack fuel s).0 in
      let b = done stream_id (heard_event f p) in
      let v : Verdict = if b then return_with false else go_on false in
      let round : receive_response_frames fuel (suc rounds) stream_id s
          ≡ follow v (receive_response_frames fuel rounds stream_id) s₁ =
        response_round fuel rounds stream_id e v s got.returns (
          response_verdict_quiet stream_id e b (ap is_go_away is_f ∙ plain.stays)
            (ap (λ e. e.decode_error) is_event ∙ decodes) (ap (done stream_id) is_event)) in
      rw round (elim (Bool-cases b) [
        | inl ends ↦
            rw ends (record { after = got.after; returns = refl; at = got.at; leaves = got.leaves })
        | inr more ↦ rw more (
            subst
              (λ q.
                Ending (receive_response_frames fuel rounds stream_id s₁)
                  (left_behind stream_id fs g rest q).0 (left_behind stream_id fs g rest q).1)
              got.hears
              (receive_response_frames_lem fuel rounds stream_id fs g rest s₁ got.after plains valid
                fits got.at got.leaves (subst (Decodes fs) (sym got.hears) decode) (omega arith)
                room))
      ])
