-- ===== src/Session/Ping.antt =====
-- cmd/mh2c/session.go: the loop of the mode ping, on a healthy connection.
use mh2c_go.Base.{
  ℕ, zero, suc, ◌≤◌, ◌<◌, ◌≡◌, refl, sym, subst, ap, ◌∙◌, arith, Bool, true, false, ◌&&◌, List, [],
  ◌∷◌, ◌++◌, append_assoc, length, All, Bytes, bytes_eq, bytes_eq_iff, ok,
}
use mh2c_go.Base.State.{continue_ok}
use mh2c_go.Frame.{Frame, PingFrame, ping_frame, has_flag, flag_ack}
use mh2c_go.Hpack.{Library}
use mh2c_go.Client.Conn.{Conn}
use mh2c_go.Client.Tracker.{FrameEvent}
use mh2c_go.Client.Transport.{InOrder}
use mh2c_go.Session.{Output, Session}
use mh2c_go.Session.Loops.{
  go_on, return_with, receive_and_ack, receive_ping_frames, is_go_away, ping_verdict,
}
use mh2c_go.Session.Exchange.{Succeeds, Exchanged, At, frame_bytes, ack_bytes}
use mh2c_go.Session.Hearing.{Decodes, hearing, heard_all, unheard}
use mh2c_go.Session.Observe.{wire, acks, Plain, receive_and_ack_lem}

-- The PING frame that the loop waits for.
abbrev pub is_answer : Bytes → Frame → Bool
is_answer want (ping_frame f) = has_flag f.frame_header.flags flag_ack && bytes_eq f.content want
is_answer want _ = false

ping_verdict-go_on :
    (want : Bytes) (f : Frame)
    → is_go_away f ≡ false
    → is_answer want f ≡ false
    → ping_verdict want f ≡ go_on false
unfolding ping_verdict
ping_verdict-go_on want f stays other = ground arith

ping_verdict-return_with :
    (f : PingFrame)
    → has_flag f.frame_header.flags flag_ack ≡ true
    → ping_verdict f.content (ping_frame f) ≡ return_with false
unfolding ping_verdict
ping_verdict-return_with f acked = rw (acked, (bytes_eq_iff f.content f.content).1 refl) refl

answer_acks :
    (f : PingFrame) → has_flag f.frame_header.flags flag_ack ≡ true → ack_bytes (ping_frame f) ≡ []
unfolding ack_bytes
answer_acks f h = rw h refl

module _ {X : Library} {C : Conn} {O : Output} (healthy : InOrder C) (succeeds : Succeeds O) where
  open healthy use {unread, sent}

  ping_round :
      (fuel rounds : ℕ) (want : Bytes) (e : FrameEvent) (f : Frame) (s : Session X C O)
      → (receive_and_ack fuel s).1 ≡ ok e
      → e.frame ≡ f
      → ping_verdict want f ≡ go_on false
      → receive_ping_frames fuel (suc rounds) want s
        ≡ receive_ping_frames fuel rounds want (receive_and_ack fuel s).0
  unfolding receive_ping_frames
  ping_round fuel rounds want e f s got is_f goes =
      continue_ok (receive_and_ack fuel s) e _ got ∙ rw (ap (ping_verdict want) is_f ∙ goes) refl

  ping_last :
      (fuel rounds : ℕ) (want : Bytes) (e : FrameEvent) (f : Frame) (s : Session X C O)
      → (receive_and_ack fuel s).1 ≡ ok e
      → e.frame ≡ f
      → ping_verdict want f ≡ return_with false
      → receive_ping_frames fuel (suc rounds) want s ≡ ((receive_and_ack fuel s).0, ok false)
  unfolding receive_ping_frames
  ping_last fuel rounds want e f s got is_f ends =
      continue_ok (receive_and_ack fuel s) e _ got ∙ rw (ap (ping_verdict want) is_f ∙ ends) refl

  -- In the mode ping, over a healthy connection and with an output that does not fail, when frames
  -- wait that are neither GOAWAY nor the answer and whose header blocks decode, and then the answer, a
  -- PING frame with ACK and the eight bytes that were sent: the loop ends without an error and without having seen GOAWAY, has
  -- taken the frames up to the answer and no more, and has sent exactly the acknowledgements that
  -- those before the answer ask for, in order.
  pub receive_ping_frames_lem :
      (fuel rounds : ℕ) (fs : List Frame) (answer : PingFrame) (rest : Bytes) (s : Session X C O)
      (k : C.State)
      → All (Plain fuel) fs
      → All (λ f. is_answer answer.content f ≡ false) fs
      → Plain fuel (ping_frame answer)
      → has_flag answer.frame_header.flags flag_ack ≡ true
      → At healthy succeeds s k
      → unread k ≡ wire fs ++ (frame_bytes (ping_frame answer) ++ rest)
      → Decodes fs (hearing s.client)
      → length fs < rounds
      → 17 ≤ fuel
      → Exchanged healthy succeeds
          (receive_ping_frames fuel rounds answer.content s)
          false
          rest
          (sent k ++ acks fs)
          (heard_all fs (hearing s.client))
  receive_ping_frames_lem fuel zero fs answer rest s k plain others last acked at waits decode
        enough room =
      absurd (omega arith)
  receive_ping_frames_lem fuel (suc rounds) [] answer rest s k plain others last acked at waits
        decode enough room =
      let quiet = unheard (ping_frame answer) (hearing s.client) refl in
      let (e, is_f, _, got) =
        receive_and_ack_lem healthy succeeds fuel (ping_frame answer) rest s k last.valid at waits
          last.fits room quiet.0 in
      rw
        (ping_last fuel rounds answer.content e (ping_frame answer) s got.returns is_f
          (ping_verdict-return_with answer acked))
        (record {
          after = got.after;
          returns = refl;
          at = got.at;
          leaves = got.leaves;
          sends = got.sends ∙ ap (λ bs. sent k ++ bs) (answer_acks answer acked);
          hears = got.hears ∙ quiet.1;
        })
  receive_ping_frames_lem fuel (suc rounds) (f ∷ fs) answer rest s k (plain, plains) (other, others)
        last acked at waits (decodes, decode) enough room =
      let behind = frame_bytes (ping_frame answer) ++ rest in
      let (e, is_f, _, got) =
        receive_and_ack_lem healthy succeeds fuel f (wire fs ++ behind) s k plain.valid at
          (waits ∙ append_assoc (frame_bytes f) (wire fs) behind) plain.fits room decodes in
      let r =
        receive_ping_frames_lem fuel rounds fs answer rest (receive_and_ack fuel s).0 got.after
          plains others last acked got.at got.leaves (subst (Decodes fs) (sym got.hears) decode)
          (omega arith) room in
      rw
        (ping_round fuel rounds answer.content e f s got.returns is_f
          (ping_verdict-go_on answer.content f plain.stays other))
        (record {
          after = r.after;
          returns = r.returns;
          at = r.at;
          leaves = r.leaves;
          sends =
              r.sends
              ∙ (ap (λ bs. bs ++ acks fs) got.sends
                  ∙ append_assoc (sent k) (ack_bytes f) (acks fs));
          hears = r.hears ∙ ap (heard_all fs) got.hears;
        })
