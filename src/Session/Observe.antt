-- ===== src/Session/Observe.antt =====
-- cmd/mh2c/session.go: the receive loops on a healthy connection where frames wait.
use mh2c_go.Base.{
  ℕ, zero, suc, ◌+◌, ◌≤◌, ◌<◌, ◌≡◌, refl, sym, ap, subst, ◌∙◌, arith, true, false, List, [], ◌∷◌,
  ◌++◌, append-nil, append_assoc, length, All, Bytes, ok,
}
use mh2c_go.Base.State.{continue, continue_ok, pure}
use mh2c_go.Frame.{Frame}
use mh2c_go.Frame.Codec.{payload}
use mh2c_go.Frame.RoundTrip.{IsValid}
use mh2c_go.Hpack.{Library}
use mh2c_go.Client.Conn.{Conn}
use mh2c_go.Client.Tracker.{FrameEvent}
use mh2c_go.Client.Transport.{InOrder}
use mh2c_go.Session.{Output, Session, receive_and_report, ack_control_frame}
use mh2c_go.Session.Loops.{
  receive_and_ack, receive_observe_frames, is_full, is_go_away, observe_verdict,
}
use mh2c_go.Session.Exchange.{
  Succeeds, Exchanged, At, frame_bytes, ack_bytes, receive_and_report_lem, ack_control_frame_lem,
}
use mh2c_go.Session.Hearing.{Decodes, DecodesOne, hearing, heard, heard_event, heard_all}

-- The frames that wait, as bytes, and the bytes of the acknowledgements that they ask for.
abbrev pub wire : List Frame → Bytes
wire [] = []
wire (f ∷ fs) = frame_bytes f ++ wire fs

abbrev pub acks : List Frame → Bytes
acks [] = []
acks (f ∷ fs) = ack_bytes f ++ acks fs

-- A valid frame that `fuel` reads can take, and that is not GOAWAY.
pub record Plain (fuel : ℕ) (f : Frame) : Type 0 where
  pub valid : IsValid f
  pub fits : 9 + length (payload f) ≤ fuel
  pub stays : is_go_away f ≡ false

module _ {X : Library} {C : Conn} {O : Output} (healthy : InOrder C) (succeeds : Succeeds O) where
  open healthy use {unread, sent}

  pub receive_and_ack_lem :
      (fuel : ℕ) (f : Frame) (rest : Bytes) (s : Session X C O) (k : C.State)
      → IsValid f
      → At healthy succeeds s k
      → unread k ≡ frame_bytes f ++ rest
      → 9 + length (payload f) ≤ fuel
      → 17 ≤ fuel
      → DecodesOne f (hearing s.client)
      → (e : FrameEvent) × (e.frame ≡ f)
        × (e ≡ heard_event f (hearing s.client))
        × Exchanged healthy succeeds
            (receive_and_ack fuel s)
            e
            rest
            (sent k ++ ack_bytes f)
            (heard f (hearing s.client))
  unfolding receive_and_ack
  receive_and_ack_lem fuel f rest s k v at waits enough room decodes =
      let (e, is_f, is_event, got) =
        receive_and_report_lem healthy succeeds fuel f rest s k v at waits enough decodes in
      let s₁ = (receive_and_report fuel s).0 in
      let acked = ack_control_frame_lem healthy succeeds fuel f s₁ got.after v got.at room in
      let runs : receive_and_ack fuel s ≡ ((ack_control_frame fuel f s₁).0, ok e) =
        continue_ok (receive_and_report fuel s) e _ got.returns
        ∙ (ap (λ g. continue (ack_control_frame fuel g s₁) (λ _. pure e)) is_f
            ∙ continue_ok (ack_control_frame fuel f s₁) tt _ acked.returns) in
      (
        e,
        is_f,
        is_event,
        record {
          after = acked.after;
          returns = ap (λ r. r.1) runs;
          at = rw runs acked.at;
          leaves = acked.leaves ∙ got.leaves;
          sends = acked.sends ∙ ap (λ bs. bs ++ ack_bytes f) got.sends;
          hears = rw runs (acked.hears ∙ got.hears);
        },
      )

  observe_full :
      (fuel rounds max_recv received : ℕ) (s : Session X C O)
      → is_full max_recv received ≡ true
      → receive_observe_frames fuel rounds max_recv received s ≡ (s, ok false)
  unfolding receive_observe_frames
  observe_full fuel zero max_recv received s e = rw e refl
  observe_full fuel (suc rounds) max_recv received s e = rw e refl

  observe_round :
      (fuel rounds max_recv received : ℕ) (e : FrameEvent) (s : Session X C O)
      → is_full max_recv received ≡ false
      → (receive_and_ack fuel s).1 ≡ ok e
      → is_go_away e.frame ≡ false
      → receive_observe_frames fuel (suc rounds) max_recv received s
        ≡ receive_observe_frames fuel rounds max_recv (suc received) (receive_and_ack fuel s).0
  unfolding receive_observe_frames observe_verdict
  observe_round fuel rounds max_recv received e s more got stays =
      rw more (continue_ok (receive_and_ack fuel s) e _ got ∙ rw stays refl)

  observe_from :
      (fuel rounds max_recv received : ℕ) (fs : List Frame) (rest : Bytes) (s : Session X C O)
      (k : C.State)
      → All (Plain fuel) fs
      → At healthy succeeds s k
      → unread k ≡ wire fs ++ rest
      → Decodes fs (hearing s.client)
      → 0 < max_recv
      → max_recv ≡ received + length fs
      → length fs ≤ rounds
      → 17 ≤ fuel
      → Exchanged healthy succeeds
          (receive_observe_frames fuel rounds max_recv received s)
          false
          rest
          (sent k ++ acks fs)
          (heard_all fs (hearing s.client))
  observe_from fuel rounds max_recv received [] rest s k plain at waits tt limit size enough room =
      let full : is_full max_recv received ≡ true = ground arith in
      rw (observe_full fuel rounds max_recv received s full) (record {
        after = k;
        returns = refl;
        at = at;
        leaves = waits;
        sends = sym (append-nil (sent k));
        hears = refl;
      })
  observe_from fuel zero max_recv received (f ∷ fs) rest s k plain at waits decode limit size enough
        room =
      absurd (omega arith)
  observe_from fuel (suc rounds) max_recv received (f ∷ fs) rest s k (plain, plains) at waits
        (decodes, decode) limit size enough room =
      let more : is_full max_recv received ≡ false = ground arith in
      let (e, is_f, _, got) =
        receive_and_ack_lem fuel f (wire fs ++ rest) s k plain.valid at
          (waits ∙ append_assoc (frame_bytes f) (wire fs) rest) plain.fits room decodes in
      let r =
        observe_from fuel rounds max_recv (suc received) fs rest (receive_and_ack fuel s).0
          got.after plains got.at got.leaves (subst (Decodes fs) (sym got.hears) decode) limit
          (omega arith) (omega arith) room in
      rw
        (observe_round fuel rounds max_recv received e s more got.returns
          (ap is_go_away is_f ∙ plain.stays))
        (record {
          after = r.after;
          returns = r.returns;
          at = r.at;
          leaves = r.leaves;
          sends =
              r.sends
              ∙ (ap (λ bs. bs ++ acks fs) got.sends
                  ∙ append_assoc (sent k) (ack_bytes f) (acks fs));
          hears = r.hears ∙ ap (heard_all fs) got.hears;
        })

  -- In the mode observe, with a limit of as many frames as wait, none of them GOAWAY, over a healthy
  -- connection and with an output that does not fail, when the header blocks of these frames decode:
  -- the loop ends without an error and without
  -- having seen GOAWAY, in as many rounds as frames; it has taken exactly those frames, and has sent
  -- exactly the acknowledgements that they ask for, in order.
  pub receive_observe_frames_lem :
      (fuel rounds : ℕ) (fs : List Frame) (rest : Bytes) (s : Session X C O) (k : C.State)
      → All (Plain fuel) fs
      → At healthy succeeds s k
      → unread k ≡ wire fs ++ rest
      → Decodes fs (hearing s.client)
      → 0 < length fs
      → length fs ≤ rounds
      → 17 ≤ fuel
      → Exchanged healthy succeeds
          (receive_observe_frames fuel rounds (length fs) 0 s)
          false
          rest
          (sent k ++ acks fs)
          (heard_all fs (hearing s.client))
  receive_observe_frames_lem fuel rounds fs rest s k plain at waits decode some_wait enough room =
      observe_from fuel rounds (length fs) 0 fs rest s k plain at waits decode some_wait
        (omega arith) enough room
