-- ===== src/Session/Start.antt =====
-- cmd/mh2c/session.go: the start of a session, on a healthy connection.
use mh2c_go.Base.{
  not-false, ℕ, zero, suc, ◌^◌, ◌≤◌, ◌<◌, ◌≡◌, refl, sym, subst, ap, ◌∙◌, arith, Bool, false, not,
  Bool-cases, inl, inr, List, [], ◌∷◌, ◌++◌, append-nil, append_assoc, length, All, Bytes, codes,
  Result,
}
use mh2c_go.Base.State.{M, continue_ok}
use mh2c_go.Frame.{
  Frame, SettingsFrame, settings_frame, ping_frame, go_away_frame, flag_ack, has_flag,
}
use mh2c_go.Frame.Settings.{new_settings_frame, settings_payload, append_settings}
use mh2c_go.Frame.Codec.{header, payload}
use mh2c_go.Frame.RoundTrip.{IsValid}
use mh2c_go.Wire.{append_uint16, append_uint32}
use mh2c_go.Hpack.{Library}
use mh2c_go.Client.Conn.{Conn}
use mh2c_go.Client.Transport.{InOrder}
use mh2c_go.Client.Core.{connection_preface, send_connection_preface}
use mh2c_go.Client.Delivery.{send_raw_sends}
use mh2c_go.Session.{
  Output, Session, on_client, on_output, settings_ack, ping_ack, send_frame_and_report,
  receive_and_report, start_step, await_settings, initial_settings, start_session,
}
use mh2c_go.Session.Loops.{is_go_away}
use mh2c_go.Session.Exchange.{
  Succeeds, Exchanged, At, frame_bytes, ack_bytes, send_frame_and_report_lem,
  receive_and_report_lem, settings_ack-IsValid, settings_ack_short, ping_ack-IsValid,
  ping_ack_short,
}
use mh2c_go.Session.Hearing.{Hearing, Decodes, hearing, heard_all, unheard, allowed_by}
use mh2c_go.Session.Observe.{wire, acks, Plain}

-- A SETTINGS frame that asks for an acknowledgement.
abbrev pub asks_settings : Frame → Bool
asks_settings (settings_frame f) = not (has_flag f.frame_header.flags flag_ack)
asks_settings _ = false

initial_settings-IsValid :
    (max_table : ℕ) → max_table < 2 ^ 32 → IsValid (initial_settings max_table)
unfolding header payload new_settings_frame settings_payload append_settings append_uint16
    append_uint32
initial_settings-IsValid max_table h = record {
  length_is = refl;
  short = omega arith;
  stream_id_fits = omega arith;
  body = (refl, ((omega arith, omega arith), ((omega arith, omega arith), ((omega arith, h), tt))));
}

length-initial_settings : (max_table : ℕ) → length (payload (initial_settings max_table)) ≡ 18
unfolding payload new_settings_frame settings_payload append_settings append_uint16 append_uint32
length-initial_settings max_table = refl

-- What the client decodes with once its SETTINGS are sent.
abbrev pub opened_hearing : {X : Library} {C : Conn} {O : Output} → ℕ → Session X C O → Hearing X
opened_hearing max_table s = allowed_by (initial_settings max_table) (hearing s.client)

module _ {X : Library} {C : Conn} {O : Output} (healthy : InOrder C) (succeeds : Succeeds O) where
  open healthy use {unread, sent}

  -- A frame that lets the loop go on, after its acknowledgement.
  record Passed (r : Session X C O × Result (Unit {0})) (more : M (Session X C O) (Unit {0}))
      (k : C.State) (out : Bytes) (p : Hearing X) : Type 0 where
    session : Session X C O
    after : C.State
    goes : r ≡ more session
    at : At healthy succeeds session after
    keeps : unread after ≡ unread k
    sends : sent after ≡ sent k ++ out
    hears : hearing session.client ≡ p

  more-Passed :
      (more : M (Session X C O) (Unit {0})) (s : Session X C O) (k : C.State)
      → At healthy succeeds s k
      → Passed (more s) more k [] (hearing s.client)
  more-Passed more s k at = record {
    session = s;
    after = k;
    goes = refl;
    at = at;
    keeps = refl;
    sends = sym (append-nil (sent k));
    hears = refl;
  }

  start_step-Passed :
      (fuel : ℕ) (f : Frame) (more : M (Session X C O) (Unit {0})) (s : Session X C O) (k : C.State)
      → IsValid f
      → At healthy succeeds s k
      → 17 ≤ fuel
      → is_go_away f ≡ false
      → asks_settings f ≡ false
      → Passed (start_step fuel f more s) more k (ack_bytes f) (hearing s.client)
  unfolding start_step ack_bytes
  start_step-Passed fuel (settings_frame f) more s k v at room stays quiet =
      rw (not-false (has_flag f.frame_header.flags flag_ack) quiet) (more-Passed more s k at)
  start_step-Passed fuel (ping_frame f) more s k v at room stays quiet =
      elim (Bool-cases (has_flag f.frame_header.flags flag_ack)) [
        | inl acked ↦ rw acked (more-Passed more s k at)
        | inr asks ↦ rw asks (
            let r =
              send_frame_and_report_lem healthy succeeds fuel (ping_ack f.content) s k
                (ping_ack-IsValid f.content v.body.1) at
                (omega (arith, ping_ack_short f.content v.body.1)) in
            record {
              session = (send_frame_and_report fuel (ping_ack f.content) s).0;
              after = r.after;
              goes = continue_ok (send_frame_and_report fuel (ping_ack f.content) s) tt _ r.returns;
              at = r.at;
              keeps = r.leaves;
              sends = r.sends;
              hears = r.hears;
            })
      ]
  start_step-Passed fuel (go_away_frame f) more s k v at room stays quiet = ground arith
  start_step-Passed fuel _ more s k v at room stays quiet = more-Passed more s k at

  -- The loop, where the frame that ends it waits behind the others.
  await_settings_lem :
      (fuel rounds : ℕ) (fs : List Frame) (last : SettingsFrame) (rest : Bytes) (s : Session X C O)
      (k : C.State)
      → All (Plain fuel) fs
      → All (λ f. asks_settings f ≡ false) fs
      → Plain fuel (settings_frame last)
      → has_flag last.frame_header.flags flag_ack ≡ false
      → At healthy succeeds s k
      → unread k ≡ wire fs ++ (frame_bytes (settings_frame last) ++ rest)
      → Decodes fs (hearing s.client)
      → length fs < rounds
      → 17 ≤ fuel
      → Exchanged healthy succeeds
          (await_settings fuel rounds s)
          tt
          rest
          (sent k ++ (acks fs ++ frame_bytes settings_ack))
          (heard_all fs (hearing s.client))
  unfolding await_settings start_step new_settings_frame
  await_settings_lem fuel zero fs last rest s k plain others ends asks at waits decode enough room =
      absurd (omega arith)
  await_settings_lem fuel (suc rounds) [] last rest s k plain others ends asks at waits decode
        enough room =
      let quiet = unheard (settings_frame last) (hearing s.client) refl in
      let (e, is_f, _, got) =
        receive_and_report_lem healthy succeeds fuel (settings_frame last) rest s k ends.valid at
          waits ends.fits quiet.0 in
      let s₁ = (receive_and_report fuel s).0 in
      let r =
        send_frame_and_report_lem healthy succeeds fuel settings_ack s₁ got.after
          settings_ack-IsValid got.at (omega (arith, settings_ack_short)) in
      let runs : await_settings fuel (suc rounds) s ≡ send_frame_and_report fuel settings_ack s₁ =
        continue_ok (receive_and_report fuel s) e _ got.returns
        ∙ (ap (λ f. start_step fuel f (await_settings fuel rounds) s₁) is_f ∙ rw asks refl) in
      rw runs (record {
        after = r.after;
        returns = r.returns;
        at = r.at;
        leaves = r.leaves ∙ got.leaves;
        sends = r.sends ∙ ap (λ t. t ++ frame_bytes settings_ack) got.sends;
        hears = r.hears ∙ (got.hears ∙ quiet.1);
      })
  await_settings_lem fuel (suc rounds) (f ∷ fs) last rest s k (plain, plains) (other, others) ends
        asks at waits (decodes, decode) enough room =
      let behind = frame_bytes (settings_frame last) ++ rest in
      let (e, is_f, _, got) =
        receive_and_report_lem healthy succeeds fuel f (wire fs ++ behind) s k plain.valid at
          (waits ∙ append_assoc (frame_bytes f) (wire fs) behind) plain.fits decodes in
      let s₁ = (receive_and_report fuel s).0 in
      let p =
        start_step-Passed fuel f (await_settings fuel rounds) s₁ got.after plain.valid got.at room
          plain.stays other in
      let r =
        await_settings_lem fuel rounds fs last rest p.session p.after plains others ends asks p.at
          (p.keeps ∙ got.leaves) (subst (Decodes fs) (sym (p.hears ∙ got.hears)) decode)
          (omega arith) room in
      let runs : await_settings fuel (suc rounds) s ≡ await_settings fuel rounds p.session =
        continue_ok (receive_and_report fuel s) e _ got.returns
        ∙ (ap (λ g. start_step fuel g (await_settings fuel rounds) s₁) is_f ∙ p.goes) in
      rw runs (record {
        after = r.after;
        returns = r.returns;
        at = r.at;
        leaves = r.leaves;
        sends =
            r.sends
            ∙ (ap (λ t. t ++ (acks fs ++ frame_bytes settings_ack))
                  (p.sends ∙ ap (λ t. t ++ ack_bytes f) got.sends)
                ∙ (append_assoc (sent k) (ack_bytes f) (acks fs ++ frame_bytes settings_ack)
                    ∙ ap (λ t. sent k ++ t)
                        (sym (append_assoc (ack_bytes f) (acks fs) (frame_bytes settings_ack)))));
        hears = r.hears ∙ ap (heard_all fs) (p.hears ∙ got.hears);
      })

  -- Over a healthy connection and with an output that does not fail, when frames wait that are
  -- neither GOAWAY nor SETTINGS without ACK and whose header blocks decode, with the table that our
  -- SETTINGS allow, and then SETTINGS without ACK: the start of a session
  -- ends without an error, has taken the frames up to those SETTINGS and no more, and has sent the
  -- preface, its own SETTINGS, the acknowledgements that the frames before ask for, in order, and the
  -- acknowledgement of the peer's SETTINGS, and nothing else.
  pub start_session_lem :
      (fuel rounds max_table : ℕ) (fs : List Frame) (last : SettingsFrame) (rest : Bytes)
      (s : Session X C O) (k : C.State)
      → All (Plain fuel) fs
      → All (λ f. asks_settings f ≡ false) fs
      → Plain fuel (settings_frame last)
      → has_flag last.frame_header.flags flag_ack ≡ false
      → At healthy succeeds s k
      → unread k ≡ wire fs ++ (frame_bytes (settings_frame last) ++ rest)
      → Decodes fs (opened_hearing max_table s)
      → length fs < rounds
      → 27 ≤ fuel
      → max_table < 2 ^ 32
      → Exchanged healthy succeeds
          (start_session fuel rounds max_table s)
          tt
          rest
          (((sent k ++ connection_preface) ++ frame_bytes (initial_settings max_table))
            ++ (acks fs ++ frame_bytes settings_ack))
          (heard_all fs (opened_hearing max_table s))
  unfolding start_session send_connection_preface
  start_session_lem fuel rounds max_table fs last rest s k plain others ends asks at waits decode
        enough room small =
      let (k₀, opens, sends₀, keeps₀) =
        send_raw_sends healthy fuel connection_preface s.client k at (omega arith) in
      let r₀ = on_client (send_connection_preface fuel) s in
      let notice = O.print_notice (codes "sent") (codes "preface") (codes "CONNECTION_PREFACE") in
      let r₁ = on_output notice r₀.0 in
      let h =
        send_frame_and_report_lem healthy succeeds fuel (initial_settings max_table) r₁.0 k₀
          (initial_settings-IsValid max_table small) (ap (λ r. r.0.conn) opens)
          (omega (arith, length-initial_settings max_table)) in
      let r₂ = send_frame_and_report fuel (initial_settings max_table) r₁.0 in
      let opens_hearing : hearing r₂.0.client ≡ opened_hearing max_table s =
        h.hears
        ∙ ap (λ c. allowed_by (initial_settings max_table) (hearing c)) (ap (λ r. r.0) opens) in
      let a =
        await_settings_lem fuel rounds fs last rest r₂.0 h.after plain others ends asks h.at
          (h.leaves ∙ (keeps₀ ∙ waits)) (subst (Decodes fs) (sym opens_hearing) decode) enough
          (omega arith) in
      let runs : start_session fuel rounds max_table s ≡ await_settings fuel rounds r₂.0 =
        continue_ok r₀ tt _ (ap (λ r. r.1) opens)
        ∙ (continue_ok r₁ tt _ (succeeds.reports_notice _ _ _ r₀.0.out)
            ∙ continue_ok r₂ tt _ h.returns) in
      rw runs (record {
        after = a.after;
        returns = a.returns;
        at = a.at;
        leaves = a.leaves;
        sends =
            a.sends
            ∙ ap (λ t. t ++ (acks fs ++ frame_bytes settings_ack))
                (h.sends ∙ ap (λ t. t ++ frame_bytes (initial_settings max_table)) sends₀);
        hears = a.hears ∙ ap (heard_all fs) opens_hearing;
      })
