-- ===== src/Main/PingRun.antt =====
-- cmd/mh2c/main.go: a run in the mode ping, on a healthy connection where the peer answers.
use mh2c_go.Base.{
  ℕ, ◌^◌, ◌≤◌, ◌<◌, true, false, List, ◌++◌, length, All, Bytes, bytes_eq, codes, Result, ok, ◌≡◌,
  refl, ap, sym, subst, ◌∙◌, arith,
}
use mh2c_go.Base.State.{M, continue, continue_ok}
use mh2c_go.Frame.{Frame, SettingsFrame, PingFrame, settings_frame, ping_frame, flag_ack, has_flag}
use mh2c_go.Frame.Control.{new_ping_frame, ping_payload, new_go_away_frame, go_away_payload}
use mh2c_go.Frame.Codec.{header, payload}
use mh2c_go.Frame.RoundTrip.{IsValid}
use mh2c_go.Wire.{append_uint32}
use mh2c_go.Hpack.{Library}
use mh2c_go.Client.Conn.{Conn}
use mh2c_go.Client.Transport.{InOrder}
use mh2c_go.Client.Core.{connection_preface}
use mh2c_go.Session.{
  Output, Session, on_output, settings_ack, send_frame_and_report, initial_settings, start_session,
}
use mh2c_go.Session.Loops.{receive_ping_frames}
use mh2c_go.Session.Exchange.{Succeeds, Exchanged, At, frame_bytes, send_frame_and_report_lem}
use mh2c_go.Session.Hearing.{Decodes, hearing, heard_all}
use mh2c_go.Session.Observe.{wire, acks, Plain}
use mh2c_go.Session.Ping.{is_answer, receive_ping_frames_lem}
use mh2c_go.Session.Start.{asks_settings, opened_hearing, start_session_lem}
use mh2c_go.Script.Text.{Unicode}
use mh2c_go.Script.Fields.{parse_ping_data}
use mh2c_go.Script.Values.{ScriptTable}
use mh2c_go.Config.{Config}
use mh2c_go.Config.Endpoint.{Endpoint}
use mh2c_go.Config.Setup.{as_uint32}
use mh2c_go.Main.Run.{goodbye_frame, goodbye, dropped, end_session, run_ping, run_mode, run_session}

-- The PING frame that a run sends.
abbrev pub our_ping : Bytes → Frame
our_ping content = ping_frame (new_ping_frame 0 content)

our_ping-IsValid : (content : Bytes) → length content ≡ 8 → IsValid (our_ping content)
unfolding header payload new_ping_frame ping_payload
our_ping-IsValid content e = record {
  length_is = ground arith;
  short = omega arith;
  stream_id_fits = omega arith;
  body = (refl, e);
}

our_ping_short : (content : Bytes) → length content ≡ 8 → length (payload (our_ping content)) ≤ 8
unfolding payload new_ping_frame ping_payload
our_ping_short content e = omega arith

goodbye_frame-IsValid :
    (cfg : Config) → as_uint32 cfg.stream_id < 2 ^ 31 → IsValid (goodbye_frame cfg)
unfolding header payload new_go_away_frame go_away_payload append_uint32
goodbye_frame-IsValid cfg h = record {
  length_is = refl;
  short = omega arith;
  stream_id_fits = omega arith;
  body = (refl, h, omega arith);
}

goodbye_frame_short : (cfg : Config) → length (payload (goodbye_frame cfg)) ≤ 8
unfolding payload new_go_away_frame go_away_payload append_uint32
goodbye_frame_short cfg = omega arith

dropped_ok : {S : Type 0} (r : S × Result (Unit {0})) → r.1 ≡ ok tt → dropped r ≡ r
dropped_ok (s, ok tt) e = refl
dropped_ok (s, Result.err why) e = absurd (ground (arith, e))
dropped_ok (s, Result.panic) e = refl
dropped_ok (s, Result.diverge) e = refl

-- What a run in the mode ping sends behind some bytes, up to the answer: the preface, our SETTINGS, the
-- acknowledgements that the frames before the peer's SETTINGS ask for and that of those SETTINGS, the
-- PING frame, and the acknowledgements that the frames before the answer ask for.
abbrev pub ping_bytes : Bytes → Config → List Frame → List Frame → Bytes
ping_bytes start cfg before between =
    ((((start ++ connection_preface) ++ frame_bytes (initial_settings (as_uint32 cfg.max_table)))
        ++ (acks before ++ frame_bytes settings_ack))
      ++ frame_bytes (our_ping cfg.ping_data))
    ++ acks between

module _ {X : Library} {C : Conn} {O : Output} (healthy : InOrder C) (succeeds : Succeeds O)
    (flush : M O.State (Unit {0})) (saves : (s : O.State) → (flush s).1 ≡ ok tt) where
  open healthy use {unread, sent}

  goodbye_lem :
      (fuel : ℕ) (cfg : Config) (s : Session X C O) (k : C.State)
      → as_uint32 cfg.stream_id < 2 ^ 31
      → cfg.send_go_away ≡ true
      → At healthy succeeds s k
      → 17 ≤ fuel
      → Exchanged healthy succeeds
          (goodbye fuel cfg false s)
          tt
          (unread k)
          (sent k ++ frame_bytes (goodbye_frame cfg))
          (hearing s.client)
  goodbye_lem fuel cfg s k small sends at room =
      let f = goodbye_frame cfg in
      let r =
        send_frame_and_report_lem healthy succeeds fuel f s k (goodbye_frame-IsValid cfg small) at
          (omega (arith, goodbye_frame_short cfg)) in
      rw (sends, dropped_ok (send_frame_and_report fuel f s) r.returns) r

  run_ping_lem :
      (fuel rounds : ℕ) (cfg : Config) (before between : List Frame) (settings : SettingsFrame)
      (answer : PingFrame) (rest : Bytes) (s : Session X C O) (k : C.State)
      → All (Plain fuel) before
      → All (λ f. asks_settings f ≡ false) before
      → Plain fuel (settings_frame settings)
      → has_flag settings.frame_header.flags flag_ack ≡ false
      → All (Plain fuel) between
      → All (λ f. is_answer answer.content f ≡ false) between
      → Plain fuel (ping_frame answer)
      → has_flag answer.frame_header.flags flag_ack ≡ true
      → answer.content ≡ cfg.ping_data
      → length cfg.ping_data ≡ 8
      → At healthy succeeds s k
      → unread k
        ≡ wire before
          ++ (frame_bytes (settings_frame settings)
              ++ (wire between ++ (frame_bytes (ping_frame answer) ++ rest)))
      → Decodes before (opened_hearing (as_uint32 cfg.max_table) s)
      → Decodes between (heard_all before (opened_hearing (as_uint32 cfg.max_table) s))
      → length before < rounds
      → length between < rounds
      → 27 ≤ fuel
      → Exchanged healthy succeeds
          (run_ping fuel rounds cfg s)
          false
          rest
          (ping_bytes (sent k) cfg before between)
          (heard_all between (heard_all before (opened_hearing (as_uint32 cfg.max_table) s)))
  unfolding run_ping parse_ping_data
  run_ping_lem fuel rounds cfg before between settings answer rest s k plain others asks asking
        plain' others' last acked echoes eight at waits decode decode' enough enough' room =
      let table = as_uint32 cfg.max_table in
      let behind = wire between ++ (frame_bytes (ping_frame answer) ++ rest) in
      let a =
        start_session_lem healthy succeeds fuel rounds table before settings behind s k plain others
          asks asking at waits decode enough room (omega arith) in
      let s₁ = (start_session fuel rounds table s).0 in
      let p =
        send_frame_and_report_lem healthy succeeds fuel (our_ping cfg.ping_data) s₁ a.after
          (our_ping-IsValid cfg.ping_data eight) a.at
          (omega (arith, our_ping_short cfg.ping_data eight)) in
      let s₂ = (send_frame_and_report fuel (our_ping cfg.ping_data) s₁).0 in
      let r =
        receive_ping_frames_lem healthy succeeds fuel rounds between answer rest s₂ p.after plain'
          others' last acked p.at (p.leaves ∙ a.leaves)
          (subst (Decodes between) (sym (p.hears ∙ a.hears)) decode') enough' (omega arith) in
      let read : parse_ping_data cfg.ping_data ≡ ok cfg.ping_data = ground (arith, eight) in
      let runs : run_ping fuel rounds cfg s ≡ receive_ping_frames fuel rounds answer.content s₂ =
        continue_ok (start_session fuel rounds table s) tt _ a.returns
        ∙ (continue_ok (s₁, parse_ping_data cfg.ping_data) cfg.ping_data _ read
            ∙ (continue_ok (send_frame_and_report fuel (our_ping cfg.ping_data) s₁) tt _ p.returns
                ∙ ap (λ w. receive_ping_frames fuel rounds w s₂) (sym echoes))) in
      rw runs (record {
        after = r.after;
        returns = r.returns;
        at = r.at;
        leaves = r.leaves;
        sends =
            r.sends
            ∙ ap (λ t. t ++ acks between)
                (p.sends ∙ ap (λ t. t ++ frame_bytes (our_ping cfg.ping_data)) a.sends);
        hears = r.hears ∙ ap (heard_all between) (p.hears ∙ a.hears);
      })

  ping_mode :
      (U : Unicode) (body : Result Bytes) (fuel rounds : ℕ) (cfg : Config) (ep : Endpoint)
      (actions : List ScriptTable) (s : Session X C O)
      → cfg.mode ≡ codes "ping"
      → run_mode U body flush fuel rounds cfg ep actions s ≡ run_ping fuel rounds cfg s
  unfolding run_mode bytes_eq
  ping_mode U body fuel rounds cfg ep actions s is_ping = rw is_ping refl

  -- The session of a run in the mode ping, from the switch over the modes to the end, over a
  -- healthy connection, with an output and a flush that do not fail and with GOAWAY at the end:
  -- when SETTINGS wait behind frames that are neither those nor GOAWAY, and the answer to the eight
  -- bytes behind frames that are neither that nor GOAWAY, and the header blocks of these frames
  -- decode, the session ends without an error, has taken the frames up to the answer and no more,
  -- and has sent the preface, its SETTINGS, its PING, GOAWAY, and the acknowledgements that were
  -- asked for, in that order, and nothing else.
  pub run_session-ping :
      (U : Unicode) (body : Result Bytes) (fuel rounds : ℕ) (cfg : Config) (ep : Endpoint)
      (actions : List ScriptTable) (before between : List Frame) (settings : SettingsFrame)
      (answer : PingFrame) (rest : Bytes) (s : Session X C O) (k : C.State)
      → cfg.mode ≡ codes "ping"
      → cfg.send_go_away ≡ true
      → as_uint32 cfg.stream_id < 2 ^ 31
      → All (Plain fuel) before
      → All (λ f. asks_settings f ≡ false) before
      → Plain fuel (settings_frame settings)
      → has_flag settings.frame_header.flags flag_ack ≡ false
      → All (Plain fuel) between
      → All (λ f. is_answer answer.content f ≡ false) between
      → Plain fuel (ping_frame answer)
      → has_flag answer.frame_header.flags flag_ack ≡ true
      → answer.content ≡ cfg.ping_data
      → length cfg.ping_data ≡ 8
      → At healthy succeeds s k
      → unread k
        ≡ wire before
          ++ (frame_bytes (settings_frame settings)
              ++ (wire between ++ (frame_bytes (ping_frame answer) ++ rest)))
      → Decodes before (opened_hearing (as_uint32 cfg.max_table) s)
      → Decodes between (heard_all before (opened_hearing (as_uint32 cfg.max_table) s))
      → length before < rounds
      → length between < rounds
      → 27 ≤ fuel
      → Exchanged healthy succeeds
          (run_session U body flush fuel rounds cfg ep actions s)
          tt
          rest
          (ping_bytes (sent k) cfg before between ++ frame_bytes (goodbye_frame cfg))
          (heard_all between (heard_all before (opened_hearing (as_uint32 cfg.max_table) s)))
  unfolding run_session
  run_session-ping U body fuel rounds cfg ep actions before between settings answer rest s k is_ping
        polite small plain others asks asking plain' others' last acked echoes eight at waits decode
        decode' enough enough' room =
      let a =
        run_ping_lem fuel rounds cfg before between settings answer rest s k plain others asks
          asking plain' others' last acked echoes eight at waits decode decode' enough enough'
          room in
      let s₁ = (run_ping fuel rounds cfg s).0 in
      let g = goodbye_lem fuel cfg s₁ a.after small polite a.at (omega arith) in
      let s₂ = (goodbye fuel cfg false s₁).0 in
      let mode : run_mode U body flush fuel rounds cfg ep actions s ≡ run_ping fuel rounds cfg s =
        ping_mode U body fuel rounds cfg ep actions s is_ping in
      let runs : run_session U body flush fuel rounds cfg ep actions s ≡ on_output flush s₂ =
        ap (λ r. continue r (end_session flush fuel cfg)) mode
        ∙ (continue_ok (run_ping fuel rounds cfg s) false (end_session flush fuel cfg) a.returns
            ∙ continue_ok (goodbye fuel cfg false s₁) tt (λ _. on_output flush) g.returns) in
      rw runs (record {
        after = g.after;
        returns = saves s₂.out;
        at = g.at;
        leaves = g.leaves ∙ a.leaves;
        sends = g.sends ∙ ap (λ t. t ++ frame_bytes (goodbye_frame cfg)) a.sends;
        hears = g.hears ∙ a.hears;
      })
