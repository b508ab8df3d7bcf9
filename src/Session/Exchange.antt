-- ===== src/Session/Exchange.antt =====
-- cmd/mh2c/session.go: what one round of a receive loop reads and writes on a healthy connection.
use mh2c_go.Base.{
  ℕ, ◌+◌, ◌≤◌, ◌≡◌, refl, sym, ◌∙◌, arith, Bool, true, false, Bool-cases, List, [], ◌∷◌, ◌++◌,
  append-nil, length, inl, inr, none, some, ap, Bytes, Result, ok, ◌==◌, if◌then◌else◌,
}
use mh2c_go.Frame.{
  Setting, Frame, data_frame, headers_frame, priority_frame, rst_stream_frame, settings_frame,
  push_promise_frame, ping_frame, go_away_frame, window_update_frame, continuation_frame, raw_frame,
  flag_ack, has_flag,
}
use mh2c_go.Frame.Settings.{
  new_settings_frame, settings_payload, append_settings, setting_header_table_size,
}
use mh2c_go.Frame.Control.{new_ping_frame, ping_payload}
use mh2c_go.Frame.Codec.{header, payload}
use mh2c_go.Frame.RoundTrip.{IsValid}
use mh2c_go.Frame.RoundTrip.HeaderBytes.{header_bytes}
use mh2c_go.Hpack.{Library, decode_detailed}
use mh2c_go.Client.Conn.{Conn}
use mh2c_go.Client.Tracker.{FrameEvent, consume}
use mh2c_go.Client.Tracker.Effects.{consume-IsAtomic}
use mh2c_go.Client.Transport.{InOrder}
use mh2c_go.Client.Core.{
  Client, apply_frame, apply_settings, apply_sent_frame, apply_sent_settings, track_sent_frame,
  track_received_frame,
}
use mh2c_go.Client.Delivery.{send_frame_sends, receive_frame_delivers}
use mh2c_go.Session.Hearing.{
  Hearing, heard, heard_event, DecodesOne, allowed_by, hearing, apply_frame-hearing,
  apply_sent_frame-hearing,
}
use mh2c_go.Session.{
  Output, Session, settings_ack, ping_ack, send_frame_and_report, receive_and_report,
  ack_control_frame,
}

-- An output whose reports do not fail, but for that of a received frame whose header block does not
-- decode.
pub record Succeeds (O : Output) : Type 0 where
  pub reports_notice : (a b c : Bytes) (s : O.State) → (O.print_notice a b c s).1 ≡ ok tt
  pub reports_sent : (e : FrameEvent) (s : O.State) → (O.handle_sent e s).1 ≡ ok tt
  pub reports_received :
      (e : FrameEvent) (s : O.State) → e.decode_error ≡ none → (O.handle_received e s).1 ≡ ok tt

-- The bytes of a frame on the wire.
abbrev pub frame_bytes : Frame → Bytes
frame_bytes f = header_bytes (header f) ++ payload f

-- The bytes of the acknowledgement of a frame, where it asks for one.
abbrev unless : Bool → Bytes → Bytes
unless true bs = []
unless false bs = bs

unfoldable pub ack_bytes : Frame → Bytes
ack_bytes (settings_frame f) =
    unless (has_flag f.frame_header.flags flag_ack) (frame_bytes settings_ack)
ack_bytes (ping_frame f) =
    unless (has_flag f.frame_header.flags flag_ack) (frame_bytes (ping_ack f.content))
ack_bytes _ = []

pub settings_ack-IsValid : IsValid settings_ack
unfolding header payload new_settings_frame settings_payload append_settings
settings_ack-IsValid = record {
  length_is = refl;
  short = omega arith;
  stream_id_fits = omega arith;
  body = (refl, tt);
}

pub settings_ack_short : length (payload settings_ack) ≤ 8
unfolding payload new_settings_frame settings_payload append_settings
settings_ack_short = omega arith

pub ping_ack-IsValid : (content : Bytes) → length content ≡ 8 → IsValid (ping_ack content)
unfolding header payload new_ping_frame ping_payload
ping_ack-IsValid content e = record {
  length_is = ground arith;
  short = omega arith;
  stream_id_fits = omega arith;
  body = (refl, e);
}

pub ping_ack_short :
    (content : Bytes) → length content ≡ 8 → length (payload (ping_ack content)) ≤ 8
unfolding payload new_ping_frame ping_payload
ping_ack_short content e = omega arith

module _ {X : Library} {C : Conn} where
  either-conn : (b : Bool) (x c : Client X C) → x.conn ≡ c.conn → (if b then x else c).conn ≡ c.conn
  either-conn true x c e = e
  either-conn false x c e = refl

  -- Settings and trackers leave the connection alone.
  apply_settings-conn : (ss : List Setting) (c : Client X C) → (apply_settings ss c).conn ≡ c.conn
  unfolding apply_settings
  apply_settings-conn [] c = refl
  apply_settings-conn (s ∷ ss) c =
      apply_settings-conn ss _ ∙ either-conn (s.id == setting_header_table_size) _ c refl

  apply_sent_settings-conn :
      (ss : List Setting) (c : Client X C) → (apply_sent_settings ss c).conn ≡ c.conn
  unfolding apply_sent_settings
  apply_sent_settings-conn [] c = refl
  apply_sent_settings-conn (s ∷ ss) c =
      apply_sent_settings-conn ss _ ∙ either-conn (s.id == setting_header_table_size) _ c refl

  apply_frame-conn : (f : Frame) (c : Client X C) → (apply_frame f c).conn ≡ c.conn
  unfolding apply_frame
  apply_frame-conn (settings_frame f) c = apply_settings-conn f.settings c
  apply_frame-conn _ c = refl

  apply_sent_frame-conn : (f : Frame) (c : Client X C) → (apply_sent_frame f c).conn ≡ c.conn
  unfolding apply_sent_frame
  apply_sent_frame-conn (settings_frame f) c = apply_sent_settings-conn f.settings c
  apply_sent_frame-conn _ c = refl

  module _ {O : Output} (healthy : InOrder C) (succeeds : Succeeds O) where
    open healthy use {unread, sent}

    -- A session is at a state of its connection.
    abbrev pub At : Session X C O → C.State → Type 0
    At s k = s.client.conn ≡ some k

    -- A step ends without an error, reads down to `rest`, has sent `out`, and decodes what comes from
    -- `p` on.
    pub record Exchanged {A : Type 0} (r : Session X C O × Result A) (a : A) (rest out : Bytes)
        (p : Hearing X) : Type 0 where
      pub after : C.State
      pub returns : r.1 ≡ ok a
      pub at : At r.0 after
      pub leaves : unread after ≡ rest
      pub sends : sent after ≡ out
      pub hears : hearing r.0.client ≡ p

    pub send_frame_and_report_lem :
        (fuel : ℕ) (f : Frame) (s : Session X C O) (k : C.State)
        → IsValid f
        → At s k
        → 9 + length (payload f) ≤ fuel
        → Exchanged
            (send_frame_and_report fuel f s)
            tt
            (unread k)
            (sent k ++ frame_bytes f)
            (allowed_by f (hearing s.client))
    unfolding send_frame_and_report track_sent_frame
    send_frame_and_report_lem fuel f s k v at enough =
        let (k', runs, sends, keeps) = send_frame_sends healthy fuel f s.client k v at enough in
        record {
          after = k';
          returns = rw runs (succeeds.reports_sent _ _);
          at = rw runs (apply_sent_frame-conn f _);
          leaves = keeps;
          sends = sends;
          hears = rw runs (apply_sent_frame-hearing f _);
        }

    pub nothing_sent :
        {A : Type 0} (s : Session X C O) (k : C.State) (a : A)
        → At s k
        → Exchanged (s, ok a) a (unread k) (sent k ++ []) (hearing s.client)
    nothing_sent s k a at = record {
      after = k;
      returns = refl;
      at = at;
      leaves = refl;
      sends = sym (append-nil (sent k));
      hears = refl;
    }

    -- Only SETTINGS and PING frames without ACK are answered, each with its acknowledgement.
    pub ack_control_frame_lem :
        (fuel : ℕ) (f : Frame) (s : Session X C O) (k : C.State)
        → IsValid f
        → At s k
        → 17 ≤ fuel
        → Exchanged
            (ack_control_frame fuel f s)
            tt
            (unread k)
            (sent k ++ ack_bytes f)
            (hearing s.client)
    unfolding ack_control_frame ack_bytes new_settings_frame new_ping_frame
    ack_control_frame_lem fuel (settings_frame f) s k v at enough =
        elim (Bool-cases (has_flag f.frame_header.flags flag_ack)) [
          | inl acked ↦ rw acked (nothing_sent s k tt at)
          | inr asks ↦ rw asks (
              send_frame_and_report_lem fuel settings_ack s k settings_ack-IsValid at
                (omega (arith, settings_ack_short)))
        ]
    ack_control_frame_lem fuel (ping_frame f) s k v at enough =
        elim (Bool-cases (has_flag f.frame_header.flags flag_ack)) [
          | inl acked ↦ rw acked (nothing_sent s k tt at)
          | inr asks ↦ rw asks (
              send_frame_and_report_lem fuel (ping_ack f.content) s k
                (ping_ack-IsValid f.content v.body.1) at
                (omega (arith, ping_ack_short f.content v.body.1)))
        ]
    ack_control_frame_lem fuel (data_frame f) s k v at enough = nothing_sent s k tt at
    ack_control_frame_lem fuel (headers_frame f) s k v at enough = nothing_sent s k tt at
    ack_control_frame_lem fuel (priority_frame f) s k v at enough = nothing_sent s k tt at
    ack_control_frame_lem fuel (rst_stream_frame f) s k v at enough = nothing_sent s k tt at
    ack_control_frame_lem fuel (push_promise_frame f) s k v at enough = nothing_sent s k tt at
    ack_control_frame_lem fuel (go_away_frame f) s k v at enough = nothing_sent s k tt at
    ack_control_frame_lem fuel (window_update_frame f) s k v at enough = nothing_sent s k tt at
    ack_control_frame_lem fuel (continuation_frame f) s k v at enough = nothing_sent s k tt at
    ack_control_frame_lem fuel (raw_frame f) s k v at enough = nothing_sent s k tt at

    pub receive_and_report_lem :
        (fuel : ℕ) (f : Frame) (rest : Bytes) (s : Session X C O) (k : C.State)
        → IsValid f
        → At s k
        → unread k ≡ frame_bytes f ++ rest
        → 9 + length (payload f) ≤ fuel
        → DecodesOne f (hearing s.client)
        → (e : FrameEvent) × (e.frame ≡ f)
          × (e ≡ heard_event f (hearing s.client))
          × Exchanged (receive_and_report fuel s) e rest (sent k) (heard f (hearing s.client))
    unfolding receive_and_report track_received_frame
    receive_and_report_lem fuel f rest s k v at waits enough decodes =
        let (k', runs, left, quiet) =
          receive_frame_delivers healthy fuel f rest s.client k v at waits enough in
        let c : Client X C = apply_frame f (record s.client { conn = some k' }) in
        let same : hearing c ≡ hearing s.client = apply_frame-hearing f _ in
        let r = consume decode_detailed f (hearing c) in
        let fine : r.1.decode_error ≡ none =
          ap (λ p. (consume decode_detailed f p).1.decode_error) same ∙ decodes in
        (
          r.1,
          (consume-IsAtomic decode_detailed f c.received_header_block c.response_codec).0,
          ap (heard_event f) same,
          record {
            after = k';
            returns = rw runs (rw (succeeds.reports_received r.1 s.out fine) refl);
            at = rw runs (rw (succeeds.reports_received r.1 s.out fine) (apply_frame-conn f _));
            leaves = left;
            sends = quiet;
            hears =
                rw runs (rw (succeeds.reports_received r.1 s.out fine) (ap (λ p. heard f p) same));
          },
        )
