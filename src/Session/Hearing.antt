-- ===== src/Session/Hearing.antt =====
-- client/client.go: what a client decodes received header blocks with, and what changes that.
use mh2c_go.Base.{
  ◌≡◌, refl, ◌∙◌, arith, Bool, true, false, List, [], ◌∷◌, none, ap, ◌==◌, if◌then◌else◌,
}
use mh2c_go.Frame.{
  Setting, Frame, headers_frame, settings_frame, push_promise_frame, continuation_frame,
}
use mh2c_go.Frame.Settings.{setting_header_table_size}
use mh2c_go.Hpack.{Library, Codec, decode_detailed, set_decoder_allowed_max_dynamic_table_size}
use mh2c_go.Client.Conn.{Conn}
use mh2c_go.Client.Tracker.{FrameEvent, Tracker, consume}
use mh2c_go.Client.Core.{Client, apply_frame, apply_settings, apply_sent_frame, apply_sent_settings}

-- What the client decodes received header blocks with, behind a frame and behind several.
abbrev pub Hearing : Library → Type 0
Hearing X = Tracker × Codec X

abbrev pub heard : {X : Library} → Frame → Hearing X → Hearing X
heard f p = (consume decode_detailed f p).0

abbrev pub heard_event : {X : Library} → Frame → Hearing X → FrameEvent
heard_event f p = (consume decode_detailed f p).1

abbrev pub heard_all : {X : Library} → List Frame → Hearing X → Hearing X
heard_all [] p = p
heard_all (f ∷ fs) p = heard_all fs (heard f p)

-- The header blocks of some frames decode, one after the other.
abbrev pub DecodesOne : {X : Library} → Frame → Hearing X → Type 0
DecodesOne f p = (heard_event f p).decode_error ≡ none

abbrev pub Decodes : {X : Library} → List Frame → Hearing X → Type 0
Decodes [] p = Unit {0}
Decodes (f ∷ fs) p = DecodesOne f p × Decodes fs (heard f p)

abbrev carries_block : Frame → Bool
carries_block (headers_frame _) = true
carries_block (push_promise_frame _) = true
carries_block (continuation_frame _) = true
carries_block _ = false

-- Only these frames are decoded.
pub unheard :
    {X : Library} (f : Frame) (p : Hearing X)
    → carries_block f ≡ false
    → DecodesOne f p × (heard f p ≡ p)
unfolding consume
unheard (headers_frame _) p h = absurd (ground (arith, h))
unheard (push_promise_frame _) p h = absurd (ground (arith, h))
unheard (continuation_frame _) p h = absurd (ground (arith, h))
unheard _ p h = (refl, refl)

-- A size of the decoder's table that sent SETTINGS allow.
abbrev pub allowed : {X : Library} → List Setting → Codec X → Codec X
allowed [] k = k
allowed (s ∷ ss) k = allowed ss (
    if s.id == setting_header_table_size
    then set_decoder_allowed_max_dynamic_table_size s.value k
    else k)

abbrev pub allowed_by : {X : Library} → Frame → Hearing X → Hearing X
allowed_by (settings_frame f) (t, k) = (t, allowed f.settings k)
allowed_by _ p = p

module _ {X : Library} {C : Conn} where
  abbrev pub hearing : Client X C → Hearing X
  hearing c = (c.received_header_block, c.response_codec)

  -- Settings that are received leave the decoding alone, and those that are sent bound its table.
  either-hearing :
      (b : Bool) (x c : Client X C)
      → hearing x ≡ hearing c
      → hearing (if b then x else c) ≡ hearing c
  either-hearing true x c e = e
  either-hearing false x c e = refl

  apply_settings-hearing :
      (ss : List Setting) (c : Client X C) → hearing (apply_settings ss c) ≡ hearing c
  unfolding apply_settings
  apply_settings-hearing [] c = refl
  apply_settings-hearing (s ∷ ss) c =
      apply_settings-hearing ss _ ∙ either-hearing (s.id == setting_header_table_size) _ c refl

  pub apply_frame-hearing : (f : Frame) (c : Client X C) → hearing (apply_frame f c) ≡ hearing c
  unfolding apply_frame
  apply_frame-hearing (settings_frame f) c = apply_settings-hearing f.settings c
  apply_frame-hearing _ c = refl

  either-allowed :
      (b : Bool) (c : Client X C) (k : Codec X)
      → hearing (if b then record c { response_codec = k } else c)
        ≡ (c.received_header_block, if b then k else c.response_codec)
  either-allowed true c k = refl
  either-allowed false c k = refl

  apply_sent_settings-hearing :
      (ss : List Setting) (c : Client X C)
      → hearing (apply_sent_settings ss c) ≡ (c.received_header_block, allowed ss c.response_codec)
  unfolding apply_sent_settings
  apply_sent_settings-hearing [] c = refl
  apply_sent_settings-hearing (s ∷ ss) c =
      apply_sent_settings-hearing ss _
      ∙ ap (λ p. (p.0, allowed ss p.1))
          (either-allowed (s.id == setting_header_table_size) c
            (set_decoder_allowed_max_dynamic_table_size s.value c.response_codec))

  pub apply_sent_frame-hearing :
      (f : Frame) (c : Client X C) → hearing (apply_sent_frame f c) ≡ allowed_by f (hearing c)
  unfolding apply_sent_frame
  apply_sent_frame-hearing (settings_frame f) c = apply_sent_settings-hearing f.settings c
  apply_sent_frame-hearing _ c = refl
