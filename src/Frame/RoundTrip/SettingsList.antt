-- ===== src/Frame/RoundTrip/SettingsList.antt =====
-- The SETTINGS payload: six bytes an entry, read back in order.
use mh2c_go.Base.{
  ℕ, ◌+◌, ◌*◌, ◌/◌, ◌^◌, ◌<◌, ◌≡◌, refl, sym, ap, ◌∙◌, arith, List, [], ◌∷◌, ◌++◌, append-nil,
  append_assoc, length, length-append, All, Bytes, ok,
}
use mh2c_go.Wire.{append_uint16, append_uint32}
use mh2c_go.Frame.{Setting, SettingsFrame, settings_frame}
use mh2c_go.Frame.Settings.{append_settings, settings_payload, parse_settings, parse_settings_frame}
use mh2c_go.Frame.RoundTrip.Fields.{
  length-append_uint16, length-append_uint32, slice-append_uint16, slice-append_uint32,
  read_uint16_back, read_uint32_back,
}

-- The identifier fits a uint16 and the value a uint32.
abbrev pub IsSetting : Setting → Type 0
IsSetting s = (s.id < 2 ^ 16) × (s.value < 2 ^ 32)

abbrev pub settings_bytes : List Setting → Bytes
settings_bytes [] = []
settings_bytes (s ∷ rest) =
    append_uint16 [] s.id ++ (append_uint32 [] s.value ++ settings_bytes rest)

append_settings-settings_bytes :
    (out : Bytes) (ss : List Setting) → append_settings out ss ≡ out ++ settings_bytes ss
unfolding append_settings append_uint16 append_uint32
append_settings-settings_bytes out [] = sym (append-nil out)
append_settings-settings_bytes out (s ∷ ss) =
    append_settings-settings_bytes (append_uint32 (append_uint16 out s.id) s.value) ss
    ∙ simp append_assoc

pub length-settings_bytes : (ss : List Setting) → length (settings_bytes ss) ≡ 6 * length ss
length-settings_bytes [] = omega arith
length-settings_bytes (s ∷ ss) = omega (
  arith,
  length-append (append_uint16 [] s.id) (append_uint32 [] s.value ++ settings_bytes ss),
  length-append (append_uint32 [] s.value) (settings_bytes ss),
  length-append_uint16 s.id,
  length-append_uint32 s.value,
  length-settings_bytes ss,
)

parse_settings-settings_bytes :
    (ss : List Setting) (front p : Bytes) (i : ℕ) (acc : List Setting)
    → All IsSetting ss
    → i ≡ length front
    → p ≡ front ++ settings_bytes ss
    → parse_settings (length ss) i p acc ≡ ok (acc ++ ss)
unfolding parse_settings
parse_settings-settings_bytes [] front p i acc h e ep = ap ok (sym (append-nil acc))
parse_settings-settings_bytes (s ∷ ss) front p i acc ((hid, hv), hss) e ep = ground (
  arith,
  slice-append_uint16 front (append_uint32 [] s.value ++ settings_bytes ss) p i s.id e ep,
  slice-append_uint32 (front ++ append_uint16 [] s.id) (settings_bytes ss) p (i + 2) s.value
      (omega (arith, length-append front (append_uint16 [] s.id), length-append_uint16 s.id))
      (ep ∙ sym (append_assoc front (append_uint16 [] s.id) _)),
  read_uint16_back s.id hid,
  read_uint32_back s.value hv,
  parse_settings-settings_bytes ss behind p (i + 6) (acc ++ (s ∷ [])) hss
      (omega (
        arith,
        length-append (front ++ append_uint16 [] s.id) (append_uint32 [] s.value),
        length-append front (append_uint16 [] s.id),
        length-append_uint16 s.id,
        length-append_uint32 s.value,
      ))
      (ep
        ∙ sym (append_assoc front (append_uint16 [] s.id) _)
        ∙ sym (append_assoc (front ++ append_uint16 [] s.id) (append_uint32 [] s.value) _)),
  append_assoc acc (s ∷ []) ss,
)
  where
    behind : Bytes
    behind = (front ++ append_uint16 [] s.id) ++ append_uint32 [] s.value

pub length-settings_payload :
    (f : SettingsFrame) → length (settings_payload f) ≡ 6 * length f.settings
unfolding settings_payload
length-settings_payload f =
    ap length (append_settings-settings_bytes [] f.settings) ∙ length-settings_bytes f.settings

-- A SETTINGS payload is read back as the settings in their order.
pub parse_settings_frame-settings_payload :
    (f : SettingsFrame)
    → All IsSetting f.settings
    → parse_settings_frame f.frame_header (settings_payload f) ≡ ok (settings_frame f)
unfolding parse_settings_frame settings_payload
parse_settings_frame-settings_payload f h = rw (append_settings-settings_bytes [] f.settings) (
    ground (
      arith,
      length-settings_bytes f.settings,
      rounds,
      parse_settings-settings_bytes f.settings [] (settings_bytes f.settings) 0 [] h refl refl,
    ))
  where
    rounds : (length (settings_bytes f.settings) + 5) / 6 ≡ length f.settings
    rounds = omega (arith, length-settings_bytes f.settings)
