-- ===== src/Frame/Settings.antt =====
-- frame/settings.go
use mh2c_go.Base.{
  ℕ, zero, suc, ◌+◌, ◌/◌, ◌%◌, not, List, [], ◌∷◌, ◌++◌, ◌==◌, if◌then◌else◌, length, Bytes, Result,
  ok, err, payload_size, ◌>>=◌, slice,
}
use mh2c_go.Wire.{append_uint16, append_uint32, read_uint16, read_uint32}
use mh2c_go.Frame.{Header, Setting, SettingsFrame, Frame, settings_frame, type_settings}
use mh2c_go.Frame.Framing.{with_length}

-- The named settings.
abbrev pub setting_header_table_size : ℕ
setting_header_table_size = 0x1

abbrev pub setting_enable_push : ℕ
setting_enable_push = 0x2

abbrev pub setting_max_concurrent_streams : ℕ
setting_max_concurrent_streams = 0x3

abbrev pub setting_initial_window_size : ℕ
setting_initial_window_size = 0x4

abbrev pub setting_max_frame_size : ℕ
setting_max_frame_size = 0x5

abbrev pub setting_max_header_list_size : ℕ
setting_max_header_list_size = 0x6

-- The loop of `Payload`, from the bytes appended so far.
unfoldable pub append_settings : Bytes → List Setting → Bytes
append_settings out [] = out
append_settings out (s ∷ rest) =
    append_settings (append_uint32 (append_uint16 out s.id) s.value) rest

unfoldable pub settings_payload : SettingsFrame → Bytes
settings_payload f = append_settings [] f.settings

unfoldable pub new_settings_frame : ℕ → List Setting → SettingsFrame
unfolding settings_payload
new_settings_frame flags settings =
    let h : Header = record { length = 0; type = type_settings; flags = flags; stream_id = 0 } in
    let frame : SettingsFrame = record { frame_header = h; settings = settings } in
    record frame { frame_header = with_length h (settings_payload frame) }

-- The loop of `parseSettingsFrame` at index `i`, with the number of rounds left.
unfoldable pub parse_settings : ℕ → ℕ → Bytes → List Setting → Result (List Setting)
parse_settings zero i payload settings = ok settings
parse_settings (suc rounds) i payload settings = do
  id ← read_uint16 (← slice i (i + 2) payload)
  value ← read_uint32 (← slice (i + 2) (i + 2 + 4) payload)
  parse_settings rounds (i + 6) payload (settings ++ (record { id = id; value = value } ∷ []))

-- `i < len(payload)` holds at 0, 6, 12 and so on: ⌈len / 6⌉ rounds.
unfoldable pub parse_settings_frame : Header → Bytes → Result Frame
parse_settings_frame h payload =
    if not (length payload % 6 == 0) then err (payload_size type_settings) else do
      settings ← parse_settings ((length payload + 5) / 6) 0 payload []
      ok (settings_frame (record { frame_header = h; settings = settings }))
