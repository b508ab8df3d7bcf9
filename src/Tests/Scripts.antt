-- ===== src/Tests/Scripts.antt =====
-- Scripts at concrete inputs, with the tables of ASCII for the Unicode ones.
use mh2c_go.Base.{
  ℕ, ◌+◌, ◌-◌, ◌≡◌, refl, arith, true, ◌&&◌, [], ◌∷◌, leb, ◌==◌, if◌then◌else◌, none, some, Bytes,
  bytes_eq, codes, ok, err, stream_id_overflow,
}
use mh2c_go.Base.Int.{pos, negsuc}
use mh2c_go.Script.Pause.{parse_sleep_duration_lem, parse_sleep_duration_wraps}
use mh2c_go.Script.Repeat.{parse_sleep_duration}
use mh2c_go.Script.Values.{int_value}
use mh2c_go.Frame.{settings_frame}
use mh2c_go.Frame.Settings.{new_settings_frame}
use mh2c_go.Script.Values.{
  ScriptTable, script_string, script_number, script_string_list, string_list_value, require_string,
  require_uint32,
}
use mh2c_go.Script.Text.{
  Unicode, parse_uint, parse_hex_bytes, cut, digit, base_of, uint_digits, underscore_ok,
  underscores_between,
}
use mh2c_go.Script.Fields.{
  parse_script_settings, parse_setting_id, parse_flags, join_flags, flag_of,
}
use mh2c_go.Script.Build.{build_script_frame, build_case, build_settings}
use mh2c_go.Script.Repeat.{ActionRepeat, action_for_repeat_iteration}
use mh2c_go.Script.Framed.{Keeps, IsFramed, build_script_frame-IsFramed}
use mh2c_go.Script.Numbers.{no_text, space, tab, other, parse_hex_bytes-encode_hex}
use mh2c_go.Script.Iterations.{
  action_for_repeat_iteration_lem, action_for_repeat_iteration_overflow,
}
use mh2c_go.Tests.Clients.{client}

abbrev pub skip_blanks : Bytes → Bytes
skip_blanks [] = []
skip_blanks (b ∷ bs) = if b == 32 then skip_blanks bs else b ∷ bs

abbrev pub upper : Bytes → Bytes
upper [] = []
upper (b ∷ bs) = (if leb 97 b && leb b 122 then b - 32 else b) ∷ upper bs

abbrev pub lower_all : Bytes → Bytes
lower_all [] = []
lower_all (b ∷ bs) = (if leb 65 b && leb b 90 then b + 32 else b) ∷ lower_all bs

abbrev pub ascii : Unicode
ascii = record { trim_space = skip_blanks; to_upper = upper; to_lower = lower_all }

-- Runs of the readers.
hexadecimal : parse_uint 0xffff (codes "0xFF") ≡ ok 255
unfolding parse_uint base_of uint_digits digit underscore_ok
hexadecimal = refl

settings_entries :
    parse_script_settings ascii (codes "enable_push=0" ∷ codes "0x7= 1_0" ∷ [])
    ≡ ok (record { id = 2; value = 0 } ∷ record { id = 7; value = 10 } ∷ [])
unfolding parse_script_settings parse_setting_id cut parse_uint base_of uint_digits digit bytes_eq
    underscore_ok underscores_between
settings_entries = refl

parse_hex_bytes-encode_hex_example : parse_hex_bytes (codes "0 a\tf0") ≡ ok (10 ∷ 240 ∷ [])
parse_hex_bytes-encode_hex_example =
    parse_hex_bytes-encode_hex (codes "0 a\tf0") (10 ∷ 240 ∷ []) (omega arith, (omega arith, tt))
      (other 48 (omega arith) (omega arith) (
        space (
          other 97 (omega arith) (omega arith) (
            tab (
              other 102 (omega arith) (omega arith)
                (other 48 (omega arith) (omega arith) no_text))))))

-- An action with a stream identifier, and one that builds SETTINGS with ACK.
abbrev no_keys : ScriptTable
no_keys = λ k. none

abbrev on_stream : ℕ → ScriptTable
on_stream n = λ k. if bytes_eq k (codes "stream_id") then some (script_number (pos n)) else none

abbrev by_two : ActionRepeat
by_two = record { count = 3; stream_id_step = 2; has_stream_id_step = true }

on_stream_three : require_uint32 (on_stream 3) (codes "stream_id") ≡ ok 3
unfolding require_uint32 bytes_eq
on_stream_three = refl

action_for_repeat_iteration_lem_example :
    (out : ScriptTable) × (action_for_repeat_iteration (on_stream 3) by_two 2 ≡ ok out)
    × (require_uint32 out (codes "stream_id") ≡ ok 7)
    × (out (codes "type") ≡ on_stream 3 (codes "type"))
action_for_repeat_iteration_lem_example =
    action_for_repeat_iteration_lem (on_stream 3) by_two 3 2 (codes "type") refl on_stream_three
      (omega arith) (λ e. cc)

on_stream_last : require_uint32 (on_stream 0xffff_fffe) (codes "stream_id") ≡ ok 0xffff_fffe
unfolding require_uint32 bytes_eq
on_stream_last = refl

action_for_repeat_iteration_overflow_example :
    action_for_repeat_iteration (on_stream 0xffff_fffe) by_two 1 ≡ err stream_id_overflow
action_for_repeat_iteration_overflow_example =
    action_for_repeat_iteration_overflow (on_stream 0xffff_fffe) by_two 0xffff_fffe 0 refl
      (omega arith) on_stream_last (omega arith) (omega arith)

abbrev pub ack_action : ScriptTable
ack_action = λ k.
    if bytes_eq k (codes "type")
    then some (script_string (codes "settings"))
    else if bytes_eq k (codes "flags")
    then some (script_string_list (codes "ack" ∷ []))
    else none

ack_built :
    build_script_frame ascii ack_action client
    ≡ (client, ok (settings_frame (new_settings_frame 1 [])))
unfolding build_script_frame build_case build_settings require_string string_list_value parse_flags
    join_flags flag_of bytes_eq parse_script_settings
ack_built = refl

build_script_frame-IsFramed_example :
    Keeps client client × IsFramed (settings_frame (new_settings_frame 1 []))
build_script_frame-IsFramed_example =
    build_script_frame-IsFramed ascii ack_action client client
      (settings_frame (new_settings_frame 1 [])) ack_built

-- Pauses of a second, and of 9,223,372,036,855 milliseconds.
abbrev pause : ℕ → ScriptTable
pause n = λ k. if bytes_eq k (codes "duration_ms") then some (script_number (pos n)) else none

pause_read : int_value (pause 1000) (codes "duration_ms") ≡ ok (some (pos 1000))
unfolding int_value bytes_eq
pause_read = refl

long_pause_read :
    int_value (pause 9_223_372_036_855) (codes "duration_ms") ≡ ok (some (pos 9_223_372_036_855))
unfolding int_value bytes_eq
long_pause_read = refl

parse_sleep_duration_lem_example : parse_sleep_duration (pause 1000) ≡ ok (pos 1_000_000_000)
parse_sleep_duration_lem_example =
    parse_sleep_duration_lem (pause 1000) 999 pause_read (omega arith)

parse_sleep_duration_wraps_example :
    parse_sleep_duration (pause 9_223_372_036_855) ≡ ok (negsuc 9_223_372_036_854_551_615)
parse_sleep_duration_wraps_example =
    parse_sleep_duration_wraps (pause 9_223_372_036_855) 9_223_372_036_854 long_pause_read
      (omega arith) (omega arith)
