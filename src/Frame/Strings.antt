-- ===== src/Frame/Strings.antt =====
-- frame/: the `String` methods, and the verbs of fmt that they use.
use mh2c_go.Base.{
  ℕ, zero, suc, ◌+◌, ◌/◌, ◌%◌, Bool, true, false, List, [], ◌∷◌, ◌++◌, ltb, ◌==◌, if◌then◌else◌,
  length, Option, none, some, Bytes, codes,
}
use mh2c_go.Frame.{
  DataFrame, HeadersFrame, PriorityFrame, RstStreamFrame, SettingsFrame, PushPromiseFrame,
  PingFrame, GoAwayFrame, WindowUpdateFrame, ContinuationFrame, RawFrame, Header, Setting,
  PriorityParam, Frame, data_frame, headers_frame, priority_frame, rst_stream_frame, settings_frame,
  push_promise_frame, ping_frame, go_away_frame, window_update_frame, continuation_frame, raw_frame,
  type_data, type_headers, type_priority, type_rst_stream, type_settings, type_push_promise,
  type_ping, type_go_away, type_window_update, type_continuation, flag_ack, flag_end_stream,
  flag_end_headers, flag_priority, has_flag,
}
use mh2c_go.Frame.Codec.{display_header}
use mh2c_go.Frame.Settings.{
  setting_header_table_size, setting_enable_push, setting_max_concurrent_streams,
  setting_initial_window_size, setting_max_frame_size, setting_max_header_list_size,
}

-- The decimal digits of a number, from a bound on how many there are.
unfoldable pub decimal : ℕ → ℕ → Bytes
decimal zero n = []
decimal (suc fuel) n =
    let front = decimal fuel (n / 10) in
    if ltb n 10 then (48 + n) ∷ [] else front ++ ((48 + n % 10) ∷ [])

-- `%d` of an unsigned number.
unfoldable pub number_text : ℕ → Bytes
unfolding decimal
number_text n = decimal (suc n) n

abbrev pub hex_char : ℕ → ℕ
hex_char n = if ltb n 10 then 48 + n else 87 + n

-- `%0wx` of a number that has at most w hexadecimal digits.
abbrev pub hex_digits : ℕ → ℕ → Bytes
hex_digits zero n = []
hex_digits (suc w) n = hex_digits w (n / 16) ++ (hex_char (n % 16) ∷ [])

-- `hex.EncodeToString`, and `%x` of an array of bytes.
abbrev pub encode_hex : Bytes → Bytes
encode_hex [] = []
encode_hex (b ∷ bs) = hex_char (b / 16) ∷ hex_char (b % 16) ∷ encode_hex bs

-- `%t`
abbrev pub bool_text : Bool → Bytes
bool_text true = codes "true"
bool_text false = codes "false"

-- `Type.String`
unfoldable pub type_text : ℕ → Bytes
type_text t =
    if t == type_data
    then codes "DATA"
    else if t == type_headers
    then codes "HEADERS"
    else if t == type_priority
    then codes "PRIORITY"
    else if t == type_rst_stream
    then codes "RST_STREAM"
    else if t == type_settings
    then codes "SETTINGS"
    else if t == type_push_promise
    then codes "PUSH_PROMISE"
    else if t == type_ping
    then codes "PING"
    else if t == type_go_away
    then codes "GOAWAY"
    else if t == type_window_update
    then codes "WINDOW_UPDATE"
    else if t == type_continuation
    then codes "CONTINUATION"
    else codes "UNKNOWN"

-- `Header.String`
unfoldable pub header_text : Header → Bytes
unfolding type_text
header_text h =
    codes "stream="
    ++ number_text h.stream_id
    ++ codes " len="
    ++ number_text h.length
    ++ codes " type="
    ++ type_text h.type
    ++ codes "(0x"
    ++ hex_digits 2 h.type
    ++ codes ") flags=0x"
    ++ hex_digits 2 h.flags

-- `ErrorCode.String`
unfoldable pub error_code_text : ℕ → Bytes
error_code_text c = if c == 0 then codes "NO_ERROR(0x00000000)" else codes "0x" ++ hex_digits 8 c

-- `SettingID.String`
unfoldable pub setting_id_text : ℕ → Bytes
setting_id_text id =
    if id == setting_header_table_size
    then codes "HEADER_TABLE_SIZE"
    else if id == setting_enable_push
    then codes "ENABLE_PUSH"
    else if id == setting_max_concurrent_streams
    then codes "MAX_CONCURRENT_STREAMS"
    else if id == setting_initial_window_size
    then codes "INITIAL_WINDOW_SIZE"
    else if id == setting_max_frame_size
    then codes "MAX_FRAME_SIZE"
    else if id == setting_max_header_list_size
    then codes "MAX_HEADER_LIST_SIZE"
    else codes "0x" ++ hex_digits 4 id

abbrev pub setting_text : Setting → Bytes
setting_text s = setting_id_text s.id ++ codes "=" ++ number_text s.value

-- `strings.Join(settings, " ")`
abbrev pub settings_text : List Setting → Bytes
settings_text [] = []
settings_text (s ∷ []) = setting_text s
settings_text (s ∷ t ∷ ts) = setting_text s ++ codes " " ++ settings_text (t ∷ ts)

abbrev pub priority_text : Option PriorityParam → Bool → Bytes
priority_text (some p) _ =
    codes "dep="
    ++ number_text p.stream_dep
    ++ codes " exclusive="
    ++ bool_text p.exclusive
    ++ codes " weight="
    ++ number_text p.weight
priority_text none true = codes "present=<nil>"
priority_text none false = codes "none"

abbrev has : Header → ℕ → Bytes
has h flag = bool_text (has_flag h.flags flag)

-- `String()` of each frame type; a raw frame shows its header as it is.
unfoldable pub data_frame_text : DataFrame → Bytes
unfolding header_text
data_frame_text f =
    codes "DATA "
    ++ header_text (display_header (data_frame f))
    ++ codes " end_stream="
    ++ has f.frame_header flag_end_stream
    ++ codes " data_bytes="
    ++ number_text (length f.content)
    ++ codes " pad="
    ++ number_text f.pad_length

unfoldable pub headers_frame_text : HeadersFrame → Bytes
unfolding header_text
headers_frame_text f =
    codes "HEADERS "
    ++ header_text (display_header (headers_frame f))
    ++ codes " end_stream="
    ++ has f.frame_header flag_end_stream
    ++ codes " end_headers="
    ++ has f.frame_header flag_end_headers
    ++ codes " header_block_fragment_bytes="
    ++ number_text (length f.block_fragment)
    ++ codes " pad="
    ++ number_text f.pad_length
    ++ codes " priority="
    ++ priority_text f.priority (has_flag f.frame_header.flags flag_priority)

unfoldable pub priority_frame_text : PriorityFrame → Bytes
unfolding header_text
priority_frame_text f =
    codes "PRIORITY "
    ++ header_text (display_header (priority_frame f))
    ++ codes " dep="
    ++ number_text f.stream_dep
    ++ codes " exclusive="
    ++ bool_text f.exclusive
    ++ codes " weight="
    ++ number_text f.weight

unfoldable pub rst_stream_frame_text : RstStreamFrame → Bytes
unfolding header_text error_code_text
rst_stream_frame_text f =
    codes "RST_STREAM "
    ++ header_text (display_header (rst_stream_frame f))
    ++ codes " error="
    ++ error_code_text f.error_code

unfoldable pub settings_frame_text : SettingsFrame → Bytes
unfolding header_text
settings_frame_text f =
    codes "SETTINGS "
    ++ header_text (display_header (settings_frame f))
    ++ codes " ack="
    ++ has f.frame_header flag_ack
    ++ codes " settings=["
    ++ settings_text f.settings
    ++ codes "]"

unfoldable pub push_promise_frame_text : PushPromiseFrame → Bytes
unfolding header_text
push_promise_frame_text f =
    codes "PUSH_PROMISE "
    ++ header_text (display_header (push_promise_frame f))
    ++ codes " end_headers="
    ++ has f.frame_header flag_end_headers
    ++ codes " promised="
    ++ number_text f.promised_stream_id
    ++ codes " header_block_fragment_bytes="
    ++ number_text (length f.block_fragment)
    ++ codes " pad="
    ++ number_text f.pad_length

unfoldable pub ping_frame_text : PingFrame → Bytes
unfolding header_text
ping_frame_text f =
    codes "PING "
    ++ header_text (display_header (ping_frame f))
    ++ codes " ack="
    ++ has f.frame_header flag_ack
    ++ codes " data="
    ++ encode_hex f.content

unfoldable pub go_away_frame_text : GoAwayFrame → Bytes
unfolding header_text error_code_text
go_away_frame_text f =
    codes "GOAWAY "
    ++ header_text (display_header (go_away_frame f))
    ++ codes " last_stream="
    ++ number_text f.last_stream_id
    ++ codes " error="
    ++ error_code_text f.error_code
    ++ codes " debug="
    ++ number_text (length f.debug_data)

unfoldable pub window_update_frame_text : WindowUpdateFrame → Bytes
unfolding header_text
window_update_frame_text f =
    codes "WINDOW_UPDATE "
    ++ header_text (display_header (window_update_frame f))
    ++ codes " increment="
    ++ number_text f.increment

unfoldable pub continuation_frame_text : ContinuationFrame → Bytes
unfolding header_text
continuation_frame_text f =
    codes "CONTINUATION "
    ++ header_text (display_header (continuation_frame f))
    ++ codes " end_headers="
    ++ has f.frame_header flag_end_headers
    ++ codes " header_block_fragment_bytes="
    ++ number_text (length f.block_fragment)

unfoldable pub raw_frame_text : RawFrame → Bytes
unfolding header_text
raw_frame_text f =
    codes "RAW "
    ++ header_text f.frame_header
    ++ codes " payload="
    ++ number_text (length f.raw_payload)

-- `Summary` of internal/framefmt/text.go, where every frame has a `String` method.
unfoldable pub frame_text : Frame → Bytes
unfolding data_frame_text headers_frame_text priority_frame_text rst_stream_frame_text
    settings_frame_text push_promise_frame_text ping_frame_text go_away_frame_text
    window_update_frame_text continuation_frame_text raw_frame_text
frame_text (data_frame f) = data_frame_text f
frame_text (headers_frame f) = headers_frame_text f
frame_text (priority_frame f) = priority_frame_text f
frame_text (rst_stream_frame f) = rst_stream_frame_text f
frame_text (settings_frame f) = settings_frame_text f
frame_text (push_promise_frame f) = push_promise_frame_text f
frame_text (ping_frame f) = ping_frame_text f
frame_text (go_away_frame f) = go_away_frame_text f
frame_text (window_update_frame f) = window_update_frame_text f
frame_text (continuation_frame f) = continuation_frame_text f
frame_text (raw_frame f) = raw_frame_text f
