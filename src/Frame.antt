-- ===== src/Frame.antt =====
-- frame/: the frame types, their flags, and the records of frame.go, data.go, headers.go,
-- priority.go, rst_stream.go, settings.go, push_promise.go, ping.go, goaway.go, window_update.go,
-- continuation.go and raw.go. The children hold the functions of each file.
pub mod Framing
pub mod Padding
pub mod Data
pub mod Headers
pub mod PushPromise
pub mod Settings
pub mod Control
pub mod Codec
pub mod Strings
pub mod Safety
pub mod RoundTrip
use mh2c_go.Base.{ℕ, Bool, not, ◌==◌, bit_and, Bytes, List, Option}

-- `Type` is a uint8.
abbrev pub type_data : ℕ
type_data = 0x0

abbrev pub type_headers : ℕ
type_headers = 0x1

abbrev pub type_priority : ℕ
type_priority = 0x2

abbrev pub type_rst_stream : ℕ
type_rst_stream = 0x3

abbrev pub type_settings : ℕ
type_settings = 0x4

abbrev pub type_push_promise : ℕ
type_push_promise = 0x5

abbrev pub type_ping : ℕ
type_ping = 0x6

abbrev pub type_go_away : ℕ
type_go_away = 0x7

abbrev pub type_window_update : ℕ
type_window_update = 0x8

abbrev pub type_continuation : ℕ
type_continuation = 0x9

-- The flags; several frame types share a bit.
abbrev pub flag_end_stream : ℕ
flag_end_stream = 0x1

abbrev pub flag_ack : ℕ
flag_ack = 0x1

abbrev pub flag_end_headers : ℕ
flag_end_headers = 0x4

abbrev pub flag_padded : ℕ
flag_padded = 0x8

abbrev pub flag_priority : ℕ
flag_priority = 0x20

-- `flags&flag != 0`
abbrev pub has_flag : ℕ → ℕ → Bool
has_flag flags flag = not (bit_and flags flag == 0)

pub record Header : Type 0 where
  pub length : ℕ
  pub type : ℕ
  pub flags : ℕ
  pub stream_id : ℕ

pub record DataFrame : Type 0 where
  pub frame_header : Header
  pub pad_length : ℕ
  pub content : Bytes

pub record PriorityParam : Type 0 where
  pub exclusive : Bool
  pub stream_dep : ℕ
  pub weight : ℕ

pub record HeadersFrame : Type 0 where
  pub frame_header : Header
  pub pad_length : ℕ
  pub priority : Option PriorityParam
  pub block_fragment : Bytes

pub record PriorityFrame : Type 0 where
  pub frame_header : Header
  pub exclusive : Bool
  pub stream_dep : ℕ
  pub weight : ℕ

pub record RstStreamFrame : Type 0 where
  pub frame_header : Header
  pub error_code : ℕ

pub record Setting : Type 0 where
  pub id : ℕ
  pub value : ℕ

pub record SettingsFrame : Type 0 where
  pub frame_header : Header
  pub settings : List Setting

pub record PushPromiseFrame : Type 0 where
  pub frame_header : Header
  pub pad_length : ℕ
  pub promised_stream_id : ℕ
  pub block_fragment : Bytes

-- `content` is an array of eight bytes.
pub record PingFrame : Type 0 where
  pub frame_header : Header
  pub content : Bytes

pub record GoAwayFrame : Type 0 where
  pub frame_header : Header
  pub last_stream_id : ℕ
  pub error_code : ℕ
  pub debug_data : Bytes

pub record WindowUpdateFrame : Type 0 where
  pub frame_header : Header
  pub increment : ℕ

pub record ContinuationFrame : Type 0 where
  pub frame_header : Header
  pub block_fragment : Bytes

pub record RawFrame : Type 0 where
  pub frame_header : Header
  pub raw_payload : Bytes

-- The values of the interface `Frame` that the package makes.
pub data Frame : Type 0 where
  data_frame : DataFrame → Frame
  headers_frame : HeadersFrame → Frame
  priority_frame : PriorityFrame → Frame
  rst_stream_frame : RstStreamFrame → Frame
  settings_frame : SettingsFrame → Frame
  push_promise_frame : PushPromiseFrame → Frame
  ping_frame : PingFrame → Frame
  go_away_frame : GoAwayFrame → Frame
  window_update_frame : WindowUpdateFrame → Frame
  continuation_frame : ContinuationFrame → Frame
  raw_frame : RawFrame → Frame
