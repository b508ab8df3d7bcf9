-- ===== src/Config.antt =====
-- cmd/mh2c/config.go: the configuration, its defaults and its validation.
pub mod Flags
pub mod Arguments
pub mod Connection
pub mod Endpoint
pub mod Setup
pub mod Checked
pub mod Reached
use mh2c_go.Base.{
  ℕ, ◌*◌, ◌-◌, ◌^◌, Bool, true, false, not, ◌&&◌, ◌||◌, List, [], ltb, ◌==◌, if◌then◌else◌, length,
  Bytes, bytes_eq, codes, Result, ok, err, ◌>>=◌, ◌>>◌, stream_id_not_positive, max_table_overflow,
  port_out_of_range, invalid_output, invalid_data_format, save_unsupported,
}
use mh2c_go.Base.Int.{ℤ, pos}
use mh2c_go.Script.Text.{Unicode}
use mh2c_go.Display.Filter.{build_frame_filter_set, validate_direction_filters}

-- `config`; a uint is of 64 bits, and the duration is in nanoseconds.
pub record Config : Type 0 where
  pub mode : Bytes
  pub script_command : Bytes
  pub script_file : Bytes
  pub script_describe : Bytes
  pub script_template : Bytes
  pub raw_url : Bytes
  pub scheme : Bytes
  pub host : Bytes
  pub authority : Bytes
  pub path : Bytes
  pub method : Bytes
  pub body_data : Bytes
  pub body_file : Bytes
  pub ping_data : Bytes
  pub timeout : ℤ
  pub max_table : ℕ
  pub port : ℕ
  pub stream_id : ℕ
  pub max_recv : ℕ
  pub stream_filter : ℕ
  pub has_stream_filter : Bool
  pub insecure : Bool
  pub send_go_away : Bool
  pub output_format : Bytes
  pub data_format : Bytes
  pub data_limit : ℕ
  pub decode_headers : Bool
  pub show_header_block : Bool
  pub save_output : Bytes
  pub save_body : Bytes
  pub save_headers : Bytes
  pub headers : List Bytes
  pub frame_filters : List Bytes
  pub direction_filters : List Bytes

abbrev pub default_max_dynamic_table_size : ℕ
default_max_dynamic_table_size = 8192

abbrev pub default_config : Config
default_config = record {
  mode = codes "request";
  script_command = [];
  script_file = [];
  script_describe = [];
  script_template = [];
  raw_url = [];
  scheme = codes "https";
  host = codes "nghttp2.org";
  authority = [];
  path = codes "/httpbin/headers";
  method = codes "GET";
  body_data = [];
  body_file = [];
  ping_data = codes "mh2cping";
  timeout = pos 10_000_000_000;
  max_table = default_max_dynamic_table_size;
  port = 443;
  stream_id = 1;
  max_recv = 0;
  stream_filter = 0;
  has_stream_filter = false;
  insecure = false;
  send_go_away = true;
  output_format = codes "text";
  data_format = codes "both";
  data_limit = 0;
  decode_headers = true;
  show_header_block = true;
  save_output = [];
  save_body = [];
  save_headers = [];
  headers = [];
  frame_filters = [];
  direction_filters = [];
}

-- `optionalUintFlag`
pub record OptionalUint : Type 0 where
  pub value : ℕ
  pub is_set : Bool

unfoldable pub apply_stream_filter : Config → OptionalUint → Config
apply_stream_filter cfg f = record cfg { stream_filter = f.value; has_stream_filter = f.is_set }

abbrev pub is_empty : Bytes → Bool
is_empty text = length text == 0

abbrev pub is_format : Bytes → Bool
is_format f = bytes_eq f (codes "text") || bytes_eq f (codes "jsonl")

abbrev pub is_data_format : Bytes → Bool
is_data_format f =
    bytes_eq f (codes "text") || bytes_eq f (codes "hex") || bytes_eq f (codes "both")

abbrev pub saves_allowed : Config → Bool
saves_allowed cfg =
    (is_empty cfg.save_body && is_empty cfg.save_headers)
    || bytes_eq cfg.mode (codes "request")
    || bytes_eq cfg.mode (codes "observe")

abbrev pub check_saves : Config → Result Config
check_saves cfg = if not (saves_allowed cfg) then err save_unsupported else ok cfg

module _ (U : Unicode) where
  abbrev pub check_filters : Config → Result (Unit {0})
  check_filters cfg = build_frame_filter_set U cfg.frame_filters >>= λ _.
      validate_direction_filters U cfg.direction_filters

  -- The last tests of `validateExecutionConfig`.
  abbrev pub check_formats : Config → Result Config
  check_formats cfg =
      if not (is_format cfg.output_format)
      then err (invalid_output cfg.output_format)
      else if not (is_data_format cfg.data_format)
      then err (invalid_data_format cfg.data_format)
      else (check_filters cfg >>= λ _. check_saves cfg)

  unfoldable pub validate_execution_config : Config → Result Config
  validate_execution_config cfg =
      if cfg.stream_id == 0
      then err stream_id_not_positive
      else if ltb (2 ^ 32 - 1) cfg.max_table
      then err (max_table_overflow cfg.max_table)
      else if ltb 65535 cfg.port
      then err (port_out_of_range cfg.port)
      else check_formats cfg
