-- ===== src/Tests/Runs.antt =====
-- Runs of the program at concrete arguments, and over the connection in memory.
use mh2c_go.Base.{
  List, [], ◌∷◌, ◌++◌, Bytes, bytes_eq, codes, ok, err, eof, Result, ◌≡◌, refl, true,
}
use mh2c_go.Base.Int.{ℤ}
use mh2c_go.Frame.{ping_frame}
use mh2c_go.Session.Exchange.{frame_bytes}
use mh2c_go.Session.Observe.{wire}
use mh2c_go.Script.Values.{ScriptTable}
use mh2c_go.Script.Text.{cut}
use mh2c_go.Script.Parser.{RawScript}
use mh2c_go.Display.Filter.{build_frame_filter_set, validate_direction_filters}
use mh2c_go.Config.{Config, default_config, apply_stream_filter, validate_execution_config}
use mh2c_go.Config.Flags.{find_flag, read_argument, parse_arguments}
use mh2c_go.Config.Arguments.{parse_execution, parse_ping_config, parse_config}
use mh2c_go.Config.Checked.{Checked, parse_config-Checked}
use mh2c_go.Config.Endpoint.{Endpoint, Url, endpoint_of_parts, resolve_endpoint}
use mh2c_go.Main.Prepare.{connects, task_of, after_parse, prepare}
use mh2c_go.Main.Prepared.{Ready, prepare-Ready}
use mh2c_go.Tests.Scripts.{ascii}
use mh2c_go.Tests.Clients.{table_settings, Pipe}
use mh2c_go.Tests.Sessions.{answer}

abbrev pub no_duration : Bytes → Result ℤ
no_duration text = err eof

abbrev pub no_url : Bytes → Result Url
no_url text = err eof

abbrev pub no_toml : Bytes → Result RawScript
no_toml text = err eof

abbrev pub no_file : Bytes → Result Bytes
no_file path = err eof

abbrev pub no_order : ScriptTable → List Bytes
no_order t = []

abbrev pub ping_args : List Bytes
ping_args = codes "ping" ∷ codes "--host" ∷ codes "example.org" ∷ codes "-insecure" ∷ []

abbrev pub ping_config : Config
ping_config = record default_config {
  mode = codes "ping";
  host = codes "example.org";
  insecure = true;
}

abbrev pub example_org : Endpoint
example_org = record {
  scheme = codes "https";
  host = codes "example.org";
  authority = codes "example.org";
  path = codes "/httpbin/headers";
  port = 443;
}

ping_args_parsed : parse_config ascii no_duration ping_args ≡ ok ping_config
unfolding parse_config parse_ping_config parse_execution parse_arguments read_argument find_flag
    validate_execution_config apply_stream_filter build_frame_filter_set validate_direction_filters
    bytes_eq cut
ping_args_parsed = refl

parse_config-Checked_example : Checked ping_config
unfolding bytes_eq
parse_config-Checked_example =
    parse_config-Checked ascii no_duration ping_args ping_config refl ping_args_parsed

pub ping_args_prepared :
    prepare ascii no_order no_duration no_url no_toml no_file ping_args
    ≡ ok (connects ping_config example_org [])
unfolding prepare parse_config parse_ping_config parse_execution parse_arguments read_argument
    find_flag validate_execution_config apply_stream_filter build_frame_filter_set
    validate_direction_filters bytes_eq cut after_parse task_of resolve_endpoint endpoint_of_parts
ping_args_prepared = refl

prepare-Ready_example : Ready ascii no_order ping_config example_org []
unfolding bytes_eq
prepare-Ready_example =
    prepare-Ready ascii no_order no_duration no_url no_toml no_file ping_args ping_config
      example_org [] refl ping_args_prepared

abbrev pub answered_config : Config
answered_config = record ping_config { ping_data = answer.content }

-- SETTINGS waits, then SETTINGS once more, the answer, and one more byte.
abbrev pub answering : Pipe
answering = record {
  incoming =
      frame_bytes table_settings
      ++ (wire (table_settings ∷ []) ++ (frame_bytes (ping_frame answer) ++ (7 ∷ [])));
  outgoing = 9 ∷ [];
}
