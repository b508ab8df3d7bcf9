-- ===== src/Config/Setup.antt =====
-- cmd/mh2c/output.go and request.go: what is made of a configuration before a session.
use mh2c_go.Base.{
  ℕ, ◌%◌, ◌^◌, Bool, not, ◌&&◌, ◌||◌, if◌then◌else◌, Option, none, some, Bytes, bytes_eq, codes,
  Result, ok, err, ◌>>=◌, not_together,
}
use mh2c_go.Capture.{CaptureManager, new_explicit_capture_manager, new_auto_capture_manager}
use mh2c_go.Script.Text.{Unicode}
use mh2c_go.Display.Filter.{Names, Filters, build_frame_filter_set, build_direction_filter_set}
use mh2c_go.Display.Controller.{Controller}
use mh2c_go.Display.Json.{JsonOptions}
use mh2c_go.Session.Request.{RequestConfig}
use mh2c_go.Config.{Config, is_empty}
use mh2c_go.Config.Endpoint.{Endpoint}

-- `uint32(…)`
abbrev pub as_uint32 : ℕ → ℕ
as_uint32 n = n % 2 ^ 32

abbrev filter_of : Config → Option ℕ
filter_of cfg = if cfg.has_stream_filter then some (as_uint32 cfg.stream_filter) else none

abbrev saves : Config → Bool
saves cfg = not (is_empty cfg.save_body) || not (is_empty cfg.save_headers)

-- The stream that is captured in the mode request.
abbrev target_stream : Config → ℕ
target_stream cfg =
    if cfg.has_stream_filter then as_uint32 cfg.stream_filter else as_uint32 cfg.stream_id

abbrev explicit_capture : Config → ℕ → CaptureManager
explicit_capture cfg stream = new_explicit_capture_manager stream cfg.save_body cfg.save_headers

unfoldable pub capture_of : Config → Option CaptureManager
capture_of cfg =
    if not (saves cfg)
    then none
    else if bytes_eq cfg.mode (codes "request")
    then some (explicit_capture cfg (target_stream cfg))
    else if not (bytes_eq cfg.mode (codes "observe"))
    then none
    else if cfg.has_stream_filter
    then some (explicit_capture cfg (as_uint32 cfg.stream_filter))
    else some (new_auto_capture_manager cfg.save_body cfg.save_headers)

-- The `outputController`: the part that stays, with the format and its options, and the capture.
pub record Setup : Type 0 where
  pub controller : Controller
  pub format : Bytes
  pub options : JsonOptions
  pub capture : Option CaptureManager

abbrev pub options_of : Config → JsonOptions
options_of cfg = record {
  data_format = cfg.data_format;
  data_limit = cfg.data_limit;
  show_header_block = cfg.show_header_block;
}

module _ (U : Unicode) where
  abbrev filters_of : Config → Names → Filters
  filters_of cfg names = record {
    frame_filters = names;
    direction_filter = build_direction_filter_set U cfg.direction_filters;
    stream_filter = filter_of cfg;
  }

  unfoldable pub new_output_controller : Config → Result Setup
  unfolding capture_of
  new_output_controller cfg = do
    names ← build_frame_filter_set U cfg.frame_filters
    ok (record {
      controller = record { filters = filters_of cfg names; decode_headers = cfg.decode_headers };
      format = cfg.output_format;
      options = options_of cfg;
      capture = capture_of cfg;
    })

-- `readRequestBody`, with `io.ReadAll(stdin)` and `os.ReadFile` as parameters.
unfoldable pub read_request_body : Result Bytes → (Bytes → Result Bytes) → Config → Result Bytes
read_request_body stdin read_file cfg =
    if not (is_empty cfg.body_data) && not (is_empty cfg.body_file)
    then err (not_together (codes "data") (codes "body-file"))
    else if is_empty cfg.body_file
    then ok cfg.body_data
    else if bytes_eq cfg.body_file (codes "-")
    then stdin
    else read_file cfg.body_file

-- What `buildRequestFields` reads of the endpoint and of the configuration.
abbrev pub request_config : Endpoint → Config → RequestConfig
request_config ep cfg = record {
  method = cfg.method;
  path = ep.path;
  scheme = ep.scheme;
  authority = ep.authority;
  headers = cfg.headers;
}
