-- ===== src/Display/Filter.antt =====
-- cmd/mh2c/output_filter.go
use mh2c_go.Base.{
  ℕ, Bool, true, false, not, ◌&&◌, ◌||◌, List, [], ◌∷◌, ◌==◌, if◌then◌else◌, length, Option, none,
  some, Bytes, bytes_eq, codes, Result, ok, err, ◌>>=◌, invalid_frame_filter,
  invalid_direction_filter,
}
use mh2c_go.Frame.{
  Frame, data_frame, headers_frame, priority_frame, rst_stream_frame, settings_frame,
  push_promise_frame, ping_frame, go_away_frame, window_update_frame, continuation_frame, raw_frame,
}
use mh2c_go.Frame.Codec.{header}
use mh2c_go.Script.Text.{Unicode}

-- A `map[string]bool` whose values are all true: its keys.
abbrev pub Names : Type 0
Names = List Bytes

unfoldable pub has_name : Bytes → Names → Bool
has_name name [] = false
has_name name (n ∷ ns) = bytes_eq name n || has_name name ns

unfoldable pub frame_type_name : Frame → Bytes
frame_type_name (data_frame _) = codes "data"
frame_type_name (headers_frame _) = codes "headers"
frame_type_name (priority_frame _) = codes "priority"
frame_type_name (rst_stream_frame _) = codes "rst_stream"
frame_type_name (settings_frame _) = codes "settings"
frame_type_name (push_promise_frame _) = codes "push_promise"
frame_type_name (ping_frame _) = codes "ping"
frame_type_name (go_away_frame _) = codes "goaway"
frame_type_name (window_update_frame _) = codes "window_update"
frame_type_name (continuation_frame _) = codes "continuation"
frame_type_name (raw_frame _) = codes "raw"

abbrev pub supported_names : Names
supported_names =
    codes "data"
    ∷ codes "headers"
    ∷ codes "priority"
    ∷ codes "rst_stream"
    ∷ codes "settings"
    ∷ codes "push_promise"
    ∷ codes "ping"
    ∷ codes "goaway"
    ∷ codes "window_update"
    ∷ codes "continuation"
    ∷ codes "raw"
    ∷ []

unfoldable pub is_supported_frame_filter : Bytes → Bool
unfolding has_name
is_supported_frame_filter name = has_name name supported_names

unfoldable pub is_supported_direction_filter : Bytes → Bool
is_supported_direction_filter name =
    bytes_eq name (codes "sent") || bytes_eq name (codes "received")

module _ (U : Unicode) where
  open U use {trim_space, to_lower}

  unfoldable pub build_frame_filter_set : List Bytes → Result Names
  unfolding is_supported_frame_filter
  build_frame_filter_set [] = ok []
  build_frame_filter_set (value ∷ rest) =
      let name = to_lower (trim_space value) in
      let filters = build_frame_filter_set rest in
      if not (is_supported_frame_filter name)
      then err (invalid_frame_filter value)
      else (filters >>= λ names. ok (name ∷ names))

  unfoldable pub build_direction_filter_set : List Bytes → Names
  build_direction_filter_set [] = []
  build_direction_filter_set (value ∷ rest) =
      to_lower (trim_space value) ∷ build_direction_filter_set rest

  unfoldable pub validate_direction_filters : List Bytes → Result (Unit {0})
  unfolding is_supported_direction_filter
  validate_direction_filters [] = ok tt
  validate_direction_filters (value ∷ rest) =
      let others = validate_direction_filters rest in
      if not (is_supported_direction_filter (to_lower (trim_space value)))
      then err (invalid_direction_filter value)
      else others

-- What of the controller decides whether a frame is shown; a nil filter is an empty one.
pub record Filters : Type 0 where
  pub frame_filters : Names
  pub direction_filter : Names
  pub stream_filter : Option ℕ

abbrev is_empty : Names → Bool
is_empty names = length names == 0

unfoldable pub should_display_direction : Filters → Bytes → Bool
should_display_direction c direction =
    if is_empty c.direction_filter then true else has_name direction c.direction_filter

-- `streamID != 0 && streamID != o.streamFilter`
abbrev other_stream : Option ℕ → ℕ → Bool
other_stream none id = false
other_stream (some wanted) id = not (id == 0) && not (id == wanted)

unfoldable pub should_display : Filters → Bytes → Frame → Bool
unfolding should_display_direction
should_display c direction f =
    if not (should_display_direction c direction)
    then false
    else if not (is_empty c.frame_filters) && not (has_name (frame_type_name f) c.frame_filters)
    then false
    else if other_stream c.stream_filter (header f).stream_id
    then false
    else true
