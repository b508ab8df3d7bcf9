-- ===== src/Display/Shows.antt =====
-- cmd/mh2c/output_filter.go: what a frame filter shows.
use mh2c_go.Base.{
  ◌≡◌, refl, sym, ap, ◌∙◌, arith, ℕ, zero, suc, ◌==◌, Bool-cases, inl, inr, Bool, true, false, not,
  ◌||◌, [], ◌∷◌, if◌then◌else◌, none, Bytes, bytes_eq, bytes_eq_iff, ok,
}
use mh2c_go.Frame.{
  Frame, data_frame, headers_frame, priority_frame, rst_stream_frame, settings_frame,
  push_promise_frame, ping_frame, go_away_frame, window_update_frame, continuation_frame, raw_frame,
}
use mh2c_go.Script.Text.{Unicode}
use mh2c_go.Display.Filter.{
  Names, Filters, has_name, supported_names, frame_type_name, is_supported_frame_filter,
  build_frame_filter_set, should_display, should_display_direction,
}

-- Each name that `frameTypeName` gives is one that a filter may have.
frame_type_name_supported : (f : Frame) → is_supported_frame_filter (frame_type_name f) ≡ true
unfolding is_supported_frame_filter frame_type_name has_name bytes_eq
frame_type_name_supported (data_frame _) = refl
frame_type_name_supported (headers_frame _) = refl
frame_type_name_supported (priority_frame _) = refl
frame_type_name_supported (rst_stream_frame _) = refl
frame_type_name_supported (settings_frame _) = refl
frame_type_name_supported (push_promise_frame _) = refl
frame_type_name_supported (ping_frame _) = refl
frame_type_name_supported (go_away_frame _) = refl
frame_type_name_supported (window_update_frame _) = refl
frame_type_name_supported (continuation_frame _) = refl
frame_type_name_supported (raw_frame _) = refl

abbrev pub only : Names → Filters
only names = record { frame_filters = names; direction_filter = []; stream_filter = none }

exactly : (b : Bool) → (if not (b || false) then false else true) ≡ b
exactly true = refl
exactly false = refl

-- The number of a frame's type among the eleven, and that of a name among the supported ones.
abbrev pub kind : Frame → ℕ
kind (data_frame _) = 0
kind (headers_frame _) = 1
kind (priority_frame _) = 2
kind (rst_stream_frame _) = 3
kind (settings_frame _) = 4
kind (push_promise_frame _) = 5
kind (ping_frame _) = 6
kind (go_away_frame _) = 7
kind (window_update_frame _) = 8
kind (continuation_frame _) = 9
kind (raw_frame _) = 10

position : Bytes → Names → ℕ
position name [] = 0
position name (n ∷ ns) = let rest = position name ns in if bytes_eq name n then 0 else suc rest

name_at : ℕ → Names → Bytes
name_at i [] = []
name_at zero (n ∷ ns) = n
name_at (suc i) (n ∷ ns) = name_at i ns

-- The names tell the types apart.
position-frame_type_name : (f : Frame) → position (frame_type_name f) supported_names ≡ kind f
unfolding position frame_type_name bytes_eq
position-frame_type_name (data_frame _) = refl
position-frame_type_name (headers_frame _) = refl
position-frame_type_name (priority_frame _) = refl
position-frame_type_name (rst_stream_frame _) = refl
position-frame_type_name (settings_frame _) = refl
position-frame_type_name (push_promise_frame _) = refl
position-frame_type_name (ping_frame _) = refl
position-frame_type_name (go_away_frame _) = refl
position-frame_type_name (window_update_frame _) = refl
position-frame_type_name (continuation_frame _) = refl
position-frame_type_name (raw_frame _) = refl

name_at-kind : (f : Frame) → name_at (kind f) supported_names ≡ frame_type_name f
unfolding name_at frame_type_name
name_at-kind (data_frame _) = refl
name_at-kind (headers_frame _) = refl
name_at-kind (priority_frame _) = refl
name_at-kind (rst_stream_frame _) = refl
name_at-kind (settings_frame _) = refl
name_at-kind (push_promise_frame _) = refl
name_at-kind (ping_frame _) = refl
name_at-kind (go_away_frame _) = refl
name_at-kind (window_update_frame _) = refl
name_at-kind (continuation_frame _) = refl
name_at-kind (raw_frame _) = refl

same_name : (f g : Frame) → bytes_eq (frame_type_name g) (frame_type_name f) ≡ (kind g == kind f)
same_name f g = elim (Bool-cases (bytes_eq (frame_type_name g) (frame_type_name f))) [
  | inl same ↦
      let names : frame_type_name g ≡ frame_type_name f = (bytes_eq_iff _ _).0 same in
      let kinds : kind g ≡ kind f =
        sym (position-frame_type_name g)
        ∙ (ap (λ n. position n supported_names) names ∙ position-frame_type_name f) in
      ground (arith, same, kinds)
  | inr other ↦ elim (Bool-cases (kind g == kind f)) [
    | inr apart ↦ other ∙ sym apart
    | inl together ↦
        let kinds : kind g ≡ kind f = ground (arith, together) in
        let names : frame_type_name g ≡ frame_type_name f =
          sym (name_at-kind g) ∙ (ap (λ k. name_at k supported_names) kinds ∙ name_at-kind f) in
        let same : bytes_eq (frame_type_name g) (frame_type_name f) ≡ true =
          (bytes_eq_iff _ _).1 names in
        ground (arith, same, other)
  ]
]

-- A frame filter that names the type of one frame, where the library's trimming and lower case
-- leave that name as it is, is accepted; with it alone, exactly the frames of that type are shown,
-- in both directions.
pub build_frame_filter_set_lem :
    (U : Unicode) (f g : Frame) (direction : Bytes)
    → U.to_lower (U.trim_space (frame_type_name f)) ≡ frame_type_name f
    → (names : Names) × (build_frame_filter_set U (frame_type_name f ∷ []) ≡ ok names)
      × (should_display (only names) direction g ≡ (kind g == kind f))
unfolding build_frame_filter_set should_display should_display_direction has_name
build_frame_filter_set_lem U f g direction keeps = (
  frame_type_name f ∷ [],
  rw (keeps, frame_type_name_supported f) refl,
  exactly (bytes_eq (frame_type_name g) (frame_type_name f)) ∙ same_name f g,
)
