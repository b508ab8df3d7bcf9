-- ===== src/Tests/Captures.antt =====
-- Captures and filters at concrete inputs.
use mh2c_go.Base.{ℕ, ◌≡◌, refl, true, List, [], ◌∷◌, some, Bytes, ok, codes}
use mh2c_go.Frame.{Frame, data_frame}
use mh2c_go.Client.Tracker.{FrameEvent, plain_event}
use mh2c_go.Capture.{CaptureManager, new_auto_capture_manager, stream_at}
use mh2c_go.Capture.Streams.{capture_all, extend, capture_all_lem}
use mh2c_go.Capture.Selection.{capture_all_selects}
use mh2c_go.Display.Filter.{Names, frame_type_name, build_frame_filter_set, should_display}
use mh2c_go.Display.Shows.{only, build_frame_filter_set_lem}
use mh2c_go.Tests.Scripts.{ascii}

abbrev data_on : ℕ → ℕ → Bytes → Frame
data_on stream_id flags content = data_frame (record {
  frame_header = record { length = 2; type = 0; flags = flags; stream_id = stream_id };
  pad_length = 0;
  content = content;
})

-- DATA on stream 3, then on stream 5, which ends, then on stream 3, which ends.
abbrev events : List FrameEvent
events =
    plain_event (data_on 3 0 (1 ∷ 2 ∷ []))
    ∷ plain_event (data_on 5 1 (9 ∷ 9 ∷ []))
    ∷ plain_event (data_on 3 1 (3 ∷ 4 ∷ []))
    ∷ []

abbrev automatic : CaptureManager
automatic = new_auto_capture_manager (codes "body") []

capture_all_lem_example :
    (m' : CaptureManager) × (capture_all events (some automatic) ≡ some m')
    × (stream_at m' 3 ≡ extend (stream_at automatic 3) [] (1 ∷ 2 ∷ 3 ∷ 4 ∷ []) true)
capture_all_lem_example = capture_all_lem 3 events automatic

capture_all_selects_example :
    (m' : CaptureManager) × (capture_all events (some automatic) ≡ some m')
    × (m'.selected_stream ≡ 5)
capture_all_selects_example = capture_all_selects (codes "body") [] events

data_name_kept :
    ascii.to_lower (ascii.trim_space (frame_type_name (data_on 3 0 [])))
    ≡ frame_type_name (data_on 3 0 [])
unfolding frame_type_name
data_name_kept = refl

build_frame_filter_set_lem_example :
    (names : Names) × (build_frame_filter_set ascii (frame_type_name (data_on 3 0 []) ∷ [])
      ≡ ok names)
    × (should_display (only names) (codes "sent") (data_on 5 1 []) ≡ true)
build_frame_filter_set_lem_example =
    build_frame_filter_set_lem ascii (data_on 3 0 []) (data_on 5 1 []) (codes "sent") data_name_kept
