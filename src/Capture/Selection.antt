-- ===== src/Capture/Selection.antt =====
-- cmd/mh2c/output_capture.go: which stream an automatic capture selects.
use mh2c_go.Base.{
  ℕ, ◌≡◌, refl, sym, ap, ◌∙◌, arith, false, ◌&&◌, List, [], ◌∷◌, ◌++◌, append-nil, append_assoc,
  ltb, ◌==◌, if◌then◌else◌, length, some, Bytes,
}
use mh2c_go.Frame.{Frame, data_frame, flag_end_stream, has_flag}
use mh2c_go.Client.Tracker.{FrameEvent}
use mh2c_go.Capture.{
  CaptureManager, new_auto_capture_manager, select_stream, finish_stream, record_headers,
  record_data, capture_block, capture_frame, capture_received,
}
use mh2c_go.Capture.Streams.{capture_all}

-- The streams that an event ends, in the order in which the controller comes to them.
abbrev ended_by_block : FrameEvent → List ℕ
ended_by_block e =
    if e.header_block_complete && (ltb 0 (length e.headers) && e.header_block_end_stream)
    then e.header_block_stream_id ∷ []
    else []

abbrev ended_by_data : Frame → List ℕ
ended_by_data (data_frame f) =
    if has_flag f.frame_header.flags flag_end_stream then f.frame_header.stream_id ∷ [] else []
ended_by_data _ = []

abbrev pub all_ended : List FrameEvent → List ℕ
all_ended [] = []
all_ended (e ∷ es) = ended_by_block e ++ (ended_by_data e.frame ++ all_ended es)

-- The first of some streams that is not 0, or 0.
abbrev pub first_stream : List ℕ → ℕ
first_stream [] = 0
first_stream (id ∷ ids) = if id == 0 then first_stream ids else id

-- The selection so far, or else the first of these.
abbrev or_first : ℕ → List ℕ → ℕ
or_first s ids = if s == 0 then first_stream ids else s

abbrev IsAuto : CaptureManager → List ℕ → CaptureManager → Type 0
IsAuto m ids m' =
    (m'.explicit_stream ≡ false)
    × ((rest : List ℕ)
        → or_first m'.selected_stream rest ≡ or_first m.selected_stream (ids ++ rest))

capture_block-IsAuto :
    (e : FrameEvent) (m : CaptureManager)
    → m.explicit_stream ≡ false
    → IsAuto m (ended_by_block e) (capture_block e m)
unfolding capture_block record_headers finish_stream select_stream
capture_block-IsAuto e m auto = (ground arith, λ rest. ground arith)

capture_frame-IsAuto :
    (f : Frame) (m : CaptureManager)
    → m.explicit_stream ≡ false
    → IsAuto m (ended_by_data f) (capture_frame f m)
unfolding capture_frame record_data finish_stream select_stream
capture_frame-IsAuto (data_frame f) m auto = (ground arith, λ rest. ground arith)
capture_frame-IsAuto _ m auto = (auto, λ rest. refl)

capture_all-IsAuto :
    (es : List FrameEvent) (m : CaptureManager)
    → m.explicit_stream ≡ false
    → (m' : CaptureManager) × (capture_all es (some m) ≡ some m') × IsAuto m (all_ended es) m'
unfolding capture_received
capture_all-IsAuto [] m auto = (m, refl, (auto, λ rest. refl))
capture_all-IsAuto (e ∷ es) m auto =
    let (auto₁, first₁) = capture_block-IsAuto e m auto in
    let (auto₂, first₂) = capture_frame-IsAuto e.frame (capture_block e m) auto₁ in
    let (m', runs, (auto₃, first₃)) =
      capture_all-IsAuto es (capture_frame e.frame (capture_block e m)) auto₂ in
    (
      m',
      runs,
      (
        auto₃,
        λ rest.
            first₃ rest
            ∙ (first₂ (all_ended es ++ rest)
                ∙ (first₁ (ended_by_data e.frame ++ (all_ended es ++ rest))
                    ∙ ap (or_first m.selected_stream) (regroup rest))),
      ),
    )
  where
    regroup :
        (rest : List ℕ)
        → ended_by_block e ++ (ended_by_data e.frame ++ (all_ended es ++ rest))
          ≡ all_ended (e ∷ es) ++ rest
    regroup rest =
        ap (λ t. ended_by_block e ++ t)
          (sym (append_assoc (ended_by_data e.frame) (all_ended es) rest))
        ∙ sym (append_assoc (ended_by_block e) (ended_by_data e.frame ++ all_ended es) rest)

or_first_none : (s : ℕ) → or_first s [] ≡ s
or_first_none s = ground arith

-- A manager that selects on its own has selected, behind any events, the first stream other than 0
-- that a recorded header block or a DATA frame ended, and stream 0, for none, where there is none.
pub capture_all_selects :
    (body_path headers_path : Bytes) (es : List FrameEvent)
    → (m' : CaptureManager) × (capture_all es
          (some (new_auto_capture_manager body_path headers_path))
        ≡ some m')
      × (m'.selected_stream ≡ first_stream (all_ended es))
unfolding new_auto_capture_manager
capture_all_selects body_path headers_path es =
    let m = new_auto_capture_manager body_path headers_path in
    let (m', runs, (_, first)) = capture_all-IsAuto es m refl in
    (
      m',
      runs,
      sym (or_first_none m'.selected_stream)
          ∙ (first [] ∙ ap first_stream (append-nil (all_ended es))),
    )
