-- ===== src/Display/Controller.antt =====
-- cmd/mh2c/output.go: the output controller, which the session loops use as their output.
use mh2c_go.Base.{
  Bool, true, false, not, ◌||◌, List, [], ◌∷◌, ◌++◌, if◌then◌else◌, Option, none, some, Bytes,
  codes, Error, err,
}
use mh2c_go.Base.Int.{ℤ}
use mh2c_go.Base.State.{M, pure}
use mh2c_go.Frame.{Frame}
use mh2c_go.Hpack.{HeaderField}
use mh2c_go.Client.Tracker.{FrameEvent}
use mh2c_go.Capture.{CaptureManager, capture_received, flush}
use mh2c_go.Session.{Output}
use mh2c_go.Display.Filter.{Filters, should_display_direction, should_display}

-- The printing of output_text.go and output_json.go is a parameter: a notice, or a frame with its
-- direction, its headers and its warnings, is formatted and written. `skipped_text` is the text
-- "sent header decode skipped: …" of an error, and `duration_text` is `Duration.String`.
pub record Writer : Type 1 where
  pub State : Type 0
  pub duration_text : ℤ → Bytes
  pub skipped_text : Error → Bytes
  pub write_notice : Bytes → Bytes → Bytes → M State (Unit {0})
  pub write_frame : Bytes → Frame → List HeaderField → List Bytes → M State (Unit {0})

-- The parts of `outputController` that do not change.
pub record Controller : Type 0 where
  pub filters : Filters
  pub decode_headers : Bool

module _ (W : Writer) (c : Controller) where
  -- What changes: the capture and the writer.
  pub record Shown : Type 0 where
    pub capture : Option CaptureManager
    pub written : W.State

  abbrev pub on_writer : M W.State (Unit {0}) → M Shown (Unit {0})
  on_writer m s = (record s { written = (m s.written).0 }, (m s.written).1)

  abbrev pub show_if : Bool → M W.State (Unit {0}) → M Shown (Unit {0})
  show_if true m = on_writer m
  show_if false m = pure tt

  unfoldable pub print_notice : Bytes → Bytes → Bytes → M Shown (Unit {0})
  print_notice direction kind summary =
      show_if (should_display_direction c.filters direction) (W.write_notice direction kind summary)

  abbrev skipped : Option Error → List Bytes
  skipped none = []
  skipped (some why) = W.skipped_text why ∷ []

  unfoldable pub sent_headers : FrameEvent → List HeaderField × List Bytes
  sent_headers e =
      if not c.decode_headers then ([], []) else (e.headers, e.warnings ++ skipped e.decode_error)

  unfoldable pub received_headers : FrameEvent → List HeaderField × List Bytes
  received_headers e = if not c.decode_headers then ([], []) else (e.headers, e.warnings)

  unfoldable pub handle_sent : FrameEvent → M Shown (Unit {0})
  unfolding sent_headers
  handle_sent e =
      show_if (should_display c.filters (codes "sent") e.frame)
        (W.write_frame (codes "sent") e.frame (sent_headers e).0 (sent_headers e).1)

  unfoldable pub show_received : FrameEvent → M Shown (Unit {0})
  unfolding received_headers
  show_received e s =
      show_if (should_display c.filters (codes "received") e.frame)
        (W.write_frame (codes "received") e.frame (received_headers e).0 (received_headers e).1)
        (record s { capture = capture_received e s.capture })

  abbrev is_some {ℓ} : {A : Type ℓ} → Option A → Bool
  is_some none = false
  is_some (some _) = true

  abbrev received_or_error : Option Error → FrameEvent → M Shown (Unit {0})
  received_or_error none e s = show_received e s
  received_or_error (some why) e s =
      if c.decode_headers || is_some s.capture then (s, err why) else show_received e s

  unfoldable pub handle_received : FrameEvent → M Shown (Unit {0})
  unfolding show_received
  handle_received e s = received_or_error e.decode_error e s

  -- `Flush`. What is written to files is part of the writer's state.
  abbrev pub flush_capture :
      (Bytes → Bytes → M W.State (Unit {0})) → Option CaptureManager → M Shown (Unit {0})
  flush_capture write_file none = pure tt
  flush_capture write_file (some m) = on_writer (flush write_file m)

  unfoldable pub flush_controller : (Bytes → Bytes → M W.State (Unit {0})) → M Shown (Unit {0})
  flush_controller write_file s = flush_capture write_file s.capture s

  -- The controller as the output of a session.
  abbrev pub controller_output : Output
  controller_output = record {
    State = Shown;
    duration_text = W.duration_text;
    print_notice = print_notice;
    handle_sent = handle_sent;
    handle_received = handle_received;
  }
