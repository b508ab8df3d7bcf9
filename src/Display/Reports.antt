-- ===== src/Display/Reports.antt =====
-- cmd/mh2c/output.go, output_text.go and output_json.go: when the reports of the controller succeed.
use mh2c_go.Base.{
  ◌≡◌, refl, ap, ◌∙◌, Bool, true, false, List, [], ◌∷◌, Option, none, some, Bytes, ok,
}
use mh2c_go.Base.State.{M, ◌>>◌, continue_ok}
use mh2c_go.Frame.{Frame}
use mh2c_go.Hpack.{HeaderField}
use mh2c_go.Capture.{
  CaptureManager, CapturedStream, header_lines, write_to, flush_stream, flush, selected,
}
use mh2c_go.Session.Exchange.{Succeeds}
use mh2c_go.Display.Filter.{should_display_direction}
use mh2c_go.Display.Controller.{
  Writer, Controller, Shown, print_notice, handle_sent, show_received, handle_received,
  flush_controller, controller_output, show_if, flush_capture,
}

-- A writer that takes all it is given.
pub record Writes (W : Writer) : Type 0 where
  pub notices : (a b c : Bytes) (s : W.State) → (W.write_notice a b c s).1 ≡ ok tt
  pub frames :
      (direction : Bytes) (f : Frame) (headers : List HeaderField) (warnings : List Bytes)
      (s : W.State)
      → (W.write_frame direction f headers warnings s).1 ≡ ok tt

-- A step that succeeds in every state.
abbrev pub Always : {S : Type 0} → M S (Unit {0}) → Type 0
Always {S} m = (s : S) → (m s).1 ≡ ok tt

pub then_Always : {S : Type 0} (m k : M S (Unit {0})) → Always m → Always k → Always (m >> k)
then_Always m k h h' s = ap (λ r. r.1) (continue_ok (m s) tt (λ _. k) (h s)) ∙ h' (m s).0

module _ {F : Type 0} (write_file : Bytes → Bytes → M F (Unit {0}))
    (writes : (path content : Bytes) → Always (write_file path content)) where
  write_to-Always : (path content : Bytes) → Always (write_to write_file path content)
  write_to-Always [] content s = refl
  write_to-Always (b ∷ path) content s = writes (b ∷ path) content s

  flush_stream-Always :
      (m : CaptureManager) (stream : Option CapturedStream)
      → Always (flush_stream write_file m stream)
  flush_stream-Always m none s = refl
  flush_stream-Always m (some stream) s =
      then_Always (write_to write_file m.body_path stream.body)
        (write_to write_file m.headers_path (header_lines stream.headers))
        (write_to-Always m.body_path stream.body)
        (write_to-Always m.headers_path (header_lines stream.headers)) s

  flush-Always : (m : CaptureManager) → Always (flush write_file m)
  unfolding flush
  flush-Always m = flush_stream-Always m (selected m)

module _ (W : Writer) (c : Controller) (writes : Writes W) where
  show_if_ok :
      (b : Bool) (m : M W.State (Unit {0})) (s : Shown W c)
      → ((w : W.State) → (m w).1 ≡ ok tt)
      → (show_if W c b m s).1 ≡ ok tt
  show_if_ok true m s h = h s.written
  show_if_ok false m s h = refl

  -- Over such a writer, each report of the controller succeeds, but for that of a received frame whose
  -- header block does not decode.
  pub controller_output-Succeeds : Succeeds (controller_output W c)
  unfolding print_notice handle_sent handle_received show_received
  controller_output-Succeeds = record {
    reports_notice =
        λ a b d s. show_if_ok (should_display_direction c.filters a) _ s (writes.notices a b d);
    reports_sent = λ e s. show_if_ok _ _ s (writes.frames _ _ _ _);
    reports_received = λ e s fine. rw fine (show_if_ok _ _ _ (writes.frames _ _ _ _));
  }

  -- `Flush` succeeds where the writing of a file does.
  flush_capture-Always :
      (write_file : Bytes → Bytes → M W.State (Unit {0}))
      → ((path content : Bytes) → Always (write_file path content))
      → (m : Option CaptureManager) → Always (flush_capture W c write_file m)
  flush_capture-Always write_file h none s = refl
  flush_capture-Always write_file h (some m) s = flush-Always write_file h m s.written

  pub flush_controller-Always :
      (write_file : Bytes → Bytes → M W.State (Unit {0}))
      → ((path content : Bytes) → Always (write_file path content))
      → Always (flush_controller W c write_file)
  unfolding flush_controller
  flush_controller-Always write_file h s = flush_capture-Always write_file h s.capture s
