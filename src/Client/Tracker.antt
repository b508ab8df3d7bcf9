-- ===== src/Client/Tracker.antt =====
-- client/event.go: frame events, and the tracker that joins the fragments of a header block.
pub mod Fragments
pub mod Effects
use mh2c_go.Base.{
  ℕ, Bool, true, false, not, List, [], ◌∷◌, ◌++◌, ◌==◌, if◌then◌else◌, Option, none, some, Bytes,
  Error, ◌⊎◌, inl, inr, unexpected_continuation, continuation_mismatch, header_block_unfinished,
}
use mh2c_go.Frame.{
  Frame, headers_frame, push_promise_frame, continuation_frame, ContinuationFrame, flag_end_stream,
  flag_end_headers, has_flag,
}
use mh2c_go.Hpack.{HeaderField, DecodeReport}

pub record FrameEvent : Type 0 where
  pub frame : Frame
  pub headers : List HeaderField
  pub warnings : List Bytes
  pub header_block_stream_id : ℕ
  pub header_block_end_stream : Bool
  pub header_block_complete : Bool
  pub decode_error : Option Error

-- `headerBlockTracker`; `pending_stream` is 0 when no header block is open.
pub record Tracker : Type 0 where
  pub pending_stream : ℕ
  pub pending_block : Bytes
  pub pending_end : Bool

-- The zero value, and the value that `reset` leaves.
abbrev pub idle : Tracker
idle = record { pending_stream = 0; pending_block = []; pending_end = false }

-- `FrameEvent{Frame: f}`
abbrev pub plain_event : Frame → FrameEvent
plain_event f = record {
  frame = f;
  headers = [];
  warnings = [];
  header_block_stream_id = 0;
  header_block_end_stream = false;
  header_block_complete = false;
  decode_error = none;
}

abbrev pub error_event : Frame → Error → FrameEvent
error_event f why = record (plain_event f) { decode_error = some why }

-- The decoder changes its own state `S`; the methods change that and the tracker.
module _ {S : Type 0} (decode : Bytes → S → S × (DecodeReport ⊎ Error)) where
  abbrev finish_outcome : FrameEvent → S × (DecodeReport ⊎ Error) → (Tracker × S) × FrameEvent
  finish_outcome event (s, inl report) =
      ((idle, s), record event { headers = report.fields; warnings = report.warnings })
  finish_outcome event (s, inr why) = ((idle, s), record event { decode_error = some why })

  -- Every branch resets the tracker.
  unfoldable pub finish : FrameEvent → ℕ → Bool → Bytes → S → (Tracker × S) × FrameEvent
  finish event stream_id end_stream block s =
      finish_outcome
        (record event {
          header_block_complete = true;
          header_block_stream_id = stream_id;
          header_block_end_stream = end_stream;
        })
        (decode block s)

  unfoldable pub consume_header_start :
      Frame → ℕ → Bool → Bool → Bytes → Tracker × S → (Tracker × S) × FrameEvent
  unfolding finish
  consume_header_start f stream_id end_stream end_headers block (t, s) =
      if not (t.pending_stream == 0)
      then ((idle, s), error_event f (header_block_unfinished t.pending_stream))
      else if end_headers
      then finish (plain_event f) stream_id end_stream block s
      else (
        (record { pending_stream = stream_id; pending_block = block; pending_end = end_stream }, s),
        plain_event f,
      )

  -- The case of a CONTINUATION frame.
  unfoldable pub consume_continuation : ContinuationFrame → Tracker × S → (Tracker × S) × FrameEvent
  unfolding finish
  consume_continuation f (t, s) =
      let stream_id = f.frame_header.stream_id in
      let joined = record t { pending_block = t.pending_block ++ f.block_fragment } in
      if t.pending_stream == 0
      then ((t, s), error_event (continuation_frame f) (unexpected_continuation stream_id))
      else if not (stream_id == t.pending_stream)
      then (
        (idle, s),
        error_event (continuation_frame f) (continuation_mismatch stream_id t.pending_stream),
      )
      else if has_flag f.frame_header.flags flag_end_headers
      then finish (plain_event (continuation_frame f)) joined.pending_stream joined.pending_end
          joined.pending_block s
      else ((joined, s), plain_event (continuation_frame f))

  unfoldable pub consume : Frame → Tracker × S → (Tracker × S) × FrameEvent
  unfolding consume_header_start consume_continuation
  consume (headers_frame f) =
      consume_header_start (headers_frame f) f.frame_header.stream_id
        (has_flag f.frame_header.flags flag_end_stream)
        (has_flag f.frame_header.flags flag_end_headers) f.block_fragment
  consume (push_promise_frame f) =
      consume_header_start (push_promise_frame f) f.frame_header.stream_id false
        (has_flag f.frame_header.flags flag_end_headers) f.block_fragment
  consume (continuation_frame f) = consume_continuation f
  consume f = λ (t, s). ((t, s), plain_event f)
