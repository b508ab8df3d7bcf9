-- ===== src/Capture.antt =====
-- cmd/mh2c/output_capture.go: the headers and the body of the streams that are captured.
pub mod Streams
pub mod Selection
use mh2c_go.Base.{
  ℕ, Bool, true, false, not, ◌&&◌, List, [], ◌∷◌, ◌++◌, ltb, ◌==◌, if◌then◌else◌, length, Option,
  none, some, Bytes, codes, Result, ok,
}
use mh2c_go.Base.State.{M, ◌>>=◌, ◌>>◌, pure}
use mh2c_go.Frame.{Frame, data_frame, flag_end_stream, has_flag}
use mh2c_go.Hpack.{HeaderField}
use mh2c_go.Client.Tracker.{FrameEvent}

pub record CapturedStream : Type 0 where
  pub headers : List HeaderField
  pub body : Bytes
  pub done : Bool

pub record CaptureManager : Type 0 where
  pub body_path : Bytes
  pub headers_path : Bytes
  pub explicit_stream : Bool
  pub target_stream_id : ℕ
  pub selected_stream : ℕ
  pub streams : ℕ → Option CapturedStream

unfoldable pub new_explicit_capture_manager : ℕ → Bytes → Bytes → CaptureManager
new_explicit_capture_manager stream_id body_path headers_path = record {
  body_path = body_path;
  headers_path = headers_path;
  explicit_stream = true;
  target_stream_id = stream_id;
  selected_stream = 0;
  streams = λ _. none;
}

unfoldable pub new_auto_capture_manager : Bytes → Bytes → CaptureManager
new_auto_capture_manager body_path headers_path = record {
  body_path = body_path;
  headers_path = headers_path;
  explicit_stream = false;
  target_stream_id = 0;
  selected_stream = 0;
  streams = λ _. none;
}

-- `&capturedStream{}`
abbrev pub empty_stream : CapturedStream
empty_stream = record { headers = []; body = []; done = false }

abbrev or_empty : Option CapturedStream → CapturedStream
or_empty none = empty_stream
or_empty (some s) = s

-- `stream`: the entry of a stream, a new one where there is none.
unfoldable pub stream_at : CaptureManager → ℕ → CapturedStream
stream_at m id = or_empty (m.streams id)

-- The map with what the methods write through the pointer that `stream` gave.
abbrev pub put_stream : ℕ → CapturedStream → CaptureManager → CaptureManager
put_stream id s m = record m { streams = λ k. if k == id then some s else m.streams k }

abbrev pub select_explicit : ℕ → CaptureManager → CaptureManager
select_explicit id m = if id == m.target_stream_id then record m { selected_stream = id } else m

abbrev pub select_auto : ℕ → CaptureManager → CaptureManager
select_auto id m = if m.selected_stream == 0 then record m { selected_stream = id } else m

unfoldable pub select_stream : ℕ → CaptureManager → CaptureManager
select_stream id m = if m.explicit_stream then select_explicit id m else select_auto id m

-- `if endStream { stream.done = true; m.selectStream(streamID) }`, for a changed entry.
unfoldable pub finish_stream : ℕ → CapturedStream → Bool → CaptureManager → CaptureManager
unfolding select_stream
finish_stream id s true m = select_stream id (put_stream id (record s { done = true }) m)
finish_stream id s false m = put_stream id s m

unfoldable pub record_headers : ℕ → List HeaderField → Bool → CaptureManager → CaptureManager
unfolding stream_at finish_stream
record_headers id headers end_stream m =
    let s = stream_at m id in
    finish_stream id (record s { headers = s.headers ++ headers }) end_stream m

unfoldable pub record_data : ℕ → Bytes → Bool → CaptureManager → CaptureManager
unfolding stream_at finish_stream
record_data id content end_stream m =
    let s = stream_at m id in finish_stream id (record s { body = s.body ++ content }) end_stream m

-- The two parts of `captureReceived`.
unfoldable pub capture_block : FrameEvent → CaptureManager → CaptureManager
unfolding record_headers
capture_block e m =
    if e.header_block_complete && ltb 0 (length e.headers)
    then record_headers e.header_block_stream_id e.headers e.header_block_end_stream m
    else m

unfoldable pub capture_frame : Frame → CaptureManager → CaptureManager
unfolding record_data
capture_frame (data_frame f) m =
    record_data f.frame_header.stream_id f.content (has_flag f.frame_header.flags flag_end_stream) m
capture_frame _ m = m

unfoldable pub capture_received : FrameEvent → Option CaptureManager → Option CaptureManager
unfolding capture_block capture_frame
capture_received e none = none
capture_received e (some m) = some (capture_frame e.frame (capture_block e m))

unfoldable pub selected : CaptureManager → Option CapturedStream
selected m =
    if m.explicit_stream
    then m.streams m.target_stream_id
    else if m.selected_stream == 0
    then none
    else m.streams m.selected_stream

-- `fmt.Fprintf(&body, "%s: %s\n", …)` for each field.
unfoldable pub header_lines : List HeaderField → Bytes
header_lines [] = []
header_lines (f ∷ fs) = f.name ++ (codes ": " ++ (f.value ++ (codes "\n" ++ header_lines fs)))

-- `os.WriteFile` is a parameter: the path, the bytes, and the file system's state.
module _ {F : Type 0} (write_file : Bytes → Bytes → M F (Unit {0})) where
  abbrev pub write_to : Bytes → Bytes → M F (Unit {0})
  write_to [] content = pure tt
  write_to (b ∷ path) content = write_file (b ∷ path) content

  abbrev pub flush_stream : CaptureManager → Option CapturedStream → M F (Unit {0})
  flush_stream m none = pure tt
  flush_stream m (some s) =
      write_to m.body_path s.body >> write_to m.headers_path (header_lines s.headers)

  unfoldable pub flush : CaptureManager → M F (Unit {0})
  unfolding selected
  flush m = flush_stream m (selected m)
