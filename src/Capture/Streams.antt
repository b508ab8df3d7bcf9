-- ===== src/Capture/Streams.antt =====
-- cmd/mh2c/output_capture.go: what is captured of a sequence of events.
use mh2c_go.Base.{
  ℕ, ◌≡◌, refl, sym, ap, ◌∙◌, arith, Bool, true, false, ◌&&◌, ◌||◌, Bool-cases, ==_iff, inl, inr,
  List, [], ◌∷◌, ◌++◌, append-nil, append_assoc, ltb, ◌==◌, if◌then◌else◌, length, Option, some,
  Bytes,
}
use mh2c_go.Frame.{Frame, data_frame, flag_end_stream, has_flag}
use mh2c_go.Hpack.{HeaderField}
use mh2c_go.Client.Tracker.{FrameEvent}
use mh2c_go.Capture.{
  CapturedStream, CaptureManager, stream_at, put_stream, select_stream, finish_stream,
  record_headers, record_data, capture_block, capture_frame, capture_received,
}

-- What an event adds to a stream: the fields of its header block, the bytes of its DATA frame, and
-- the end of the stream. A block without fields is not recorded.
abbrev block_of : ℕ → FrameEvent → Bool
block_of id e =
    e.header_block_complete && (ltb 0 (length e.headers) && (id == e.header_block_stream_id))

abbrev pub fields_added : ℕ → FrameEvent → List HeaderField
fields_added id e = if block_of id e then e.headers else []

abbrev pub bytes_added : ℕ → Frame → Bytes
bytes_added id (data_frame f) = if id == f.frame_header.stream_id then f.content else []
bytes_added id _ = []

abbrev pub data_ends : ℕ → Frame → Bool
data_ends id (data_frame f) =
    (id == f.frame_header.stream_id) && has_flag f.frame_header.flags flag_end_stream
data_ends id _ = false

abbrev pub ends : ℕ → FrameEvent → Bool
ends id e = (block_of id e && e.header_block_end_stream) || data_ends id e.frame

-- An entry with more fields and bytes, which may end it.
abbrev pub extend : CapturedStream → List HeaderField → Bytes → Bool → CapturedStream
extend s headers content end = record {
  headers = s.headers ++ headers;
  body = s.body ++ content;
  done = s.done || end;
}

or_false : (b : Bool) → (b || false) ≡ b
or_false true = refl
or_false false = refl

or_true : (b : Bool) → (b || true) ≡ true
or_true true = refl
or_true false = refl

or_or : (a b c : Bool) → ((a || b) || c) ≡ (a || (b || c))
or_or true b c = refl
or_or false b c = refl

extend_nothing : (s : CapturedStream) → extend s [] [] false ≡ s
extend_nothing s i = record {
  headers = append-nil s.headers i;
  body = append-nil s.body i;
  done = or_false s.done i;
}

extend_fields :
    (s : CapturedStream) (fields : List HeaderField) (end : Bool)
    → record s { headers = s.headers ++ fields; done = s.done || end } ≡ extend s fields [] end
extend_fields s fields end i = record {
  headers = s.headers ++ fields;
  body = sym (append-nil s.body) i;
  done = s.done || end;
}

extend_bytes :
    (s : CapturedStream) (content : Bytes) (end : Bool)
    → record s { body = s.body ++ content; done = s.done || end } ≡ extend s [] content end
extend_bytes s content end i = record {
  headers = sym (append-nil s.headers) i;
  body = s.body ++ content;
  done = s.done || end;
}

extend_twice :
    (s : CapturedStream) (h h' : List HeaderField) (b b' : Bytes) (d d' : Bool)
    → extend (extend s h b d) h' b' d' ≡ extend s (h ++ h') (b ++ b') (d || d')
extend_twice s h h' b b' d d' i = record {
  headers = append_assoc s.headers h h' i;
  body = append_assoc s.body b b' i;
  done = or_or s.done d d' i;
}

stream_at-select_stream :
    (id k : ℕ) (m : CaptureManager) → stream_at (select_stream id m) k ≡ stream_at m k
unfolding stream_at select_stream
stream_at-select_stream id k m = ground arith

stream_at-put_stream :
    (id k : ℕ) (s : CapturedStream) (m : CaptureManager)
    → stream_at (put_stream id s m) k ≡ (if k == id then s else stream_at m k)
unfolding stream_at
stream_at-put_stream id k s m = ground arith

stream_at-finish_stream :
    (id k : ℕ) (s : CapturedStream) (end : Bool) (m : CaptureManager)
    → stream_at (finish_stream id s end m) k
      ≡ (if k == id then record s { done = s.done || end } else stream_at m k)
unfolding finish_stream
stream_at-finish_stream id k s true m =
    stream_at-select_stream id k _
    ∙ (stream_at-put_stream id k (record s { done = true }) m
        ∙ ap (λ d. if k == id then record s { done = d } else stream_at m k) (sym (or_true s.done)))
stream_at-finish_stream id k s false m =
    stream_at-put_stream id k s m
    ∙ ap (λ d. if k == id then record s { done = d } else stream_at m k) (sym (or_false s.done))

stream_at-record_headers :
    (id k : ℕ) (fields : List HeaderField) (end : Bool) (m : CaptureManager)
    → stream_at (record_headers id fields end m) k
      ≡ (if k == id then extend (stream_at m k) fields [] end else stream_at m k)
unfolding record_headers
stream_at-record_headers id k fields end m =
    stream_at-finish_stream id k _ end m ∙ elim (Bool-cases (k == id)) [
      | inl same ↦ rw same (
          ap
            (λ j. record (stream_at m j) {
              headers = (stream_at m j).headers ++ fields;
              done = (stream_at m j).done || end;
            })
            (sym ((==_iff k id).0 same))
          ∙ extend_fields (stream_at m k) fields end)
      | inr different ↦ rw different refl
    ]

stream_at-record_data :
    (id k : ℕ) (content : Bytes) (end : Bool) (m : CaptureManager)
    → stream_at (record_data id content end m) k
      ≡ (if k == id then extend (stream_at m k) [] content end else stream_at m k)
unfolding record_data
stream_at-record_data id k content end m =
    stream_at-finish_stream id k _ end m ∙ elim (Bool-cases (k == id)) [
      | inl same ↦ rw same (
          ap
            (λ j. record (stream_at m j) {
              body = (stream_at m j).body ++ content;
              done = (stream_at m j).done || end;
            })
            (sym ((==_iff k id).0 same))
          ∙ extend_bytes (stream_at m k) content end)
      | inr different ↦ rw different refl
    ]

stream_at-capture_block :
    (id : ℕ) (e : FrameEvent) (m : CaptureManager)
    → stream_at (capture_block e m) id
      ≡ extend (stream_at m id) (fields_added id e) [] (block_of id e && e.header_block_end_stream)
unfolding capture_block
stream_at-capture_block id e m = ground (
  arith,
  extend_nothing (stream_at m id),
  stream_at-record_headers e.header_block_stream_id id e.headers e.header_block_end_stream m,
)

stream_at-capture_frame :
    (id : ℕ) (f : Frame) (m : CaptureManager)
    → stream_at (capture_frame f m) id
      ≡ extend (stream_at m id) [] (bytes_added id f) (data_ends id f)
unfolding capture_frame
stream_at-capture_frame id (data_frame f) m = ground (
  arith,
  extend_nothing (stream_at m id),
  stream_at-record_data f.frame_header.stream_id id f.content
      (has_flag f.frame_header.flags flag_end_stream) m,
)
stream_at-capture_frame id _ m = sym (extend_nothing (stream_at m id))

-- The events that a controller receives, one by one.
abbrev pub capture_all : List FrameEvent → Option CaptureManager → Option CaptureManager
capture_all [] o = o
capture_all (e ∷ es) o = capture_all es (capture_received e o)

-- What all of the events add to a stream.
abbrev pub all_fields : ℕ → List FrameEvent → List HeaderField
all_fields id [] = []
all_fields id (e ∷ es) = fields_added id e ++ all_fields id es

abbrev pub all_bytes : ℕ → List FrameEvent → Bytes
all_bytes id [] = []
all_bytes id (e ∷ es) = bytes_added id e.frame ++ all_bytes id es

abbrev pub ends_in : ℕ → List FrameEvent → Bool
ends_in id [] = false
ends_in id (e ∷ es) = ends id e || ends_in id es

stream_at-captured :
    (id : ℕ) (e : FrameEvent) (m : CaptureManager)
    → stream_at (capture_frame e.frame (capture_block e m)) id
      ≡ extend (stream_at m id) (fields_added id e) (bytes_added id e.frame) (ends id e)
stream_at-captured id e m =
    stream_at-capture_frame id e.frame (capture_block e m)
    ∙ (ap (λ s. extend s [] (bytes_added id e.frame) (data_ends id e.frame))
          (stream_at-capture_block id e m)
        ∙ (extend_twice (stream_at m id) (fields_added id e) [] [] (bytes_added id e.frame)
              (block_of id e && e.header_block_end_stream) (data_ends id e.frame)
            ∙ ap (λ h. extend (stream_at m id) h (bytes_added id e.frame) (ends id e))
                (append-nil (fields_added id e))))

-- Behind any events, what is captured of each stream is what was there, with the fields of the
-- stream's complete header blocks and the bytes of its DATA frames, both in order of arrival and
-- whatever comes between on other streams; and it is done when it was, or when a block that has
-- fields or a DATA frame ended the stream.
pub capture_all_lem :
    (id : ℕ) (es : List FrameEvent) (m : CaptureManager)
    → (m' : CaptureManager) × (capture_all es (some m) ≡ some m')
      × (stream_at m' id
          ≡ extend (stream_at m id) (all_fields id es) (all_bytes id es) (ends_in id es))
unfolding capture_received
capture_all_lem id [] m = (m, refl, sym (extend_nothing (stream_at m id)))
capture_all_lem id (e ∷ es) m =
    let (m', runs, holds) = capture_all_lem id es (capture_frame e.frame (capture_block e m)) in
    (
      m',
      runs,
      holds
          ∙ (ap (λ s. extend s (all_fields id es) (all_bytes id es) (ends_in id es))
                (stream_at-captured id e m)
              ∙ extend_twice (stream_at m id) (fields_added id e) (all_fields id es)
                  (bytes_added id e.frame) (all_bytes id es) (ends id e) (ends_in id es)),
    )
