-- ===== src/Client/Tracker/Fragments.antt =====
-- A header block in fragments: HEADERS, any number of CONTINUATION frames, and one that ends it.
use mh2c_go.Base.{
  ℕ, ◌≡◌, ◌≢◌, refl, sym, ◌∙◌, arith, Bool, true, false, List, [], ◌∷◌, ◌++◌, append-nil,
  append_assoc, map, All, Bytes, Error, ◌⊎◌, inl, inr,
}
use mh2c_go.Frame.{
  Frame, HeadersFrame, ContinuationFrame, headers_frame, continuation_frame, flag_end_stream,
  flag_end_headers, has_flag,
}
use mh2c_go.Hpack.{DecodeReport}
use mh2c_go.Client.Tracker.{FrameEvent, Tracker, idle, plain_event, finish, consume}

module _ {S : Type 0} (decode : Bytes → S → S × (DecodeReport ⊎ Error)) where
  abbrev cons_event : FrameEvent → (Tracker × S) × List FrameEvent → (Tracker × S) × List FrameEvent
  cons_event e (ts, es) = (ts, e ∷ es)

  abbrev then_all :
      (Tracker × S) × FrameEvent
      → (Tracker × S → (Tracker × S) × List FrameEvent)
      → (Tracker × S) × List FrameEvent
  then_all (ts, e) more = cons_event e (more ts)

  -- The frames of a connection in turn, with the event of each.
  pub consume_all : List Frame → Tracker × S → (Tracker × S) × List FrameEvent
  consume_all [] ts = (ts, [])
  consume_all (f ∷ fs) ts = then_all (consume decode f ts) (consume_all fs)

-- A CONTINUATION frame of stream `s` that does not end the block.
abbrev pub IsMiddle : ℕ → ContinuationFrame → Type 0
IsMiddle s c =
    (c.frame_header.stream_id ≡ s) × (has_flag c.frame_header.flags flag_end_headers ≡ false)

abbrev pub fragments : List ContinuationFrame → Bytes
fragments [] = []
fragments (c ∷ cs) = c.block_fragment ++ fragments cs

abbrev pub middle_frames : List ContinuationFrame → List Frame
middle_frames [] = []
middle_frames (c ∷ cs) = continuation_frame c ∷ middle_frames cs

abbrev pub open_block : ℕ → Bytes → Bool → Tracker
open_block s block end = record { pending_stream = s; pending_block = block; pending_end = end }

abbrev pub plain_events : List Frame → List FrameEvent
plain_events fs = map plain_event fs

-- `whole` is the block that the fragments make: same stream, same END_STREAM, one frame.
pub record Fragmented (start : HeadersFrame) (cs : List ContinuationFrame)
    (last : ContinuationFrame) (whole : HeadersFrame) : Type 0 where
  pub stream_ne_zero : start.frame_header.stream_id ≢ 0
  pub start_open : has_flag start.frame_header.flags flag_end_headers ≡ false
  pub middle : All (IsMiddle start.frame_header.stream_id) cs
  pub last_stream : last.frame_header.stream_id ≡ start.frame_header.stream_id
  pub last_ends : has_flag last.frame_header.flags flag_end_headers ≡ true
  pub whole_stream : whole.frame_header.stream_id ≡ start.frame_header.stream_id
  pub whole_ends : has_flag whole.frame_header.flags flag_end_headers ≡ true
  pub whole_end_stream :
      has_flag whole.frame_header.flags flag_end_stream
      ≡ has_flag start.frame_header.flags flag_end_stream
  pub whole_block :
      whole.block_fragment ≡ start.block_fragment ++ (fragments cs ++ last.block_fragment)

module _ {S : Type 0} (decode : Bytes → S → S × (DecodeReport ⊎ Error)) where
  -- The events of the fragments, from the event of the whole block.
  abbrev pub fragment_events :
      HeadersFrame
      → List ContinuationFrame
      → ContinuationFrame
      → (Tracker × S) × FrameEvent
      → (Tracker × S) × List FrameEvent
  fragment_events start cs last (ts, e) = (
    ts,
    plain_event (headers_frame start)
        ∷ (plain_events (middle_frames cs) ++ (record e { frame = continuation_frame last } ∷ [])),
  )

  abbrev prepend :
      List FrameEvent → (Tracker × S) × List FrameEvent → (Tracker × S) × List FrameEvent
  prepend es (ts, more) = (ts, es ++ more)

  consume_middle :
      (s : ℕ) (b : Bytes) (end : Bool) (c : ContinuationFrame) (st : S)
      → s ≢ 0
      → IsMiddle s c
      → consume decode (continuation_frame c) (open_block s b end, st)
        ≡ ((open_block s (b ++ c.block_fragment) end, st), plain_event (continuation_frame c))
  unfolding consume
  consume_middle s b end c st ne (same, more) = ground arith

  consume_all-middle_frames :
      (cs : List ContinuationFrame) (rest : List Frame) (s : ℕ) (b : Bytes) (end : Bool) (st : S)
      → s ≢ 0
      → All (IsMiddle s) cs
      → consume_all decode (middle_frames cs ++ rest) (open_block s b end, st)
        ≡ prepend
            (plain_events (middle_frames cs))
            (consume_all decode rest (open_block s (b ++ fragments cs) end, st))
  unfolding consume_all
  consume_all-middle_frames [] rest s b end st ne h = rw append-nil
  consume_all-middle_frames (c ∷ cs) rest s b end st ne (h, hs) =
      rw (consume_middle s b end c st ne h) (
        rw (consume_all-middle_frames cs rest s (b ++ c.block_fragment) end st ne hs)
          (rw append_assoc))

  consume_last :
      (s : ℕ) (b : Bytes) (end : Bool) (c : ContinuationFrame) (st : S)
      → s ≢ 0
      → c.frame_header.stream_id ≡ s
      → has_flag c.frame_header.flags flag_end_headers ≡ true
      → consume decode (continuation_frame c) (open_block s b end, st)
        ≡ finish decode (plain_event (continuation_frame c)) s end (b ++ c.block_fragment) st
  unfolding consume
  consume_last s b end c st ne same ends = ground arith

  consume_start :
      (f : HeadersFrame) (st : S)
      → has_flag f.frame_header.flags flag_end_headers ≡ false
      → consume decode (headers_frame f) (idle, st) ≡ (
        (
          open_block f.frame_header.stream_id f.block_fragment
              (has_flag f.frame_header.flags flag_end_stream),
          st,
        ),
        plain_event (headers_frame f),
      )
  unfolding consume
  consume_start f st more = rw more

  consume_whole :
      (f : HeadersFrame) (s : ℕ) (end : Bool) (b : Bytes) (st : S)
      → has_flag f.frame_header.flags flag_end_headers ≡ true
      → f.frame_header.stream_id ≡ s
      → has_flag f.frame_header.flags flag_end_stream ≡ end
      → f.block_fragment ≡ b
      → consume decode (headers_frame f) (idle, st)
        ≡ finish decode (plain_event (headers_frame f)) s end b st
  unfolding consume
  consume_whole f s end b st ends hs he hb =
      rw ends (λ i. finish decode (plain_event (headers_frame f)) (hs i) (he i) (hb i) st)

  -- The event of a completed block names the frame that ended it, and nothing else depends on that.
  finish_events :
      (start : HeadersFrame) (cs : List ContinuationFrame) (last : ContinuationFrame) (f : Frame)
      (s : ℕ) (end : Bool) (b : Bytes) (st : S)
      → cons_event decode (plain_event (headers_frame start)) (
          prepend (plain_events (middle_frames cs)) (
            then_all decode
              (finish decode (plain_event (continuation_frame last)) s end b st)
              (λ ts. (ts, []))))
        ≡ fragment_events start cs last (finish decode (plain_event f) s end b st)
  unfolding finish
  finish_events start cs last f s end b st = split (decode b st)
    where
      split :
          (r : S × (DecodeReport ⊎ Error))
          → cons_event decode (plain_event (headers_frame start)) (
              prepend (plain_events (middle_frames cs)) (
                then_all decode
                  (finish (λ _ _. r) (plain_event (continuation_frame last)) s end b st)
                  (λ ts. (ts, []))))
            ≡ fragment_events start cs last (finish (λ _ _. r) (plain_event f) s end b st)
      split (_, inl report) = refl
      split (_, inr why) = refl

  -- Fragmentation does not matter: HEADERS on a stream other than 0, any number of CONTINUATION
  -- frames and a last one give, from the idle tracker, the final state of the one HEADERS frame that
  -- carries the joined block, and its event on the last frame; every event before is a plain one.
  pub consume_all-Fragmented :
      (start : HeadersFrame) (cs : List ContinuationFrame) (last : ContinuationFrame)
      (whole : HeadersFrame) (st : S)
      → Fragmented start cs last whole
      → consume_all decode
          (headers_frame start ∷ (middle_frames cs ++ (continuation_frame last ∷ [])))
          (idle, st)
        ≡ fragment_events start cs last (consume decode (headers_frame whole) (idle, st))
  unfolding consume_all
  consume_all-Fragmented start cs last whole st h =
      let s = start.frame_header.stream_id in
      let end = has_flag start.frame_header.flags flag_end_stream in
      let joined = (start.block_fragment ++ fragments cs) ++ last.block_fragment in
      rw (consume_start start st h.start_open) (
        rw
          (consume_all-middle_frames cs (continuation_frame last ∷ []) s start.block_fragment end st
            h.stream_ne_zero h.middle)
          (rw
            (consume_last s (start.block_fragment ++ fragments cs) end last st h.stream_ne_zero
              h.last_stream h.last_ends)
            (rw
              (consume_whole whole s end joined st h.whole_ends h.whole_stream h.whole_end_stream (
                h.whole_block
                ∙ sym (append_assoc start.block_fragment (fragments cs) last.block_fragment)))
              (finish_events start cs last (headers_frame whole) s end joined st))))
