-- ===== src/Client/Tracker/Effects.antt =====
-- What one frame does to the tracker and the decoder, errors included.
use mh2c_go.Base.{
  ℕ, ◌≡◌, refl, Bool, true, false, [], ◌==◌, Bool-cases, Bytes, Error, ◌⊎◌, inl, inr,
  unexpected_continuation,
}
use mh2c_go.Frame.{
  Frame, HeadersFrame, ContinuationFrame, headers_frame, push_promise_frame, continuation_frame,
  flag_end_stream, flag_end_headers, has_flag,
}
use mh2c_go.Hpack.{DecodeReport}
use mh2c_go.Client.Tracker.{
  FrameEvent, Tracker, idle, plain_event, error_event, finish, consume, consume_header_start,
  consume_continuation,
}

module _ {S : Type 0} (decode : Bytes → S → S × (DecodeReport ⊎ Error)) where
  -- The event is of frame `f`. Either it completes a block and the tracker is idle, or the decoder's
  -- state is `s` and the event has no fields.
  abbrev pub IsAtomic : Frame → S → (Tracker × S) × FrameEvent → Type 0
  IsAtomic f s r =
      (r.1.frame ≡ f)
      × (((r.1.header_block_complete ≡ true) × (r.0.0 ≡ idle))
          ⊎ ((r.1.header_block_complete ≡ false) × (r.0.1 ≡ s) × (r.1.headers ≡ [])))

  finish-IsAtomic :
      (f : Frame) (s : ℕ) (end : Bool) (b : Bytes) (st : S)
      → IsAtomic f st (finish decode (plain_event f) s end b st)
  unfolding finish
  finish-IsAtomic f s end b st = split (decode b st)
    where
      split :
          (r : S × (DecodeReport ⊎ Error))
          → IsAtomic f st (finish (λ _ _. r) (plain_event f) s end b st)
      split (_, inl report) = (refl, inl (refl, refl))
      split (_, inr why) = (refl, inl (refl, refl))

  consume_header_start-IsAtomic :
      (f : Frame) (s : ℕ) (end ends : Bool) (b : Bytes) (t : Tracker) (st : S)
      → IsAtomic f st (consume_header_start decode f s end ends b (t, st))
  unfolding consume_header_start
  consume_header_start-IsAtomic f s end ends b t st = elim (Bool-cases (t.pending_stream == 0)) [
    | inl closed ↦ rw closed (branch ends)
    | inr open_before ↦ rw open_before (refl, inr (refl, refl, refl))
  ]
    where
      branch : (e : Bool) → IsAtomic f st (consume_header_start decode f s end e b (idle, st))
      branch true = finish-IsAtomic f s end b st
      branch false = (refl, inr (refl, refl, refl))

  consume_continuation-IsAtomic :
      (f : ContinuationFrame) (t : Tracker) (st : S)
      → IsAtomic (continuation_frame f) st (consume_continuation decode f (t, st))
  unfolding consume_continuation
  consume_continuation-IsAtomic f t st = elim (Bool-cases (t.pending_stream == 0)) [
    | inl closed ↦ rw closed (refl, inr (refl, refl, refl))
    | inr opened ↦ elim (Bool-cases (f.frame_header.stream_id == t.pending_stream)) [
      | inr other ↦ rw (opened, other) (refl, inr (refl, refl, refl))
      | inl same ↦ elim (Bool-cases (has_flag f.frame_header.flags flag_end_headers)) [
        | inl ends ↦ rw (opened, same, ends) (finish-IsAtomic (continuation_frame f) _ _ _ st)
        | inr more ↦ rw (opened, same, more) (refl, inr (refl, refl, refl))
      ]
    ]
  ]

  -- One frame of any kind, in any tracker state: the event is of that frame; if it completes a header
  -- block the tracker is idle behind it; if not, the decoder is untouched and no fields are reported.
  pub consume-IsAtomic :
      (f : Frame) (t : Tracker) (st : S) → IsAtomic f st (consume decode f (t, st))
  unfolding consume
  consume-IsAtomic (headers_frame f) t st =
      consume_header_start-IsAtomic (headers_frame f) f.frame_header.stream_id
        (has_flag f.frame_header.flags flag_end_stream)
        (has_flag f.frame_header.flags flag_end_headers) f.block_fragment t st
  consume-IsAtomic (push_promise_frame f) t st =
      consume_header_start-IsAtomic (push_promise_frame f) f.frame_header.stream_id false
        (has_flag f.frame_header.flags flag_end_headers) f.block_fragment t st
  consume-IsAtomic (continuation_frame f) t st = consume_continuation-IsAtomic f t st
  consume-IsAtomic _ t st = (refl, inr (refl, refl, refl))

  -- Stream 0 stands for "no block": a block that HEADERS opens there is never joined, and the
  -- CONTINUATION frame behind it is refused as unexpected, whatever its flags.
  pub consume_stream_zero :
      (h : HeadersFrame) (c : ContinuationFrame) (st : S)
      → h.frame_header.stream_id ≡ 0
      → has_flag h.frame_header.flags flag_end_headers ≡ false
      → (consume decode (continuation_frame c) (consume decode (headers_frame h) (idle, st)).0).1
        ≡ error_event (continuation_frame c) (unexpected_continuation c.frame_header.stream_id)
  unfolding consume
  consume_stream_zero h c st zero_id more = rw (more, zero_id)
