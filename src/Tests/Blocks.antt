-- ===== src/Tests/Blocks.antt =====
-- Header blocks in fragments: the theorems of Client.Tracker at concrete inputs.
use mh2c_go.Base.{
  false, ℕ, suc, ◌≡◌, refl, arith, true, [], ◌∷◌, ◌++◌, Bytes, Error, ◌⊎◌, inl,
  unexpected_continuation, none,
}
use mh2c_go.Frame.{
  Header, HeadersFrame, ContinuationFrame, PushPromiseFrame, headers_frame, continuation_frame,
}
use mh2c_go.Hpack.{DecodeReport}
use mh2c_go.Client.Tracker.{
  Tracker, idle, consume, consume_continuation, finish, plain_event, error_event,
}
use mh2c_go.Client.Tracker.Fragments.{
  consume_all, consume_all-Fragmented, Fragmented, middle_frames, fragment_events, open_block,
}
use mh2c_go.Client.Tracker.Effects.{IsAtomic, consume-IsAtomic, consume_stream_zero}

-- A decoder that counts its calls and gives the block back as one field.
abbrev counting : Bytes → ℕ → ℕ × (DecodeReport ⊎ Error)
counting block n = (
  suc n,
  inl (record {
    fields = record { name = block; value = []; sensitive = false } ∷ [];
    warnings = [];
  }),
)

abbrev head_of : ℕ → ℕ → ℕ → Header
head_of type flags stream_id = record {
  length = 1;
  type = type;
  flags = flags;
  stream_id = stream_id;
}

abbrev headers_on : ℕ → ℕ → Bytes → HeadersFrame
headers_on flags stream_id block = record {
  frame_header = head_of 1 flags stream_id;
  pad_length = 0;
  priority = none;
  block_fragment = block;
}

abbrev continuation_on : ℕ → ℕ → Bytes → ContinuationFrame
continuation_on flags stream_id block = record {
  frame_header = head_of 9 flags stream_id;
  block_fragment = block;
}

abbrev promise_on : ℕ → PushPromiseFrame
promise_on stream_id = record {
  frame_header = head_of 5 4 stream_id;
  pad_length = 0;
  promised_stream_id = 2;
  block_fragment = [];
}

in_three-Fragmented :
    Fragmented
      (headers_on 1 3 (1 ∷ []))
      (continuation_on 0 3 (2 ∷ []) ∷ [])
      (continuation_on 4 3 (3 ∷ []))
      (headers_on 5 3 (1 ∷ 2 ∷ 3 ∷ []))
in_three-Fragmented = record {
  stream_ne_zero = omega arith;
  start_open = refl;
  middle = ((refl, refl), tt);
  last_stream = refl;
  last_ends = refl;
  whole_stream = refl;
  whole_ends = refl;
  whole_end_stream = refl;
  whole_block = refl;
}

consume_all-Fragmented_example :
    consume_all counting
      (headers_frame (headers_on 1 3 (1 ∷ []))
        ∷ (middle_frames (continuation_on 0 3 (2 ∷ []) ∷ [])
            ++ (continuation_frame (continuation_on 4 3 (3 ∷ [])) ∷ [])))
      (idle, 0)
    ≡ fragment_events counting
        (headers_on 1 3 (1 ∷ []))
        (continuation_on 0 3 (2 ∷ []) ∷ [])
        (continuation_on 4 3 (3 ∷ []))
        (consume counting (headers_frame (headers_on 5 3 (1 ∷ 2 ∷ 3 ∷ []))) (idle, 0))
consume_all-Fragmented_example =
    consume_all-Fragmented counting (headers_on 1 3 (1 ∷ [])) (continuation_on 0 3 (2 ∷ []) ∷ [])
      (continuation_on 4 3 (3 ∷ [])) (headers_on 5 3 (1 ∷ 2 ∷ 3 ∷ [])) 0 in_three-Fragmented

abbrev opened : Tracker
opened = open_block 3 (1 ∷ []) true

-- The joined block is decoded once, with the END_STREAM flag of its HEADERS frame.
last_fragment_event :
    (consume counting (continuation_frame (continuation_on 4 3 (2 ∷ []))) (opened, 0)).1
    ≡ record (plain_event (continuation_frame (continuation_on 4 3 (2 ∷ [])))) {
      headers = record { name = 1 ∷ 2 ∷ []; value = []; sensitive = false } ∷ [];
      header_block_stream_id = 3;
      header_block_end_stream = true;
      header_block_complete = true;
    }
unfolding consume consume_continuation finish
last_fragment_event = refl

consume-IsAtomic_example :
    IsAtomic counting
      (continuation_frame (continuation_on 4 3 (2 ∷ [])))
      0
      (consume counting (continuation_frame (continuation_on 4 3 (2 ∷ []))) (opened, 0))
consume-IsAtomic_example =
    consume-IsAtomic counting (continuation_frame (continuation_on 4 3 (2 ∷ []))) opened 0

consume_stream_zero_example :
    (consume counting
      (continuation_frame (continuation_on 4 0 (2 ∷ [])))
      (consume counting (headers_frame (headers_on 0 0 (1 ∷ []))) (idle, 0)).0).1
    ≡ error_event (continuation_frame (continuation_on 4 0 (2 ∷ []))) (unexpected_continuation 0)
consume_stream_zero_example =
    consume_stream_zero counting (headers_on 0 0 (1 ∷ [])) (continuation_on 4 0 (2 ∷ [])) 0 refl
      refl
