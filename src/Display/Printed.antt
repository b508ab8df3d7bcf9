-- ===== src/Display/Printed.antt =====
-- cmd/mh2c/output.go, output_text.go, output_json.go and internal/framefmt: what is printed without an
-- error.
use mh2c_go.Base.{
  ℕ, ◌^◌, ◌<◌, ◌≡◌, refl, ap, ◌∙◌, arith, Bool, true, false, not, ◌||◌, ◌&&◌, Bool-cases, inl, inr,
  List, [], ◌∷◌, ◌++◌, ◌==◌, ltb, length, take, Option, none, some, Bytes, bytes_eq, codes, Result,
  ok, slice, slice_in_range,
}
use mh2c_go.Base.State.{M, ◌>>◌}
use mh2c_go.Frame.{
  Frame, data_frame, headers_frame, push_promise_frame, ping_frame, go_away_frame,
  continuation_frame, raw_frame,
}
use mh2c_go.Frame.Codec.{header, payload}
use mh2c_go.Frame.Strings.{number_text, frame_text}
use mh2c_go.Display.Filter.{frame_type_name}
use mh2c_go.Hpack.{HeaderField}
use mh2c_go.Display.Format.{
  over_limit, truncate_hex, hex_summary, data_text_json, data_text_limited,
}
use mh2c_go.Display.Text.{
  TextFrame, write_line, hex_line, text_line, block_line, write_text_payload, write_body,
  write_warnings, write_fields, write_text_frame,
}
use mh2c_go.Display.Json.{
  JsonFrameEvent, JsonOptions, bare_event, payload_hex_for_json, apply_json_data_payload,
  build_json_event, with_payload, with_data,
}
use mh2c_go.Display.Printer.{Printing, write_json, write_notice, write_frame, printer}
use mh2c_go.Display.Reports.{Always, Writes, then_Always}

abbrev Gives : {A : Type 0} → Result A → Type 0
Gives {A} r = (a : A) × (r ≡ ok a)

-- The cut at a limit that is passed is in range.
cut_Gives :
    (bs : Bytes) (limit : ℕ)
    → limit < 2 ^ 63
    → over_limit (length bs) limit ≡ true
    → Gives (slice 0 limit bs)
cut_Gives bs limit small over = (
  take limit bs,
  slice_in_range 0 limit bs (omega arith) (ground (arith, over))
      ∙ ap (λ k. ok (take k bs)) (omega arith),
)

truncate_hex-Gives : (bs : Bytes) (limit : ℕ) → limit < 2 ^ 63 → Gives (truncate_hex bs limit)
unfolding truncate_hex
truncate_hex-Gives bs limit small =
    elim (Bool-cases ((limit == 0) || not (over_limit (length bs) limit))) [
      | inl whole ↦ rw whole (_, refl)
      | inr cut ↦
          rw cut (let (c, e) = cut_Gives bs limit small (ground (arith, cut)) in rw e (_, refl))
    ]

data_text_json-Gives :
    (quote : Bytes → Bytes) (bs : Bytes) (limit : ℕ)
    → limit < 2 ^ 63
    → Gives (data_text_json quote bs limit)
unfolding data_text_json
data_text_json-Gives quote bs limit small = elim (Bool-cases (length bs == 0)) [
  | inl empty ↦ rw empty (_, refl)
  | inr full ↦ elim (Bool-cases (not (limit == 0) && over_limit (length bs) limit)) [
    | inl cut ↦
        let (c, e) = cut_Gives bs limit small (ground (arith, cut)) in rw (full, cut, e) (_, refl)
    | inr whole ↦ rw (full, whole) (_, refl)
  ]
]

-- A writer that takes all it is given, and a `json.Marshal` that takes every event.
pub record Prints (P : Printing) : Type 0 where
  pub writes : (bs : Bytes) → Always (P.write bs)
  pub marshals : (e : JsonFrameEvent) → Gives (P.marshal_json e)

module _ (quote : Bytes → Bytes) {S : Type 0} (write : Bytes → M S (Unit {0}))
    (writes : (bs : Bytes) → Always (write bs)) where
  hex_line-Always :
      (label bs : Bytes) (limit : ℕ) → limit < 2 ^ 63 → Always (hex_line quote write label bs limit)
  unfolding hex_summary
  hex_line-Always label bs limit small s =
      let (r, e) = truncate_hex-Gives bs limit small in rw e (writes _ s)

  text_line-Always :
      (label bs : Bytes) (limit : ℕ)
      → limit < 2 ^ 63
      → Always (text_line quote write label bs limit)
  unfolding data_text_limited
  text_line-Always label bs limit small s =
      let (r, e) = data_text_json-Gives quote bs limit small in rw e (writes _ s)

  block_line-Always :
      (show : Bool) (label bs : Bytes) (limit : ℕ)
      → limit < 2 ^ 63
      → Always (block_line quote write show label bs limit)
  block_line-Always true label bs limit small s = hex_line-Always label bs limit small s
  block_line-Always false label bs limit small s = refl

  write_text_payload-Always :
      (format : Bytes) (limit : ℕ) (label bs : Bytes)
      → limit < 2 ^ 63
      → Always (write_text_payload quote write format limit label bs)
  unfolding write_text_payload
  write_text_payload-Always format limit label bs small s =
      let hex_label = label ++ codes "-hex" in
      elim (Bool-cases (bytes_eq format (codes "text"))) [
        | inl text ↦ rw text (text_line-Always label bs limit small s)
        | inr other ↦ elim (Bool-cases (bytes_eq format (codes "hex"))) [
          | inl hex ↦ rw (other, hex) (hex_line-Always hex_label bs limit small s)
          | inr both ↦
              rw (other, both)
                (then_Always (hex_line quote write hex_label bs limit)
                  (text_line quote write label bs limit) (hex_line-Always hex_label bs limit small)
                  (text_line-Always label bs limit small) s)
        ]
      ]

  write_body-Always :
      (o : TextFrame) (f : Frame) → o.data_limit < 2 ^ 63 → Always (write_body quote write o f)
  unfolding write_body
  write_body-Always o (headers_frame f) small s =
      block_line-Always o.show_header_block _ _ _ small s
  write_body-Always o (continuation_frame f) small s =
      block_line-Always o.show_header_block _ _ _ small s
  write_body-Always o (push_promise_frame f) small s =
      let label = codes "header-block-fragment" in
      then_Always
        (write_line quote write
          (codes "  promised-stream-id: " ++ number_text f.promised_stream_id))
        (block_line quote write o.show_header_block label f.block_fragment o.data_limit) (writes _)
        (block_line-Always o.show_header_block label f.block_fragment o.data_limit small) s
  write_body-Always o (data_frame f) small s =
      write_text_payload-Always o.data_format o.data_limit (codes "data") f.content small s
  write_body-Always o (ping_frame f) small s =
      write_text_payload-Always o.data_format o.data_limit (codes "ping") f.content small s
  write_body-Always o (go_away_frame f) small s = elim (Bool-cases (length f.debug_data == 0)) [
    | inl empty ↦ rw empty (writes _ s)
    | inr more ↦ rw more (
        write_text_payload-Always o.data_format o.data_limit (codes "debug-data") f.debug_data small
          s)
  ]
  write_body-Always o (raw_frame f) small s =
      hex_line-Always (codes "raw-payload-hex") f.raw_payload o.data_limit small s
  write_body-Always o f small s =
      hex_line-Always (codes "payload-hex") (payload f) o.data_limit small s

  write_warnings-Always : (ws : List Bytes) → Always (write_warnings quote write ws)
  unfolding write_warnings
  write_warnings-Always [] s = refl
  write_warnings-Always (w ∷ ws) s =
      then_Always (write_line quote write (codes "  header-warning: " ++ w))
        (write_warnings quote write ws) (writes _) (write_warnings-Always ws) s

  write_fields-Always : (fs : List HeaderField) → Always (write_fields quote write fs)
  unfolding write_fields
  write_fields-Always [] s = refl
  write_fields-Always (f ∷ fs) s =
      then_Always (write_line quote write (codes "  header " ++ f.name ++ codes ": " ++ f.value))
        (write_fields quote write fs) (writes _) (write_fields-Always fs) s

  write_text_frame-Always :
      (o : TextFrame) → o.data_limit < 2 ^ 63 → Always (write_text_frame quote write o)
  unfolding write_text_frame
  write_text_frame-Always o small =
      let first = write_line quote write (o.prefix ++ codes " " ++ frame_text o.frame) in
      let body = write_body quote write o o.frame in
      let warnings = write_warnings quote write o.warnings in
      let fields = write_fields quote write o.headers in
      then_Always first (body >> (warnings >> fields)) (writes _) (
        then_Always body (warnings >> fields) (write_body-Always o o.frame small) (
          then_Always warnings fields (write_warnings-Always o.warnings)
            (write_fields-Always o.headers)))

module _ (quote : Bytes → Bytes) (o : JsonOptions) (small : o.data_limit < 2 ^ 63) where
  with_payload-Gives :
      (block : Option Bytes) (e : JsonFrameEvent) → Gives (with_payload quote o block e)
  with_payload-Gives none e = (e, refl)
  with_payload-Gives (some bs) e =
      let (r, h) = truncate_hex-Gives bs o.data_limit small in rw h (_, refl)

  payload-Gives : (e : JsonFrameEvent) (bs : Bytes) → Gives (apply_json_data_payload quote o e bs)
  unfolding apply_json_data_payload
  payload-Gives e bs =
      let (h, hex) = truncate_hex-Gives bs o.data_limit small in
      let (t, text) = data_text_json-Gives quote bs o.data_limit small in
      elim (Bool-cases (bytes_eq o.data_format (codes "text"))) [
        | inl is_text ↦ rw (is_text, text) (_, refl)
        | inr other ↦ elim (Bool-cases (bytes_eq o.data_format (codes "hex"))) [
          | inl is_hex ↦ rw (other, is_hex, hex) (_, refl)
          | inr both ↦ rw (other, both, hex, text) (_, refl)
        ]
      ]

  with_data-Gives : (f : Frame) (e : JsonFrameEvent) → Gives (with_data quote o f e)
  unfolding apply_json_data_payload
  with_data-Gives (data_frame f) e = payload-Gives e f.content
  with_data-Gives (ping_frame f) e = payload-Gives e f.content
  with_data-Gives (go_away_frame f) e = elim (Bool-cases (ltb 0 (length f.debug_data))) [
    | inl more ↦ rw more (payload-Gives e f.debug_data)
    | inr empty ↦ rw empty (e, refl)
  ]
  with_data-Gives f e = (e, refl)

  build_json_event-Gives :
      (direction : Bytes) (f : Frame) (headers : List HeaderField) (warnings : List Bytes)
      → Gives (build_json_event quote o direction f headers warnings)
  unfolding build_json_event
  build_json_event-Gives direction f headers warnings =
      let (e, made) = with_payload-Gives (payload_hex_for_json f o.show_header_block) (
        bare_event direction (frame_type_name f) (header f).stream_id (header f).flags
          (frame_text f)) in
      let (e', filled) = with_data-Gives f e in rw (made, filled) (_, refl)

module _ (P : Printing) (format : Bytes) (o : JsonOptions) (prints : Prints P)
    (small : o.data_limit < 2 ^ 63) where
  write_json-Always : (e : JsonFrameEvent) → Always (write_json P format o e)
  unfolding write_json
  write_json-Always e s = let (line, h) = prints.marshals e in rw h (prints.writes _ s)

  write_notice-Always :
      (direction kind summary : Bytes) → Always (write_notice P format o direction kind summary)
  unfolding write_notice
  write_notice-Always direction kind summary s =
      elim (Bool-cases (bytes_eq format (codes "jsonl"))) [
        | inl json ↦ rw json (write_json-Always (bare_event direction kind 0 0 summary) s)
        | inr text ↦ rw text (prints.writes _ s)
      ]

  write_frame-Always :
      (direction : Bytes) (f : Frame) (headers : List HeaderField) (warnings : List Bytes)
      → Always (write_frame P format o direction f headers warnings)
  unfolding write_frame
  write_frame-Always direction f headers warnings s =
      elim (Bool-cases (bytes_eq format (codes "jsonl"))) [
        | inl json ↦
            let (e, h) = build_json_event-Gives P.quote o small direction f headers warnings in
            rw (json, h) (write_json-Always e s)
        | inr text ↦ rw text (write_text_frame-Always P.quote P.write prints.writes _ small s)
      ]

  -- Over a writer that takes all it is given and a `json.Marshal` that takes every event, with a limit
  -- on the data below 2 ^ 63: no notice and no frame of any kind fails or panics, in both formats.
  pub printer-Writes : Writes (printer P format o)
  printer-Writes = record { notices = write_notice-Always; frames = write_frame-Always }
