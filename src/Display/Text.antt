-- ===== src/Display/Text.antt =====
-- internal/framefmt/text.go and cmd/mh2c/output_text.go: a frame as lines of text.
use mh2c_go.Base.{
  ℕ, Bool, true, false, List, [], ◌∷◌, ◌++◌, if◌then◌else◌, length, ◌==◌, Bytes, bytes_eq, codes,
}
use mh2c_go.Base.State.{M, ◌>>=◌, ◌>>◌, lift, pure}
use mh2c_go.Frame.{
  Frame, data_frame, headers_frame, push_promise_frame, ping_frame, go_away_frame,
  continuation_frame, raw_frame,
}
use mh2c_go.Frame.Codec.{payload}
use mh2c_go.Frame.Strings.{number_text, frame_text}
use mh2c_go.Hpack.{HeaderField}
use mh2c_go.Display.Format.{hex_summary, data_text_limited}

-- `TextFrame`
pub record TextFrame : Type 0 where
  pub prefix : Bytes
  pub frame : Frame
  pub headers : List HeaderField
  pub warnings : List Bytes
  pub show_header_block : Bool
  pub data_format : Bytes
  pub data_limit : ℕ

-- The writer, whose state is S, takes what one `Fprintf` or `Fprintln` writes.
module _ (quote : Bytes → Bytes) {S : Type 0} (write : Bytes → M S (Unit {0})) where
  abbrev pub write_line : Bytes → M S (Unit {0})
  write_line line = write (line ++ (10 ∷ []))

  abbrev pub hex_line : Bytes → Bytes → ℕ → M S (Unit {0})
  hex_line label bs limit = do
    text ← lift (hex_summary bs limit)
    write_line (codes "  " ++ label ++ codes ": " ++ text)

  abbrev pub text_line : Bytes → Bytes → ℕ → M S (Unit {0})
  text_line label bs limit = do
    text ← lift (data_text_limited quote bs limit)
    write_line (codes "  " ++ label ++ codes "-text: " ++ text)

  unfoldable pub write_text_payload : Bytes → ℕ → Bytes → Bytes → M S (Unit {0})
  write_text_payload data_format limit label bs =
      if bytes_eq data_format (codes "text")
      then text_line label bs limit
      else if bytes_eq data_format (codes "hex")
      then hex_line (label ++ codes "-hex") bs limit
      else (hex_line (label ++ codes "-hex") bs limit >> text_line label bs limit)

  abbrev pub block_line : Bool → Bytes → Bytes → ℕ → M S (Unit {0})
  block_line false label bs limit = pure tt
  block_line true label bs limit = hex_line label bs limit

  -- The switch over the frame's type.
  unfoldable pub write_body : TextFrame → Frame → M S (Unit {0})
  unfolding write_text_payload
  write_body o (headers_frame f) =
      block_line o.show_header_block (codes "header-block-fragment") f.block_fragment o.data_limit
  write_body o (continuation_frame f) =
      block_line o.show_header_block (codes "continuation-fragment") f.block_fragment o.data_limit
  write_body o (push_promise_frame f) =
      write_line (codes "  promised-stream-id: " ++ number_text f.promised_stream_id)
      >> block_line o.show_header_block (codes "header-block-fragment") f.block_fragment
          o.data_limit
  write_body o (data_frame f) =
      write_text_payload o.data_format o.data_limit (codes "data") f.content
  write_body o (ping_frame f) =
      write_text_payload o.data_format o.data_limit (codes "ping") f.content
  write_body o (go_away_frame f) =
      if length f.debug_data == 0
      then write_line (codes "  debug-data: <empty>")
      else write_text_payload o.data_format o.data_limit (codes "debug-data") f.debug_data
  write_body o (raw_frame f) = hex_line (codes "raw-payload-hex") f.raw_payload o.data_limit
  write_body o f = hex_line (codes "payload-hex") (payload f) o.data_limit

  unfoldable pub write_warnings : List Bytes → M S (Unit {0})
  write_warnings [] = pure tt
  write_warnings (w ∷ ws) = write_line (codes "  header-warning: " ++ w) >> write_warnings ws

  unfoldable pub write_fields : List HeaderField → M S (Unit {0})
  write_fields [] = pure tt
  write_fields (f ∷ fs) =
      write_line (codes "  header " ++ f.name ++ codes ": " ++ f.value) >> write_fields fs

  -- `WriteTextFrame`, with `Summary`.
  unfoldable pub write_text_frame : TextFrame → M S (Unit {0})
  unfolding write_body write_warnings write_fields
  write_text_frame o = do
    write_line (o.prefix ++ codes " " ++ frame_text o.frame)
    write_body o o.frame
    write_warnings o.warnings
    write_fields o.headers
