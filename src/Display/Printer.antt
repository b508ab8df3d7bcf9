-- ===== src/Display/Printer.antt =====
-- cmd/mh2c/output.go, output_text.go and output_json.go: what the output controller writes, in the
-- one or the other format.
use mh2c_go.Base.{List, ◌++◌, if◌then◌else◌, Bytes, bytes_eq, codes, Result, Error}
use mh2c_go.Base.Int.{ℤ}
use mh2c_go.Base.State.{M, ◌>>=◌, lift}
use mh2c_go.Frame.{Frame}
use mh2c_go.Hpack.{HeaderField}
use mh2c_go.Display.Controller.{Writer}
use mh2c_go.Display.Text.{write_line, write_text_frame}
use mh2c_go.Display.Json.{JsonFrameEvent, JsonOptions, bare_event, build_json_event}

-- The standard library's part: `strconv.Quote`, `json.Marshal`, `Duration.String` and the text of an
-- error; and the writer that the controller is given.
pub record Printing : Type 1 where
  pub State : Type 0
  pub write : Bytes → M State (Unit {0})
  pub quote : Bytes → Bytes
  pub marshal_json : JsonFrameEvent → Result Bytes
  pub duration_text : ℤ → Bytes
  pub error_text : Error → Bytes

module _ (P : Printing) (format : Bytes) (o : JsonOptions) where
  unfoldable pub write_json : JsonFrameEvent → M P.State (Unit {0})
  write_json e = do line ← lift (P.marshal_json e); write_line P.quote P.write line

  abbrev direction_prefix : Bytes → Bytes
  direction_prefix direction = if bytes_eq direction (codes "sent") then codes ">>" else codes "<<"

  -- `PrintNotice`, behind its test on the direction.
  unfoldable pub write_notice : Bytes → Bytes → Bytes → M P.State (Unit {0})
  unfolding write_json
  write_notice direction kind summary =
      if bytes_eq format (codes "jsonl")
      then write_json (bare_event direction kind 0 0 summary)
      else write_line P.quote P.write (direction_prefix direction ++ codes " " ++ summary)

  -- The last lines of `HandleSent` and of `HandleReceived`.
  unfoldable pub write_frame : Bytes → Frame → List HeaderField → List Bytes → M P.State (Unit {0})
  unfolding write_json
  write_frame direction f headers warnings =
      if bytes_eq format (codes "jsonl")
      then (lift (build_json_event P.quote o direction f headers warnings) >>= write_json)
      else write_text_frame P.quote P.write (record {
        prefix = direction_prefix direction;
        frame = f;
        headers = headers;
        warnings = warnings;
        show_header_block = o.show_header_block;
        data_format = o.data_format;
        data_limit = o.data_limit;
      })

  unfoldable pub skipped_text : Error → Bytes
  skipped_text why = codes "sent header decode skipped: " ++ P.error_text why

  abbrev pub printer : Writer
  printer = record {
    State = P.State;
    duration_text = P.duration_text;
    skipped_text = skipped_text;
    write_notice = write_notice;
    write_frame = write_frame;
  }
