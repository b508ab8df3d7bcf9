-- ===== src/Tests/Sessions.antt =====
-- Sessions over the connection in memory: the theorems of Session at concrete inputs.
use mh2c_go.Base.{
  none, ◌≡◌, ◌+◌, ◌≤◌, length, List, Bytes, refl, arith, true, false, [], ◌∷◌, ◌++◌, some, ok,
  codes,
}
use mh2c_go.Frame.{PingFrame, GoAwayFrame, ping_frame, go_away_frame}
use mh2c_go.Frame.Codec.{header, payload}
use mh2c_go.Frame.Control.{ping_payload, new_go_away_frame, go_away_payload}
use mh2c_go.Frame.RoundTrip.{IsValid}
use mh2c_go.Session.{Output, Session, settings_ack, initial_settings, start_session}
use mh2c_go.Session.Start.{opened_hearing, start_session_lem}
use mh2c_go.Session.Requested.{request_bytes, send_request_lem}
use mh2c_go.Session.Request.{send_request}
use mh2c_go.Session.Loops.{receive_response_frames, receive_observe_frames, receive_ping_frames}
use mh2c_go.Session.Exchange.{Succeeds, Exchanged, frame_bytes}
use mh2c_go.Session.Hearing.{Decodes, hearing, heard_all, unheard}
use mh2c_go.Session.Observe.{Plain, wire, acks, receive_observe_frames_lem}
use mh2c_go.Session.Ping.{receive_ping_frames_lem}
use mh2c_go.Session.Response.{Ending, receive_response_frames_lem}
use mh2c_go.Wire.{append_uint32}
use mh2c_go.Hpack.{HeaderField, encode, encode_fields, new_request_codec}
use mh2c_go.Client.Core.{Client, connection_preface, new_with_conn}
use mh2c_go.Base.State.{M}
use mh2c_go.Client.Tracker.{consume}
use mh2c_go.Display.Json.{JsonOptions}
use mh2c_go.Display.Controller.{Writer, Controller, Shown, controller_output}
use mh2c_go.Display.Printer.{Printing, printer}
use mh2c_go.Display.Reports.{Writes, controller_output-Succeeds}
use mh2c_go.Display.Printed.{Prints, printer-Writes}
use mh2c_go.Script.Values.{ScriptTable}
use mh2c_go.Script.Run.{execute_script}
use mh2c_go.Script.Sequence.{run_all, script_steps, execute_script-run_all}
use mh2c_go.Tests.Scripts.{ascii, ack_action}
use mh2c_go.Tests.Clients.{
  table_settings_frame, plain_library, Pipe, pipe, pipe-InOrder, table_settings,
  table_settings-IsValid, length-table_settings, client,
}

-- The controller of the program over a printer that keeps the text.
abbrev append : Bytes → M Bytes (Unit {0})
append line text = (text ++ line, ok tt)

abbrev pub plain_printing : Printing
plain_printing = record {
  State = Bytes;
  write = append;
  quote = λ text. text;
  marshal_json = λ e. ok e.summary;
  duration_text = λ d. [];
  error_text = λ why. [];
}

abbrev pub plain_printing-Prints : Prints plain_printing
plain_printing-Prints = record { writes = λ bs s. refl; marshals = λ e. (e.summary, refl) }

abbrev pub plain_options : JsonOptions
plain_options = record { data_format = codes "both"; data_limit = 64; show_header_block = false }

abbrev pub plain_writer : Writer
plain_writer = printer plain_printing (codes "text") plain_options

abbrev pub plain_controller : Controller
plain_controller = record {
  filters = record { frame_filters = []; direction_filter = []; stream_filter = none };
  decode_headers = true;
}

abbrev pub screen : Output
screen = controller_output plain_writer plain_controller

pub plain_writer-Writes : Writes plain_writer
plain_writer-Writes =
    printer-Writes plain_printing (codes "text") plain_options plain_printing-Prints (omega arith)

pub screen-Succeeds : Succeeds screen
screen-Succeeds = controller_output-Succeeds plain_writer plain_controller plain_writer-Writes

abbrev pub blank : Shown plain_writer plain_controller
blank = record { capture = none; written = [] }

abbrev pub answer : PingFrame
answer = record {
  frame_header = record { length = 8; type = 6; flags = 1; stream_id = 0 };
  content = 1 ∷ 2 ∷ 3 ∷ 4 ∷ 5 ∷ 6 ∷ 7 ∷ 8 ∷ [];
}

-- SETTINGS waits, then the answer to a PING, then one more byte.
abbrev inbox : Pipe
inbox = record {
  incoming = wire (table_settings ∷ []) ++ (frame_bytes (ping_frame answer) ++ (7 ∷ []));
  outgoing = 9 ∷ [];
}

abbrev session : Session plain_library pipe screen
session = record { client = record client { conn = some inbox }; out = blank }

settings-Plain : Plain 17 table_settings
settings-Plain = record {
  valid = table_settings-IsValid;
  fits = omega (arith, length-table_settings);
  stays = refl;
}

answer-Plain : Plain 17 (ping_frame answer)
unfolding header payload ping_payload
answer-Plain = record {
  valid = record {
    length_is = refl;
    short = omega arith;
    stream_id_fits = omega arith;
    body = (refl, refl);
  };
  fits = omega arith;
  stays = refl;
}

pub table_settings-Decodes :
    (c : Client plain_library pipe) → Decodes (table_settings ∷ []) (hearing c)
table_settings-Decodes c = ((unheard table_settings (hearing c) refl).0, tt)

receive_observe_frames_lem_example :
    Exchanged pipe-InOrder screen-Succeeds
      (receive_observe_frames 17 3 1 0 session)
      false
      (frame_bytes (ping_frame answer) ++ (7 ∷ []))
      ((9 ∷ []) ++ acks (table_settings ∷ []))
      (heard_all (table_settings ∷ []) (hearing session.client))
receive_observe_frames_lem_example =
    receive_observe_frames_lem pipe-InOrder screen-Succeeds 17 3 (table_settings ∷ [])
      (frame_bytes (ping_frame answer) ++ (7 ∷ [])) session inbox (settings-Plain, tt) refl refl
      (table_settings-Decodes session.client) (omega arith) (omega arith) (omega arith)

receive_ping_frames_lem_example :
    Exchanged pipe-InOrder screen-Succeeds
      (receive_ping_frames 17 3 answer.content session)
      false
      (7 ∷ [])
      ((9 ∷ []) ++ acks (table_settings ∷ []))
      (heard_all (table_settings ∷ []) (hearing session.client))
receive_ping_frames_lem_example =
    receive_ping_frames_lem pipe-InOrder screen-Succeeds 17 3 (table_settings ∷ []) answer (7 ∷ [])
      session inbox (settings-Plain, tt) (refl, tt) answer-Plain refl refl refl
      (table_settings-Decodes session.client) (omega arith) (omega arith)

-- The answer waits, then SETTINGS, then one more byte.
abbrev peer : Pipe
peer = record {
  incoming = wire (ping_frame answer ∷ []) ++ (frame_bytes table_settings ++ (7 ∷ []));
  outgoing = [];
}

abbrev pub opened : Session plain_library pipe screen
opened = record { client = record client { conn = some peer }; out = blank }

pub settings-Plain_wide : Plain 27 table_settings
settings-Plain_wide = record {
  valid = table_settings-IsValid;
  fits = omega (arith, length-table_settings);
  stays = refl;
}

pub answer-Plain_wide : Plain 27 (ping_frame answer)
answer-Plain_wide = record {
  valid = answer-Plain.valid;
  fits = omega (arith, answer-Plain.fits);
  stays = refl;
}

start_session_lem_example :
    Exchanged pipe-InOrder screen-Succeeds
      (start_session 27 5 4096 opened)
      tt
      (7 ∷ [])
      ((([] ++ connection_preface) ++ frame_bytes (initial_settings 4096))
        ++ (acks (ping_frame answer ∷ []) ++ frame_bytes settings_ack))
      (heard_all (ping_frame answer ∷ []) (opened_hearing 4096 opened))
start_session_lem_example =
    start_session_lem pipe-InOrder screen-Succeeds 27 5 4096 (ping_frame answer ∷ [])
      table_settings_frame (7 ∷ []) opened peer (answer-Plain_wide, tt) (refl, tt)
      settings-Plain_wide refl refl refl
      ((unheard (ping_frame answer) (opened_hearing 4096 opened) refl).0, tt) (omega arith)
      (omega arith) (omega arith)

-- A request with one field, which the library encodes as its name, and a body of two bytes.
abbrev fields : List HeaderField
fields = record { name = 1 ∷ 2 ∷ []; value = 3 ∷ []; sensitive = false } ∷ []

fields_encoded : (encode fields session.client.request_codec).1 ≡ ok (1 ∷ 2 ∷ [])
unfolding encode encode_fields new_with_conn new_request_codec
fields_encoded = refl

send_request_lem_example :
    Exchanged pipe-InOrder screen-Succeeds
      (send_request 20 1 fields (5 ∷ 6 ∷ []) session)
      tt
      inbox.incoming
      ((9 ∷ []) ++ request_bytes 1 (1 ∷ 2 ∷ []) (5 ∷ 6 ∷ []))
      (hearing session.client)
send_request_lem_example =
    send_request_lem pipe-InOrder screen-Succeeds 20 1 fields (1 ∷ 2 ∷ []) (5 ∷ 6 ∷ []) session
      inbox fields_encoded (omega arith) (omega arith) (omega arith) refl (omega arith)
      (omega arith)

-- Two actions: SETTINGS with ACK, and an action without a type, which fails.
abbrev no_keys : ScriptTable
no_keys = λ k. none

execute_script-run_all_example :
    execute_script ascii 27 5 (ack_action ∷ no_keys ∷ []) opened
    ≡ run_all (script_steps ascii 27 5 0 (ack_action ∷ no_keys ∷ [])) opened
execute_script-run_all_example =
    execute_script-run_all ascii 27 5 (ack_action ∷ no_keys ∷ []) opened

-- SETTINGS waits, then GOAWAY, then one more byte.
abbrev last_word : GoAwayFrame
last_word = new_go_away_frame 0 0 []

last_word-IsValid : IsValid (go_away_frame last_word)
unfolding header payload go_away_payload new_go_away_frame append_uint32
last_word-IsValid = record {
  length_is = refl;
  short = omega arith;
  stream_id_fits = omega arith;
  body = (refl, omega arith, omega arith);
}

last_word_fits : 9 + length (payload (go_away_frame last_word)) ≤ 17
unfolding payload go_away_payload new_go_away_frame append_uint32
last_word_fits = omega arith

abbrev leaving : Pipe
leaving = record {
  incoming = wire (table_settings ∷ []) ++ (frame_bytes (go_away_frame last_word) ++ (7 ∷ []));
  outgoing = [];
}

abbrev left : Session plain_library pipe screen
left = record { client = record client { conn = some leaving }; out = blank }

receive_response_frames_lem_example :
    Ending pipe-InOrder screen-Succeeds (receive_response_frames 17 2 1 left) true (7 ∷ [])
unfolding consume
receive_response_frames_lem_example =
    receive_response_frames_lem pipe-InOrder screen-Succeeds 17 2 1 (table_settings ∷ []) last_word
      (7 ∷ []) left leaving (settings-Plain, tt) last_word-IsValid last_word_fits refl refl
      (table_settings-Decodes left.client) (omega arith) (omega arith)
