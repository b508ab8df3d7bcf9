-- ===== src/Lib.antt =====
-- mh2c-go: an HTTP/2 client for malformed and unusual traffic, and the command mh2c over it.
--
-- The parts, from the bottom up:
-- - internal/wire: numbers of 16, 24 and 32 bits as big-endian bytes. Wire and Wire/RoundTrip.
-- - frame: the frame header and the ten frame types of HTTP/2, with a raw type for all others;
--   constructors, `Payload`, `MarshalBinary`, the parser of each type, `Marshal` and `Unmarshal`.
--   Frame holds the records and the flags, Frame/Framing the header (frame/frame.go), Frame/Padding
--   what DATA, HEADERS and PUSH_PROMISE share, Frame/Data, Headers, PushPromise, Settings and
--   Control the files of those names (Control: priority, rst_stream, ping, goaway, window_update,
--   continuation, raw), Frame/Codec the two switches of frame/frame.go. Frame/Safety and
--   Frame/RoundTrip hold the proofs.
-- - hpack/codec.go: a codec over the package golang.org/x/net/http2/hpack. Hpack. The package is the
--   record `Library`, a parameter: an encoder and a decoder of any state types.
-- - client/client.go and client/event.go: the client, its two codecs, and the two trackers that
--   join the fragments of header blocks. Client/Core has the state and one function for each method,
--   Client/Tracker the tracker, Client/Conn the connection, which is a parameter as well, with the
--   loops of `SendRaw` and of `io.ReadFull` over it. Client/Transport, Client/Delivery and the
--   children of Client/Tracker hold the proofs.
-- - cmd/mh2c/session.go and request.go: the start of a session, the acknowledgements, the receive
--   loops of the modes, and the frames of a request. Session, Session/Loops, Session/Request;
--   Session/Hearing, Exchange, Start, Observe, Ping, Response and Requested hold the proofs. What
--   the loops use of the output is the record `Output`, an interface.
-- - cmd/mh2c/output_capture.go: the streams whose headers and body are kept. Capture, with the proofs
--   in Capture/Streams and Capture/Selection.
-- - cmd/mh2c/output_filter.go and output.go: which frames are shown, and the controller that the
--   loops report to. Display/Filter, with the proof in Display/Shows, and Display/Controller, whose
--   `controller_output` fills the interface `Output`. What it writes goes through the record
--   `Writer`, an interface as well.
-- - internal/framefmt, and cmd/mh2c/output_format.go, output_text.go and output_json.go: bytes and
--   frames as text, and the JSON events. Display/Format, Display/Text, Display/Json, and
--   Display/Printer, whose `printer` fills `Writer`; Frame/Strings has the `String` methods of the
--   frames. Display/Prefix, Truncated and Printed hold the proofs.
-- - cmd/mh2c/script*.go: scripts. Script/Values are the tables (script_value.go), Script/Text what
--   is used of strings, strconv and encoding/hex, Script/Parser script_parser.go, Script/Spec and its
--   children Actions, Checks, Validate and Describe script_spec.go, Script/Fields and Script/Build
--   script_frame.go, Script/Options and Script/Receive script_receive.go, Script/Repeat and
--   Script/Run script.go. Script/Framed, Numbers, Iterations, Pause and Sequence hold the proofs, and
--   Script/Spec/Conforms, Repeats and Located those of the validation.
-- - cmd/mh2c/config.go and endpoint.go: Config has the configuration and its validation, Config/Flags
--   what is used of the package flag, Config/Arguments the commands, Config/Connection the function
--   `applyScriptConnection` of script.go, Config/Endpoint the endpoint, and Config/Setup what
--   output.go and request.go make of a configuration. Config/Checked and Reached hold the proofs.
-- - tlsconn/tlsconn.go: Tlsconn. crypto/tls is the record `Tls`, a parameter; `tls_conn` fills the
--   interface `Conn` of the client. Client/Dial has the options of client/client.go and `New`.
-- - cmd/mh2c/main.go: Main/Prepare is `run` up to the endpoint, Main/Connect the writer of
--   output_writer.go, the controller and the client, and `run` as a whole, and Main/Run the session
--   of each mode and its end. Main/Prepared, Secured and PingRun hold the proofs.
-- Base has the shared helpers: numbers and lists of bytes, Go's results, state with errors.
--
-- How Go is modelled. Numbers are natural numbers with the wrap of their width written out; an int64
-- of a script is the ℤ of Base/Int. A slice and a string are a list of byte values. A method that
-- changes its receiver is a function from the state before to the state after and a result. A
-- result is a value, one of the errors of Base/Outcome, a run-time panic, or `diverge`, which is no
-- Go value: the model ran out of rounds. Where the callers drop the value beside an error, as they
-- do with `sawGoAway`, the model has the error only.
--
-- Loops. The loops over a connection have a number of rounds: for `write_all` and `read_full` the
-- number of bytes is enough on a connection where each call moves one byte at least, and for the
-- receive loops the number of frames that wait; theorems say so. All others are by structure.
--
-- Assumptions, each a record that the tests fill. `InOrder` of Client/Transport: a write sends a
-- positive number of the bytes it is given, in order, and a read gives a positive number of those
-- that wait. `Succeeds` of Session/Exchange: no report of the output fails but that of a header
-- block that does not decode; Display/Reports and Display/Printed fill it for the controller, over
-- a writer that takes all (`Prints`), and Client/Healthy fills `InOrder` for a TLS connection.
-- `Unicode` of Script/Text stands for `strings.TrimSpace`, `ToUpper` and `ToLower`, about which
-- nothing is assumed. Nothing is assumed either of the other parameters, which `World` of
-- Main/Connect gathers in part: the order in which a loop visits the keys of a map,
-- `time.ParseDuration`, `url.Parse`, the TOML decoder, `strconv.Quote`, `json.Marshal`, the
-- writers, and the reading and writing of files.
--
-- Not modelled: the context with the timeout, which `run` hands down to `Dial` and nothing reads;
-- the 5 seconds that the dial itself has; the closing of files; the usage texts of the flags; the
-- accessors and the debug text of the client; and the program of examples/jsonl-summary, which
-- stands on its own.
pub mod Base
pub mod Wire
pub mod Frame
pub mod Hpack
pub mod Tlsconn
pub mod Client
pub mod Script
pub mod Session
pub mod Capture
pub mod Display
pub mod Config
pub mod Main
mod Tests
