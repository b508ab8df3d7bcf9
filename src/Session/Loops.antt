-- ===== src/Session/Loops.antt =====
-- cmd/mh2c/session.go: the receive loops of the modes request, ping and observe.
use mh2c_go.Base.{
  ℕ, zero, suc, Bool, true, false, not, ◌&&◌, ◌||◌, ◌==◌, leb, ltb, if◌then◌else◌, Option, none,
  some, Bytes, bytes_eq, Result, Error, ok, err, diverge,
}
use mh2c_go.Base.State.{M, ◌>>=◌, ◌>>◌, pure, lift}
use mh2c_go.Frame.{
  Frame, data_frame, ping_frame, go_away_frame, flag_ack, flag_end_stream, has_flag,
}
use mh2c_go.Hpack.{Library}
use mh2c_go.Client.Conn.{Conn}
use mh2c_go.Client.Tracker.{FrameEvent}
use mh2c_go.Session.{Output, Session, receive_and_report, ack_control_frame}

-- What the body of a loop comes to: the loop goes on or returns, with `sawGoAway`. On an error the
-- callers drop that flag, so that the model gives the error only.
pub data Verdict : Type 0 where
  go_on : Bool → Verdict
  return_with : Bool → Verdict

abbrev pub is_go_away : Frame → Bool
is_go_away (go_away_frame _) = true
is_go_away _ = false

-- A DATA frame of the stream that ends it.
abbrev pub ends_stream : ℕ → Frame → Bool
ends_stream stream_id (data_frame f) =
    f.frame_header.stream_id == stream_id && has_flag f.frame_header.flags flag_end_stream
ends_stream stream_id _ = false

-- The tests of `receiveResponseFrames` behind the acknowledgement, in their order.
abbrev pub completes_block : ℕ → FrameEvent → Bool
completes_block stream_id event =
    event.header_block_complete
    && (event.header_block_stream_id == stream_id && event.header_block_end_stream)

abbrev pub verdict_without_error : ℕ → FrameEvent → Option Error → Result Verdict
verdict_without_error stream_id event (some why) = err why
verdict_without_error stream_id event none =
    if completes_block stream_id event || ends_stream stream_id event.frame
    then ok (return_with false)
    else ok (go_on false)

unfoldable pub response_verdict : ℕ → FrameEvent → Result Verdict
response_verdict stream_id event =
    if is_go_away event.frame
    then ok (return_with true)
    else verdict_without_error stream_id event event.decode_error

-- The switch of `receivePingFrames`.
unfoldable pub ping_verdict : Bytes → Frame → Verdict
ping_verdict want (ping_frame f) =
    if not (has_flag f.frame_header.flags flag_ack)
    then go_on false
    else if bytes_eq f.content want
    then return_with false
    else go_on false
ping_verdict want (go_away_frame f) = return_with true
ping_verdict want _ = go_on false

unfoldable pub observe_verdict : Frame → Verdict
observe_verdict f = if is_go_away f then return_with true else go_on false

-- `maxRecv > 0 && received >= maxRecv`
abbrev pub is_full : ℕ → ℕ → Bool
is_full max_recv received = ltb 0 max_recv && leb max_recv received

module _ {X : Library} {C : Conn} {O : Output} where
  abbrev pub follow : Verdict → M (Session X C O) Bool → M (Session X C O) Bool
  follow (go_on _) more = more
  follow (return_with saw) more = pure saw

  -- Receive a frame, report it, and acknowledge it.
  unfoldable pub receive_and_ack : ℕ → M (Session X C O) FrameEvent
  unfolding receive_and_report ack_control_frame
  receive_and_ack fuel = do
    event ← receive_and_report fuel
    ack_control_frame fuel event.frame
    pure event

  -- Each loop runs for at most `rounds` frames.
  unfoldable pub receive_response_frames : ℕ → ℕ → ℕ → M (Session X C O) Bool
  unfolding receive_and_ack response_verdict
  receive_response_frames fuel zero stream_id = λ s. (s, diverge)
  receive_response_frames fuel (suc rounds) stream_id = do
    event ← receive_and_ack fuel
    v ← lift (response_verdict stream_id event)
    follow v (receive_response_frames fuel rounds stream_id)

  unfoldable pub receive_ping_frames : ℕ → ℕ → Bytes → M (Session X C O) Bool
  unfolding receive_and_ack ping_verdict
  receive_ping_frames fuel zero want = λ s. (s, diverge)
  receive_ping_frames fuel (suc rounds) want = do
    event ← receive_and_ack fuel
    follow (ping_verdict want event.frame) (receive_ping_frames fuel rounds want)

  abbrev pub unless_full : Bool → M (Session X C O) Bool → M (Session X C O) Bool
  unless_full true more = pure false
  unless_full false more = more

  unfoldable pub receive_observe_frames : ℕ → ℕ → ℕ → ℕ → M (Session X C O) Bool
  unfolding receive_and_ack observe_verdict
  receive_observe_frames fuel zero max_recv received =
      unless_full (is_full max_recv received) (λ s. (s, diverge))
  receive_observe_frames fuel (suc rounds) max_recv received =
      unless_full (is_full max_recv received) (
        receive_and_ack fuel >>= λ event.
        follow (observe_verdict event.frame)
          (receive_observe_frames fuel rounds max_recv (suc received)))
