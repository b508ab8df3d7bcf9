-- ===== src/Session.antt =====
-- cmd/mh2c/session.go: a client together with its output, and the exchange of control frames.
pub mod Loops
pub mod Request
pub mod Requested
pub mod Start
pub mod Hearing
pub mod Exchange
pub mod Observe
pub mod Ping
pub mod Response
use mh2c_go.Base.{
  ℕ, zero, suc, Bool, true, false, not, List, [], ◌∷◌, if◌then◌else◌, none, some, Bytes, codes,
  Result, Error, ok, err, diverge,
}
use mh2c_go.Base.Int.{ℤ}
use mh2c_go.Base.State.{M, ◌>>=◌, ◌>>◌, pure, fail}
use mh2c_go.Frame.{
  Setting, Frame, settings_frame, ping_frame, go_away_frame, flag_ack, has_flag, SettingsFrame,
  PingFrame,
}
use mh2c_go.Frame.Settings.{
  new_settings_frame, setting_enable_push, setting_initial_window_size, setting_header_table_size,
}
use mh2c_go.Frame.Control.{new_ping_frame}
use mh2c_go.Hpack.{Library}
use mh2c_go.Client.Conn.{Conn}
use mh2c_go.Client.Tracker.{FrameEvent}
use mh2c_go.Client.Core.{Client, send_frame, receive_frame, send_connection_preface}

-- What the loops use of `outputController`; `duration_text` is `Duration.String`.
pub record Output : Type 1 where
  pub State : Type 0
  pub duration_text : ℤ → Bytes
  pub print_notice : Bytes → Bytes → Bytes → M State (Unit {0})
  pub handle_sent : FrameEvent → M State (Unit {0})
  pub handle_received : FrameEvent → M State (Unit {0})

pub record Session (X : Library) (C : Conn) (O : Output) : Type 0 where
  pub client : Client X C
  pub out : O.State

abbrev pub settings_ack : Frame
settings_ack = settings_frame (new_settings_frame flag_ack [])

abbrev pub ping_ack : Bytes → Frame
ping_ack content = ping_frame (new_ping_frame flag_ack content)

abbrev pub setting : ℕ → ℕ → Setting
setting id value = record { id = id; value = value }

abbrev pub initial_settings : ℕ → Frame
initial_settings max_table = settings_frame (
    new_settings_frame 0 (
      setting setting_enable_push 0
      ∷ setting setting_initial_window_size 65535
      ∷ setting setting_header_table_size max_table
      ∷ []))

module _ {X : Library} {C : Conn} {O : Output} where
  -- A call of the client, and of the output, inside the session.
  abbrev pub on_client : {A : Type 0} → M (Client X C) A → M (Session X C O) A
  on_client m s = (record s { client = (m s.client).0 }, (m s.client).1)

  abbrev pub on_output : {A : Type 0} → M O.State A → M (Session X C O) A
  on_output m s = (record s { out = (m s.out).0 }, (m s.out).1)

  abbrev pub when : Bool → M (Session X C O) (Unit {0}) → M (Session X C O) (Unit {0})
  when true m = m
  when false m = pure tt

  -- `fuel` bounds the reads and the writes of each frame.
  unfoldable pub send_frame_and_report : ℕ → Frame → M (Session X C O) (Unit {0})
  send_frame_and_report fuel f = do
    event ← on_client (send_frame fuel f)
    on_output (O.handle_sent event)

  -- `ReceiveFrame` and `HandleReceived`, with which each loop starts.
  unfoldable pub receive_and_report : ℕ → M (Session X C O) FrameEvent
  receive_and_report fuel = do
    event ← on_client (receive_frame fuel)
    on_output (O.handle_received event)
    pure event

  unfoldable pub ack_control_frame : ℕ → Frame → M (Session X C O) (Unit {0})
  unfolding send_frame_and_report
  ack_control_frame fuel (settings_frame f) =
      when (not (has_flag f.frame_header.flags flag_ack)) (send_frame_and_report fuel settings_ack)
  ack_control_frame fuel (ping_frame f) =
      when (not (has_flag f.frame_header.flags flag_ack))
        (send_frame_and_report fuel (ping_ack f.content))
  ack_control_frame fuel _ = pure tt

  -- `continue` on an acknowledgement, and else the answer that ends the loop.
  abbrev acked_or :
      Bool
      → M (Session X C O) (Unit {0})
      → M (Session X C O) (Unit {0})
      → M (Session X C O) (Unit {0})
  acked_or true more answer = more
  acked_or false more answer = answer

  -- What the body of the loop of `startSession` does with a frame; `more` runs the loop on.
  unfoldable pub start_step :
      ℕ → Frame → M (Session X C O) (Unit {0}) → M (Session X C O) (Unit {0})
  unfolding send_frame_and_report
  start_step fuel (settings_frame f) more =
      acked_or (has_flag f.frame_header.flags flag_ack) more
        (send_frame_and_report fuel settings_ack)
  start_step fuel (ping_frame f) more =
      when (not (has_flag f.frame_header.flags flag_ack))
        (send_frame_and_report fuel (ping_ack f.content))
      >> more
  start_step fuel (go_away_frame f) more = pure tt
  start_step fuel _ more = more

  -- The loop of `startSession`, for at most the given number of frames.
  unfoldable pub await_settings : ℕ → ℕ → M (Session X C O) (Unit {0})
  unfolding receive_and_report start_step
  await_settings fuel zero = λ s. (s, diverge)
  await_settings fuel (suc rounds) =
      receive_and_report fuel >>= λ event. start_step fuel event.frame (await_settings fuel rounds)

  unfoldable pub start_session : ℕ → ℕ → ℕ → M (Session X C O) (Unit {0})
  unfolding send_frame_and_report await_settings
  start_session fuel rounds max_table = do
    on_client (send_connection_preface fuel)
    on_output (O.print_notice (codes "sent") (codes "preface") (codes "CONNECTION_PREFACE"))
    send_frame_and_report fuel (initial_settings max_table)
    await_settings fuel rounds
