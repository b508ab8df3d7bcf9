-- ===== src/Script/Receive.antt =====
-- cmd/mh2c/script_receive.go: the action `receive`.
use mh2c_go.Base.{
  ℕ, zero, suc, Bool, true, false, not, ◌&&◌, ◌||◌, [], leb, ◌==◌, none, some, Bytes, bytes_eq,
  codes, diverge,
}
use mh2c_go.Base.State.{M, ◌>>=◌, ◌>>◌, pure, fail, lift}
use mh2c_go.Frame.{
  Frame, data_frame, headers_frame, settings_frame, ping_frame, go_away_frame, flag_ack,
  flag_end_stream, has_flag,
}
use mh2c_go.Hpack.{Library}
use mh2c_go.Client.Conn.{Conn}
use mh2c_go.Client.Tracker.{FrameEvent}
use mh2c_go.Session.{
  Output, Session, when, settings_ack, ping_ack, send_frame_and_report, receive_and_report,
}
use mh2c_go.Session.Loops.{Verdict, go_on, return_with}
use mh2c_go.Script.Values.{ScriptTable}
use mh2c_go.Script.Options.{ReceiveOptions, parse_receive_options}

abbrev pub is_until : ReceiveOptions → Bytes → Bool
is_until o word = bytes_eq o.until word

-- `hasStreamID && streamID == id`
abbrev pub is_target : ReceiveOptions → ℕ → Bool
is_target o id = elim o.stream_id [ none ↦ false | some wanted ↦ id == wanted ]

abbrev pub block_ends : ReceiveOptions → FrameEvent → Bool
block_ends o event =
    event.header_block_complete
    && (is_until o (codes "end_stream")
        && (is_target o event.header_block_stream_id && event.header_block_end_stream))

abbrev pub verdict_if : Bool → Bool → Verdict
verdict_if true saw = return_with saw
verdict_if false saw = go_on saw

-- What the switch over the frame type decides, with `sawGoAway` so far.
unfoldable pub receive_verdict : ReceiveOptions → Bool → Frame → Verdict
receive_verdict o saw (settings_frame f) =
    let acked = has_flag f.frame_header.flags flag_ack in
    verdict_if
      ((is_until o (codes "settings") && not acked) || (is_until o (codes "settings_ack") && acked))
      saw
receive_verdict o saw (ping_frame f) =
    verdict_if (is_until o (codes "ping_ack") && has_flag f.frame_header.flags flag_ack) saw
receive_verdict o saw (go_away_frame f) =
    verdict_if (is_until o [] || is_until o (codes "goaway")) true
receive_verdict o saw (data_frame f) =
    verdict_if
      (is_until o (codes "end_stream")
        && (is_target o f.frame_header.stream_id && has_flag f.frame_header.flags flag_end_stream))
      saw
receive_verdict o saw (headers_frame f) =
    verdict_if
      (is_until o (codes "end_stream")
        && (is_target o f.frame_header.stream_id && has_flag f.frame_header.flags flag_end_stream))
      saw
receive_verdict o saw _ = go_on saw

-- The test behind the switch: `until == "" && receivedCount >= count`.
abbrev pub count_verdict : ReceiveOptions → ℕ → Verdict → Verdict
count_verdict o received (return_with saw) = return_with saw
count_verdict o received (go_on saw) = verdict_if (is_until o [] && leb o.count received) saw

module _ {X : Library} {C : Conn} {O : Output} where
  -- The acknowledgements of the switch.
  unfoldable pub acknowledge : ℕ → ReceiveOptions → Frame → M (Session X C O) (Unit {0})
  unfolding send_frame_and_report
  acknowledge fuel o (settings_frame f) =
      when (o.ack_settings && not (has_flag f.frame_header.flags flag_ack))
        (send_frame_and_report fuel settings_ack)
  acknowledge fuel o (ping_frame f) =
      when (o.ack_ping && not (has_flag f.frame_header.flags flag_ack))
        (send_frame_and_report fuel (ping_ack f.content))
  acknowledge fuel o _ = pure tt

  -- The body of the loop behind `HandleReceived`.
  unfoldable pub receive_step :
      ℕ → ReceiveOptions → ℕ → Bool → FrameEvent → M (Session X C O) Verdict
  unfolding acknowledge receive_verdict
  receive_step fuel o received saw event = elim event.decode_error [
    | some why ↦ fail why
    | none ↦ elim (block_ends o event) [
      | true ↦ pure (return_with saw)
      | false ↦
          acknowledge fuel o event.frame
          >> pure (count_verdict o received (receive_verdict o saw event.frame))
    ]
  ]

  abbrev receive_on : Verdict → (Bool → M (Session X C O) Bool) → M (Session X C O) Bool
  receive_on (go_on saw) more = more saw
  receive_on (return_with saw) more = pure saw

  -- The loop, for at most `rounds` frames; an error drops `sawGoAway`, as the caller does.
  unfoldable pub receive_loop : ℕ → ℕ → ReceiveOptions → ℕ → Bool → M (Session X C O) Bool
  unfolding receive_and_report receive_step
  receive_loop fuel zero o received saw = λ s. (s, diverge)
  receive_loop fuel (suc rounds) o received saw = receive_and_report fuel >>= λ event.
      receive_step fuel o (suc received) saw event >>= λ v.
      receive_on v (receive_loop fuel rounds o (suc received))

  unfoldable pub execute_receive_action : ℕ → ℕ → ScriptTable → M (Session X C O) Bool
  unfolding receive_loop parse_receive_options
  execute_receive_action fuel rounds action =
      lift (parse_receive_options action) >>= λ o. receive_loop fuel rounds o 0 false
