-- ===== src/Main/Run.antt =====
-- cmd/mh2c/main.go: the session of each mode, and its end.
use mh2c_go.Base.{
  ℕ, Bool, not, ◌&&◌, List, [], if◌then◌else◌, Bytes, bytes_eq, codes, Result, ok, err,
  unsupported_mode,
}
use mh2c_go.Base.State.{M, ◌>>=◌, ◌>>◌, lift, pure, fail}
use mh2c_go.Frame.{Frame, ping_frame, go_away_frame}
use mh2c_go.Frame.Control.{new_ping_frame, new_go_away_frame}
use mh2c_go.Hpack.{Library}
use mh2c_go.Client.Conn.{Conn}
use mh2c_go.Session.{Output, Session, on_output, send_frame_and_report, start_session}
use mh2c_go.Session.Request.{build_request_fields, send_request}
use mh2c_go.Session.Loops.{receive_response_frames, receive_ping_frames, receive_observe_frames}
use mh2c_go.Script.Text.{Unicode}
use mh2c_go.Script.Fields.{parse_ping_data}
use mh2c_go.Script.Values.{ScriptTable}
use mh2c_go.Script.Run.{execute_script}
use mh2c_go.Config.{Config}
use mh2c_go.Config.Endpoint.{Endpoint}
use mh2c_go.Config.Setup.{as_uint32, request_config}

-- An error that is dropped; the effects of the call stay.
abbrev pub dropped {ℓ} : {S : Type ℓ} → S × Result (Unit {0}) → S × Result (Unit {0})
dropped (s, err _) = (s, ok tt)
dropped r = r

abbrev pub goodbye_frame : Config → Frame
goodbye_frame cfg = go_away_frame (new_go_away_frame (as_uint32 cfg.stream_id) 0 [])

module _ {X : Library} {C : Conn} {O : Output} where
  unfoldable pub run_ping : ℕ → ℕ → Config → M (Session X C O) Bool
  run_ping fuel rounds cfg = do
    start_session fuel rounds (as_uint32 cfg.max_table)
    payload ← lift (parse_ping_data cfg.ping_data)
    send_frame_and_report fuel (ping_frame (new_ping_frame 0 payload))
    receive_ping_frames fuel rounds payload

  unfoldable pub run_observe : ℕ → ℕ → Config → M (Session X C O) Bool
  run_observe fuel rounds cfg = do
    start_session fuel rounds (as_uint32 cfg.max_table)
    receive_observe_frames fuel rounds cfg.max_recv 0

  -- GOAWAY at the end, whose errors are dropped.
  abbrev pub goodbye : ℕ → Config → Bool → M (Session X C O) (Unit {0})
  goodbye fuel cfg saw_go_away =
      if cfg.send_go_away && not saw_go_away
      then (λ s. dropped (send_frame_and_report fuel (goodbye_frame cfg) s))
      else pure tt

  -- What follows the mode: GOAWAY, and `controller.Flush`.
  abbrev pub end_session : M O.State (Unit {0}) → ℕ → Config → Bool → M (Session X C O) (Unit {0})
  end_session flush fuel cfg saw_go_away = goodbye fuel cfg saw_go_away >> on_output flush

-- The reading of the request's body, and the writing of the captured files, are parameters.
module _ (U : Unicode) {X : Library} {C : Conn} {O : Output} (body : Result Bytes)
    (flush : M O.State (Unit {0})) where
  unfoldable pub run_request : ℕ → ℕ → Config → Endpoint → M (Session X C O) Bool
  run_request fuel rounds cfg ep = do
    start_session fuel rounds (as_uint32 cfg.max_table)
    bytes ← lift body
    fields ← lift (build_request_fields U (request_config ep cfg) bytes)
    send_request fuel (as_uint32 cfg.stream_id) fields bytes
    receive_response_frames fuel rounds (as_uint32 cfg.stream_id)

  -- The switch over the mode.
  unfoldable pub run_mode : ℕ → ℕ → Config → Endpoint → List ScriptTable → M (Session X C O) Bool
  unfolding run_request run_ping run_observe
  run_mode fuel rounds cfg ep actions =
      if bytes_eq cfg.mode (codes "request")
      then run_request fuel rounds cfg ep
      else if bytes_eq cfg.mode (codes "ping")
      then run_ping fuel rounds cfg
      else if bytes_eq cfg.mode (codes "observe")
      then run_observe fuel rounds cfg
      else if bytes_eq cfg.mode (codes "script")
      then execute_script U fuel rounds actions
      else fail (unsupported_mode cfg.mode)

  -- `run` from the switch on, over the client that is connected.
  unfoldable pub run_session :
      ℕ → ℕ → Config → Endpoint → List ScriptTable → M (Session X C O) (Unit {0})
  unfolding run_mode
  run_session fuel rounds cfg ep actions =
      run_mode fuel rounds cfg ep actions >>= λ saw_go_away. end_session flush fuel cfg saw_go_away
