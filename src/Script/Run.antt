-- ===== src/Script/Run.antt =====
-- cmd/mh2c/script.go: the run of a script, action by action.
use mh2c_go.Base.{
  ℕ, zero, suc, Bool, false, List, [], ◌∷◌, ◌||◌, ◌++◌, if◌then◌else◌, Bytes, bytes_eq, codes,
  Result, Error, err, in_action, in_action,
}
use mh2c_go.Base.State.{M, ◌>>=◌, ◌>>◌, pure, lift}
use mh2c_go.Hpack.{Library}
use mh2c_go.Client.Conn.{Conn}
use mh2c_go.Client.Core.{send_connection_preface}
use mh2c_go.Session.{Output, Session, on_client, on_output, send_frame_and_report}
use mh2c_go.Script.Values.{ScriptTable, require_string}
use mh2c_go.Script.Text.{Unicode}
use mh2c_go.Script.Build.{build_script_frame}
use mh2c_go.Script.Repeat.{
  ActionRepeat, parse_action_repeat, action_for_repeat_iteration, format_script_action_error,
  parse_sleep_duration,
}
use mh2c_go.Script.Receive.{execute_receive_action}

-- `fmt.Errorf("…: %w", err)` around the error of a call.
abbrev pub wrap_error {ℓ κ} : {S : Type ℓ} {A : Type κ} → (Error → Error) → M S A → M S A
wrap_error {S} {A} f m s = wrapped (m s)
  where
    wrapped : S × Result A → S × Result A
    wrapped (s', err why) = (s', err (f why))
    wrapped r = r

module _ (U : Unicode) {X : Library} {C : Conn} {O : Output} where
  -- The cases of `executeScriptAction`; `time.Sleep` changes no state of the program.
  unfoldable pub run_preface : ℕ → M (Session X C O) Bool
  run_preface fuel = do
    on_client (send_connection_preface fuel)
    on_output (O.print_notice (codes "sent") (codes "preface") (codes "CONNECTION_PREFACE"))
    pure false

  unfoldable pub run_sleep : ScriptTable → M (Session X C O) Bool
  run_sleep action = do
    duration ← lift (parse_sleep_duration action)
    on_output
        (O.print_notice (codes "sent") (codes "sleep") (codes "SLEEP " ++ O.duration_text duration))
    pure false

  unfoldable pub run_frame : ℕ → ScriptTable → M (Session X C O) Bool
  unfolding send_frame_and_report
  run_frame fuel action = do
    f ← on_client (build_script_frame U action)
    send_frame_and_report fuel f
    pure false

  unfoldable pub run_case : ℕ → ℕ → Bytes → ScriptTable → M (Session X C O) Bool
  unfolding run_preface run_sleep run_frame
  run_case fuel rounds type action =
      if bytes_eq type (codes "preface")
      then run_preface fuel
      else if bytes_eq type (codes "sleep")
      then run_sleep action
      else if bytes_eq type (codes "receive")
      then execute_receive_action fuel rounds action
      else run_frame fuel action

  unfoldable pub execute_script_action : ℕ → ℕ → ScriptTable → M (Session X C O) Bool
  unfolding run_case
  execute_script_action fuel rounds action = do
    type ← lift (require_string action (codes "type"))
    run_case fuel rounds type action

  -- The body of the loop over the iterations of the action at `index`.
  unfoldable pub run_iteration : ℕ → ℕ → ℕ → ScriptTable → ActionRepeat → ℕ → M (Session X C O) Bool
  unfolding execute_script_action
  run_iteration fuel rounds index action repeat iteration =
      wrap_error (format_script_action_error index repeat.count iteration) (
        lift (action_for_repeat_iteration action repeat iteration) >>= λ iter_action.
        execute_script_action fuel rounds iter_action)

  -- The iterations from `iteration` on, of which `left` are left.
  unfoldable pub run_iterations :
      ℕ → ℕ → ℕ → ScriptTable → ActionRepeat → ℕ → ℕ → Bool → M (Session X C O) Bool
  unfolding run_iteration
  run_iterations fuel rounds index action repeat zero iteration saw = pure saw
  run_iterations fuel rounds index action repeat (suc left) iteration saw =
      run_iteration fuel rounds index action repeat iteration >>= λ got.
      run_iterations fuel rounds index action repeat left (suc iteration) (saw || got)

  -- The actions from `index` on.
  unfoldable pub run_actions : ℕ → ℕ → ℕ → List ScriptTable → Bool → M (Session X C O) Bool
  unfolding run_iterations parse_action_repeat
  run_actions fuel rounds index [] saw = pure saw
  run_actions fuel rounds index (action ∷ rest) saw =
      wrap_error (in_action (suc index)) (lift (parse_action_repeat action)) >>= λ repeat.
      run_iterations fuel rounds index action repeat repeat.count 0 saw >>= λ saw'.
      run_actions fuel rounds (suc index) rest saw'

  -- `executeScript`
  unfoldable pub execute_script : ℕ → ℕ → List ScriptTable → M (Session X C O) Bool
  unfolding run_actions
  execute_script fuel rounds actions = run_actions fuel rounds 0 actions false
