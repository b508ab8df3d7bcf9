-- ===== src/Main/Connect.antt =====
-- cmd/mh2c/main.go and output_writer.go: a run from its endpoint on, with what it opens for that.
use mh2c_go.Base.{ℕ, List, [], ◌∷◌, if◌then◌else◌, Bytes, Option, some, Result}
use mh2c_go.Base.State.{M, ◌>>=◌, ◌>>◌, pure, lift}
use mh2c_go.Base.Int.{ℤ}
use mh2c_go.Hpack.{Library}
use mh2c_go.Tlsconn.{Tls, tls_conn}
use mh2c_go.Client.Core.{Client, close}
use mh2c_go.Client.Dial.{
  ClientOption, with_insecure_skip_verify, with_max_dynamic_table_size, new_client,
}
use mh2c_go.Session.{Output, Session}
use mh2c_go.Script.Text.{Unicode}
use mh2c_go.Script.Values.{ScriptTable}
use mh2c_go.Display.Controller.{controller_output, flush_controller}
use mh2c_go.Display.Printer.{Printing, printer}
use mh2c_go.Config.{Config, is_empty}
use mh2c_go.Config.Endpoint.{Endpoint, Url}
use mh2c_go.Config.Setup.{Setup, as_uint32, new_output_controller, read_request_body}
use mh2c_go.Script.Parser.{RawScript}
use mh2c_go.Script.Spec.Describe.{describe_script_actions, write_script_template}
use mh2c_go.Main.Prepare.{
  Task, shows_usage, describes, writes_template, validated, connects, prepare,
}
use mh2c_go.Main.Run.{run_session}

-- `opts`
unfoldable pub client_options : {R : Type 0} → Config → List (ClientOption R)
client_options cfg =
    with_max_dynamic_table_size (as_uint32 cfg.max_table)
    ∷ (if cfg.insecure then with_insecure_skip_verify ∷ [] else [])

-- The world of a run: the libraries, the writer of the standard output and of files, which are one
-- state; what the standard input holds, and the reading and writing of files. `create` creates the
-- file at a path and gives the writer for it and for the standard output.
pub record World : Type 1 where
  pub unicode : Unicode
  pub library : Library
  pub tls : Tls
  pub printing : Printing
  pub create : Bytes → M printing.State (Unit {0})
  pub write_file : Bytes → Bytes → M printing.State (Unit {0})
  pub stdin : Result Bytes
  pub read_file : Bytes → Result Bytes

-- What a run changes: what is written, and the client of its session, if it has one.
pub record Ran (W : World) : Type 0 where
  pub written : W.printing.State
  pub client : Option (Client W.library (tls_conn W.tls))

module _ (W : World) where
  abbrev on_written : {A : Type 0} → M W.printing.State A → M (Ran W) A
  on_written m r = (record r { written = (m r.written).0 }, (m r.written).1)

  -- `prepareOutputWriter`
  unfoldable pub prepare_output_writer : Bytes → M W.printing.State (Unit {0})
  prepare_output_writer save_path = if is_empty save_path then pure tt else W.create save_path

  abbrev pub output_of : Setup → Output
  output_of setup =
      controller_output (printer W.printing setup.format setup.options) setup.controller

  abbrev pub SessionOf : Setup → Type 0
  SessionOf setup = Session W.library (tls_conn W.tls) (output_of setup)

  abbrev pub flush_of : (setup : Setup) → M (output_of setup).State (Unit {0})
  flush_of setup =
      flush_controller (printer W.printing setup.format setup.options) setup.controller W.write_file

  abbrev pub session_start :
      (setup : Setup) → W.printing.State → Client W.library (tls_conn W.tls) → SessionOf setup
  session_start setup written client = record {
    client = client;
    out = record { capture = setup.capture; written = written };
  }

  -- The deferred `Close`, whose error is dropped.
  abbrev pub closed :
      (setup : Setup) → SessionOf setup × Result (Unit {0}) → Ran W × Result (Unit {0})
  closed setup (s, r) = (record { written = s.out.written; client = some (close s.client).0 }, r)

  -- `run` with its controller and its client.
  unfoldable pub run_client :
      ℕ
      → ℕ
      → Config
      → Endpoint
      → List ScriptTable
      → Setup
      → Client W.library (tls_conn W.tls)
      → M (Ran W) (Unit {0})
  run_client fuel rounds cfg ep actions setup client r = closed setup (
      run_session W.unicode (read_request_body W.stdin W.read_file cfg) (flush_of setup) fuel rounds
        cfg ep actions (session_start setup r.written client))

  -- `run` from the endpoint on. The context with the timeout goes to `Dial`, which does not read it.
  unfoldable pub run_connected : ℕ → ℕ → Config → Endpoint → List ScriptTable → M (Ran W) (Unit {0})
  unfolding prepare_output_writer run_client
  run_connected fuel rounds cfg ep actions = do
    on_written (prepare_output_writer cfg.save_output)
    setup ← lift (new_output_controller W.unicode cfg)
    client ← lift (new_client W.library W.tls ep.host ep.port (client_options cfg))
    run_client fuel rounds cfg ep actions setup client

  unfoldable pub run_task : ℕ → ℕ → Task → M (Ran W) (Unit {0})
  unfolding run_connected
  run_task fuel rounds shows_usage = pure tt
  run_task fuel rounds (describes name) = on_written (describe_script_actions W.printing.write name)
  run_task fuel rounds (writes_template name) =
      on_written (write_script_template W.printing.write name)
  run_task fuel rounds validated = pure tt
  run_task fuel rounds (connects cfg ep actions) = run_connected fuel rounds cfg ep actions

  -- `run`
  module _ (keys_of : ScriptTable → List Bytes) (parse_duration : Bytes → Result ℤ)
      (parse_url : Bytes → Result Url) (decode : Bytes → Result RawScript) where
    unfoldable pub run : ℕ → ℕ → List Bytes → M (Ran W) (Unit {0})
    unfolding run_task
    run fuel rounds args = do
      task ← lift (prepare W.unicode keys_of parse_duration parse_url decode W.read_file args)
      run_task fuel rounds task
