-- ===== src/Tests/Worlds.antt =====
-- A run of the program in a world in memory, with a handshake that settles on h2.
use mh2c_go.Base.{arith, ◌∷◌, [], ◌++◌, none, some, codes, ok, err, eof, bytes_eq, ◌≡◌, refl}
use mh2c_go.Tlsconn.{Tls, dial, tls_conn}
use mh2c_go.Client.Core.{Client, new_with_conn, close}
use mh2c_go.Client.Dial.{new_with_options, new_client}
use mh2c_go.Display.Filter.{build_frame_filter_set, build_direction_filter_set}
use mh2c_go.Display.Printer.{printer}
use mh2c_go.Config.Setup.{Setup, options_of, read_request_body, new_output_controller, capture_of}
use mh2c_go.Main.Prepare.{prepare}
use mh2c_go.Main.Run.{goodbye_frame, run_session}
use mh2c_go.Main.Connect.{
  World, Ran, client_options, prepare_output_writer, run, run_connected, run_task, run_client,
  flush_of, session_start, SessionOf, output_of,
}
use mh2c_go.Main.Secured.{Connected, run-Connected}
use mh2c_go.Tests.Scripts.{ascii}
use mh2c_go.Tests.Clients.{plain_library, pipe, pipe-InOrder, table_settings_frame, table_settings}
use mh2c_go.Tests.Sessions.{
  plain_printing, plain_printing-Prints, answer, settings-Plain_wide, answer-Plain_wide,
}
use mh2c_go.Session.Exchange.{Succeeds, Exchanged, frame_bytes}
use mh2c_go.Session.Hearing.{heard_all, unheard}
use mh2c_go.Session.Start.{opened_hearing}
use mh2c_go.Client.Transport.{InOrder}
use mh2c_go.Client.Healthy.{tls_conn-InOrder}
use mh2c_go.Display.Controller.{Writer}
use mh2c_go.Display.Reports.{Writes, controller_output-Succeeds, flush_controller-Always}
use mh2c_go.Display.Printed.{printer-Writes}
use mh2c_go.Main.PingRun.{ping_bytes, run_session-ping}
use mh2c_go.Tests.Runs.{
  answered_config, no_duration, no_url, no_toml, no_file, no_order, ping_args, ping_config,
  example_org, answering, ping_args_prepared,
}

abbrev plain_tls : Tls
plain_tls = record {
  Others = Unit {0};
  no_others = tt;
  raw = pipe;
  dial = λ address conf. ok answering;
  negotiated_protocol = λ s. codes "h2";
}

abbrev world : World
world = record {
  unicode = ascii;
  library = plain_library;
  tls = plain_tls;
  printing = plain_printing;
  create = λ path text. (text, ok tt);
  write_file = λ path content text. (text ++ content, ok tt);
  stdin = err eof;
  read_file = no_file;
}

abbrev idle_run : Ran world
idle_run = record { written = []; client = none }

abbrev ping_setup : Setup
ping_setup = record {
  controller = record {
    filters = record { frame_filters = []; direction_filter = []; stream_filter = none };
    decode_headers = ping_config.decode_headers;
  };
  format = codes "text";
  options = options_of ping_config;
  capture = none;
}

abbrev first_client : Client plain_library (tls_conn plain_tls)
first_client =
    new_with_options {R = Unit {0}} plain_library (tls_conn plain_tls)
      (some (record { raw = answering })) (client_options ping_config)

set_up : new_output_controller ascii ping_config ≡ ok ping_setup
unfolding new_output_controller build_frame_filter_set build_direction_filter_set capture_of
set_up = refl

dialed :
    new_client plain_library plain_tls example_org.host 443 (client_options ping_config)
    ≡ ok first_client
unfolding new_client dial bytes_eq
dialed = refl

-- The client behind the session, closed.
abbrev last_client : Client plain_library (tls_conn plain_tls)
last_client =
    (close
      (run_session ascii (read_request_body (err eof) no_file ping_config)
        (flush_of world ping_setup) 27 5 ping_config example_org []
        (session_start world ping_setup [] first_client)).0.client).0

has_client :
    (run world no_order no_duration no_url no_toml 27 5 ping_args idle_run).0.client
    ≡ some last_client
unfolding run run_task run_connected run_client prepare_output_writer
has_client = rw (ping_args_prepared, set_up, dialed) refl

run-Connected_example :
    Connected world
      (prepare ascii no_order no_duration no_url no_toml no_file ping_args)
      27
      5
      (run world no_order no_duration no_url no_toml 27 5 ping_args idle_run)
run-Connected_example =
    run-Connected world no_order no_duration no_url no_toml 27 5 ping_args idle_run last_client refl
      has_client

-- The same session with the eight bytes of the answer that waits.
abbrev asking_client : Client plain_library (tls_conn plain_tls)
asking_client =
    new_with_options {R = Unit {0}} plain_library (tls_conn plain_tls)
      (some (record { raw = answering })) (client_options answered_config)

abbrev asking : SessionOf world ping_setup
asking = session_start world ping_setup [] asking_client

abbrev world_writer : Writer
world_writer = printer plain_printing ping_setup.format ping_setup.options

world_writer-Writes : Writes world_writer
world_writer-Writes =
    printer-Writes plain_printing ping_setup.format ping_setup.options plain_printing-Prints
      (omega arith)

world-Succeeds : Succeeds (output_of world ping_setup)
world-Succeeds = controller_output-Succeeds world_writer ping_setup.controller world_writer-Writes

world_saves : (s : (output_of world ping_setup).State) → (flush_of world ping_setup s).1 ≡ ok tt
world_saves =
    flush_controller-Always world_writer ping_setup.controller world_writer-Writes world.write_file
      (λ path content text. refl)

abbrev pipe_over_tls : InOrder (tls_conn plain_tls)
pipe_over_tls = tls_conn-InOrder plain_tls pipe-InOrder

run_session-ping_example :
    Exchanged pipe_over_tls world-Succeeds
      (run_session ascii
        (read_request_body (err eof) no_file answered_config)
        (flush_of world ping_setup)
        27
        5
        answered_config
        example_org
        []
        asking)
      tt
      (7 ∷ [])
      (ping_bytes (9 ∷ []) answered_config [] (table_settings ∷ [])
        ++ frame_bytes (goodbye_frame answered_config))
      (heard_all (table_settings ∷ []) (opened_hearing 8192 asking))
unfolding tls_conn-InOrder new_with_conn
run_session-ping_example =
    run_session-ping pipe_over_tls world-Succeeds (flush_of world ping_setup) world_saves ascii
      (read_request_body (err eof) no_file answered_config) 27 5 answered_config example_org [] []
      (table_settings ∷ []) table_settings_frame answer (7 ∷ []) asking (record { raw = answering })
      refl refl (omega arith) tt tt settings-Plain_wide refl (settings-Plain_wide, tt) (refl, tt)
      answer-Plain_wide refl refl refl refl refl tt
      ((unheard table_settings (opened_hearing 8192 asking) refl).0, tt) (omega arith) (omega arith)
      (omega arith)
