-- ===== src/Main/Secured.antt =====
-- cmd/mh2c/main.go, client/client.go and tlsconn/tlsconn.go: the connection that a run talks over.
use mh2c_go.Base.{
  ℕ, Bool, true, false, List, [], ◌∷◌, if◌then◌else◌, Bytes, codes, none, some, Result, ok, err,
  bound_ok, ok_same, Error, bytes_eq_iff, ◌≡◌, refl, sym, ◌∙◌, ap, arith,
}
use mh2c_go.Base.Int.{ℤ}
use mh2c_go.Base.State.{M, continue}
use mh2c_go.Frame.Strings.{number_text}
use mh2c_go.Hpack.{Library}
use mh2c_go.Tlsconn.{
  Tls, TlsConfig, TlsConn, join_host_port, handshake_config, dial, speaking_h2, tls_conn,
}
use mh2c_go.Client.Core.{Client, new_with_conn}
use mh2c_go.Client.Dial.{
  ClientOption, with_insecure_skip_verify, with_max_dynamic_table_size, apply_options, configured,
  new_client,
}
use mh2c_go.Script.Values.{ScriptTable}
use mh2c_go.Script.Parser.{RawScript}
use mh2c_go.Config.{Config}
use mh2c_go.Config.Endpoint.{Endpoint, Url}
use mh2c_go.Config.Setup.{Setup, as_uint32, new_output_controller}
use mh2c_go.Main.Prepare.{
  Task, shows_usage, describes, writes_template, validated, connects, prepare,
}
use mh2c_go.Main.Connect.{
  World, Ran, client_options, run_client, run_connected, prepare_output_writer, run_task, run,
}

-- What a run asks of the handshake: the name of its host, HTTP/2 only, and the check of the
-- certificate unless its configuration is insecure.
abbrev pub asked : (T : Tls) → Config → Endpoint → TlsConfig T.Others
asked T cfg ep = record {
  server_name = ep.host;
  next_protos = codes "h2" ∷ [];
  insecure_skip_verify = cfg.insecure;
  others = T.no_others;
}

-- A handshake at the endpoint that was asked for as above, and that settled on HTTP/2, and the client
-- over its connection.
pub record Secured (T : Tls) (X : Library) (cfg : Config) (ep : Endpoint)
    (c : Client X (tls_conn T)) : Type 0 where
  pub raw : T.raw.State
  pub dials : T.dial (join_host_port ep.host (number_text ep.port)) (asked T cfg ep) ≡ ok raw
  pub speaks : T.negotiated_protocol raw ≡ codes "h2"
  pub over_raw :
      c ≡ new_with_conn X (tls_conn T) (some (record { raw = raw })) (as_uint32 cfg.max_table)

-- A run that ends as `q` is the session of a client as above, behind what `written` has.
pub record Talks (W : World) (fuel rounds : ℕ) (cfg : Config) (ep : Endpoint)
    (actions : List ScriptTable) (q : Ran W × Result (Unit {0})) : Type 0 where
  pub setup : Setup
  pub start : Ran W
  pub client : Client W.library (tls_conn W.tls)
  pub sets_up : new_output_controller W.unicode cfg ≡ ok setup
  pub secured : Secured W.tls W.library cfg ep client
  pub ends : q ≡ run_client W fuel rounds cfg ep actions setup client start

table_lem :
    (R : Type 0) (n : ℕ) (b : Bool)
    → let opts : List (ClientOption R) =
        with_max_dynamic_table_size n ∷ (if b then with_insecure_skip_verify ∷ [] else []) in
      (configured opts).max_table ≡ n
unfolding apply_options
table_lem R n true = refl
table_lem R n false = refl

asked_lem :
    (T : Tls) (host : Bytes) (n : ℕ) (b : Bool)
    → let opts : List (ClientOption T.Others) =
        with_max_dynamic_table_size n ∷ (if b then with_insecure_skip_verify ∷ [] else []) in
      handshake_config T host (configured opts).verify_mode (configured opts).tls_config ≡ record {
        server_name = host;
        next_protos = codes "h2" ∷ [];
        insecure_skip_verify = b;
        others = T.no_others;
      }
unfolding handshake_config apply_options
asked_lem T host n true = refl
asked_lem T host n false = refl

-- What a test lets through passed it.
passed :
    {A : Type 0} (b : Bool) (why : Error) (a a' : A)
    → (if b then ok a else err why) ≡ ok a'
    → (b ≡ true) × (a ≡ a')
passed true why a a' h = (refl, ok_same a a' h)
passed false why a a' h = absurd (ground (arith, h))

new_client-Secured :
    (T : Tls) (X : Library) (cfg : Config) (ep : Endpoint) (c : Client X (tls_conn T))
    → new_client X T ep.host ep.port (client_options cfg) ≡ ok c
    → Secured T X cfg ep c
unfolding new_client dial client_options
new_client-Secured T X cfg ep c h =
    let n = as_uint32 cfg.max_table in
    let over : T.raw.State → TlsConn T = λ raw. record { raw = raw } in
    let (conn, dialed, made) = bound_ok (dial T ep.host ep.port _ _) _ c h in
    let (raw, answered, kept) = bound_ok _ (λ s. speaking_h2 T s) conn dialed in
    let (speaks, is_conn) = passed _ _ (over raw) conn kept in
    record {
      raw = raw;
      dials =
          ap (T.dial (join_host_port ep.host (number_text ep.port)))
            (sym (asked_lem T ep.host n cfg.insecure))
          ∙ answered;
      speaks = (bytes_eq_iff _ _).0 speaks;
      over_raw =
          sym (ok_same _ _ made)
          ∙ (ap (new_with_conn X (tls_conn T) (some conn)) (table_lem T.Others n cfg.insecure)
              ∙ ap (λ k. new_with_conn X (tls_conn T) (some k) n) (sym is_conn));
    }

module _ (W : World) where
  -- A step that has an error ends the run, with the client as it was.
  lifted :
      {A : Type 0} (m : Result A) (f : A → M (Ran W) (Unit {0})) (r : Ran W)
      (c : Client W.library (tls_conn W.tls))
      → r.client ≡ none
      → (continue (r, m) f).0.client ≡ some c
      → (a : A) × (m ≡ ok a) × (continue (r, m) f ≡ f a r) × ((f a r).0.client ≡ some c)
  lifted (ok a) f r c e h = (a, refl, refl, h)
  lifted (err why) f r c e h = absurd (ground (arith, e, h))
  lifted Result.panic f r c e h = absurd (ground (arith, e, h))
  lifted Result.diverge f r c e h = absurd (ground (arith, e, h))

  run_connected-Talks :
      (fuel rounds : ℕ) (cfg : Config) (ep : Endpoint) (actions : List ScriptTable) (r : Ran W)
      (c : Client W.library (tls_conn W.tls))
      → r.client ≡ none
      → (run_connected W fuel rounds cfg ep actions r).0.client ≡ some c
      → Talks W fuel rounds cfg ep actions (run_connected W fuel rounds cfg ep actions r)
  unfolding run_connected
  run_connected-Talks fuel rounds cfg ep actions r c e h =
      let m = prepare_output_writer W cfg.save_output r.written in
      let r' : Ran W = record r { written = m.0 } in
      let (_, _, same₁, h₁) = lifted m.1 _ r' c e h in
      let (setup, sets_up, same₂, h₂) = lifted (new_output_controller W.unicode cfg) _ r' c e h₁ in
      let (client, dialed, same₃, _) =
        lifted (new_client W.library W.tls ep.host ep.port (client_options cfg)) _ r' c e h₂ in
      record {
        setup = setup;
        start = r';
        client = client;
        sets_up = sets_up;
        secured = new_client-Secured W.tls W.library cfg ep client dialed;
        ends = same₁ ∙ (same₂ ∙ same₃);
      }

  -- What a run that has a client is, from its arguments on.
  pub record Connected (args : Result Task) (fuel rounds : ℕ) (q : Ran W × Result (Unit {0}))
      : Type 0 where
    pub cfg : Config
    pub ep : Endpoint
    pub actions : List ScriptTable
    pub prepared : args ≡ ok (connects cfg ep actions)
    pub talks : Talks W fuel rounds cfg ep actions q

  run_task-Connected :
      (fuel rounds : ℕ) (task : Task) (r : Ran W) (c : Client W.library (tls_conn W.tls))
      → r.client ≡ none
      → (run_task W fuel rounds task r).0.client ≡ some c
      → Connected (ok task) fuel rounds (run_task W fuel rounds task r)
  unfolding run_task
  run_task-Connected fuel rounds shows_usage r c e h = absurd (ground (arith, e, h))
  run_task-Connected fuel rounds (describes name) r c e h = absurd (ground (arith, e, h))
  run_task-Connected fuel rounds (writes_template name) r c e h = absurd (ground (arith, e, h))
  run_task-Connected fuel rounds validated r c e h = absurd (ground (arith, e, h))
  run_task-Connected fuel rounds (connects cfg ep actions) r c e h = record {
    cfg = cfg;
    ep = ep;
    actions = actions;
    prepared = refl;
    talks = run_connected-Talks fuel rounds cfg ep actions r c e h;
  }

  -- A run that ends with a client, whatever its arguments and the answers of the peer, has read a
  -- configuration and an endpoint from its arguments, and is the session of its mode over a connection
  -- that a TLS handshake at that endpoint gave: one that was asked for the endpoint's host and for h2
  -- alone, with the check of the certificate unless the configuration is insecure, and that settled on
  -- h2.
  pub run-Connected :
      (keys_of : ScriptTable → List Bytes) (parse_duration : Bytes → Result ℤ)
      (parse_url : Bytes → Result Url) (decode : Bytes → Result RawScript) (fuel rounds : ℕ)
      (args : List Bytes) (r : Ran W) (c : Client W.library (tls_conn W.tls))
      → r.client ≡ none
      → (run W keys_of parse_duration parse_url decode fuel rounds args r).0.client ≡ some c
      → Connected
          (prepare W.unicode keys_of parse_duration parse_url decode W.read_file args)
          fuel
          rounds
          (run W keys_of parse_duration parse_url decode fuel rounds args r)
  unfolding run
  run-Connected keys_of parse_duration parse_url decode fuel rounds args r c e h =
      let m = prepare W.unicode keys_of parse_duration parse_url decode W.read_file args in
      let (task, prepared, same, h₁) = lifted m (run_task W fuel rounds) r c e h in
      let t = run_task-Connected fuel rounds task r c e h₁ in
      record {
        cfg = t.cfg;
        ep = t.ep;
        actions = t.actions;
        prepared = prepared ∙ t.prepared;
        talks = rw same t.talks;
      }
