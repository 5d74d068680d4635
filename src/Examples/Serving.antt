-- ===== src/Examples/Serving.antt =====
-- internal/app, internal/httpapi/router.go and cmd: a shutdown, the routes, and a run of a command.
use portfolio_backend.Base.{
  ℕ, ◌≤◌, true, false, ◌≡◌, ◌⊎◌, refl, [], ◌∷◌, Option, none, some, All, length, if◌then◌else◌,
}
use portfolio_backend.Base.Int.{pos}
use portfolio_backend.Base.Text.{Text, bytes, text_eq}
use portfolio_backend.Errors.{Result, err, invalid_assertion}
use portfolio_backend.Database.Pool.{PoolConfig, Driver, open_pool, configured}
use portfolio_backend.AdminAuth.Claims.{Principal}
use portfolio_backend.Content.Manifest.{JsonDecoder, read_manifest, decode_manifest, unwire_items}
use portfolio_backend.Http.{World, Handler, no_content}
use portfolio_backend.Http.Router.{
  Endpoint, serve_route, application_routes, feature_routes, post_routes, write_routes,
  admin_routes,
}
use portfolio_backend.Http.Router.Guards.{access_of, Answers, serve_route-Answers}
use portfolio_backend.Commands.{settings}
use portfolio_backend.Commands.SyncContent.{
  Machine, execute, execute_path, manifest_path, run, read_inputs, file_snapshot,
}
use portfolio_backend.Commands.SyncContent.Outcomes.{Exits, execute-Exits}
use portfolio_backend.App.Wiring.{features, routes}
use portfolio_backend.App.Serve.{
  Serving, Outcome, server_closed, clean, returned, serving, after_shutdown, stop_outcome,
}
use portfolio_backend.App.Serve
use portfolio_backend.App.Serve.Shutdown.{
  Run, Reports, Moves, AwaitsServer, serve-ends, serve-Reports,
}
use portfolio_backend.Examples.Commenting.{at_noon}
use portfolio_backend.Examples.Configuring
use portfolio_backend.Examples.Syncing
use portfolio_backend.Examples.Configuring.{library}

-- A signal, Shutdown, and the server's return.
abbrev shut_down : Serving
shut_down = record {
  phase = returned clean;
  cancelled = true;
  stopped = some (some server_closed);
  server_errors = none;
  closed = false;
}

shutdown-Run : Run 5 shut_down
unfolding after_shutdown stop_outcome
shutdown-Run =
    Run.more
      (Run.more
        (Run.more
          (Run.more (Run.more Run.start (Serve.Step.cancel refl))
            (Serve.Step.select_done refl refl))
          (Serve.Step.shutdown true refl))
        (Serve.Step.stop (some server_closed) refl))
      (Serve.Step.receive {e = some server_closed} refl refl)

-- The signal has come, and nothing else has happened yet.
abbrev signalled : Serving
signalled = record serving { cancelled = true }

serve-ends_example :
    (1 ≤ 5)
    × (((o : Outcome) × (signalled.phase ≡ returned o))
        ⊎ (Moves signalled ⊎ AwaitsServer signalled))
serve-ends_example =
    serve-ends {n = 1} {s = signalled} (Run.more Run.start (Serve.Step.cancel refl)) refl

serve-Reports_example : Reports clean true (some (some server_closed)) false
serve-Reports_example = serve-Reports {n = 5} {s = shut_down} {o = clean} shutdown-Run refl

abbrev refuse_all : Text → Result Principal
refuse_all assertion = err invalid_assertion

abbrev handlers : Endpoint → Option ℕ → Option Principal → Handler
handlers e ip principal w = (no_content, w)

abbrev world : World
world = record { session = at_noon; limiter = none }

twelve_routes : length routes ≡ 12
unfolding routes application_routes feature_routes post_routes write_routes admin_routes
twelve_routes = refl

serve_route-Answers_example :
    All
      (λ r.
        Answers
          (some 7)
          refuse_all
          (bytes "token")
          (access_of r.endpoint)
          (handlers r.endpoint)
          world
          (serve_route (some 7) refuse_all (bytes "token") handlers r world))
      (application_routes (feature_routes features))
serve_route-Answers_example =
    serve_route-Answers (some 7) refuse_all (bytes "token") handlers features world

-- A decoder that knows the manifest of this run.
abbrev json : JsonDecoder
json = record {
  decode = λ t. some (
    record {
      schema_version = pos 1;
      mode = bytes "full";
      source = bytes "site";
      revision = bytes "0123abc";
      items =
          record {
            slug = bytes "first";
            kind = bytes "post";
            status = bytes "published";
            comments_enabled = some true;
          }
          ∷ [];
    },
    [],
  );
  at_end = λ rest. true;
}

abbrev driver : Driver (Unit {0}) (PoolConfig (Unit {0}))
driver = record {
  parse_config = λ url. some (record {
    max_conns = pos 4;
    min_conns = pos 0;
    connect_timeout = pos 0;
    password = bytes "secret";
    rest = tt;
  });
  new_with_config = λ c. some c;
}

abbrev machine : Text → Machine Text
machine flag = record {
  manifest_flag = some flag;
  open_file = λ path.
      if text_eq path (bytes "manifest.json")
      then some (record { contents = some (bytes "{}"); closes = true })
      else none;
  dotenv = some (library (bytes "48"));
}

exit_codes :
    ((execute json driver (machine (bytes "manifest.json")) at_noon).0 ≡ 0)
    × (execute json driver (machine (bytes "absent.json")) at_noon ≡ (1, at_noon))
    × (execute json driver (machine []) at_noon ≡ (2, at_noon))
unfolding Configuring.program Syncing.program execute execute_path run read_inputs file_snapshot
    settings manifest_path read_manifest decode_manifest unwire_items open_pool configured
exit_codes = (refl, refl, refl)

execute-Exits_example :
    Exits json driver
      (machine (bytes "manifest.json"))
      at_noon
      (execute json driver (machine (bytes "manifest.json")) at_noon)
execute-Exits_example = execute-Exits json driver (machine (bytes "manifest.json")) at_noon
