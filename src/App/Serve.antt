-- ===== src/App/Serve.antt =====
-- internal/app/app.go: serve, as steps of the goroutine that runs the server, of the context, and of the
-- function. What server.Serve and server.Shutdown return is open.
pub mod Shutdown
use portfolio_backend.Base.{◌≡◌, Bool, true, false, Option, none, some}

-- An error of server.Serve: http.ErrServerClosed, or another.
pub data ServeError : Type 0 where
  server_closed other : ServeError

pub data Outcome : Type 0 where
  clean serve_failed shutdown_failed stop_failed : Outcome

-- Where the function is: in the select, in Shutdown, at the last receive, or done.
pub data Phase : Type 0 where
  selecting shutting_down receiving : Phase
  returned : Outcome → Phase

pub record Serving : Type 0 where
  pub phase : Phase
  pub cancelled : Bool
  -- What server.Serve has returned; its error may be nil.
  pub stopped : Option (Option ServeError)
  -- The buffer of serverErrors.
  pub server_errors : Option (Option ServeError)
  -- server.Close was called.
  pub closed : Bool

abbrev pub serving : Serving
serving = record {
  phase = selecting;
  cancelled = false;
  stopped = none;
  server_errors = none;
  closed = false;
}

-- The first case of the select.
unfoldable pub select_outcome : Option ServeError → Outcome
select_outcome (some server_closed) = clean
select_outcome _ = serve_failed

-- Behind Shutdown, by whether it returned nil.
unfoldable pub after_shutdown : Bool → Serving → Serving
after_shutdown true s = record s { phase = receiving }
after_shutdown false s = record s { phase = returned shutdown_failed; closed = true }

-- The last receive.
unfoldable pub stop_outcome : Option ServeError → Outcome
stop_outcome (some other) = stop_failed
stop_outcome _ = clean

pub data Step (s : Serving) : Serving → Type 0 where
  stop :
      (e : Option ServeError)
      → s.stopped ≡ none
      → Step s (record s { stopped = some e; server_errors = some e })
  cancel : s.cancelled ≡ false → Step s (record s { cancelled = true })
  select_error :
      {e : Option ServeError}
      → s.phase ≡ selecting
      → s.server_errors ≡ some e
      → Step s (record s { phase = returned (select_outcome e); server_errors = none })
  select_done :
      s.phase ≡ selecting → s.cancelled ≡ true → Step s (record s { phase = shutting_down })
  shutdown : (done : Bool) → s.phase ≡ shutting_down → Step s (after_shutdown done s)
  receive :
      {e : Option ServeError}
      → s.phase ≡ receiving
      → s.server_errors ≡ some e
      → Step s (record s { phase = returned (stop_outcome e); server_errors = none })
