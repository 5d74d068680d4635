-- ===== src/Http/Logging.antt =====
-- internal/httpapi/middleware/recovery.go and requestlog.go: what a request that panicked answers, and what the log
-- says of a request. Reading of the response writer is chi's; a status of 0 says that nothing was written.
use portfolio_backend.Base.{refl, ℕ, ◌≡◌, Bool, true, false, leb, ◌==◌, ◌||◌, if◌then◌else◌, []}
use portfolio_backend.Base.Text.{Text, bytes, text_eq}

-- How a handler has ended.
pub record Ended : Type 0 where
  pub status : ℕ
  pub panicked : Bool

-- The deferred recover: a status that is already written stays.
unfoldable pub recovered : Ended → Ended
recovered e =
    if e.panicked
    then (record { status = if e.status == 0 then 500 else e.status; panicked = false })
    else e

pub data Category : Type 0 where
  server_error client_error no_error : Category

unfoldable pub response_category : ℕ → Category
response_category status =
    if leb 500 status then server_error else if leb 400 status then client_error else no_error

-- The fields of the log entry that depend on the answer and the route.
pub record Entry : Type 0 where
  pub route : Text
  pub status : ℕ
  pub category : Category

unfoldable pub log_entry : Text → Ended → Entry
log_entry pattern e =
    let status = if e.status == 0 then 200 else e.status in
    record {
      route =
          if text_eq pattern [] || text_eq pattern (bytes "/*") then bytes "unmatched" else pattern;
      status = status;
      category = response_category status;
    }

-- A request whose handler panicked is logged as a server error with status 500, unless it had written a status.
pub recovered-log_entry :
    (pattern : Text) (e : Ended)
    → e.panicked ≡ true
    → e.status ≡ 0
    → ((log_entry pattern (recovered e)).status ≡ 500)
      × ((log_entry pattern (recovered e)).category ≡ server_error)
unfolding log_entry recovered response_category
recovered-log_entry pattern e p z = rw (p, z) (refl, refl)
