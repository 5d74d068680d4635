-- ===== src/Commands/Api.antt =====
-- cmd/api/main.go, and internal/app/app.go: Run, around what App/Wiring builds. What serve returns is a parameter,
-- which App/Serve describes.
pub mod Starts
use portfolio_backend.Base.{ℕ, Bool, true, false, not, Option, none, some, if◌then◌else◌}
use portfolio_backend.Base.Text.{Text}
use portfolio_backend.Database.Pool.{Driver, open_pool}
use portfolio_backend.Config.{Config, Duration}
use portfolio_backend.Config.Env.{Library}
use portfolio_backend.Config.Load.{load_api}
use portfolio_backend.App.Serve.{Outcome, clean}
use portfolio_backend.Commands.{◌>>=◌, loaded_config, exit_code}

-- http.Server, as far as Run sets it.
pub record Server : Type 0 where
  pub address : Text
  pub read_header_timeout : Duration
  pub read_timeout : Duration
  pub write_timeout : Duration
  pub idle_timeout : Duration

abbrev pub server : {Prefix : Type 0} → Config Prefix → Server
server c = record {
  address = c.http.address;
  read_header_timeout = c.http.read_header_timeout;
  read_timeout = c.http.read_timeout;
  write_timeout = c.http.write_timeout;
  idle_timeout = c.http.idle_timeout;
}

-- serve returns nil.
abbrev pub is_clean : Outcome → Bool
is_clean clean = true
is_clean outcome = false

module _ {Prefix Rest Pool : Type 0} (driver : Driver Rest Pool) (listens : Text → Bool)
    (serve : Server → Duration → Outcome) where
  -- Run: the pool, the listener, and serve with the timeout of the shutdown.
  unfoldable pub run : Config Prefix → Bool
  run c = elim (open_pool driver c.database) [
    | none ↦ false
    | some pool ↦
        if listens c.http.address
        then is_clean (serve (server c) c.http.shutdown_timeout)
        else false
  ]

  -- main, on the environment that godotenv.Load leaves.
  unfoldable pub api_main : Option (Library Prefix) → ℕ
  api_main dotenv = elim (do lib ← dotenv; loaded_config (load_api lib)) [
    | none ↦ 1
    | some c ↦ exit_code (run c)
  ]
