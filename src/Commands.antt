-- ===== src/Commands.antt =====
-- cmd: the commands, with their exit codes. Flags, files and the .env file are the system's.
pub mod SyncContent
pub mod Api
pub mod Migrations
pub mod Smoke
use portfolio_backend.Base.{ℕ, Bool, Option, none, some, if◌then◌else◌}
use portfolio_backend.Config.{Config}
use portfolio_backend.Config.Env.{Loaded, loaded, problem, Library}
use portfolio_backend.Config.Load.{load}

infixl 5 ◌>>=◌
abbrev pub ◌>>=◌ {ℓ κ} : {A : Type ℓ} {B : Type κ} → Option A → (A → Option B) → Option B
◌>>=◌ none and_then = none
◌>>=◌ (some a) and_then = and_then a

abbrev pub loaded_config : {Prefix : Type 0} → Loaded (Config Prefix) → Option (Config Prefix)
loaded_config (loaded c) = some c
loaded_config (problem p) = none

-- godotenv.Load leaves an environment, unless it fails on a file that exists; config.Load reads that.
unfoldable pub settings : {Prefix : Type 0} → Option (Library Prefix) → Option (Config Prefix)
settings dotenv = do lib ← dotenv; loaded_config (load lib)

-- The exit code of a command that could run.
abbrev pub exit_code : Bool → ℕ
exit_code succeeded = if succeeded then 0 else 1
