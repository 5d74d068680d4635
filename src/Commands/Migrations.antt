-- ===== src/Commands/Migrations.antt =====
-- cmd/migrate/main.go
pub mod Outcomes
use portfolio_backend.Base.{ℕ, List, Bool, true, false, Option, none, some}
use portfolio_backend.Base.Text.{Text}
use portfolio_backend.Database.Pool.{Driver, open_pool}
use portfolio_backend.Migrate.Directory.{FileEntry, load}
use portfolio_backend.Migrate.Run.{Target, up}
use portfolio_backend.Config.{Config}
use portfolio_backend.Config.Env.{Library}
use portfolio_backend.Commands.{settings, exit_code}

-- What the command finds: the -dir flag unless parsing fails, directories, the .env file's environment, and the
-- failures of the round trips to come.
pub record Machine (Prefix : Type 0) : Type 0 where
  pub dir_flag : Option Text
  pub read_dir : Text → Option (List FileEntry)
  pub dotenv : Option (Library Prefix)
  pub faults : List Bool

module _ {Prefix Rest Pool Objects : Type 0} (sha256 : Text → Text) (driver : Driver Rest Pool)
    (exec : Text → Objects → Option Objects) where
  unfoldable pub run :
      Config Prefix → Option (List FileEntry) → List Bool → Target Objects → Bool × Target Objects
  run c entries faults t = elim (open_pool driver c.database) [
    | none ↦ (false, t)
    | some pool ↦ up exec (load sha256 entries) faults t
  ]

  unfoldable pub execute : Machine Prefix → Target Objects → ℕ × Target Objects
  execute machine t = elim machine.dir_flag [
    | none ↦ (2, t)
    | some dir ↦ elim (settings machine.dotenv) [
      | none ↦ (1, t)
      | some c ↦
          let (succeeded, after) = run c (machine.read_dir dir) machine.faults t in
          (exit_code succeeded, after)
    ]
  ]
