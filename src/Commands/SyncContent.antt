-- ===== src/Commands/SyncContent.antt =====
-- cmd/synccontent/main.go
pub mod Outcomes
use portfolio_backend.Base.{ℕ, [], Bool, true, false, Option, none, some, if◌then◌else◌}
use portfolio_backend.Base.Text.{Text, text_eq}
use portfolio_backend.Errors.{Result, ok, err}
use portfolio_backend.Database.{Session}
use portfolio_backend.Database.Pool.{Driver, open_pool}
use portfolio_backend.Content.Manifest.{Snapshot, JsonDecoder, read_manifest}
use portfolio_backend.Content.Registry.{SyncResult, sync_snapshot}
use portfolio_backend.Config.{Config}
use portfolio_backend.Config.Env.{Library}
use portfolio_backend.Commands.{◌>>=◌, settings, exit_code}

-- An open file: its bytes unless reading fails, and whether closing succeeds.
pub record ManifestFile : Type 0 where
  pub contents : Option Text
  pub closes : Bool

-- What the command finds: the -manifest flag unless parsing fails, files, and the .env file's environment.
pub record Machine (Prefix : Type 0) : Type 0 where
  pub manifest_flag : Option Text
  pub open_file : Text → Option ManifestFile
  pub dotenv : Option (Library Prefix)

unfoldable pub manifest_path : Option Text → Option Text
manifest_path none = none
manifest_path (some path) = if text_eq path [] then none else some path

abbrev pub closed_snapshot : Bool → Result Snapshot → Option Snapshot
closed_snapshot closes (err e) = none
closed_snapshot closes (ok snapshot) = if closes then some snapshot else none

abbrev pub ran : Result SyncResult × Session → Bool × Session
ran (ok r, s) = (true, s)
ran (err e, s) = (false, s)

module _ (json : JsonDecoder) where
  unfoldable pub file_snapshot : Option ManifestFile → Option Snapshot
  file_snapshot none = none
  file_snapshot (some file) = closed_snapshot file.closes (read_manifest json file.contents)

module _ {Prefix Rest Pool : Type 0} (driver : Driver Rest Pool) where
  -- run; the session is the one of the pool.
  unfoldable pub run : Config Prefix → Snapshot → Session → Bool × Session
  run c snapshot s = elim (open_pool driver c.database) [
    | none ↦ (false, s)
    | some pool ↦ ran (sync_snapshot snapshot s)
  ]

module _ {Prefix Rest Pool : Type 0} (json : JsonDecoder) (driver : Driver Rest Pool) where
  -- What the command has read before it runs: the manifest first, then the configuration.
  unfoldable pub read_inputs : Text → Machine Prefix → Option (Snapshot × Config Prefix)
  read_inputs path machine = do
    snapshot ← file_snapshot json (machine.open_file path)
    c ← settings machine.dotenv
    some (snapshot, c)

  unfoldable pub execute_path : Text → Machine Prefix → Session → ℕ × Session
  execute_path path machine s = elim (read_inputs path machine) [
    | none ↦ (1, s)
    | some (snapshot, c) ↦
        let (succeeded, after) = run driver c snapshot s in (exit_code succeeded, after)
  ]

  unfoldable pub execute : Machine Prefix → Session → ℕ × Session
  execute machine s = elim (manifest_path machine.manifest_flag) [
    | none ↦ (2, s)
    | some path ↦ execute_path path machine s
  ]
