-- ===== src/Commands/SyncContent/Outcomes.antt =====
-- cmd/synccontent/main.go: what the exit code says of the registry.
use mathlib.Core.Path.{subst}
use portfolio_backend.Base.{
  sym, ℕ, ◌≡◌, ◌≤◌, ◌⊎◌, inl, inr, refl, ap, Bool, true, false, some, Option-cases, arith,
}
use portfolio_backend.Base.Text.{Text}
use portfolio_backend.Errors.{Result, ok, err}
use portfolio_backend.Database.{Session}
use portfolio_backend.Content.Registry.Again.{sync_snapshot-atomic}
use portfolio_backend.Database.Pool.{Driver, open_pool}
use portfolio_backend.Content.Manifest.{Snapshot, JsonDecoder}
use portfolio_backend.Content.Manifest.WellFormed.{WellFormed}
use portfolio_backend.Content.Registry.{SyncResult, sync_snapshot}
use portfolio_backend.Content.Registry.Sync.{Synced, sync_snapshot-Synced}
use portfolio_backend.Config.{Config}
use portfolio_backend.Commands.{settings, exit_code}
use portfolio_backend.Commands.SyncContent.{
  Machine, manifest_path, file_snapshot, ran, run, read_inputs, execute_path, execute,
}

-- The registry as it was, or a synchronization of a snapshot.
abbrev pub RanSync : Snapshot → Session → Bool × Session → Type 0
RanSync snapshot s (false, after) = after.db ≡ s.db
RanSync snapshot s (true, after) = WellFormed snapshot × Synced snapshot s.now s.db after.db

sync_snapshot-RanSync :
    (snapshot : Snapshot) (s : Session) (r : Result SyncResult × Session)
    → sync_snapshot snapshot s ≡ r
    → RanSync snapshot s (ran r)
sync_snapshot-RanSync snapshot s (ok x, after) h =
    rw h at (sync_snapshot-Synced snapshot s {r = x} (ap (λ p. p.0) h))
sync_snapshot-RanSync snapshot s (err e, after) h =
    rw h at (sync_snapshot-atomic snapshot s {e = e} (ap (λ p. p.0) h))

module _ {Prefix Rest Pool : Type 0} (driver : Driver Rest Pool) where
  run-RanSync :
      (c : Config Prefix) (snapshot : Snapshot) (s : Session)
      → RanSync snapshot s (run driver c snapshot s)
  run-RanSync c snapshot s = elim (Option-cases (open_pool driver c.database)) [
    | inl closed ↦
        let same : run driver c snapshot s ≡ (false, s) = unfold run in ground (arith, closed) in
        subst (RanSync snapshot s) (sym same) refl
    | inr (pool, opened) ↦
        let same : run driver c snapshot s ≡ ran (sync_snapshot snapshot s) =
          unfold run in ground (arith, opened) in
        subst (RanSync snapshot s) (sym same)
          (sync_snapshot-RanSync snapshot s (sync_snapshot snapshot s) refl)
  ]

module _ {Prefix Rest Pool : Type 0} (json : JsonDecoder) (driver : Driver Rest Pool)
    (machine : Machine Prefix) (s : Session) where
  -- The exit of a command that leaves the tables alone.
  abbrev pub Failed : ℕ × Session → Type 0
  Failed (code, after) = (1 ≤ code) × (after.db ≡ s.db)

  -- The exit of a command that has synchronized the manifest of its flag.
  abbrev pub Completed : ℕ × Session → Type 0
  Completed (code, after) =
      (code ≡ 0)
      × ((path : Text) × (snapshot : Snapshot) × (c : Config Prefix) × (manifest_path
              machine.manifest_flag
            ≡ some path)
          × (file_snapshot json (machine.open_file path) ≡ some snapshot)
          × (settings machine.dotenv ≡ some c)
          × WellFormed snapshot
          × Synced snapshot s.now s.db after.db)

  exit-Completed :
      (path : Text) (snapshot : Snapshot) (c : Config Prefix)
      → manifest_path machine.manifest_flag ≡ some path
      → file_snapshot json (machine.open_file path) ≡ some snapshot
      → settings machine.dotenv ≡ some c
      → (r : Bool × Session) → RanSync snapshot s r
      → Failed (exit_code r.0, r.1) ⊎ Completed (exit_code r.0, r.1)
  exit-Completed path snapshot c p f g (true, after) h =
      inr (refl, (path, snapshot, c, p, f, g, h.0, h.1))
  exit-Completed path snapshot c p f g (false, after) h = inl (omega arith, h)

  abbrev pub Exits : ℕ × Session → Type 0
  Exits r = Failed r ⊎ Completed r

  execute_path-Exits :
      (path : Text)
      → manifest_path machine.manifest_flag ≡ some path
      → Exits (execute_path json driver path machine s)
  execute_path-Exits path given =
      elim (Option-cases (file_snapshot json (machine.open_file path))) [
        | inl bad ↦
            let same : execute_path json driver path machine s ≡ (1, s) =
              unfold execute_path read_inputs in ground (arith, bad) in
            subst Exits (sym same) (inl (omega arith, refl))
        | inr (snapshot, good) ↦ elim (Option-cases (settings machine.dotenv)) [
          | inl bad ↦
              let same : execute_path json driver path machine s ≡ (1, s) =
                unfold execute_path read_inputs in ground (arith, good, bad) in
              subst Exits (sym same) (inl (omega arith, refl))
          | inr (c, set) ↦
              let r = run driver c snapshot s in
              let same : execute_path json driver path machine s ≡ (exit_code r.0, r.1) =
                unfold execute_path read_inputs in ground (arith, good, set) in
              subst Exits (sym same)
                (exit-Completed path snapshot c given good set r (run-RanSync driver c snapshot s))
        ]
      ]

  -- The command exits with 0 only if the file of its flag reads as a snapshot, the configuration loads, and the
  -- registry then holds the snapshot; with any other code, it has changed no table.
  pub execute-Exits : Exits (execute json driver machine s)
  execute-Exits = elim (Option-cases (manifest_path machine.manifest_flag)) [
    | inl absent ↦
        let same : execute json driver machine s ≡ (2, s) =
          unfold execute in ground (arith, absent) in
        subst Exits (sym same) (inl (omega arith, refl))
    | inr (path, given) ↦
        let same : execute json driver machine s ≡ execute_path json driver path machine s =
          unfold execute in ground (arith, given) in
        subst Exits (sym same) (execute_path-Exits path given)
  ]
