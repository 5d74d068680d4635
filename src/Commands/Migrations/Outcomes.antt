-- ===== src/Commands/Migrations/Outcomes.antt =====
-- cmd/migrate/main.go: what the exit code says of the database.
use mathlib.Core.Path.{subst}
use portfolio_backend.Base.{
  sym, ℕ, ◌≡◌, ◌≤◌, ◌⊎◌, inl, inr, refl, List, Bool, true, false, Option, none, some, Option-cases,
  arith,
}
use portfolio_backend.Base.Text.{Text}
use portfolio_backend.Database.Pool.{Driver, open_pool}
use portfolio_backend.Migrate.Directory.{FileEntry, Migration, load}
use portfolio_backend.Migrate.Run.{Target, up}
use portfolio_backend.Migrate.History.{Migrated, up-Migrated}
use portfolio_backend.Config.{Config}
use portfolio_backend.Commands.{settings, exit_code}
use portfolio_backend.Commands.Migrations.{Machine, run, execute}

module _ {Objects : Type 0} (sha256 : Text → Text) (exec : Text → Objects → Option Objects) where
  -- The database as it was, or migrated by a directory that loads.
  abbrev pub RanUp : Option (List FileEntry) → Target Objects → Bool × Target Objects → Type 0
  RanUp entries t (false, after) = after ≡ t
  RanUp entries t (true, after) =
      (ms : List Migration) × (load sha256 entries ≡ some ms) × Migrated exec ms t after

  from_pair :
      (entries : Option (List FileEntry)) (t : Target Objects) (ms : List Migration)
      (r : Bool × Target Objects)
      → load sha256 entries ≡ some ms
      → r.0 ≡ true
      → Migrated exec ms t r.1
      → RanUp entries t r
  from_pair entries t ms (true, after) e h m = (ms, e, m)
  from_pair entries t ms (false, after) e h m = cc

  up-RanUp :
      (entries : Option (List FileEntry)) (faults : List Bool) (t : Target Objects)
      (found : Option (List Migration))
      → load sha256 entries ≡ found
      → RanUp entries t (up exec found faults t)
  up-RanUp entries faults t none e = unfold up in refl
  up-RanUp entries faults t (some ms) e = elim (up-Migrated exec ms faults t) [
    | inl failed ↦ rw failed refl
    | inr (succeeded, done) ↦ from_pair entries t ms (up exec (some ms) faults t) e succeeded done
  ]

module _ {Prefix Rest Pool Objects : Type 0} (sha256 : Text → Text) (driver : Driver Rest Pool)
    (exec : Text → Objects → Option Objects) where
  run-RanUp :
      (c : Config Prefix) (entries : Option (List FileEntry)) (faults : List Bool)
      (t : Target Objects)
      → RanUp sha256 exec entries t (run sha256 driver exec c entries faults t)
  run-RanUp c entries faults t = elim (Option-cases (open_pool driver c.database)) [
    | inl closed ↦
        let same : run sha256 driver exec c entries faults t ≡ (false, t) =
          unfold run in ground (arith, closed) in
        subst (RanUp sha256 exec entries t) (sym same) refl
    | inr (pool, opened) ↦
        let same : run sha256 driver exec c entries faults t
            ≡ up exec (load sha256 entries) faults t =
          unfold run in ground (arith, opened) in
        subst (RanUp sha256 exec entries t) (sym same)
          (up-RanUp sha256 exec entries faults t (load sha256 entries) refl)
  ]

  module _ (machine : Machine Prefix) (t : Target Objects) where
    -- The exit of a command that leaves the database alone.
    abbrev pub Failed : ℕ × Target Objects → Type 0
    Failed (code, after) = (1 ≤ code) × (after ≡ t)

    -- The exit of a command that has run the migrations of its directory.
    abbrev pub Completed : ℕ × Target Objects → Type 0
    Completed (code, after) =
        (code ≡ 0)
        × ((dir : Text) × (c : Config Prefix) × (ms : List Migration) × (machine.dir_flag
              ≡ some dir)
            × (settings machine.dotenv ≡ some c)
            × (load sha256 (machine.read_dir dir) ≡ some ms)
            × Migrated exec ms t after)

    abbrev pub Exits : ℕ × Target Objects → Type 0
    Exits r = Failed r ⊎ Completed r

    exit-Completed :
        (dir : Text) (c : Config Prefix)
        → machine.dir_flag ≡ some dir
        → settings machine.dotenv ≡ some c
        → (r : Bool × Target Objects) → RanUp sha256 exec (machine.read_dir dir) t r
        → Exits (exit_code r.0, r.1)
    exit-Completed dir c d g (true, after) (ms, e, m) = inr (refl, (dir, c, ms, d, g, e, m))
    exit-Completed dir c d g (false, after) h = inl (omega arith, h)

    -- The command exits with 0 only if the configuration loads, the files of its directory load as migrations, and
    -- they are now applied; with any other code, the database is as it was.
    pub execute-Exits : Exits (execute sha256 driver exec machine t)
    execute-Exits = elim (Option-cases machine.dir_flag) [
      | inl absent ↦
          let same : execute sha256 driver exec machine t ≡ (2, t) =
            unfold execute in ground (arith, absent) in
          subst Exits (sym same) (inl (omega arith, refl))
      | inr (dir, given) ↦ elim (Option-cases (settings machine.dotenv)) [
        | inl bad ↦
            let same : execute sha256 driver exec machine t ≡ (1, t) =
              unfold execute in ground (arith, given, bad) in
            subst Exits (sym same) (inl (omega arith, refl))
        | inr (c, set) ↦
            let r = run sha256 driver exec c (machine.read_dir dir) machine.faults t in
            let same : execute sha256 driver exec machine t ≡ (exit_code r.0, r.1) =
              unfold execute in ground (arith, given, set) in
            subst Exits (sym same) (
              exit-Completed dir c given set r
                (run-RanUp c (machine.read_dir dir) machine.faults t))
      ]
    ]
