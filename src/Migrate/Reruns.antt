-- ===== src/Migrate/Reruns.antt =====
-- internal/platform/migrate/migrate.go: Up again, with the same directory or a longer one.
use mathlib.Core.List.{append-nil}
use mathlib.Core.Path.{subst}
use portfolio_backend.Base.{
  All-weaken, filter-All, ℕ, suc, ◌<◌, ◌≡◌, refl, sym, ap, ◌∙◌, inl, inr, List, [], ◌∷◌, ◌++◌, Bool,
  true, not, ◌&&◌, ◌||◌, Option, none, some, map, arith, All, Bool-cases,
}
use portfolio_backend.Base.Int.{pos, eq_ℤ_iff}
use portfolio_backend.Base.Text.{Text, text_eq_refl}
use portfolio_backend.Base.Assoc.{lookup, int_key}
use portfolio_backend.Migrate.Directory.{Migration}
use portfolio_backend.Migrate.Sequence.{Consecutive}
use portfolio_backend.Migrate.Run.{
  Applied, Target, Work, rows, find_version, history_matches, is_applied, applied_of, round_trip,
  apply_all, up_body, up,
}
use portfolio_backend.Migrate.History.{pending, run_all, Migrated, up-Migrated}

is_applied-append :
    (xs ys : Applied) (m : Migration)
    → is_applied (xs ++ ys) m ≡ (is_applied xs m || is_applied ys m)
unfolding lookup
is_applied-append [] ys m = ground arith
is_applied-append ((v, state) ∷ xs) ys m = ground (arith, is_applied-append xs ys m)

-- Applied before, or by one of the rows.
abbrev Covered : Applied → Applied → Migration → Type 0
Covered known added m = (is_applied known m || is_applied added m) ≡ true

Covered-cons :
    (known added : Applied) (x m : Migration)
    → Covered known added m
    → Covered known (applied_of x ∷ added) m
unfolding lookup
Covered-cons known added x m h = ground arith

Covered-self : (known added : Applied) (m : Migration) → Covered known (applied_of m ∷ added) m
unfolding lookup
Covered-self known added m = ground (arith, eq_ℤ_iff m.version m.version)

pending-Covered :
    (known : Applied) (ms : List Migration)
    → All (Covered known (map applied_of (pending known ms))) ms
pending-Covered known [] = tt
pending-Covered known (m ∷ ms) =
    let by = λ (added : List Migration). All (Covered known (map applied_of added)) (m ∷ ms) in
    elim (Bool-cases (is_applied known m)) [
      | inl old ↦
          let e : pending known (m ∷ ms) ≡ pending known ms = rw old in
          subst by (sym e) (ground (arith, old), pending-Covered known ms)
      | inr new ↦
          let e : pending known (m ∷ ms) ≡ m ∷ pending known ms = rw new in
          let rest = map applied_of (pending known ms) in
          subst by (sym e) (
            Covered-self known rest m,
            All-weaken (Covered known rest) (Covered known (applied_of m ∷ rest)) ms
                (λ x h. Covered-cons known rest m x h) (pending-Covered known ms),
          )
    ]

pending_empty :
    (known : Applied) (ms : List Migration)
    → All (λ m. is_applied known m ≡ true) ms
    → pending known ms ≡ []
pending_empty known [] a = refl
pending_empty known (m ∷ ms) a = rw (a.0) (pending_empty known ms a.1)

-- Once its pending migrations are recorded, all of a list is applied.
recorded-All :
    (known : Applied) (ms : List Migration)
    → All (λ m. is_applied (known ++ map applied_of (pending known ms)) m ≡ true) ms
recorded-All known ms =
    let added = map applied_of (pending known ms) in
    All-weaken (Covered known added) (λ m. is_applied (known ++ added) m ≡ true) ms
      (λ m h. is_applied-append known added m ∙ h) (pending-Covered known ms)

-- Versions at `first` or above are not below it.
find_version-below :
    (n first : ℕ) (ms : List Migration)
    → n < first
    → Consecutive first ms
    → find_version (pos n) ms ≡ none
unfolding find_version
find_version-below n first [] h c = refl
find_version-below n first (m ∷ ms) h c = ground (arith, find_version-below n (suc first) ms, c.0)

pub find_version-All :
    (first : ℕ) (ms : List Migration)
    → Consecutive first ms
    → All (λ m. find_version m.version ms ≡ some m) ms
unfolding find_version
find_version-All first [] c = tt
find_version-All first (m ∷ ms) c = (
  ground (arith, find_version-below first (suc first) ms (omega arith) c.1, c.0),
  All-weaken (λ x. find_version x.version ms ≡ some x) _ ms (λ x h. rw h)
      (find_version-All (suc first) ms c.1),
)

history_matches-append :
    (ms : List Migration) (xs ys : Applied)
    → history_matches ms (xs ++ ys) ≡ (history_matches ms xs && history_matches ms ys)
unfolding history_matches
history_matches-append ms [] ys = refl
history_matches-append ms (x ∷ xs) ys = ground (arith, history_matches-append ms xs ys)

pub history_matches-own :
    (ms own : List Migration)
    → All (λ m. find_version m.version ms ≡ some m) own
    → history_matches ms (map applied_of own) ≡ true
unfolding history_matches
history_matches-own ms [] a = refl
history_matches-own ms (m ∷ own) a =
    rw (a.0)
      (ground (arith, text_eq_refl m.name, text_eq_refl m.checksum, history_matches-own ms own a.1))

module _ {Objects : Type 0} (exec : Text → Objects → Option Objects) where
  apply_all-none :
      (known : Applied) (ms : List Migration) (w : Work Objects)
      → All (λ m. is_applied known m ≡ true) ms
      → apply_all exec known ms w ≡ some w
  unfolding apply_all
  apply_all-none known [] w a = refl
  apply_all-none known (m ∷ ms) w a = rw (a.0) (apply_all-none known ms w a.1)

  -- With every migration applied and no failure, the transaction changes nothing.
  up_body-none :
      (ms : List Migration) (objects : Objects) (known : Applied)
      → history_matches ms known ≡ true
      → All (λ m. is_applied known m ≡ true) ms
      → let w : Work Objects = record { objects = objects; applied = known; faults = [] } in
        up_body exec ms w ≡ some w
  unfolding up_body round_trip
  up_body-none ms objects known fits a = rw (fits, apply_all-none known ms _ a)

  module _ (ms : List Migration) (faults : List Bool) (t : Target Objects)
      (loaded : Consecutive 1 ms) (succeeded : (up exec (some ms) faults t).0 ≡ true) where
    abbrev migrated : Target Objects
    migrated = (up exec (some ms) faults t).1

    first_run : Migrated exec ms t migrated
    first_run = elim (up-Migrated exec ms faults t) [
      | inl failed ↦ absurd (ground (arith, failed, succeeded))
      | inr (_, done) ↦ done
    ]

    rerun_applied : All (λ m. is_applied (rows migrated.history) m ≡ true) ms
    rerun_applied = rw (first_run.history) (recorded-All (rows t.history) ms)

    rerun_pending : pending (rows migrated.history) ms ≡ []
    rerun_pending = pending_empty (rows migrated.history) ms rerun_applied

    rerun_matches : history_matches ms (rows migrated.history) ≡ true
    rerun_matches = rw (first_run.history) (
        history_matches-append ms (rows t.history) (map applied_of (pending (rows t.history) ms))
        ∙ rw (first_run.unmodified) (
            history_matches-own ms (pending (rows t.history) ms) (
              filter-All (λ m. find_version m.version ms ≡ some m)
                (λ m. not (is_applied (rows t.history) m)) ms (find_version-All 1 ms loaded))))

    recorded : some (rows migrated.history) ≡ migrated.history
    recorded = rw (first_run.history)

    rerun_same : (faults' : List Bool) → (up exec (some ms) faults' migrated).1 ≡ migrated
    rerun_same faults' = elim (up-Migrated exec ms faults' migrated) [
      | inl failed ↦ ap (λ r. r.1) failed
      | inr (_, done) ↦
          let o : (up exec (some ms) faults' migrated).1.objects ≡ migrated.objects =
            unfold run_all in ground (arith, rw (rerun_pending) at (done.objects)) in
          let h : (up exec (some ms) faults' migrated).1.history ≡ migrated.history =
            done.history ∙ rw (rerun_pending, append-nil (rows migrated.history)) (recorded) in
          λ i. record { objects = o i; history = h i }
    ]

    rerun_calm : up exec (some ms) [] migrated ≡ (true, migrated)
    unfolding up
    rerun_calm =
        rw (up_body-none ms migrated.objects (rows migrated.history) rerun_matches rerun_applied)
          (λ i. (true, record { objects = migrated.objects; history = recorded i }))

    -- After a run on a loaded directory that succeeded, another run on it leaves the database as it is, whatever
    -- fails, and succeeds if nothing does.
    pub up_again :
        (faults' : List Bool)
        → ((up exec (some ms) faults' migrated).1 ≡ migrated)
          × (up exec (some ms) [] migrated ≡ (true, migrated))
    up_again faults' = (rerun_same faults', rerun_calm)
