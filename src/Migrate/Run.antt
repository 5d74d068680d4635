-- ===== src/Migrate/Run.antt =====
-- internal/platform/migrate/migrate.go: Up. The statements of a migration are the database's: what they make
-- of its objects, or that they fail, is the parameter `exec`; they leave schema_migrations alone. Any round trip
-- may fail.
use portfolio_backend.Base.{
  List, [], ◌∷◌, ◌++◌, Bool, true, false, not, ◌&&◌, Option, none, some, any, length, ◌==◌,
  if◌then◌else◌,
}
use portfolio_backend.Base.Int.{ℤ, pos, ltb_ℤ, eq_ℤ}
use portfolio_backend.Base.Text.{Text, text_eq}
use portfolio_backend.Base.Assoc.{lookup, int_key}
use portfolio_backend.Migrate.Directory.{Migration}

pub record AppliedMigration : Type 0 where
  pub name : Text
  pub checksum : Text

-- The rows of schema_migrations, by version.
abbrev pub Applied : Type 0
Applied = List (ℤ × AppliedMigration)

-- A database: its objects, and schema_migrations if it exists.
pub record Target (Objects : Type 0) : Type 0 where
  pub objects : Objects
  pub history : Option Applied

-- CREATE TABLE IF NOT EXISTS
abbrev pub rows : Option Applied → Applied
rows none = []
rows (some applied) = applied

-- The migration of a version; the map has the last one.
unfoldable pub find_version : ℤ → List Migration → Option Migration
find_version version [] = none
find_version version (m ∷ ms) = elim (find_version version ms) [
  | some found ↦ some found
  | none ↦ if eq_ℤ m.version version then some m else none
]

abbrev pub is_unmodified : AppliedMigration → Option Migration → Bool
is_unmodified state none = false
is_unmodified state (some m) = text_eq state.name m.name && text_eq state.checksum m.checksum

-- The loop over what is applied.
unfoldable pub history_matches : List Migration → Applied → Bool
history_matches ms [] = true
history_matches ms ((version, state) ∷ applied) =
    is_unmodified state (find_version version ms) && history_matches ms applied

abbrev pub is_applied : Applied → Migration → Bool
is_applied applied m = elim (lookup m.version applied) [ none ↦ false | some state ↦ true ]

abbrev pub applied_of : Migration → ℤ × AppliedMigration
applied_of m = (m.version, record { name = m.name; checksum = m.checksum })

-- The INSERT, with the constraints of the table.
unfoldable pub record_row : Migration → Applied → Option Applied
record_row m applied =
    if ltb_ℤ (pos 0) m.version
      && not (is_applied applied m)
      && not (text_eq m.name [])
      && not (any (λ row. text_eq row.1.name m.name) applied)
      && length m.checksum == 32
    then some (applied ++ applied_of m ∷ [])
    else none

-- A transaction at work: its view of the database, and the failures of the round trips to come.
pub record Work (Objects : Type 0) : Type 0 where
  pub objects : Objects
  pub applied : Applied
  pub faults : List Bool

infixl 5 ◌>>=◌
abbrev pub ◌>>=◌ {ℓ κ} : {A : Type ℓ} {B : Type κ} → Option A → (A → Option B) → Option B
none >>= next = none
some a >>= next = next a

module _ {Objects : Type 0} where
  abbrev pub work : Target Objects → List Bool → Work Objects
  work t faults = record { objects = t.objects; applied = rows t.history; faults = faults }

  abbrev pub committed : Target Objects → Option (Work Objects) → Bool × Target Objects
  committed t none = (false, t)
  committed t (some w) = (true, record { objects = w.objects; history = some w.applied })

module _ {Objects : Type 0} (exec : Text → Objects → Option Objects) where
  unfoldable pub round_trip : Work Objects → Option (Work Objects)
  round_trip w = elim w.faults [
    | [] ↦ some w
    | failed ∷ faults ↦ if failed then none else some (record w { faults = faults })
  ]

  unfoldable pub exec_sql : Migration → Work Objects → Option (Work Objects)
  exec_sql m w = do
    w' ← round_trip w
    objects ← exec m.sql w'.objects
    some (record w' { objects = objects })

  unfoldable pub insert_version : Migration → Work Objects → Option (Work Objects)
  insert_version m w = do
    w' ← round_trip w
    applied ← record_row m w'.applied
    some (record w' { applied = applied })

  -- One migration that is not applied.
  unfoldable pub apply_one : Migration → Work Objects → Option (Work Objects)
  apply_one m w = do w' ← exec_sql m w; insert_version m w'

  -- The loop over the migrations; `known` is what was applied when it began.
  unfoldable pub apply_all : Applied → List Migration → Work Objects → Option (Work Objects)
  apply_all known [] w = some w
  apply_all known (m ∷ ms) w = do
    w' ← if is_applied known m then some w else apply_one m w
    apply_all known ms w'

  -- The connection, BEGIN, the lock, the table, what is applied, the check, the loop, COMMIT.
  unfoldable pub up_body : List Migration → Work Objects → Option (Work Objects)
  up_body ms w = do
    acquired ← round_trip w
    begun ← round_trip acquired
    locked ← round_trip begun
    created ← round_trip locked
    queried ← round_trip created
    done ← if history_matches ms queried.applied then apply_all queried.applied ms queried else none
    round_trip done

  -- The run on the migrations that were loaded; a failure rolls all of it back.
  unfoldable pub up : Option (List Migration) → List Bool → Target Objects → Bool × Target Objects
  up none faults t = (false, t)
  up (some ms) faults t = committed t (up_body ms (work t faults))
