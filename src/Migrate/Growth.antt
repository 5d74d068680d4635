-- ===== src/Migrate/Growth.antt =====
-- internal/platform/migrate/migrate.go: Up on a database that an older directory has migrated.
use mathlib.Core.List.{append_assoc, append-nil, map-append}
use mathlib.Core.Path.{subst}
use portfolio_backend.Base.{
  All-weaken, ℕ, suc, ◌+◌, ◌≤◌, ◌≡◌, refl, ◌∙◌, List, [], ◌∷◌, ◌++◌, true, false, Option, some, map,
  any, length, arith, All, All-left, length-append, Option-cases, inl, inr,
}
use portfolio_backend.Base.Int.{pos, eq_ℤ_iff}
use portfolio_backend.Base.Text.{Text, text_eq}
use portfolio_backend.Base.Assoc.{lookup, int_key}
use portfolio_backend.Migrate.Directory.{Migration}
use portfolio_backend.Migrate.Sequence.{Consecutive}
use portfolio_backend.Migrate.Run.{
  Applied, Work, rows, is_applied, applied_of, find_version, record_row, round_trip, exec_sql,
  insert_version, apply_one, apply_all, up_body, up,
}
use portfolio_backend.Migrate.History.{run_all}
use portfolio_backend.Migrate.Reruns.{history_matches-own, find_version-All}

-- The rows of migrations.
abbrev pub recorded_rows : List Migration → Applied
recorded_rows ms = map applied_of ms

-- The names of migrations are new, each after those before it.
abbrev pub NewNames : List Migration → List Migration → Type 0
NewNames before [] = Unit
NewNames before (m ∷ ms) =
    (any (λ x. text_eq x.name m.name) before ≡ false) × NewNames (before ++ (m ∷ [])) ms

-- A name, and a checksum of SHA-256's size.
abbrev pub IsRecordable : Migration → Type 0
IsRecordable m = (text_eq m.name [] ≡ false) × (length m.checksum ≡ 32)

Consecutive-snoc :
    (first : ℕ) (ms : List Migration) (m : Migration)
    → Consecutive first ms
    → m.version ≡ pos (first + length ms)
    → Consecutive first (ms ++ (m ∷ []))
Consecutive-snoc first [] m c e = (ground arith, tt)
Consecutive-snoc first (x ∷ ms) m c e = (c.0, Consecutive-snoc (suc first) ms m c.1 (ground arith))

Consecutive-parts :
    (first : ℕ) (xs ys : List Migration)
    → Consecutive first (xs ++ ys)
    → Consecutive first xs × Consecutive (first + length xs) ys
Consecutive-parts first [] ys c = (tt, ground arith)
Consecutive-parts first (x ∷ xs) ys c =
    let (left, right) = Consecutive-parts (suc first) xs ys c.1 in
    let e : suc first + length xs ≡ first + suc (length xs) = omega arith in
    ((c.0, left), subst (λ n. Consecutive n ys) e right)

-- A version above those of a sequence is not applied.
is_applied-above :
    (first : ℕ) (ms : List Migration) (m : Migration) (n : ℕ)
    → Consecutive first ms
    → m.version ≡ pos n
    → first + length ms ≤ n
    → is_applied (recorded_rows ms) m ≡ false
unfolding lookup
is_applied-above first [] m n c e h = refl
is_applied-above first (x ∷ ms) m n c e h =
    ground (arith, is_applied-above (suc first) ms m n, c.0, c.1, eq_ℤ_iff x.version m.version)

is_applied-cons :
    (x m : Migration) (ms : List Migration)
    → is_applied (recorded_rows ms) m ≡ true
    → is_applied (recorded_rows (x ∷ ms)) m ≡ true
unfolding lookup
is_applied-cons x m ms h = ground arith

is_applied-own : (ms : List Migration) → All (λ m. is_applied (recorded_rows ms) m ≡ true) ms
is_applied-own [] = tt
is_applied-own (x ∷ ms) = (
  unfold lookup in ground (arith, eq_ℤ_iff x.version x.version),
  All-weaken (λ m. is_applied (recorded_rows ms) m ≡ true) _ ms (λ m h. is_applied-cons x m ms h)
      (is_applied-own ms),
)

any-recorded :
    (ms : List Migration) (name : Text)
    → any (λ row. text_eq row.1.name name) (recorded_rows ms) ≡ any (λ x. text_eq x.name name) ms
any-recorded [] name = refl
any-recorded (x ∷ ms) name = ground (arith, any-recorded ms name)

record_row-next :
    (before : List Migration) (m : Migration)
    → Consecutive 1 before
    → m.version ≡ pos (1 + length before)
    → IsRecordable m
    → any (λ x. text_eq x.name m.name) before ≡ false
    → record_row m (recorded_rows before) ≡ some (recorded_rows (before ++ (m ∷ [])))
unfolding record_row
record_row-next before m c e r h = ground (
  arith,
  is_applied-above 1 before m (1 + length before) c e,
  any-recorded before m.name,
  map-append applied_of before (m ∷ []),
  e,
  r,
  h,
)

module _ {Objects : Type 0} (exec : Text → Objects → Option Objects) where
  -- A transaction in which nothing fails.
  abbrev calm : Objects → List Migration → Work Objects
  calm objects ms = record { objects = objects; applied = recorded_rows ms; faults = [] }

  apply_one-calm :
      (before : List Migration) (m : Migration) (objects : Objects) {next : Objects}
      → exec m.sql objects ≡ some next
      → record_row m (recorded_rows before) ≡ some (recorded_rows (before ++ (m ∷ [])))
      → apply_one exec m (calm objects before) ≡ some (calm next (before ++ (m ∷ [])))
  unfolding apply_one exec_sql insert_version round_trip
  apply_one-calm before m objects e h = rw (e, h) refl

  -- The migrations of the older directory are skipped.
  apply_all-old :
      (known : Applied) (xs ys : List Migration) (w : Work Objects)
      → All (λ m. is_applied known m ≡ true) xs
      → apply_all exec known (xs ++ ys) w ≡ apply_all exec known ys w
  unfolding apply_all
  apply_all-old known [] ys w a = refl
  apply_all-old known (m ∷ xs) ys w a = rw (a.0) (apply_all-old known xs ys w a.1)

  -- Those behind what is done run one after another.
  apply_all-new :
      (old before new : List Migration) (objects : Objects) {end : Objects}
      → Consecutive 1 old
      → length old ≤ length before
      → Consecutive 1 before
      → Consecutive (1 + length before) new
      → All IsRecordable new
      → NewNames before new
      → run_all exec new objects ≡ some end
      → apply_all exec (recorded_rows old) new (calm objects before)
        ≡ some (calm end (before ++ new))
  unfolding apply_all run_all
  apply_all-new old before [] objects o le b n r names e =
      rw (append-nil before) (ground (arith, e))
  apply_all-new old before (m ∷ new) objects {end} o le b n r names e =
      elim (Option-cases (exec m.sql objects)) [
        | inl failed ↦ absurd (ground (arith, failed, e))
        | inr (next, done) ↦
            let row = record_row-next before m b n.0 r.0 names.0 in
            let behind : suc (1 + length before) ≡ 1 + length (before ++ (m ∷ [])) =
              omega (arith, length-append before (m ∷ [])) in
            let skipped = is_applied-above 1 old m (1 + length before) o n.0 (omega arith) in
            let rest =
              apply_all-new old (before ++ (m ∷ [])) new next {end = end} o (omega (arith, behind))
                (Consecutive-snoc 1 before m b n.0) (subst (λ k. Consecutive k new) behind n.1) r.1
                names.1 (ground (arith, done, e)) in
            rw (skipped, apply_one-calm before m objects done row)
              (rest ∙ rw (append_assoc before (m ∷ []) new) refl)
      ]

  up_body-grown :
      (old new : List Migration) (objects : Objects) {end : Objects}
      → Consecutive 1 (old ++ new)
      → All IsRecordable new
      → NewNames old new
      → run_all exec new objects ≡ some end
      → up_body exec (old ++ new) (calm objects old) ≡ some (calm end (old ++ new))
  unfolding up_body round_trip
  up_body-grown old new objects {end} c r names e =
      let (first, behind) = Consecutive-parts 1 old new c in
      let fits = history_matches-own (old ++ new) old (
        All-left (λ m. find_version m.version (old ++ new) ≡ some m) old new
          (find_version-All 1 (old ++ new) c)) in
      let skipped =
        apply_all-old (recorded_rows old) old new (calm objects old) (is_applied-own old) in
      rw
        (
          fits,
          skipped,
          apply_all-new old old new objects {end = end} first (omega arith) first behind r names e,
        )
        refl

  -- Up succeeds when nothing fails on a database that an older directory has migrated, or on a fresh one: it runs
  -- what the directory has beyond the older one, and the database is then migrated by all of it. The new names must
  -- differ and not be empty, their checksums have 32 bytes, and the database accept their statements.
  pub up-grown :
      (old new : List Migration) (history : Option Applied) (objects : Objects) {end : Objects}
      → rows history ≡ recorded_rows old
      → Consecutive 1 (old ++ new)
      → All IsRecordable new
      → NewNames old new
      → run_all exec new objects ≡ some end
      → up exec (some (old ++ new)) [] (record { objects = objects; history = history })
        ≡ (true, record { objects = end; history = some (recorded_rows (old ++ new)) })
  unfolding up
  up-grown old new history objects {end} h c r names e =
      rw (h, up_body-grown old new objects {end = end} c r names e) refl
