-- ===== src/Migrate/History.antt =====
-- internal/platform/migrate/migrate.go: what a run of Up does to the database.
use mathlib.Core.List.{append_assoc, append-nil, map-append}
use mathlib.Core.Path.{subst}
use portfolio_backend.Base.{
  if◌then◌else◌, ◌≡◌, refl, sym, ap, ◌∙◌, ◌⊎◌, inl, inr, List, [], ◌∷◌, ◌++◌, Bool, true, false,
  not, Option, none, some, map, filter, arith, Bool-cases, Option-cases,
}
use portfolio_backend.Base.Text.{Text}
use portfolio_backend.Base.Assoc.{int_key}
use portfolio_backend.Migrate.Directory.{Migration}
use portfolio_backend.Migrate.Run.{
  ◌>>=◌, Applied, Target, Work, rows, history_matches, is_applied, applied_of, record_row,
  round_trip, exec_sql, insert_version, apply_one, apply_all, up_body, work, up,
}

-- The migrations that are not applied yet.
abbrev pub pending : Applied → List Migration → List Migration
pending known ms = filter (λ m. not (is_applied known m)) ms

module _ {Objects : Type 0} (exec : Text → Objects → Option Objects) where
  -- The SQL of migrations, one after another.
  unfoldable pub run_all : List Migration → Objects → Option Objects
  run_all [] objects = some objects
  run_all (m ∷ ms) objects = elim (exec m.sql objects) [ none ↦ none | some next ↦ run_all ms next ]

  -- What a transaction has done since `before`: the SQL of some migrations, and their rows.
  pub record Ran (ms : List Migration) (before after : Work Objects) : Type 0 where
    pub applied : after.applied ≡ before.applied ++ map applied_of ms
    pub objects : run_all ms before.objects ≡ some after.objects

  round_trip-Ran : (w w' : Work Objects) → round_trip exec w ≡ some w' → Ran [] w w'
  unfolding round_trip
  round_trip-Ran w w' e = record {
    applied = rw (append-nil w.applied) (ground (arith));
    objects = unfold run_all in ground arith;
  }

  apply_one-Ran :
      (m : Migration) (w w' : Work Objects) → apply_one exec m w ≡ some w' → Ran (m ∷ []) w w'
  unfolding apply_one exec_sql insert_version record_row round_trip
  apply_one-Ran m w w' e = record {
    applied = ground arith;
    objects = unfold run_all in ground arith;
  }

  run_all-append :
      (xs ys : List Migration) (a : Objects) {b : Objects}
      → run_all xs a ≡ some b
      → run_all (xs ++ ys) a ≡ run_all ys b
  unfolding run_all
  run_all-append [] ys a e = ground arith
  run_all-append (m ∷ xs) ys a {b} e = elim (Option-cases (exec m.sql a)) [
    | inl failed ↦ ground (arith, failed, e)
    | inr (next, done) ↦ rw done (run_all-append xs ys next {b = b} (ground (arith, done, e)))
  ]

  Ran-append :
      (xs ys : List Migration) {a b c : Work Objects} → Ran xs a b → Ran ys b c → Ran (xs ++ ys) a c
  Ran-append xs ys {a} {b} {c} first second = record {
    applied =
        second.applied
        ∙ ap (λ rest. rest ++ map applied_of ys) (first.applied)
        ∙ append_assoc a.applied (map applied_of xs) (map applied_of ys)
        ∙ ap (◌++◌ a.applied) (sym (map-append applied_of xs ys));
    objects = run_all-append xs ys a.objects (first.objects) ∙ second.objects;
  }

  apply_all-Ran :
      (known : Applied) (ms : List Migration) (w w' : Work Objects)
      → apply_all exec known ms w ≡ some w'
      → Ran (pending known ms) w w'
  unfolding apply_all
  apply_all-Ran known [] w w' e = record {
    applied = rw (append-nil w.applied) (ground arith);
    objects = unfold run_all in ground arith;
  }
  apply_all-Ran known (m ∷ ms) w w' e = elim (Bool-cases (is_applied known m)) [
    | inl old ↦ rw old (apply_all-Ran known ms w w' (rw old at e))
    | inr new ↦ elim (Option-cases (apply_one exec m w)) [
      | inl failed ↦ ground (arith, new, failed, e)
      | inr (next, done) ↦ rw new (
          Ran-append (m ∷ []) (pending known ms) (apply_one-Ran m w next done)
            (apply_all-Ran known ms next w' (rw (new, done) at e)))
    ]
  ]

  -- A transaction that began on `t` has found its history unmodified, and run what was pending.
  pub record Migrated (ms : List Migration) (t after : Target Objects) : Type 0 where
    pub unmodified : history_matches ms (rows t.history) ≡ true
    pub history :
        after.history ≡ some (rows t.history ++ map applied_of (pending (rows t.history) ms))
    pub objects : run_all (pending (rows t.history) ms) t.objects ≡ some after.objects

  -- Nothing but the failures to come has changed.
  abbrev Same : Work Objects → Work Objects → Type 0
  Same w w' = (w'.objects ≡ w.objects) × (w'.applied ≡ w.applied)

  -- A step that begins with a round trip has made it.
  round_trip-Same :
      (w : Work Objects) (next : Work Objects → Option (Work Objects)) {end : Work Objects}
      → (round_trip exec w >>= next) ≡ some end
      → (w' : Work Objects) × Same w w' × (next w' ≡ some end)
  round_trip-Same w next e = elim (Option-cases (round_trip exec w)) [
    | inl failed ↦ absurd (ground (arith, failed, e))
    | inr (w', done) ↦ (w', unfold round_trip in ground (arith, done), rw done at e)
  ]

  abbrev body_end : Applied → List Migration → Work Objects → Option (Work Objects)
  body_end known ms w =
      (if history_matches ms known then apply_all exec known ms w else none) >>= round_trip exec

  -- From the check on.
  body_end-Ran :
      (ms : List Migration) (w end : Work Objects)
      → body_end w.applied ms w ≡ some end
      → (history_matches ms w.applied ≡ true) × Ran (pending w.applied ms) w end
  body_end-Ran ms w end e = elim (Bool-cases (history_matches ms w.applied)) [
    | inr modified ↦ absurd (ground (arith, modified, e))
    | inl fits ↦ elim (Option-cases (apply_all exec w.applied ms w)) [
      | inl failed ↦ absurd (ground (arith, fits, failed, e))
      | inr (done, applied) ↦
          let committed : round_trip exec done ≡ some end = ground (arith, fits, applied, e) in
          let ran =
            Ran-append (pending w.applied ms) [] (apply_all-Ran w.applied ms w done applied)
              (round_trip-Ran done end committed) in
          (fits, subst (λ l. Ran l w end) (append-nil (pending w.applied ms)) ran)
    ]
  ]

  up_body-Ran :
      (ms : List Migration) (w end : Work Objects)
      → up_body exec ms w ≡ some end
      → (history_matches ms w.applied ≡ true) × Ran (pending w.applied ms) w end
  unfolding up_body
  up_body-Ran ms w end e =
      let (w1, s1, e1) = round_trip-Same w _ e in
      let (w2, s2, e2) = round_trip-Same w1 _ e1 in
      let (w3, s3, e3) = round_trip-Same w2 _ e2 in
      let (w4, s4, e4) = round_trip-Same w3 _ e3 in
      let (w5, s5, e5) = round_trip-Same w4 _ e4 in
      let same : Same w w5 = (s5.0 ∙ s4.0 ∙ s3.0 ∙ s2.0 ∙ s1.0, s5.1 ∙ s4.1 ∙ s3.1 ∙ s2.1 ∙ s1.1) in
      let (fits, ran) = body_end-Ran ms w5 end e5 in
      (
        rw (same.1) at fits,
        record {
          applied = rw (same.1) at (ran.applied);
          objects = rw (same.0, same.1) at (ran.objects);
        },
      )

  -- A run of Up fails and leaves the database as it was, whatever the round trip or the statement at which it
  -- fails; or it finds every applied migration in the directory with its name and checksum, runs the SQL of those
  -- that are not applied, once and in order, and records them.
  pub up-Migrated :
      (ms : List Migration) (faults : List Bool) (t : Target Objects)
      → (up exec (some ms) faults t ≡ (false, t))
        ⊎ (((up exec (some ms) faults t).0 ≡ true) × Migrated ms t (up exec (some ms) faults t).1)
  unfolding up
  up-Migrated ms faults t = elim (Option-cases (up_body exec ms (work t faults))) [
    | inl failed ↦ inl (rw failed)
    | inr (end, done) ↦
        let (fits, ran) = up_body-Ran ms (work t faults) end done in
        inr (
          rw done (
            refl,
            record { unmodified = fits; history = ap some (ran.applied); objects = ran.objects },
          ))
  ]
