-- ===== src/Migrate/Sequence.antt =====
-- internal/platform/migrate/migrate.go: what Load promises of the migrations that it returns.
use portfolio_backend.Base.{
  ℕ, suc, ◌+◌, ◌≤◌, ◌≡◌, refl, List, [], ◌∷◌, true, some, length, map, arith, Bool-cases,
  Option-cases, inl, inr, filter, not,
}
use portfolio_backend.Base.Int.{leb_ℤ, pos, eq_ℤ_iff}
use portfolio_backend.Base.Text.{Text}
use portfolio_backend.Migrate.Directory.{
  FileEntry, Migration, is_skipped, insert_by_version, sort_by_version, is_sequence, checked,
  load_file, load_entries, load,
}
use mathlib.Core.Path.{subst, sym}
use mathlib.Core.List.Perm
use mathlib.Core.List.{Perm}

-- Versions from `first` on, one after another.
abbrev pub Consecutive : ℕ → List Migration → Type 0
Consecutive first [] = Unit
Consecutive first (m ∷ ms) = (m.version ≡ pos first) × Consecutive (suc first) ms

is_sequence-Consecutive :
    (index : ℕ) (ms : List Migration) → is_sequence index ms ≡ true → Consecutive (suc index) ms
unfolding is_sequence
is_sequence-Consecutive index [] h = tt
is_sequence-Consecutive index (m ∷ ms) h =
    let next : suc (index + 1) ≡ suc (suc index) = omega arith in
    (
      (eq_ℤ_iff m.version (pos (suc index))).0 (ground arith),
      subst (λ n. Consecutive n ms) next (is_sequence-Consecutive (index + 1) ms (ground arith)),
    )

insert-Perm : (m : Migration) (ms : List Migration) → Perm (insert_by_version m ms) (m ∷ ms)
unfolding insert_by_version
insert-Perm m [] = Perm.refl (m ∷ [])
insert-Perm m (n ∷ ns) = elim (Bool-cases (leb_ℤ m.version n.version)) [
  | inl le ↦ rw le (Perm.refl (m ∷ n ∷ ns))
  | inr gt ↦ rw gt (Perm.trans (Perm.cons n (insert-Perm m ns)) (Perm.swap m n ns))
]

sort-Perm : (ms : List Migration) → Perm (sort_by_version ms) ms
unfolding sort_by_version
sort-Perm [] = Perm.refl []
sort-Perm (m ∷ ms) = Perm.trans (insert-Perm m (sort_by_version ms)) (Perm.cons m (sort-Perm ms))

checked_lem :
    (ms : List Migration) {ms' : List Migration}
    → checked ms ≡ some ms'
    → (ms' ≡ ms) × Consecutive 1 ms' × (1 ≤ length ms')
unfolding checked
checked_lem [] e = cc
checked_lem (m ∷ ms) {ms'} e = elim (Bool-cases (is_sequence 0 (m ∷ ms))) [
  | inr broken ↦ ground (arith, broken, e)
  | inl good ↦
      let same : m ∷ ms ≡ ms' = ground (arith, good, e) in
      subst (λ l. (l ≡ m ∷ ms) × Consecutive 1 l × (1 ≤ length l)) same
        (refl, is_sequence-Consecutive 0 (m ∷ ms) good, omega arith)
]

-- The entries that are read: the files with the suffix.
abbrev pub sql_files : List FileEntry → List FileEntry
sql_files entries = filter (λ entry. not (is_skipped entry)) entries

module _ (sha256 : Text → Text) where
  load_entries-eq :
      (entries : List FileEntry) {ms : List Migration}
      → load_entries sha256 entries ≡ some ms
      → map some ms ≡ map (load_file sha256) (sql_files entries)
  unfolding load_entries
  load_entries-eq [] e = ground arith
  load_entries-eq (entry ∷ entries) {ms} e = elim (Bool-cases (is_skipped entry)) [
    | inl skipped ↦ rw skipped (load_entries-eq entries {ms = ms} (ground (arith, skipped, e)))
    | inr kept ↦ elim (Option-cases (load_file sha256 entry)) [
      | inl bad ↦ ground (arith, kept, bad, e)
      | inr (m, good) ↦ elim (Option-cases (load_entries sha256 entries)) [
        | inl bad ↦ ground (arith, kept, good, bad, e)
        | inr (rest, others) ↦
            ground (arith, kept, good, others, e, load_entries-eq entries {ms = rest} others)
      ]
    ]
  ]

  -- A successful Load has read every file with the suffix, and returns exactly their migrations, one or more of
  -- them, in the order of their versions, which are 1, 2, 3 and so on.
  pub load-Consecutive :
      (entries : List FileEntry) {ms : List Migration}
      → load sha256 (some entries) ≡ some ms
      → Perm (map some ms) (map (load_file sha256) (sql_files entries))
        × Consecutive 1 ms
        × (1 ≤ length ms)
  unfolding load
  load-Consecutive entries {ms} e = elim (Option-cases (load_entries sha256 entries)) [
    | inl bad ↦ ground (arith, bad, e)
    | inr (loaded, good) ↦
        let (same, consecutive, some_files) =
          checked_lem (sort_by_version loaded) {ms' = ms} (ground (arith, good, e)) in
        (
          subst (λ files. Perm (map some ms) files) (load_entries-eq entries {ms = loaded} good)
              (Perm.map some (subst (λ sorted. Perm sorted loaded) (sym same) (sort-Perm loaded))),
          consecutive,
          some_files,
        )
  ]
