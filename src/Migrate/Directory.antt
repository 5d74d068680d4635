-- ===== src/Migrate/Directory.antt =====
-- internal/platform/migrate/migrate.go: Load, on what the file system gives. SHA-256 is a
-- parameter. `none` stands for any of the errors.
use portfolio_backend.Base.{
  zero, suc, suc, ℕ, ◌-◌, ◌+◌, List, [], ◌∷◌, Bool, true, false, not, ◌&&◌, ◌||◌, Option, none,
  some, length, drop, leb, ◌==◌, if◌then◌else◌,
}
use portfolio_backend.Base.Int.{ℤ, pos, leb_ℤ, eq_ℤ}
use portfolio_backend.Base.Text.{Text, bytes, text_eq}
use portfolio_backend.Base.Utf8.{in_range, trim_space}
use portfolio_backend.Base.Decimal.{parse_int, int64_bound}

-- An entry of the directory, with what reading it gives.
pub record FileEntry : Type 0 where
  pub name : Text
  pub is_dir : Bool
  pub contents : Option Text

pub record Migration : Type 0 where
  pub version : ℤ
  pub name : Text
  pub sql : Text
  pub checksum : Text

-- strings.HasSuffix
unfoldable pub has_suffix : Text → Text → Bool
has_suffix suffix s =
    leb (length suffix) (length s) && text_eq (drop (length s - length suffix) s) suffix

abbrev pub is_name_start : ℕ → Bool
is_name_start b = in_range b'a' b'z' b || in_range b'0' b'9' b

-- [a-z0-9_]*\.sql$
unfoldable pub name_tail : Text → Bool
name_tail [] = false
name_tail (b ∷ bs) =
    let rest = name_tail bs in
    if is_name_start b || b == b'_' then rest else text_eq (b ∷ bs) (bytes ".sql")

-- _([a-z0-9][a-z0-9_]*)\.sql$
unfoldable pub name_part : Text → Bool
name_part (u ∷ b ∷ bs) = u == b'_' && (is_name_start b && name_tail bs)
name_part _ = false

-- ^([0-9]{n}), and the name part behind it: the digits.
unfoldable pub leading_digits : ℕ → Text → Option Text
leading_digits zero s = if name_part s then some [] else none
leading_digits (suc n) [] = none
leading_digits (suc n) (b ∷ bs) =
    if in_range b'0' b'9' b
    then elim (leading_digits n bs) [ none ↦ none | some digits ↦ some (b ∷ digits) ]
    else none

-- The first group of migrationFilename.
unfoldable pub file_version : Text → Option Text
file_version name = leading_digits 6 name

abbrev pub is_skipped : FileEntry → Bool
is_skipped entry = entry.is_dir || not (has_suffix (bytes ".sql") entry.name)

-- sort.Slice by version. Where versions are equal its order is open; such a directory is refused.
unfoldable pub insert_by_version : Migration → List Migration → List Migration
insert_by_version m [] = m ∷ []
insert_by_version m (n ∷ ns) =
    let rest = insert_by_version m ns in if leb_ℤ m.version n.version then m ∷ n ∷ ns else n ∷ rest

unfoldable pub sort_by_version : List Migration → List Migration
sort_by_version [] = []
sort_by_version (m ∷ ms) = insert_by_version m (sort_by_version ms)

-- Versions index + 1, from an index on.
unfoldable pub is_sequence : ℕ → List Migration → Bool
is_sequence index [] = true
is_sequence index (m ∷ ms) = eq_ℤ m.version (pos (index + 1)) && is_sequence (index + 1) ms

unfoldable pub checked : List Migration → Option (List Migration)
checked [] = none
checked (m ∷ ms) = if is_sequence 0 (m ∷ ms) then some (m ∷ ms) else none

module _ (sha256 : Text → Text) where
  -- What a file with a version becomes.
  unfoldable pub read_migration : Text → ℤ → Option Text → Option Migration
  read_migration name version none = none
  read_migration name version (some contents) =
      if length (trim_space contents) == 0
      then none
      else some
          (record { version = version; name = name; sql = contents; checksum = sha256 contents })

  unfoldable pub load_file : FileEntry → Option Migration
  load_file entry = elim (file_version entry.name) [
    | none ↦ none
    | some digits ↦ elim (parse_int int64_bound digits) [
      | none ↦ none
      | some version ↦ read_migration entry.name version entry.contents
    ]
  ]

  -- The loop over the entries.
  unfoldable pub load_entries : List FileEntry → Option (List Migration)
  load_entries [] = some []
  load_entries (entry ∷ entries) =
      let rest = load_entries entries in
      if is_skipped entry then rest else elim (load_file entry) [
        | none ↦ none
        | some m ↦ elim rest [ none ↦ none | some ms ↦ some (m ∷ ms) ]
      ]

  -- fs.ReadDir gives the entries, or fails.
  unfoldable pub load : Option (List FileEntry) → Option (List Migration)
  load none = none
  load (some entries) = elim (load_entries entries) [
    | none ↦ none
    | some ms ↦ checked (sort_by_version ms)
  ]
