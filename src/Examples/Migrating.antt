-- ===== src/Examples/Migrating.antt =====
-- internal/platform/migrate: two migrations, loaded, run, and run again.
use portfolio_backend.Base.{
  ◌≤◌, true, false, ◌≡◌, ◌⊎◌, refl, List, [], ◌∷◌, ◌++◌, Option, none, some, length, take, map,
  if◌then◌else◌,
}
use mathlib.Core.List.{Perm}
use portfolio_backend.Base.Int.{pos}
use portfolio_backend.Base.Text.{Text, bytes, text_eq}
use portfolio_backend.Base.Assoc.{lookup}
use portfolio_backend.Base.Utf8.{
  decode_rune, runes, runes_after, text_of, is_space, skip_spaces, trim_space,
}
use portfolio_backend.Base.Decimal.{digits_value, unsigned, parse_int}
use portfolio_backend.Migrate.Directory.{
  FileEntry, Migration, has_suffix, name_tail, name_part, leading_digits, file_version,
  insert_by_version, sort_by_version, is_sequence, checked, read_migration, load_file, load_entries,
  load,
}
use portfolio_backend.Migrate.Sequence.{Consecutive, sql_files, load-Consecutive}
use portfolio_backend.Migrate.Run.{
  Target, find_version, history_matches, record_row, round_trip, exec_sql, insert_version,
  apply_one, apply_all, up_body, up,
}
use portfolio_backend.Migrate.History.{run_all, Migrated, up-Migrated}
use portfolio_backend.Migrate.Growth.{recorded_rows, up-grown}
use portfolio_backend.Migrate.Reruns.{up_again}

-- 32 bytes that stand for a checksum.
abbrev sha256 : Text → Text
sha256 contents = take 32 (contents ++ bytes "00000000000000000000000000000000")

abbrev file : Text → Text → FileEntry
file name contents = record { name = name; is_dir = false; contents = some contents }

abbrev second_file : FileEntry
second_file = file (bytes "000002_likes.sql") (bytes "create likes")

abbrev first_file : FileEntry
first_file = file (bytes "000001_posts.sql") (bytes "create posts")

abbrev entries : List FileEntry
entries = file (bytes "README.md") (bytes "notes") ∷ second_file ∷ first_file ∷ []

abbrev first_migration : Migration
first_migration = record {
  version = pos 1;
  name = bytes "000001_posts.sql";
  sql = bytes "create posts";
  checksum = sha256 (bytes "create posts");
}

abbrev second_migration : Migration
second_migration = record {
  version = pos 2;
  name = bytes "000002_likes.sql";
  sql = bytes "create likes";
  checksum = sha256 (bytes "create likes");
}

abbrev both : List Migration
both = first_migration ∷ second_migration ∷ []

program : Unit {0}
unfolding text_eq lookup decode_rune runes runes_after text_of is_space skip_spaces trim_space
    digits_value unsigned parse_int has_suffix name_tail name_part leading_digits file_version
    insert_by_version sort_by_version is_sequence checked read_migration load_file load_entries load
    find_version history_matches record_row round_trip exec_sql insert_version apply_one apply_all
    up_body up
program = tt

both_loaded : load sha256 (some entries) ≡ some both
unfolding program
both_loaded = refl

-- The second version alone is no sequence.
gap_refused : load sha256 (some (second_file ∷ [])) ≡ none
unfolding program
gap_refused = refl

load-Consecutive_example :
    Perm (map some both) (map (load_file sha256) (sql_files entries))
    × Consecutive 1 both
    × (1 ≤ length both)
load-Consecutive_example = load-Consecutive sha256 entries both_loaded

-- The database keeps the statements that it has run, and refuses one of them.
abbrev exec : Text → List Text → Option (List Text)
exec sql ran = if text_eq sql (bytes "broken") then none else some (ran ++ sql ∷ [])

abbrev empty : Target (List Text)
empty = record { objects = []; history = none }

succeeded : (up exec (some both) [] empty).0 ≡ true
unfolding program
succeeded = refl

-- A failed round trip, and a statement that fails, roll everything back.
rolled_back_runs :
    (up exec (some both) (false ∷ false ∷ false ∷ false ∷ false ∷ false ∷ false ∷ true ∷ []) empty
      ≡ (false, empty))
    × (up exec
          (some (first_migration ∷ record second_migration { sql = bytes "broken" } ∷ []))
          []
          empty
        ≡ (false, empty))
unfolding program
rolled_back_runs = (refl, refl)

-- A migration that is changed after it was applied is refused.
drift_refused :
    let again = (up exec (some both) [] empty).1 in
    up exec
      (some (record first_migration { checksum = sha256 (bytes "create") } ∷ second_migration ∷ []))
      []
      again
    ≡ (false, again)
unfolding program
drift_refused = refl

up-Migrated_example :
    (up exec (some both) [] empty ≡ (false, empty))
    ⊎ (((up exec (some both) [] empty).0 ≡ true)
        × Migrated exec both empty (up exec (some both) [] empty).1)
up-Migrated_example = up-Migrated exec both [] empty

up_again_example :
    let after = (up exec (some both) [] empty).1 in
    ((up exec (some both) (true ∷ []) after).1 ≡ after)
    × (up exec (some both) [] after ≡ (true, after))
up_again_example = up_again exec both [] empty (refl, (refl, tt)) succeeded (true ∷ [])

-- The first migration on a fresh database, and the second behind it.
up-grown_example :
    let after = (up exec (some (first_migration ∷ [])) [] empty).1 in
    up exec (some both) [] after ≡ (
      true,
      record {
        objects = bytes "create posts" ∷ bytes "create likes" ∷ [];
        history = some (recorded_rows both);
      },
    )
unfolding program run_all
up-grown_example =
    up-grown exec (first_migration ∷ []) (second_migration ∷ [])
      (some (recorded_rows (first_migration ∷ []))) (bytes "create posts" ∷ [])
      {end = bytes "create posts" ∷ bytes "create likes" ∷ []} refl (refl, (refl, tt))
      ((refl, refl), tt) (refl, tt) refl
