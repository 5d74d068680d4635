-- ===== src/Examples/Syncing.antt =====
-- internal/content: a snapshot, read and synchronized.
use portfolio_backend.Base.{◌≡◌, ◌↔◌, refl, [], ◌∷◌, true, false}
use portfolio_backend.Base.Assoc.{lookup, insert}
use portfolio_backend.Base.Int.{pos}
use portfolio_backend.Base.Utf8.{
  decode_rune, runes, runes_after, text_of, is_space, skip_spaces, trim_space,
}
use portfolio_backend.Database.{transaction, round_trip, query, modify, refused, later}
use portfolio_backend.Content.{
  valid_slug, slug_loop, identifier_loop, valid_identifier, valid_kind, revision_loop,
  valid_revision,
}
use portfolio_backend.Content.Manifest.{known_status, validate_items}
use portfolio_backend.Content.Registry.{
  upserted, upsert_row, upsert, foreign, upsert_statement, sync_items, to_archive, archived_row,
  archive_absent, sync_body,
}
use portfolio_backend.Base.Text.{bytes, text_eq}
use portfolio_backend.Errors.{ok}
use portfolio_backend.Content.Manifest.{Item, Snapshot, validate_snapshot}
use portfolio_backend.Content.Manifest.WellFormed.{WellFormed, validate_snapshot_iff}
use portfolio_backend.Content.Registry.{sync_snapshot}
use portfolio_backend.Content.Registry.Sync.{Synced, sync_snapshot-Synced}
use portfolio_backend.Content.Registry.Again.{sync_again}
use portfolio_backend.Examples.Commenting.{at_noon}

abbrev first_item : Item
first_item = record {
  slug = bytes "first";
  kind = bytes "post";
  status = bytes "published";
  comments_enabled = true;
}

abbrev snapshot : Snapshot
snapshot = record {
  schema_version = pos 1;
  mode = bytes "full";
  source = bytes "site";
  revision = bytes "0123abc";
  items = first_item ∷ [];
}

unfoldable pub program : Unit {0}
unfolding sync_snapshot validate_snapshot validate_items known_status valid_slug valid_kind
    valid_identifier valid_revision slug_loop identifier_loop revision_loop text_eq trim_space
    skip_spaces is_space text_of runes runes_after decode_rune sync_body sync_items upsert_statement
    upsert upserted upsert_row foreign archive_absent archived_row to_archive transaction round_trip
    query modify refused later lookup insert
program = tt

-- The post of the registry is archived, and the item added.
synced : (sync_snapshot snapshot at_noon).0 ≡ ok (record { changed = 1; archived = 1 })
unfolding program
synced = refl

sync_snapshot-Synced_example :
    WellFormed snapshot × Synced snapshot 12 at_noon.db (sync_snapshot snapshot at_noon).1.db
sync_snapshot-Synced_example = sync_snapshot-Synced snapshot at_noon synced

validate_snapshot_iff_example : (validate_snapshot snapshot ≡ ok tt) ↔ WellFormed snapshot
validate_snapshot_iff_example = validate_snapshot_iff snapshot

sync_again_example :
    let after = (sync_snapshot snapshot at_noon).1.db in
    ((sync_snapshot snapshot (record { db = after; now = 20; faults = false ∷ true ∷ [] })).1.db
      ≡ after)
    × ((sync_snapshot snapshot (record { db = after; now = 20; faults = [] })).0
        ≡ ok (record { changed = 0; archived = 0 }))
sync_again_example = sync_again snapshot at_noon synced 20 (false ∷ true ∷ [])
