-- ===== src/Content/Registry.antt =====
-- internal/content/postgres/store.go: the registry of content items, and its synchronization with
-- a snapshot; internal/content/manifest.go: SyncService.
pub mod Spec
pub mod Upsert
pub mod Sync
pub mod Again
use portfolio_backend.Base.{
  bool_eq, ℕ, ◌+◌, List, [], ◌∷◌, Bool, true, false, not, ◌&&◌, ◌||◌, Option, none, some, length,
  filter, any, map, if◌then◌else◌,
}
use portfolio_backend.Base.Text.{Text, text_eq}
use portfolio_backend.Base.Assoc.{lookup, insert, text_key}
use portfolio_backend.Errors.{Result, ok, err, internal}
use portfolio_backend.Limiter.{Instant}
use portfolio_backend.Database.{
  ContentItem, Db, Session, Exec, ◌>>=◌, ◌>>◌, pure, fail, lift, round_trip, query, modify,
  transaction,
}
use portfolio_backend.Content.Service.{State}
use portfolio_backend.Content.Manifest.{
  Item, Snapshot, status_published, status_archived, validate_snapshot,
}

-- A missing row reads as unpublished.
unfoldable pub state_of : Option ContentItem → State
state_of none = record { published = false; comments_enabled = false }
state_of (some row) = record {
  published = text_eq row.status status_published;
  comments_enabled = row.comments_enabled;
}

unfoldable pub content_state : Text → Exec State
content_state slug = query (λ db. state_of (lookup slug db.content_items))

pub record SyncResult : Type 0 where
  pub changed : ℕ
  pub archived : ℕ

-- The INSERT of SyncSnapshot, with its ON CONFLICT clause: what the row becomes, if it changes.
unfoldable pub upserted : Text → Instant → Item → Option ContentItem → Option ContentItem
upserted source now item none = some (record {
  kind = item.kind;
  status = item.status;
  comments_enabled = item.comments_enabled;
  managed_by = source;
  updated_at = now;
})
upserted source now item (some row) =
    if text_eq row.managed_by source
      && (not (text_eq row.kind item.kind)
          || not (text_eq row.status item.status)
          || not (bool_eq row.comments_enabled item.comments_enabled))
    then some (record row {
      kind = item.kind;
      status = item.status;
      comments_enabled = item.comments_enabled;
      updated_at = now;
    })
    else none

abbrev pub Items : Type 0
Items = List (Text × ContentItem)

-- The rows affected, and the table after them.
unfoldable pub upsert_row : Text → Option ContentItem → Items → ℕ × Items
upsert_row slug none m = (0, m)
upsert_row slug (some row) m = (1, insert slug row m)

unfoldable pub upsert : Text → Item → Instant → Items → ℕ × Items
upsert source item now m = upsert_row item.slug (upserted source now item (lookup item.slug m)) m

-- "content slug is managed by another source"
unfoldable pub foreign : Text → Option ContentItem → Bool
foreign source none = false
foreign source (some row) = not (text_eq row.managed_by source)

abbrev pub with_items : Db → Items → Db
with_items db m = record db { content_items = m }

unfoldable pub upsert_statement : Text → Item → Exec ℕ
upsert_statement source item = modify (λ now db.
    let (affected, m) = upsert source item now db.content_items in ok (affected, with_items db m))

-- The loop over the items, with the rows changed so far.
unfoldable pub sync_items : Text → ℕ → List Item → Exec ℕ
sync_items source changed [] = pure changed
sync_items source changed (item ∷ items) = do
  row ← query (λ db. lookup item.slug db.content_items)
  if foreign source row
      then fail internal
      else do affected ← upsert_statement source item; sync_items source (changed + affected) items

-- The UPDATE that archives absent items.
unfoldable pub to_archive : Text → List Text → Text × ContentItem → Bool
to_archive source slugs e =
    text_eq e.1.managed_by source
    && not (any (text_eq e.0) slugs)
    && not (text_eq e.1.status status_archived)

unfoldable pub archived_row : Text → Instant → List Text → Text × ContentItem → Text × ContentItem
archived_row source now slugs e =
    if to_archive source slugs e
    then (e.0, record e.1 { status = status_archived; updated_at = now })
    else e

unfoldable pub archive_absent : Text → List Text → Exec ℕ
archive_absent source slugs = modify (λ now db. ok (
  length (filter (to_archive source slugs) db.content_items),
  with_items db (map (archived_row source now slugs) db.content_items),
))

unfoldable pub sync_body : Snapshot → Exec SyncResult
sync_body snapshot = do
  round_trip
  changed ← sync_items snapshot.source 0 snapshot.items
  archived ← archive_absent snapshot.source (map (λ i. i.slug) snapshot.items)
  pure (record { changed = changed; archived = archived })

unfoldable pub sync_snapshot : Snapshot → Exec SyncResult
sync_snapshot snapshot = do lift (validate_snapshot snapshot); transaction (sync_body snapshot)

-- SyncService.Sync over any store
unfoldable pub sync : (Snapshot → Exec SyncResult) → Snapshot → Exec SyncResult
sync store snapshot = do lift (validate_snapshot snapshot); store snapshot
