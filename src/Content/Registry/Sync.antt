-- ===== src/Content/Registry/Sync.antt =====
-- What a successful SyncSnapshot has made of the registry.
use portfolio_backend.Base.{
  ◌∙◌, ℕ, ◌+◌, ◌≡◌, ◌≢◌, refl, List, [], ◌∷◌, true, false, not, ◌&&◌, Option, none, some, map, any,
  All, arith, if◌then◌else◌, Bool-cases, inl, inr,
}
use portfolio_backend.Base.Text.{Text, text_eq, text_eq_iff}
use portfolio_backend.Base.Assoc.{lookup, text_key, mapped, lookup-map}
use portfolio_backend.Errors.{Result, ok, err}
use portfolio_backend.Limiter.{Instant}
use portfolio_backend.Database.{ContentItem, Db, Session}
use portfolio_backend.Content.Manifest.{Item, Snapshot, status_archived, validate_snapshot}
use portfolio_backend.Content.Manifest.WellFormed.{DistinctSlugs, WellFormed, validate_snapshot_iff}
use portfolio_backend.Content.Registry.{
  Items, SyncResult, upsert, foreign, with_items, to_archive, archived_row, sync_snapshot,
}
use portfolio_backend.Content.Registry.Spec.{
  items_rule, slugs_of, body_rule, sync_rule, sync_snapshot-Means,
}
use portfolio_backend.Content.Registry.Upsert.{
  Stored, table_after, items_untouched, Stored-lookup, items-Stored,
}
use mathlib.Core.Path.{ap, sym, subst}

-- What becomes of a row that the snapshot does not list.
abbrev pub archive_option : Text → Instant → Option ContentItem → Option ContentItem
archive_option source now none = none
archive_option source now (some row) =
    if text_eq row.managed_by source && not (text_eq row.status status_archived)
    then some (record row { status = status_archived; updated_at = now })
    else some row

module _ (source : Text) (now : Instant) (slugs : List Text) where
  key-archived_row : (x : Text × ContentItem) → (archived_row source now slugs x).0 ≡ x.0
  unfolding archived_row
  key-archived_row x = ground arith

  archived_unlisted :
      (slug : Text) (m : Items)
      → any (text_eq slug) slugs ≡ false
      → lookup slug (map (archived_row source now slugs) m)
        ≡ archive_option source now (lookup slug m)
  archived_unlisted slug m h =
      rw (lookup-map (archived_row source now slugs) slug m key-archived_row) (go (lookup slug m))
    where
      go :
          (o : Option ContentItem)
          → mapped (archived_row source now slugs) slug o ≡ archive_option source now o
      go none = refl
      go (some row) = unfold archived_row to_archive in ground (arith, h)

  archived_listed :
      (slug : Text) (m : Items)
      → any (text_eq slug) slugs ≡ true
      → lookup slug (map (archived_row source now slugs) m) ≡ lookup slug m
  archived_listed slug m h =
      rw (lookup-map (archived_row source now slugs) slug m key-archived_row) (go (lookup slug m))
    where
      go : (o : Option ContentItem) → mapped (archived_row source now slugs) slug o ≡ o
      go none = refl
      go (some row) = unfold archived_row to_archive in ground (arith, h)

listed :
    (s : Text) (items : List Item)
    → any (text_eq s) (map (λ i. i.slug) items) ≡ false
    → All (λ i. s ≢ i.slug) items
listed s [] h = tt
listed s (i ∷ items) h = (ground (arith, text_eq_iff s i.slug), listed s items (ground arith))

listed_more :
    (s : Text) (slugs : List Text) (items : List Item)
    → All (λ i. any (text_eq i.slug) slugs ≡ true) items
    → All (λ i. any (text_eq i.slug) (s ∷ slugs) ≡ true) items
listed_more s slugs [] a = tt
listed_more s slugs (i ∷ items) a = (ground (arith, a.0), listed_more s slugs items a.1)

items_listed :
    (items : List Item) → All (λ i. any (text_eq i.slug) (map (λ j. j.slug) items) ≡ true) items
items_listed [] = tt
items_listed (i ∷ items) = (
  ground (arith, text_eq_iff i.slug i.slug),
  listed_more i.slug (map (λ j. j.slug) items) items (items_listed items),
)

archived-Stored :
    (source : Text) (now : Instant) (slugs : List Text) (m : Items) (items : List Item)
    → All (λ i. any (text_eq i.slug) slugs ≡ true) items
    → All (Stored source m) items
    → All (Stored source (map (archived_row source now slugs) m)) items
archived-Stored source now slugs m [] a b = tt
archived-Stored source now slugs m (i ∷ items) a b = (
  Stored-lookup source now (map (archived_row source now slugs) m) m i
      (archived_listed source now slugs i.slug m a.0) b.0,
  archived-Stored source now slugs m items a.1 b.1,
)

items_tables :
    (source : Text) (now : Instant) (items : List Item) (changed : ℕ) (db after : Db) {n : ℕ}
    → items_rule source changed items now db ≡ ok (n, after)
    → after ≡ with_items db after.content_items
unfolding items_rule
items_tables source now [] changed db after h = ground arith
items_tables source now (item ∷ items) changed db after {n = n} h =
    elim (Bool-cases (foreign source (lookup item.slug db.content_items))) [
      | inl taken ↦ absurd (ground (arith, taken))
      | inr owned ↦
          items_tables source now items (changed + (upsert source item now db.content_items).0)
            (with_items db (table_after source now item db.content_items)) after {n = n}
            (rw owned at h)
    ]

-- The registry holds the snapshot: each item under its slug for the source, what the source owned
-- beyond them archived, and every other row, and every other table, as it was.
pub record Synced (snapshot : Snapshot) (now : Instant) (before after : Db) : Type 0 where
  pub items : All (Stored snapshot.source after.content_items) snapshot.items
  pub others :
      (slug : Text)
      → any (text_eq slug) (slugs_of snapshot) ≡ false
      → lookup slug after.content_items
        ≡ archive_option snapshot.source now (lookup slug before.content_items)
  pub tables : after ≡ with_items before after.content_items

body_rule-Synced :
    (snapshot : Snapshot) (now : Instant) (db after : Db) {r : SyncResult}
    → DistinctSlugs snapshot.items
    → body_rule snapshot now db ≡ ok (r, after)
    → Synced snapshot now db after
body_rule-Synced snapshot now db after {r = r} d h =
    go (items_rule snapshot.source 0 snapshot.items now db) refl
  where
    go :
        (x : Result (ℕ × Db))
        → items_rule snapshot.source 0 snapshot.items now db ≡ x
        → Synced snapshot now db after
    go (err e) k = absurd (unfold body_rule in ground (arith, k))
    go (ok (n, mid)) k =
        let source = snapshot.source in
        let slugs = slugs_of snapshot in
        let e : after ≡ with_items mid (map (archived_row source now slugs) mid.content_items) =
          unfold body_rule in ground (arith, k) in
        subst (Synced snapshot now db) (sym e) (record {
          items =
              archived-Stored source now slugs mid.content_items snapshot.items
                (items_listed snapshot.items)
                (items-Stored source now snapshot.items 0 db mid {n = n} k d);
          others = λ slug u.
              archived_unlisted source now slugs slug mid.content_items u
              ∙ ap (archive_option source now) (
                  items_untouched source now snapshot.items 0 db mid {n = n} slug k
                    (listed slug snapshot.items u));
          tables = ground (arith, items_tables source now snapshot.items 0 db mid {n = n} k);
        })

-- A successful SyncSnapshot was of a well-formed snapshot, and the registry holds it: each item
-- stands under its slug as the source's; of the other rows, the source's are archived and those of
-- other sources are as they were; no other table has changed.
pub sync_snapshot-Synced :
    (snapshot : Snapshot) (s : Session) {r : SyncResult}
    → (sync_snapshot snapshot s).0 ≡ ok r
    → WellFormed snapshot × Synced snapshot s.now s.db (sync_snapshot snapshot s).1.db
sync_snapshot-Synced snapshot s {r = r} h =
    let k = (sync_snapshot-Means snapshot).sound s r h in go (validate_snapshot snapshot) refl k
  where
    go :
        (v : Result (Unit {0}))
        → validate_snapshot snapshot ≡ v
        → sync_rule snapshot s.now s.db ≡ ok (r, (sync_snapshot snapshot s).1.db)
        → WellFormed snapshot × Synced snapshot s.now s.db (sync_snapshot snapshot s).1.db
    go (err e) q k = absurd (unfold sync_rule in ground (arith, q, k))
    go (ok u) q k =
        let w = (validate_snapshot_iff snapshot).0 q in
        (
          w,
          body_rule-Synced snapshot s.now s.db _ {r = r} w.distinct (unfold sync_rule in rw q at k),
        )
