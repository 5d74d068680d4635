-- ===== src/Content/Registry/Upsert.antt =====
-- What the loop of SyncSnapshot over the items makes of the table.
use portfolio_backend.Base.{
  bool_eq, ◌∙◌, ℕ, ◌+◌, ◌≡◌, ◌≢◌, refl, List, [], ◌∷◌, false, not, ◌||◌, Option, none, some, All,
  arith, if◌then◌else◌, Bool-cases, inl, inr,
}
use portfolio_backend.Base.Text.{Text, text_eq, text_eq_iff}
use portfolio_backend.Base.Assoc.{lookup, text_key, lookup-insert}
use portfolio_backend.Errors.{ok}
use portfolio_backend.Limiter.{Instant}
use portfolio_backend.Database.{ContentItem, Db}
use portfolio_backend.Content.Manifest.{Item}
use portfolio_backend.Content.Manifest.WellFormed.{DistinctSlugs}
use portfolio_backend.Content.Registry.{Items, upserted, upsert_row, upsert, foreign, with_items}
use portfolio_backend.Content.Registry.Spec.{items_rule}

-- The row holds the item's values for the source.
pub record Stores (source : Text) (item : Item) (row : ContentItem) : Type 0 where
  pub kind : row.kind ≡ item.kind
  pub status : row.status ≡ item.status
  pub comments_enabled : row.comments_enabled ≡ item.comments_enabled
  pub managed_by : row.managed_by ≡ source

abbrev pub Stored : Text → Items → Item → Type 0
Stored source m item =
    (row : ContentItem) × (lookup item.slug m ≡ some row) × Stores source item row

-- the row after the INSERT ... ON CONFLICT
abbrev row_after : Option ContentItem → Option ContentItem → Option ContentItem
row_after none old = old
row_after (some row) old = some row

lookup-upsert_row :
    (k slug : Text) (o : Option ContentItem) (m : Items)
    → lookup slug (upsert_row k o m).1
      ≡ (if text_eq k slug then row_after o (lookup k m) else lookup slug m)
unfolding upsert_row
lookup-upsert_row k slug none m = ground (arith, text_eq_iff k slug)
lookup-upsert_row k slug (some row) m = lookup-insert k slug row m

upserted-Stores :
    (source : Text) (item : Item) (now : Instant) (old : Option ContentItem)
    → foreign source old ≡ false
    → (row : ContentItem) × (row_after (upserted source now item old) old ≡ some row)
      × Stores source item row
unfolding upserted foreign
upserted-Stores source item now none h =
    (_, refl, record { kind = refl; status = refl; comments_enabled = refl; managed_by = refl })
upserted-Stores source item now (some row) h =
    let owned : row.managed_by ≡ source = (text_eq_iff row.managed_by source).0 (ground arith) in
    elim (Bool-cases (
      not (text_eq row.kind item.kind)
      || not (text_eq row.status item.status)
      || not (bool_eq row.comments_enabled item.comments_enabled))) [
        | inl differs ↦ (
          record row {
            kind = item.kind;
            status = item.status;
            comments_enabled = item.comments_enabled;
            updated_at = now;
          },
          ground arith,
          record { kind = refl; status = refl; comments_enabled = refl; managed_by = owned },
        )
        | inr same ↦ (
          row,
          ground arith,
          record {
            kind = (text_eq_iff row.kind item.kind).0 (ground arith);
            status = (text_eq_iff row.status item.status).0 (ground arith);
            comments_enabled = ground arith;
            managed_by = owned;
          },
        )
      ]

module _ (source : Text) (now : Instant) where
  abbrev pub table_after : Item → Items → Items
  table_after item m = (upsert source item now m).1

  upsert-Stored :
      (item : Item) (m : Items)
      → foreign source (lookup item.slug m) ≡ false
      → Stored source (table_after item m) item
  unfolding upsert
  upsert-Stored item m h =
      let (row, e, st) = upserted-Stores source item now (lookup item.slug m) h in
      (
        row,
        ground (
          arith,
          lookup-upsert_row item.slug item.slug (upserted source now item (lookup item.slug m)) m,
          text_eq_iff item.slug item.slug,
          e,
        ),
        st,
      )

  lookup-upsert_ne :
      (item : Item) (m : Items) (slug : Text)
      → slug ≢ item.slug
      → lookup slug (table_after item m) ≡ lookup slug m
  unfolding upsert
  lookup-upsert_ne item m slug ne = ground (
    arith,
    lookup-upsert_row item.slug slug (upserted source now item (lookup item.slug m)) m,
    text_eq_iff item.slug slug,
  )

  -- What the loop over the items has done, when no item belongs to another source.
  pub items_untouched :
      (items : List Item) (changed : ℕ) (db after : Db) {n : ℕ} (slug : Text)
      → items_rule source changed items now db ≡ ok (n, after)
      → All (λ i. slug ≢ i.slug) items
      → lookup slug after.content_items ≡ lookup slug db.content_items
  unfolding items_rule
  items_untouched [] changed db after slug h ne = ground arith
  items_untouched (item ∷ items) changed db after {n = n} slug h ne =
      elim (Bool-cases (foreign source (lookup item.slug db.content_items))) [
        | inl taken ↦ absurd (ground (arith, taken))
        | inr owned ↦
            items_untouched items (changed + (upsert source item now db.content_items).0)
              (with_items db (table_after item db.content_items)) after {n = n} slug (rw owned at h)
              ne.1
            ∙ lookup-upsert_ne item db.content_items slug ne.0
      ]

  pub Stored-lookup :
      (a b : Items) (item : Item)
      → lookup item.slug a ≡ lookup item.slug b
      → Stored source b item
      → Stored source a item
  Stored-lookup a b item e (row, f, st) = (row, e ∙ f, st)

  pub items-Stored :
      (items : List Item) (changed : ℕ) (db after : Db) {n : ℕ}
      → items_rule source changed items now db ≡ ok (n, after)
      → DistinctSlugs items
      → All (Stored source after.content_items) items
  unfolding items_rule
  items-Stored [] changed db after h d = tt
  items-Stored (item ∷ items) changed db after {n = n} h d =
      elim (Bool-cases (foreign source (lookup item.slug db.content_items))) [
        | inl taken ↦ absurd (ground (arith, taken))
        | inr owned ↦
            let next = table_after item db.content_items in
            let more = changed + (upsert source item now db.content_items).0 in
            let k = rw owned at h in
            (
              Stored-lookup after.content_items next item
                  (items_untouched items more (with_items db next) after {n = n} item.slug k d.0)
                  (upsert-Stored item db.content_items owned),
              items-Stored items more (with_items db next) after {n = n} k d.1,
            )
      ]
