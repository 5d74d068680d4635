-- ===== src/Content/Registry/Spec.antt =====
-- What SyncSnapshot means.
use portfolio_backend.Base.{ℕ, ◌+◌, List, [], ◌∷◌, length, filter, map, if◌then◌else◌}
use portfolio_backend.Base.Text.{Text}
use portfolio_backend.Base.Assoc.{lookup, text_key}
use portfolio_backend.Errors.{ok, internal}
use portfolio_backend.Database.{lift, round_trip, query, modify}
use portfolio_backend.Database.Meaning.{
  Pure, Means, returns, raises, reads, raises_if_err, ◌>>=◌, ◌>>◌, Means-pure, Means-bind, Means-if,
  Means-fail, Means-lift, Means-round_trip, Means-query, Means-modify, Means-transaction,
}
use portfolio_backend.Content.Manifest.{Item, Snapshot, validate_snapshot}
use portfolio_backend.Content.Registry.{
  SyncResult, upsert, foreign, with_items, upsert_statement, sync_items, to_archive, archived_row,
  archive_absent, sync_body, sync_snapshot,
}

abbrev pub upsert_rule : Text → Item → Pure ℕ
upsert_rule source item now db =
    let (affected, m) = upsert source item now db.content_items in ok (affected, with_items db m)

unfoldable pub items_rule : Text → ℕ → List Item → Pure ℕ
items_rule source changed [] = returns changed
items_rule source changed (item ∷ items) = do
  row ← reads (λ db. lookup item.slug db.content_items)
  if foreign source row
      then raises internal
      else do affected ← upsert_rule source item; items_rule source (changed + affected) items

abbrev pub archive_rule : Text → List Text → Pure ℕ
archive_rule source slugs now db = ok (
  length (filter (to_archive source slugs) db.content_items),
  with_items db (map (archived_row source now slugs) db.content_items),
)

abbrev pub slugs_of : Snapshot → List Text
slugs_of snapshot = map (λ i. i.slug) snapshot.items

-- The rule: each item must be unowned or the source's own and gets its values, and what the source
-- owns beyond the snapshot is archived.
unfoldable pub body_rule : Snapshot → Pure SyncResult
body_rule snapshot = do
  changed ← items_rule snapshot.source 0 snapshot.items
  archived ← archive_rule snapshot.source (slugs_of snapshot)
  returns (record { changed = changed; archived = archived })

unfoldable pub sync_rule : Snapshot → Pure SyncResult
sync_rule snapshot = do raises_if_err (validate_snapshot snapshot); body_rule snapshot

items-Means :
    (source : Text) (changed : ℕ) (items : List Item)
    → Means (sync_items source changed items) (items_rule source changed items)
unfolding sync_items items_rule upsert_statement
items-Means source changed [] = Means-pure changed
items-Means source changed (item ∷ items) =
    Means-bind (query _) _ (reads _) _ (Means-query _) (λ row.
      Means-if (foreign source row) (Means-fail internal) (
        Means-bind (modify _) _ (upsert_rule source item) _ (Means-modify _)
          (λ affected. items-Means source (changed + affected) items)))

body-Means : (snapshot : Snapshot) → Means (sync_body snapshot) (body_rule snapshot)
unfolding sync_body body_rule archive_absent
body-Means snapshot = Means-bind round_trip _ (returns tt) _ Means-round_trip (λ _.
    Means-bind _ _ (items_rule snapshot.source 0 snapshot.items) _
      (items-Means snapshot.source 0 snapshot.items)
      (λ changed.
        Means-bind (modify _) _ (archive_rule snapshot.source (slugs_of snapshot)) _
          (Means-modify _)
          (λ archived. Means-pure (record { changed = changed; archived = archived }))))

-- Whatever round trips fail, a result that SyncSnapshot returns is the one of the rule, with the
-- rule's tables; and when none fails, it answers what the rule answers, errors included.
pub sync_snapshot-Means :
    (snapshot : Snapshot) → Means (sync_snapshot snapshot) (sync_rule snapshot)
unfolding sync_snapshot sync_rule
sync_snapshot-Means snapshot =
    Means-bind (lift (validate_snapshot snapshot)) _ (raises_if_err (validate_snapshot snapshot)) _
      (Means-lift _)
      (λ _. Means-transaction (sync_body snapshot) (body_rule snapshot) (body-Means snapshot))
