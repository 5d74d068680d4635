-- ===== src/Content/Registry/Again.antt =====
-- A second synchronization with the snapshot that the registry holds.
use portfolio_backend.Base.{
  bool_eq, Bool, ℕ, ◌+◌, ◌≡◌, refl, sym, ap, ◌∙◌, List, [], ◌∷◌, true, false, map, filter, length,
  All, arith, inl, inr,
}
use mathlib.Core.Path.{subst}
use portfolio_backend.Base.Text.{Text, text_eq_refl}
use portfolio_backend.Base.Assoc.{lookup, text_key}
use portfolio_backend.Errors.{Error, ok, err, Result-cases}
use portfolio_backend.Limiter.{Instant}
use portfolio_backend.Database.{ContentItem, Db, Session}
use portfolio_backend.Database.Effects.{transaction-atomic}
use portfolio_backend.Database.Meaning.{value}
use portfolio_backend.Content.Manifest.WellFormed.{validate_snapshot_iff}
use portfolio_backend.Content.Manifest.{Item, Snapshot, validate_snapshot, status_archived}
use portfolio_backend.Content.Registry.{
  Items, SyncResult, upserted, upsert_row, upsert, foreign, to_archive, archived_row, sync_body,
  sync_snapshot,
}
use portfolio_backend.Content.Registry.Spec.{
  items_rule, slugs_of, body_rule, sync_rule, sync_snapshot-Means,
}
use portfolio_backend.Content.Registry.Upsert.{Stored}
use portfolio_backend.Content.Registry.Sync.{sync_snapshot-Synced}

bool_eq_refl : (b : Bool) → bool_eq b b ≡ true
bool_eq_refl true = refl
bool_eq_refl false = refl

-- No row is left that the snapshot would archive.
abbrev Settled : Text → List Text → Items → Type 0
Settled source slugs m = All (λ e. to_archive source slugs e ≡ false) m

module _ (source : Text) (slugs : List Text) where
  archived_row-settled :
      (now : Instant) (e : Text × ContentItem)
      → to_archive source slugs (archived_row source now slugs e) ≡ false
  unfolding archived_row to_archive
  archived_row-settled now e = ground (arith, text_eq_refl status_archived)

  archived-Settled :
      (now : Instant) (m : Items) → Settled source slugs (map (archived_row source now slugs) m)
  archived-Settled now [] = tt
  archived-Settled now (e ∷ m) = (archived_row-settled now e, archived-Settled now m)

  Settled-none :
      (m : Items) → Settled source slugs m → length (filter (to_archive source slugs) m) ≡ 0
  Settled-none [] a = refl
  Settled-none (e ∷ m) a = ground (arith, a.0, Settled-none m a.1)

  Settled-same :
      (now : Instant) (m : Items)
      → Settled source slugs m
      → map (archived_row source now slugs) m ≡ m
  unfolding archived_row
  Settled-same now [] a = refl
  Settled-same now (e ∷ m) a = ground (arith, a.0, Settled-same now m a.1)

module _ (source : Text) (now : Instant) where
  upsert-Stored_again :
      (item : Item) (m : Items) → Stored source m item → upsert source item now m ≡ (0, m)
  unfolding upsert upserted upsert_row
  upsert-Stored_again item m (row, found, stores) = rw found (
      ground (
        arith,
        stores.kind,
        stores.status,
        stores.comments_enabled,
        stores.managed_by,
        text_eq_refl item.kind,
        text_eq_refl item.status,
        text_eq_refl source,
        bool_eq_refl item.comments_enabled,
      ))

  unmoved : (n : ℕ) → n + 0 ≡ n
  unmoved n = omega arith

  items-again :
      (items : List Item) (changed : ℕ) (db : Db)
      → All (Stored source db.content_items) items
      → items_rule source changed items now db ≡ ok (changed, db)
  unfolding items_rule
  items-again [] changed db a = refl
  items-again (item ∷ items) changed db a =
      let (row, found, stores) = a.0 in
      let own : foreign source (lookup item.slug db.content_items) ≡ false =
        rw found (unfold foreign in ground (arith, stores.managed_by, text_eq_refl source)) in
      rw (own, upsert-Stored_again item db.content_items a.0)
        (subst (λ n. items_rule source n items now db ≡ ok (changed, db)) (sym (unmoved changed))
          (items-again items changed db a.1))

-- Nothing to do.
abbrev pub no_change : SyncResult
no_change = record { changed = 0; archived = 0 }

body_rule-again :
    (snapshot : Snapshot) (now : Instant) (db : Db)
    → All (Stored snapshot.source db.content_items) snapshot.items
    → Settled snapshot.source (slugs_of snapshot) db.content_items
    → body_rule snapshot now db ≡ ok (no_change, db)
unfolding body_rule
body_rule-again snapshot now db stored settled =
    let none_left = Settled-none snapshot.source (slugs_of snapshot) db.content_items settled in
    let same = Settled-same snapshot.source (slugs_of snapshot) now db.content_items settled in
    rw (items-again snapshot.source now snapshot.items 0 db stored, none_left, same) refl

body_rule-Settled :
    (snapshot : Snapshot) (now : Instant) (db after : Db) {r : SyncResult}
    → body_rule snapshot now db ≡ ok (r, after)
    → Settled snapshot.source (slugs_of snapshot) after.content_items
unfolding body_rule
body_rule-Settled snapshot now db after {r} h =
    elim (Result-cases (items_rule snapshot.source 0 snapshot.items now db)) [
      | inl ((n, mid), e) ↦
          let t : after.content_items
              ≡ map (archived_row snapshot.source now (slugs_of snapshot)) mid.content_items =
            ground (arith, e, h) in
          subst (Settled snapshot.source (slugs_of snapshot)) (sym t)
            (archived-Settled snapshot.source (slugs_of snapshot) now mid.content_items)
      | inr (bad, e) ↦ absurd (ground (arith, e, h))
    ]

-- A failed synchronization leaves the tables as they were.
pub sync_snapshot-atomic :
    (snapshot : Snapshot) (s : Session) {e : Error}
    → (sync_snapshot snapshot s).0 ≡ err e
    → (sync_snapshot snapshot s).1.db ≡ s.db
unfolding sync_snapshot
sync_snapshot-atomic snapshot s {e} h = elim (Result-cases (validate_snapshot snapshot)) [
  | inl (u, valid) ↦ rw valid (transaction-atomic (sync_body snapshot) s {e = e} (rw valid at h))
  | inr (bad, invalid) ↦ rw invalid refl
]

sync_rule-Settled :
    (snapshot : Snapshot) (now : Instant) (db after : Db) {r : SyncResult}
    → sync_rule snapshot now db ≡ ok (r, after)
    → Settled snapshot.source (slugs_of snapshot) after.content_items
unfolding sync_rule
sync_rule-Settled snapshot now db after {r} h = elim (Result-cases (validate_snapshot snapshot)) [
  | inl (u, valid) ↦ body_rule-Settled snapshot now db after {r = r} (rw valid at h)
  | inr (bad, invalid) ↦ absurd (ground (arith, invalid, h))
]

-- Where the rule changes nothing, a call changes nothing, and reports that if no round trip fails.
sync_snapshot-same :
    (snapshot : Snapshot) (s : Session)
    → sync_rule snapshot s.now s.db ≡ ok (no_change, s.db)
    → (sync_snapshot snapshot s).1.db ≡ s.db
sync_snapshot-same snapshot s h = elim (Result-cases (sync_snapshot snapshot s).0) [
  | inl (r, done) ↦ let k = (sync_snapshot-Means snapshot).sound s r done in ground (arith, k, h)
  | inr (e, failed) ↦ sync_snapshot-atomic snapshot s {e = e} failed
]

-- After a successful SyncSnapshot, another one of the same snapshot, at whatever time, leaves every
-- table as it is, whatever round trips fail; where none fails, it succeeds and reports no changed
-- and no archived row.
pub sync_again :
    (snapshot : Snapshot) (s : Session) {r : SyncResult}
    → (sync_snapshot snapshot s).0 ≡ ok r
    → (later : Instant) (faults : List Bool)
    → let after = (sync_snapshot snapshot s).1.db in
      ((sync_snapshot snapshot (record { db = after; now = later; faults = faults })).1.db ≡ after)
      × ((sync_snapshot snapshot (record { db = after; now = later; faults = [] })).0
          ≡ ok (record { changed = 0; archived = 0 }))
sync_again snapshot s {r} h later faults =
    let after = (sync_snapshot snapshot s).1.db in
    let (well_formed, synced) = sync_snapshot-Synced snapshot s {r = r} h in
    let settled =
      sync_rule-Settled snapshot s.now s.db after {r = r}
        ((sync_snapshot-Means snapshot).sound s r h) in
    let rule : sync_rule snapshot later after ≡ ok (no_change, after) =
      unfold sync_rule in
      rw ((validate_snapshot_iff snapshot).1 well_formed)
        (body_rule-again snapshot later after synced.items settled) in
    let calm : Session = record { db = after; now = later; faults = [] } in
    (
      sync_snapshot-same snapshot (record { db = after; now = later; faults = faults }) rule,
      ((sync_snapshot-Means snapshot).fair calm refl).0 ∙ ap value rule,
    )
