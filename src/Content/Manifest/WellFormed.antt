-- ===== src/Content/Manifest/WellFormed.antt =====
-- What ValidateSnapshot accepts, stated apart from the code.
use portfolio_backend.Base.{
  ◌&&◌, sym, ltb→lt, ℕ, ◌≤◌, ◌≡◌, ◌≢◌, ◌↔◌, ◌⊎◌, refl, List, [], ◌∷◌, Bool, true, false, not, ◌||◌,
  length, any, All, arith, Bool-cases, inl, inr, if◌then◌else◌, ltb,
}
use portfolio_backend.Base.Int.{eq_ℤ_iff}
use portfolio_backend.Base.Text.{Text, text_eq, text_eq_iff}
use portfolio_backend.Base.Utf8.{in_range, runes, runes_after}
use portfolio_backend.Errors.{ok, err}
use portfolio_backend.Content.Identifier.{
  max_slug_chars, max_kind_chars, max_source_chars, max_revision_chars, valid_slug, valid_kind,
  valid_revision, revision_loop,
}
use portfolio_backend.Content.Grammar.{
  Slug, LetterFirst, valid_slug_iff, valid_identifier_iff, runes_after-ascii, decode_rune_ascii,
}
use portfolio_backend.Content.Manifest.{
  invalid_manifest, Item, Snapshot, status_draft, status_published, status_archived,
  manifest_schema_version, manifest_mode_full, max_manifest_items, known_status, validate_items,
  validate_snapshot,
}

abbrev pub LowerHex : ℕ → Type 0
LowerHex c = ((b'a' ≤ c) × (c ≤ b'f')) ⊎ ((b'0' ≤ c) × (c ≤ b'9'))

hex_test : (c : ℕ) → ((in_range b'a' b'f' c || in_range b'0' b'9' c) ≡ true) ↔ LowerHex c
hex_test c = ground arith

revision_loop-step :
    (b : ℕ) (bs : Text)
    → revision_loop (runes_after 0 (b ∷ bs)) ≡ (
        if in_range b'a' b'f' b || in_range b'0' b'9' b
        then revision_loop (runes_after 0 bs)
        else false)
revision_loop-step b bs = elim (Bool-cases (ltb b 128)) [
  | inl low ↦ rw (runes_after-ascii b bs (ltb→lt b 128 low)) (unfold revision_loop in ground arith)
  | inr high ↦ unfold revision_loop runes_after in ground (arith, decode_rune_ascii b bs)
]

revision_loop_iff : (s : Text) → (revision_loop (runes_after 0 s) ≡ true) ↔ All LowerHex s
revision_loop_iff [] = (λ h. tt, λ h. unfold revision_loop runes_after in refl)
revision_loop_iff (b ∷ bs) = (
  λ h. (
    ground (arith, revision_loop-step b bs),
    (revision_loop_iff bs).0 (ground (arith, revision_loop-step b bs)),
  ),
  λ a. ground (arith, revision_loop-step b bs, (revision_loop_iff bs).1 a.1, (hex_test b).1 a.0),
)

-- A revision is 7 to 64 lower-case hexadecimal digits.
pub valid_revision_iff :
    (s : Text)
    → (valid_revision s ≡ true)
      ↔ ((7 ≤ length s) × (length s ≤ max_revision_chars) × All LowerHex s)
unfolding valid_revision runes
valid_revision_iff s = (
  λ h. (ground arith, ground arith, (revision_loop_iff s).0 (ground arith)),
  λ h. ground (arith, h.0, h.1, (revision_loop_iff s).1 h.2),
)

abbrev pub KnownStatus : Text → Type 0
KnownStatus s = (s ≡ status_draft) ⊎ (s ≡ status_published) ⊎ (s ≡ status_archived)

pub record ItemOk (item : Item) : Type 0 where
  pub slug : Slug item.slug
  pub slug_length : length item.slug ≤ max_slug_chars
  pub kind : LetterFirst item.kind
  pub kind_length : length item.kind ≤ max_kind_chars
  pub status : KnownStatus item.status

-- No two items have one slug.
abbrev pub DistinctSlugs : List Item → Type 0
DistinctSlugs [] = Unit
DistinctSlugs (i ∷ items) = All (λ j. i.slug ≢ j.slug) items × DistinctSlugs items

abbrev Unseen : List Text → Item → Type 0
Unseen seen i = All (λ t. i.slug ≢ t) seen

known_status_iff : (s : Text) → (known_status s ≡ true) ↔ KnownStatus s
unfolding known_status
known_status_iff s = ground (
  arith,
  text_eq_iff s status_draft,
  text_eq_iff s status_published,
  text_eq_iff s status_archived,
)

unseen_iff : (s : Text) (seen : List Text) → (any (text_eq s) seen ≡ false) ↔ All (λ t. s ≢ t) seen
unseen_iff s [] = (λ h. tt, λ a. refl)
unseen_iff s (t ∷ seen) = (
  λ h. (ground (arith, text_eq_iff s t), (unseen_iff s seen).0 (ground arith)),
  λ a. ground (arith, text_eq_iff s t, (unseen_iff s seen).1 a.1),
)

item_test : Item → Bool
item_test i = valid_slug i.slug && valid_kind i.kind && known_status i.status

item_test_iff : (i : Item) → (item_test i ≡ true) ↔ ItemOk i
unfolding item_test valid_kind
item_test_iff i =
    let s = valid_slug_iff i.slug in
    let k = valid_identifier_iff i.kind max_kind_chars in
    let t = known_status_iff i.status in
    (
      λ h. record {
        slug = (s.0 (ground arith)).0;
        slug_length = (s.0 (ground arith)).1;
        kind = (k.0 (ground arith)).0;
        kind_length = (k.0 (ground arith)).1;
        status = t.0 (ground arith);
      },
      λ o. ground (arith, s.1 (o.slug, o.slug_length), k.1 (o.kind, o.kind_length), t.1 o.status),
    )

validate_items-step :
    (seen : List Text) (i : Item) (items : List Item)
    → validate_items seen (i ∷ items) ≡ (
        if item_test i && not (any (text_eq i.slug) seen)
        then validate_items (i.slug ∷ seen) items
        else err invalid_manifest)
unfolding validate_items item_test
validate_items-step seen i items = ground arith

-- An item behind another, seen both ways.
split_seen :
    (t : Text) (seen : List Text) (items : List Item)
    → All (Unseen (t ∷ seen)) items
    → All (λ j. t ≢ j.slug) items × All (Unseen seen) items
split_seen t seen [] a = (tt, tt)
split_seen t seen (j ∷ items) a =
    let r = split_seen t seen items a.1 in ((λ e. a.0.0 (sym e), r.0), (a.0.1, r.1))

join_seen :
    (t : Text) (seen : List Text) (items : List Item)
    → All (λ j. t ≢ j.slug) items
    → All (Unseen seen) items
    → All (Unseen (t ∷ seen)) items
join_seen t seen [] a b = tt
join_seen t seen (j ∷ items) a b = ((λ e. a.0 (sym e), b.0), join_seen t seen items a.1 b.1)

validate_items_sound :
    (seen : List Text) (items : List Item)
    → validate_items seen items ≡ ok tt
    → All ItemOk items × DistinctSlugs items × All (Unseen seen) items
validate_items_sound seen [] h = (tt, tt, tt)
validate_items_sound seen (i ∷ items) h =
    let st = validate_items-step seen i items in
    let r = validate_items_sound (i.slug ∷ seen) items (ground (arith, st)) in
    let p = split_seen i.slug seen items r.2 in
    (
      ((item_test_iff i).0 (ground (arith, st)), r.0),
      (p.0, r.1),
      ((unseen_iff i.slug seen).0 (ground (arith, st)), p.1),
    )

validate_items_complete :
    (seen : List Text) (items : List Item)
    → All ItemOk items
    → DistinctSlugs items
    → All (Unseen seen) items
    → validate_items seen items ≡ ok tt
validate_items_complete seen [] a d u = unfold validate_items in refl
validate_items_complete seen (i ∷ items) a d u = ground (
  arith,
  validate_items-step seen i items,
  (item_test_iff i).1 a.0,
  (unseen_iff i.slug seen).1 u.0,
  validate_items_complete (i.slug ∷ seen) items a.1 d.1 (join_seen i.slug seen items d.0 u.1),
)

pub record WellFormed (s : Snapshot) : Type 0 where
  pub schema : s.schema_version ≡ manifest_schema_version
  pub mode : s.mode ≡ manifest_mode_full
  pub source : LetterFirst s.source
  pub source_length : length s.source ≤ max_source_chars
  pub revision :
      (7 ≤ length s.revision) × (length s.revision ≤ max_revision_chars) × All LowerHex s.revision
  pub items_bounds : (1 ≤ length s.items) × (length s.items ≤ max_manifest_items)
  pub items : All ItemOk s.items
  pub distinct : DistinctSlugs s.items

All-Unseen : (items : List Item) → All (Unseen []) items
All-Unseen [] = tt
All-Unseen (i ∷ items) = (tt, All-Unseen items)

-- ValidateSnapshot accepts exactly the well-formed snapshots: schema version 1, mode "full", a
-- source that is a slug of at most 50 bytes and starts with a letter, a revision of 7 to 64
-- lower-case hexadecimal digits, 1 to 10000 items, each with a slug of at most 100 bytes, a kind
-- like a source and a known status, and no slug twice.
pub validate_snapshot_iff : (s : Snapshot) → (validate_snapshot s ≡ ok tt) ↔ WellFormed s
unfolding validate_snapshot
validate_snapshot_iff s =
    let i = valid_identifier_iff s.source max_source_chars in
    let r = valid_revision_iff s.revision in
    let e = eq_ℤ_iff s.schema_version manifest_schema_version in
    let m = text_eq_iff s.mode manifest_mode_full in
    (
      λ h.
          let v = validate_items_sound [] s.items (ground arith) in
          record {
            schema = e.0 (ground arith);
            mode = m.0 (ground arith);
            source = (i.0 (ground arith)).0;
            source_length = (i.0 (ground arith)).1;
            revision = r.0 (ground arith);
            items_bounds = ground arith;
            items = v.0;
            distinct = v.1;
          },
      λ w. ground (
        arith,
        m.1 w.mode,
        i.1 (w.source, w.source_length),
        r.1 w.revision,
        validate_items_complete [] s.items w.items w.distinct (All-Unseen s.items),
        e.1 w.schema,
        w.items_bounds,
      ),
    )
