-- ===== src/Content/Manifest.antt =====
-- internal/content/manifest.go: the snapshots of a frontend source. Reading the file and decoding
-- its JSON are Go's standard library's, and come as parameters of `read_manifest`.
pub mod WellFormed
use portfolio_backend.Base.{
  true, ℕ, ◌+◌, List, [], ◌∷◌, Bool, not, ◌&&◌, ◌||◌, Option, none, some, length, any, take, ltb,
  ◌==◌, if◌then◌else◌,
}
use portfolio_backend.Base.Int.{ℤ, pos, eq_ℤ}
use portfolio_backend.Base.Text.{Text, bytes, text_eq}
use portfolio_backend.Errors.{Result, ok, err, invalid_manifest, ◌>>=◌, ◌>>◌}
use portfolio_backend.Content.Identifier.{
  max_source_chars, valid_slug, valid_kind, valid_identifier, valid_revision,
}

abbrev pub manifest_schema_version : ℤ
manifest_schema_version = pos 1

abbrev pub manifest_mode_full : Text
manifest_mode_full = bytes "full"

abbrev pub max_manifest_bytes : ℕ
max_manifest_bytes = 1048576

abbrev pub max_manifest_items : ℕ
max_manifest_items = 10000

abbrev pub status_draft : Text
status_draft = bytes "draft"

abbrev pub status_published : Text
status_published = bytes "published"

abbrev pub status_archived : Text
status_archived = bytes "archived"

pub record Item : Type 0 where
  pub slug : Text
  pub kind : Text
  pub status : Text
  pub comments_enabled : Bool

pub record Snapshot : Type 0 where
  pub schema_version : ℤ
  pub mode : Text
  pub source : Text
  pub revision : Text
  pub items : List Item

abbrev pub reject {ℓ} : {A : Type ℓ} → Result A
reject = err invalid_manifest

unfoldable pub known_status : Text → Bool
known_status status =
    text_eq status status_draft || text_eq status status_published || text_eq status status_archived

-- The loop of ValidateSnapshot, with the slugs seen so far.
unfoldable pub validate_items : List Text → List Item → Result (Unit {0})
validate_items seen [] = ok tt
validate_items seen (item ∷ items) =
    let rest = validate_items (item.slug ∷ seen) items in
    if not (valid_slug item.slug)
    then reject
    else if not (valid_kind item.kind)
    then reject
    else if not (known_status item.status)
    then reject
    else if any (text_eq item.slug) seen
    then reject
    else rest

unfoldable pub validate_snapshot : Snapshot → Result (Unit {0})
validate_snapshot snapshot =
    if not (eq_ℤ snapshot.schema_version manifest_schema_version)
    then reject
    else if not (text_eq snapshot.mode manifest_mode_full)
    then reject
    else if not (valid_identifier snapshot.source max_source_chars true)
    then reject
    else if not (valid_revision snapshot.revision)
    then reject
    else if length snapshot.items == 0 || ltb max_manifest_items (length snapshot.items)
    then reject
    else validate_items [] snapshot.items

-- The shape that the JSON decodes to, where `comments_enabled` may be missing.
pub record WireItem : Type 0 where
  pub slug : Text
  pub kind : Text
  pub status : Text
  pub comments_enabled : Option Bool

pub record WireSnapshot : Type 0 where
  pub schema_version : ℤ
  pub mode : Text
  pub source : Text
  pub revision : Text
  pub items : List WireItem

-- encoding/json: a strict decoding of one value, which leaves the rest of the input, and whether
-- what is left holds no further value.
pub record JsonDecoder : Type 0 where
  pub decode : Text → Option (WireSnapshot × Text)
  pub at_end : Text → Bool

unfoldable pub unwire_items : List WireItem → Result (List Item)
unwire_items [] = ok []
unwire_items (w ∷ ws) = elim w.comments_enabled [
  | none ↦ reject
  | some enabled ↦ do
    items ← unwire_items ws
    ok (
        record { slug = w.slug; kind = w.kind; status = w.status; comments_enabled = enabled }
        ∷ items)
]

module _ (json : JsonDecoder) where
  unfoldable pub decode_manifest : Text → Result Snapshot
  decode_manifest payload = elim (json.decode payload) [
    | none ↦ reject
    | some (wire, rest) ↦ if not (json.at_end rest) then reject else do
      items ← unwire_items wire.items
      let snapshot : Snapshot = record {
        schema_version = wire.schema_version;
        mode = wire.mode;
        source = wire.source;
        revision = wire.revision;
        items = items;
      }
      validate_snapshot snapshot
      ok snapshot
  ]

  -- The reader gives its bytes, or fails.
  unfoldable pub read_manifest : Option Text → Result Snapshot
  read_manifest none = reject
  read_manifest (some contents) =
      let payload : Text = take (max_manifest_bytes + 1) contents in
      if ltb max_manifest_bytes (length payload) then reject else decode_manifest payload
