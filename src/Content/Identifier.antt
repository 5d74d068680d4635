-- ===== src/Content/Identifier.antt =====
-- internal/content/content.go: ValidSlug, and manifest.go: validIdentifier, ValidKind and
-- validRevision. A `range` loop goes over the runes with their byte offsets.
use portfolio_backend.Base.{
  ℕ, ◌+◌, List, [], ◌∷◌, Bool, true, false, not, ◌&&◌, ◌||◌, length, ltb, ◌==◌, if◌then◌else◌,
}
use portfolio_backend.Base.Text.{Text, text_eq}
use portfolio_backend.Base.Utf8.{Rune, in_range, runes, trim_space}

abbrev pub max_slug_chars : ℕ
max_slug_chars = 100

abbrev pub max_kind_chars : ℕ
max_kind_chars = 50

abbrev pub max_source_chars : ℕ
max_source_chars = 50

abbrev pub max_revision_chars : ℕ
max_revision_chars = 64

abbrev pub is_letter : ℕ → Bool
is_letter c = in_range b'a' b'z' c

abbrev pub is_digit : ℕ → Bool
is_digit c = in_range b'0' b'9' c

-- The loop of ValidSlug at a byte offset.
unfoldable pub slug_loop : ℕ → Bool → List Rune → Bool
slug_loop index previous_hyphen [] = not previous_hyphen
slug_loop index previous_hyphen (r ∷ rs) =
    let next = index + length r.encoded in
    elim (is_letter r.value || is_digit r.value) [
      | true ↦ slug_loop next false rs
      | false ↦ elim (not (r.value == b'-') || index == 0 || previous_hyphen) [
        | true ↦ false
        | false ↦ slug_loop next true rs
      ]
    ]

unfoldable pub valid_slug : Text → Bool
valid_slug slug =
    if text_eq slug [] || ltb max_slug_chars (length slug) || not (text_eq (trim_space slug) slug)
    then false
    else slug_loop 0 false (runes slug)

-- The loop of validIdentifier.
unfoldable pub identifier_loop : Bool → ℕ → Bool → List Rune → Bool
identifier_loop first_must_be_letter index previous_hyphen [] = not previous_hyphen
identifier_loop first_must_be_letter index previous_hyphen (r ∷ rs) =
    let next = index + length r.encoded in
    elim (is_letter r.value || (is_digit r.value && (not first_must_be_letter || ltb 0 index))) [
      | true ↦ identifier_loop first_must_be_letter next false rs
      | false ↦ elim (not (r.value == b'-') || index == 0 || previous_hyphen) [
        | true ↦ false
        | false ↦ identifier_loop first_must_be_letter next true rs
      ]
    ]

unfoldable pub valid_identifier : Text → ℕ → Bool → Bool
valid_identifier value maximum first_must_be_letter =
    if text_eq value [] || ltb maximum (length value) || not (text_eq (trim_space value) value)
    then false
    else identifier_loop first_must_be_letter 0 false (runes value)

unfoldable pub valid_kind : Text → Bool
valid_kind kind = valid_identifier kind max_kind_chars true

unfoldable pub revision_loop : List Rune → Bool
revision_loop [] = true
revision_loop (r ∷ rs) =
    if not (in_range b'a' b'f' r.value || in_range b'0' b'9' r.value)
    then false
    else revision_loop rs

unfoldable pub valid_revision : Text → Bool
valid_revision revision =
    if ltb (length revision) 7 || ltb max_revision_chars (length revision)
    then false
    else revision_loop (runes revision)
