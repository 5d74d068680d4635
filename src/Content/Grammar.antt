-- ===== src/Content/Grammar.antt =====
-- The identifiers that the code accepts, as a grammar: a slug is an alphanumeric followed by any
-- number of alphanumerics, each with at most one hyphen before it, which is the regular expression
-- ^[a-z0-9]+(-[a-z0-9]+)*$ of the CHECK constraint in migrations/000002. A kind or a source
-- starts with a letter.
mod Loops
mod Trimming
pub use Loops.{runes_after-ascii, decode_rune_ascii, Follows, Slug, LetterFirst}
use Loops.{slug_loop_sound, slug_loop_complete, identifier_loop_sound, identifier_loop_complete}
use Trimming.{trim-Slug, trim-letter}
use portfolio_backend.Base.{
  ℕ, ◌≤◌, ◌≡◌, ◌↔◌, [], ◌∷◌, Bool, true, length, ltb, leb, arith, Bool-cases, inl, inr,
}
use portfolio_backend.Base.Text.{Text, text_eq, text_eq_refl}
use portfolio_backend.Base.Utf8.{runes, trim_space}
use portfolio_backend.Content.Identifier.{
  slug_loop, valid_slug, identifier_loop, valid_identifier, max_slug_chars,
}

-- ValidSlug accepts exactly the slugs of the grammar that have at most 100 bytes.
pub valid_slug_iff : (s : Text) → (valid_slug s ≡ true) ↔ (Slug s × (length s ≤ max_slug_chars))
unfolding valid_slug runes
valid_slug_iff [] = (unfold text_eq in λ h. cc, λ h. elim h.0 [ ])
valid_slug_iff (b ∷ bs) = (
  λ h. (slug_loop_sound b bs (ground arith), ground arith),
  λ h.
      unfold text_eq in
      ground (arith, trim-Slug h.0, text_eq_refl (b ∷ bs), slug_loop_complete h.0),
)

-- validIdentifier, as it is called, accepts exactly the slugs that start with a letter and keep to
-- the maximum.
pub valid_identifier_iff :
    (s : Text) (maximum : ℕ)
    → (valid_identifier s maximum true ≡ true) ↔ (LetterFirst s × (length s ≤ maximum))
unfolding valid_identifier runes
valid_identifier_iff [] maximum = (unfold text_eq in λ h. cc, λ h. elim h.0 [ ])
valid_identifier_iff (b ∷ bs) maximum = (
  λ h. (identifier_loop_sound b bs (ground arith), ground arith),
  λ h.
      unfold text_eq in
      ground (arith, trim-letter h.0, text_eq_refl (b ∷ bs), identifier_loop_complete h.0),
)
