-- ===== src/Examples/Contents.antt =====
-- internal/content at concrete identifiers.
use portfolio_backend.Base.{◌≡◌, ◌↔◌, ◌≤◌, refl, true, false, length}
use portfolio_backend.Base.Text.{bytes, text_eq}
use portfolio_backend.Base.Utf8.{
  decode_rune, runes, runes_after, text_of, is_space, skip_spaces, trim_space,
}
use portfolio_backend.Content.{
  valid_identifier, max_source_chars, valid_slug, slug_loop, max_slug_chars,
}
use portfolio_backend.Content.Grammar.{Slug, LetterFirst, valid_slug_iff, valid_identifier_iff}

program : Unit {0}
unfolding valid_slug slug_loop text_eq trim_space skip_spaces is_space text_of runes runes_after
    decode_rune
program = tt

slugs :
    (valid_slug (bytes "building-a-homelab") ≡ true)
    × (valid_slug (bytes "i7-9700k") ≡ true)
    × (valid_slug (bytes "double--hyphen") ≡ false)
    × (valid_slug (bytes "trailing-") ≡ false)
    × (valid_slug (bytes "Upper") ≡ false)
unfolding program
slugs = (refl, refl, refl, refl, refl)

valid_slug_iff_example :
    (valid_slug (bytes "lan-drop") ≡ true)
    ↔ (Slug (bytes "lan-drop") × (length (bytes "lan-drop") ≤ max_slug_chars))
valid_slug_iff_example = valid_slug_iff (bytes "lan-drop")

valid_identifier_iff_example :
    (valid_identifier (bytes "site-1") max_source_chars true ≡ true)
    ↔ (LetterFirst (bytes "site-1") × (length (bytes "site-1") ≤ max_source_chars))
valid_identifier_iff_example = valid_identifier_iff (bytes "site-1") max_source_chars
