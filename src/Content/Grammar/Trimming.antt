-- ===== src/Content/Grammar/Trimming.antt =====
-- A slug has no white space, so that trimming leaves it as it is.
use mathlib.Core.List.{reverse, reverse-append, reverse-reverse}
use portfolio_backend.Base.{ℕ, ◌<◌, ◌≡◌, refl, ap, ◌∙◌, List, [], ◌∷◌, arith}
use portfolio_backend.Base.{All, All-append, map}
use portfolio_backend.Base.Text.{Text}
use portfolio_backend.Base.Utf8.{
  Rune, runes, runes_after, text_of, is_space, skip_spaces, trim_space,
}
use portfolio_backend.Content.Grammar.Loops.{
  Follows, end, plain, hyphenated, Slug, LetterFirst, byte_rune, runes_after-ascii,
}

-- printable ASCII, the space left out
abbrev Visible : ℕ → Type 0
Visible b = (32 < b) × (b < 127)

abbrev VisibleRune : Rune → Type 0
VisibleRune r = Visible r.value

Follows-Visible : {s : Text} → Follows s → All Visible s
Follows-Visible end = tt
Follows-Visible (plain a f) = (ground arith, Follows-Visible f)
Follows-Visible (hyphenated e a f) = (omega arith, (ground arith, Follows-Visible f))

Visible-runes : (s : Text) → All Visible s → runes_after 0 s ≡ map byte_rune s
unfolding runes_after
Visible-runes [] a = refl
Visible-runes (b ∷ bs) a =
    runes_after-ascii b bs (omega arith) ∙ ap (◌∷◌ (byte_rune b)) (Visible-runes bs a.1)

map-Visible : (s : Text) → All Visible s → All VisibleRune (map byte_rune s)
map-Visible [] a = tt
map-Visible (b ∷ bs) a = (a.0, map-Visible bs a.1)

reverse-visible : (rs : List Rune) → All VisibleRune rs → All VisibleRune (reverse rs)
reverse-visible [] a = tt
reverse-visible (r ∷ rs) a =
    rw (reverse-append (r ∷ []) rs)
      (All-append VisibleRune (reverse rs) (r ∷ []) (reverse-visible rs a.1) (a.0, tt))

skip-visible : (rs : List Rune) → All VisibleRune rs → skip_spaces rs ≡ rs
unfolding skip_spaces is_space
skip-visible [] a = refl
skip-visible (r ∷ rs) a = ground arith

text-map : (s : Text) → text_of (map byte_rune s) ≡ s
unfolding text_of
text-map [] = refl
text-map (b ∷ bs) = ap (◌∷◌ b) (text-map bs)

trim-Visible : (s : Text) → All Visible s → trim_space s ≡ s
unfolding trim_space runes
trim-Visible s a =
    let v = map-Visible s a in
    rw (Visible-runes s a, skip-visible _ v, skip-visible _ (reverse-visible _ v), reverse-reverse)
      (text-map s)

pub trim-Slug : {s : Text} → Slug s → trim_space s ≡ s
trim-Slug (Slug.starts {c = c} {s = s} a f) = trim-Visible (c ∷ s) (ground arith, Follows-Visible f)

pub trim-letter : {s : Text} → LetterFirst s → trim_space s ≡ s
trim-letter (LetterFirst.starts {c = c} {s = s} a f) =
    trim-Visible (c ∷ s) (ground arith, Follows-Visible f)
