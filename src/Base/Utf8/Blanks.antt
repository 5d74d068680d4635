-- ===== src/Base/Utf8/Blanks.antt =====
-- A string that strings.TrimSpace returns neither starts nor ends with the byte 0x20.
use Prim.Native.Nat.{ℕ, zero, suc, ◌-◌}
use mathlib.Core.Bool.{Bool, true, false, not, ◌&&◌, ◌||◌}
use mathlib.Core.List.{
  List, [], ◌∷◌, ◌++◌, reverse, reverse-append, reverse-reverse, append_assoc, append-nil,
}
use mathlib.Core.Logic.{inl, inr}
use mathlib.Core.Path.{◌≡◌, refl, subst, sym, ap, ◌∙◌}
use native.Mathlib.Omega.{arith}
use portfolio_backend.Base.Tests.{Bool-cases, ◌==◌}
use portfolio_backend.Base.Lists.{take, All, All-append}
use portfolio_backend.Base.Text.{Text}
use portfolio_backend.Base.Utf8.{
  Rune, decode_rune, decode_two, decode_three, decode_four, runes_after, runes, text_of, is_space,
  skip_spaces, trim_space,
}

-- A byte 0x20 stands only in the encoding of U+0020.
abbrev blank_only : ℕ → Text → Bool
blank_only v [] = true
blank_only v (b ∷ bs) = (not (b == 0x20) || v == 0x20) && blank_only v bs

abbrev is_some_text : Text → Bool
is_some_text [] = false
is_some_text (b ∷ bs) = true

decode_rune-blank_only :
    (b : ℕ) (bs : Text)
    → blank_only (decode_rune b bs).0 (take (decode_rune b bs).1 (b ∷ bs))
        && is_some_text (take (decode_rune b bs).1 (b ∷ bs))
      ≡ true
unfolding decode_rune decode_two decode_three decode_four
decode_rune-blank_only b [] = ground arith
decode_rune-blank_only b (c ∷ []) = ground arith
decode_rune-blank_only b (c ∷ d ∷ []) = ground arith
decode_rune-blank_only b (c ∷ d ∷ e ∷ bs) = ground arith

abbrev WellEncoded : Rune → Type 0
WellEncoded r = blank_only r.value r.encoded && is_some_text r.encoded ≡ true

runes_after-WellEncoded : (skip : ℕ) (s : Text) → All WellEncoded (runes_after skip s)
unfolding runes_after
runes_after-WellEncoded skip [] = tt
runes_after-WellEncoded zero (b ∷ bs) =
    (decode_rune-blank_only b bs, runes_after-WellEncoded ((decode_rune b bs).1 - 1) bs)
runes_after-WellEncoded (suc skip) (b ∷ bs) = runes_after-WellEncoded skip bs

skip_spaces-All : (P : Rune → Type 0) (rs : List Rune) → All P rs → All P (skip_spaces rs)
unfolding skip_spaces
skip_spaces-All P [] a = tt
skip_spaces-All P (r ∷ rs) a = ground (arith, skip_spaces-All P rs a.1)

reverse-All {ℓ} : {A : Type ℓ} (P : A → Type 0) (xs : List A) → All P xs → All P (reverse xs)
reverse-All P [] a = tt
reverse-All P (x ∷ xs) a =
    rw (reverse-append (x ∷ []) xs)
      (All-append P (reverse xs) (x ∷ []) (reverse-All P xs a.1) (a.0, tt))

-- The first rune is no white space.
abbrev Starts : List Rune → Type 0
Starts [] = Unit
Starts (r ∷ rs) = is_space r.value ≡ false

skip_spaces-Starts : (rs : List Rune) → Starts (skip_spaces rs)
unfolding skip_spaces
skip_spaces-Starts [] = tt
skip_spaces-Starts (r ∷ rs) = elim (Bool-cases (is_space r.value)) [
  | inl space ↦ rw space (skip_spaces-Starts rs)
  | inr other ↦ rw other other
]

-- What is skipped stands in front.
skip_spaces-suffix : (rs : List Rune) → (front : List Rune) × (rs ≡ front ++ skip_spaces rs)
unfolding skip_spaces
skip_spaces-suffix [] = ([], refl)
skip_spaces-suffix (r ∷ rs) = elim (Bool-cases (is_space r.value)) [
  | inl space ↦ let (front, e) = skip_spaces-suffix rs in (r ∷ front, rw space (ap (◌∷◌ r) e))
  | inr other ↦ ([], rw other)
]

Starts-prefix : (rs more : List Rune) → Starts (rs ++ more) → Starts rs
Starts-prefix [] more h = tt
Starts-prefix (r ∷ rs) more h = h

-- Trimming a list of runes: it starts and ends with no white space.
abbrev trimmed_runes : List Rune → List Rune
trimmed_runes rs = reverse (skip_spaces (reverse (skip_spaces rs)))

trimmed_runes-Starts : (rs : List Rune) → Starts (trimmed_runes rs)
trimmed_runes-Starts rs =
    let kept = skip_spaces rs in
    let (front, e) = skip_spaces-suffix (reverse kept) in
    Starts-prefix (trimmed_runes rs) (reverse front) (
      subst Starts
        (sym (reverse-reverse kept)
          ∙ ap reverse e
          ∙ reverse-append front (skip_spaces (reverse kept)))
        (skip_spaces-Starts rs))

abbrev NotBlank : ℕ → Type 0
NotBlank b = (b == 0x20) ≡ false

-- The first byte is not 0x20.
abbrev pub NoBlankFirst : Text → Type 0
NoBlankFirst [] = Unit
NoBlankFirst (b ∷ bs) = NotBlank b

not_blank : (v : ℕ) (bs : Text) → is_space v ≡ false → blank_only v bs ≡ true → All NotBlank bs
unfolding is_space
not_blank v [] h e = tt
not_blank v (b ∷ bs) h e = (ground arith, not_blank v bs h (ground arith))

NoBlankFirst-append :
    (bs more : Text) → is_some_text bs ≡ true → All NotBlank bs → NoBlankFirst (bs ++ more)
NoBlankFirst-append [] more h a = cc
NoBlankFirst-append (b ∷ bs) more h a = a.0

text_of-NoBlankFirst : (rs : List Rune) → All WellEncoded rs → Starts rs → NoBlankFirst (text_of rs)
unfolding text_of
text_of-NoBlankFirst [] w h = tt
text_of-NoBlankFirst (r ∷ rs) w h =
    NoBlankFirst-append r.encoded (text_of rs) (ground arith)
      (not_blank r.value r.encoded h (ground arith))

text_of-append : (rs more : List Rune) → text_of (rs ++ more) ≡ text_of rs ++ text_of more
unfolding text_of
text_of-append [] more = refl
text_of-append (r ∷ rs) more =
    ap (◌++◌ r.encoded) (text_of-append rs more)
    ∙ sym (append_assoc r.encoded (text_of rs) (text_of more))

reverse-is_some_text : (bs : Text) → is_some_text bs ≡ true → is_some_text (reverse bs) ≡ true
reverse-is_some_text [] h = cc
reverse-is_some_text (b ∷ bs) h =
    rw (reverse-append (b ∷ []) bs) (append-is_some_text (reverse bs) b)
  where
    append-is_some_text : (bs : Text) (b : ℕ) → is_some_text (bs ++ b ∷ []) ≡ true
    append-is_some_text [] b = refl
    append-is_some_text (c ∷ bs) b = refl

reverse-text_of-NoBlankFirst :
    (rs : List Rune)
    → All WellEncoded rs
    → Starts rs
    → NoBlankFirst (reverse (text_of (reverse rs)))
reverse-text_of-NoBlankFirst [] w h = unfold text_of in tt
reverse-text_of-NoBlankFirst (r ∷ rs) w h =
    rw (reverse-append (r ∷ []) rs, text_of-append (reverse rs) (r ∷ []))
      (rw (reverse-append (text_of (reverse rs)) (text_of (r ∷ []))) (
        unfold text_of in
        rw (append-nil r.encoded) (
          NoBlankFirst-append (reverse r.encoded) (reverse (text_of (reverse rs)))
            (reverse-is_some_text r.encoded (ground arith))
            (reverse-All NotBlank r.encoded (not_blank r.value r.encoded h (ground arith))))))

-- Neither the trimmed string nor its reverse starts with the byte 0x20.
pub trim_space-NoBlankFirst :
    (s : Text) → NoBlankFirst (trim_space s) × NoBlankFirst (reverse (trim_space s))
unfolding trim_space runes
trim_space-NoBlankFirst s =
    let w = runes_after-WellEncoded 0 s in
    let kept = skip_spaces-All WellEncoded (runes s) w in
    let back =
      skip_spaces-All WellEncoded (reverse (skip_spaces (runes s)))
        (reverse-All WellEncoded (skip_spaces (runes s)) kept) in
    (
      text_of-NoBlankFirst (trimmed_runes (runes s))
          (reverse-All WellEncoded (skip_spaces (reverse (skip_spaces (runes s)))) back)
          (trimmed_runes-Starts (runes s)),
      reverse-text_of-NoBlankFirst (skip_spaces (reverse (skip_spaces (runes s)))) back
          (skip_spaces-Starts (reverse (skip_spaces (runes s)))),
    )
