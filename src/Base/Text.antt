-- ===== src/Base/Text.antt =====
-- A Go string is a sequence of bytes. A literal of the source is written by its ASCII text.
use Prim.Native.Nat.{ℕ}
use Prim.Native.Char.{code}
use Prim.Native.String.{String}
use mathlib.Core.Bool.{Bool, true, false, ◌&&◌}
use mathlib.Core.List.{List, [], ◌∷◌, ◌++◌}
use mathlib.Core.Logic.{◌↔◌, inl, inr}
use mathlib.Core.Path.{◌≡◌, refl}
use native.Mathlib.Omega.{arith}
use portfolio_backend.Base.Tests.{◌==◌, if◌then◌else◌, Bool-cases}

abbrev pub Text : Type 0
Text = List ℕ

abbrev pub bytes : String → Text
bytes String.[] = []
bytes (String.◌∷◌ c s) = code c ∷ bytes s

-- Go's `==` on strings.
unfoldable pub text_eq : Text → Text → Bool
text_eq [] [] = true
text_eq (a ∷ s) (b ∷ t) = a == b && text_eq s t
text_eq _ _ = false

-- One more byte in front of the first part.
abbrev pub prepend : ℕ → List Text → List Text
prepend c [] = (c ∷ []) ∷ []
prepend c (p ∷ ps) = (c ∷ p) ∷ ps

-- strings.Split by a separator of one byte.
unfoldable pub split : ℕ → Text → List Text
split separator [] = [] ∷ []
split separator (b ∷ bs) =
    let parts = split separator bs in if b == separator then [] ∷ parts else prepend b parts

pub text_eq_refl : (s : Text) → text_eq s s ≡ true
unfolding text_eq
text_eq_refl [] = refl
text_eq_refl (a ∷ s) = ground (arith, text_eq_refl s)

pub text_eq→eq : (s t : Text) → text_eq s t ≡ true → s ≡ t
unfolding text_eq
text_eq→eq [] [] h = refl
text_eq→eq [] (b ∷ t) h = cc
text_eq→eq (a ∷ s) [] h = cc
text_eq→eq (a ∷ s) (b ∷ t) h = ground (arith, text_eq→eq s t)

pub text_eq_iff : (s t : Text) → (text_eq s t ≡ true) ↔ (s ≡ t)
text_eq_iff s t = (text_eq→eq s t, λ e. ground (arith, text_eq_refl s))

split-cons : (s : ℕ) (xs : Text) → (first : Text) × (rest : List Text) × (split s xs ≡ first ∷ rest)
unfolding split
split-cons s [] = ([], [], refl)
split-cons s (b ∷ xs) = elim (Bool-cases (b == s)) [
  | inl same ↦ ([], split s xs, rw same)
  | inr other ↦ let (first, rest, e) = split-cons s xs in (b ∷ first, rest, rw (other, e))
]

-- A separator ends the last part.
pub split-append : (s : ℕ) (xs ys : Text) → split s (xs ++ s ∷ ys) ≡ split s xs ++ split s ys
unfolding split
split-append s [] ys = ground arith
split-append s (b ∷ xs) ys = elim (Bool-cases (b == s)) [
  | inl same ↦ rw (same, split-append s xs ys)
  | inr other ↦ let (first, rest, e) = split-cons s xs in rw (other, split-append s xs ys, e)
]
