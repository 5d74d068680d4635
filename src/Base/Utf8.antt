-- ===== src/Base/Utf8.antt =====
-- What the source uses of Go's `range` over a string, `unicode/utf8` and `strings.TrimSpace`:
-- a string is read as a sequence of runes, and a byte that starts no valid encoding is read as
-- U+FFFD of width 1. Continuation bytes are held to the ranges of Go's decoder (no surrogates, no
-- overlong forms, nothing above U+10FFFF).
pub mod Blanks
use Prim.Native.Nat.{ℕ, zero, suc, ◌+◌, ◌-◌, ◌*◌}
use mathlib.Core.Bool.{Bool, true, not, ◌&&◌, ◌||◌}
use mathlib.Core.List.{List, [], ◌∷◌, ◌++◌, reverse}
use portfolio_backend.Base.Tests.{ltb, leb, ◌==◌, if◌then◌else◌}
use portfolio_backend.Base.Lists.{length, take}
use portfolio_backend.Base.Text.{Text}

abbrev pub in_range : ℕ → ℕ → ℕ → Bool
in_range lo hi c = leb lo c && leb c hi

abbrev pub rune_error : ℕ
rune_error = 0xFFFD

abbrev continuation : ℕ → Bool
continuation b = in_range 0x80 0xBF b

abbrev bad : ℕ × ℕ
bad = (rune_error, 1)

decode_two : ℕ → Text → ℕ × ℕ
decode_two b0 (b1 ∷ _) = if continuation b1 then ((b0 - 0xC0) * 64 + (b1 - 0x80), 2) else bad
decode_two b0 [] = bad

decode_three : ℕ → Text → ℕ × ℕ
decode_three b0 (b1 ∷ b2 ∷ _) =
    if in_range (if b0 == 0xE0 then 0xA0 else 0x80) (if b0 == 0xED then 0x9F else 0xBF) b1
      && continuation b2
    then ((b0 - 0xE0) * 4096 + (b1 - 0x80) * 64 + (b2 - 0x80), 3)
    else bad
decode_three b0 _ = bad

decode_four : ℕ → Text → ℕ × ℕ
decode_four b0 (b1 ∷ b2 ∷ b3 ∷ _) =
    if in_range (if b0 == 0xF0 then 0x90 else 0x80) (if b0 == 0xF4 then 0x8F else 0xBF) b1
      && (continuation b2 && continuation b3)
    then ((b0 - 0xF0) * 262144 + (b1 - 0x80) * 4096 + (b2 - 0x80) * 64 + (b3 - 0x80), 4)
    else bad
decode_four b0 _ = bad

-- utf8.DecodeRuneInString: the rune at the front and its width in bytes.
unfoldable pub decode_rune : ℕ → Text → ℕ × ℕ
unfolding decode_two decode_three decode_four
decode_rune b0 bs =
    if ltb b0 0x80
    then (b0, 1)
    else if in_range 0xC2 0xDF b0
    then decode_two b0 bs
    else if in_range 0xE0 0xEF b0
    then decode_three b0 bs
    else if in_range 0xF0 0xF4 b0
    then decode_four b0 bs
    else bad

pub record Rune : Type 0 where
  pub value : ℕ
  pub encoded : Text

-- The runes of a string; the first argument counts the bytes still to be skipped.
unfoldable pub runes_after : ℕ → Text → List Rune
runes_after skip [] = []
runes_after (suc skip) (b ∷ bs) = runes_after skip bs
runes_after zero (b ∷ bs) =
    let (v, n) = decode_rune b bs in
    record { value = v; encoded = take n (b ∷ bs) } ∷ runes_after (n - 1) bs

unfoldable pub runes : Text → List Rune
runes s = runes_after 0 s

unfoldable pub text_of : List Rune → Text
text_of [] = []
text_of (r ∷ rs) = r.encoded ++ text_of rs

-- utf8.RuneCountInString
unfoldable pub rune_count : Text → ℕ
rune_count s = length (runes s)

unfoldable pub no_errors : List Rune → Bool
no_errors [] = true
no_errors (r ∷ rs) = not (r.value == rune_error && length r.encoded == 1) && no_errors rs

-- utf8.ValidString
unfoldable pub valid_string : Text → Bool
valid_string s = no_errors (runes s)

-- unicode.IsSpace
unfoldable pub is_space : ℕ → Bool
is_space c =
    in_range 9 13 c
    || c == 0x20
    || c == 0x85
    || c == 0xA0
    || c == 0x1680
    || in_range 0x2000 0x200A c
    || c == 0x2028
    || c == 0x2029
    || c == 0x202F
    || c == 0x205F
    || c == 0x3000

unfoldable pub skip_spaces : List Rune → List Rune
skip_spaces [] = []
skip_spaces (r ∷ rs) = let rest = skip_spaces rs in if is_space r.value then rest else r ∷ rs

-- strings.TrimSpace
unfoldable pub trim_space : Text → Text
trim_space s = text_of (reverse (skip_spaces (reverse (skip_spaces (runes s)))))
