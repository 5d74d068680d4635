-- ===== src/Content/Grammar/Loops.antt =====
-- The loops of ValidSlug and validIdentifier against the grammar.
use portfolio_backend.Base.{
  inr, ltb→lt, inl, Bool-cases, ℕ, ◌+◌, ◌<◌, ◌≡◌, refl, List, [], ◌∷◌, Bool, true, false, not, ◌||◌,
  length, ltb, ◌==◌, if◌then◌else◌, arith,
}
use portfolio_backend.Base.Text.{Text}
use portfolio_backend.Base.Utf8.{Rune, decode_rune, runes_after}
use portfolio_backend.Content.Identifier.{is_letter, is_digit, slug_loop, identifier_loop}

abbrev pub Alphanumeric : ℕ → Type 0
Alphanumeric c = (is_letter c || is_digit c) ≡ true

-- What may stand behind an alphanumeric.
pub data Follows : Text → Type 0 where
  end : Follows []
  plain : {c : ℕ} {s : Text} → Alphanumeric c → Follows s → Follows (c ∷ s)
  hyphenated : {h c : ℕ} {s : Text} → h ≡ b'-' → Alphanumeric c → Follows s → Follows (h ∷ c ∷ s)

pub data Slug : Text → Type 0 where
  starts : {c : ℕ} {s : Text} → Alphanumeric c → Follows s → Slug (c ∷ s)

pub data LetterFirst : Text → Type 0 where
  starts : {c : ℕ} {s : Text} → is_letter c ≡ true → Follows s → LetterFirst (c ∷ s)

-- A rune below U+0080 is its own single byte.
pub decode_rune_ascii : (b : ℕ) (bs : Text) → (decode_rune b bs).0 < 128 → decode_rune b bs ≡ (b, 1)
unfolding decode_rune
decode_rune_ascii b [] h = ground arith
decode_rune_ascii b (b1 ∷ []) h = ground arith
decode_rune_ascii b (b1 ∷ b2 ∷ []) h = ground arith
decode_rune_ascii b (b1 ∷ b2 ∷ b3 ∷ bs) h = ground arith

pub decode_byte : (b : ℕ) (bs : Text) → b < 128 → decode_rune b bs ≡ (b, 1)
unfolding decode_rune
decode_byte b bs h = ground arith

abbrev pub byte_rune : ℕ → Rune
byte_rune b = record { value = b; encoded = b ∷ [] }

pub runes_after-ascii :
    (b : ℕ) (bs : Text) → b < 128 → runes_after 0 (b ∷ bs) ≡ byte_rune b ∷ runes_after 0 bs
unfolding runes_after
runes_after-ascii b bs h = rw (decode_byte b bs h)

-- The byte at which the loop stands decides, whatever the runes are.
abbrev step : ℕ → Bool → ℕ → Text → Bool
step index previous b bs =
    if is_letter b || is_digit b
    then slug_loop (index + 1) false (runes_after 0 bs)
    else if not (b == b'-') || index == 0 || previous
    then false
    else slug_loop (index + 1) true (runes_after 0 bs)

slug_loop-step :
    (index : ℕ) (previous : Bool) (b : ℕ) (bs : Text)
    → slug_loop index previous (runes_after 0 (b ∷ bs)) ≡ step index previous b bs
slug_loop-step index previous b bs = elim (Bool-cases (ltb b 128)) [
  | inl low ↦ rw (runes_after-ascii b bs (ltb→lt b 128 low)) (unfold slug_loop in ground arith)
  | inr high ↦ unfold slug_loop runes_after in ground (arith, decode_rune_ascii b bs)
]

hyphen-Slug : {h : ℕ} {s : Text} → h ≡ b'-' → Slug s → Follows (h ∷ s)
hyphen-Slug e (starts a f) = hyphenated e a f

-- Behind an alphanumeric, and behind a hyphen.
sound :
    (index : ℕ) (s : Text)
    → 0 < index
    → (slug_loop index false (runes_after 0 s) ≡ true → Follows s)
      × (slug_loop index true (runes_after 0 s) ≡ true → Slug s)
sound index [] h = (λ _. end, unfold slug_loop runes_after in λ k. cc)
sound index (b ∷ bs) h =
    let ih = sound (index + 1) bs (omega arith) in
    elim (Bool-cases (is_letter b || is_digit b)) [
      | inl a ↦ (
        λ k. plain a (ih.0 (ground (arith, slug_loop-step index false b bs))),
        λ k. starts a (ih.0 (ground (arith, slug_loop-step index true b bs))),
      )
      | inr a ↦ (
        λ k.
            hyphen-Slug (ground (arith, slug_loop-step index false b bs))
              (ih.1 (ground (arith, slug_loop-step index false b bs))),
        λ k. absurd (ground (arith, slug_loop-step index true b bs)),
      )
    ]

complete :
    (index : ℕ) {s : Text} → 0 < index → Follows s → slug_loop index false (runes_after 0 s) ≡ true
complete index h end = unfold slug_loop runes_after in refl
complete index h (plain {c = c} {s = s} a f) =
    ground (arith, slug_loop-step index false c s, complete (index + 1) {s = s} (omega arith) f)
complete index h (hyphenated {h = b} {c = c} {s = s} e a f) = ground (
  arith,
  slug_loop-step index false b (c ∷ s),
  slug_loop-step (index + 1) true c s,
  complete (index + 1 + 1) {s = s} (omega arith) f,
)

-- A string of a byte or more passes the loop of ValidSlug exactly if it is a slug.
pub slug_loop_sound :
    (b : ℕ) (bs : Text) → slug_loop 0 false (runes_after 0 (b ∷ bs)) ≡ true → Slug (b ∷ bs)
slug_loop_sound b bs h =
    starts (ground (arith, slug_loop-step 0 false b bs))
      ((sound 1 bs (omega arith)).0 (ground (arith, slug_loop-step 0 false b bs)))

pub slug_loop_complete : {s : Text} → Slug s → slug_loop 0 false (runes_after 0 s) ≡ true
slug_loop_complete (starts {c = c} {s = s} a f) =
    ground (arith, slug_loop-step 0 false c s, complete 1 {s = s} (omega arith) f)

-- Past the first byte the two loops are one.
identifier_loop-eq :
    (letter : Bool) (index : ℕ) (previous : Bool) (rs : List Rune)
    → 0 < index
    → identifier_loop letter index previous rs ≡ slug_loop index previous rs
unfolding identifier_loop slug_loop
identifier_loop-eq letter index previous [] h = refl
identifier_loop-eq letter index previous (r ∷ rs) h =
    let next = index + length r.encoded in
    ground (
      arith,
      identifier_loop-eq letter next false rs (omega arith),
      identifier_loop-eq letter next true rs (omega arith),
    )

identifier_loop-first :
    (b : ℕ) (bs : Text)
    → identifier_loop true 0 false (runes_after 0 (b ∷ bs))
      ≡ (if is_letter b then slug_loop 1 false (runes_after 0 bs) else false)
identifier_loop-first b bs = elim (Bool-cases (ltb b 128)) [
  | inl low ↦
      rw (runes_after-ascii b bs (ltb→lt b 128 low)) (
        unfold identifier_loop in
        ground (arith, identifier_loop-eq true 1 false (runes_after 0 bs)))
  | inr high ↦ unfold identifier_loop runes_after in ground (arith, decode_rune_ascii b bs)
]

pub identifier_loop_sound :
    (b : ℕ) (bs : Text)
    → identifier_loop true 0 false (runes_after 0 (b ∷ bs)) ≡ true
    → LetterFirst (b ∷ bs)
identifier_loop_sound b bs h =
    starts (ground (arith, identifier_loop-first b bs))
      ((sound 1 bs (omega arith)).0 (ground (arith, identifier_loop-first b bs)))

pub identifier_loop_complete :
    {s : Text} → LetterFirst s → identifier_loop true 0 false (runes_after 0 s) ≡ true
identifier_loop_complete (starts {c = c} {s = s} a f) =
    ground (arith, identifier_loop-first c s, complete 1 {s = s} (omega arith) f)
