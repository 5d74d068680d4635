-- ===== src/Base/Decimal/Printing.antt =====
-- The decimal text of a number, as encoding/json and strconv print one of 64 bits, and its parsing.
use portfolio_backend.Base.{
  ℕ, zero, suc, ◌+◌, ◌-◌, ◌*◌, ◌/◌, ◌%◌, ◌<◌, ◌≡◌, ◌∙◌, ap, [], ◌∷◌, ◌++◌, some, ltb, if◌then◌else◌,
  arith, Bool-cases, inl, inr,
}
use portfolio_backend.Base.Int.{pos}
use portfolio_backend.Base.Text.{Text}
use portfolio_backend.Base.Decimal.{digits_value, unsigned, parse_int, int64_bound}

-- Up to `more` digits beyond the last.
unfoldable pub digits : ℕ → ℕ → Text
digits zero n = (b'0' + n) ∷ []
digits (suc more) n =
    let front = digits more (n / 10) in
    if ltb n 10 then (b'0' + n) ∷ [] else front ++ ((b'0' + n % 10) ∷ [])

-- 20 digits are enough for 64 bits.
unfoldable pub decimal : ℕ → Text
decimal n = digits 19 n

-- The numbers of so many further digits.
abbrev reach : ℕ → ℕ
reach zero = 10
reach (suc more) = 10 * reach more

digits_value-digit : (v d : ℕ) → d < 10 → digits_value v ((b'0' + d) ∷ []) ≡ some (v * 10 + d)
unfolding digits_value
digits_value-digit v d h = ground arith

digits_value-append :
    (v w : ℕ) (s : Text) (d : ℕ)
    → digits_value v s ≡ some w
    → d < 10
    → digits_value v (s ++ ((b'0' + d) ∷ [])) ≡ some (w * 10 + d)
unfolding digits_value
digits_value-append v w [] d e h = ground arith
digits_value-append v w (b ∷ s) d e h =
    ground (arith, digits_value-append (v * 10 + (b - b'0')) w s d)

digits_value-digits : (more n : ℕ) → n < reach more → digits_value 0 (digits more n) ≡ some n
unfolding digits
digits_value-digits zero n h = digits_value-digit 0 n h ∙ ap some (omega arith)
digits_value-digits (suc more) n h = elim (Bool-cases (ltb n 10)) [
  | inl small ↦ rw small (digits_value-digit 0 n (ground arith) ∙ ap some (omega arith))
  | inr large ↦
      let whole : n / 10 * 10 + n % 10 ≡ n = omega arith in
      rw large (
        digits_value-append 0 (n / 10) (digits more (n / 10)) (n % 10)
          (digits_value-digits more (n / 10) (omega arith)) (omega arith)
        ∙ ap some whole)
]

-- A text of digits parses as its value, if it is in range.
parse_int-digits_value :
    (bound v : ℕ) (t : Text)
    → digits_value 0 t ≡ some v
    → 0 < v
    → v < bound
    → parse_int bound t ≡ some (pos v)
unfolding parse_int unsigned digits_value
parse_int-digits_value bound v [] e p h = ground arith
parse_int-digits_value bound v (b ∷ bs) e p h = ground arith

-- A positive number of 64 bits, printed and parsed again, is itself.
pub parse_int-decimal :
    (n : ℕ) → 0 < n → n < int64_bound → parse_int int64_bound (decimal n) ≡ some (pos n)
unfolding decimal
parse_int-decimal n p h =
    parse_int-digits_value int64_bound n (digits 19 n) (digits_value-digits 19 n (omega arith)) p h
