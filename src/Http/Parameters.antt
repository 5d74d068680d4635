-- ===== src/Http/Parameters.antt =====
-- internal/httpapi/comments.go: the query parameters before_id and limit.
use portfolio_backend.Base.{[], ◌∷◌, Option, none, some, if◌then◌else◌}
use portfolio_backend.Base.Int.{ℤ, pos, leb_ℤ}
use portfolio_backend.Base.Text.{Text}
use portfolio_backend.Base.Decimal.{parse_int, int64_bound}

-- optionalPositiveInt64 and optionalPositiveInt, on a platform with 64-bit integers; `none` is
-- ErrInvalidCursor.
unfoldable pub optional_positive : Text → Option ℤ
optional_positive [] = some (pos 0)
optional_positive (b ∷ bs) = elim (parse_int int64_bound (b ∷ bs)) [
  | none ↦ none
  | some n ↦ if leb_ℤ n (pos 0) then none else some n
]
