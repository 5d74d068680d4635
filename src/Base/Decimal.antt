-- ===== src/Base/Decimal.antt =====
-- strconv.ParseInt in base 10, for integers from -bound to bound - 1: the bound is 2 ^ 63 for 64
-- bits, which are also those of an int, and 2 ^ 31 for 32 bits. `none` is any of its errors.
pub mod Printing
use Prim.Native.Nat.{ℕ, ◌+◌, ◌-◌, ◌*◌, ◌^◌}
use mathlib.Core.List.{[], ◌∷◌}
use mathlib.Core.Option.{Option, none, some}
use portfolio_backend.Base.Tests.{leb, ltb, ◌==◌, if◌then◌else◌}
use portfolio_backend.Base.Int.{ℤ, pos, negsuc}
use portfolio_backend.Base.Text.{Text}
use portfolio_backend.Base.Utf8.{in_range}

-- The value of a run of digits behind the ones read.
unfoldable pub digits_value : ℕ → Text → Option ℕ
digits_value n [] = some n
digits_value n (b ∷ bs) =
    let rest = digits_value (n * 10 + (b - b'0')) bs in if in_range b'0' b'9' b then rest else none

unfoldable pub unsigned : Text → Option ℕ
unsigned [] = none
unsigned (b ∷ bs) = digits_value 0 (b ∷ bs)

abbrev pub positive_in_range : ℕ → Option ℕ → Option ℤ
positive_in_range bound none = none
positive_in_range bound (some n) = if ltb n bound then some (pos n) else none

abbrev pub negative_in_range : ℕ → Option ℕ → Option ℤ
negative_in_range bound none = none
negative_in_range bound (some n) =
    if leb n bound then some (if n == 0 then pos 0 else negsuc (n - 1)) else none

unfoldable pub parse_int : ℕ → Text → Option ℤ
parse_int bound [] = none
parse_int bound (b ∷ bs) =
    if b == b'-'
    then negative_in_range bound (unsigned bs)
    else if b == b'+'
    then positive_in_range bound (unsigned bs)
    else positive_in_range bound (unsigned (b ∷ bs))

abbrev pub int32_bound : ℕ
int32_bound = 2 ^ 31

abbrev pub int64_bound : ℕ
int64_bound = 2 ^ 63
