-- ===== src/Errors.antt =====
-- The errors that the packages name, and results. An error that wraps a sentinel is that sentinel
-- (the callers ask `errors.Is`); one that wraps a failure of the database, or names none, is
-- `internal`.
use mathlib.Core.Path.{◌≡◌, refl}
use portfolio_backend.Base.{◌⊎◌, inl, inr}

pub data Error : Type 0 where
  invalid_author invalid_body invalid_cursor post_full not_found unavailable : Error
  invalid_status invalid_audit_actor : Error
  invalid_slug content_not_found comments_disabled invalid_manifest : Error
  malformed_assertion invalid_assertion unknown_signing_key signing_key_unavailable : Error
  internal : Error

-- What a call answers.
pub data Result {ℓ} (A : Type ℓ) : Type ℓ where
  err : Error → Result A
  ok : A → Result A

infixl 5 ◌>>=◌
-- The next call gets the value, or an error passes on.
abbrev pub ◌>>=◌ {ℓ κ} :
    {X : Type ℓ} {Y : Type κ} (first : Result X) (next : X → Result Y) → Result Y
err failure >>= next = err failure
ok x >>= next = next x

infixl 5 ◌>>◌
abbrev pub ◌>>◌ {ℓ} : {Y : Type ℓ} (first : Result (Unit {0})) (next : Result Y) → Result Y
first >> next = first >>= λ done. next

pub Result-cases {ℓ} :
    {X : Type ℓ} (answer : Result X)
    → ((x : X) × (answer ≡ ok x)) ⊎ ((failure : Error) × (answer ≡ err failure))
Result-cases (err failure) = inr (failure, refl)
Result-cases (ok x) = inl (x, refl)
