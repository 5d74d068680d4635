-- ===== src/AdminAuth/Claims.antt =====
-- internal/adminauth/verifier.go: the claims of an assertion. strings.EqualFold and strings.ToLower
-- fold Unicode letters: the comparison of addresses is a parameter. Instants here are nanoseconds
-- since the year 1, on which time.Time counts.
use portfolio_backend.Base.{
  ℕ, ◌+◌, ◌-◌, ◌*◌, ◌^◌, suc, List, [], Bool, true, false, not, ◌||◌, Option, none, some, any, ltb,
  if◌then◌else◌,
}
use portfolio_backend.Base.Int.{ℤ, pos, negsuc, sub_ℕ, ltb_ℤ}
use portfolio_backend.Base.Text.{Text, bytes, text_eq}
use portfolio_backend.Limiter.{Instant}

-- adminauth.Principal
pub record Principal : Type 0 where
  pub actor_id : Text

-- Verifier, apart from its keys and its clock; `admin_email` is in lower case.
pub record Verifier : Type 0 where
  pub issuer : Text
  pub audience : Text
  pub admin_email : Text

-- numericDate: its seconds since 1970 if it is present, an int64
abbrev pub NumericDate : Type 0
NumericDate = Option ℤ

pub record AccessClaims : Type 0 where
  pub token_type : Text
  pub issuer : Text
  pub audience : List Text
  pub subject : Text
  pub email : Text
  pub expiration : NumericDate
  pub not_before : NumericDate
  pub issued_at : NumericDate

abbrev pub clock_skew : ℕ
clock_skew = 30 * 1000000000

-- The seconds from the year 1 to 1970.
abbrev pub unix_to_internal : ℕ
unix_to_internal = 62135596800

abbrev pub nanoseconds : ℤ → ℤ
nanoseconds (pos n) = pos (n * 1000000000)
nanoseconds (negsuc n) = negsuc (suc n * 1000000000 - 1)

-- time.Unix(seconds, 0) of an int64: the sum with unixToInternal wraps around.
abbrev pub internal_seconds : ℤ → ℤ
internal_seconds (pos n) =
    if ltb (n + unix_to_internal) (2 ^ 63)
    then pos (n + unix_to_internal)
    else sub_ℕ (n + unix_to_internal) (2 ^ 64)
internal_seconds (negsuc n) = sub_ℕ unix_to_internal (suc n)

unfoldable pub time_of : ℤ → ℤ
time_of seconds = nanoseconds (internal_seconds seconds)

-- audience.Contains
unfoldable pub contains : Text → List Text → Bool
contains want values = any (λ value. text_eq value want) values

-- The expiration must be present and after now - clockSkew.
unfoldable pub unexpired : Instant → NumericDate → Bool
unexpired now none = false
unexpired now (some seconds) = ltb_ℤ (sub_ℕ now clock_skew) (time_of seconds)

-- The other dates, if present, must not be after now + clockSkew.
unfoldable pub begun : Instant → NumericDate → Bool
begun now none = true
begun now (some seconds) = not (ltb_ℤ (pos (now + clock_skew)) (time_of seconds))

module _ (equal_fold : Text → Text → Bool) (verifier : Verifier) (now : Instant) where
  -- validateClaims; the error is always ErrInvalidAssertion.
  unfoldable pub validate_claims : AccessClaims → Bool
  validate_claims claims =
      if not (text_eq claims.token_type (bytes "app"))
        || not (text_eq claims.issuer verifier.issuer)
        || not (contains verifier.audience claims.audience)
      then false
      else if text_eq claims.subject [] || not (equal_fold claims.email verifier.admin_email)
      then false
      else if not (unexpired now claims.expiration)
      then false
      else if not (begun now claims.not_before)
      then false
      else begun now claims.issued_at
