-- ===== src/Config/Env.antt =====
-- internal/config/config.go: one variable of the environment, read with its fallback.
use portfolio_backend.Base.{
  List, [], ◌∷◌, Bool, true, false, not, ◌&&◌, Option, none, some, ◌==◌, if◌then◌else◌,
}
use mathlib.Core.List.{reverse}
use portfolio_backend.Base.Int.{ℤ, pos, leb_ℤ}
use portfolio_backend.Base.Text.{Text, bytes, text_eq, split}
use portfolio_backend.Base.Utf8.{trim_space}
use portfolio_backend.Base.Decimal.{parse_int, int32_bound, int64_bound}
use portfolio_backend.Config.{Duration}

-- What is wrong, by the variable that the message names.
pub data Problem : Type 0 where
  required malformed too_large too_short : Text → Problem
  pool_sizes : Problem

pub data Loaded {ℓ} (A : Type ℓ) : Type ℓ where
  loaded : A → Loaded A
  problem : Problem → Loaded A

infixl 5 ◌>>=◌
abbrev pub ◌>>=◌ {ℓ κ} : {A : Type ℓ} {B : Type κ} → Loaded A → (A → Loaded B) → Loaded B
loaded a >>= then_load = then_load a
problem p >>= then_load = problem p

infixl 5 ◌>>◌
abbrev pub ◌>>◌ {ℓ} : {B : Type ℓ} → Loaded (Unit {0}) → Loaded B → Loaded B
check >> then_load = check >>= λ passed. then_load

abbrev pub require : Bool → Problem → Loaded (Unit {0})
require true p = loaded tt
require false p = problem p

-- What the function reads of a parsed value.
abbrev pub or_malformed {ℓ} : {A : Type ℓ} → Text → Option A → Loaded A
or_malformed name none = problem (malformed name)
or_malformed name (some a) = loaded a

-- url.URL, as far as it is read
pub record Url : Type 0 where
  pub scheme : Text
  pub host : Text
  pub path : Text
  pub raw_query : Text
  pub fragment : Text

abbrev pub positive : Option ℤ → Option ℤ
positive none = none
positive (some n) = if leb_ℤ n (pos 0) then none else some n

-- os.Getenv, with the parsers of the standard library
pub record Library (Prefix : Type 0) : Type 0 where
  pub getenv : Text → Text
  pub parse_duration : Text → Option Duration
  pub parse_url : Text → Option Url
  pub parse_prefix : Text → Option Prefix
  pub masked : Prefix → Prefix
  pub to_lower : Text → Text

-- strings.TrimRight(value, "/")
unfoldable pub skip_slashes : Text → Text
skip_slashes [] = []
skip_slashes (b ∷ bs) = let rest = skip_slashes bs in if b == b'/' then rest else b ∷ bs

unfoldable pub trim_slashes : Text → Text
trim_slashes value = reverse (skip_slashes (reverse value))

-- parsed is an HTTPS origin without a path
abbrev pub is_origin : Option Url → Bool
is_origin none = false
is_origin (some u) =
    text_eq u.scheme (bytes "https")
    && not (text_eq u.host [])
    && text_eq u.path []
    && text_eq u.raw_query []
    && text_eq u.fragment []

module _ {Prefix : Type 0} (lib : Library Prefix) where
  -- strings.TrimSpace(os.Getenv(name))
  unfoldable pub trimmed_env : Text → Text
  trimmed_env name = trim_space (lib.getenv name)

  unfoldable pub env_string : Text → Text → Text
  env_string name fallback = if text_eq (trimmed_env name) [] then fallback else trimmed_env name

  unfoldable pub env_int32 : Text → ℤ → Loaded ℤ
  env_int32 name fallback =
      if text_eq (trimmed_env name) []
      then loaded fallback
      else or_malformed name (parse_int int32_bound (trimmed_env name))

  unfoldable pub env_positive_int : Text → ℤ → Loaded ℤ
  env_positive_int name fallback =
      if text_eq (trimmed_env name) []
      then loaded fallback
      else or_malformed name (positive (parse_int int64_bound (trimmed_env name)))

  unfoldable pub env_duration : Text → Duration → Loaded Duration
  env_duration name fallback =
      if text_eq (trimmed_env name) []
      then loaded fallback
      else or_malformed name (positive (lib.parse_duration (trimmed_env name)))

  -- The loop over the parts.
  unfoldable pub parse_prefixes : List Text → Option (List Prefix)
  parse_prefixes [] = some []
  parse_prefixes (part ∷ parts) = elim (lib.parse_prefix (trim_space part)) [
    | none ↦ none
    | some p ↦ elim (parse_prefixes parts) [ none ↦ none | some ps ↦ some (lib.masked p ∷ ps) ]
  ]

  unfoldable pub env_prefixes : Text → Loaded (List Prefix)
  env_prefixes name =
      if text_eq (trimmed_env name) []
      then loaded []
      else or_malformed name (parse_prefixes (split b',' (trimmed_env name)))

  unfoldable pub access_team_domain : Text → Loaded Text
  access_team_domain value =
      let domain = trim_slashes (trim_space value) in
      if text_eq domain []
      then loaded []
      else if is_origin (lib.parse_url domain)
      then loaded domain
      else problem (malformed (bytes "CF_ACCESS_TEAM_DOMAIN"))
