-- ===== src/AdminAuth/Keys.antt =====
-- internal/adminauth/jwks.go: the cache of the signing keys. What the HTTP client, the JSON decoder
-- and base64.RawURLEncoding give comes as values and a parameter.
pub mod Strength
pub mod Freshness
use portfolio_backend.Base.{
  ℕ, ◌+◌, ◌*◌, ◌^◌, ◌%◌, List, [], ◌∷◌, Bool, true, false, not, ◌&&◌, ◌||◌, Option, none, some,
  length, ltb, ◌==◌, if◌then◌else◌,
}
use portfolio_backend.Base.Int.{ℤ, sub_ℕ, ltb_ℤ}
use portfolio_backend.Base.Text.{Text, bytes, text_eq}
use portfolio_backend.Base.Assoc.{lookup, insert, text_key}
use portfolio_backend.Errors.{Result, ok, err, unknown_signing_key, signing_key_unavailable}
use portfolio_backend.Limiter.{Instant}

-- rsa.PublicKey
pub record PublicKey : Type 0 where
  pub n : ℕ
  pub e : ℕ

pub record Jwk : Type 0 where
  pub key_id : Text
  pub key_type : Text
  pub algorithm : Text
  pub key_use : Text
  pub modulus : Text
  pub exponent : Text

pub record JwksCache : Type 0 where
  pub ttl : ℤ
  pub keys : List (Text × PublicKey)
  pub fetched_at : Instant

-- NewJWKSCache: fetchedAt is the zero time.
abbrev pub new_jwks_cache : ℤ → JwksCache
new_jwks_cache ttl = record { ttl = ttl; keys = []; fetched_at = 0 }

-- The answer to a request of the endpoint: its status, and what reading the body gives.
pub record Fetched : Type 0 where
  pub status_code : ℕ
  pub content : Option Text

abbrev pub maximum_jwks_bytes : ℕ
maximum_jwks_bytes = 1024 * 1024

-- big.Int.SetBytes, and the loop over the exponent's bytes
unfoldable pub big_endian : ℕ → Text → ℕ
big_endian n [] = n
big_endian n (b ∷ bs) = big_endian (n * 256 + b) bs

abbrev pub supported : Jwk → Bool
supported k =
    not (text_eq k.key_id [])
    && text_eq k.key_type (bytes "RSA")
    && text_eq k.algorithm (bytes "RS256")
    && text_eq k.key_use (bytes "sig")

-- modulus.BitLen() < 2048
abbrev pub weak : ℕ → ℕ → Bool
weak n e = ltb n (2 ^ 2047) || ltb e 3 || (e % 2 == 0)

unfoldable pub checked_key : ℕ → ℕ → Option PublicKey
checked_key n e = if weak n e then none else some (record { n = n; e = e })

abbrev pub cached : JwksCache → Text → Result PublicKey
cached cache key_id = elim (lookup key_id cache.keys) [
  | none ↦ err unknown_signing_key
  | some key ↦ ok key
]

abbrev pub is_fresh : Instant → JwksCache → Bool
is_fresh now cache = ltb_ℤ (sub_ℕ now cache.fetched_at) cache.ttl

module _ (decode_base64 : Text → Option Text) where
  -- jwk.RSAKey
  unfoldable pub rsa_key : Jwk → Option PublicKey
  rsa_key k = if not (supported k) then none else elim (decode_base64 k.modulus) [
    | none ↦ none
    | some modulus ↦ elim (decode_base64 k.exponent) [
      | none ↦ none
      | some exponent ↦
          if (length exponent == 0) || ltb 4 (length exponent)
          then none
          else checked_key (big_endian 0 modulus) (big_endian 0 exponent)
    ]
  ]

  -- The loop over the document's keys.
  unfoldable pub collect : List (Text × PublicKey) → List Jwk → Option (List (Text × PublicKey))
  collect keys [] = some keys
  collect keys (k ∷ rest) = elim (rsa_key k) [
    | none ↦ none
    | some key ↦ elim (lookup k.key_id keys) [
      | some present ↦ none
      | none ↦ collect (insert k.key_id key keys) rest
    ]
  ]

  module _ (decode_document : Text → Option (List Jwk)) where
    -- What refresh makes of the body: a set of keys that is not empty.
    unfoldable pub read_document : Text → Option (List (Text × PublicKey))
    read_document content =
        if ltb maximum_jwks_bytes (length content) then none else elim (decode_document content) [
          | none ↦ none
          | some document ↦ elim (collect [] document) [
            | none ↦ none
            | some [] ↦ none
            | some (entry ∷ keys) ↦ some (entry ∷ keys)
          ]
        ]

    unfoldable pub fetched_keys : Option Fetched → Option (List (Text × PublicKey))
    fetched_keys none = none
    fetched_keys (some f) =
        if not (f.status_code == 200)
        then none
        else elim f.content [ none ↦ none | some content ↦ read_document content ]

    -- refresh of what the endpoint answers and the time after; `none` is an error, which leaves
    -- the cache as it was.
    unfoldable pub refresh : Option Fetched → Instant → JwksCache → Option JwksCache
    refresh fetched after cache = elim (fetched_keys fetched) [
      | none ↦ none
      | some keys ↦ some (record cache { keys = keys; fetched_at = after })
    ]

    unfoldable pub refreshed_key :
        Text → Option Fetched → Instant → JwksCache → Result PublicKey × JwksCache
    refreshed_key key_id fetched after cache = elim (refresh fetched after cache) [
      | none ↦ (err signing_key_unavailable, cache)
      | some cache' ↦ (cached cache' key_id, cache')
    ]

    -- Key at the time `now`, with what the endpoint answers if it is asked, and the time after.
    unfoldable pub key :
        Text → Instant → Option Fetched → Instant → JwksCache → Result PublicKey × JwksCache
    key key_id now fetched after cache =
        if text_eq key_id [] || ltb 256 (length key_id)
        then (err unknown_signing_key, cache)
        else elim (lookup key_id cache.keys) [
          | none ↦ refreshed_key key_id fetched after cache
          | some found ↦
              if is_fresh now cache
              then (ok found, cache)
              else refreshed_key key_id fetched after cache
        ]
