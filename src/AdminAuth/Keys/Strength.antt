-- ===== src/AdminAuth/Keys/Strength.antt =====
-- internal/adminauth/jwks.go: the strength of the keys that the cache holds and gives.
use portfolio_backend.Base.{
  ℕ, ◌^◌, ◌%◌, ◌≡◌, ◌≤◌, List, [], ◌∷◌, Option, none, some, All, arith, Option-cases, inl, inr,
}
use portfolio_backend.Base.Text.{Text}
use portfolio_backend.Base.Assoc.{lookup, insert, text_key, All-insert, All-lookup}
use portfolio_backend.Errors.{ok}
use portfolio_backend.Limiter.{Instant}
use portfolio_backend.AdminAuth.Keys.{
  PublicKey, Jwk, JwksCache, Fetched, checked_key, big_endian, rsa_key, collect, read_document,
  fetched_keys, refresh, refreshed_key, key,
}

-- An RSA key of at least 2048 bits with an odd exponent of at least three.
unfoldable pub IsStrong : PublicKey → Type 0
IsStrong k = (2 ^ 2047 ≤ k.n) × (3 ≤ k.e) × (k.e % 2 ≡ 1)

abbrev pub StrongKeys : List (Text × PublicKey) → Type 0
StrongKeys keys = All (λ entry. IsStrong entry.1) keys

checked_key-IsStrong : (n e : ℕ) {k : PublicKey} → checked_key n e ≡ some k → IsStrong k
unfolding checked_key IsStrong
checked_key-IsStrong n e made = ground arith

module _ (decode_base64 : Text → Option Text) where
  rsa_key-IsStrong : (j : Jwk) {k : PublicKey} → rsa_key decode_base64 j ≡ some k → IsStrong k
  unfolding rsa_key
  rsa_key-IsStrong j {k = k} made = elim (Option-cases (decode_base64 j.modulus)) [
    | inl none_n ↦ ground (arith, none_n, made)
    | inr (m, is_m) ↦ elim (Option-cases (decode_base64 j.exponent)) [
      | inl none_e ↦ ground (arith, none_e, is_m, made)
      | inr (x, is_x) ↦
          ground (arith, checked_key-IsStrong (big_endian 0 m) (big_endian 0 x) {k = k})
    ]
  ]

  collect-StrongKeys :
      (keys : List (Text × PublicKey)) (document : List Jwk) {collected : List (Text × PublicKey)}
      → StrongKeys keys
      → collect decode_base64 keys document ≡ some collected
      → StrongKeys collected
  unfolding collect
  collect-StrongKeys keys [] strong made = ground arith
  collect-StrongKeys keys (j ∷ rest) {collected = c} strong made =
      elim (Option-cases (rsa_key decode_base64 j)) [
        | inl bad ↦ ground (arith, bad, made)
        | inr (k, good) ↦ elim (Option-cases (lookup j.key_id keys)) [
          | inl new ↦
              collect-StrongKeys (insert j.key_id k keys) rest {collected = c}
                (All-insert (λ entry. IsStrong entry.1) j.key_id k keys strong
                  (rsa_key-IsStrong j good))
                (ground (arith, good, new, made))
          | inr (old, present) ↦ ground (arith, good, present, made)
        ]
      ]

  module _ (decode_document : Text → Option (List Jwk)) where
    fetched_keys-StrongKeys :
        (fetched : Option Fetched) {keys : List (Text × PublicKey)}
        → fetched_keys decode_base64 decode_document fetched ≡ some keys
        → StrongKeys keys
    unfolding fetched_keys read_document
    fetched_keys-StrongKeys none made = cc
    fetched_keys-StrongKeys (some f) {keys = keys} made = elim (Option-cases f.content) [
      | inl unread ↦ ground (arith, unread, made)
      | inr (content, is_read) ↦ elim (Option-cases (decode_document content)) [
        | inl undecoded ↦ ground (arith, is_read, undecoded, made)
        | inr (document, decoded) ↦
            collect-StrongKeys [] document {collected = keys} tt
              (ground (arith, is_read, decoded, made))
      ]
    ]

    refreshed_key-StrongKeys :
        (key_id : Text) (fetched : Option Fetched) (later : Instant) (cache : JwksCache)
        → StrongKeys cache.keys
        → StrongKeys (refreshed_key decode_base64 decode_document key_id fetched later cache).1.keys
    unfolding refreshed_key refresh
    refreshed_key-StrongKeys key_id fetched later cache strong =
        elim (Option-cases (fetched_keys decode_base64 decode_document fetched)) [
          | inl failed ↦ ground (arith, failed, strong)
          | inr (keys, got) ↦ ground (arith, got, fetched_keys-StrongKeys fetched got)
        ]

    -- Whatever the endpoint answers, a cache of strong keys stays one: every
    -- key has at least 2048 bits and an odd exponent of at least three.
    pub key-StrongKeys :
        (key_id : Text) (now : Instant) (fetched : Option Fetched) (later : Instant)
        (cache : JwksCache)
        → StrongKeys cache.keys
        → StrongKeys (key decode_base64 decode_document key_id now fetched later cache).1.keys
    unfolding key
    key-StrongKeys key_id now fetched later cache strong =
        ground (arith, strong, refreshed_key-StrongKeys key_id fetched later cache strong)

    refreshed_key-IsStrong :
        (key_id : Text) (fetched : Option Fetched) (later : Instant) (cache : JwksCache)
        {k : PublicKey}
        → (refreshed_key decode_base64 decode_document key_id fetched later cache).0 ≡ ok k
        → IsStrong k
    unfolding refreshed_key refresh
    refreshed_key-IsStrong key_id fetched later cache {k = k} given =
        elim (Option-cases (fetched_keys decode_base64 decode_document fetched)) [
          | inl failed ↦ ground (arith, failed, given)
          | inr (keys, got) ↦ elim (Option-cases (lookup key_id keys)) [
            | inl absent ↦ ground (arith, got, absent, given)
            | inr (found, present) ↦ ground (
              arith,
              All-lookup (λ entry. IsStrong entry.1) key_id keys
                  (fetched_keys-StrongKeys fetched got) present,
            )
          ]
        ]

    -- A key that a cache of strong keys gives is strong, whether it was held or is fetched.
    pub key-IsStrong :
        (key_id : Text) (now : Instant) (fetched : Option Fetched) (later : Instant)
        (cache : JwksCache) {k : PublicKey}
        → StrongKeys cache.keys
        → (key decode_base64 decode_document key_id now fetched later cache).0 ≡ ok k
        → IsStrong k
    unfolding key
    key-IsStrong key_id now fetched later cache {k = k} strong given =
        elim (Option-cases (lookup key_id cache.keys)) [
          | inl absent ↦ ground (arith, refreshed_key-IsStrong key_id fetched later cache {k = k})
          | inr (found, present) ↦ ground (
            arith,
            All-lookup (λ entry. IsStrong entry.1) key_id cache.keys strong present,
            refreshed_key-IsStrong key_id fetched later cache {k = k},
          )
        ]
