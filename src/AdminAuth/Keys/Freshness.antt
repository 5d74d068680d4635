-- ===== src/AdminAuth/Keys/Freshness.antt =====
-- internal/adminauth/jwks.go: how long the cache gives a key without asking the endpoint.
use portfolio_backend.Base.{
  ℕ, ◌+◌, ◌≡◌, ◌≤◌, ◌<◌, List, false, Option, none, some, arith, Option-cases, inl, inr, ◌⊎◌, ◌∙◌,
  Bool, ◌||◌, [], Bool-cases, ltb, length,
}
use portfolio_backend.Base.Int.{pos}
use portfolio_backend.Base.Text.{Text, text_eq}
use portfolio_backend.Base.Assoc.{lookup, text_key}
use portfolio_backend.Errors.{ok, err, signing_key_unavailable}
use portfolio_backend.Limiter.{Instant}
use portfolio_backend.AdminAuth.Keys.{
  PublicKey, Jwk, JwksCache, Fetched, fetched_keys, refresh, refreshed_key, key,
}

-- No key of this name is held, or the last fetch is a time to live ago.
unfoldable pub MustFetch : Text → Instant → ℕ → JwksCache → Type 0
MustFetch key_id now ttl cache = (lookup key_id cache.keys ≡ none) ⊎ (cache.fetched_at + ttl ≤ now)

module _ (decode_base64 : Text → Option Text) (decode_document : Text → Option (List Jwk)) where
  refreshed_key-fetched_at :
      (key_id : Text) (fetched : Option Fetched) (later : Instant) (cache : JwksCache)
      {k : PublicKey}
      → (refreshed_key decode_base64 decode_document key_id fetched later cache).0 ≡ ok k
      → let cache' = (refreshed_key decode_base64 decode_document key_id fetched later cache).1 in
        (cache'.fetched_at ≡ later)
        × (cache'.ttl ≡ cache.ttl)
        × (lookup key_id cache'.keys ≡ some k)
  unfolding refreshed_key refresh
  refreshed_key-fetched_at key_id fetched later cache {k = k} given =
      elim (Option-cases (fetched_keys decode_base64 decode_document fetched)) [
        | inl failed ↦ ground (arith, failed, given)
        | inr (keys, got) ↦ elim (Option-cases (lookup key_id keys)) [
          | inl absent ↦ ground (arith, got, absent, given)
          | inr (found, present) ↦ ground (arith, got, present, given)
        ]
      ]

  -- A key that had to be fetched is fetched.
  key-fetches :
      (key_id : Text) (now : Instant) (fetched : Option Fetched) (later : Instant)
      (cache : JwksCache) (ttl : ℕ) {k : PublicKey}
      → cache.ttl ≡ pos ttl
      → MustFetch key_id now ttl cache
      → (key decode_base64 decode_document key_id now fetched later cache).0 ≡ ok k
      → key decode_base64 decode_document key_id now fetched later cache
        ≡ refreshed_key decode_base64 decode_document key_id fetched later cache
  unfolding key MustFetch
  key-fetches key_id now fetched later cache ttl lives (inl absent) given =
      ground (arith, absent, given)
  key-fetches key_id now fetched later cache ttl lives (inr stale) given =
      elim (Option-cases (lookup key_id cache.keys)) [
        | inl absent ↦ ground (arith, absent, given)
        | inr (found, present) ↦ ground (arith, present, lives, stale, given)
      ]

  -- Key refuses this name.
  abbrev refused : Text → Bool
  refused key_id = text_eq key_id [] || ltb 256 (length key_id)

  key-not_refused :
      (key_id : Text) (now : Instant) (fetched : Option Fetched) (later : Instant)
      (cache : JwksCache) {k : PublicKey}
      → (key decode_base64 decode_document key_id now fetched later cache).0 ≡ ok k
      → refused key_id ≡ false
  unfolding key
  key-not_refused key_id now fetched later cache given = elim (Bool-cases (refused key_id)) [
    | inl wrong ↦ ground (arith, wrong, given)
    | inr fine ↦ fine
  ]

  key-fresh :
      (key_id : Text) (now : Instant) (fetched : Option Fetched) (later : Instant)
      (cache : JwksCache) (ttl : ℕ) {k : PublicKey}
      → cache.ttl ≡ pos ttl
      → refused key_id ≡ false
      → lookup key_id cache.keys ≡ some k
      → now < cache.fetched_at + ttl
      → key decode_base64 decode_document key_id now fetched later cache ≡ (ok k, cache)
  unfolding key
  key-fresh key_id now fetched later cache ttl lives named present fresh =
      ground (arith, lives, named, present, fresh)

  key-unavailable :
      (key_id : Text) (now later : Instant) (cache : JwksCache) (ttl : ℕ) {k : PublicKey}
      → cache.ttl ≡ pos ttl
      → refused key_id ≡ false
      → lookup key_id cache.keys ≡ some k
      → cache.fetched_at + ttl ≤ now
      → key decode_base64 decode_document key_id now none later cache
        ≡ (err signing_key_unavailable, cache)
  unfolding key refreshed_key refresh fetched_keys
  key-unavailable key_id now later cache ttl lives named present stale =
      ground (arith, lives, named, present, stale)

  -- A key that was given because the endpoint was asked is given again, whatever the endpoint would
  -- answer and without a change of the cache, at every time less than a time to live after that
  -- answer, and no longer: from then on it is not given while the endpoint cannot be reached.
  pub key-again :
      (key_id : Text) (now : Instant) (fetched : Option Fetched) (later : Instant)
      (cache : JwksCache) (ttl : ℕ) {k : PublicKey}
      → cache.ttl ≡ pos ttl
      → MustFetch key_id now ttl cache
      → (key decode_base64 decode_document key_id now fetched later cache).0 ≡ ok k
      → (soon : Instant) (fetched' : Option Fetched) (later' : Instant) → soon < later + ttl
      → (late later'' : Instant) → later + ttl ≤ late
      → let cache' = (key decode_base64 decode_document key_id now fetched later cache).1 in
        (key decode_base64 decode_document key_id soon fetched' later' cache' ≡ (ok k, cache'))
        × (key decode_base64 decode_document key_id late none later'' cache'
            ≡ (err signing_key_unavailable, cache'))
  key-again key_id now fetched later cache ttl {k = k} lives must given soon fetched' later' fresh
        late later'' stale =
      let cache' = (key decode_base64 decode_document key_id now fetched later cache).1 in
      let named = key-not_refused key_id now fetched later cache given in
      let did = key-fetches key_id now fetched later cache ttl lives must given in
      let state : (cache'.fetched_at ≡ later)
          × (cache'.ttl ≡ cache.ttl)
          × (lookup key_id cache'.keys ≡ some k) =
        rw did (refreshed_key-fetched_at key_id fetched later cache (rw did at given)) in
      (
        key-fresh key_id soon fetched' later' cache' ttl (state.1 ∙ lives) named state.2
            (rw state.0 fresh),
        key-unavailable key_id late later'' cache' ttl (state.1 ∙ lives) named state.2
            (rw state.0 stale),
      )
