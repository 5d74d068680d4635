-- ===== src/Examples/Authenticating.antt =====
-- internal/adminauth and its middleware, over small stand-ins for the cryptography.
use portfolio_backend.Base.{
  ◌-◌, ◌*◌, ◌+◌, ◌≡◌, ◌^◌, refl, ℕ, List, [], ◌∷◌, Option, some, none, arith, zero, suc,
  if◌then◌else◌, inl,
}
use portfolio_backend.Base.Assoc.{lookup, insert}
use portfolio_backend.Base.Int.{pos}
use portfolio_backend.Base.Text.{Text, bytes, text_eq, split}
use portfolio_backend.Errors.{
  Result, ok, err, malformed_assertion, invalid_assertion, signing_key_unavailable,
}
use portfolio_backend.AdminAuth.Claims.{
  Verifier, AccessClaims, Principal, time_of, contains, unexpired, begun, validate_claims,
}
use portfolio_backend.AdminAuth.Verifier.{
  Parts, three_parts, assertion_parts, read_header, read_claims, check_signed, verify,
}
use portfolio_backend.AdminAuth.Verifier.Soundness.{Vouched, verify-Vouched}
use portfolio_backend.AdminAuth.Keys.{
  PublicKey, Jwk, JwksCache, Fetched, new_jwks_cache, checked_key, big_endian, rsa_key, collect,
  read_document, fetched_keys, refresh, refreshed_key, key,
}
use portfolio_backend.AdminAuth.Keys.Strength.{IsStrong, StrongKeys, key-StrongKeys, key-IsStrong}
use portfolio_backend.AdminAuth.Keys.Freshness.{MustFetch, key-again}
use portfolio_backend.Http.{World, no_content, Handler}
use portfolio_backend.Examples.Commenting.{at_noon}

program : Unit {0}
unfolding key lookup insert text_eq verify check_signed read_claims read_header assertion_parts
    three_parts split validate_claims contains unexpired begun time_of
program = tt

abbrev public_key : PublicKey
public_key = record { n = 2 ^ 2047; e = 65537 }

abbrev cache : JwksCache
cache = record { ttl = pos 300; keys = (bytes "k1", public_key) ∷ []; fetched_at = 1000 }

public_key-IsStrong : IsStrong public_key
public_key-IsStrong = unfold IsStrong in (omega arith, omega arith, refl)

-- No document decodes.
abbrev no_document : Text → Option (List Jwk)
no_document content = none

cached_key : (key some no_document (bytes "k1") 1100 none 1100 cache).0 ≡ ok public_key
unfolding program
cached_key = refl

key-StrongKeys_example : StrongKeys (key some no_document (bytes "k2") 1100 none 1100 cache).1.keys
key-StrongKeys_example =
    key-StrongKeys some no_document (bytes "k2") 1100 none 1100 cache (public_key-IsStrong, tt)

key-IsStrong_example : IsStrong public_key
key-IsStrong_example =
    key-IsStrong some no_document (bytes "k1") 1100 none 1100 cache (public_key-IsStrong, tt)
      cached_key

-- A modulus of 2048 bits.
unfoldable zeros : ℕ → Text
zeros zero = []
zeros (suc n) = 0 ∷ zeros n

abbrev decode_base64 : Text → Option Text
decode_base64 t = if text_eq t (bytes "AQAB") then some (1 ∷ 0 ∷ 1 ∷ []) else some (128 ∷ zeros 255)

abbrev one_key : Text → Option (List Jwk)
one_key content = some (
    record {
      key_id = bytes "k1";
      key_type = bytes "RSA";
      algorithm = bytes "RS256";
      key_use = bytes "sig";
      modulus = bytes "gA";
      exponent = bytes "AQAB";
    }
    ∷ [])

abbrev served : Option Fetched
served = some (record { status_code = 200; content = some (bytes "{}") })

empty_cache : MustFetch (bytes "k1") 1100 300 (new_jwks_cache (pos 300))
unfolding MustFetch lookup
empty_cache = inl refl

fetched_key :
    (key decode_base64 one_key (bytes "k1") 1100 served 1200 (new_jwks_cache (pos 300))).0
    ≡ ok public_key
unfolding program refreshed_key refresh fetched_keys read_document collect rsa_key checked_key
    big_endian zeros
fetched_key = refl

key-again_example :
    let after =
      (key decode_base64 one_key (bytes "k1") 1100 served 1200 (new_jwks_cache (pos 300))).1 in
    (key decode_base64 one_key (bytes "k1") 1499 served 1499 after ≡ (ok public_key, after))
    × (key decode_base64 one_key (bytes "k1") 1500 none 1510 after
        ≡ (err signing_key_unavailable, after))
key-again_example =
    key-again decode_base64 one_key (bytes "k1") 1100 served 1200 (new_jwks_cache (pos 300)) 300
      refl empty_cache fetched_key 1499 served 1499 (omega arith) 1500 1510 (omega arith)

abbrev site : Verifier
site = record {
  issuer = bytes "team";
  audience = bytes "app-aud";
  admin_email = bytes "ada@example.org";
}

-- 2026-01-01T00:00:00Z, and an hour later.
abbrev new_year : ℕ
new_year = (62135596800 + 1767225600) * 1000000000

abbrev admin_claims : AccessClaims
admin_claims = record {
  token_type = bytes "app";
  issuer = bytes "team";
  audience = bytes "app-aud" ∷ [];
  subject = bytes "admin-1";
  email = bytes "ada@example.org";
  expiration = some (pos 1767229200);
  not_before = some (pos 1767225620);
  issued_at = none;
}

-- The key "k1" signs with the signature "s".
abbrev accept : Text → Text → ℕ → Result Principal × Unit {0}
accept assertion signature now =
    verify some (λ part. some (record { algorithm = bytes "RS256"; key_id = bytes "k1" }))
      (λ part. some admin_claims) (λ k message s. text_eq s signature) text_eq
      (λ id state. (ok tt, state)) site now assertion tt

admin_accepted :
    (accept (bytes "h.p.s") (bytes "s") new_year).0 ≡ ok (record { actor_id = bytes "admin-1" })
unfolding program
admin_accepted = refl

others_rejected :
    ((accept (bytes "h.p.x") (bytes "s") new_year).0 ≡ err invalid_assertion)
    × ((accept (bytes "h.p") (bytes "s") new_year).0 ≡ err malformed_assertion)
    × ((accept (bytes "h.p.s") (bytes "s") (new_year + 3700 * 1000000000)).0
        ≡ err invalid_assertion)
    × ((accept (bytes "h.p.s") (bytes "s") (new_year - 20 * 1000000000)).0 ≡ err invalid_assertion)
unfolding program
others_rejected = (refl, refl, refl, refl)

verify-Vouched_example :
    (p : Parts) × (assertion_parts (bytes "h.p.s") ≡ some p)
    × Vouched some
        (λ part. some (record { algorithm = bytes "RS256"; key_id = bytes "k1" }))
        (λ part. some admin_claims)
        (λ k message s. text_eq s (bytes "s"))
        text_eq
        (λ id state. (ok tt, state))
        site
        new_year
        p
        tt
        (record { actor_id = bytes "admin-1" })
verify-Vouched_example =
    verify-Vouched some (λ part. some (record { algorithm = bytes "RS256"; key_id = bytes "k1" }))
      (λ part. some admin_claims) (λ k message s. text_eq s (bytes "s")) text_eq
      (λ id state. (ok tt, state)) site new_year (bytes "h.p.s") tt admin_accepted

abbrev accept_some : Text → Result Principal
accept_some assertion = ok (record { actor_id = bytes "admin-1" })

abbrev answer_nothing : Option Principal → Handler
answer_nothing principal w = (no_content, w)

abbrev world : World
world = record { session = at_noon; limiter = none }
