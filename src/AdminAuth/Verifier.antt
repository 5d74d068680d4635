-- ===== src/AdminAuth/Verifier.antt =====
-- internal/adminauth/verifier.go: Verify. Base64, the JSON decoders and the RSA signature check are
-- the standard library's and come as parameters; so do the keys, with a state.
pub mod Soundness
use portfolio_backend.Base.{
  ℕ, ◌*◌, List, [], ◌∷◌, ◌++◌, Bool, not, ◌||◌, ◌&&◌, Option, none, some, length, ltb,
  if◌then◌else◌,
}
use portfolio_backend.Base.Text.{Text, bytes, text_eq, split}
use portfolio_backend.Errors.{Result, ok, err, malformed_assertion, invalid_assertion}
use portfolio_backend.Limiter.{Instant}
use portfolio_backend.AdminAuth.Claims.{Verifier, AccessClaims, Principal, validate_claims}

abbrev pub maximum_assertion_bytes : ℕ
maximum_assertion_bytes = 16 * 1024

pub record Header : Type 0 where
  pub algorithm : Text
  pub key_id : Text

pub record Parts : Type 0 where
  pub header : Text
  pub payload : Text
  pub signature : Text

-- The three parts, none of which is empty.
unfoldable pub three_parts : List Text → Option Parts
three_parts (a ∷ b ∷ c ∷ []) =
    if text_eq a [] || text_eq b [] || text_eq c []
    then none
    else some (record { header = a; payload = b; signature = c })
three_parts _ = none

unfoldable pub assertion_parts : Text → Option Parts
assertion_parts assertion =
    if text_eq assertion [] || ltb maximum_assertion_bytes (length assertion)
    then none
    else three_parts (split b'.' assertion)

-- parts[0] + "." + parts[1]
abbrev pub signed : Parts → Text
signed p = p.header ++ (b'.' ∷ p.payload)

module _ (decode_part : Text → Option Text) (decode_header : Text → Option Header) where
  -- The header, decoded, if it is of RS256 and names a key.
  unfoldable pub read_header : Text → Option Header
  read_header part = elim (decode_part part) [
    | none ↦ none
    | some content ↦ elim (decode_header content) [
      | none ↦ none
      | some h ↦
          if not (text_eq h.algorithm (bytes "RS256")) || text_eq h.key_id [] then none else some h
    ]
  ]

module _ (decode_part : Text → Option Text) (decode_claims : Text → Option AccessClaims)
    (equal_fold : Text → Text → Bool) (verifier : Verifier) (now : Instant) where
  -- The claims, decoded and validated.
  unfoldable pub read_claims : Text → Result Principal
  read_claims part = elim (decode_part part) [
    | none ↦ err malformed_assertion
    | some content ↦ elim (decode_claims content) [
      | none ↦ err malformed_assertion
      | some claims ↦
          if not (validate_claims equal_fold verifier now claims)
          then err invalid_assertion
          else ok (record { actor_id = claims.subject })
    ]
  ]

module _ {Key State : Type 0} (decode_part : Text → Option Text)
    (decode_header : Text → Option Header) (decode_claims : Text → Option AccessClaims)
    (verify_signature : Key → Text → Text → Bool) (equal_fold : Text → Text → Bool)
    (key : Text → State → Result Key × State) (verifier : Verifier) (now : Instant) where
  unfoldable pub check_signed : Parts → Key → Result Principal
  check_signed p public_key = elim (decode_part p.signature) [
    | none ↦ err malformed_assertion
    | some signature ↦
        if not (verify_signature public_key (signed p) signature)
        then err invalid_assertion
        else read_claims decode_part decode_claims equal_fold verifier now p.payload
  ]

  abbrev pub check_resolved : Parts → Result Key → Result Principal
  check_resolved p (ok public_key) = check_signed p public_key
  check_resolved p (err e) = err e

  unfoldable pub verify : Text → State → Result Principal × State
  verify assertion state = elim (assertion_parts assertion) [
    | none ↦ (err malformed_assertion, state)
    | some p ↦ elim (read_header decode_part decode_header p.header) [
      | none ↦ (err malformed_assertion, state)
      | some h ↦ (check_resolved p (key h.key_id state).0, (key h.key_id state).1)
    ]
  ]
