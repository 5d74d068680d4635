-- ===== src/AdminAuth/Verifier/Soundness.antt =====
-- internal/adminauth/verifier.go: what an accepted assertion has shown.
use portfolio_backend.Base.{◌≡◌, [], Bool, true, false, Option, some, arith, Option-cases, inl, inr}
use portfolio_backend.Base.Text.{Text, bytes, text_eq, text_eq_iff}
use portfolio_backend.Errors.{Result-cases, Result, ok}
use portfolio_backend.Limiter.{Instant}
use portfolio_backend.AdminAuth.Claims.{
  Verifier, AccessClaims, Principal, contains, unexpired, begun, validate_claims,
}
use portfolio_backend.AdminAuth.Verifier.{
  Header, Parts, assertion_parts, read_header, read_claims, signed, check_signed, verify,
}

module _ (equal_fold : Text → Text → Bool) (verifier : Verifier) (now : Instant) where
  -- The claims name the application, the administrator and a time that now is in.
  pub record Grants (claims : AccessClaims) : Type 0 where
    pub of_type : claims.token_type ≡ bytes "app"
    pub of_issuer : claims.issuer ≡ verifier.issuer
    pub of_audience : contains verifier.audience claims.audience ≡ true
    pub of_someone : text_eq claims.subject [] ≡ false
    pub of_admin : equal_fold claims.email verifier.admin_email ≡ true
    pub not_expired : unexpired now claims.expiration ≡ true
    pub has_begun : begun now claims.not_before ≡ true
    pub was_issued : begun now claims.issued_at ≡ true

  validate_claims-Grants :
      (claims : AccessClaims)
      → validate_claims equal_fold verifier now claims ≡ true
      → Grants claims
  unfolding validate_claims
  validate_claims-Grants claims valid = record {
    of_type = ground (arith, text_eq_iff claims.token_type (bytes "app"));
    of_issuer = ground (arith, text_eq_iff claims.issuer verifier.issuer);
    of_audience = ground arith;
    of_someone = ground arith;
    of_admin = ground arith;
    not_expired = ground arith;
    has_begun = ground arith;
    was_issued = ground arith;
  }

module _ {Key State : Type 0} (decode_part : Text → Option Text)
    (decode_header : Text → Option Header) (decode_claims : Text → Option AccessClaims)
    (verify_signature : Key → Text → Text → Bool) (equal_fold : Text → Text → Bool)
    (key : Text → State → Result Key × State) (verifier : Verifier) (now : Instant) where
  -- What must be true of an assertion in three parts: a key that the header names has signed the first two, and
  -- the second holds claims that grant the principal.
  pub record Vouched (p : Parts) (state : State) (principal : Principal) : Type 0 where
    pub head : Header
    pub public_key : Key
    pub signature : Text
    pub payload : Text
    pub claims : AccessClaims
    pub with_header : read_header decode_part decode_header p.header ≡ some head
    pub with_key : (key head.key_id state).0 ≡ ok public_key
    pub with_signature : decode_part p.signature ≡ some signature
    pub is_signed : verify_signature public_key (signed p) signature ≡ true
    pub with_payload : decode_part p.payload ≡ some payload
    pub with_claims : decode_claims payload ≡ some claims
    pub grants : Grants equal_fold verifier now claims
    pub is_subject : principal.actor_id ≡ claims.subject

  -- An accepted assertion has three parts, the first two are signed by the key that its header names, and its
  -- claims are those of the administrator, for this audience, of the configured issuer and valid now.
  pub verify-Vouched :
      (assertion : Text) (state : State) {principal : Principal}
      → (verify decode_part decode_header decode_claims verify_signature equal_fold key verifier now
          assertion state).0
        ≡ ok principal
      → (p : Parts) × (assertion_parts assertion ≡ some p) × Vouched p state principal
  unfolding verify check_signed read_claims
  verify-Vouched assertion state {principal = someone} accepted =
      elim (Option-cases (assertion_parts assertion)) [
        | inl none_p ↦ ground (arith, none_p, accepted)
        | inr (p, is_p) ↦ elim (Option-cases (read_header decode_part decode_header p.header)) [
          | inl none_h ↦ ground (arith, is_p, none_h, accepted)
          | inr (h, is_h) ↦ elim (Result-cases (key h.key_id state).0) [
            | inr (e, is_e) ↦ ground (arith, is_p, is_h, is_e, accepted)
            | inl (k, is_k) ↦ elim (Option-cases (decode_part p.signature)) [
              | inl none_s ↦ ground (arith, is_p, is_h, is_k, none_s, accepted)
              | inr (sig, is_s) ↦ elim (Option-cases (decode_part p.payload)) [
                | inl none_l ↦ ground (arith, is_p, is_h, is_k, is_s, none_l, accepted)
                | inr (load, is_l) ↦ elim (Option-cases (decode_claims load)) [
                  | inl none_c ↦ ground (arith, is_p, is_h, is_k, is_s, is_l, none_c, accepted)
                  | inr (c, is_c) ↦ (
                    p,
                    is_p,
                    record {
                      head = h;
                      public_key = k;
                      signature = sig;
                      payload = load;
                      claims = c;
                      with_header = is_h;
                      with_key = is_k;
                      with_signature = is_s;
                      is_signed = ground (arith, is_p, is_h, is_k, is_s, is_l, is_c, accepted);
                      with_payload = is_l;
                      with_claims = is_c;
                      grants =
                          validate_claims-Grants equal_fold verifier now c
                            (ground (arith, is_p, is_h, is_k, is_s, is_l, is_c, accepted));
                      is_subject = ground (arith, is_p, is_h, is_k, is_s, is_l, is_c, accepted);
                    },
                  )
                ]
              ]
            ]
          ]
        ]
      ]
