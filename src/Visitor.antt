-- ===== src/Visitor.antt =====
-- internal/platform/visitor/identity.go: the pseudonymous identity of a visitor. The address type
-- with its canonical text, and HMAC-SHA-256, are the standard library's and come as parameters.
pub mod Normalization
use portfolio_backend.Base.{
  true, false, ℕ, List, [], ◌∷◌, ◌++◌, Bool, length, take, ltb, if◌then◌else◌,
}
use portfolio_backend.Base.Text.{Text}
use portfolio_backend.Base.Utf8.{Rune, runes, is_space}
use portfolio_backend.Limiter.{VisitorHash}

abbrev pub maximum_user_agent_bytes : ℕ
maximum_user_agent_bytes = 512

-- A further byte of the first field, where one has begun.
abbrev pub put_field : Bool → Text → List Text → List Text
put_field true encoded (field ∷ fields) = (encoded ++ field) ∷ fields
put_field _ encoded fields = encoded ∷ fields

-- strings.Fields: the fields, and whether the string begins within one.
unfoldable pub fields_from : List Rune → Bool × List Text
fields_from [] = (false, [])
fields_from (r ∷ rs) =
    let (inside, fields) = fields_from rs in
    if is_space r.value then (false, fields) else (true, put_field inside r.encoded fields)

unfoldable pub fields : Text → List Text
fields value = (fields_from (runes value)).1

-- strings.Join(fields, " ")
unfoldable pub join_fields : List Text → Text
join_fields [] = []
join_fields (f ∷ []) = f
join_fields (f ∷ g ∷ rest) = f ++ (0x20 ∷ join_fields (g ∷ rest))

unfoldable pub normalize_user_agent : Text → Text
normalize_user_agent value =
    let normalized = join_fields (fields value) in
    if ltb maximum_user_agent_bytes (length normalized)
    then take maximum_user_agent_bytes normalized
    else normalized

module _ {Address : Type 0} (unmapped_text : Address → Text)
    (hmac_sha256 : Text → Text → VisitorHash) where
  -- Identity.Hash under the identity's key
  unfoldable pub hash : Text → Address → Text → VisitorHash
  hash key address user_agent =
      hmac_sha256 key (unmapped_text address ++ (0 ∷ normalize_user_agent user_agent))
