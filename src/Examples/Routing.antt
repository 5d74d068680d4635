-- ===== src/Examples/Routing.antt =====
-- internal/httpapi, internal/adminauth and internal/platform/visitor, over small stand-ins for the
-- standard library's part.
use portfolio_backend.Base.{
  ◌≡◌, ◌⊎◌, refl, ℕ, List, [], ◌∷◌, ◌++◌, true, false, Option, some, none, ◌==◌,
}
use portfolio_backend.Base.Utf8.{
  trim_space, skip_spaces, is_space, text_of, runes, runes_after, decode_rune,
}
use portfolio_backend.Base.Text.{Text, bytes, text_eq, split}
use portfolio_backend.Errors.{Result, ok}
use portfolio_backend.Database.{hidden}
use portfolio_backend.Comments.Service.Posting.{post, comment_store}
use portfolio_backend.AdminAuth.Claims.{Principal}
use portfolio_backend.Http.{World}
use portfolio_backend.Http.ClientIp.{
  is_trusted, last_untrusted, from_chain, parse_unmapped, parse_remote_address, parse_parts,
  parse_forwarded_chain, join_comma, from_forwarded, resolve,
}
use portfolio_backend.Http.ClientIp.Spoofing.{resolve_appended}
use portfolio_backend.Http.Comments.{CommentService, CreateRequest, payload, create}
use portfolio_backend.Http.Comments.Laws.{Accepted, create-Accepted}
use portfolio_backend.Http.Admin.Access.{moderation_route, Audited, moderation_route-Audited}
use portfolio_backend.Examples.Commenting.{at_noon, limits, run, run_distinct}

abbrev world : World
world = record { session = at_noon; limiter = none }

abbrev verify_token : Text → Result Principal
verify_token assertion = ok (record { actor_id = bytes "admin-1" })

-- One visible comment is there.
abbrev commented : World
commented = record { session = run; limiter = none }

moderation_route-Audited_example :
    let after =
      (moderation_route verify_token limits hidden
        (bytes "token")
        (bytes "1")
        (bytes "req-1")
        commented).1.session in
    (after.db ≡ run.db)
    ⊎ Audited verify_token (bytes "token") limits hidden (bytes "1") (bytes "req-1") run after
moderation_route-Audited_example =
    moderation_route-Audited verify_token (bytes "token") limits hidden (bytes "1") (bytes "req-1")
      commented run_distinct

abbrev comments : CommentService
comments = record { create = post limits; list_visible = comment_store.list_visible }

abbrev comment_request : CreateRequest
comment_request = record {
  media_type = some (bytes "application/json");
  decoded = payload (record { author_name = bytes "Ada"; body = bytes "Hello"; website = [] });
  slug = bytes "a-post";
  visitor = some 7;
  now = 12;
}

create-Accepted_example :
    ((create comments comment_request world).1.session.db ≡ at_noon.db)
    ⊎ Accepted comments limits refl comment_request world (create comments comment_request world)
create-Accepted_example = create-Accepted comments limits refl comment_request world

-- Addresses are the first bytes of their texts.
abbrev first_byte : Text → Option ℕ
first_byte [] = none
first_byte (b ∷ bs) = some b

abbrev proxies : List ℕ
proxies = b'p' ∷ b'q' ∷ []

program : Unit {0}
unfolding is_trusted last_untrusted from_chain parse_unmapped parse_remote_address parse_parts
    parse_forwarded_chain join_comma from_forwarded resolve split trim_space skip_spaces is_space
    text_of runes runes_after decode_rune text_eq
program = tt

connected : (b : ℕ) → parse_remote_address (λ a. a) first_byte some (b ∷ []) ≡ some b
unfolding program
connected b = refl

client_direct : is_trusted (λ a. a) (λ p a. p == a) proxies b'c' ≡ false
unfolding program
client_direct = refl

proxied : is_trusted (λ a. a) (λ p a. p == a) proxies b'p' ≡ true
unfolding program
proxied = refl

joined : join_comma (bytes "x, c" ∷ bytes "q" ∷ []) ≡ bytes "x" ++ b',' ∷ bytes " c,q"
unfolding program
joined = refl

appended : parse_forwarded_chain (λ a. a) first_byte (bytes " c,q") ≡ some (b'c' ∷ b'q' ∷ [])
unfolding program
appended = refl

back_trusted : is_trusted (λ a. a) (λ p a. p == a) proxies b'q' ≡ true
unfolding program
back_trusted = refl

resolve_appended_example :
    resolve first_byte
      (λ a. a)
      (λ p a. p == a)
      some
      proxies
      (bytes "p")
      (bytes "x, c" ∷ bytes "q" ∷ [])
    ≡ some b'c'
unfolding program
resolve_appended_example =
    resolve_appended first_byte (λ a. a) (λ p a. p == a) some proxies (bytes "p") (connected b'p')
      (bytes "x, c") (bytes "q" ∷ []) (bytes "x") (bytes " c,q") b'c' (b'q' ∷ []) proxied joined
      appended client_direct (back_trusted, tt)
