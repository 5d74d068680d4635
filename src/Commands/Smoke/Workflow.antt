-- ===== src/Commands/Smoke/Workflow.antt =====
-- cmd/smoke/main.go: run and main.
pub mod Script
pub mod Passed
use portfolio_backend.Base.{
  ℕ, List, [], ◌∷◌, ◌++◌, Bool, true, false, not, ◌&&◌, ◌+◌, Option, none, some, any, length, take,
  ltb, leb, ◌==◌, if◌then◌else◌,
}
use portfolio_backend.Base.Int.{ℤ, pos, negsuc, leb_ℤ, eq_ℤ}
use portfolio_backend.Base.Text.{Text, bytes}
use portfolio_backend.Base.Decimal.Printing.{decimal}
use portfolio_backend.Config.Env.{Url}
use portfolio_backend.Http.Router.{Method, get, post, put, delete}
use portfolio_backend.Commands.Smoke.{
  max_response_bytes, SmokeConfig, Client, follows_redirects, keeps_redirects, Requester, Fields,
  Request, Answer, request_of, parse_config,
}

-- A call that may fail, on the state of the servers.
abbrev pub Action {ℓ} : Type 0 → Type ℓ → Type ℓ
Action S A = S → Option A × S

abbrev pub continue {ℓ κ} :
    {S : Type 0} {A : Type ℓ} {B : Type κ} → Option A → (A → Action S B) → Action S B
continue none next s = (none, s)
continue (some a) next s = next a s

infixl 5 ◌>>=◌ ◌>>◌
abbrev pub ◌>>=◌ {ℓ κ} :
    {S : Type 0} {A : Type ℓ} {B : Type κ} → Action S A → (A → Action S B) → Action S B
◌>>=◌ m next s = continue (m s).0 next (m s).1

abbrev pub ◌>>◌ {ℓ} : {S : Type 0} {B : Type ℓ} → Action S (Unit {0}) → Action S B → Action S B
m >> next = m >>= λ done. next

abbrev pub require : {S : Type 0} → Bool → Action S (Unit {0})
require holds s = (if holds then some tt else none, s)

-- io.LimitReader, and the test on what it gives.
unfoldable pub bounded : Option Answer → Option Answer
bounded none = none
bounded (some a) =
    let body : Text = take (max_response_bytes + 1) a.body in
    if ltb max_response_bytes (length body) then none else some (record a { body = body })

-- The body, if the status is the wanted one.
abbrev pub body_of : ℕ → Option Answer → Option Text
body_of want none = none
body_of want (some a) = if a.status == want then some a.body else none

abbrev pub is_success : ℕ → Bool
is_success status = leb 200 status && ltb status 300

abbrev pub status_of : Option Answer → Option ℕ
status_of none = none
status_of (some a) = some a.status

module _ (read_ids : Text → Option (List ℤ)) where
  -- json.Unmarshal gives the identifiers of the page.
  unfoldable pub comment_page_contains : Text → ℤ → Bool
  comment_page_contains body id = elim (read_ids body) [
    | none ↦ false
    | some ids ↦ any (λ i. eq_ℤ i id) ids
  ]

-- What the JSON of a created comment has as its identifier, if it is positive.
unfoldable pub created_id : Option ℤ → Option ℤ
created_id none = none
created_id (some id) = if leb_ℤ id (pos 0) then none else some id

abbrev pub int_text : ℤ → Text
int_text (pos n) = decimal n
int_text (negsuc n) = b'-' ∷ decimal (n + 1)

-- The four requesters of run, and the one of the edge.
abbrev pub public : SmokeConfig → Requester
public c = record { client = follows_redirects; base = c.public_url; assertion = [] }

abbrev pub admin : SmokeConfig → Requester
admin c = record { client = follows_redirects; base = c.admin_origin_url; assertion = c.assertion }

abbrev pub unauthenticated_admin : SmokeConfig → Requester
unauthenticated_admin c = record {
  client = follows_redirects;
  base = c.admin_origin_url;
  assertion = [];
}

abbrev pub forged_admin : SmokeConfig → Requester
forged_admin c = record {
  client = follows_redirects;
  base = c.admin_origin_url;
  assertion = bytes "forged.smoke.assertion";
}

abbrev pub edge : Url → Requester
edge u = record { client = keeps_redirects; base = u; assertion = [] }

abbrev pub comment_fields : ℕ → Fields
comment_fields marker =
    (bytes "author_name", bytes "deployment-smoke")
    ∷ (bytes "body", bytes "deployment smoke " ++ decimal marker)
    ∷ (bytes "website", [])
    ∷ []

module _ {S : Type 0} (send : Request → S → Option Answer × S) where
  unfoldable pub perform : Request → Action S Answer
  perform request s = let r = send request s in (bounded r.0, r.1)

  unfoldable pub expect_json : Requester → Method → Text → Option Fields → ℕ → Action S Text
  expect_json r method path fields want s =
      let answer = perform (request_of r method path fields) s in (body_of want answer.0, answer.1)

  unfoldable pub expect : Requester → Method → Text → ℕ → Action S (Unit {0})
  expect r method path want = do body ← expect_json r method path none want; λ s. (some tt, s)

  unfoldable pub status : Requester → Method → Text → Action S ℕ
  status r method path s =
      let answer = perform (request_of r method path none) s in (status_of answer.0, answer.1)

  unfoldable pub check_edge : Option Url → Action S (Unit {0})
  check_edge none = λ s. (some tt, s)
  check_edge (some u) = do
    answered ← status (edge u) get (bytes "/api/admin/comments")
    require (not (is_success answered))

abbrev pub exit_of : {S : Type 0} → Option (Unit {0}) × S → ℕ × S
exit_of (none, s) = (1, s)
exit_of (some done, s) = (0, s)

module _ (path_escape : Text → Text) where
  abbrev pub post_path : SmokeConfig → Text
  post_path c = bytes "/api/posts/" ++ path_escape c.post_slug

abbrev pub comment_path : ℤ → Text
comment_path id = bytes "/api/admin/comments/" ++ int_text id

module _ {S : Type 0} (send : Request → S → Option Answer × S) (path_escape : Text → Text)
    (read_id : Text → Option ℤ) where
  -- From the first probe to the created comment.
  unfoldable pub run_public : SmokeConfig → ℕ → Action S ℤ
  run_public c marker = do
    expect send (public c) get (bytes "/api/healthz") 200
    expect send (public c) get (bytes "/api/readyz") 200
    expect send (public c) get (post_path path_escape c ++ bytes "/stats") 200
    expect send (public c) post (post_path path_escape c ++ bytes "/view") 204
    expect send (public c) put (post_path path_escape c ++ bytes "/like") 204
    expect send (public c) delete (post_path path_escape c ++ bytes "/like") 204
    body ←
        expect_json send (public c) post (post_path path_escape c ++ bytes "/comments")
          (some (comment_fields marker)) 201
    λ s. (created_id (read_id body), s)

module _ {S : Type 0} (send : Request → S → Option Answer × S)
    (read_ids : Text → Option (List ℤ)) where
  -- A listing that must show the comment.
  unfoldable pub find_comment : Requester → Text → ℤ → Action S (Unit {0})
  find_comment r path id = do
    body ← expect_json send r get path none 200
    require (comment_page_contains read_ids body id)

module _ {S : Type 0} (send : Request → S → Option Answer × S) (path_escape : Text → Text)
    (read_ids : Text → Option (List ℤ)) where
  -- From the public listing to the last hide, and the edge.
  unfoldable pub run_moderation : SmokeConfig → ℤ → Action S (Unit {0})
  run_moderation c id = do
    find_comment send read_ids (public c) (post_path path_escape c ++ bytes "/comments?limit=100")
        id
    expect send (unauthenticated_admin c) get (bytes "/api/admin/comments") 401
    expect send (forged_admin c) get (bytes "/api/admin/comments") 401
    find_comment send read_ids (admin c) (bytes "/api/admin/comments?limit=100") id
    expect send (admin c) post (comment_path id ++ bytes "/hide") 200
    expect send (admin c) post (comment_path id ++ bytes "/unhide") 200
    expect send (admin c) post (comment_path id ++ bytes "/hide") 200
    check_edge send c.admin_edge_url

module _ {S : Type 0} (send : Request → S → Option Answer × S) (path_escape : Text → Text)
    (read_id : Text → Option ℤ) (read_ids : Text → Option (List ℤ)) where
  unfoldable pub run : SmokeConfig → ℕ → Action S (Unit {0})
  run c marker = do
    id ← run_public send path_escape read_id c marker
    run_moderation send path_escape read_ids c id

  -- main: the exit code.
  unfoldable pub smoke_main : Option SmokeConfig → ℕ → S → ℕ × S
  smoke_main none marker s = (2, s)
  smoke_main (some c) marker s = exit_of (run c marker s)
