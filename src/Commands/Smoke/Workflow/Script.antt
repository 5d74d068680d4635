-- ===== src/Commands/Smoke/Workflow/Script.antt =====
-- cmd/smoke/main.go: the script that a successful run has played.
use portfolio_backend.Base.{
  sym, ◌∙◌, ℕ, ◌≡◌, refl, List, [], ◌∷◌, ◌++◌, Bool, true, false, not, ◌&&◌, Option, none, some,
  arith, ◌==◌, Option-cases, Bool-cases, inl, inr,
}
use portfolio_backend.Base.Int.{ℤ, eq_ℤ}
use portfolio_backend.Base.Text.{Text, bytes}
use portfolio_backend.Config.Env.{Url}
use portfolio_backend.Http.Router.{Method, get, post, put, delete}
use portfolio_backend.Commands.Smoke.{SmokeConfig, Requester, Fields, Request, Answer, request_of}
use portfolio_backend.Commands.Smoke.Workflow.{
  Action, ◌>>=◌, ◌>>◌, require, is_success, comment_page_contains, created_id, public, admin,
  unauthenticated_admin, forged_admin, edge, comment_fields, perform, expect_json, expect,
  post_path, comment_path, find_comment,
}

-- A request, and what its answer must be.
pub record Exchange : Type 0 where
  pub request : Request
  pub fits : Answer → Bool

abbrev pub has_status : ℕ → Answer → Bool
has_status n a = a.status == n

abbrev pub ask : Requester → Method → Text → ℕ → Exchange
ask r method path want = record { request = request_of r method path none; fits = has_status want }

module _ {S : Type 0} (send : Request → S → Option Answer × S) where
  -- The exchanges of a script happen, in order, from a state to another.
  abbrev pub Plays : List Exchange → S → S → Type 0
  Plays [] s end = s ≡ end
  Plays (e ∷ rest) s end =
      (a : Answer) × (next : S) × (perform send e.request s ≡ (some a, next))
      × (e.fits a ≡ true)
      × Plays rest next end

  pub expect_json-Plays {ℓ} :
      {B : Type ℓ} (r : Requester) (method : Method) (path : Text) (fields : Option Fields)
      (want : ℕ) (next : Text → Action S B) (s : S) {b : B} {end : S}
      → (expect_json send r method path fields want >>= next) s ≡ (some b, end)
      → (a : Answer) × (after : S) × (perform send (request_of r method path fields) s
          ≡ (some a, after))
        × (has_status want a ≡ true)
        × (next a.body after ≡ (some b, end))
  unfolding expect_json
  expect_json-Plays r method path fields want next s {b} {end} h =
      go (perform send (request_of r method path fields) s) refl
    where
      go :
          (p : Option Answer × S)
          → perform send (request_of r method path fields) s ≡ p
          → (a : Answer) × (after : S) × (perform send (request_of r method path fields) s
              ≡ (some a, after))
            × (has_status want a ≡ true)
            × (next a.body after ≡ (some b, end))
      go (none, after) e = absurd (ground (arith, e, h))
      go (some a, after) e = elim (Bool-cases (a.status == want)) [
        | inl good ↦ (a, after, e, good, ground (arith, e, h, good))
        | inr bad ↦ absurd (ground (arith, e, h, bad))
      ]

  -- A call whose value is dropped, and what follows.
  drop_value {ℓ} :
      {A : Type 0} {B : Type ℓ} (m : Action S A) (next : Action S B) (s : S)
      → ((m >>= λ a. λ t. (some tt, t)) >> next) s ≡ (m >>= λ a. next) s
  drop_value m next s = elim (Option-cases (m s).0) [ inl e ↦ rw e refl | inr (a, e) ↦ rw e refl ]

  -- A check, and what follows.
  check_body {ℓ} :
      {A : Type 0} {B : Type ℓ} (m : Action S A) (test : A → Bool) (next : Action S B) (s : S)
      → ((m >>= λ a. require (test a)) >> next) s ≡ (m >>= λ a. require (test a) >> next) s
  check_body m test next s = elim (Option-cases (m s).0) [
    | inl e ↦ rw e refl
    | inr (a, e) ↦ rw e refl
  ]

  required {ℓ} :
      {B : Type ℓ} (test : Bool) (next : Action S B) (s : S) {b : B} {end : S}
      → (require test >> next) s ≡ (some b, end)
      → (test ≡ true) × (next s ≡ (some b, end))
  required true next s h = (refl, h)
  required false next s h = absurd (ground (arith, h))

  -- One step of a script, and what the rest plays.
  pub expect-Plays {ℓ} :
      {B : Type ℓ} (r : Requester) (method : Method) (path : Text) (want : ℕ) (next : Action S B)
      (rest : List Exchange) (s : S) {b : B} {end : S}
      → ((t : S) → next t ≡ (some b, end) → Plays rest t end)
      → (expect send r method path want >> next) s ≡ (some b, end)
      → Plays (ask r method path want ∷ rest) s end
  unfolding expect
  expect-Plays r method path want next rest s {b} {end} k h =
      let (a, after, asked, fits, h') =
        expect_json-Plays r method path none want (λ body. next) s {b = b} {end = end}
          (sym (drop_value (expect_json send r method path none want) next s) ∙ h) in
      (a, after, asked, fits, k after h')

module _ (read_ids : Text → Option (List ℤ)) where
  abbrev pub lists_comment : ℤ → Answer → Bool
  lists_comment id a = has_status 200 a && comment_page_contains read_ids a.body id

  abbrev pub ask_listing : Requester → Text → ℤ → Exchange
  ask_listing r path id = record { request = request_of r get path none; fits = lists_comment id }

module _ {S : Type 0} (send : Request → S → Option Answer × S)
    (read_ids : Text → Option (List ℤ)) where
  pub find-Plays {ℓ} :
      {B : Type ℓ} (r : Requester) (path : Text) (id : ℤ) (next : Action S B) (rest : List Exchange)
      (s : S) {b : B} {end : S}
      → ((t : S) → next t ≡ (some b, end) → Plays send rest t end)
      → (find_comment send read_ids r path id >> next) s ≡ (some b, end)
      → Plays send (ask_listing read_ids r path id ∷ rest) s end
  unfolding find_comment
  find-Plays r path id next rest s {b} {end} k h =
      let m = expect_json send r get path none 200 in
      let test = λ (body : Text). comment_page_contains read_ids body id in
      let (a, after, asked, fits, h') =
        expect_json-Plays send r get path none 200 (λ body. require (test body) >> next) s {b = b}
          {end = end} (sym (check_body send m test next s) ∙ h) in
      let (found, h'') = required send (test a.body) next after {b = b} {end = end} h' in
      (a, after, asked, rw (fits, found) refl, k after h'')

abbrev pub edge_script : Option Url → List Exchange
edge_script none = []
edge_script (some u) =
    record {
      request = request_of (edge u) get (bytes "/api/admin/comments") none;
      fits = λ a. not (is_success a.status);
    }
    ∷ []

module _ (path_escape : Text → Text) (read_ids : Text → Option (List ℤ)) where
  -- What the moderation of a comment asks.
  abbrev pub moderation_script : SmokeConfig → ℤ → List Exchange
  moderation_script c id =
      ask_listing read_ids (public c) (post_path path_escape c ++ bytes "/comments?limit=100") id
      ∷ ask (unauthenticated_admin c) get (bytes "/api/admin/comments") 401
      ∷ ask (forged_admin c) get (bytes "/api/admin/comments") 401
      ∷ ask_listing read_ids (admin c) (bytes "/api/admin/comments?limit=100") id
      ∷ ask (admin c) post (comment_path id ++ bytes "/hide") 200
      ∷ ask (admin c) post (comment_path id ++ bytes "/unhide") 200
      ∷ ask (admin c) post (comment_path id ++ bytes "/hide") 200
      ∷ edge_script c.admin_edge_url

module _ (path_escape : Text → Text) (read_id : Text → Option ℤ) where
  abbrev pub is_created : ℤ → Answer → Bool
  is_created id a =
      has_status 201 a
      && elim (created_id (read_id a.body)) [ none ↦ false | some created ↦ eq_ℤ created id ]

  abbrev pub created_exchange : SmokeConfig → ℕ → ℤ → Exchange
  created_exchange c marker id = record {
    request =
        request_of (public c) post (post_path path_escape c ++ bytes "/comments")
          (some (comment_fields marker));
    fits = is_created id;
  }

  -- What the public checks ask, up to the comment.
  abbrev pub public_script : SmokeConfig → ℕ → ℤ → List Exchange
  public_script c marker id =
      let path = post_path path_escape c in
      ask (public c) get (bytes "/api/healthz") 200
      ∷ ask (public c) get (bytes "/api/readyz") 200
      ∷ ask (public c) get (path ++ bytes "/stats") 200
      ∷ ask (public c) post (path ++ bytes "/view") 204
      ∷ ask (public c) put (path ++ bytes "/like") 204
      ∷ ask (public c) delete (path ++ bytes "/like") 204
      ∷ created_exchange c marker id
      ∷ []
