-- ===== src/Commands/Smoke/Workflow/Passed.antt =====
-- cmd/smoke/main.go: what a run that passes has done.
use portfolio_backend.Base.{
  ℕ, ◌≡◌, refl, ap, List, [], ◌∷◌, ◌++◌, drop, true, Option, none, some, arith, ◌==◌, Bool-cases,
  inl, inr,
}
use portfolio_backend.Base.Int.{ℤ, eq_ℤ_iff}
use portfolio_backend.Base.Text.{Text, bytes}
use portfolio_backend.Config.Env.{Url}
use portfolio_backend.Http.Router.{get, post}
use portfolio_backend.Commands.Smoke.{SmokeConfig, Request, Answer, request_of}
use portfolio_backend.Commands.Smoke.Workflow.{
  ◌>>=◌, is_success, created_id, edge, comment_fields, public, perform, expect_json, status,
  check_edge, post_path, run_public, run_moderation, run, smoke_main,
}
use portfolio_backend.Commands.Smoke.Workflow.Script.{
  Plays, expect_json-Plays, expect-Plays, find-Plays, edge_script, moderation_script, public_script,
  is_created, created_exchange,
}

module _ {S : Type 0} (send : Request → S → Option Answer × S) where
  edge-Plays :
      (u : Option Url) (s end : S)
      → check_edge send u s ≡ (some tt, end)
      → Plays send (edge_script u) s end
  unfolding check_edge status
  edge-Plays none s end h = ap (λ r. r.1) h
  edge-Plays (some u) s end h =
      go (perform send (request_of (edge u) get (bytes "/api/admin/comments") none) s) refl
    where
      go :
          (p : Option Answer × S)
          → perform send (request_of (edge u) get (bytes "/api/admin/comments") none) s ≡ p
          → Plays send (edge_script (some u)) s end
      go (none, after) e = absurd (ground (arith, e, h))
      go (some a, after) e = elim (Bool-cases (is_success a.status)) [
        | inl allowed ↦ absurd (ground (arith, e, h, allowed))
        | inr refused ↦ (a, after, e, rw refused refl, ground (arith, e, h, refused))
      ]

module _ {S : Type 0} (send : Request → S → Option Answer × S) (path_escape : Text → Text)
    (read_ids : Text → Option (List ℤ)) where
  moderation-Plays :
      (c : SmokeConfig) (id : ℤ) (s end : S)
      → run_moderation send path_escape read_ids c id s ≡ (some tt, end)
      → Plays send (moderation_script path_escape read_ids c id) s end
  unfolding run_moderation
  moderation-Plays c id s end =
      let script = moderation_script path_escape read_ids c id in
      find-Plays send read_ids _ _ id _ (drop 1 script) s {b = tt} (λ s1.
        expect-Plays send _ _ _ _ _ (drop 2 script) s1 {b = tt} (λ s2.
          expect-Plays send _ _ _ _ _ (drop 3 script) s2 {b = tt} (λ s3.
            find-Plays send read_ids _ _ id _ (drop 4 script) s3 {b = tt} (λ s4.
              expect-Plays send _ _ _ _ _ (drop 5 script) s4 {b = tt} (λ s5.
                expect-Plays send _ _ _ _ _ (drop 6 script) s5 {b = tt} (λ s6.
                  expect-Plays send _ _ _ _ _ (drop 7 script) s6 {b = tt}
                    (λ s7. edge-Plays send c.admin_edge_url s7 end)))))))

module _ {S : Type 0} (send : Request → S → Option Answer × S) (path_escape : Text → Text)
    (read_id : Text → Option ℤ) where
  is_created-id :
      (id : ℤ) (a : Answer)
      → a.status == 201 ≡ true
      → created_id (read_id a.body) ≡ some id
      → is_created path_escape read_id id a ≡ true
  is_created-id id a h e = rw (h, e) ((eq_ℤ_iff id id).1 refl)

  created-Plays :
      (c : SmokeConfig) (marker : ℕ) (id : ℤ) (s end : S)
      → (expect_json send
              (public c)
              post
              (post_path path_escape c ++ bytes "/comments")
              (some (comment_fields marker))
              201
            >>= λ body t. (created_id (read_id body), t))
          s
        ≡ (some id, end)
      → Plays send (created_exchange path_escape read_id c marker id ∷ []) s end
  created-Plays c marker id s end h =
      let (a, after, asked, fits, h') =
        expect_json-Plays send (public c) post (post_path path_escape c ++ bytes "/comments")
          (some (comment_fields marker)) 201 (λ body t. (created_id (read_id body), t)) s {b = id}
          {end = end} h in
      (a, after, asked, is_created-id id a fits (ap (λ r. r.0) h'), ap (λ r. r.1) h')

  public-Plays :
      (c : SmokeConfig) (marker : ℕ) (id : ℤ) (s end : S)
      → run_public send path_escape read_id c marker s ≡ (some id, end)
      → Plays send (public_script path_escape read_id c marker id) s end
  unfolding run_public
  public-Plays c marker id s end =
      let script = public_script path_escape read_id c marker id in
      expect-Plays send _ _ _ _ _ (drop 1 script) s {b = id} (λ s1.
        expect-Plays send _ _ _ _ _ (drop 2 script) s1 {b = id} (λ s2.
          expect-Plays send _ _ _ _ _ (drop 3 script) s2 {b = id} (λ s3.
            expect-Plays send _ _ _ _ _ (drop 4 script) s3 {b = id} (λ s4.
              expect-Plays send _ _ _ _ _ (drop 5 script) s4 {b = id} (λ s5.
                expect-Plays send _ _ _ _ _ (drop 6 script) s5 {b = id}
                  (λ s6. created-Plays c marker id s6 end))))))

module _ {S : Type 0} (send : Request → S → Option Answer × S) (path_escape : Text → Text)
    (read_id : Text → Option ℤ) (read_ids : Text → Option (List ℤ)) (c : SmokeConfig)
    (marker : ℕ) where
  -- The run of a script for some comment that it has created.
  abbrev pub Passed : S → S → Type 0
  Passed s end =
      (id : ℤ) × (created : S) × Plays send (public_script path_escape read_id c marker id) s
        created
      × Plays send (moderation_script path_escape read_ids c id) created end

  run-Passed :
      (s end : S) → run send path_escape read_id read_ids c marker s ≡ (some tt, end) → Passed s end
  unfolding run
  run-Passed s end h = go (run_public send path_escape read_id c marker s) refl
    where
      go : (p : Option ℤ × S) → run_public send path_escape read_id c marker s ≡ p → Passed s end
      go (none, after) e = absurd (ground (arith, e, h))
      go (some id, created) e = (
        id,
        created,
        public-Plays send path_escape read_id c marker id s created e,
        moderation-Plays send path_escape read_ids c id created end (ground (arith, e, h)),
      )

  -- The command exits with 0 only if its whole script has been played, in order and each answer as
  -- wanted: the probes, the reads and writes on the post, a comment that both listings show, the two refusals, the
  -- comment hidden, shown and at last hidden again, and the edge, if there is one, closed.
  pub smoke_main-Passed :
      (s end : S)
      → smoke_main send path_escape read_id read_ids (some c) marker s ≡ (0, end)
      → Passed s end
  unfolding smoke_main
  smoke_main-Passed s end h = go (run send path_escape read_id read_ids c marker s) refl
    where
      go :
          (p : Option (Unit {0}) × S)
          → run send path_escape read_id read_ids c marker s ≡ p
          → Passed s end
      go (none, after) e = absurd (ground (arith, e, h))
      go (some u, after) e = run-Passed s end (ground (arith, e, h))
