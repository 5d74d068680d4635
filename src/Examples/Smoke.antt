-- ===== src/Examples/Smoke.antt =====
-- cmd/smoke: a run against a server that has its answers ready.
use portfolio_backend.Base.{ℕ, ◌≡◌, refl, List, [], ◌∷◌, ◌++◌, Option, none, some}
use portfolio_backend.Base.Int.{pos}
use portfolio_backend.Base.Text.{Text, bytes, text_eq}
use portfolio_backend.Base.Utf8.{
  trim_space, skip_spaces, is_space, text_of, runes, runes_after, decode_rune,
}
use portfolio_backend.Config.Env.{Url, skip_slashes, trim_slashes}
use portfolio_backend.Commands.Smoke.{
  SmokeConfig, Request, Answer, parse_base_url, parse_edge_url, checked_assertion, parse_config,
  cut_query, endpoint,
}
use portfolio_backend.Commands.Smoke.Workflow.{
  bounded, comment_page_contains, created_id, perform, expect_json, expect, status, check_edge,
  run_public, find_comment, run_moderation, run, smoke_main,
}
use portfolio_backend.Commands.Smoke.Workflow.Passed.{Passed, smoke_main-Passed}

abbrev origin : Text → Url
origin path = record {
  scheme = bytes "https";
  host = bytes "site.example";
  path = path;
  raw_query = [];
  fragment = [];
}

abbrev config : SmokeConfig
config = record {
  public_url = origin [];
  admin_origin_url = origin [];
  admin_edge_url = some (origin []);
  post_slug = bytes "a-post";
  assertion = bytes "token";
}

abbrev answer : ℕ → Answer
answer code = record { status = code; body = bytes "{}" }

abbrev send : Request → List Answer → Option Answer × List Answer
send request [] = (none, [])
send request (a ∷ rest) = (some a, rest)

abbrev public_answers : List Answer
public_answers =
    answer 200 ∷ answer 200 ∷ answer 200 ∷ answer 204 ∷ answer 204 ∷ answer 204 ∷ answer 201 ∷ []

abbrev moderation_answers : ℕ → List Answer
moderation_answers forged =
    answer 200
    ∷ answer 401
    ∷ answer forged
    ∷ answer 200
    ∷ answer 200
    ∷ answer 200
    ∷ answer 200
    ∷ answer 302
    ∷ []

abbrev exit : ℕ → ℕ × List Answer
exit forged =
    smoke_main send (λ t. t) (λ body. some (pos 7)) (λ body. some (pos 9 ∷ pos 7 ∷ []))
      (some config) 1 (public_answers ++ moderation_answers forged)

program : Unit {0}
unfolding bounded comment_page_contains created_id perform expect_json expect status check_edge
    run_public find_comment run_moderation run smoke_main
program = tt

passes : exit 401 ≡ (0, [])
unfolding program
passes = refl

-- A forged assertion that is let in stops the run.
forged_fails : exit 200 ≡ (1, answer 200 ∷ answer 200 ∷ answer 200 ∷ answer 200 ∷ answer 302 ∷ [])
unfolding program
forged_fails = refl

smoke_main-Passed_example :
    Passed send
      (λ t. t)
      (λ body. some (pos 7))
      (λ body. some (pos 9 ∷ pos 7 ∷ []))
      config
      1
      (public_answers ++ moderation_answers 401)
      []
smoke_main-Passed_example =
    smoke_main-Passed send (λ t. t) (λ body. some (pos 7)) (λ body. some (pos 9 ∷ pos 7 ∷ []))
      config 1 (public_answers ++ moderation_answers 401) [] passes

parsed :
    parse_config
      (λ raw. some (origin (bytes "/")))
      (λ path. some (bytes " token\n"))
      (bytes "https://site.example/")
      (bytes "https://site.example/")
      (bytes "https://site.example/")
      (bytes "a-post")
      (bytes "file")
    ≡ some config
unfolding parse_base_url parse_edge_url checked_assertion parse_config skip_slashes trim_slashes
    text_eq trim_space skip_spaces is_space text_of runes runes_after decode_rune
parsed = refl

endpoint_query :
    endpoint (origin (bytes "/base")) (bytes "/comments?limit=100")
    ≡ record (origin (bytes "/base/comments")) { raw_query = bytes "limit=100" }
unfolding endpoint cut_query trim_slashes skip_slashes
endpoint_query = refl
