-- ===== src/Comments/Service/Posting.antt =====
-- What the comment service does to the tables when a comment is submitted, over the stores of
-- internal/comments/postgres and internal/content/postgres.
use portfolio_backend.Base.{◌≡◌, true, ◌⊎◌, inl, inr, arith, Bool-cases}
use mathlib.Core.Path.{subst, ◌∙◌}
use portfolio_backend.Base.Text.{Text}
use portfolio_backend.Base.Utf8.{trim_space}
use portfolio_backend.Errors.{ok, Result-cases}
use portfolio_backend.Database.{Comment, Db, Session, Exec, round_trip, query}
use portfolio_backend.Content.Registry.{content_state}
use portfolio_backend.Content.Service.{require_comments_enabled}
use portfolio_backend.Comments.Store.{CreateInput, list_visible, create_visible_if_under_limit}
use portfolio_backend.Comments.Store.Create.{Created, create_visible-Created, db-create}
use portfolio_backend.Comments.Service.{Limits, Store, valid_text, trimmed, create}

-- A call that changes no table and takes no time of the clock.
abbrev pub Quiet {ℓ} : {A : Type ℓ} → Exec A → Type 0
Quiet m = (s : Session) → ((m s).1.db ≡ s.db) × ((m s).1.now ≡ s.now)

query-Quiet {ℓ} : {A : Type ℓ} (f : Db → A) → Quiet (query f)
unfolding query round_trip
query-Quiet f s = ground arith

content_state-Quiet : (slug : Text) → Quiet (content_state slug)
unfolding content_state
content_state-Quiet slug = query-Quiet _

pub require_comments_enabled-Quiet :
    (slug : Text) → Quiet (require_comments_enabled content_state slug)
unfolding require_comments_enabled
require_comments_enabled-Quiet slug s = ground (arith, content_state-Quiet slug s)

abbrev pub comment_store : Store
comment_store = record {
  create_visible_if_under_limit = create_visible_if_under_limit;
  list_visible = list_visible;
}

abbrev pub post : Limits → CreateInput → Exec Comment
post limits input = create comment_store (require_comments_enabled content_state) limits input

-- The comment `c`, with its texts trimmed and within the limits, is the only change.
pub record Posted (limits : Limits) (input : CreateInput) (s after : Session) (c : Comment)
    : Type 0 where
  pub author : valid_text (trim_space input.author_name) limits.max_author_chars ≡ true
  pub body : valid_text (trim_space input.body) limits.max_comment_chars ≡ true
  pub created : Created (trimmed input) limits.max_comments_per_post s.now s.db after.db c

store-cases :
    (limits : Limits) (input : CreateInput) (s : Session)
    → let r = create_visible_if_under_limit input limits.max_comments_per_post s in
      (r.1.db ≡ s.db)
      ⊎ ((c : Comment) × (r.0 ≡ ok c)
          × Created input limits.max_comments_per_post s.now s.db r.1.db c)
store-cases limits input s =
    elim (Result-cases (create_visible_if_under_limit input limits.max_comments_per_post s).0) [
      | inl (c, made) ↦
          inr (c, made, create_visible-Created input limits.max_comments_per_post s made)
      | inr (e, failed) ↦ inl (db-create input limits.max_comments_per_post s failed)
    ]

-- The store's outcome, from a session with the tables and the time of the first.
stored-Posted :
    (limits : Limits) (input : CreateInput) (s s' : Session)
    → (s'.db ≡ s.db) × (s'.now ≡ s.now)
    → valid_text (trim_space input.author_name) limits.max_author_chars ≡ true
    → valid_text (trim_space input.body) limits.max_comment_chars ≡ true
    → let r = create_visible_if_under_limit (trimmed input) limits.max_comments_per_post s' in
      (r.1.db ≡ s.db) ⊎ ((c : Comment) × (r.0 ≡ ok c) × Posted limits input s r.1 c)
stored-Posted limits input s s' (d, n) author body = elim (store-cases limits (trimmed input) s') [
  | inl same ↦ inl (same ∙ d)
  | inr (c, made, created) ↦ inr (
    c,
    made,
    record {
      author = author;
      body = body;
      created =
          let after =
            (create_visible_if_under_limit (trimmed input) limits.max_comments_per_post s').1.db in
          let maximum = limits.max_comments_per_post in
          subst (λ now. Created (trimmed input) maximum now s.db after c) n
            (subst (λ db. Created (trimmed input) maximum s'.now db after c) d created);
    },
  )
]

-- Submitting a comment leaves the tables as they are, or has added exactly one visible comment, the one returned,
-- whose trimmed name and text are not empty, are UTF-8 and are within the limits, to a post with comments enabled and room.
pub post-Posted :
    (limits : Limits) (input : CreateInput) (s : Session)
    → let r = post limits input s in
      (r.1.db ≡ s.db) ⊎ ((c : Comment) × (r.0 ≡ ok c) × Posted limits input s r.1 c)
unfolding create
post-Posted limits input s =
    let quiet = require_comments_enabled-Quiet input.post_slug s in
    elim (Result-cases (require_comments_enabled content_state input.post_slug s).0) [
      | inr (e, refused) ↦ inl (rw (refused) (quiet.0))
      | inl (_, enabled) ↦
          elim (Bool-cases (valid_text (trim_space input.author_name) limits.max_author_chars)) [
            | inr nameless ↦ inl (rw (enabled, nameless) (quiet.0))
            | inl author ↦
                elim (Bool-cases (valid_text (trim_space input.body) limits.max_comment_chars)) [
                  | inr bodiless ↦ inl (rw (enabled, author, bodiless) (quiet.0))
                  | inl body ↦
                      rw (enabled, author, body) (stored-Posted limits input s _ quiet author body)
                ]
          ]
    ]
