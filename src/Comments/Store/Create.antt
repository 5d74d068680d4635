-- ===== src/Comments/Store/Create.antt =====
-- What CreateVisibleIfUnderLimit means, and what a successful call has done.
use portfolio_backend.Database.Effects.{transaction-atomic}
use portfolio_backend.Database.Meaning.{
  Pure, Means, returns, raises, reads, ◌>>=◌, Means-bind, Means-if, Means-fail, Means-round_trip,
  Means-query, Means-modify, Means-transaction,
}
use portfolio_backend.Base.{
  ◌+◌, ◌≡◌, ◌∷◌, true, false, not, Option-cases, inl, inr, arith, if◌then◌else◌,
}
use portfolio_backend.Base.Int.{ℤ, pos, leb_ℤ}
use portfolio_backend.Base.Assoc.{lookup, text_key}
use portfolio_backend.Errors.{Error, ok, err, unavailable, post_full}
use portfolio_backend.Limiter.{Instant}
use portfolio_backend.Database.{Comment, Db, Session, round_trip, query}
use portfolio_backend.Comments.Store.{
  CreateInput, comments_available, count_visible, comment_checks, new_comment, insert_comment,
  insert_referencing, create_body, create_visible_if_under_limit,
}

-- The rule of the store: comments must be available and the post below its limit.
unfoldable pub create_rule : CreateInput → ℤ → Pure Comment
create_rule input max_visible = do
  available ← reads (λ db. comments_available (lookup input.post_slug db.content_items))
  if not available then raises unavailable else do
    visible_count ← reads (count_visible input.post_slug)
    if leb_ℤ max_visible (pos visible_count) then raises post_full else insert_referencing input

create_body-Means :
    (input : CreateInput) (max_visible : ℤ)
    → Means (create_body input max_visible) (create_rule input max_visible)
unfolding create_body create_rule
create_body-Means input max_visible = Means-bind round_trip _ (returns tt) _ Means-round_trip (λ _.
    Means-bind (query _) _ (reads _) _ (Means-query _) (λ available.
      Means-if (not available) (Means-fail unavailable) (
        Means-bind (query _) _ (reads _) _ (Means-query _) (λ n.
          Means-if (leb_ℤ max_visible (pos n)) (Means-fail post_full)
            (Means-modify (insert_referencing input))))))

-- Whatever round trips fail, a comment that CreateVisibleIfUnderLimit returns is the one that the
-- rule returns, with the rule's tables; and when none fails, it answers what the rule answers,
-- errors included.
pub create-Means :
    (input : CreateInput) (max_visible : ℤ)
    → Means (create_visible_if_under_limit input max_visible) (create_rule input max_visible)
unfolding create_visible_if_under_limit
create-Means input max_visible = Means-transaction _ _ (create_body-Means input max_visible)

pub record Created (input : CreateInput) (max_visible : ℤ) (now : Instant) (before after : Db)
    (c : Comment) : Type 0 where
  pub available : comments_available (lookup input.post_slug before.content_items) ≡ true
  pub room : leb_ℤ max_visible (pos (count_visible input.post_slug before)) ≡ false
  pub checked : comment_checks input ≡ true
  pub row : c ≡ new_comment input now before
  pub tables : after ≡ record before {
    comments = new_comment input now before ∷ before.comments;
    next_comment_id = before.next_comment_id + 1;
  }

pub create_rule-Created :
    (input : CreateInput) (max_visible : ℤ) (now : Instant) (db after : Db) {c : Comment}
    → create_rule input max_visible now db ≡ ok (c, after)
    → Created input max_visible now db after c
unfolding create_rule insert_referencing insert_comment
create_rule-Created input max_visible now db after h =
    elim (Option-cases (lookup input.post_slug db.content_items)) [
      | inl missing ↦ ground (arith, missing, h)
      | inr (item, found) ↦ ground (arith, found, h)
    ]

-- A successful call found comments enabled on published content, fewer visible comments than the
-- limit and values within the table's constraints, and has added one visible row, under the next
-- id and with the input's values, that it returns; nothing else has changed.
pub create_visible-Created :
    (input : CreateInput) (max_visible : ℤ) (s : Session) {c : Comment}
    → (create_visible_if_under_limit input max_visible s).0 ≡ ok c
    → Created input max_visible s.now s.db
        (create_visible_if_under_limit input max_visible s).1.db
        c
create_visible-Created input max_visible s {c = c} h =
    create_rule-Created input max_visible s.now s.db _
      ((create-Means input max_visible).sound s c h)

-- A failed call leaves every table as it was.
pub db-create :
    (input : CreateInput) (max_visible : ℤ) (s : Session) {e : Error}
    → (create_visible_if_under_limit input max_visible s).0 ≡ err e
    → (create_visible_if_under_limit input max_visible s).1.db ≡ s.db
unfolding create_visible_if_under_limit
db-create input max_visible s h = transaction-atomic _ s h
