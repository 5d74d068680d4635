-- ===== src/Reactions/Totals.antt =====
-- The view total that GetStats shows, against the answers of RecordView.
use portfolio_backend.Base.{
  inr, inl, ℕ, ◌+◌, ◌≡◌, List, [], ◌∷◌, Bool, true, false, arith, if◌then◌else◌,
}
use portfolio_backend.Base.Int.{ℤ}
use portfolio_backend.Base.Text.{Text, text_eq, text_eq_iff}
use portfolio_backend.Base.Assoc.{lookup-insert, text_key}
use portfolio_backend.Errors.{Result, ok, err, Result-cases}
use portfolio_backend.Limiter.{Instant}
use portfolio_backend.Database.{Db, Session}
use portfolio_backend.Database.Effects.{db-modify}
use portfolio_backend.Database.Meaning.{Means-modify}
use portfolio_backend.Reactions.Store.{view_count, count_view, record_view}
use portfolio_backend.Reactions.Views.{View, answer}

-- What an answer adds to the total of a post: one if it is that the view counts.
abbrev pub gain : Result Bool → ℕ
gain (ok true) = 1
gain (ok false) = 0
gain (err e) = 0

abbrev pub gain_of : Text → View → Result Bool → ℕ
gain_of post_slug v r = if text_eq v.key.0 post_slug then gain r else 0

view_count-count_view :
    (post_slug : Text) (v : View) (window : ℤ) (now : Instant) (db after : Db) {counted : Bool}
    → count_view v.key.0 v.key.1 v.counted_at window now db ≡ ok (counted, after)
    → view_count post_slug after ≡ view_count post_slug db + gain_of post_slug v (ok counted)
unfolding view_count count_view
view_count-count_view post_slug v window now db after {counted = c} e = ground (
  arith,
  text_eq_iff v.key.0 post_slug,
  lookup-insert v.key.0 post_slug (view_count v.key.0 db + 1) db.post_stats,
)

module _ (window : ℤ) (post_slug : Text) where
  view_count-answer :
      (v : View) (s : Session)
      → view_count post_slug (answer window v s).1.db
        ≡ view_count post_slug s.db + gain_of post_slug v (answer window v s).0
  view_count-answer v s = elim (Result-cases (answer window v s).0) [
    | inl (counted, e) ↦ rw e (
        view_count-count_view post_slug v window s.now s.db _ {counted = counted} (
          unfold record_view in
          (Means-modify (count_view v.key.0 v.key.1 v.counted_at window)).sound s counted e))
    | inr (failure, e) ↦
        let same : (answer window v s).1.db ≡ s.db =
          unfold record_view in db-modify (count_view v.key.0 v.key.1 v.counted_at window) s e in
        rw (e, same) (ground arith)
  ]

  -- The session after a sequence of requests, and how many of them were answered as counted for the post.
  unfoldable pub after : List View → Session → Session
  after [] s = s
  after (v ∷ vs) s = after vs (answer window v s).1

  unfoldable pub counted_for : List View → Session → ℕ
  counted_for [] s = 0
  counted_for (v ∷ vs) s =
      gain_of post_slug v (answer window v s).0 + counted_for vs (answer window v s).1

  -- After any requests to record views, of any visitors and posts and with any failures, the total of a post has
  -- grown by exactly the number of requests for it that were answered as counted.
  pub view_count-after :
      (vs : List View) (s : Session)
      → view_count post_slug (after vs s).db ≡ view_count post_slug s.db + counted_for vs s
  unfolding after counted_for
  view_count-after [] s = omega arith
  view_count-after (v ∷ vs) s =
      ground (arith, view_count-answer v s, view_count-after vs (answer window v s).1)
