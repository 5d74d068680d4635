-- ===== src/Reactions/Views.antt =====
-- The rolling window of views: two counted views of one visitor of a post are a window apart.
use mathlib.Core.Path.{◌∙◌, ap, subst}
use portfolio_backend.Base.{
  ◌≢◌, ℕ, ◌+◌, ◌*◌, ◌/◌, ◌≤◌, ◌≡◌, refl, List, [], ◌∷◌, Bool, true, false, Option, none, some,
  arith, if◌then◌else◌, inl, inr, Bool-cases,
}
use portfolio_backend.Base.Int.{ℤ, pos}
use portfolio_backend.Base.Assoc.{text_key}
use portfolio_backend.Errors.{Result, ok, err}
use portfolio_backend.Limiter.{Instant}
use portfolio_backend.Database.{Db, Session}
use portfolio_backend.Database.Effects.{db-modify}
use portfolio_backend.Database.Meaning.{Means-modify}
use portfolio_backend.Reactions.Store.{
  Key, key_eq, last_counted, set_counted, window_over, microseconds, counts, count_view,
  record_view,
}
use portfolio_backend.Reactions.Likes.{key_eq_iff}

last_counted-set :
    (key k : Key) (now : ℕ) (m : List (Key × ℕ))
    → last_counted k (set_counted key now m) ≡ (if key_eq key k then some now else last_counted k m)
unfolding last_counted set_counted
last_counted-set key k now [] = ground (arith, key_eq_iff key k, key_eq_iff k key)
last_counted-set key k now ((j, t) ∷ m) = ground (
  arith,
  key_eq_iff key k,
  key_eq_iff k key,
  key_eq_iff key j,
  key_eq_iff k j,
  last_counted-set key k now m,
)

-- a request to record a view, at the application's time
pub record View : Type 0 where
  pub key : Key
  pub counted_at : Instant

module _ (window : ℤ) where
  -- the answer of one request, and the session after it
  abbrev pub answer : View → Session → Result Bool × Session
  answer v = record_view v.key.0 v.key.1 v.counted_at window

  abbrev counted_time : Result Bool → Instant → List Instant → List Instant
  counted_time (ok true) t ts = t ∷ ts
  counted_time (ok false) t ts = ts
  counted_time (err e) t ts = ts

  -- The times at which the views of a visitor of a post are counted, over a sequence of requests
  -- of any visitors and posts.
  unfoldable pub counted_times : Key → List View → Session → List Instant
  counted_times key [] s = []
  counted_times key (v ∷ vs) s =
      let rest = counted_times key vs (answer v s).1 in
      if key_eq v.key key then counted_time (answer v s).0 v.counted_at rest else rest

-- Each time is a window or more after the one before it, rounded down to a microsecond, or, for the first, after the
-- last one that is stored.
abbrev pub Spaced : ℕ → Option ℕ → List Instant → Type 0
Spaced w last [] = Unit
Spaced w none (t ∷ ts) = Spaced w (some (t / 1000)) ts
Spaced w (some last) (t ∷ ts) = (last * 1000 + w ≤ t) × Spaced w (some (t / 1000)) ts

-- What one request has done, by its answer.
record Answered (w : ℕ) (v : View) (r : Result Bool) (before after : Db) : Type 0 where
  spaced :
      r ≡ ok true
      → counts (pos w) v.counted_at (last_counted v.key before.post_view_visitors) ≡ true
  recorded :
      r ≡ ok true
      → after.post_view_visitors ≡ set_counted v.key (v.counted_at / 1000) before.post_view_visitors
  ignored : r ≢ ok true → after.post_view_visitors ≡ before.post_view_visitors

answer-Answered :
    (w : ℕ) (v : View) (s : Session)
    → Answered w v (answer (pos w) v s).0 s.db (answer (pos w) v s).1.db
answer-Answered w v s = go (answer (pos w) v s).0 refl
  where
    go :
        (r : Result Bool)
        → (answer (pos w) v s).0 ≡ r
        → Answered w v (answer (pos w) v s).0 s.db (answer (pos w) v s).1.db
    go (ok b) e =
        let k : count_view v.key.0 v.key.1 v.counted_at (pos w) s.now s.db
            ≡ ok (b, (answer (pos w) v s).1.db) =
          unfold record_view in
          (Means-modify (count_view v.key.0 v.key.1 v.counted_at (pos w))).sound s b e in
        unfold count_view in
        record {
          spaced = λ q. ground (arith, k, e);
          recorded = λ q. ground (arith, k, e);
          ignored = λ q. ground (arith, k, e);
        }
    go (err x) e =
        let k : (answer (pos w) v s).1.db ≡ s.db =
          unfold record_view in db-modify (count_view v.key.0 v.key.1 v.counted_at (pos w)) s e in
        record { spaced = λ q. cc; recorded = λ q. cc; ignored = λ q. rw k }

Spaced-none : (w : ℕ) (o : Option ℕ) → Spaced w o []
Spaced-none w none = tt
Spaced-none w (some t) = tt

Spaced-cons :
    (w : ℕ) (last : Option ℕ) (t : Instant) (ts : List Instant)
    → counts (pos w) t last ≡ true
    → Spaced w (some (t / 1000)) ts
    → Spaced w last (t ∷ ts)
unfolding counts window_over microseconds
Spaced-cons w none t ts h s = s
Spaced-cons w (some last) t ts h s = (ground arith, s)

-- One request in front of a sequence.
module _ (w : ℕ) (key : Key) (v : View) (before after : Db) (rest : List Instant) where
  unchanged :
      last_counted key after.post_view_visitors ≡ last_counted key before.post_view_visitors
      → Spaced w (last_counted key after.post_view_visitors) rest
      → Spaced w
          (last_counted key before.post_view_visitors)
          (if key_eq v.key key then rest else rest)
  unchanged e ih = elim (Bool-cases (key_eq v.key key)) [
    | inl own ↦ rw own (subst (λ o. Spaced w o rest) e ih)
    | inr other ↦ rw other (subst (λ o. Spaced w o rest) e ih)
  ]

  Spaced-step :
      (r : Result Bool)
      → Answered w v r before after
      → Spaced w (last_counted key after.post_view_visitors) rest
      → Spaced w
          (last_counted key before.post_view_visitors)
          (if key_eq v.key key then counted_time (pos w) r v.counted_at rest else rest)
  Spaced-step (ok true) a ih =
      let set = last_counted-set v.key key (v.counted_at / 1000) before.post_view_visitors in
      let now = ap (last_counted key) (a.recorded refl) in
      elim (Bool-cases (key_eq v.key key)) [
        | inl own ↦
            let same : v.key ≡ key = (key_eq_iff v.key key).0 own in
            rw own (
              Spaced-cons w (last_counted key before.post_view_visitors) v.counted_at rest
                (rw same at (a.spaced refl)) (subst (λ o. Spaced w o rest) (now ∙ set ∙ rw own) ih))
        | inr other ↦ rw other (subst (λ o. Spaced w o rest) (now ∙ set ∙ rw other) ih)
      ]
  Spaced-step (ok false) a ih = unchanged (ap (last_counted key) (a.ignored (λ q. cc))) ih
  Spaced-step (err x) a ih = unchanged (ap (last_counted key) (a.ignored (λ q. cc))) ih

-- Whatever requests are made, of whatever visitors, in whatever order and with whatever failures,
-- two counted views of one visitor of one post are at least the window apart, by the application's
-- time, where the earlier time is rounded down to the microsecond that the table stores; so is the
-- first of them from the time that is stored before.
pub views-Spaced :
    (w : ℕ) (key : Key) (vs : List View) (s : Session)
    → Spaced w (last_counted key s.db.post_view_visitors) (counted_times (pos w) key vs s)
unfolding counted_times
views-Spaced w key [] s = Spaced-none w (last_counted key s.db.post_view_visitors)
views-Spaced w key (v ∷ vs) s =
    Spaced-step w key v s.db (answer (pos w) v s).1.db
      (counted_times (pos w) key vs (answer (pos w) v s).1) (answer (pos w) v s).0
      (answer-Answered w v s) (views-Spaced w key vs (answer (pos w) v s).1)
