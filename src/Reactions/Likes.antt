-- ===== src/Reactions/Likes.antt =====
-- Likes as a set of visitors per post: desired-state operations, and the total that is shown.
use portfolio_backend.Base.{
  bool_eq, ◌↔◌, ℕ, ◌+◌, ◌≡◌, refl, List, [], ◌∷◌, Bool, true, false, not, ◌&&◌, length, filter, any,
  ==_iff, arith, if◌then◌else◌,
}
use portfolio_backend.Base.Text.{Text, text_eq, text_eq_iff}
use portfolio_backend.Errors.{ok}
use portfolio_backend.Limiter.{VisitorHash, Instant}
use portfolio_backend.Database.{Db, Session}
use portfolio_backend.Database.Meaning.{Means-modify}
use portfolio_backend.Reactions.Store.{
  Key, key_eq, insert_like, add_like, delete_like, remove_like, like_count,
}

pub key_eq_iff : (a b : Key) → (key_eq a b ≡ true) ↔ (a ≡ b)
key_eq_iff a b = ground (arith, text_eq_iff a.0 b.0, ==_iff a.1 b.1)

-- whether the visitor likes the post
abbrev pub likes : Key → Db → Bool
likes key db = any (key_eq key) db.post_likes

-- The primary key of post_likes.
abbrev pub DistinctKeys : List Key → Type 0
DistinctKeys [] = Unit
DistinctKeys (k ∷ ks) = (any (key_eq k) ks ≡ false) × DistinctKeys ks

-- A desired state, what was changed to reach it, and what it leaves alone.
pub record Reached (key : Key) (desired changed : Bool) (before after : Db) : Type 0 where
  pub state : likes key after ≡ desired
  pub changed_iff : changed ≡ not (bool_eq (likes key before) desired)
  pub others : (k : Key) → key_eq key k ≡ false → likes k after ≡ likes k before
  pub distinct : DistinctKeys before.post_likes → DistinctKeys after.post_likes
  pub count :
      (post_slug : Text)
      → DistinctKeys before.post_likes
      → like_count post_slug after
          + (if changed && not desired && text_eq key.0 post_slug then 1 else 0)
        ≡ like_count post_slug before
          + (if changed && desired && text_eq key.0 post_slug then 1 else 0)

any-filter_ne :
    (key k : Key) (ks : List Key)
    → key_eq key k ≡ false
    → any (key_eq k) (filter (λ x. not (key_eq key x)) ks) ≡ any (key_eq k) ks
any-filter_ne key k [] h = refl
any-filter_ne key k (x ∷ ks) h =
    ground (arith, key_eq_iff key k, key_eq_iff key x, key_eq_iff k x, any-filter_ne key k ks)

not-any-filter :
    (key : Key) (ks : List Key) → any (key_eq key) (filter (λ x. not (key_eq key x)) ks) ≡ false
not-any-filter key [] = refl
not-any-filter key (x ∷ ks) = ground (arith, not-any-filter key ks)

any-filter-false :
    (key k : Key) (ks : List Key)
    → any (key_eq k) ks ≡ false
    → any (key_eq k) (filter (λ x. not (key_eq key x)) ks) ≡ false
any-filter-false key k [] h = refl
any-filter-false key k (x ∷ ks) h = ground (arith, any-filter-false key k ks)

filter-DistinctKeys :
    (key : Key) (ks : List Key)
    → DistinctKeys ks
    → DistinctKeys (filter (λ x. not (key_eq key x)) ks)
filter-DistinctKeys key [] d = tt
filter-DistinctKeys key (x ∷ ks) d =
    ground (arith, any-filter-false key x ks, filter-DistinctKeys key ks d.1)

of_post : Text → List Key → ℕ
of_post post_slug ks = length (filter (λ k. text_eq k.0 post_slug) ks)

filter_absent :
    (key : Key) (ks : List Key)
    → any (key_eq key) ks ≡ false
    → filter (λ x. not (key_eq key x)) ks ≡ ks
filter_absent key [] h = refl
filter_absent key (x ∷ ks) h = ground (arith, filter_absent key ks)

count-filter :
    (key : Key) (post_slug : Text) (ks : List Key)
    → DistinctKeys ks
    → of_post post_slug (filter (λ x. not (key_eq key x)) ks)
        + (if any (key_eq key) ks && text_eq key.0 post_slug then 1 else 0)
      ≡ of_post post_slug ks
unfolding of_post
count-filter key post_slug [] d = omega arith
count-filter key post_slug (x ∷ ks) d =
    ground (arith, key_eq_iff key x, filter_absent key ks, count-filter key post_slug ks d.1)

insert_like-Reached :
    (key : Key) (now : Instant) (db after : Db) {changed : Bool}
    → insert_like key now db ≡ ok (changed, after)
    → Reached key true changed db after
insert_like-Reached key now db after h = record {
  state = unfold insert_like in ground (arith, key_eq_iff key key);
  changed_iff = unfold insert_like in ground arith;
  others = λ k ne. unfold insert_like in ground (arith, key_eq_iff key k, key_eq_iff k key);
  distinct = λ d. unfold insert_like in ground arith;
  count = λ post_slug d. unfold insert_like like_count in ground arith;
}

delete_like-Reached :
    (key : Key) (now : Instant) (db after : Db) {changed : Bool}
    → delete_like key now db ≡ ok (changed, after)
    → Reached key false changed db after
delete_like-Reached key now db after h = record {
  state = unfold delete_like in ground (arith, not-any-filter key db.post_likes);
  changed_iff = unfold delete_like in ground arith;
  others = λ k ne. unfold delete_like in ground (arith, any-filter_ne key k db.post_likes ne);
  distinct = λ d. unfold delete_like in ground (arith, filter-DistinctKeys key db.post_likes d);
  count = λ post_slug d.
      unfold delete_like like_count of_post in
      ground (arith, count-filter key post_slug db.post_likes d);
}

-- A successful AddLike leaves the visitor liking the post, reports a change exactly if it did not
-- before, touches no other visitor or post, keeps one row a visitor and post, and raises the
-- post's total by one exactly if it reports a change.
pub add_like-Reached :
    (post_slug : Text) (visitor_hash : VisitorHash) (s : Session) {changed : Bool}
    → (add_like post_slug visitor_hash s).0 ≡ ok changed
    → Reached (post_slug, visitor_hash) true changed s.db (add_like post_slug visitor_hash s).1.db
unfolding add_like
add_like-Reached post_slug visitor_hash s {changed = changed} h =
    insert_like-Reached (post_slug, visitor_hash) s.now s.db _ {changed = changed}
      ((Means-modify (insert_like (post_slug, visitor_hash))).sound s changed h)

-- A successful RemoveLike leaves the visitor not liking the post, reports a change exactly if it
-- did before, touches no other visitor or post, and lowers the post's total by one exactly if it
-- reports a change.
pub remove_like-Reached :
    (post_slug : Text) (visitor_hash : VisitorHash) (s : Session) {changed : Bool}
    → (remove_like post_slug visitor_hash s).0 ≡ ok changed
    → Reached
        (post_slug, visitor_hash)
        false
        changed
        s.db
        (remove_like post_slug visitor_hash s).1.db
unfolding remove_like
remove_like-Reached post_slug visitor_hash s {changed = changed} h =
    delete_like-Reached (post_slug, visitor_hash) s.now s.db _ {changed = changed}
      ((Means-modify (delete_like (post_slug, visitor_hash))).sound s changed h)
