-- ===== src/Reactions/Store.antt =====
-- internal/reactions/postgres: reactions.go and views.go. Each call is one statement. The
-- reference of post_likes and of post_view_visitors to content_items is checked by the server.
use portfolio_backend.Base.{
  ℕ, ◌+◌, ◌/◌, List, [], ◌∷◌, Bool, true, false, not, ◌&&◌, Option, none, some, length, filter, any,
  ◌==◌, if◌then◌else◌,
}
use portfolio_backend.Base.Int.{ℤ, pos, negsuc, sub_ℕ, leb_ℤ, pos_part, neg_part}
use portfolio_backend.Base.Text.{Text, text_eq}
use portfolio_backend.Base.Assoc.{lookup, insert, text_key}
use portfolio_backend.Errors.{Result, ok, err, internal}
use portfolio_backend.Limiter.{VisitorHash, Instant}
use portfolio_backend.Database.{ContentItem, Db, Exec, query, modify}
use portfolio_backend.Reactions.Services.{Stats}

-- The rows of post_likes and the keys of post_view_visitors: (post_slug, visitor_hash).
abbrev pub Key : Type 0
Key = Text × VisitorHash

abbrev pub key_eq : Key → Key → Bool
key_eq a b = text_eq a.0 b.0 && a.1 == b.1

unfoldable pub referenced : Option ContentItem → Bool
referenced none = false
referenced (some row) = true

-- INSERT ... ON CONFLICT DO NOTHING, and whether a row was inserted.
unfoldable pub insert_like : Key → Instant → Db → Result (Bool × Db)
insert_like key now db =
    if not (referenced (lookup key.0 db.content_items))
    then err internal
    else if any (key_eq key) db.post_likes
    then ok (false, db)
    else ok (true, record db { post_likes = key ∷ db.post_likes })

unfoldable pub add_like : Text → VisitorHash → Exec Bool
add_like post_slug visitor_hash = modify (insert_like (post_slug, visitor_hash))

-- DELETE, and whether a row was deleted.
unfoldable pub delete_like : Key → Instant → Db → Result (Bool × Db)
delete_like key now db = ok (
  any (key_eq key) db.post_likes,
  record db { post_likes = filter (λ k. not (key_eq key k)) db.post_likes },
)

unfoldable pub remove_like : Text → VisitorHash → Exec Bool
remove_like post_slug visitor_hash = modify (delete_like (post_slug, visitor_hash))

-- COALESCE(view_count, 0)
unfoldable pub view_count : Text → Db → ℕ
view_count post_slug db = elim (lookup post_slug db.post_stats) [ none ↦ 0 | some n ↦ n ]

unfoldable pub like_count : Text → Db → ℕ
like_count post_slug db = length (filter (λ k. text_eq k.0 post_slug) db.post_likes)

unfoldable pub get_stats : Text → Exec Stats
get_stats post_slug =
    query (λ db. record { views = view_count post_slug db; likes = like_count post_slug db })

unfoldable pub count : Text → Exec ℕ
count post_slug = query (view_count post_slug)

-- last_counted_at of a visitor of a post, in microseconds
unfoldable pub last_counted : Key → List (Key × ℕ) → Option ℕ
last_counted key [] = none
last_counted key ((k, t) ∷ rest) = if key_eq key k then some t else last_counted key rest

unfoldable pub set_counted : Key → ℕ → List (Key × ℕ) → List (Key × ℕ)
set_counted key now [] = (key, now) ∷ []
set_counted key now ((k, t) ∷ rest) =
    if key_eq key k then (k, now) ∷ rest else (k, t) ∷ set_counted key now rest

-- pgx stores a time in microseconds, and rounds down.
unfoldable pub microseconds : ℤ → ℤ
microseconds (pos n) = pos (n / 1000)
microseconds (negsuc n) = negsuc (n / 1000)

-- countedAt.Add(-window)
abbrev pub cutoff : ℤ → Instant → ℤ
cutoff window counted_at = sub_ℕ (counted_at + neg_part window) (pos_part window)

-- last_counted_at <= cutoff, both in microseconds
unfoldable pub window_over : ℤ → Instant → ℕ → Bool
window_over window counted_at last = leb_ℤ (pos last) (microseconds (cutoff window counted_at))

-- Whether the statement counts the view: the row is new, or its window is over.
unfoldable pub counts : ℤ → Instant → Option ℕ → Bool
counts window counted_at none = true
counts window counted_at (some last) = window_over window counted_at last

unfoldable pub count_view : Text → VisitorHash → Instant → ℤ → Instant → Db → Result (Bool × Db)
count_view post_slug visitor_hash counted_at window now db =
    let key : Key = (post_slug, visitor_hash) in
    if not (referenced (lookup post_slug db.content_items))
    then err internal
    else if counts window counted_at (last_counted key db.post_view_visitors)
    then ok (
      true,
      record db {
        post_view_visitors = set_counted key (counted_at / 1000) db.post_view_visitors;
        post_stats = insert post_slug (view_count post_slug db + 1) db.post_stats;
      },
    )
    else ok (false, db)

unfoldable pub record_view : Text → VisitorHash → Instant → ℤ → Exec Bool
record_view post_slug visitor_hash counted_at window =
    modify (count_view post_slug visitor_hash counted_at window)
