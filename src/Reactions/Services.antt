-- ===== src/Reactions/Services.antt =====
-- internal/reactions: likes.go, views.go and stats.go. The stores, the content registry and the
-- clock are interfaces there.
use portfolio_backend.Base.{ℕ, Bool}
use portfolio_backend.Base.Int.{ℤ}
use portfolio_backend.Base.Text.{Text}
use portfolio_backend.Limiter.{VisitorHash, Instant}
use portfolio_backend.Database.{Exec, ◌>>◌}

pub record LikeStore : Type 0 where
  pub add_like : Text → VisitorHash → Exec Bool
  pub remove_like : Text → VisitorHash → Exec Bool

pub record Stats : Type 0 where
  pub views : ℕ
  pub likes : ℕ

module _ (require_published_content : Text → Exec (Unit {0})) where
  unfoldable pub like : LikeStore → Text → VisitorHash → Exec Bool
  like store post_slug visitor_hash = do
    require_published_content post_slug
    store.add_like post_slug visitor_hash

  unfoldable pub unlike : LikeStore → Text → VisitorHash → Exec Bool
  unlike store post_slug visitor_hash = do
    require_published_content post_slug
    store.remove_like post_slug visitor_hash

  -- `clock` is the application's time at the call.
  unfoldable pub record_view :
      (Text → VisitorHash → Instant → ℤ → Exec Bool) → ℤ → Instant → Text → VisitorHash → Exec Bool
  record_view store deduplication_window clock post_slug visitor_hash = do
    require_published_content post_slug
    store post_slug visitor_hash clock deduplication_window

  unfoldable pub get : (Text → Exec Stats) → Text → Exec Stats
  get store post_slug = do require_published_content post_slug; store post_slug
