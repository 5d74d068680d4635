-- ===== src/App/Wiring.antt =====
-- internal/app/app.go: Run, as far as it builds services and handlers from the configuration. The
-- services over the stores are the same functions for any session.
use portfolio_backend.Http.Router.{FeatureHandlers, Route, application_routes, feature_routes}
use portfolio_backend.Base.{true, ◌*◌, List}
use portfolio_backend.Base.Int.{ℤ, pos}
use portfolio_backend.Base.Text.{Text}
use portfolio_backend.Limiter.{Limiter, new_limiter, Instant}
use portfolio_backend.Database.{Exec}
use portfolio_backend.Content.Registry.{content_state}
use portfolio_backend.Content.Service.{require_published_content, require_comments_enabled}
use portfolio_backend.Comments.Service
use portfolio_backend.Comments.Service.{Limits, ModerationStore}
use portfolio_backend.Comments.Service.Posting.{comment_store}
use portfolio_backend.Reactions.Services.{Stats}
use portfolio_backend.Reactions.Services
use portfolio_backend.Reactions.Store.{add_like, remove_like, get_stats, record_view}
use portfolio_backend.Config.{Config}
use portfolio_backend.Config.Load.{second}
use portfolio_backend.Http.Comments.{CommentService}
use portfolio_backend.Http.Reactions.{LikeApplication, Operation}
use portfolio_backend.Http.Admin.{AdminCommentService}
use portfolio_backend.Http.Admin.Access.{moderation_store}
use portfolio_backend.AdminAuth.Claims.{Verifier}
use portfolio_backend.AdminAuth.Keys.{JwksCache, new_jwks_cache}

abbrev pub minute : ℤ
minute = pos (60 * second)

-- time.Hour
abbrev pub key_ttl : ℤ
key_ttl = pos (3600 * second)

module _ {Prefix : Type 0} (c : Config Prefix) where
  abbrev pub comment_limits : Limits
  comment_limits = record {
    max_author_chars = c.comments.max_author_chars;
    max_comment_chars = c.comments.max_comment_chars;
    max_comments_per_post = c.comments.max_comments_per_post;
    default_page_size = c.comments.default_page_size;
    maximum_page_size = c.comments.maximum_page_size;
  }

  abbrev pub comment_limiter : Limiter
  comment_limiter = new_limiter c.rates.comments_per_minute minute c.rates.max_keys_per_limiter

  abbrev pub view_limiter : Limiter
  view_limiter = new_limiter c.rates.reads_per_minute minute c.rates.max_keys_per_limiter

  abbrev pub like_limiter : Limiter
  like_limiter = new_limiter c.rates.likes_per_minute minute c.rates.max_keys_per_limiter

  unfoldable pub comment_service : CommentService
  comment_service = record {
    create = Service.create comment_store (require_comments_enabled content_state) comment_limits;
    list_visible =
        Service.list_visible comment_store (require_comments_enabled content_state) comment_limits;
  }

  unfoldable pub moderation_service : AdminCommentService
  moderation_service = record {
    list = Service.list moderation_store comment_limits;
    hide = Service.hide moderation_store comment_limits;
    unhide = Service.unhide moderation_store comment_limits;
  }

  -- `clock` is the time of the call.
  unfoldable pub view_operation : Instant → Operation
  view_operation clock =
      Services.record_view (require_published_content content_state) record_view
        c.views.deduplication_window clock

  abbrev pub access_verifier : (Text → Text) → Verifier
  access_verifier to_lower = record {
    issuer = c.access.team_domain;
    audience = c.access.audience;
    admin_email = to_lower c.access.admin_email;
  }

unfoldable pub like_application : LikeApplication
like_application = record {
  like =
      Services.like (require_published_content content_state)
        (record { add_like = add_like; remove_like = remove_like });
  unlike =
      Services.unlike (require_published_content content_state)
        (record { add_like = add_like; remove_like = remove_like });
}

unfoldable pub stats_application : Text → Exec Stats
stats_application = Services.get (require_published_content content_state) get_stats

-- NewJWKSCache of the verifier
abbrev pub access_keys : JwksCache
access_keys = new_jwks_cache key_ttl

-- The FeatureHandlers of Run.
abbrev pub features : FeatureHandlers
features = record {
  has_client_ip = true;
  has_admin_access = true;
  has_admin_comments = true;
  has_comments = true;
  has_views = true;
  has_reactions = true;
}

-- The routes of the server.
unfoldable pub routes : List Route
routes = application_routes (feature_routes features)
