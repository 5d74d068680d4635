-- ===== src/Content/Service.antt =====
-- internal/content/content.go: the checks that every dynamic feature makes of a slug. The store
-- that they ask is a parameter, as `Store` is an interface there.
use portfolio_backend.Base.{Bool, not, if◌then◌else◌}
use portfolio_backend.Base.Text.{Text}
use portfolio_backend.Errors.{invalid_slug, content_not_found, comments_disabled}
use portfolio_backend.Database.{Exec, ◌>>=◌, pure, fail}
use portfolio_backend.Content.Identifier.{valid_slug}

pub record State : Type 0 where
  pub published : Bool
  pub comments_enabled : Bool

module _ (content_state : Text → Exec State) where
  unfoldable pub require_published_content : Text → Exec (Unit {0})
  require_published_content slug = if not (valid_slug slug) then fail invalid_slug else do
    state ← content_state slug
    if not state.published then fail content_not_found else pure tt

  unfoldable pub require_comments_enabled : Text → Exec (Unit {0})
  require_comments_enabled slug = if not (valid_slug slug) then fail invalid_slug else do
    state ← content_state slug
    if not state.published
        then fail content_not_found
        else if not state.comments_enabled
        then fail comments_disabled
        else pure tt
