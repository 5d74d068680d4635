-- ===== src/Http/Reactions.antt =====
-- internal/httpapi/reactions.go and views.go: likes, views and stats over their services.
use portfolio_backend.Base.{Bool, not, Option, none, some, if◌then◌else◌}
use portfolio_backend.Base.Text.{Text, bytes}
use portfolio_backend.Errors.{Error, Result, ok, err}
use portfolio_backend.Limiter.{VisitorHash, Instant}
use portfolio_backend.Database.{Exec}
use portfolio_backend.Reactions.Services.{Stats}
use portfolio_backend.Http.{
  stats, Response, write_error, write_json, no_content, World, Handler, ask_limiter, call,
}

-- The slug, the visitor that the client address and the user agent give, if there is an address,
-- and the time.
pub record ReactionRequest : Type 0 where
  pub slug : Text
  pub visitor : Option VisitorHash
  pub now : Instant

-- LikeApplication and ViewService have operations of this type.
abbrev pub Operation : Type 0
Operation = Text → VisitorHash → Exec Bool

unfoldable pub handle_error : Error → Response
handle_error Error.invalid_slug = write_error 400 (bytes "invalid_request")
handle_error Error.content_not_found = write_error 404 (bytes "post_not_found")
handle_error _ = write_error 500 (bytes "internal_error")

abbrev pub reaction_answer : Result Bool → Response
reaction_answer (ok changed) = no_content
reaction_answer (err e) = handle_error e

-- ReactionHandler.setLikeState
unfoldable pub set_like_state : Operation → ReactionRequest → Handler
set_like_state operation request w = elim request.visitor [
  | none ↦ (write_error 500 (bytes "internal_error"), w)
  | some visitor ↦
      let (allowed, limiter) = ask_limiter visitor request.now w.limiter in
      let w' : World = record w { limiter = limiter } in
      if not allowed
      then (write_error 429 (bytes "rate_limited"), w')
      else call (operation request.slug visitor) reaction_answer w'
]

-- LikeApplication
pub record LikeApplication : Type 0 where
  pub like : Operation
  pub unlike : Operation

-- ReactionHandler.Like and Unlike
unfoldable pub like : LikeApplication → ReactionRequest → Handler
like service request w = set_like_state service.like request w

unfoldable pub unlike : LikeApplication → ReactionRequest → Handler
unlike service request w = set_like_state service.unlike request w

-- ViewHandler.Record, whose steps and answers are those of the likes
unfoldable pub record_view : Operation → ReactionRequest → Handler
record_view operation request w = set_like_state operation request w

abbrev pub stats_answer : Result Stats → Response
stats_answer (ok s) = write_json 200 (stats s.views s.likes)
stats_answer (err e) = handle_error e

-- ReactionHandler.Stats
unfoldable pub get_stats : (Text → Exec Stats) → Text → Handler
get_stats service slug w = call (service slug) stats_answer w
