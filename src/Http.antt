-- ===== src/Http.antt =====
-- internal/httpapi: the answers that handlers write, and the state that they work on.
pub mod ClientIp
pub mod Parameters
pub mod Comments
pub mod Reactions
pub mod Admin
pub mod Health
pub mod Router
pub mod Logging
use portfolio_backend.Base.{true, ℕ, List, [], Bool, Option, none, some}
use portfolio_backend.Base.Text.{Text}
use portfolio_backend.Errors.{Result}
use portfolio_backend.Limiter.{VisitorHash, Instant, Limiter, allow}
use portfolio_backend.Database.{Comment, Status, Session, Exec}

-- commentResponse
pub record CommentResponse : Type 0 where
  pub id : ℕ
  pub author_name : Text
  pub body : Text
  pub created_at : Instant

-- The bodies that the handlers encode; an error has its code.
pub data Body : Type 0 where
  nothing : Body
  error : Text → Body
  comment : CommentResponse → Body
  comment_list : List CommentResponse → Option ℕ → Body
  moderation_comment : Comment → Body
  moderation_list : List Comment → Option ℕ → Body
  stats : ℕ → ℕ → Body
  health : Text → Body
  plain_text : Text → Body

pub record Response : Type 0 where
  pub status : ℕ
  pub body : Body

abbrev pub write_error : ℕ → Text → Response
write_error status code = record { status = status; body = error code }

abbrev pub write_json : ℕ → Body → Response
write_json status body = record { status = status; body = body }

abbrev pub no_content : Response
no_content = record { status = 204; body = nothing }

-- What a handler works on: the database session, and its own limiter if it has one.
pub record World : Type 0 where
  pub session : Session
  pub limiter : Option Limiter

abbrev pub Handler : Type 0
Handler = World → Response × World

-- handler.limiter != nil && !handler.limiter.Allow(visitorHash, time.Now())
unfoldable pub ask_limiter : VisitorHash → Instant → Option Limiter → Bool × Option Limiter
ask_limiter visitor now none = (true, none)
ask_limiter visitor now (some l) = let (allowed, l') = allow visitor now l in (allowed, some l')

-- A call of a service: the answer is written from its result, and the session goes on.
abbrev pub call {ℓ} : {A : Type ℓ} → Exec A → (Result A → Response) → Handler
call m answer w = (answer (m w.session).0, record w { session = (m w.session).1 })
