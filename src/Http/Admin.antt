-- ===== src/Http/Admin.antt =====
-- internal/httpapi/admin_comments.go and internal/httpapi/middleware/access.go: moderation behind
-- the Access assertion.
pub mod Access
use portfolio_backend.Base.{[], ℕ, List, Bool, Option, none, some, if◌then◌else◌}
use portfolio_backend.Base.Int.{ℤ, pos, leb_ℤ}
use portfolio_backend.Base.Text.{Text, bytes, text_eq}
use portfolio_backend.Errors.{Error, Result, ok, err}
use portfolio_backend.Database.{Comment, Exec}
use portfolio_backend.Comments.Store.{AuditContext}
use portfolio_backend.Http.{
  Body, moderation_comment, moderation_list, Response, write_error, write_json, World, Handler,
  call,
}
use portfolio_backend.AdminAuth.Claims.{Principal}
use portfolio_backend.Http.Parameters.{optional_positive}
use portfolio_backend.Base.Decimal.{parse_int, int64_bound}
use portfolio_backend.Http.Comments.{next_before_id}

-- AdminPrincipal of what the request's context holds
abbrev pub admin_principal : Option Principal → Option Principal
admin_principal none = none
admin_principal (some p) = if text_eq p.actor_id [] then none else some p

-- AdminCommentService
pub record AdminCommentService : Type 0 where
  pub list : Text → ℤ → ℤ → Exec (List Comment)
  pub hide : ℤ → AuditContext → Exec Comment
  pub unhide : ℤ → AuditContext → Exec Comment

unfoldable pub handle_error : Error → Response
handle_error Error.invalid_cursor = write_error 400 (bytes "invalid_request")
handle_error Error.invalid_status = write_error 400 (bytes "invalid_request")
handle_error Error.not_found = write_error 404 (bytes "comment_not_found")
handle_error Error.post_full = write_error 409 (bytes "comment_limit_reached")
handle_error Error.invalid_audit_actor = write_error 401 (bytes "unauthorized")
handle_error _ = write_error 500 (bytes "internal_error")

abbrev pub list_answer : ℤ → Result (List Comment) → Response
list_answer limit (ok values) =
    write_json 200 (moderation_list values (next_before_id limit values))
list_answer limit (err e) = handle_error e

abbrev pub moderation_answer : Result Comment → Response
moderation_answer (ok c) = write_json 200 (moderation_comment c)
moderation_answer (err e) = handle_error e

-- AdminCommentHandler.List of the context's principal and the query parameters
unfoldable pub list : AdminCommentService → Option Principal → Text → Text → Text → Handler
list service principal status before_id limit w = elim (admin_principal principal) [
  | none ↦ (write_error 401 (bytes "unauthorized"), w)
  | some p ↦ elim (optional_positive before_id) [
    | none ↦ (write_error 400 (bytes "invalid_cursor"), w)
    | some cursor ↦ elim (optional_positive limit) [
      | none ↦ (write_error 400 (bytes "invalid_cursor"), w)
      | some size ↦ call (service.list status cursor size) (list_answer size) w
    ]
  ]
]

-- The parsed path parameter, if it is positive.
unfoldable pub comment_id : Text → Option ℤ
comment_id value = elim (parse_int int64_bound value) [
  | none ↦ none
  | some n ↦ if leb_ℤ n (pos 0) then none else some n
]

-- AdminCommentHandler.setVisibility of the operation, the context's principal, the path parameter
-- and the request's identifier
unfoldable pub set_visibility :
    (ℤ → AuditContext → Exec Comment) → Option Principal → Text → Text → Handler
set_visibility operation principal id request_id w = elim (comment_id id) [
  | none ↦ (write_error 404 (bytes "comment_not_found"), w)
  | some n ↦ elim (admin_principal principal) [
    | none ↦ (write_error 401 (bytes "unauthorized"), w)
    | some p ↦
        call (operation n (record { actor_id = p.actor_id; request_id = request_id }))
          moderation_answer w
  ]
]

unfoldable pub hide : AdminCommentService → Option Principal → Text → Text → Handler
hide service principal id request_id w = set_visibility service.hide principal id request_id w

unfoldable pub unhide : AdminCommentService → Option Principal → Text → Text → Handler
unhide service principal id request_id w = set_visibility service.unhide principal id request_id w

-- Authenticate: the assertion header, the verifier, and the handler that it protects. A header
-- that is missing reads as "".
unfoldable pub authenticate :
    (Text → Result Principal) → Text → (Option Principal → Handler) → Handler
authenticate verify assertion next w =
    if text_eq assertion []
    then (write_error 401 (bytes "unauthorized"), w)
    else elim (verify assertion) [
      | err e ↦ (write_error 401 (bytes "unauthorized"), w)
      | ok principal ↦ next (some principal) w
    ]
