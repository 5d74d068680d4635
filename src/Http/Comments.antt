-- ===== src/Http/Comments.antt =====
-- internal/httpapi/comments.go: the public comment handlers, over the comment service. What the
-- standard library makes of the request comes as values: the media type, the decoded body, the
-- query parameters.
pub mod Laws
pub mod Paging
use portfolio_backend.Base.{
  ℕ, List, [], ◌∷◌, Bool, true, false, not, ◌&&◌, ◌||◌, Option, none, some, length, map, ◌==◌,
  if◌then◌else◌,
}
use portfolio_backend.Base.Int.{ℤ, pos, eq_ℤ}
use portfolio_backend.Base.Text.{Text, bytes, text_eq}
use portfolio_backend.Errors.{Error, Result, ok, err}
use portfolio_backend.Limiter.{VisitorHash, Instant}
use portfolio_backend.Database.{Comment, Exec}
use portfolio_backend.Comments.Store.{CreateInput}
use portfolio_backend.Http.{
  CommentResponse, Body, nothing, comment, comment_list, Response, write_error, write_json,
  no_content, World, Handler, ask_limiter, call,
}
use portfolio_backend.Http.Parameters.{optional_positive}

-- CommentService
pub record CommentService : Type 0 where
  pub create : CreateInput → Exec Comment
  pub list_visible : Text → ℤ → ℤ → Exec (List Comment)

abbrev pub public_comment : Comment → CommentResponse
public_comment c = record {
  id = c.id;
  author_name = c.author_name;
  body = c.body;
  created_at = c.created_at;
}

unfoldable pub handle_error : Error → Response
handle_error Error.invalid_slug = write_error 400 (bytes "invalid_request")
handle_error Error.invalid_author = write_error 400 (bytes "invalid_request")
handle_error Error.invalid_body = write_error 400 (bytes "invalid_request")
handle_error Error.invalid_cursor = write_error 400 (bytes "invalid_request")
handle_error Error.content_not_found = write_error 404 (bytes "post_not_found")
handle_error Error.comments_disabled = write_error 404 (bytes "comments_disabled")
handle_error Error.unavailable = write_error 404 (bytes "comments_disabled")
handle_error Error.post_full = write_error 409 (bytes "comment_limit_reached")
handle_error _ = write_error 500 (bytes "internal_error")

abbrev pub last_id : List Comment → Option ℕ
last_id [] = none
last_id (c ∷ []) = some c.id
last_id (c ∷ d ∷ rest) = last_id (d ∷ rest)

-- len(values) > 0 && (limit == 0 || len(values) == limit)
unfoldable pub next_before_id : ℤ → List Comment → Option ℕ
next_before_id limit values =
    if not (length values == 0) && (eq_ℤ limit (pos 0) || eq_ℤ (pos (length values)) limit)
    then last_id values
    else none

abbrev pub list_answer : ℤ → Result (List Comment) → Response
list_answer limit (ok values) =
    write_json 200 (comment_list (map public_comment values) (next_before_id limit values))
list_answer limit (err e) = handle_error e

-- CommentHandler.List of the slug and the two query parameters
unfoldable pub list : CommentService → Text → Text → Text → Handler
list service slug before_id limit w = elim (optional_positive before_id) [
  | none ↦ (write_error 400 (bytes "invalid_cursor"), w)
  | some cursor ↦ elim (optional_positive limit) [
    | none ↦ (write_error 400 (bytes "invalid_cursor"), w)
    | some size ↦ call (service.list_visible slug cursor size) (list_answer size) w
  ]
]

pub record Payload : Type 0 where
  pub author_name : Text
  pub body : Text
  pub website : Text

-- What decoding the bounded body gives: a value that is all of it, or an error.
pub data Decoded : Type 0 where
  payload : Payload → Decoded
  too_large malformed : Decoded

-- A comment request: mime.ParseMediaType, the decoded body, the slug, the visitor that the client
-- address and the user agent give, if there is an address, and the time.
pub record CreateRequest : Type 0 where
  pub media_type : Option Text
  pub decoded : Decoded
  pub slug : Text
  pub visitor : Option VisitorHash
  pub now : Instant

abbrev pub is_json : Option Text → Bool
is_json none = false
is_json (some media_type) = text_eq media_type (bytes "application/json")

abbrev pub create_answer : Result Comment → Response
create_answer (ok c) = write_json 201 (comment (public_comment c))
create_answer (err e) = handle_error e

abbrev pub create_input : Text → Payload → VisitorHash → CreateInput
create_input slug p visitor = record {
  post_slug = slug;
  author_name = p.author_name;
  body = p.body;
  visitor_hash = visitor;
}

-- From the limiter on.
unfoldable pub submit : CommentService → CreateRequest → Payload → VisitorHash → Handler
submit service request p visitor w =
    let (allowed, limiter) = ask_limiter visitor request.now w.limiter in
    let w' : World = record w { limiter = limiter } in
    if not allowed
    then (write_error 429 (bytes "rate_limited"), w')
    else call (service.create (create_input request.slug p visitor)) create_answer w'

unfoldable pub with_payload : CommentService → CreateRequest → Payload → Handler
with_payload service request p w =
    if not (text_eq p.website []) then (no_content, w) else elim request.visitor [
      | none ↦ (write_error 500 (bytes "internal_error"), w)
      | some visitor ↦ submit service request p visitor w
    ]

-- CommentHandler.Create
unfoldable pub create : CommentService → CreateRequest → Handler
create service request w =
    if not (is_json request.media_type)
    then (write_error 415 (bytes "unsupported_media_type"), w)
    else elim request.decoded [
      | too_large ↦ (write_error 413 (bytes "request_too_large"), w)
      | malformed ↦ (write_error 400 (bytes "malformed_json"), w)
      | payload p ↦ with_payload service request p w
    ]
