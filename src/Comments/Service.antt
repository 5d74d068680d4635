-- ===== src/Comments/Service.antt =====
-- internal/comments: comments.go and moderation.go, the services over a store and the content
-- registry, which are interfaces there.
pub mod Posting
use portfolio_backend.Base.{
  List, [], Bool, not, ◌&&◌, ◌||◌, Option, none, some, length, leb, if◌then◌else◌,
}
use portfolio_backend.Base.Int.{ℤ, pos, leb_ℤ, ltb_ℤ, eq_ℤ}
use portfolio_backend.Base.Text.{Text, bytes, text_eq}
use portfolio_backend.Base.Utf8.{rune_count, valid_string, trim_space}
use portfolio_backend.Errors.{
  invalid_author, invalid_body, invalid_cursor, invalid_status, invalid_audit_actor, not_found,
}
use portfolio_backend.Database.{Status, visible, hidden, Comment, Exec, ◌>>◌, fail}
use portfolio_backend.Comments.Store.{CreateInput, AuditContext}

pub record Limits : Type 0 where
  pub max_author_chars : ℤ
  pub max_comment_chars : ℤ
  pub max_comments_per_post : ℤ
  pub default_page_size : ℤ
  pub maximum_page_size : ℤ

-- comments.Store
pub record Store : Type 0 where
  pub create_visible_if_under_limit : CreateInput → ℤ → Exec Comment
  pub list_visible : Text → ℤ → ℤ → Exec (List Comment)

-- comments.ModerationStore
pub record ModerationStore : Type 0 where
  pub list_for_moderation : Option Status → ℤ → ℤ → Exec (List Comment)
  pub set_visibility : ℤ → Status → ℤ → AuditContext → Exec Comment

unfoldable pub valid_text : Text → ℤ → Bool
valid_text value maximum =
    not (text_eq value []) && valid_string value && leb_ℤ (pos (rune_count value)) maximum

unfoldable pub valid_audit_context : AuditContext → Bool
valid_audit_context audit =
    leb 1 (length audit.actor_id)
    && leb (length audit.actor_id) 255
    && leb (length audit.request_id) 128

abbrev pub page_request_ok : Limits → ℤ → ℤ → Bool
page_request_ok limits before_id limit =
    not (ltb_ℤ before_id (pos 0) || ltb_ℤ limit (pos 0) || ltb_ℤ limits.maximum_page_size limit)

abbrev pub page_limit : Limits → ℤ → ℤ
page_limit limits limit = if eq_ℤ limit (pos 0) then limits.default_page_size else limit

abbrev pub trimmed : CreateInput → CreateInput
trimmed input = record input {
  author_name = trim_space input.author_name;
  body = trim_space input.body;
}

module _ (store : Store) (require_comments_enabled : Text → Exec (Unit {0})) (limits : Limits) where
  unfoldable pub create : CreateInput → Exec Comment
  create input = do
    require_comments_enabled input.post_slug
    if not (valid_text (trim_space input.author_name) limits.max_author_chars)
        then fail invalid_author
        else if not (valid_text (trim_space input.body) limits.max_comment_chars)
        then fail invalid_body
        else store.create_visible_if_under_limit (trimmed input) limits.max_comments_per_post

  unfoldable pub list_visible : Text → ℤ → ℤ → Exec (List Comment)
  list_visible slug before_id limit =
      if not (page_request_ok limits before_id limit) then fail invalid_cursor else do
        require_comments_enabled slug
        store.list_visible slug before_id (page_limit limits limit)

-- The text of the status filter: "", "visible" and "hidden" are known.
unfoldable pub status_filter : Text → Option (Option Status)
status_filter status =
    if text_eq status []
    then some none
    else if text_eq status (bytes "visible")
    then some (some visible)
    else if text_eq status (bytes "hidden")
    then some (some hidden)
    else none

module _ (store : ModerationStore) (limits : Limits) where
  unfoldable pub list : Text → ℤ → ℤ → Exec (List Comment)
  list status before_id limit = elim (status_filter status) [
    | none ↦ fail invalid_status
    | some wanted ↦
        if not (page_request_ok limits before_id limit)
        then fail invalid_cursor
        else store.list_for_moderation wanted before_id (page_limit limits limit)
  ]

  unfoldable pub moderate : Status → ℤ → AuditContext → Exec Comment
  moderate desired id audit =
      if leb_ℤ id (pos 0)
      then fail not_found
      else if not (valid_audit_context audit)
      then fail invalid_audit_actor
      else store.set_visibility id desired limits.max_comments_per_post audit

  unfoldable pub hide : ℤ → AuditContext → Exec Comment
  hide id audit = moderate hidden id audit

  unfoldable pub unhide : ℤ → AuditContext → Exec Comment
  unhide id audit = moderate visible id audit
