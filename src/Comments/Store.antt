-- ===== src/Comments/Store.antt =====
-- internal/comments/postgres: store.go and moderation.go. Each transaction is one step, as the
-- advisory lock of the post and the row locks make it.
pub mod Create
pub mod Moderation
pub mod Visibility
pub mod Pages
pub mod Capacity
use mathlib.Core.List.{reverse}
use portfolio_backend.Base.{
  ℕ, ◌+◌, List, [], ◌∷◌, Bool, true, false, not, ◌&&◌, ◌||◌, Option, none, some, length, filter,
  any, map, find?, take, leb, ltb, ◌==◌, if◌then◌else◌,
}
use portfolio_backend.Base.Int.{ℤ, pos, pos_part, leb_ℤ, ltb_ℤ, eq_ℤ}
use portfolio_backend.Base.Text.{Text, text_eq}
use portfolio_backend.Base.Utf8.{rune_count, valid_string}
use portfolio_backend.Base.Assoc.{lookup, text_key}
use portfolio_backend.Errors.{Result, ok, err, post_full, not_found, unavailable, internal}
use portfolio_backend.Limiter.{VisitorHash, Instant}
use portfolio_backend.Database.{
  ContentItem, Status, visible, hidden, Comment, EventType, comment_hide, comment_unhide,
  AuditEvent, Db, Exec, ◌>>=◌, ◌>>◌, pure, fail, round_trip, query, modify, transaction,
}
use portfolio_backend.Content.Manifest.{status_published}

pub record CreateInput : Type 0 where
  pub post_slug : Text
  pub author_name : Text
  pub body : Text
  pub visitor_hash : VisitorHash

-- comments.AuditContext
pub record AuditContext : Type 0 where
  pub actor_id : Text
  pub request_id : Text

abbrev pub status_eq : Status → Status → Bool
status_eq visible visible = true
status_eq hidden hidden = true
status_eq visible hidden = false
status_eq hidden visible = false

-- WHERE post_slug = $1 AND status = 'visible'
unfoldable pub visible_in : Text → Comment → Bool
visible_in slug c = text_eq c.post_slug slug && status_eq c.status visible

unfoldable pub count_visible : Text → Db → ℕ
count_visible slug db = length (filter (visible_in slug) db.comments)

-- status = 'published' AND comments_enabled; no row reads as false
unfoldable pub comments_available : Option ContentItem → Bool
comments_available none = false
comments_available (some row) = text_eq row.status status_published && row.comments_enabled

-- btrim: the spaces at both ends
unfoldable pub skip_blanks : Text → Text
skip_blanks [] = []
skip_blanks (b ∷ bs) = let rest = skip_blanks bs in if b == 0x20 then rest else b ∷ bs

unfoldable pub btrim : Text → Text
btrim s = reverse (skip_blanks (reverse (skip_blanks s)))

-- What the server stores as text: UTF-8 with no zero byte.
unfoldable pub storable : Text → Bool
storable s = valid_string s && not (any (λ b. b == 0) s)

-- The CHECK constraints on author_name and body: char_length BETWEEN 1 AND maximum, and trimmed.
unfoldable pub text_check : ℕ → Text → Bool
text_check maximum s =
    storable s && leb 1 (rune_count s) && leb (rune_count s) maximum && text_eq s (btrim s)

abbrev pub database_author_limit : ℕ
database_author_limit = 80

abbrev pub database_comment_limit : ℕ
database_comment_limit = 2000

unfoldable pub comment_checks : CreateInput → Bool
comment_checks input =
    text_check database_author_limit input.author_name
    && text_check database_comment_limit input.body

abbrev pub new_comment : CreateInput → Instant → Db → Comment
new_comment input now db = record {
  id = db.next_comment_id;
  post_slug = input.post_slug;
  author_name = input.author_name;
  body = input.body;
  status = visible;
  created_at = now;
  hidden_at = none;
  visitor_hash = input.visitor_hash;
}

-- The row that the INSERT makes, or a CHECK constraint that refuses it.
unfoldable pub insert_comment : CreateInput → Instant → Db → Result (Comment × Db)
insert_comment input now db =
    if comment_checks input
    then ok (
      new_comment input now db,
      record db {
        comments = new_comment input now db ∷ db.comments;
        next_comment_id = db.next_comment_id + 1;
      },
    )
    else err internal

-- The INSERT of CreateVisibleIfUnderLimit, with the foreign key on post_slug.
unfoldable pub insert_referencing : CreateInput → Instant → Db → Result (Comment × Db)
insert_referencing input now db = elim (lookup input.post_slug db.content_items) [
  | none ↦ err internal
  | some item ↦ insert_comment input now db
]

unfoldable pub create_body : CreateInput → ℤ → Exec Comment
create_body input max_visible = do
  round_trip
  available ← query (λ db. comments_available (lookup input.post_slug db.content_items))
  if not available then fail unavailable else do
    visible_count ← query (count_visible input.post_slug)
    if leb_ℤ max_visible (pos visible_count)
        then fail post_full
        else modify (insert_referencing input)

unfoldable pub create_visible_if_under_limit : CreateInput → ℤ → Exec Comment
create_visible_if_under_limit input max_visible = transaction (create_body input max_visible)

-- ORDER BY id DESC
unfoldable pub insert_desc : Comment → List Comment → List Comment
insert_desc c [] = c ∷ []
insert_desc c (d ∷ rest) = if leb d.id c.id then c ∷ d ∷ rest else d ∷ insert_desc c rest

unfoldable pub order_desc : List Comment → List Comment
order_desc [] = []
order_desc (c ∷ rest) = insert_desc c (order_desc rest)

-- $2::bigint = 0 OR id < $2
unfoldable pub before : ℤ → Comment → Bool
before cursor c = eq_ℤ cursor (pos 0) || ltb_ℤ (pos c.id) cursor

unfoldable pub page : (Comment → Bool) → ℤ → ℤ → List Comment → List Comment
page selected cursor limit rows =
    take (pos_part limit) (order_desc (filter (λ c. selected c && before cursor c) rows))

-- A negative LIMIT is refused by the server.
unfoldable pub select_page : (Comment → Bool) → ℤ → ℤ → Exec (List Comment)
select_page selected cursor limit =
    if ltb_ℤ limit (pos 0)
    then (do round_trip; fail internal)
    else query (λ db. page selected cursor limit db.comments)

unfoldable pub list_visible : Text → ℤ → ℤ → Exec (List Comment)
list_visible slug before_id limit = select_page (visible_in slug) before_id limit

-- $1::text = '' OR status = $1
abbrev pub status_is : Option Status → Comment → Bool
status_is none c = true
status_is (some status) c = status_eq c.status status

unfoldable pub list_for_moderation : Option Status → ℤ → ℤ → Exec (List Comment)
list_for_moderation status before_id limit = select_page (status_is status) before_id limit

unfoldable pub has_id : ℤ → Comment → Bool
has_id id c = eq_ℤ (pos c.id) id

unfoldable pub find_comment : ℤ → Db → Option Comment
find_comment id db = find? (has_id id) db.comments

-- scanComment: no row is ErrNotFound
abbrev pub or_not_found {ℓ} : {A : Type ℓ} → Option A → Exec A
or_not_found none = fail not_found
or_not_found (some c) = pure c

-- hidden_at = CASE WHEN $2 = 'hidden' THEN now() ELSE NULL END
abbrev pub hiding_time : Status → Instant → Option Instant
hiding_time hidden now = some now
hiding_time visible now = none

abbrev pub with_status : Status → Instant → Comment → Comment
with_status desired now c = record c { status = desired; hidden_at = hiding_time desired now }

abbrev pub update_row : ℤ → Status → Instant → Comment → Comment
update_row id desired now c = if has_id id c then with_status desired now c else c

-- UPDATE comments ... WHERE id = $1 RETURNING
unfoldable pub update_comment : ℤ → Status → Instant → Db → Result (Comment × Db)
update_comment id desired now db = elim (find_comment id db) [
  | none ↦ err not_found
  | some c ↦ ok (
    with_status desired now c,
    record db { comments = map (update_row id desired now) db.comments },
  )
]

abbrev pub event_type_of : Status → EventType
event_type_of visible = comment_unhide
event_type_of hidden = comment_hide

abbrev pub null_if_empty : Text → Option Text
null_if_empty [] = none
null_if_empty s = some s

abbrev pub audit_event : ℤ → Status → Status → AuditContext → AuditEvent
audit_event id previous desired audit = record {
  event_type = event_type_of desired;
  actor_id = audit.actor_id;
  request_id = null_if_empty audit.request_id;
  resource_id = pos_part id;
  previous_state = previous;
  new_state = desired;
}

-- The CHECK constraints of admin_audit_events on what the statement passes.
unfoldable pub audit_checks : ℤ → AuditContext → Bool
audit_checks id audit =
    storable audit.actor_id
    && leb 1 (rune_count audit.actor_id)
    && leb (rune_count audit.actor_id) 255
    && storable audit.request_id
    && leb (rune_count audit.request_id) 128
    && ltb_ℤ (pos 0) id

unfoldable pub insert_audit :
    ℤ → Status → Status → AuditContext → Instant → Db → Result (Unit {0} × Db)
insert_audit id previous desired audit now db =
    if audit_checks id audit
    then ok
        (tt, record db { audit_events = audit_event id previous desired audit ∷ db.audit_events })
    else err internal

-- The check before an unhide.
unfoldable pub require_room : Status → Text → ℤ → Exec (Unit {0})
require_room hidden slug max_visible = pure tt
require_room visible slug max_visible = do
  visible_count ← query (count_visible slug)
  if leb_ℤ max_visible (pos visible_count) then fail post_full else pure tt

unfoldable pub change_status : ℤ → Text → Status → Status → ℤ → AuditContext → Exec Comment
change_status id post_slug previous desired max_visible audit = do
  require_room desired post_slug max_visible
  updated ← modify (update_comment id desired)
  modify (insert_audit id previous desired audit)
  pure updated

unfoldable pub set_visibility_body : ℤ → Status → ℤ → AuditContext → Exec Comment
set_visibility_body id desired max_visible audit = do
  found ← query (find_comment id)
  post ← or_not_found found
  round_trip
  row ← query (find_comment id)
  current ← or_not_found row
  if status_eq current.status desired
      then pure current
      else change_status id post.post_slug current.status desired max_visible audit

unfoldable pub set_visibility : ℤ → Status → ℤ → AuditContext → Exec Comment
set_visibility id desired max_visible audit =
    transaction (set_visibility_body id desired max_visible audit)
