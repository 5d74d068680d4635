-- ===== src/Examples/Commenting.antt =====
-- internal/comments and the routes over it, on a registry with one post.
use portfolio_backend.Base.{
  ◌++◌, filter, ◌<◌, ◌≡◌, ◌⊎◌, refl, [], ◌∷◌, none, some, true, arith, take,
}
use portfolio_backend.Base.Assoc.{lookup}
use portfolio_backend.Base.Utf8.{
  valid_string, rune_count, runes, runes_after, decode_rune, no_errors,
}
use portfolio_backend.Database.{refused, later}
use portfolio_backend.Comments.Store.{
  create_body, comments_available, count_visible, visible_in, insert_comment, insert_referencing,
  comment_checks, text_check, storable, btrim, skip_blanks, set_visibility_body, require_room,
  change_status, update_comment, find_comment, has_id, insert_audit, audit_checks, insert_desc,
  before,
}
use portfolio_backend.Base.Int.{pos}
use portfolio_backend.Base.Text.{bytes, text_eq}
use portfolio_backend.Errors.{internal, ok, err, post_full}
use portfolio_backend.Database.{
  later, refused, visible, hidden, Comment, ContentItem, Db, Session, round_trip, query, modify,
  transaction,
}
use portfolio_backend.Comments.Store.{
  skip_blanks, btrim, storable, text_check, comment_checks, insert_comment, visible_in,
  comments_available, count_visible, create_body, CreateInput, AuditContext,
  create_visible_if_under_limit, set_visibility, page, order_desc,
}
use portfolio_backend.Comments.Store.Create.{Created, create_visible-Created}
use portfolio_backend.Comments.Store.Moderation.{Kept, Recorded, set_visibility-Recorded}
use portfolio_backend.Comments.Store.Capacity.{
  DistinctIds, IsValid, create_visible-IsValid, set_visibility-IsValid,
}
use portfolio_backend.Comments.Store.Pages.{next_page}
use portfolio_backend.Comments.Service.{Limits}
use portfolio_backend.Comments.Service.Posting.{post, Posted, post-Posted}

abbrev pub published_post : ContentItem
published_post = record {
  kind = bytes "post";
  status = bytes "published";
  comments_enabled = true;
  managed_by = bytes "site";
  updated_at = 1;
}

abbrev pub one_post : Db
one_post = record {
  content_items = (bytes "a-post", published_post) ∷ [];
  comments = [];
  next_comment_id = 1;
  audit_events = [];
  post_likes = [];
  post_view_visitors = [];
  post_stats = [];
}

abbrev pub at_noon : Session
at_noon = record { db = one_post; now = 12; faults = [] }

abbrev greeting : CreateInput
greeting = record {
  post_slug = bytes "a-post";
  author_name = bytes " Ada ";
  body = bytes "Hello";
  visitor_hash = 7;
}

abbrev pub moderator : AuditContext
moderator = record { actor_id = bytes "admin-1"; request_id = bytes "req-1" }

abbrev pub limits : Limits
limits = record {
  max_author_chars = pos 80;
  max_comment_chars = pos 2000;
  max_comments_per_post = pos 1;
  default_page_size = pos 20;
  maximum_page_size = pos 50;
}

abbrev hello : CreateInput
hello = record greeting { author_name = bytes "Ada" }

abbrev hello_row : Comment
hello_row = record {
  id = 1;
  post_slug = bytes "a-post";
  author_name = bytes "Ada";
  body = bytes "Hello";
  status = visible;
  created_at = 12;
  hidden_at = none;
  visitor_hash = 7;
}

program : Unit {0}
unfolding create_visible_if_under_limit create_body transaction round_trip query modify refused
    later comments_available lookup text_eq count_visible visible_in insert_referencing
    insert_comment comment_checks text_check storable btrim skip_blanks valid_string rune_count
    runes runes_after decode_rune no_errors set_visibility set_visibility_body require_room
    change_status update_comment find_comment has_id insert_audit audit_checks order_desc
    insert_desc page before
program = tt

-- The room for one comment is taken, given back by hiding it, and taken again: unhiding then fails.
pub run : Session
run = (create_visible_if_under_limit hello (pos 1) at_noon).1

one_comment : (create_visible_if_under_limit hello (pos 1) at_noon).0 ≡ ok hello_row
unfolding program
one_comment = refl

second_refused : (create_visible_if_under_limit hello (pos 1) run).0 ≡ err post_full
unfolding program run
second_refused = refl

untrimmed_refused : (create_visible_if_under_limit greeting (pos 1) at_noon).0 ≡ err internal
unfolding program
untrimmed_refused = refl

hidden_then_full :
    let again =
      create_visible_if_under_limit hello
        (pos 1)
        (set_visibility (pos 1) hidden (pos 1) moderator run).1 in
    (set_visibility (pos 1) visible (pos 1) moderator again.1).0 ≡ err post_full
unfolding program run
hidden_then_full = refl

hidden_row :
    (set_visibility (pos 1) hidden (pos 1) moderator run).0
    ≡ ok (record hello_row { status = hidden; hidden_at = some 12 })
unfolding program run
hidden_row = refl

one_post-IsValid : IsValid 1 one_post
one_post-IsValid = record {
  below = tt;
  distinct = tt;
  hidden_state = tt;
  within = λ slug. unfold count_visible in omega arith;
}

create_visible-IsValid_example :
    IsValid 1 (create_visible_if_under_limit hello (pos 1) at_noon).1.db
create_visible-IsValid_example = create_visible-IsValid hello 1 at_noon one_post-IsValid

run-IsValid : IsValid 1 run.db
unfolding run
run-IsValid = create_visible-IsValid hello 1 at_noon one_post-IsValid

set_visibility-IsValid_example :
    IsValid 1 (set_visibility (pos 1) hidden (pos 1) moderator run).1.db
set_visibility-IsValid_example = set_visibility-IsValid (pos 1) hidden 1 moderator run run-IsValid

create_visible-Created_example :
    Created hello
      (pos 1)
      12
      one_post
      (create_visible_if_under_limit hello (pos 1) at_noon).1.db
      hello_row
create_visible-Created_example = create_visible-Created hello (pos 1) at_noon one_comment

-- The row that the run has made.
pub run_distinct : DistinctIds run.db.comments
unfolding program run
run_distinct = (tt, tt)

set_visibility-Recorded_example :
    let after = (set_visibility (pos 1) hidden (pos 1) moderator run).1.db in
    let c = record hello_row { status = hidden; hidden_at = some 12 } in
    Kept (pos 1) hidden run.db after c
    ⊎ ((old : Comment) × Recorded (pos 1) hidden (pos 1) moderator run.now run.db after old c)
set_visibility-Recorded_example =
    set_visibility-Recorded (pos 1) hidden (pos 1) moderator run run_distinct hidden_row

second_row : Comment
second_row = record hello_row { id = 2 }

third_row : Comment
third_row = record hello_row { id = 3 }

listing :
    order_desc (filter (λ c. true) (second_row ∷ third_row ∷ hello_row ∷ []))
    ≡ (third_row ∷ []) ++ second_row ∷ hello_row ∷ []
unfolding program second_row third_row
listing = refl

ids_distinct : DistinctIds (second_row ∷ third_row ∷ hello_row ∷ [])
unfolding second_row third_row
ids_distinct = ground arith

second_positive : 0 < second_row.id
unfolding second_row
second_positive = omega arith

next_page_example :
    page (λ c. true) (pos second_row.id) (pos 5) (second_row ∷ third_row ∷ hello_row ∷ [])
    ≡ take 5 (hello_row ∷ [])
next_page_example =
    next_page (λ c. true) (pos 5) (second_row ∷ third_row ∷ hello_row ∷ []) (third_row ∷ [])
      second_row (hello_row ∷ []) ids_distinct second_positive listing

post-Posted_example :
    ((post limits greeting at_noon).1.db ≡ one_post)
    ⊎ ((c : Comment) × ((post limits greeting at_noon).0 ≡ ok c)
        × Posted limits greeting at_noon (post limits greeting at_noon).1 c)
post-Posted_example = post-Posted limits greeting at_noon
