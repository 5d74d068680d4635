-- ===== src/Examples/Paging.antt =====
-- internal/httpapi/comments.go: three comments, read two by two.
use portfolio_backend.Base.{arith, ◌≡◌, refl, ℕ, [], ◌∷◌, none, some, map, length, suc}
use portfolio_backend.Base.Text.{bytes, text_eq}
use portfolio_backend.Base.Decimal.Printing.{digits, decimal}
use portfolio_backend.Base.Assoc.{lookup}
use portfolio_backend.Base.Utf8.{
  trim_space, skip_spaces, is_space, text_of, runes, runes_after, decode_rune,
}
use portfolio_backend.Errors.{ok}
use portfolio_backend.Content.{valid_slug, slug_loop}
use portfolio_backend.Database.{query, round_trip, refused, later, Comment, Db, visible, hidden}
use portfolio_backend.Content.Registry.{content_state, state_of}
use portfolio_backend.Content.Service.{require_comments_enabled}
use portfolio_backend.Comments.Store.{visible_in, insert_desc, order_desc}
use portfolio_backend.Comments.Service
use portfolio_backend.Comments.Service.Posting.{post, comment_store}
use portfolio_backend.Http.Comments.{CommentService, public_comment}
use portfolio_backend.Http.Comments.Paging.{read_pages}
use portfolio_backend.Http.Comments.Paging.Listing.{calm, listing, read_pages-listing}
use portfolio_backend.Examples.Commenting.{one_post, limits}

abbrev service : CommentService
service = record {
  create = post limits;
  list_visible = Service.list_visible comment_store (require_comments_enabled content_state) limits;
}

abbrev row : ℕ → Comment
row id = record {
  id = id;
  post_slug = bytes "a-post";
  author_name = bytes "Ada";
  body = bytes "Hello";
  status = visible;
  created_at = 3;
  hidden_at = none;
  visitor_hash = 7;
}

abbrev db : Db
db = record one_post {
  comments = row 1 ∷ record (row 2) { status = hidden; hidden_at = some 4 } ∷ row 12 ∷ row 3 ∷ [];
}

decimals : (decimal 1205 ≡ bytes "1205")
unfolding decimal digits
decimals = refl

newest_first : listing (bytes "a-post") db ≡ row 12 ∷ row 3 ∷ row 1 ∷ []
unfolding order_desc insert_desc visible_in text_eq
newest_first = refl

enabled :
    (require_comments_enabled content_state (bytes "a-post") (calm db 12 none).session).0 ≡ ok tt
unfolding require_comments_enabled content_state query round_trip refused later state_of valid_slug
    slug_loop text_eq lookup trim_space skip_spaces is_space text_of runes runes_after decode_rune
enabled = refl

read_pages-listing_example :
    read_pages
      (suc (length (listing (bytes "a-post") db)))
      service
      (bytes "a-post")
      (decimal 2)
      []
      (calm db 12 none)
    ≡ map public_comment (listing (bytes "a-post") db)
read_pages-listing_example =
    read_pages-listing (bytes "a-post") db 12 service limits none 1 refl enabled (omega arith)
      (omega arith) (ground arith) (ground arith)
