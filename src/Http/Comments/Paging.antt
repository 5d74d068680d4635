-- ===== src/Http/Comments/Paging.antt =====
-- The route of GET /comments, read page by page: the handler, the service and the stores.
pub mod Listing
use mathlib.Core.Path.{subst}
use mathlib.Core.List.{append_assoc, map-append, append-nil}
use portfolio_backend.Base.{
  ℕ, zero, suc, ◌+◌, ◌≤◌, ◌<◌, ◌≡◌, refl, ap, sym, ◌∙◌, List, [], ◌∷◌, ◌++◌, Bool, true, false, not,
  ◌&&◌, ◌||◌, Option, none, some, map, filter, take, length, All, All-left, All-middle, take-all,
  take-last, length-append, length-take-le, filter-All, arith, ltb, leb, ◌==◌, Bool-cases, inl, inr,
  ◌⊎◌, if◌then◌else◌,
}
use portfolio_backend.Base.Int.{ℤ, pos, ◌≤ℤ◌, leb_ℤ, ltb_ℤ, eq_ℤ}
use portfolio_backend.Base.Text.{Text}
use portfolio_backend.Base.Decimal.{parse_int, int64_bound}
use portfolio_backend.Base.Decimal.Printing.{decimal, parse_int-decimal}
use portfolio_backend.Errors.{Result, ok}
use portfolio_backend.Limiter.{Instant, Limiter}
use portfolio_backend.Database.{Comment, Db, Session, query, round_trip, refused, later}
use portfolio_backend.Content.Registry.{content_state}
use portfolio_backend.Content.Service.{require_comments_enabled}
use portfolio_backend.Comments.Store.{visible_in, order_desc, page, select_page, list_visible}
use portfolio_backend.Comments.Store.Capacity.{DistinctIds}
use portfolio_backend.Comments.Store.Pages.{first_page, next_page, order-All}
use portfolio_backend.Comments.Service
use portfolio_backend.Comments.Service.{Limits}
use portfolio_backend.Comments.Service.Posting.{comment_store}
use portfolio_backend.Http.{World, Response, Body, CommentResponse, comment_list, write_json, call}
use portfolio_backend.Http.Parameters.{optional_positive}
use portfolio_backend.Http.Comments.{
  CommentService, public_comment, last_id, next_before_id, list_answer, list,
}

parsed-optional_positive :
    (t : Text) (n : ℕ)
    → 0 < n
    → parse_int int64_bound t ≡ some (pos n)
    → optional_positive t ≡ some (pos n)
unfolding optional_positive
parsed-optional_positive [] n p e = unfold parse_int in cc
parsed-optional_positive (b ∷ bs) n p e = ground arith

-- A printed identifier is read back.
optional_positive-decimal :
    (n : ℕ) → 0 < n → n < int64_bound → optional_positive (decimal n) ≡ some (pos n)
optional_positive-decimal n p h = parsed-optional_positive (decimal n) n p (parse_int-decimal n p h)

-- What a reader takes from an answer: its comments, and the cursor of the next page.
unfoldable pub shown : Body → List CommentResponse
shown (comment_list cs next) = cs
shown body = []

unfoldable pub next_cursor : Body → Option ℕ
next_cursor (comment_list cs next) = next
next_cursor body = none

-- A reader that follows the cursors, for so many pages at most.
unfoldable pub read_pages : ℕ → CommentService → Text → Text → Text → World → List CommentResponse
read_pages zero service slug limit cursor w = []
read_pages (suc more) service slug limit cursor w =
    let (answer, after) = list service slug cursor limit w in
    shown answer.body ++ elim (next_cursor answer.body) [
      | none ↦ []
      | some id ↦ read_pages more service slug limit (decimal id) after
    ]

last_id-append : (cs : List Comment) (c : Comment) → last_id (cs ++ (c ∷ [])) ≡ some c.id
last_id-append [] c = refl
last_id-append (d ∷ []) c = refl
last_id-append (d ∷ e ∷ cs) c = last_id-append (e ∷ cs) c

-- A full page names its last row, and one that is not full is the last.
next_before_id-full :
    (front : List Comment) (c : Comment)
    → next_before_id (pos (suc (length front))) (front ++ (c ∷ [])) ≡ some c.id
unfolding next_before_id
next_before_id-full front c = ground (arith, length-append front (c ∷ []), last_id-append front c)

next_before_id-short :
    (size : ℕ) (values : List Comment)
    → length values < size
    → next_before_id (pos size) values ≡ none
unfolding next_before_id
next_before_id-short size values h = ground arith

-- With both parameters read, the handler asks the service.
list-read :
    (service : CommentService) (slug cursor limit : Text) (k n : ℤ) (w : World)
    → optional_positive cursor ≡ some k
    → optional_positive limit ≡ some n
    → list service slug cursor limit w ≡ call (service.list_visible slug k n) (list_answer n) w
unfolding list
list-read service slug cursor limit k n w e f = ground arith

read_pages-last :
    (more : ℕ) (service : CommentService) (slug limit cursor : Text) (w after : World) (size : ℤ)
    (values : List Comment)
    → list service slug cursor limit w ≡ (list_answer size (ok values), after)
    → next_before_id size values ≡ none
    → read_pages (suc more) service slug limit cursor w ≡ map public_comment values
unfolding read_pages shown next_cursor
read_pages-last more service slug limit cursor w after size values e last =
    rw (e, last) (append-nil (map public_comment values))

read_pages-next :
    (more : ℕ) (service : CommentService) (slug limit cursor : Text) (w after : World) (size : ℤ)
    (values : List Comment) (id : ℕ)
    → list service slug cursor limit w ≡ (list_answer size (ok values), after)
    → next_before_id size values ≡ some id
    → read_pages (suc more) service slug limit cursor w
      ≡ map public_comment values ++ read_pages more service slug limit (decimal id) after
unfolding read_pages shown next_cursor
read_pages-next more service slug limit cursor w after size values id e next =
    rw (e, next)
      (ap (λ r. map public_comment values ++ read_pages more service slug limit (decimal id) r.1) e)
