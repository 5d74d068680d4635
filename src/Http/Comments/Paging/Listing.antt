-- ===== src/Http/Comments/Paging/Listing.antt =====
-- The route of GET /comments: the pages that a reader gets give the whole listing.
use mathlib.Core.Path.{subst}
use mathlib.Core.List.{append_assoc, map-append}
use portfolio_backend.Base.{
  ℕ, zero, suc, ◌≤◌, ◌<◌, ◌≡◌, refl, ap, sym, ◌∙◌, List, [], ◌∷◌, ◌++◌, Option, some, map, filter,
  take, length, All, All-middle, take-all, take-last, length-append, filter-All, arith, ltb,
  Bool-cases, inl, inr,
}
use portfolio_backend.Base.Int.{ℤ, pos, ◌≤ℤ◌}
use portfolio_backend.Base.Text.{Text}
use portfolio_backend.Base.Decimal.{int64_bound}
use portfolio_backend.Base.Decimal.Printing.{decimal}
use portfolio_backend.Errors.{ok}
use portfolio_backend.Limiter.{Instant, Limiter}
use portfolio_backend.Database.{Comment, Db, Session, query, round_trip, refused, later}
use portfolio_backend.Content.Registry.{content_state}
use portfolio_backend.Content.Service.{require_comments_enabled}
use portfolio_backend.Comments.Store.{visible_in, order_desc, page, select_page, list_visible}
use portfolio_backend.Comments.Store.Capacity.{DistinctIds}
use portfolio_backend.Comments.Store.Pages.{first_page, next_page, order-All}
use portfolio_backend.Comments.Service
use portfolio_backend.Comments.Service.{Limits}
use portfolio_backend.Comments.Service.Posting.{comment_store}
use portfolio_backend.Http.{World}
use portfolio_backend.Http.Parameters.{optional_positive}
use portfolio_backend.Http.Comments.{
  CommentService, public_comment, next_before_id, list_answer, list,
}
use portfolio_backend.Http.Comments.Paging.{
  read_pages, list-read, read_pages-last, read_pages-next, next_before_id-full,
  next_before_id-short, optional_positive-decimal,
}

-- Identifiers of a bigint column that start above 0.
abbrev pub HasIds : List Comment → Type 0
HasIds cs = All (λ c. (0 < c.id) × (c.id < int64_bound)) cs

-- A world in which no round trip fails.
abbrev pub calm : Db → Instant → Option Limiter → World
calm db now limiter = record {
  session = record { db = db; now = now; faults = [] };
  limiter = limiter;
}

-- The visible comments of a post, newest first.
abbrev pub listing : Text → Db → List Comment
listing slug db = order_desc (filter (visible_in slug) db.comments)

module _ (slug : Text) (db : Db) (now : Instant) where
  abbrev s : Session
  s = record { db = db; now = now; faults = [] }

  enabled-same :
      (require_comments_enabled content_state slug s).0 ≡ ok tt
      → require_comments_enabled content_state slug s ≡ (ok tt, s)
  unfolding require_comments_enabled content_state query round_trip refused later
  enabled-same h = ground arith

  -- The service reads a page.
  service_page :
      (limits : Limits) (k : ℤ) (size : ℕ)
      → (require_comments_enabled content_state slug s).0 ≡ ok tt
      → pos 0 ≤ℤ k
      → 0 < size
      → pos size ≤ℤ limits.maximum_page_size
      → Service.list_visible comment_store
          (require_comments_enabled content_state)
          limits
          slug
          k
          (pos size)
          s
        ≡ (ok (page (visible_in slug) k (pos size) db.comments), s)
  unfolding Service.list_visible list_visible select_page query round_trip refused later
  service_page limits k size h low some_rows high = ground (arith, enabled-same h)

  module _ (service : CommentService) (limits : Limits) (limiter : Option Limiter) (n : ℕ)
      (is_list : service.list_visible
        ≡ Service.list_visible comment_store (require_comments_enabled content_state) limits)
      (enabled : (require_comments_enabled content_state slug s).0 ≡ ok tt)
      (within : pos (suc n) ≤ℤ limits.maximum_page_size) (narrow : suc n < int64_bound) where
    -- Pages of n + 1 rows.
    abbrev size : ℕ
    size = suc n

    list-page :
        (cursor : Text) (k : ℤ)
        → optional_positive cursor ≡ some k
        → pos 0 ≤ℤ k
        → list service slug cursor (decimal size) (calm db now limiter) ≡ (
          list_answer (pos size) (ok (page (visible_in slug) k (pos size) db.comments)),
          calm db now limiter,
        )
    list-page cursor k e low =
        list-read service slug cursor (decimal size) k (pos size) (calm db now limiter) e
          (optional_positive-decimal size (omega arith) narrow)
        ∙ rw (is_list, service_page limits k size enabled low (omega arith) within) refl

    listing-HasIds : HasIds db.comments → HasIds (listing slug db)
    listing-HasIds a =
        order-All _ (filter (visible_in slug) db.comments)
          (filter-All _ (visible_in slug) db.comments a)

    -- The page of a cursor, as the handler answers it.
    page-answer :
        (cursor : Text) (k : ℤ) (values : List Comment)
        → optional_positive cursor ≡ some k
        → pos 0 ≤ℤ k
        → page (visible_in slug) k (pos size) db.comments ≡ values
        → list service slug cursor (decimal size) (calm db now limiter)
          ≡ (list_answer (pos size) (ok values), calm db now limiter)
    page-answer cursor k values e low paged =
        list-page cursor k e low
        ∙ ap (λ cs. (list_answer (pos size) (ok cs), calm db now limiter)) paged

    -- Behind the last row of a page, the rest of the listing follows.
    page-behind :
        DistinctIds db.comments
        → HasIds db.comments
        → (front middle : List Comment) (c : Comment) (rest : List Comment)
        → listing slug db ≡ front ++ (middle ++ c ∷ rest)
        → (page (visible_in slug) (pos c.id) (pos size) db.comments ≡ take size rest)
          × (0 < c.id)
          × (c.id < int64_bound)
          × (listing slug db ≡ ((front ++ middle) ++ (c ∷ [])) ++ rest)
    page-behind distinct ids front middle c rest whole =
        let split : listing slug db ≡ (front ++ middle) ++ c ∷ rest =
          whole ∙ sym (append_assoc front middle (c ∷ rest)) in
        let has : (0 < c.id) × (c.id < int64_bound) =
          All-middle (λ x. (0 < x.id) × (x.id < int64_bound)) (front ++ middle) c rest
            (subst HasIds split (listing-HasIds ids)) in
        (
          next_page (visible_in slug) (pos size) db.comments (front ++ middle) c rest distinct has.0
              split,
          has.0,
          has.1,
          split ∙ sym (append_assoc (front ++ middle) (c ∷ []) rest),
        )

    -- What is left of the listing fits a page.
    read_pages-short :
        (more : ℕ) (rest : List Comment) (cursor : Text) (k : ℤ)
        → optional_positive cursor ≡ some k
        → pos 0 ≤ℤ k
        → page (visible_in slug) k (pos size) db.comments ≡ take size rest
        → length rest ≤ n
        → read_pages (suc more) service slug (decimal size) cursor (calm db now limiter)
          ≡ map public_comment rest
    read_pages-short more rest cursor k e low paged short =
        read_pages-last more service slug (decimal size) cursor _ _ (pos size) rest
          (page-answer cursor k rest e low (paged ∙ take-all size rest (omega arith)))
          (next_before_id-short size rest (omega arith))

    -- From a cursor on, the pages give what is left of the listing.
    read_pages-rest :
        DistinctIds db.comments
        → HasIds db.comments
        → (more : ℕ) (front rest : List Comment) (cursor : Text) (k : ℤ)
        → optional_positive cursor ≡ some k
        → pos 0 ≤ℤ k
        → page (visible_in slug) k (pos size) db.comments ≡ take size rest
        → listing slug db ≡ front ++ rest
        → length rest ≤ more
        → read_pages (suc more) service slug (decimal size) cursor (calm db now limiter)
          ≡ map public_comment rest
    read_pages-rest distinct ids zero front rest cursor k e low paged whole enough =
        read_pages-short zero rest cursor k e low paged (omega arith)
    read_pages-rest distinct ids (suc more) front rest cursor k e low paged whole enough =
        elim (Bool-cases (ltb n (length rest))) [
          | inr short ↦ read_pages-short (suc more) rest cursor k e low paged (ground arith)
          | inl long ↦
              let (middle, c, behind, split, values, len) = take-last n rest (ground arith) in
              let (next, positive, narrow_id, wider) =
                page-behind distinct ids front middle c behind (whole ∙ ap (◌++◌ front) split) in
              let named : next_before_id (pos size) (middle ++ (c ∷ [])) ≡ some c.id =
                subst (λ l. next_before_id (pos (suc l)) (middle ++ (c ∷ [])) ≡ some c.id) len
                  (next_before_id-full middle c) in
              let left : length behind ≤ more =
                omega (arith, ap length split, length-append middle (c ∷ behind)) in
              read_pages-next (suc more) service slug (decimal size) cursor _ _ (pos size)
                (middle ++ (c ∷ [])) c.id
                (page-answer cursor k (middle ++ (c ∷ [])) e low (paged ∙ values)) named
              ∙ ap (◌++◌ (map public_comment (middle ++ (c ∷ [])))) (
                  read_pages-rest distinct ids more ((front ++ middle) ++ (c ∷ [])) behind
                    (decimal c.id) (pos c.id) (optional_positive-decimal c.id positive narrow_id)
                    (omega arith) next wider left)
              ∙ sym (map-append public_comment (middle ++ (c ∷ [])) behind)
              ∙ ap (map public_comment) (append_assoc middle (c ∷ []) behind ∙ sym split)
        ]

    -- A reader of the public comments who follows the cursors from page to page gets every visible comment of
    -- the post once, newest first, in at most one page more than there are comments; n + 1 comments a page, which
    -- the service allows, on a post with comments enabled, when nothing fails. Identifiers are distinct,
    -- positive, and have 63 bits.
    pub read_pages-listing :
        DistinctIds db.comments
        → HasIds db.comments
        → read_pages
            (suc (length (listing slug db)))
            service
            slug
            (decimal size)
            []
            (calm db now limiter)
          ≡ map public_comment (listing slug db)
    read_pages-listing distinct ids =
        read_pages-rest distinct ids (length (listing slug db)) [] (listing slug db) [] (pos 0)
          (unfold optional_positive in refl) (omega arith)
          (first_page (visible_in slug) (pos size) db.comments) refl (omega arith)
