-- ===== src/Http/Comments/Laws.antt =====
-- The route of POST /comments: the handler, the service and the stores.
use portfolio_backend.Base.{[], ap, ◌≡◌, refl, true, ◌⊎◌, inl, inr, some, Bool-cases, Option-cases}
use portfolio_backend.Base.Text.{text_eq}
use portfolio_backend.Limiter.{VisitorHash}
use portfolio_backend.Database.{Comment}
use portfolio_backend.Comments.Service.{Limits}
use portfolio_backend.Comments.Service.Posting.{post, Posted, post-Posted}
use portfolio_backend.Http.{Response, World, ask_limiter, write_json, comment}
use portfolio_backend.Http.Comments.{
  Decoded, CommentService, CreateRequest, Payload, payload, too_large, malformed, is_json,
  public_comment, create_input, create_answer, submit, with_payload, create,
}

Decoded-cases :
    (d : Decoded) → ((p : Payload) × (d ≡ payload p)) ⊎ ((d ≡ too_large) ⊎ (d ≡ malformed))
Decoded-cases (payload p) = inl (p, refl)
Decoded-cases too_large = inr (inl refl)
Decoded-cases malformed = inr (inr refl)

module _ (service : CommentService) (limits : Limits) (is_post : service.create ≡ post limits) where
  -- The request is JSON, leaves the hidden field empty, has a visitor whom the limiter allows, and the comment it
  -- sends has been posted and is what the answer shows.
  pub record Accepted (request : CreateRequest) (w : World) (r : Response × World) : Type 0 where
    pub sent : Payload
    pub visitor : VisitorHash
    pub posted : Comment
    pub json : is_json request.media_type ≡ true
    pub is_sent : request.decoded ≡ payload sent
    pub no_website : text_eq sent.website [] ≡ true
    pub is_visitor : request.visitor ≡ some visitor
    pub allowed : (ask_limiter visitor request.now w.limiter).0 ≡ true
    pub answer : r.0 ≡ write_json 201 (comment (public_comment posted))
    pub change : Posted limits (create_input request.slug sent visitor) w.session r.1.session posted

  submit-cases :
      (request : CreateRequest) (p : Payload) (visitor : VisitorHash) (w : World)
      → let r = submit service request p visitor w in
        (r.1.session.db ≡ w.session.db)
        ⊎ ((c : Comment) × ((ask_limiter visitor request.now w.limiter).0 ≡ true)
            × (r.0 ≡ write_json 201 (comment (public_comment c)))
            × Posted limits (create_input request.slug p visitor) w.session r.1.session c)
  unfolding submit
  submit-cases request p visitor w =
      elim (Bool-cases (ask_limiter visitor request.now w.limiter).0) [
        | inr limited ↦ inl (rw (limited))
        | inl allowed ↦
            rw (allowed, is_post)
              (elim (post-Posted limits (create_input request.slug p visitor) w.session) [
                | inl same ↦ inl same
                | inr (c, made, posted) ↦ inr (c, refl, ap create_answer made, posted)
              ])
      ]

  -- A request to comment leaves the tables as they are, or it is JSON with the hidden field empty,
  -- from a visitor whom the limiter allows, the tables have the comment that it sends and nothing
  -- else new, and the answer is 201 with that comment.
  pub create-Accepted :
      (request : CreateRequest) (w : World)
      → ((create service request w).1.session.db ≡ w.session.db)
        ⊎ Accepted request w (create service request w)
  unfolding create with_payload
  create-Accepted request w = elim (Bool-cases (is_json request.media_type)) [
    | inr other ↦ inl (rw (other))
    | inl json ↦ elim (Decoded-cases request.decoded) [
      | inr (inl large) ↦ inl (rw (json, large))
      | inr (inr bad) ↦ inl (rw (json, bad))
      | inl (p, sent) ↦ elim (Bool-cases (text_eq p.website [])) [
        | inr filled ↦ inl (rw (json, sent, filled))
        | inl empty ↦ elim (Option-cases request.visitor) [
          | inl unknown ↦ inl (rw (json, sent, empty, unknown))
          | inr (visitor, known) ↦
              rw (json, sent, empty, known)
                (elim (submit-cases request p visitor w) [
                  | inl same ↦ inl same
                  | inr (c, allowed, answer, change) ↦ inr (record {
                    sent = p;
                    visitor = visitor;
                    posted = c;
                    json = json;
                    is_sent = refl;
                    no_website = empty;
                    is_visitor = refl;
                    allowed = allowed;
                    answer = answer;
                    change = change;
                  })
                ])
        ]
      ]
    ]
  ]
