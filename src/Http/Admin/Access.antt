-- ===== src/Http/Admin/Access.antt =====
-- The moderation routes as the router composes them: the Access gate, the handler, the service and
-- the store.
use portfolio_backend.Base.{
  true, false, ◌≡◌, ◌⊎◌, [], Option, some, arith, Option-cases, Bool-cases, inl, inr,
}
use portfolio_backend.Base.Int.{ℤ}
use portfolio_backend.Base.Text.{Text, bytes, text_eq}
use portfolio_backend.Errors.{err, Error, Result, ok, Result-cases}
use portfolio_backend.Database.{Status, Comment, Session}
use portfolio_backend.Comments.Store
use portfolio_backend.Comments.Store.{AuditContext, list_for_moderation}
use portfolio_backend.Comments.Store.Visibility.{db-set_visibility}
use portfolio_backend.Comments.Store.Capacity.{DistinctIds}
use portfolio_backend.Comments.Store.Moderation.{Recorded, set_visibility-Recorded}
use portfolio_backend.Comments.Service.{Limits, ModerationStore, moderate}
use portfolio_backend.AdminAuth.Claims.{Principal}
use portfolio_backend.Http.{World, Handler, write_error}
use portfolio_backend.Http.Admin.{set_visibility, comment_id, authenticate}

abbrev pub moderation_store : ModerationStore
moderation_store = record {
  list_for_moderation = list_for_moderation;
  set_visibility = Store.set_visibility;
}

-- The route of an operation that sets a status.
abbrev pub moderation_route :
    (Text → Result Principal) → Limits → Status → Text → Text → Text → Handler
moderation_route verify limits desired assertion id request_id =
    authenticate verify assertion (λ principal.
      set_visibility (moderate moderation_store limits desired) principal id request_id)

-- The tables stay, or one comment changes with its audit event.
abbrev pub Moderated : ℤ → Status → ℤ → AuditContext → Session → Session → Type 0
Moderated id desired max_visible audit s after =
    (after.db ≡ s.db)
    ⊎ ((old : Comment) × (c : Comment) × Recorded id desired max_visible audit s.now s.db after.db
          old c)

set_visibility-Moderated :
    (id : ℤ) (desired : Status) (max_visible : ℤ) (audit : AuditContext) (s : Session)
    → DistinctIds s.db.comments
    → Moderated id desired max_visible audit s
        (Store.set_visibility id desired max_visible audit s).1
set_visibility-Moderated id desired max_visible audit s distinct =
    elim (Result-cases (Store.set_visibility id desired max_visible audit s).0) [
      | inr (e, failed) ↦ inl (db-set_visibility id desired max_visible audit s failed)
      | inl (c, succeeded) ↦
          elim (set_visibility-Recorded id desired max_visible audit s distinct succeeded) [
            | inl same ↦ inl (same.tables)
            | inr (old, changes) ↦ inr (old, c, changes)
          ]
    ]

moderate-Moderated :
    (limits : Limits) (desired : Status) (id : ℤ) (audit : AuditContext) (s : Session)
    → DistinctIds s.db.comments
    → Moderated id desired limits.max_comments_per_post audit s
        (moderate moderation_store limits desired id audit s).1
unfolding moderate
moderate-Moderated limits desired id audit s distinct =
    ground
      (arith, set_visibility-Moderated id desired limits.max_comments_per_post audit s distinct)

module _ (verify : Text → Result Principal) (assertion : Text) where
  -- A request with an assertion that is verified reaches the handler behind the gate, with the
  -- verified principal; one without an assertion, or with one that is refused, gets 401, and neither
  -- the session nor the limiter changes.
  pub authenticate-cases :
      (next : Option Principal → Handler) (w : World)
      → ((p : Principal) × (text_eq assertion [] ≡ false)
          × (verify assertion ≡ ok p)
          × (authenticate verify assertion next w ≡ next (some p) w))
        ⊎ (((text_eq assertion [] ≡ true) ⊎ ((e : Error) × (verify assertion ≡ err e)))
            × (authenticate verify assertion next w ≡ (write_error 401 (bytes "unauthorized"), w)))
  unfolding authenticate
  authenticate-cases next w = elim (Bool-cases (text_eq assertion [])) [
    | inl empty ↦ inr (inl empty, ground (arith, empty))
    | inr given ↦ elim (Result-cases (verify assertion)) [
      | inl (p, verified) ↦ inl (p, given, verified, ground (arith, given, verified))
      | inr (e, refused) ↦ inr (inr (e, refused), ground (arith, given, refused))
    ]
  ]

  -- A verified principal changed one comment of the tables, and the change is recorded as its own.
  pub record Audited (limits : Limits) (desired : Status) (id request_id : Text) (s after : Session)
      : Type 0 where
    pub principal : Principal
    pub comment : ℤ
    pub old : Comment
    pub updated : Comment
    pub verified : verify assertion ≡ ok principal
    pub named : comment_id id ≡ some comment
    pub changed :
        Recorded comment desired limits.max_comments_per_post
          (record { actor_id = principal.actor_id; request_id = request_id })
          s.now
          s.db
          after.db
          old
          updated

  set_visibility-Audited :
      (limits : Limits) (desired : Status) (id request_id : Text) (p : Principal) (w : World)
      → verify assertion ≡ ok p
      → DistinctIds w.session.db.comments
      → let after =
          (set_visibility
            (moderate moderation_store limits desired)
            (some p)
            id
            request_id
            w).1.session in
        (after.db ≡ w.session.db) ⊎ Audited limits desired id request_id w.session after
  unfolding set_visibility
  set_visibility-Audited limits desired id request_id p w verified distinct =
      elim (Option-cases (comment_id id)) [
        | inl unnamed ↦ inl (rw (set_visibility, unnamed))
        | inr (n, named) ↦ elim (Bool-cases (text_eq p.actor_id [])) [
          | inl anonymous ↦ inl (rw (set_visibility, named, anonymous))
          | inr known ↦
              rw (set_visibility, named, known)
                (elim (moderate-Moderated limits desired n
                  (record { actor_id = p.actor_id; request_id = request_id }) w.session distinct) [
                    | inl same ↦ inl same
                    | inr (old, c, changed) ↦ inr (record {
                      principal = p;
                      comment = n;
                      old = old;
                      updated = c;
                      verified = verified;
                      named = named;
                      changed = changed;
                    })
                  ])
        ]
      ]

  -- Where comments have distinct identifiers, a moderation request leaves the tables as they are, or its assertion is
  -- verified, its path has a positive identifier, and the status and hiding time of the comment of that
  -- identifier change, of no other, with one more audit event, whose actor is the verified principal.
  pub moderation_route-Audited :
      (limits : Limits) (desired : Status) (id request_id : Text) (w : World)
      → DistinctIds w.session.db.comments
      → let after = (moderation_route verify limits desired assertion id request_id w).1.session in
        (after.db ≡ w.session.db) ⊎ Audited limits desired id request_id w.session after
  unfolding authenticate
  moderation_route-Audited limits desired id request_id w distinct =
      elim (Bool-cases (text_eq assertion [])) [
        | inl empty ↦ inl (rw (authenticate, empty))
        | inr given ↦ elim (Result-cases (verify assertion)) [
          | inl (p, verified) ↦
              rw (authenticate, given, verified)
                (set_visibility-Audited limits desired id request_id p w verified distinct)
          | inr (e, refused) ↦ inl (rw (authenticate, given, refused))
        ]
      ]
