-- ===== src/Comments/Store/Moderation.antt =====
-- internal/comments/postgres/moderation.go: what a successful moderation has done, row by row.
use mathlib.Core.Path.{subst}
use portfolio_backend.Base.{
  ℕ, ◌≡◌, ◌≢◌, ◌⊎◌, inl, inr, refl, ap, sym, ◌∙◌, List, [], ◌∷◌, ◌++◌, true, false, Option, none,
  some, map, find?, All, arith, Bool-cases,
}
use portfolio_backend.Base.Int.{ℤ, pos, leb_ℤ, eq_ℤ_iff}
use portfolio_backend.Base.Text.{Text}
use portfolio_backend.Errors.{ok}
use portfolio_backend.Limiter.{Instant}
use portfolio_backend.Database.{
  Status, visible, hidden, EventType, comment_hide, comment_unhide, AuditEvent, Comment, Db,
  Session,
}
use portfolio_backend.Comments.Store.{
  AuditContext, count_visible, find_comment, has_id, with_status, update_row, audit_checks,
  audit_event, status_eq, null_if_empty, set_visibility,
}
use portfolio_backend.Comments.Store.Capacity.{DistinctIds}
use portfolio_backend.Comments.Store.Visibility.{Unchanged, Changed, set_visibility-cases}

-- The comment of an identifier stands in the table.
pub record IsRow (id : ℤ) (rows : List Comment) (c : Comment) : Type 0 where
  pub front : List Comment
  pub behind : List Comment
  pub rows_are : rows ≡ front ++ c ∷ behind
  pub named : pos c.id ≡ id

-- When a comment of a status is hidden.
abbrev pub HiddenSince : Status → Instant → Option Instant → Type 0
HiddenSince hidden now hidden_at = hidden_at ≡ some now
HiddenSince visible now hidden_at = hidden_at ≡ none

-- One row has another status, and its hiding time; the other rows and the other columns are as they
-- were.
pub record RowMoved (id : ℤ) (desired : Status) (now : Instant) (before after : List Comment)
    (old c : Comment) : Type 0 where
  pub front : List Comment
  pub behind : List Comment
  pub rows_before : before ≡ front ++ old ∷ behind
  pub rows_after : after ≡ front ++ c ∷ behind
  pub named : pos old.id ≡ id
  pub moved : old.status ≢ desired
  pub status : c.status ≡ desired
  pub hidden_since : HiddenSince desired now c.hidden_at
  pub same_id : c.id ≡ old.id
  pub same_post : c.post_slug ≡ old.post_slug
  pub same_author : c.author_name ≡ old.author_name
  pub same_body : c.body ≡ old.body
  pub same_creation : c.created_at ≡ old.created_at
  pub same_visitor : c.visitor_hash ≡ old.visitor_hash

abbrev pub IsEventOf : Status → EventType → Type 0
IsEventOf hidden event_type = event_type ≡ comment_hide
IsEventOf visible event_type = event_type ≡ comment_unhide

-- The request of an event, where the context has one.
abbrev pub IsRequest : Text → Option Text → Type 0
IsRequest [] request_id = request_id ≡ none
IsRequest (b ∷ bs) request_id = request_id ≡ some (b ∷ bs)

-- The event says who moved which comment from which status to which.
pub record Tells (id : ℤ) (previous desired : Status) (audit : AuditContext) (e : AuditEvent)
    : Type 0 where
  pub event_type : IsEventOf desired e.event_type
  pub actor : e.actor_id ≡ audit.actor_id
  pub request : IsRequest audit.request_id e.request_id
  pub resource : pos e.resource_id ≡ id
  pub previous_state : e.previous_state ≡ previous
  pub new_state : e.new_state ≡ desired

-- A comment that becomes visible finds fewer visible ones than the limit.
abbrev pub HasRoom : Status → ℤ → Text → Db → Type 0
HasRoom hidden max_visible post_slug db = Unit {0}
HasRoom visible max_visible post_slug db =
    leb_ℤ max_visible (pos (count_visible post_slug db)) ≡ false

desired-HasRoom :
    (desired : Status) (max_visible : ℤ) (post_slug : Text) (db : Db)
    → (desired ≡ visible → leb_ℤ max_visible (pos (count_visible post_slug db)) ≡ false)
    → HasRoom desired max_visible post_slug db
desired-HasRoom hidden max_visible post_slug db h = tt
desired-HasRoom visible max_visible post_slug db h = h refl

-- One row and one event.
pub record Recorded (id : ℤ) (desired : Status) (max_visible : ℤ) (audit : AuditContext)
    (now : Instant) (before after : Db) (old c : Comment) : Type 0 where
  pub row : RowMoved id desired now before.comments after.comments old c
  pub room : HasRoom desired max_visible old.post_slug before
  pub event : AuditEvent
  pub told : Tells id old.status desired audit event
  pub events : after.audit_events ≡ event ∷ before.audit_events
  pub others :
      after ≡ record before { comments = after.comments; audit_events = after.audit_events }

module _ (id : ℤ) (desired : Status) (now : Instant) where
  update_row-others :
      (cs : List Comment) (n : ℕ)
      → pos n ≡ id
      → All (λ d. d.id ≢ n) cs
      → map (update_row id desired now) cs ≡ cs
  unfolding has_id
  update_row-others [] n e a = refl
  update_row-others (c ∷ cs) n e a =
      ground (arith, eq_ℤ_iff (pos c.id) id, e, a.0, update_row-others cs n e a.1)

  -- The row that is found, and what the update makes of the table.
  find?-update_row :
      (cs : List Comment) {old : Comment}
      → DistinctIds cs
      → find? (has_id id) cs ≡ some old
      → (front : List Comment) × (behind : List Comment) × (cs ≡ front ++ old ∷ behind)
        × (map (update_row id desired now) cs ≡ front ++ with_status desired now old ∷ behind)
        × (pos old.id ≡ id)
  find?-update_row [] d h = cc
  find?-update_row (x ∷ cs) {old} d h = elim (Bool-cases (has_id id x)) [
    | inl here ↦
        let same : x ≡ old = ground (arith, here, h) in
        let named : pos x.id ≡ id = (eq_ℤ_iff (pos x.id) id).0 (unfold has_id in here) in
        let rest : map (update_row id desired now) (x ∷ cs) ≡ with_status desired now x ∷ cs =
          rw (here, update_row-others cs x.id named d.0) refl in
        subst
          (λ o.
            (front : List Comment) × (behind : List Comment) × (x ∷ cs ≡ front ++ o ∷ behind)
            × (map (update_row id desired now) (x ∷ cs)
                ≡ front ++ with_status desired now o ∷ behind)
            × (pos o.id ≡ id))
          same ([], cs, refl, rest, named)
    | inr elsewhere ↦
        let (front, behind, before, after, named) =
          find?-update_row cs {old = old} d.1 (ground (arith, elsewhere, h)) in
        (x ∷ front, behind, ap (◌∷◌ x) before, rw elsewhere (ap (◌∷◌ x) after), named)
  ]

status_eq-moved : (a b : Status) → status_eq a b ≡ false → a ≢ b
status_eq-moved visible visible h = cc
status_eq-moved hidden hidden h = cc
status_eq-moved visible hidden h = λ e. cc
status_eq-moved hidden visible h = λ e. cc

with_status-HiddenSince :
    (desired : Status) (now : Instant) (c : Comment)
    → HiddenSince desired now (with_status desired now c).hidden_at
with_status-HiddenSince hidden now c = refl
with_status-HiddenSince visible now c = refl

audit_event-IsEventOf :
    (id : ℤ) (previous desired : Status) (audit : AuditContext)
    → IsEventOf desired (audit_event id previous desired audit).event_type
audit_event-IsEventOf id previous hidden audit = refl
audit_event-IsEventOf id previous visible audit = refl

null_if_empty-IsRequest : (t : Text) → IsRequest t (null_if_empty t)
null_if_empty-IsRequest [] = refl
null_if_empty-IsRequest (b ∷ bs) = refl

audit_event-Tells :
    (id : ℤ) (previous desired : Status) (audit : AuditContext)
    → audit_checks id audit ≡ true
    → Tells id previous desired audit (audit_event id previous desired audit)
unfolding audit_checks
audit_event-Tells id previous desired audit h = record {
  event_type = audit_event-IsEventOf id previous desired audit;
  actor = refl;
  request = null_if_empty-IsRequest audit.request_id;
  resource = ground arith;
  previous_state = refl;
  new_state = refl;
}

Changed-Recorded :
    (id : ℤ) (desired : Status) (max_visible : ℤ) (audit : AuditContext) (now : Instant)
    (before after : Db) (old c : Comment)
    → DistinctIds before.comments
    → Changed id desired max_visible audit now before after old c
    → Recorded id desired max_visible audit now before after old c
Changed-Recorded id desired max_visible audit now before after old c d h =
    let (front, behind, rows, updated, named) =
      find?-update_row id desired now before.comments {old = old} d
        (unfold find_comment in h.row) in
    let table = ap (λ db. db.comments) h.tables in
    let log = ap (λ db. db.audit_events) h.tables in
    record {
      row = record {
        front = front;
        behind = behind;
        rows_before = rows;
        rows_after = table ∙ updated ∙ ap (λ x. front ++ x ∷ behind) (sym h.updated);
        named = named;
        moved = status_eq-moved old.status desired h.other;
        status = ap (λ x. x.status) h.updated;
        hidden_since =
            subst (λ x. HiddenSince desired now x.hidden_at) (sym h.updated)
              (with_status-HiddenSince desired now old);
        same_id = ap (λ x. x.id) h.updated;
        same_post = ap (λ x. x.post_slug) h.updated;
        same_author = ap (λ x. x.author_name) h.updated;
        same_body = ap (λ x. x.body) h.updated;
        same_creation = ap (λ x. x.created_at) h.updated;
        same_visitor = ap (λ x. x.visitor_hash) h.updated;
      };
      room = desired-HasRoom desired max_visible old.post_slug before h.room;
      event = audit_event id old.status desired audit;
      told = audit_event-Tells id old.status desired audit h.checked;
      events = log;
      others = h.tables ∙ (λ i. record before { comments = sym table i; audit_events = sym log i });
    }

-- The comment already had the status, and nothing has changed.
pub record Kept (id : ℤ) (desired : Status) (before after : Db) (c : Comment) : Type 0 where
  pub row : IsRow id before.comments c
  pub status : c.status ≡ desired
  pub tables : after ≡ before

Unchanged-Kept :
    (id : ℤ) (desired : Status) (before after : Db) (c : Comment)
    → DistinctIds before.comments
    → Unchanged id desired before after c
    → Kept id desired before after c
Unchanged-Kept id desired before after c d h =
    let (front, behind, rows, updated, named) =
      find?-update_row id desired 0 before.comments {old = c} d (unfold find_comment in h.row) in
    record {
      row = record { front = front; behind = behind; rows_are = rows; named = named };
      status = h.status;
      tables = h.tables;
    }

-- A successful call has found the comment of the identifier, where identifiers are distinct. Either
-- it had the desired status and nothing has changed; or in its row, and in no other, the status and
-- the hiding time have changed, with room left for a comment that becomes visible, and there is one
-- more audit event, which tells the actor, the request, the comment and both states. The call
-- answers the row as it stands after it.
pub set_visibility-Recorded :
    (id : ℤ) (desired : Status) (max_visible : ℤ) (audit : AuditContext) (s : Session) {c : Comment}
    → DistinctIds s.db.comments
    → (set_visibility id desired max_visible audit s).0 ≡ ok c
    → let after = (set_visibility id desired max_visible audit s).1.db in
      Kept id desired s.db after c
      ⊎ ((old : Comment) × Recorded id desired max_visible audit s.now s.db after old c)
set_visibility-Recorded id desired max_visible audit s {c} d h =
    let after = (set_visibility id desired max_visible audit s).1.db in
    elim (set_visibility-cases id desired max_visible audit s {c = c} h) [
      | inl same ↦ inl (Unchanged-Kept id desired s.db after c d same)
      | inr (old, changes) ↦
          inr (old, Changed-Recorded id desired max_visible audit s.now s.db after old c d changes)
    ]
