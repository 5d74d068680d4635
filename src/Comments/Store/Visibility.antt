-- ===== src/Comments/Store/Visibility.antt =====
-- What SetVisibility means, and what a successful call has done.
use mathlib.Core.Path.{subst, fun_ext}
use portfolio_backend.Database.Effects.{transaction-atomic}
use portfolio_backend.Database.Meaning.{
  Pure, Means, returns, raises, reads, ◌>>=◌, ◌>>◌, Means-pure, Means-bind, Means-if, Means-fail,
  Means-round_trip, Means-query, Means-modify, Means-transaction,
}
use portfolio_backend.Base.{
  Bool-cases, inr, inl, Option-cases, ◌≡◌, refl, ◌∷◌, true, false, ◌⊎◌, Option, none, some, map,
  arith, if◌then◌else◌,
}
use portfolio_backend.Base.Int.{ℤ, pos, leb_ℤ}
use portfolio_backend.Base.Text.{Text}
use portfolio_backend.Errors.{Error, ok, err, not_found, post_full}
use portfolio_backend.Limiter.{Instant}
use portfolio_backend.Database.{
  Status, visible, hidden, Comment, Db, Session, round_trip, query, modify, transaction,
}
use portfolio_backend.Comments.Store.{
  AuditContext, status_eq, count_visible, find_comment, or_not_found, with_status, update_row,
  update_comment, audit_event, audit_checks, insert_audit, require_room, change_status,
  set_visibility_body, set_visibility,
}

unfoldable pub found_rule : Option Comment → Pure Comment
found_rule none = raises not_found
found_rule (some c) = returns c

unfoldable pub room_rule : Status → Text → ℤ → Pure (Unit {0})
room_rule hidden post_slug max_visible = returns tt
room_rule visible post_slug max_visible = do
  visible_count ← reads (count_visible post_slug)
  if leb_ℤ max_visible (pos visible_count) then raises post_full else returns tt

unfoldable pub change_rule : ℤ → Text → Status → Status → ℤ → AuditContext → Pure Comment
change_rule id post_slug previous desired max_visible audit = do
  room_rule desired post_slug max_visible
  updated ← update_comment id desired
  insert_audit id previous desired audit
  returns updated

-- The rule of the store: a comment that has the desired status stays, another one is changed, if
-- there is room for it, and the change is recorded.
unfoldable pub visibility_rule : ℤ → Status → ℤ → AuditContext → Pure Comment
visibility_rule id desired max_visible audit = do
  row ← reads (find_comment id)
  current ← found_rule row
  if status_eq current.status desired
      then returns current
      else change_rule id current.post_slug current.status desired max_visible audit

-- the rule as the statements have it, which read the row twice
statements_rule : ℤ → Status → ℤ → AuditContext → Pure Comment
statements_rule id desired max_visible audit = do
  found ← reads (find_comment id)
  post ← found_rule found
  row ← reads (find_comment id)
  current ← found_rule row
  if status_eq current.status desired
      then returns current
      else change_rule id post.post_slug current.status desired max_visible audit

or_not_found-Means : (o : Option Comment) → Means (or_not_found o) (found_rule o)
unfolding found_rule
or_not_found-Means none = Means-fail not_found
or_not_found-Means (some c) = Means-pure c

require_room-Means :
    (desired : Status) (slug : Text) (max_visible : ℤ)
    → Means (require_room desired slug max_visible) (room_rule desired slug max_visible)
unfolding require_room room_rule
require_room-Means hidden slug max_visible = Means-pure tt
require_room-Means visible slug max_visible =
    Means-bind (query _) _ (reads _) _ (Means-query _)
      (λ n. Means-if (leb_ℤ max_visible (pos n)) (Means-fail post_full) (Means-pure tt))

change_status-Means :
    (id : ℤ) (slug : Text) (previous desired : Status) (max_visible : ℤ) (audit : AuditContext)
    → Means
        (change_status id slug previous desired max_visible audit)
        (change_rule id slug previous desired max_visible audit)
unfolding change_status change_rule
change_status-Means id slug previous desired max_visible audit =
    Means-bind _ _ (room_rule desired slug max_visible) _
      (require_room-Means desired slug max_visible)
      (λ _. Means-bind (modify _) _ (update_comment id desired) _ (Means-modify _) (λ updated.
        Means-bind (modify _) _ (insert_audit id previous desired audit) _ (Means-modify _)
          (λ _. Means-pure updated)))

set_visibility_body-Means :
    (id : ℤ) (desired : Status) (max_visible : ℤ) (audit : AuditContext)
    → Means
        (set_visibility_body id desired max_visible audit)
        (statements_rule id desired max_visible audit)
unfolding set_visibility_body statements_rule
set_visibility_body-Means id desired max_visible audit =
    Means-bind (query _) _ (reads _) _ (Means-query _) (λ found.
      Means-bind _ _ (found_rule found) _ (or_not_found-Means found) (λ post.
        Means-bind round_trip _ (returns tt) _ Means-round_trip (λ _.
          Means-bind (query _) _ (reads _) _ (Means-query _) (λ row.
            Means-bind _ _ (found_rule row) _ (or_not_found-Means row) (λ current.
              Means-if (status_eq current.status desired) (Means-pure current) (
                change_status-Means id post.post_slug current.status desired max_visible audit))))))

statements_rule-eq :
    (id : ℤ) (desired : Status) (max_visible : ℤ) (audit : AuditContext) (now : Instant) (db : Db)
    → statements_rule id desired max_visible audit now db
      ≡ visibility_rule id desired max_visible audit now db
unfolding statements_rule visibility_rule found_rule
statements_rule-eq id desired max_visible audit now db = ground arith

-- Whatever round trips fail, a comment that SetVisibility returns is the one that the rule returns,
-- with the rule's tables; and when none fails, it answers what the rule answers, errors included.
pub set_visibility-Means :
    (id : ℤ) (desired : Status) (max_visible : ℤ) (audit : AuditContext)
    → Means
        (set_visibility id desired max_visible audit)
        (visibility_rule id desired max_visible audit)
unfolding set_visibility
set_visibility-Means id desired max_visible audit =
    subst (λ p. Means (transaction (set_visibility_body id desired max_visible audit)) p)
      (fun_ext λ now. fun_ext λ db. statements_rule-eq id desired max_visible audit now db)
      (Means-transaction _ _ (set_visibility_body-Means id desired max_visible audit))

-- The row is there with the desired status, and nothing changes.
pub record Unchanged (id : ℤ) (desired : Status) (before after : Db) (c : Comment) : Type 0 where
  pub row : find_comment id before ≡ some c
  pub status : c.status ≡ desired
  pub tables : after ≡ before

-- The row `old` changes, and one audit event is added.
pub record Changed (id : ℤ) (desired : Status) (max_visible : ℤ) (audit : AuditContext)
    (now : Instant) (before after : Db) (old c : Comment) : Type 0 where
  pub row : find_comment id before ≡ some old
  pub other : status_eq old.status desired ≡ false
  pub updated : c ≡ with_status desired now old
  pub room :
      desired ≡ visible → leb_ℤ max_visible (pos (count_visible old.post_slug before)) ≡ false
  pub checked : audit_checks id audit ≡ true
  pub tables : after ≡ record before {
    comments = map (update_row id desired now) before.comments;
    audit_events = audit_event id old.status desired audit ∷ before.audit_events;
  }

pub same_status : (a b : Status) → status_eq a b ≡ true → a ≡ b
same_status visible visible h = refl
same_status hidden hidden h = refl
same_status visible hidden h = cc
same_status hidden visible h = cc

module _ (id : ℤ) (max_visible : ℤ) (audit : AuditContext) (now : Instant) (db after : Db)
    {c : Comment} where
  changed :
      (desired : Status) (old : Comment)
      → find_comment id db ≡ some old
      → status_eq old.status desired ≡ false
      → change_rule id old.post_slug old.status desired max_visible audit now db ≡ ok (c, after)
      → Changed id desired max_visible audit now db after old c
  unfolding change_rule room_rule update_comment insert_audit
  changed visible old there other h = record {
    row = there;
    other = other;
    updated = ground arith;
    room = λ _. ground arith;
    checked = ground arith;
    tables = ground arith;
  }
  changed hidden old there other h = record {
    row = there;
    other = other;
    updated = ground arith;
    room = λ e. cc;
    checked = ground arith;
    tables = ground arith;
  }

  pub visibility_rule-cases :
      (desired : Status)
      → visibility_rule id desired max_visible audit now db ≡ ok (c, after)
      → Unchanged id desired db after c
        ⊎ ((old : Comment) × Changed id desired max_visible audit now db after old c)
  visibility_rule-cases desired h = elim (Option-cases (find_comment id db)) [
    | inl missing ↦ absurd (unfold visibility_rule found_rule in ground (arith, missing))
    | inr (old, there) ↦ elim (Bool-cases (status_eq old.status desired)) [
      | inl same ↦
          let e = same_status old.status desired same in
          inl (unfold visibility_rule found_rule in ground (arith, e))
      | inr other ↦ inr (
        old,
        changed desired old there other
            (unfold visibility_rule found_rule in rw (there, other) at h),
      )
    ]
  ]

-- A successful call has found the comment. Either it had the desired status and nothing has
-- changed, or its status and hiding time have, with room left for a comment that becomes visible,
-- and one audit event with its actor and both states has been added.
pub set_visibility-cases :
    (id : ℤ) (desired : Status) (max_visible : ℤ) (audit : AuditContext) (s : Session) {c : Comment}
    → (set_visibility id desired max_visible audit s).0 ≡ ok c
    → let after = (set_visibility id desired max_visible audit s).1.db in
      Unchanged id desired s.db after c
      ⊎ ((old : Comment) × Changed id desired max_visible audit s.now s.db after old c)
set_visibility-cases id desired max_visible audit s {c = c} h =
    visibility_rule-cases id max_visible audit s.now s.db _ desired
      ((set_visibility-Means id desired max_visible audit).sound s c h)

-- A failed call leaves every table as it was: there is no status change with no audit event, and
-- no audit event with no status change.
pub db-set_visibility :
    (id : ℤ) (desired : Status) (max_visible : ℤ) (audit : AuditContext) (s : Session) {e : Error}
    → (set_visibility id desired max_visible audit s).0 ≡ err e
    → (set_visibility id desired max_visible audit s).1.db ≡ s.db
unfolding set_visibility
db-set_visibility id desired max_visible audit s h = transaction-atomic _ s h
