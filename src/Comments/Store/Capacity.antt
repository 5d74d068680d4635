-- ===== src/Comments/Store/Capacity.antt =====
-- The invariant of the comments table: identifiers below the next one and distinct, a hiding time
-- exactly on hidden rows, and no post with more visible comments than the limit.
use mathlib.Core.Path.{subst, sym}
use portfolio_backend.Base.{
  ℕ, ◌+◌, ◌≤◌, ◌<◌, ◌≡◌, ◌≢◌, refl, List, [], ◌∷◌, Option, none, some, length, filter, map, find?,
  All, arith, if◌then◌else◌, Bool-cases, inl, inr,
}
use portfolio_backend.Base.Int.{ℤ, pos}
use portfolio_backend.Base.Text.{Text, text_eq_iff}
use portfolio_backend.Errors.{Result, ok, err}
use portfolio_backend.Limiter.{Instant}
use portfolio_backend.Database.{Status, visible, hidden, Comment, Db, Session}
use portfolio_backend.Comments.Store.{
  CreateInput, AuditContext, status_eq, visible_in, count_visible, has_id, find_comment,
  with_status, update_row, create_visible_if_under_limit, set_visibility,
}
use portfolio_backend.Comments.Store.Create.{db-create, Created, create_visible-Created}
use portfolio_backend.Comments.Store.Visibility.{
  db-set_visibility, same_status, Changed, set_visibility-cases,
}

-- comments_hidden_state
abbrev pub Consistent : Status → Option Instant → Type 0
Consistent visible none = Unit
Consistent hidden (some t) = Unit
Consistent visible (some t) = ⊥
Consistent hidden none = ⊥

abbrev pub DistinctIds : List Comment → Type 0
DistinctIds [] = Unit
DistinctIds (c ∷ cs) = All (λ d. d.id ≢ c.id) cs × DistinctIds cs

pub record IsValid (capacity : ℕ) (db : Db) : Type 0 where
  pub below : All (λ c. c.id < db.next_comment_id) db.comments
  pub distinct : DistinctIds db.comments
  pub hidden_state : All (λ c. Consistent c.status c.hidden_at) db.comments
  pub within : (slug : Text) → count_visible slug db ≤ capacity

abbrev visible_rows : Text → List Comment → ℕ
visible_rows slug cs = length (filter (visible_in slug) cs)

below-weaken : (n : ℕ) (cs : List Comment) → All (λ c. c.id < n) cs → All (λ c. c.id < n + 1) cs
below-weaken n [] a = tt
below-weaken n (c ∷ cs) a = (omega arith, below-weaken n cs a.1)

below-distinct : (n : ℕ) (cs : List Comment) → All (λ c. c.id < n) cs → All (λ d. d.id ≢ n) cs
below-distinct n [] a = tt
below-distinct n (c ∷ cs) a = (omega arith, below-distinct n cs a.1)

module _ (id : ℤ) (desired : Status) (now : Instant) where
  abbrev update : Comment → Comment
  update = update_row id desired now

  update-below :
      (n : ℕ) (cs : List Comment) → All (λ c. c.id < n) cs → All (λ c. c.id < n) (map update cs)
  update-below n [] a = tt
  update-below n (c ∷ cs) a = (ground arith, update-below n cs a.1)

  update-ne :
      (n : ℕ) (cs : List Comment) → All (λ d. d.id ≢ n) cs → All (λ d. d.id ≢ n) (map update cs)
  update-ne n [] a = tt
  update-ne n (c ∷ cs) a = (ground arith, update-ne n cs a.1)

  id-update : (c : Comment) → (update c).id ≡ c.id
  id-update c = ground arith

  update-distinct : (cs : List Comment) → DistinctIds cs → DistinctIds (map update cs)
  update-distinct [] a = tt
  update-distinct (c ∷ cs) a = (rw (id-update c) (update-ne c.id cs a.0), update-distinct cs a.1)

  with_status-Consistent :
      (d : Status) (c : Comment)
      → Consistent (with_status d now c).status (with_status d now c).hidden_at
  with_status-Consistent visible c = tt
  with_status-Consistent hidden c = tt

  row-Consistent :
      (c : Comment)
      → Consistent c.status c.hidden_at
      → Consistent (update c).status (update c).hidden_at
  row-Consistent c h = elim (Bool-cases (has_id id c)) [
    | inl e ↦ rw e (with_status-Consistent desired c)
    | inr e ↦ rw e h
  ]

  update-Consistent :
      (cs : List Comment)
      → All (λ c. Consistent c.status c.hidden_at) cs
      → All (λ c. Consistent c.status c.hidden_at) (map update cs)
  update-Consistent [] a = tt
  update-Consistent (c ∷ cs) a = (row-Consistent c a.0, update-Consistent cs a.1)

  -- An identifier that no row has.
  update-absent :
      (n : ℕ) (cs : List Comment) → id ≡ pos n → All (λ d. d.id ≢ n) cs → map update cs ≡ cs
  unfolding has_id
  update-absent n [] e a = refl
  update-absent n (c ∷ cs) e a = ground (arith, update-absent n cs e a.1)

  -- The one row that changes leaves or enters the visible rows of its post.
  count-update :
      (slug : Text) (cs : List Comment) {old : Comment}
      → DistinctIds cs
      → find? (has_id id) cs ≡ some old
      → visible_rows slug (map update cs) + (if visible_in slug old then 1 else 0)
        ≡ visible_rows slug cs + (if visible_in slug (with_status desired now old) then 1 else 0)
  count-update slug [] d h = cc
  count-update slug (c ∷ cs) {old = old} d h = elim (Bool-cases (has_id id c)) [
    | inl e ↦
        let n : id ≡ pos c.id = unfold has_id in ground arith in
        let same : c ≡ old = ground arith in
        rw (e, update-absent c.id cs n d.0) (ground (arith, same))
    | inr e ↦ rw e (ground (arith, count-update slug cs {old = old} d.1 (rw e at h)))
  ]

-- A new visible row counts for its own post.
module _ {input : CreateInput} {capacity : ℕ} {now : Instant} {before after : Db}
    {c : Comment} where
  Created-IsValid :
      Created input (pos capacity) now before after c
      → IsValid capacity before
      → IsValid capacity after
  Created-IsValid k v = subst (IsValid capacity) (sym k.tables) (record {
    below = (omega arith, below-weaken _ _ v.below);
    distinct = (below-distinct _ _ v.below, v.distinct);
    hidden_state = (tt, v.hidden_state);
    within = λ slug.
        unfold count_visible visible_in in
        ground (arith, text_eq_iff input.post_slug slug, k.room, v.within slug);
  })

module _ {id : ℤ} {desired : Status} {capacity : ℕ} {audit : AuditContext} {now : Instant}
    {before after : Db} where
  -- The post of the changed row has room if the row becomes visible; no other post counts more.
  changed_within :
      {old c : Comment}
      → Changed id desired (pos capacity) audit now before after old c
      → IsValid capacity before
      → (slug : Text)
      → visible_rows slug (map (update_row id desired now) before.comments) ≤ capacity
  changed_within {old = old} k v slug =
      let e =
        count-update id desired now slug before.comments {old = old} v.distinct
          (unfold find_comment in k.row) in
      let w = v.within slug in
      elim (Bool-cases (status_eq desired visible)) [
        | inl shows ↦
            unfold visible_in count_visible in
            ground (
              arith,
              e,
              w,
              k.other,
              text_eq_iff old.post_slug slug,
              k.room (same_status desired visible shows),
            )
        | inr hides ↦ unfold visible_in count_visible in ground (arith, e, w, k.other)
      ]

  Changed-IsValid :
      {old c : Comment}
      → Changed id desired (pos capacity) audit now before after old c
      → IsValid capacity before
      → IsValid capacity after
  Changed-IsValid k v = subst (IsValid capacity) (sym k.tables) (record {
    below = update-below id desired now _ _ v.below;
    distinct = update-distinct id desired now _ v.distinct;
    hidden_state = update-Consistent id desired now _ v.hidden_state;
    within = λ slug. unfold count_visible in changed_within k v slug;
  })

-- CreateVisibleIfUnderLimit, called with a limit of `capacity`, keeps the invariant of the
-- comments table, whether it succeeds or fails at any point: identifiers distinct and below the
-- next one, a hiding time exactly on hidden rows, and at most `capacity` visible comments a post.
pub create_visible-IsValid :
    (input : CreateInput) (capacity : ℕ) (s : Session)
    → IsValid capacity s.db
    → IsValid capacity (create_visible_if_under_limit input (pos capacity) s).1.db
create_visible-IsValid input capacity s v =
    go ((create_visible_if_under_limit input (pos capacity) s).0) refl
  where
    go :
        (r : Result Comment)
        → (create_visible_if_under_limit input (pos capacity) s).0 ≡ r
        → IsValid capacity (create_visible_if_under_limit input (pos capacity) s).1.db
    go (ok c) e = Created-IsValid (create_visible-Created input (pos capacity) s e) v
    go (err x) e = subst (IsValid capacity) (sym (db-create input (pos capacity) s e)) v

-- SetVisibility, called with a limit of `capacity`, keeps the same invariant, whether it succeeds
-- or fails at any point, so an unhide cannot bring a post above the limit.
pub set_visibility-IsValid :
    (id : ℤ) (desired : Status) (capacity : ℕ) (audit : AuditContext) (s : Session)
    → IsValid capacity s.db
    → IsValid capacity (set_visibility id desired (pos capacity) audit s).1.db
set_visibility-IsValid id desired capacity audit s v =
    go ((set_visibility id desired (pos capacity) audit s).0) refl
  where
    go :
        (r : Result Comment)
        → (set_visibility id desired (pos capacity) audit s).0 ≡ r
        → IsValid capacity (set_visibility id desired (pos capacity) audit s).1.db
    go (ok c) e = elim (set_visibility-cases id desired (pos capacity) audit s e) [
      | inl u ↦ subst (IsValid capacity) (sym u.tables) v
      | inr (old, k) ↦ Changed-IsValid k v
    ]
    go (err x) e =
        subst (IsValid capacity) (sym (db-set_visibility id desired (pos capacity) audit s e)) v
