-- ===== src/Limiter/Bounds.antt =====
-- The limiter's invariant: one entry a visitor, no more entries than the retention bound, and
-- counts within the allowance.
use portfolio_backend.Base.{
  Bool-cases, ◌+◌, ◌≤◌, ◌≡◌, false, not, none, some, length, length-filter-le, All, Option-cases,
  inl, inr, arith,
}
use portfolio_backend.Base.Int.{ℤ, pos, pos_part, leb_ℤ}
use portfolio_backend.Base.Assoc.{
  lookup, Distinct, nat_eq, insert-Distinct, filter-Distinct, length-insert_new, length-insert_old,
  lookup-filter, All-insert, All-filter, All-lookup,
}
use portfolio_backend.Limiter.{
  VisitorHash, Instant, VisitorState, Limiter, new_limiter, expired, fresh, remove_expired, full,
  misconfigured, put_state, allow_known, admit, allow_new, allow,
}

abbrev pub Counted : Limiter → VisitorHash × VisitorState → Type 0
Counted l e = (1 ≤ e.1.count) × (e.1.count ≤ pos_part l.limit)

pub record IsValid (l : Limiter) : Type 0 where
  pub distinct : Distinct l.user
  pub bounded : length l.user ≤ pos_part l.max_keys
  pub counted : All (Counted l) l.user

pub IsValid-new : (limit window max_keys : ℤ) → IsValid (new_limiter limit window max_keys)
IsValid-new limit window max_keys = record { distinct = tt; bounded = omega arith; counted = tt }

module _ (visitor : VisitorHash) (now : Instant) where
  remove_expired-IsValid : (l : Limiter) → IsValid l → IsValid (remove_expired now l)
  unfolding remove_expired
  remove_expired-IsValid l v = record {
    distinct = filter-Distinct _ l.user v.distinct;
    bounded = omega (
      arith,
      v.bounded,
      length-filter-le (λ (e : VisitorHash × VisitorState). not (expired l now e.1)) l.user,
    );
    counted = All-filter (Counted l) _ l.user v.counted;
  }

  -- A replaced entry leaves the number of entries as it is.
  put_old-IsValid :
      (l : Limiter) (old state : VisitorState)
      → IsValid l
      → lookup visitor l.user ≡ some old
      → Counted l (visitor, state)
      → IsValid (put_state visitor state l)
  unfolding put_state
  put_old-IsValid l old state v held c = record {
    distinct = insert-Distinct visitor state l.user v.distinct;
    bounded = rw (length-insert_old visitor state l.user held) v.bounded;
    counted = All-insert (Counted l) visitor state l.user v.counted c;
  }

  put_new-IsValid :
      (l : Limiter) (state : VisitorState)
      → IsValid l
      → lookup visitor l.user ≡ none
      → full l ≡ false
      → Counted l (visitor, state)
      → IsValid (put_state visitor state l)
  unfolding put_state full
  put_new-IsValid l state v unheld room c = record {
    distinct = insert-Distinct visitor state l.user v.distinct;
    bounded = rw (length-insert_new visitor state l.user unheld) (ground arith);
    counted = All-insert (Counted l) visitor state l.user v.counted c;
  }

  admit-IsValid :
      (l : Limiter)
      → IsValid l
      → lookup visitor l.user ≡ none
      → 1 ≤ pos_part l.limit
      → IsValid (admit visitor now l).1
  unfolding admit
  admit-IsValid l v unheld positive = elim (Bool-cases (full l)) [
    | inl e ↦ rw e v
    | inr e ↦ rw e (put_new-IsValid l (fresh now) v unheld e (omega arith))
  ]

  allow_new-IsValid :
      (l : Limiter)
      → IsValid l
      → lookup visitor l.user ≡ none
      → 1 ≤ pos_part l.limit
      → IsValid (allow_new visitor now l).1
  unfolding allow_new
  allow_new-IsValid l v unheld positive = elim (Bool-cases (full l)) [
    | inl e ↦ rw e (
        admit-IsValid (remove_expired now l) (remove_expired-IsValid l v)
          (unfold remove_expired in rw (lookup-filter _ visitor l.user v.distinct, unheld))
          (unfold remove_expired in positive))
    | inr e ↦ rw e (admit-IsValid l v unheld positive)
  ]

  allow_known-IsValid :
      (l : Limiter) (state : VisitorState)
      → IsValid l
      → lookup visitor l.user ≡ some state
      → 1 ≤ pos_part l.limit
      → IsValid (allow_known visitor now state l).1
  unfolding allow_known
  allow_known-IsValid l state v held positive =
      let c : Counted l (visitor, state) = All-lookup (Counted l) visitor l.user v.counted held in
      elim (Bool-cases (expired l now state)) [
        | inl e ↦ rw e (put_old-IsValid l state (fresh now) v held (omega arith))
        | inr e ↦ elim (Bool-cases (leb_ℤ l.limit (pos state.count))) [
          | inl f ↦ rw (e, f) v
          | inr f ↦
              rw (e, f)
                (put_old-IsValid l state (record state { count = state.count + 1 }) v held
                  (ground arith))
        ]
      ]

  -- Every request, allowed or not, leaves one entry a visitor, at most `max_keys` entries, and
  -- every count between 1 and the limit.
  pub allow-IsValid : (l : Limiter) → IsValid l → IsValid (allow visitor now l).1
  unfolding allow
  allow-IsValid l v = elim (Bool-cases (misconfigured l)) [
    | inl e ↦ rw e v
    | inr e ↦
        let positive : 1 ≤ pos_part l.limit = unfold misconfigured in ground arith in
        elim (Option-cases (lookup visitor l.user)) [
          | inl unheld ↦ rw (e, unheld) (allow_new-IsValid l v unheld positive)
          | inr (state, held) ↦ rw (e, held) (allow_known-IsValid l state v held positive)
        ]
  ]
