-- ===== src/Limiter/Rules.antt =====
-- What one call of `allow` answers, and what it leaves alone.
use portfolio_backend.Base.{
  ℕ, ◌≡◌, ◌≢◌, Bool, false, not, ◌&&◌, ◌||◌, Option, none, some, length, filter, length-filter-le,
  ==_iff, arith,
}
use portfolio_backend.Base.Int.{pos, leb_ℤ}
use portfolio_backend.Base.Assoc.{lookup, Distinct, nat_eq, lookup-insert, lookup-filter}
use portfolio_backend.Limiter.{
  VisitorHash, Instant, VisitorState, Limiter, expired, remove_expired, full, misconfigured,
  put_state, allow_known, admit, allow_new, allow,
}

-- the entries whose window is still running
unfoldable pub active : Instant → Limiter → ℕ
active now l = length (filter (λ e. not (expired l now e.1)) l.user)

-- whether a held or missing state leaves room for one more request
unfoldable pub has_allowance : Instant → Limiter → Option VisitorState → Bool
has_allowance now l none = not (leb_ℤ l.max_keys (pos (active now l)))
has_allowance now l (some state) = expired l now state || not (leb_ℤ l.limit (pos state.count))

-- A request is allowed exactly when the limiter is configured with positive values and, for a held
-- visitor, its window is over or its count is below the limit, for another one, fewer than
-- `max_keys` entries are still active (whether or not expired entries are held).
pub allow-eq-has_allowance :
    (visitor : VisitorHash) (now : Instant) (l : Limiter)
    → (allow visitor now l).0
      ≡ (not (misconfigured l) && has_allowance now l (lookup visitor l.user))
unfolding allow allow_known allow_new admit full remove_expired has_allowance active
allow-eq-has_allowance visitor now l =
    ground
      (arith, length-filter-le (λ (e : VisitorHash × VisitorState). not (expired l now e.1)) l.user)

-- A request changes no setting.
pub allow-settings :
    (visitor : VisitorHash) (now : Instant) (l : Limiter)
    → let l' = (allow visitor now l).1 in
      (l'.limit ≡ l.limit) × (l'.window ≡ l.window) × (l'.max_keys ≡ l.max_keys)
unfolding allow allow_known allow_new admit full remove_expired put_state
allow-settings visitor now l = ground arith

-- A request of one visitor leaves the state of any other one as it was, unless that one's window
-- is over: an active entry is never evicted to make room.
pub lookup-allow_ne :
    (visitor other : VisitorHash) (now : Instant) (l : Limiter) {state : VisitorState}
    → visitor ≢ other
    → Distinct l.user
    → lookup other l.user ≡ some state
    → expired l now state ≡ false
    → lookup other (allow visitor now l).1.user ≡ some state
unfolding allow allow_known allow_new admit full remove_expired put_state
lookup-allow_ne visitor other now l ne d held running =
    grind (arith, ==_iff, lookup-insert, lookup-filter)
