-- ===== src/Limiter.antt =====
-- internal/platform/ratelimit: the fixed-window limiter that a pod keeps per visitor.
-- A visitor's 32 bytes are read as one number. An instant is a number of nanoseconds since a fixed
-- past instant, and a duration is an integer number of them. The mutex makes each call one step.
pub mod Rules
pub mod Bounds
pub mod Window
use portfolio_backend.Base.{
  ℕ, ◌+◌, List, [], ◌∷◌, Bool, true, false, not, ◌||◌, Option, none, some, length, filter, leb,
  if◌then◌else◌,
}
use portfolio_backend.Base.Int.{ℤ, pos, sub_ℕ, leb_ℤ}
use portfolio_backend.Base.Assoc.{lookup, insert, nat_eq}

abbrev pub VisitorHash : Type 0
VisitorHash = ℕ

abbrev pub Instant : Type 0
Instant = ℕ

pub record VisitorState : Type 0 where
  pub window_start : Instant
  pub count : ℕ

pub record Limiter : Type 0 where
  pub limit : ℤ
  pub window : ℤ
  pub max_keys : ℤ
  pub user : List (VisitorHash × VisitorState)

-- NewAssignmentLimiter
abbrev pub new_limiter : ℤ → ℤ → ℤ → Limiter
new_limiter limit window max_keys = record {
  limit = limit;
  window = window;
  max_keys = max_keys;
  user = [];
}

-- now.Sub(state.windowStart) >= limiter.window
unfoldable pub expired : Limiter → Instant → VisitorState → Bool
expired l now state = leb_ℤ l.window (sub_ℕ now state.window_start)

abbrev pub fresh : Instant → VisitorState
fresh now = record { window_start = now; count = 1 }

unfoldable pub remove_expired : Instant → Limiter → Limiter
remove_expired now l = record l { user = filter (λ e. not (expired l now e.1)) l.user }

unfoldable pub full : Limiter → Bool
full l = leb_ℤ l.max_keys (pos (length l.user))

unfoldable pub misconfigured : Limiter → Bool
misconfigured l = leb_ℤ l.limit (pos 0) || leb_ℤ l.window (pos 0) || leb_ℤ l.max_keys (pos 0)

unfoldable pub put_state : VisitorHash → VisitorState → Limiter → Limiter
put_state visitor state l = record l { user = insert visitor state l.user }

-- The branch for a visitor whose state is held.
unfoldable pub allow_known : VisitorHash → Instant → VisitorState → Limiter → Bool × Limiter
allow_known visitor now state l =
    if expired l now state
    then (true, put_state visitor (fresh now) l)
    else if leb_ℤ l.limit (pos state.count)
    then (false, l)
    else (true, put_state visitor (record state { count = state.count + 1 }) l)

-- The branch for a new visitor, after the sweep where one is made.
unfoldable pub admit : VisitorHash → Instant → Limiter → Bool × Limiter
admit visitor now l = if full l then (false, l) else (true, put_state visitor (fresh now) l)

unfoldable pub allow_new : VisitorHash → Instant → Limiter → Bool × Limiter
allow_new visitor now l =
    if full l then admit visitor now (remove_expired now l) else admit visitor now l

unfoldable pub allow : VisitorHash → Instant → Limiter → Bool × Limiter
allow visitor now l = if misconfigured l then (false, l) else elim (lookup visitor l.user) [
  | some state ↦ allow_known visitor now state l
  | none ↦ allow_new visitor now l
]

pub size : Limiter → ℕ
size l = length l.user
