-- ===== src/Limiter/Window.antt =====
-- How many requests of a visitor are allowed while its window runs, whatever other visitors do.
use portfolio_backend.Base.{
  ltb→ge, ltb→lt, ltb, ◌∙◌, ℕ, ◌+◌, ◌-◌, ◌≤◌, ◌<◌, ◌≡◌, ◌≢◌, List, [], ◌∷◌, true, false, ◌&&◌, none,
  some, All, Bool-cases, inl, inr, arith, ◌==◌, ==_iff, if◌then◌else◌, ◌⊎◌,
}
use Prim.Native.Nat.{min}
use portfolio_backend.Base.Int.{pos}
use portfolio_backend.Base.Assoc.{lookup, nat_eq, lookup-insert}
use portfolio_backend.Limiter.{
  remove_expired, VisitorHash, Instant, VisitorState, Limiter, expired, fresh, misconfigured,
  put_state, allow_known, allow_new, admit, allow,
}
use portfolio_backend.Limiter.Rules.{allow-settings, lookup-allow_ne}
use portfolio_backend.Limiter.Bounds.{IsValid, allow-IsValid}

pub record Request : Type 0 where
  pub visitor : VisitorHash
  pub now : Instant

-- the requests of a visitor
unfoldable pub requests_of : VisitorHash → List Request → ℕ
requests_of v [] = 0
requests_of v (r ∷ rs) = (if r.visitor == v then 1 else 0) + requests_of v rs

-- The limiter after a sequence of requests, in the order in which the mutex admits them.
unfoldable pub after : List Request → Limiter → Limiter
after [] l = l
after (r ∷ rs) l = after rs (allow r.visitor r.now l).1

-- the requests of a visitor that are allowed
unfoldable pub allowed : VisitorHash → List Request → Limiter → ℕ
allowed v [] l = 0
allowed v (r ∷ rs) l =
    (if r.visitor == v && (allow r.visitor r.now l).0 then 1 else 0)
    + allowed v rs (allow r.visitor r.now l).1

-- The visitor's window that began at `start` has not ended at any of the requests.
abbrev pub Within : Instant → ℕ → List Request → Type 0
Within start window = All (λ r. r.now < start + window)

-- A visitor with an allowance used up to `count` in a window that began at `start`.
pub record Holds (limit window : ℕ) (v : VisitorHash) (state : VisitorState) (l : Limiter)
    : Type 0 where
  pub limit_is : l.limit ≡ pos limit
  pub window_is : l.window ≡ pos window
  pub proper : misconfigured l ≡ false
  pub valid : IsValid l
  pub held : lookup v l.user ≡ some state

module _ (limit window : ℕ) (v : VisitorHash) where
  running :
      (state : VisitorState) (now : Instant) (l : Limiter)
      → Holds limit window v state l
      → now < state.window_start + window
      → expired l now state ≡ false
  unfolding expired
  running state now l h early = ground arith

  proper-allow :
      (u : VisitorHash) (now : Instant) (l : Limiter)
      → misconfigured l ≡ false
      → misconfigured (allow u now l).1 ≡ false
  unfolding misconfigured
  proper-allow u now l p = ground (arith, allow-settings u now l)

  -- another visitor's request
  Holds-allow_ne :
      (u : VisitorHash) (now : Instant) (state : VisitorState) (l : Limiter)
      → u ≢ v
      → now < state.window_start + window
      → Holds limit window v state l
      → Holds limit window v state (allow u now l).1
  Holds-allow_ne u now state l ne early h =
      let s = allow-settings u now l in
      record {
        limit_is = s.0 ∙ h.limit_is;
        window_is = s.1 ∙ h.window_is;
        proper = proper-allow u now l h.proper;
        valid = allow-IsValid u now l h.valid;
        held = lookup-allow_ne u v now l ne h.valid.distinct h.held (running state now l h early);
      }

  abbrev counted_on : VisitorState → VisitorState
  counted_on state = record state { count = state.count + 1 }

  -- the visitor's own request, with allowance left
  own_allowed :
      (now : Instant) (state : VisitorState) (l : Limiter)
      → now < state.window_start + window
      → state.count < limit
      → Holds limit window v state l
      → ((allow v now l).0 ≡ true) × (Holds limit window v (counted_on state) (allow v now l).1)
  own_allowed now state l early room h =
      let s = allow-settings v now l in
      let e = running state now l h early in
      (
        unfold allow allow_known in ground (arith, h.proper, h.held, h.limit_is, e),
        record {
          limit_is = s.0 ∙ h.limit_is;
          window_is = s.1 ∙ h.window_is;
          proper = proper-allow v now l h.proper;
          valid = allow-IsValid v now l h.valid;
          held =
              unfold allow allow_known put_state in
              ground (
                arith,
                h.proper,
                h.held,
                h.limit_is,
                e,
                ==_iff v v,
                lookup-insert v v (counted_on state) l.user,
              );
        },
      )

  -- and with none left
  own_denied :
      (now : Instant) (state : VisitorState) (l : Limiter)
      → now < state.window_start + window
      → limit ≤ state.count
      → Holds limit window v state l
      → ((allow v now l).0 ≡ false) × ((allow v now l).1 ≡ l)
  unfolding allow allow_known
  own_denied now state l early spent h = ground (arith, running state now l h early)

  -- From any state that holds the visitor, while its window runs: of its requests exactly as many
  -- are allowed as its allowance has left, or all of them if they are fewer. Requests of other
  -- visitors between them, and the sweeps that they make, change nothing.
  pub window_allowance :
      (rs : List Request) (state : VisitorState) (l : Limiter)
      → Holds limit window v state l
      → Within state.window_start window rs
      → allowed v rs l ≡ min (limit - state.count) (requests_of v rs)
  unfolding allowed requests_of
  window_allowance [] state l h w = omega arith
  window_allowance (r ∷ rs) state l h w = elim (Bool-cases (r.visitor == v)) [
    | inr other ↦ ground (
      arith,
      ==_iff r.visitor v,
      window_allowance rs state (allow r.visitor r.now l).1
          (Holds-allow_ne r.visitor r.now state l
            (λ e. ground (arith, e, other, ==_iff r.visitor v)) w.0 h)
          w.1,
    )
    | inl own ↦
        let e : r.visitor ≡ v = (==_iff r.visitor v).0 own in
        rw e (elim (Bool-cases (ltb state.count limit)) [
          | inl room ↦
              let step = own_allowed r.now state l w.0 (ltb→lt _ _ room) h in
              ground (
                arith,
                ==_iff v v,
                step.0,
                window_allowance rs (counted_on state) (allow v r.now l).1 step.1 w.1,
              )
          | inr spent ↦
              let step = own_denied r.now state l w.0 (ltb→ge _ _ spent) h in
              rw step.1 (ground (arith, ==_iff v v, step.0, window_allowance rs state l h w.1))
        ])
  ]

-- An allowed request of a visitor that is new, or whose window is over, opens a window.
admission-Holds :
    (v : VisitorHash) (now : Instant) (l : Limiter) {limit window : ℕ}
    → l.limit ≡ pos limit
    → l.window ≡ pos window
    → IsValid l
    → (lookup v l.user ≡ none)
      ⊎ ((old : VisitorState) × (lookup v l.user ≡ some old) × (expired l now old ≡ true))
    → (allow v now l).0 ≡ true
    → Holds limit window v (fresh now) (allow v now l).1
admission-Holds v now l {limit = limit} {window = window} el ew valid opens ok =
    let s = allow-settings v now l in
    let p : misconfigured l ≡ false = unfold allow in ground (arith, ok) in
    record {
      limit_is = s.0 ∙ el;
      window_is = s.1 ∙ ew;
      proper = proper-allow limit window v v now l p;
      valid = allow-IsValid v now l valid;
      held =
          unfold allow allow_known allow_new admit put_state in
          ground (
            arith,
            p,
            opens,
            ==_iff v v,
            lookup-insert v v (fresh now) l.user,
            lookup-insert v v (fresh now) (remove_expired now l).user,
          );
    }

-- Fixed windows: once an allowed request of a visitor that is new, or whose window is over, has
-- opened a window, of that request and the visitor's later ones while the window runs exactly
-- `limit` are allowed, or all of them if they are fewer, whatever other visitors do.
pub fixed_window :
    (v : VisitorHash) (now : Instant) (l : Limiter) (rs : List Request) {limit window : ℕ}
    → l.limit ≡ pos limit
    → l.window ≡ pos window
    → IsValid l
    → (lookup v l.user ≡ none)
      ⊎ ((old : VisitorState) × (lookup v l.user ≡ some old) × (expired l now old ≡ true))
    → (allow v now l).0 ≡ true
    → Within now window rs
    → allowed v (record { visitor = v; now = now } ∷ rs) l ≡ min limit (1 + requests_of v rs)
unfolding allowed
fixed_window v now l rs {limit = limit} {window = window} el ew valid opens ok w =
    let h = admission-Holds v now l el ew valid opens ok in
    let positive : 1 ≤ limit = unfold allow misconfigured in ground (arith, ok, el) in
    ground
      (arith, ok, ==_iff v v, window_allowance limit window v rs (fresh now) (allow v now l).1 h w)
