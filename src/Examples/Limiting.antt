-- ===== src/Examples/Limiting.antt =====
-- internal/platform/ratelimit at three visitors and a limit of two a minute.
use Prim.Native.Nat.{min}
use portfolio_backend.Base.{arith, ◌+◌, ◌≡◌, refl, List, [], ◌∷◌, true, false, not, ◌&&◌, none, inl}
use portfolio_backend.Base.Int.{pos}
use portfolio_backend.Base.Assoc.{lookup, insert, nat_eq}
use portfolio_backend.Limiter.{
  Limiter, new_limiter, expired, remove_expired, full, misconfigured, put_state, allow_known, admit,
  allow_new, allow,
}
use portfolio_backend.Limiter.Rules.{active, has_allowance, allow-eq-has_allowance}
use portfolio_backend.Limiter.Bounds.{IsValid, IsValid-new, allow-IsValid}
use portfolio_backend.Limiter.Window.{Request, requests_of, allowed, after, fixed_window}

abbrev per_minute : Limiter
per_minute = new_limiter (pos 2) (pos 60) (pos 2)

abbrev mixed_requests : List Request
mixed_requests =
    record { visitor = 7; now = 110 }
    ∷ record { visitor = 8; now = 120 }
    ∷ record { visitor = 7; now = 130 }
    ∷ record { visitor = 9; now = 150 }
    ∷ record { visitor = 7; now = 159 }
    ∷ []

program : Unit {0}
unfolding allow allow_known allow_new admit full misconfigured remove_expired put_state expired
    lookup insert active has_allowance requests_of allowed after
program = tt

-- The third visitor finds the two places taken, and gets one when they have expired.
third_visitor :
    ((allow 9 150 (after mixed_requests per_minute)).0 ≡ false)
    × ((allow 9 200 (after mixed_requests per_minute)).0 ≡ true)
unfolding program
third_visitor = (refl, refl)

first_allowed : (allow 7 100 per_minute).0 ≡ true
unfolding program
first_allowed = refl

none_held : lookup 7 per_minute.user ≡ none
unfolding program
none_held = refl

fixed_window_example :
    allowed 7 (record { visitor = 7; now = 100 } ∷ mixed_requests) per_minute
    ≡ min 2 (1 + requests_of 7 mixed_requests)
fixed_window_example =
    fixed_window 7 100 per_minute mixed_requests refl refl (IsValid-new (pos 2) (pos 60) (pos 2))
      (inl none_held) first_allowed (omega arith)

allow-eq-has_allowance_example :
    (allow 9 200 per_minute).0
    ≡ (not (misconfigured per_minute) && has_allowance 200 per_minute (lookup 9 per_minute.user))
allow-eq-has_allowance_example = allow-eq-has_allowance 9 200 per_minute

allow-IsValid_example : IsValid (allow 7 100 per_minute).1
allow-IsValid_example = allow-IsValid 7 100 per_minute (IsValid-new (pos 2) (pos 60) (pos 2))
