-- ===== src/Http/Health.antt =====
-- internal/httpapi/health.go: the probes. The pinger of the database is a round trip, if there is one.
use portfolio_backend.Base.{◌≡◌, ◌↔◌, refl, Option, none, some, arith, inl, inr}
use portfolio_backend.Base.Text.{bytes}
use portfolio_backend.Errors.{Result, ok, err, Result-cases}
use portfolio_backend.Database.{Exec}
use portfolio_backend.Http.{World, Response, health, write_json, Handler, call}

unfoldable pub healthz : Handler
healthz w = (write_json 200 (health (bytes "ok")), w)

abbrev pub readiness : Result (Unit {0}) → Response
readiness (ok u) = write_json 200 (health (bytes "ready"))
readiness (err e) = write_json 503 (health (bytes "unavailable"))

unfoldable pub readyz : Option (Exec (Unit {0})) → Handler
readyz none w = (write_json 503 (health (bytes "unavailable")), w)
readyz (some ping) w = call ping readiness w

-- The probe is ready exactly if there is a pinger and its ping succeeds.
pub readyz_iff :
    (database : Option (Exec (Unit {0}))) (w : World)
    → ((readyz database w).0.status ≡ 200)
      ↔ ((ping : Exec (Unit {0})) × (database ≡ some ping) × ((ping w.session).0 ≡ ok tt))
unfolding readyz
readyz_iff none w = (λ h. absurd (omega arith), λ h. cc)
readyz_iff (some ping) w = elim (Result-cases (ping w.session).0) [
  | inl (u, fine) ↦ (λ h. (ping, refl, fine), λ h. rw fine refl)
  | inr (e, failed) ↦ (
    λ h. absurd (omega (arith, rw failed at h)),
    λ (p, same, fine). absurd (ground (arith, failed, same, fine)),
  )
]
