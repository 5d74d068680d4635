-- ===== src/Commands/Api/Starts.antt =====
-- cmd/api/main.go: what must hold for the API to end without an error.
use portfolio_backend.Base.{◌≡◌, refl, Bool, true, some, arith, Option-cases, Bool-cases, inl, inr}
use portfolio_backend.Base.Text.{Text}
use portfolio_backend.Database.Pool.{Driver, open_pool}
use portfolio_backend.Config.{Config, Duration}
use portfolio_backend.Config.Env.{Library, Loaded, loaded, problem}
use portfolio_backend.Config.Load.{load_api}
use portfolio_backend.Config.Validity.{IsApiValid, load_api-IsApiValid}
use portfolio_backend.App.Serve.{Outcome, clean, serve_failed, shutdown_failed, stop_failed}
use portfolio_backend.Commands.{loaded_config}
use portfolio_backend.Commands.Api.{Server, server, is_clean, run, api_main}

is_clean-clean : (o : Outcome) → is_clean o ≡ true → o ≡ clean
is_clean-clean clean h = refl
is_clean-clean serve_failed h = cc
is_clean-clean shutdown_failed h = cc
is_clean-clean stop_failed h = cc

loaded_config-loaded :
    {Prefix : Type 0} (m : Loaded (Config Prefix)) {c : Config Prefix}
    → loaded_config m ≡ some c
    → m ≡ loaded c
loaded_config-loaded (loaded d) e = ground arith
loaded_config-loaded (problem p) e = cc

module _ {Prefix Rest Pool : Type 0} (driver : Driver Rest Pool) (listens : Text → Bool)
    (serve : Server → Duration → Outcome) where
  run-clean :
      (c : Config Prefix)
      → run driver listens serve c ≡ true
      → ((pool : Pool) × (open_pool driver c.database ≡ some pool))
        × (listens c.http.address ≡ true)
        × (serve (server c) c.http.shutdown_timeout ≡ clean)
  unfolding run
  run-clean c h = elim (Option-cases (open_pool driver c.database)) [
    | inl closed ↦ absurd (ground (arith, closed, h))
    | inr (pool, opened) ↦ elim (Bool-cases (listens c.http.address)) [
      | inl listening ↦ (
        (pool, opened),
        listening,
        is_clean-clean (serve (server c) c.http.shutdown_timeout)
            (ground (arith, opened, listening, h)),
      )
      | inr deaf ↦ absurd (ground (arith, opened, deaf, h))
    ]
  ]

  -- The API exits with 0 only if its environment gave a valid configuration with a key of 32 bytes
  -- or more and an administrator, the pool was opened and the address listened on with that
  -- configuration, and serve ended cleanly.
  pub api_main-Starts :
      (lib : Library Prefix)
      → api_main driver listens serve (some lib) ≡ 0
      → (c : Config Prefix) × (load_api lib ≡ loaded c)
        × IsApiValid lib c
        × ((pool : Pool) × (open_pool driver c.database ≡ some pool))
        × (listens c.http.address ≡ true)
        × (serve (server c) c.http.shutdown_timeout ≡ clean)
  unfolding api_main
  api_main-Starts lib h = elim (Option-cases (loaded_config (load_api lib))) [
    | inl bad ↦ absurd (ground (arith, bad, h))
    | inr (c, good) ↦
        let is_loaded = loaded_config-loaded (load_api lib) good in
        let ran = run-clean c (elim (Bool-cases (run driver listens serve c)) [
          | inl ended ↦ ended
          | inr failed ↦ absurd (ground (arith, good, failed, h))
        ]) in
        (c, is_loaded, load_api-IsApiValid lib is_loaded, ran.0, ran.1, ran.2)
  ]
