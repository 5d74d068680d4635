-- ===== src/Database/Effects.antt =====
-- What a call leaves of the database when it fails.
use portfolio_backend.Base.{arith, ◌≡◌, refl}
use portfolio_backend.Errors.{Error, Result, ok, err}
use portfolio_backend.Database.{
  Instant, modify, Db, Session, Exec, round_trip, rolled_back, transaction,
}

module _ {ℓ} {A : Type ℓ} where
  db-rolled_back :
      (db : Db) (r : Result A × Session) {e : Error}
      → (rolled_back db r).0 ≡ err e
      → (rolled_back db r).1.db ≡ db
  db-rolled_back db (ok a, s) h = cc
  db-rolled_back db (err e, s) h = refl

  -- A failed transaction leaves every table as it was.
  pub transaction-atomic :
      (body : Exec A) (s : Session) {e : Error}
      → (transaction body s).0 ≡ err e
      → (transaction body s).1.db ≡ s.db
  unfolding transaction
  transaction-atomic body s h = db-rolled_back s.db _ h

pub db-round_trip : (s : Session) → (round_trip s).1.db ≡ s.db
unfolding round_trip
db-round_trip s = ground arith

-- A statement that fails has changed nothing.
pub db-modify {ℓ} :
    {A : Type ℓ} (f : Instant → Db → Result (A × Db)) (s : Session) {e : Error}
    → (modify f s).0 ≡ err e
    → (modify f s).1.db ≡ s.db
unfolding modify round_trip
db-modify f s h = ground arith
