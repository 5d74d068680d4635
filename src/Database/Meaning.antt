-- ===== src/Database/Meaning.antt =====
-- What a call means when no round trip fails: a function of the time and the tables. `Means m p`
-- says that `m` gives this meaning: whatever fails, a result of `m` is the one of `p`, with its
-- tables; and if nothing fails, `m` answers what `p` answers, errors included.
use portfolio_backend.Base.{sym, ◌≡◌, refl, ◌∙◌, [], Bool, true, false, if◌then◌else◌, arith}
use portfolio_backend.Errors.{Error, Result, ok, err}
use portfolio_backend.Limiter.{Instant}
use portfolio_backend.Database.{
  Db, Session, Exec, continue, pure, fail, lift, round_trip, query, modify, rolled_back,
  transaction,
}
use portfolio_backend.Database
use mathlib.Core.Path.{subst, fun_ext}

abbrev pub Pure {ℓ} : Type ℓ → Type ℓ
Pure A = Instant → Db → Result (A × Db)

abbrev pub then_do {ℓ κ} :
    {A : Type ℓ} {B : Type κ} → Result (A × Db) → (A → Pure B) → Instant → Result (B × Db)
then_do (ok (a, db)) f now = f a now db
then_do (err e) f now = err e

infixl 5 ◌>>=◌ ◌>>◌
abbrev pub ◌>>=◌ {ℓ κ} : {A : Type ℓ} {B : Type κ} → Pure A → (A → Pure B) → Pure B
◌>>=◌ p f now db = then_do (p now db) f now

abbrev pub ◌>>◌ {ℓ} : {B : Type ℓ} → Pure (Unit {0}) → Pure B → Pure B
p >> q = p >>= λ _. q

abbrev pub returns {ℓ} : {A : Type ℓ} → A → Pure A
returns a now db = ok (a, db)

abbrev pub raises {ℓ} : {A : Type ℓ} → Error → Pure A
raises e now db = err e

abbrev pub raises_if_err {ℓ} : {A : Type ℓ} → Result A → Pure A
raises_if_err (ok a) now db = ok (a, db)
raises_if_err (err e) now db = err e

abbrev pub reads {ℓ} : {A : Type ℓ} → (Db → A) → Pure A
reads f now db = ok (f db, db)

abbrev pub value {ℓ} : {A : Type ℓ} → Result (A × Db) → Result A
value (ok (a, db)) = ok a
value (err e) = err e

pub record Means {ℓ} {A : Type ℓ} (m : Exec A) (p : Pure A) : Type ℓ where
  pub now_kept : (s : Session) → (m s).1.now ≡ s.now
  pub sound : (s : Session) (a : A) → (m s).0 ≡ ok a → p s.now s.db ≡ ok (a, (m s).1.db)
  pub fair :
      (s : Session) → s.faults ≡ [] → ((m s).0 ≡ value (p s.now s.db)) × ((m s).1.faults ≡ [])

module _ {ℓ} {A : Type ℓ} where
  pub Means-pure : (a : A) → Means (pure a) (returns a)
  Means-pure a = record { now_kept = λ s. refl; sound = λ s b h. cc; fair = λ s h. (refl, h) }

  pub Means-fail : (e : Error) → Means {A = A} (fail e) (raises e)
  Means-fail e = record { now_kept = λ s. refl; sound = λ s b h. cc; fair = λ s h. (refl, h) }

  pub Means-lift : (r : Result A) → Means (lift r) (raises_if_err r)
  Means-lift (ok a) = Means-pure a
  Means-lift (err e) = Means-fail e

  pub Means-if :
      (b : Bool) {m n : Exec A} {p q : Pure A}
      → Means m p
      → Means n q
      → Means (if b then m else n) (if b then p else q)
  Means-if true h k = h
  Means-if false h k = k

pub Means-round_trip : Means round_trip (returns tt)
unfolding round_trip
Means-round_trip = record {
  now_kept = λ s. ground arith;
  sound = λ s a h. ground arith;
  fair = λ s h. unfold Database.refused Database.later in ground arith;
}

module _ {ℓ κ} {A : Type ℓ} {B : Type κ} where
  bind_now :
      (r : Result A × Session) (f : A → Exec B) (g : A → Pure B)
      → ((a : A) → Means (f a) (g a))
      → (continue r.0 f r.1).1.now ≡ r.1.now
  bind_now (ok a, s) f g k = (k a).now_kept s
  bind_now (err e, s) f g k = refl

  bind_sound :
      (r : Result A × Session) (f : A → Exec B) (g : A → Pure B) (b : B) (p : Result (A × Db))
      (now : Instant)
      → ((a : A) → Means (f a) (g a))
      → ((a : A) → r.0 ≡ ok a → p ≡ ok (a, r.1.db))
      → r.1.now ≡ now
      → (continue r.0 f r.1).0 ≡ ok b
      → then_do p g now ≡ ok (b, (continue r.0 f r.1).1.db)
  bind_sound (ok a, s) f g b p now k w e h =
      rw (w a refl) (subst (λ t. g a t s.db ≡ ok (b, (f a s).1.db)) e ((k a).sound s b h))
  bind_sound (err c, s) f g b p now k w e h = cc

  bind_fair :
      (r : Result A × Session) (f : A → Exec B) (g : A → Pure B) (p : Result (A × Db))
      (now : Instant)
      → ((a : A) → Means (f a) (g a))
      → ((a : A) → r.0 ≡ ok a → p ≡ ok (a, r.1.db))
      → r.1.now ≡ now
      → r.0 ≡ value p
      → r.1.faults ≡ []
      → ((continue r.0 f r.1).0 ≡ value (then_do p g now)) × ((continue r.0 f r.1).1.faults ≡ [])
  bind_fair (ok a, s) f g p now k w e v h =
      rw (w a refl)
        (subst (λ t. ((f a s).0 ≡ value (g a t s.db)) × ((f a s).1.faults ≡ [])) e ((k a).fair s h))
  bind_fair (err e, s) f g (ok (a, db)) now k w c v h = cc
  bind_fair (err e, s) f g (err e') now k w c v h = (cc, h)

  pub Means-bind :
      (m : Exec A) (f : A → Exec B) (p : Pure A) (g : A → Pure B)
      → Means m p
      → ((a : A) → Means (f a) (g a))
      → Means (Database.◌>>=◌ m f) (p >>= g)
  Means-bind m f p g h k = record {
    now_kept = λ s. bind_now (m s) f g k ∙ h.now_kept s;
    sound = λ s b e. bind_sound (m s) f g b (p s.now s.db) s.now k (h.sound s) (h.now_kept s) e;
    fair = λ s e.
        bind_fair (m s) f g (p s.now s.db) s.now k (h.sound s) (h.now_kept s) (h.fair s e).0
          (h.fair s e).1;
  }

module _ {ℓ} {A : Type ℓ} where
  bare : (f : Instant → Db → Result (A × Db)) → Exec A
  bare f s = elim (f s.now s.db) [ ok (a, db) ↦ (ok a, record s { db = db }) | err e ↦ (err e, s) ]

  bare_go :
      (s : Session) (r : Result (A × Db))
      → let t : Result A × Session = elim r [
        | ok (a, db) ↦ (ok a, record s { db = db })
        | err e ↦ (err e, s)
      ] in
        (t.1.now ≡ s.now)
        × (t.0 ≡ value r)
        × (t.1.faults ≡ s.faults)
        × ((a : A) → t.0 ≡ ok a → r ≡ ok (a, t.1.db))
  bare_go s (ok (a, db)) = (refl, refl, refl, λ b h. cc)
  bare_go s (err e) = (refl, refl, refl, λ b h. cc)

  Means-bare : (f : Instant → Db → Result (A × Db)) → Means (bare f) f
  unfolding bare
  Means-bare f = record {
    now_kept = λ s. (bare_go s (f s.now s.db)).0;
    sound = λ s. (bare_go s (f s.now s.db)).3;
    fair = λ s h. ((bare_go s (f s.now s.db)).1, (bare_go s (f s.now s.db)).2 ∙ h);
  }

  pub Means-modify : (f : Instant → Db → Result (A × Db)) → Means (modify f) f
  unfolding modify bare
  Means-modify f =
      Means-bind round_trip (λ _. bare f) (returns tt) (λ _. f) Means-round_trip (λ _. Means-bare f)

  read_only : (f : Db → A) → Exec A
  read_only f s = (ok (f s.db), s)

  Means-read_only : (f : Db → A) → Means (read_only f) (reads f)
  unfolding read_only
  Means-read_only f = record { now_kept = λ s. refl; sound = λ s a h. cc; fair = λ s h. (refl, h) }

  pub Means-query : (f : Db → A) → Means (query f) (reads f)
  unfolding query read_only
  Means-query f =
      Means-bind round_trip (λ _. read_only f) (returns tt) (λ _. reads f) Means-round_trip
        (λ _. Means-read_only f)

  roll_go :
      (db : Db) (r : Result A × Session)
      → ((rolled_back db r).1.now ≡ r.1.now)
        × ((rolled_back db r).0 ≡ r.0)
        × ((rolled_back db r).1.faults ≡ r.1.faults)
        × ((a : A) → r.0 ≡ ok a → (rolled_back db r).1.db ≡ r.1.db)
  roll_go db (ok a, s) = (refl, refl, refl, λ b h. refl)
  roll_go db (err e, s) = (refl, refl, refl, λ b h. cc)

  abbrev committed : Exec A → Exec A
  committed body =
      Database.◌>>=◌ round_trip
        (λ _. Database.◌>>=◌ body (λ a. Database.◌>>=◌ round_trip (λ _. pure a)))

  then_returns :
      (r : Result (A × Db)) (now : Instant)
      → then_do r (λ a. returns {0} tt >>= λ _. returns a) now ≡ r
  then_returns (ok (a, db)) now = refl
  then_returns (err e) now = refl

  Means-committed : (body : Exec A) (p : Pure A) → Means body p → Means (committed body) p
  Means-committed body p h =
      subst (λ q. Means (committed body) q)
        (fun_ext λ now. fun_ext λ db. then_returns (p now db) now)
        (Means-bind round_trip _ (returns tt) _ Means-round_trip (λ _.
          Means-bind body _ p _ h
            (λ a. Means-bind round_trip _ (returns tt) _ Means-round_trip (λ _. Means-pure a))))

  -- A transaction means what its body means: BEGIN, COMMIT and the locks only can fail.
  pub Means-transaction : (body : Exec A) (p : Pure A) → Means body p → Means (transaction body) p
  unfolding transaction
  Means-transaction body p h =
      let c = Means-committed body p h in
      record {
        now_kept = λ s. (roll_go s.db (committed body s)).0 ∙ c.now_kept s;
        sound = λ s a e.
            let r = roll_go s.db (committed body s) in
            rw (r.3 a (sym r.1 ∙ e)) (c.sound s a (sym r.1 ∙ e));
        fair = λ s e.
            let r = roll_go s.db (committed body s) in (r.1 ∙ (c.fair s e).0, r.2 ∙ (c.fair s e).1);
      }
