-- ===== src/Database.antt =====
-- The PostgreSQL database behind the stores: the tables of migrations/*.sql that they use, and what
-- one statement or one transaction does to them.
--
-- A statement is a round trip that the connection may refuse: `faults` says which of the coming
-- round trips fail, so that a theorem over all sessions is one over every pattern of failures. A
-- statement or a commit that reports a failure has not taken effect. `now` is the server's time.
-- The locks that the transactions take make each of them one step here.
pub mod Effects
pub mod Meaning
pub mod Pool
use portfolio_backend.Base.{ℕ, List, [], ◌∷◌, Bool, true, false, Option, if◌then◌else◌}
use portfolio_backend.Base.Text.{Text}
use portfolio_backend.Errors.{Error, internal, Result, ok, err}
use portfolio_backend.Limiter.{VisitorHash, Instant}

-- a row of content_items, under its slug
pub record ContentItem : Type 0 where
  pub kind : Text
  pub status : Text
  pub comments_enabled : Bool
  pub managed_by : Text
  pub updated_at : Instant

-- comments.Status, as the table's CHECK constraint allows it
pub data Status : Type 0 where
  visible hidden : Status

-- A row of comments. The statements return its columns but visitor_hash, and no handler shows that.
pub record Comment : Type 0 where
  pub id : ℕ
  pub post_slug : Text
  pub author_name : Text
  pub body : Text
  pub status : Status
  pub created_at : Instant
  pub hidden_at : Option Instant
  pub visitor_hash : VisitorHash

pub data EventType : Type 0 where
  comment_hide comment_unhide : EventType

-- a row of admin_audit_events
pub record AuditEvent : Type 0 where
  pub event_type : EventType
  pub actor_id : Text
  pub request_id : Option Text
  pub resource_id : ℕ
  pub previous_state : Status
  pub new_state : Status

pub record Db : Type 0 where
  pub content_items : List (Text × ContentItem)
  pub comments : List Comment
  -- the next value of the identity column of comments
  pub next_comment_id : ℕ
  pub audit_events : List AuditEvent
  -- the rows of post_likes
  pub post_likes : List (Text × VisitorHash)
  -- last_counted_at in post_view_visitors, in microseconds
  pub post_view_visitors : List ((Text × VisitorHash) × ℕ)
  -- view_count in post_stats
  pub post_stats : List (Text × ℕ)

pub record Session : Type 0 where
  pub db : Db
  pub now : Instant
  pub faults : List Bool

-- A call of a store: its result beside the session that it leaves.
abbrev pub Exec {ℓ} : Type ℓ → Type ℓ
Exec A = Session → Result A × Session

abbrev pub continue {ℓ κ} : {A : Type ℓ} {B : Type κ} → Result A → (A → Exec B) → Exec B
continue (ok a) f s = f a s
continue (err e) f s = (err e, s)

infixl 5 ◌>>=◌ ◌>>◌
abbrev pub ◌>>=◌ {ℓ κ} : {A : Type ℓ} {B : Type κ} → Exec A → (A → Exec B) → Exec B
◌>>=◌ m f s = continue (m s).0 f (m s).1

abbrev pub ◌>>◌ {ℓ} : {B : Type ℓ} → Exec (Unit {0}) → Exec B → Exec B
m >> k = m >>= λ _. k

abbrev pub pure {ℓ} : {A : Type ℓ} → A → Exec A
pure a s = (ok a, s)

abbrev pub fail {ℓ} : {A : Type ℓ} → Error → Exec A
fail e s = (err e, s)

abbrev pub lift {ℓ} : {A : Type ℓ} → Result A → Exec A
lift r s = (r, s)

unfoldable pub refused : List Bool → Bool
refused [] = false
refused (f ∷ fs) = f

unfoldable pub later : List Bool → List Bool
later [] = []
later (f ∷ fs) = fs

-- One round trip: a statement with no result that the program uses, such as a lock.
unfoldable pub round_trip : Exec (Unit {0})
round_trip s =
    let s' : Session = record s { faults = later s.faults } in
    if refused s.faults then (err internal, s') else (ok tt, s')

-- A SELECT.
unfoldable pub query {ℓ} : {A : Type ℓ} → (Db → A) → Exec A
query f = do round_trip; λ s. (ok (f s.db), s)

-- A statement that changes rows; it may violate a constraint.
unfoldable pub modify {ℓ} : {A : Type ℓ} → (Instant → Db → Result (A × Db)) → Exec A
modify {A = A} f = do
  round_trip
  λ s. elim (f s.now s.db) [ ok (a, db) ↦ (ok a, record s { db = db }) | err e ↦ (err e, s) ]

-- ROLLBACK: the deferred one of every transaction.
abbrev pub rolled_back {ℓ} : {A : Type ℓ} → Db → Result A × Session → Result A × Session
rolled_back db (ok a, s) = (ok a, s)
rolled_back db (err e, s) = (err e, record s { db = db })

-- BEGIN, the statements, COMMIT; any failure rolls back.
unfoldable pub transaction {ℓ} : {A : Type ℓ} → Exec A → Exec A
transaction body s = rolled_back s.db ((do round_trip; a ← body; round_trip; pure a) s)
