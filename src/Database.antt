-- ===== src/Database.antt =====
-- The tables of the PostgreSQL database that the sync service works on, with the columns that its
-- statements name, and its transactions (sub2api-sync/sub2api_sync.py).
pub mod Tables
pub mod Transaction
pub mod ReadOnly
pub mod Keeps
use sub2api_gate.Base.{
  ℕ, Bool, true, false, not, ◌&&◌, ◌||◌, Option, none, some, List, [], ◌∷◌, ◌++◌, Text,
  if◌then◌else◌, Raised, Result, ok, err,
}

pub record User : Type 0 where
  pub id : ℕ
  pub username : Text
  pub role : Text
  pub email : Text
  pub password_hash : Text
  pub notes : Text
  pub balance : ℕ
  pub status : Text
  pub deleted : Bool

pub record ApiKey : Type 0 where
  pub id : ℕ
  pub user_id : ℕ
  pub key : Text
  pub name : Text
  pub group_id : ℕ
  pub status : Text
  pub quota : Text
  pub quota_used : Text
  pub deleted : Bool

pub record Subscription : Type 0 where
  pub user_id : ℕ
  pub group_id : ℕ
  pub status : Text
  pub expires_at : ℕ
  pub deleted : Bool

-- `user_allowed_groups`
pub record Allowed : Type 0 where
  pub user_id : ℕ
  pub group_id : ℕ

-- `sub2api_sync_invite_owners`
pub record Owner : Type 0 where
  pub user_id : ℕ
  pub invite_fingerprint : Text

-- `groups`
pub record GroupRow : Type 0 where
  pub id : ℕ
  pub name : Text
  pub platform : Text
  pub description : Text
  pub subscription_type : Text
  pub status : Text
  pub dispatch : Bool
  pub deleted : Bool

-- `subscription_plans`, by the columns that tell one plan from another.
pub record Plan : Type 0 where
  pub group_id : ℕ
  pub name : Text
  pub validity_days : ℕ

-- `next_user`, `next_key` and `next_group` are the identifiers that the next rows of `users`,
-- `api_keys` and `groups` get.
pub record Db : Type 0 where
  pub users : List User
  pub keys : List ApiKey
  pub subscriptions : List Subscription
  pub allowed : List Allowed
  pub owners : List Owner
  pub groups : List GroupRow
  pub plans : List Plan
  pub next_user : ℕ
  pub next_key : ℕ
  pub next_group : ℕ

-- Code in a transaction: what it wrote before it raised is in the database that comes back.
abbrev pub Exec : Type 0 → Type 0
Exec A = Db → Result A × Db

infixl 5 ◌>>=◌ ◌>>◌
abbrev pub ◌>>=◌ : {A B : Type 0} → Exec A → (A → Exec B) → Exec B
◌>>=◌ m f d = let (r, d') = m d in elim r [ ok a ↦ f a d' | err e ↦ (err e, d') ]

abbrev pub ◌>>◌ : {A B : Type 0} → Exec A → Exec B → Exec B
m >> k = m >>= λ _. k

module _ {A : Type 0} where
  abbrev pub pure : A → Exec A
  pure a d = (ok a, d)

  abbrev pub raise : Raised → Exec A
  raise e d = (err e, d)

  abbrev pub lift : Result A → Exec A
  lift r d = (r, d)

  -- A statement that reads.
  abbrev pub select : (Db → A) → Exec A
  select f d = (ok (f d), d)

-- A statement that writes.
abbrev pub update : (Db → Db) → Exec (Unit {0})
update f d = (ok tt, f d)

module _ {A : Type 0} where
  -- The first row that a query with `LIMIT 1` finds, in the order of the table.
  unfoldable pub first : (A → Bool) → List A → Option A
  first p [] = none
  first p (x ∷ xs) = if p x then some x else first p xs

  -- `UPDATE ... SET f WHERE p`
  unfoldable pub update_where : (A → Bool) → (A → A) → List A → List A
  update_where p f [] = []
  update_where p f (x ∷ xs) = (if p x then f x else x) ∷ update_where p f xs

  -- `DELETE ... WHERE p`
  unfoldable pub delete_where : (A → Bool) → List A → List A
  delete_where p [] = []
  delete_where p (x ∷ xs) = let rest = delete_where p xs in if p x then rest else x ∷ rest

-- The database behind a connection: what is durable, and, while a transaction is open, the tables as
-- its statements have left them.
pub record Session : Type 0 where
  pub durable : Db
  pub working : Option Db

abbrev pub connect : Db → Session
connect d = record { durable = d; working = none }

-- `BEGIN;`
abbrev pub begin : Session → Session
begin s = record { durable = s.durable; working = some s.durable }

-- `COMMIT;`; without an open transaction there is nothing to commit.
abbrev pub commit : Session → Session
commit s = elim s.working [ none ↦ s | some d ↦ record { durable = d; working = none } ]

-- `ROLLBACK;`, and what the server does when the connection is gone.
abbrev pub rollback : Session → Session
rollback s = record { durable = s.durable; working = none }

-- The tables that a statement sees.
abbrev pub visible : Session → Db
visible s = elim s.working [ none ↦ s.durable | some d ↦ d ]

-- What a statement writes: it goes to the open transaction, and without one it is durable at once.
abbrev pub write : Db → Session → Session
write d s = elim s.working [
  | none ↦ record { durable = d; working = none }
  | some earlier ↦ record { durable = s.durable; working = some d }
]

-- What becomes of a transaction besides its own code: nothing; a statement or the connection that
-- fails before `COMMIT` is carried out, whatever was executed before it; or a `COMMIT` that is carried
-- out while its answer is lost.
pub data Fault : Type 0 where
  none_met : Fault
  broken : Raised → Fault
  answer_lost : Raised → Fault

module _ {A : Type 0} where
  -- The statements of a block, over a connection.
  unfoldable pub execute : Exec A → Session → Result A × Session
  execute body s = let (r, d) = body (visible s) in (r, write d s)

  -- `__exit__`: `COMMIT` where the body returned, and `ROLLBACK` where it raised; then the connection
  -- is closed.
  unfoldable pub exit : Fault → Result A × Session → Result A × Session
  exit (broken e) (r, s) = (err e, rollback s)
  exit none_met (ok a, s) = (ok a, rollback (commit s))
  exit none_met (err e, s) = (err e, rollback s)
  exit (answer_lost e) (ok a, s) = (err e, rollback (commit s))
  exit (answer_lost e) (err e', s) = (err e', rollback s)

  -- `with database_transaction(): ...`: what it gives, and what is durable behind it.
  unfoldable pub transaction : Fault → Exec A → Exec A
  unfolding execute exit
  transaction fault body d =
      let (r, s) = exit fault (execute body (begin (connect d))) in (r, s.durable)
