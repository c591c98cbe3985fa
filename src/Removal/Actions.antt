-- ===== src/Removal/Actions.antt =====
-- What a `deprovision` or a `purge` that reports success has done, and to whom.
use sub2api_gate.Base.{
  ℕ, ◌<◌, ◌≡◌, ◌⊎◌, Bool, true, false, ◌&&◌, some, [], Text, ◌==◌, nat_eq, keep, ok,
}
use sub2api_gate.Payload.{Python, Fields}
use sub2api_gate.Payload.Identifier.{payload_user_id, payload_token_id}
use sub2api_gate.Identity.{Identity, payload_identity}
use sub2api_gate.Database.{Db, Exec}
use sub2api_gate.Invite.{owner_of}
use sub2api_gate.Removal.{Reply, is_live_key}
use sub2api_gate.Removal.Rows.{OnlyUser}

-- Only rows of the user of the answer have changed; that user is the invite's own; and either no user
-- was found and nothing changed, or what `Gone` says holds of the user, or the one key that the
-- request named is gone.
pub record Removed (fp : Text) (Gone : ℕ → Db → Type 0) (OneGone : ℕ → ℕ → Db → Type 0)
    (reply : Reply) (d d' : Db) : Type 0 where
  pub only : OnlyUser reply.user_id d d'
  pub owned : 0 < reply.user_id → owner_of reply.user_id d.owners ≡ some fp
  pub outcome :
      ((reply.user_id ≡ 0) × (d' ≡ d))
      ⊎ (Gone reply.user_id d'
          ⊎ ((0 < reply.api_key_id) × OneGone reply.api_key_id reply.user_id d'))

abbrev pub NoLiveKey : ℕ → ℕ → Db → Type 0
NoLiveKey key_id id d = keep (λ k. k.id == key_id && is_live_key id k) d.keys ≡ []

abbrev pub NoKey : ℕ → ℕ → Db → Type 0
NoKey key_id id d = keep (λ k. k.id == key_id && k.user_id == id) d.keys ≡ []

-- The removal of a user or of one key, by the two tests.
record Removes (removal : Bool → ℕ → ℕ → Exec (Unit {0})) (Gone : ℕ → Db → Type 0)
    (OneGone : ℕ → ℕ → Db → Type 0) : Type 0 where
  only : (b : Bool) (k id : ℕ) (d : Db) → OnlyUser id d (removal b k id d).1
  one : (k id : ℕ) (d : Db) → OneGone k id (removal true k id d).1
  gone : (k id : ℕ) (d : Db) → 0 < id → Gone id (removal false k id d).1
  nobody : (k id : ℕ) (d : Db) → ¬ (0 < id) → (removal false k id d).1 ≡ d

-- What an answer says of its request: the invite, the key and, where there is one, the user.
pub record Answers (who : Identity) (asked key_id : ℕ) (reply : Reply) : Type 0 where
  pub uuid : reply.uuid ≡ who.uuid
  pub username : reply.username ≡ who.username
  pub key : reply.api_key_id ≡ key_id
  pub user : 0 < asked → 0 < reply.user_id → reply.user_id ≡ asked

module _ (py : Python) (fingerprint : Text → Text) where
  abbrev pub Answered : Fields → Reply → Type 0
  Answered payload reply =
      (who : Identity) × (asked : ℕ) × (key_id : ℕ) × (payload_identity py payload ≡ ok who)
      × (payload_user_id payload ≡ ok asked)
      × (payload_token_id payload ≡ ok key_id)
      × Answers who asked key_id reply
