-- ===== src/Status.antt =====
-- `status` of sub2api-sync/sub2api_sync.py: what a user of an invite is shown.
pub mod Shown
mod Tests
use sub2api_gate.Base.{
  ℕ, Bool, true, false, Option, none, some, List, Text, ◌==◌, text_eq, if◌then◌else◌, Result,
}
use sub2api_gate.Payload.{Python, Fields}
use sub2api_gate.Payload.Identifier.{payload_user_id}
use sub2api_gate.Identity.{Identity, payload_identity}
use sub2api_gate.Database.{ApiKey, Exec, ◌>>=◌, ◌>>◌, pure, lift, Fault, transaction}
use sub2api_gate.Invite.{InviteRow, resolve_invite_user}
use sub2api_gate.Catalog.{active}
use sub2api_gate.Keys.{KeyReader, KeyView, get_user_keys}

pub record UserView : Type 0 where
  pub uuid : Text
  pub username : Text
  pub email : Text
  pub user_id : ℕ
  pub password_hash_fingerprint : Text
  pub status : ℕ
  pub tokens : List KeyView

-- The two forms of the reply.
pub data StatusReply : Type 0 where
  absent : Text → StatusReply
  present : UserView → StatusReply

module _ (py : Python) (fingerprint password_hash_fingerprint : Text → Text)
    (reader : KeyReader) where
  abbrev pub view_user : Text → InviteRow → List KeyView → UserView
  view_user uuid row listed = record {
    uuid = uuid;
    username = row.username;
    email = row.email;
    user_id = row.id;
    password_hash_fingerprint = password_hash_fingerprint row.password_hash;
    status = if row.status == active then 1 else 0;
    tokens = listed;
  }

  unfoldable pub show_user : Text → Option InviteRow → Exec StatusReply
  unfolding get_user_keys
  show_user uuid none = pure (absent uuid)
  show_user uuid (some row) =
      get_user_keys reader row.id >>= λ listed. pure (present (view_user uuid row listed))

  -- `_status`
  unfoldable pub status_body : Fields → Exec StatusReply
  unfolding show_user
  status_body payload = do
    who ← lift (payload_identity py payload)
    requested_id ← lift (payload_user_id payload)
    user ←
        resolve_invite_user fingerprint who.uuid who.legacy_username who.username requested_id 0
          false true
    show_user who.uuid user

  unfoldable pub status : Fault → Fields → Exec StatusReply
  unfolding status_body
  status fault payload = transaction fault (status_body payload)
