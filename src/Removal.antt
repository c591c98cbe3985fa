-- ===== src/Removal.antt =====
-- The actions that take access away (sub2api-sync/sub2api_sync.py): `_deprovision`, which marks rows
-- as deleted, and `_purge`, which deletes them.
pub mod Rows
pub mod Actions
mod Tests
use sub2api_gate.Base.{
  ℕ, Bool, true, false, not, ◌&&◌, ◌||◌, Option, none, some, List, [], ◌∷◌, Text, codes, ◌==◌,
  nat_eq, text_eq, ltb, is_empty, if◌then◌else◌, Result, ok, err,
}
use sub2api_gate.Payload.{Python, Fields, get}
use sub2api_gate.Payload.Identifier.{payload_user_id, payload_token_id}
use sub2api_gate.Identity.{Identity, payload_identity, normalize_username}
use sub2api_gate.Database.{
  User, ApiKey, Subscription, Allowed, Owner, Db, Exec, ◌>>=◌, ◌>>◌, pure, lift, update,
  update_where, delete_where, Fault, transaction,
}
use sub2api_gate.Invite.{InviteRow, resolve_invite_user}

-- The part of the answers that depends on the database.
pub record Reply : Type 0 where
  pub uuid : Text
  pub username : Text
  pub user_id : ℕ
  pub api_key_id : ℕ

abbrev pub disabled : Text
disabled = codes "disabled"

abbrev pub end_key : ApiKey → ApiKey
end_key k = record k { status = disabled; deleted = true }

abbrev pub is_live_key : ℕ → ApiKey → Bool
is_live_key user_id k = k.user_id == user_id && not k.deleted

abbrev pub is_live_subscription : ℕ → Subscription → Bool
is_live_subscription user_id s = s.user_id == user_id && not s.deleted

-- `UPDATE api_keys SET status='disabled', deleted_at=now() WHERE id=... AND user_id=... AND deleted_at IS NULL`
unfoldable pub disable_one_key : ℕ → ℕ → Db → Db
disable_one_key key_id user_id d = record d {
  keys = update_where (λ k. k.id == key_id && is_live_key user_id k) end_key d.keys;
}

-- The four statements of `_deprovision` for a user, each by itself.
unfoldable pub disable_keys : ℕ → Db → Db
disable_keys user_id d = record d { keys = update_where (is_live_key user_id) end_key d.keys }

unfoldable pub cancel_subscriptions : ℕ → Db → Db
cancel_subscriptions user_id d = record d {
  subscriptions =
      update_where (is_live_subscription user_id)
        (λ s. record s { status = codes "cancelled"; deleted = true }) d.subscriptions;
}

unfoldable pub drop_allowed : ℕ → Db → Db
drop_allowed user_id d = record d { allowed = delete_where (λ a. a.user_id == user_id) d.allowed }

unfoldable pub disable_user : ℕ → Db → Db
disable_user user_id d = record d {
  users =
      update_where (λ u. u.id == user_id) (λ u. record u { status = disabled; deleted = true })
        d.users;
}

-- `DELETE FROM api_keys WHERE id=... AND user_id=...`
unfoldable pub delete_one_key : ℕ → ℕ → Db → Db
delete_one_key key_id user_id d = record d {
  keys = delete_where (λ k. k.id == key_id && k.user_id == user_id) d.keys;
}

-- The five statements of `_purge` for a user.
unfoldable pub delete_user : ℕ → Db → Db
delete_user user_id d = record d {
  keys = delete_where (λ k. k.user_id == user_id) d.keys;
  subscriptions = delete_where (λ s. s.user_id == user_id) d.subscriptions;
  allowed = delete_where (λ a. a.user_id == user_id) d.allowed;
  owners = delete_where (λ o. o.user_id == user_id) d.owners;
  users = delete_where (λ u. u.id == user_id) d.users;
}

-- `int(user[0]) if user else 0`
abbrev pub row_id : Option InviteRow → ℕ
row_id none = 0
row_id (some row) = row.id

-- `token_only`; the two flags say that the payload names no user.
unfoldable pub is_token_only : Option InviteRow → ℕ → ℕ → Bool → Bool → Text → Bool
is_token_only none requested_user_id api_key_id no_username no_name legacy = false
is_token_only (some row) requested_user_id api_key_id no_username no_name legacy =
    not (ltb 0 requested_user_id)
    && ltb 0 api_key_id
    && no_username
    && no_name
    && not (row.username == legacy)

unfoldable pub remove_access : Bool → ℕ → ℕ → Exec (Unit {0})
remove_access token_only api_key_id user_id =
    if token_only
    then update (disable_one_key api_key_id user_id)
    else if ltb 0 user_id
    then update (disable_keys user_id)
      >> (update (cancel_subscriptions user_id)
          >> (update (drop_allowed user_id) >> update (disable_user user_id)))
    else pure tt

unfoldable pub remove_rows : Bool → ℕ → ℕ → Exec (Unit {0})
remove_rows token_only api_key_id user_id =
    if token_only
    then update (delete_one_key api_key_id user_id)
    else if ltb 0 user_id
    then update (delete_user user_id)
    else pure tt

module _ (py : Python) (fingerprint : Text → Text) where
  -- `token_only`, with the names that the payload gives.
  unfoldable pub token_only_for : Fields → Identity → ℕ → ℕ → Option InviteRow → Bool
  unfolding is_token_only
  token_only_for payload who requested_user_id api_key_id user =
      is_token_only user requested_user_id api_key_id
        (is_empty (normalize_username py (get (codes "username") payload)))
        (is_empty (normalize_username py (get (codes "name") payload))) who.legacy_username

  -- Behind the resolution of the user.
  unfoldable pub finish_removal :
      (Bool → ℕ → ℕ → Exec (Unit {0})) → Fields → Identity → ℕ → ℕ → Option InviteRow → Exec Reply
  unfolding token_only_for
  finish_removal removal payload who requested_user_id api_key_id user = do
    removal (token_only_for payload who requested_user_id api_key_id user) api_key_id (row_id user)
    pure (record {
      uuid = who.uuid;
      username = who.username;
      user_id = row_id user;
      api_key_id = api_key_id;
    })

  -- Both actions behind the reading of the payload; `include_deleted` and the removal differ.
  unfoldable pub remove :
      Bool → (Bool → ℕ → ℕ → Exec (Unit {0})) → Fields → Identity → ℕ → ℕ → Exec Reply
  unfolding finish_removal
  remove include_deleted removal payload who requested_user_id api_key_id = do
    user ←
        resolve_invite_user fingerprint who.uuid who.legacy_username who.username requested_user_id
          api_key_id include_deleted false
    finish_removal removal payload who requested_user_id api_key_id user

  unfoldable pub remove_for : Bool → (Bool → ℕ → ℕ → Exec (Unit {0})) → Fields → Exec Reply
  unfolding remove
  remove_for include_deleted removal payload = do
    who ← lift (payload_identity py payload)
    requested_user_id ← lift (payload_user_id payload)
    api_key_id ← lift (payload_token_id payload)
    remove include_deleted removal payload who requested_user_id api_key_id

  -- `deprovision` and `purge`, in their transactions.
  unfoldable pub deprovision : Fault → Fields → Exec Reply
  unfolding remove_for remove_access
  deprovision fault payload = transaction fault (remove_for false remove_access payload)

  unfoldable pub purge : Fault → Fields → Exec Reply
  unfolding remove_for remove_rows
  purge fault payload = transaction fault (remove_for true remove_rows payload)
