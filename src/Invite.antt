-- ===== src/Invite.antt =====
-- Which user an invite stands for (sub2api-sync/sub2api_sync.py): `_invite_user_row`,
-- `_owned_invite_user_row`, `_bind_or_validate_invite_user` and `resolve_invite_user`. The fingerprint
-- of an invite is an HMAC, and so a parameter.
pub mod Owned
pub mod Resolve
pub mod Rows
pub mod Unbound
use sub2api_gate.Base.{
  ℕ, ◌<◌, Bool, true, false, not, ◌&&◌, ◌||◌, Option, none, some, List, [], ◌∷◌, ◌++◌, Text, codes,
  ◌==◌, nat_eq, text_eq, ltb, take, member, is_empty, if◌then◌else◌, Raised, runtime_error, Result,
  ok, err,
}
use sub2api_gate.Database.{
  User, ApiKey, Owner, Db, Exec, ◌>>=◌, ◌>>◌, pure, raise, select, update, first,
}

-- A row of the queries; the columns are cut as by `LEFT`, and a missing owner is the empty text.
pub record InviteRow : Type 0 where
  pub id : ℕ
  pub username : Text
  pub role : Text
  pub invite_fingerprint : Text
  pub email : Text
  pub password_hash : Text
  pub status : Text

abbrev pub invite_identity_mismatch : Raised
invite_identity_mismatch = runtime_error (codes "invite_identity_mismatch")

-- `SELECT invite_fingerprint FROM sub2api_sync_invite_owners WHERE user_id=...`
unfoldable pub owner_of : ℕ → List Owner → Option Text
owner_of id [] = none
owner_of id (o ∷ os) = if o.user_id == id then some o.invite_fingerprint else owner_of id os

abbrev pub text_or_empty : Option Text → Text
text_or_empty none = []
text_or_empty (some t) = t

unfoldable pub row_of : User → Text → InviteRow
row_of u fingerprint = record {
  id = u.id;
  username = take 100 u.username;
  role = take 32 u.role;
  invite_fingerprint = fingerprint;
  email = take 255 u.email;
  password_hash = u.password_hash;
  status = take 16 u.status;
}

abbrev pub joined : List Owner → Option User → Option InviteRow
joined owners none = none
joined owners (some u) = some (row_of u (text_or_empty (owner_of u.id owners)))

unfoldable pub invite_user_row : (User → Bool) → Bool → Exec (Option InviteRow)
unfolding row_of
invite_user_row where_clause include_deleted =
    select λ d.
      joined d.owners (first (λ u. where_clause u && (include_deleted || not u.deleted)) d.users)

-- The users of the owners with the fingerprint, in the order of the owners.
pub owned_rows : Text → Bool → List User → List Owner → Option InviteRow
unfolding row_of
owned_rows fingerprint include_deleted users [] = none
owned_rows fingerprint include_deleted users (o ∷ os) =
    let rest = owned_rows fingerprint include_deleted users os in
    if o.invite_fingerprint == fingerprint
    then elim (first (λ u. u.id == o.user_id && (include_deleted || not u.deleted)) users) [
      | none ↦ rest
      | some u ↦ some (row_of u o.invite_fingerprint)
    ]
    else rest

unfoldable pub owned_invite_user_row : Text → Bool → Exec (Option InviteRow)
unfolding owned_rows
owned_invite_user_row fingerprint include_deleted =
    select (λ d. owned_rows (take 64 fingerprint) include_deleted d.users d.owners)

-- `INSERT INTO sub2api_sync_invite_owners ... ON CONFLICT (user_id) DO NOTHING`
abbrev pub insert_new_owner : Option Text → ℕ → Text → Db → Db
insert_new_owner (some t) id fingerprint d = d
insert_new_owner none id fingerprint d = record d {
  owners = d.owners ++ record { user_id = id; invite_fingerprint = take 64 fingerprint } ∷ [];
}

unfoldable pub insert_owner : ℕ → Text → Db → Db
insert_owner id fingerprint d = insert_new_owner (owner_of id d.owners) id fingerprint d

-- The comparison behind the insertion, of the owner that is read back.
unfoldable pub confirm_owner : InviteRow → Text → Option Text → Exec (Option InviteRow)
confirm_owner row expected none = raise invite_identity_mismatch
confirm_owner row expected (some stored) =
    if stored == expected
    then pure (some (record row { invite_fingerprint = expected }))
    else raise invite_identity_mismatch

-- `if not row and api_key_id > 0: raise`, and `if not row: raise`
abbrev pub require_row : Bool → Option InviteRow → Exec (Option InviteRow)
require_row needed none = if needed then raise invite_identity_mismatch else pure none
require_row needed (some row) = pure (some row)

-- The row by name, where no row was found yet and the name is not empty.
unfoldable pub by_username : Bool → Text → Option InviteRow → Exec (Option InviteRow)
by_username include_deleted candidate (some row) = pure (some row)
by_username include_deleted candidate none =
    if is_empty candidate
    then pure none
    else invite_user_row (λ u. u.username == take 100 candidate) include_deleted

-- `u.id = (SELECT key_owner.user_id FROM api_keys key_owner WHERE key_owner.id = ... LIMIT 1)`
abbrev pub owns_key : ℕ → Db → User → Bool
owns_key key_id d u = elim (first (λ k. k.id == key_id) d.keys) [
  | none ↦ false
  | some k ↦ u.id == k.user_id
]

unfoldable pub by_key : Bool → ℕ → Option InviteRow → Exec (Option InviteRow)
by_key include_deleted api_key_id (some row) = pure (some row)
by_key include_deleted api_key_id none =
    if ltb 0 api_key_id
    then (λ d. invite_user_row (owns_key api_key_id d) include_deleted d)
    else pure none

-- The owner of the given key, where there is one, must be the user that was found.
unfoldable pub check_key_owner : ℕ → Option InviteRow → Exec (Option InviteRow)
check_key_owner api_key_id none d = (ok none, d)
check_key_owner api_key_id (some row) d =
    if ltb 0 api_key_id
    then elim (first (λ k. k.id == api_key_id) d.keys) [
      | none ↦ (ok (some row), d)
      | some k ↦
          if k.user_id == row.id then (ok (some row), d) else (err invite_identity_mismatch, d)
    ]
    else (ok (some row), d)

module _ (fingerprint : Text → Text) where
  -- `_bind_or_validate_invite_user` from the test of the role on.
  unfoldable pub bind_or_validate_row :
      InviteRow → Text → List Text → Bool → Exec (Option InviteRow)
  unfolding insert_owner confirm_owner
  bind_or_validate_row row uuid expected_usernames allow_bind =
      if not (row.role == codes "user")
      then raise invite_identity_mismatch
      else if not (is_empty row.invite_fingerprint)
      then (if row.invite_fingerprint == fingerprint uuid
          then pure (some row)
          else raise invite_identity_mismatch)
      else if not allow_bind
      then raise invite_identity_mismatch
      else if not (member row.username expected_usernames)
      then raise invite_identity_mismatch
      else do
        update (insert_owner row.id (fingerprint uuid))
        owner ← select (λ d. owner_of row.id d.owners)
        confirm_owner row (fingerprint uuid) owner

  unfoldable pub bind_or_validate_invite_user :
      Option InviteRow → Text → List Text → Bool → Exec (Option InviteRow)
  unfolding bind_or_validate_row
  bind_or_validate_invite_user none uuid expected_usernames allow_bind = pure none
  bind_or_validate_invite_user (some row) uuid expected_usernames allow_bind =
      bind_or_validate_row row uuid expected_usernames allow_bind

  -- The three ways to look for the row, each with its validation.
  unfoldable pub resolve_by_id : Text → List Text → ℕ → Bool → Bool → Exec (Option InviteRow)
  unfolding bind_or_validate_invite_user invite_user_row
  resolve_by_id uuid expected user_id include_deleted allow_bind = do
    found ← invite_user_row (λ u. u.id == user_id) include_deleted
    row ← require_row true found
    bind_or_validate_invite_user row uuid expected allow_bind

  unfoldable pub resolve_owned : Text → List Text → ℕ → Bool → Exec (Option InviteRow)
  unfolding bind_or_validate_invite_user owned_invite_user_row
  resolve_owned uuid expected api_key_id include_deleted = do
    found ← owned_invite_user_row (fingerprint uuid) include_deleted
    row ← require_row (ltb 0 api_key_id) found
    bind_or_validate_invite_user row uuid expected false

  unfoldable pub resolve_by_name : Text → Text → Text → ℕ → Bool → Bool → Exec (Option InviteRow)
  unfolding bind_or_validate_invite_user by_username by_key invite_user_row
  resolve_by_name uuid legacy_username username api_key_id include_deleted allow_bind = do
    named ← by_username include_deleted username none
    legacy ← by_username include_deleted legacy_username named
    row ← by_key include_deleted api_key_id legacy
    bind_or_validate_invite_user row uuid (legacy_username ∷ username ∷ []) allow_bind

  unfoldable pub resolve_row : Text → Text → Text → ℕ → ℕ → Bool → Bool → Exec (Option InviteRow)
  unfolding resolve_by_id resolve_owned resolve_by_name
  resolve_row uuid legacy_username username user_id api_key_id include_deleted allow_bind =
      let expected = legacy_username ∷ username ∷ [] in
      if ltb 0 user_id
      then resolve_by_id uuid expected user_id include_deleted allow_bind
      else if not allow_bind
      then resolve_owned uuid expected api_key_id include_deleted
      else resolve_by_name uuid legacy_username username api_key_id include_deleted allow_bind

  unfoldable pub resolve_invite_user :
      Text → Text → Text → ℕ → ℕ → Bool → Bool → Exec (Option InviteRow)
  unfolding resolve_row check_key_owner
  resolve_invite_user uuid legacy_username username user_id api_key_id include_deleted allow_bind =
      do
        row ←
            resolve_row uuid legacy_username username user_id api_key_id include_deleted allow_bind
        check_key_owner api_key_id row
