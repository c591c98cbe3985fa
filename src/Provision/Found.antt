-- ===== src/Provision/Found.antt =====
-- Looking for the user of an invite changes no key.
use sub2api_gate.Base.{
  ℕ, ◌≡◌, refl, Bool, true, false, not, Option, none, some, List, Text, arith, is_empty, codes,
  member, ◌==◌, text_eq,
}
use sub2api_gate.Database.{Db, ApiKey, Owner, ◌>>=◌, ◌>>◌, update, select}
use sub2api_gate.Database.Keeps.{
  Keeps, Keeps-pure, Keeps-raise, Keeps-bind, Keeps-if, Keeps-update, Keeps-select, keeps_rules,
}
use sub2api_gate.Invite.{
  InviteRow, invite_user_row, bind_or_validate_invite_user, bind_or_validate_row, insert_owner,
  insert_new_owner, confirm_owner, owner_of, require_row, by_username, by_key, resolve_by_id,
  resolve_owned, resolve_by_name, resolve_row, check_key_owner, resolve_invite_user,
}

-- The keys with their counter, and these with the owners.
abbrev pub keys_part : Db → List ApiKey × ℕ
keys_part d = (d.keys, d.next_key)

abbrev pub own_part : Db → List ApiKey × ℕ × List Owner
own_part d = (d.keys, d.next_key, d.owners)

-- Looking for the user of an invite changes no key.
require_row-Keeps : (needed : Bool) (o : Option InviteRow) → Keeps keys_part (require_row needed o)
require_row-Keeps true none = record { at = λ d. refl }
require_row-Keeps false none = record { at = λ d. refl }
require_row-Keeps needed (some row) = record { at = λ d. refl }

by_username-Keeps :
    (deleted : Bool) (t : Text) (o : Option InviteRow) → Keeps keys_part (by_username deleted t o)
unfolding by_username invite_user_row
by_username-Keeps deleted t none = record { at = λ d. ground arith }
by_username-Keeps deleted t (some row) = record { at = λ d. refl }

by_key-Keeps :
    (deleted : Bool) (key_id : ℕ) (o : Option InviteRow) → Keeps keys_part (by_key deleted key_id o)
unfolding by_key invite_user_row
by_key-Keeps deleted key_id none = record { at = λ d. ground arith }
by_key-Keeps deleted key_id (some row) = record { at = λ d. refl }

check_key_owner-Keeps :
    (key_id : ℕ) (o : Option InviteRow) → Keeps keys_part (check_key_owner key_id o)
unfolding check_key_owner
check_key_owner-Keeps key_id none = record { at = λ d. refl }
check_key_owner-Keeps key_id (some row) = record { at = λ d. ground arith }

insert_new_owner_keys :
    (o : Option Text) (id : ℕ) (t : Text) (d : Db)
    → keys_part (insert_new_owner o id t d) ≡ keys_part d
insert_new_owner_keys none id t d = refl
insert_new_owner_keys (some u) id t d = refl

insert_owner_keys : (id : ℕ) (t : Text) (d : Db) → keys_part (insert_owner id t d) ≡ keys_part d
unfolding insert_owner
insert_owner_keys id t d = insert_new_owner_keys (owner_of id d.owners) id t d

confirm_owner-Keeps :
    (row : InviteRow) (t : Text) (o : Option Text) → Keeps keys_part (confirm_owner row t o)
unfolding confirm_owner
confirm_owner-Keeps row t none = record { at = λ d. refl }
confirm_owner-Keeps row t (some u) = record { at = λ d. ground arith }

module _ (fingerprint : Text → Text) (uuid : Text) (expected : List Text) where
  pub bind_or_validate-Keeps :
      (o : Option InviteRow) (allow_bind : Bool)
      → Keeps keys_part (bind_or_validate_invite_user fingerprint o uuid expected allow_bind)
  unfolding bind_or_validate_invite_user bind_or_validate_row
  bind_or_validate-Keeps none allow_bind = record { at = λ d. refl }
  bind_or_validate-Keeps (some row) allow_bind =
      Keeps-if keys_part (not (row.role == codes "user")) _ _ (Keeps-raise keys_part _) (
        Keeps-if keys_part (not (is_empty row.invite_fingerprint)) _ _
          (Keeps-if keys_part (row.invite_fingerprint == fingerprint uuid) _ _
            (Keeps-pure keys_part _) (Keeps-raise keys_part _))
          (Keeps-if keys_part (not allow_bind) _ _ (Keeps-raise keys_part _) (
            Keeps-if keys_part (not (member row.username expected)) _ _ (Keeps-raise keys_part _)
              bound)))
    where
      bound : Keeps keys_part (
          update (insert_owner row.id (fingerprint uuid))
          >> (select (λ d. owner_of row.id d.owners) >>= confirm_owner row (fingerprint uuid)))
      bound =
          Keeps-bind keys_part (update (insert_owner row.id (fingerprint uuid))) _
            (Keeps-update keys_part _ (insert_owner_keys row.id (fingerprint uuid)))
            (λ _.
              Keeps-bind keys_part (select (λ d. owner_of row.id d.owners))
                (confirm_owner row (fingerprint uuid)) (Keeps-select keys_part _)
                (confirm_owner-Keeps row (fingerprint uuid)))

  resolve_by_id-Keeps :
      (id : ℕ) (deleted allow : Bool)
      → Keeps keys_part (resolve_by_id fingerprint uuid expected id deleted allow)
  unfolding resolve_by_id
  resolve_by_id-Keeps id deleted allow =
      search (keeps_rules, require_row-Keeps, bind_or_validate-Keeps)

  resolve_owned-Keeps :
      (key_id : ℕ) (deleted : Bool)
      → Keeps keys_part (resolve_owned fingerprint uuid expected key_id deleted)
  unfolding resolve_owned
  resolve_owned-Keeps key_id deleted =
      search (keeps_rules, require_row-Keeps, bind_or_validate-Keeps)

module _ (fingerprint : Text → Text) (uuid legacy_username username : Text) where
  resolve_by_name-Keeps :
      (key_id : ℕ) (deleted allow : Bool)
      → Keeps keys_part
          (resolve_by_name fingerprint uuid legacy_username username key_id deleted allow)
  unfolding resolve_by_name
  resolve_by_name-Keeps key_id deleted allow =
      search (keeps_rules, by_username-Keeps, by_key-Keeps, bind_or_validate-Keeps)

  pub resolve_invite_user-Keeps :
      (user_id key_id : ℕ) (deleted allow : Bool)
      → Keeps keys_part (
          resolve_invite_user fingerprint uuid legacy_username username user_id key_id deleted
            allow)
  unfolding resolve_invite_user resolve_row
  resolve_invite_user-Keeps user_id key_id deleted allow = search (
    keeps_rules, resolve_by_id-Keeps, resolve_owned-Keeps, resolve_by_name-Keeps,
    check_key_owner-Keeps,
  )
