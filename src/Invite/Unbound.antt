-- ===== src/Invite/Unbound.antt =====
-- Where binding is not allowed, `resolve_invite_user` writes nothing, whatever comes of it.
use sub2api_gate.Base.{
  refl, ℕ, Bool, true, false, Option, none, some, List, [], ◌∷◌, Text, arith, ltb,
}
use sub2api_gate.Database.{User}
use sub2api_gate.Database.ReadOnly.{ReadOnly, ReadOnly-bind, ReadOnly-if, read_only_rules}
use sub2api_gate.Invite.{
  InviteRow, invite_user_row, owned_invite_user_row, bind_or_validate_invite_user, require_row,
  resolve_by_id, resolve_owned, resolve_row, check_key_owner, resolve_invite_user,
}

invite_user_row-ReadOnly : (w : User → Bool) (deleted : Bool) → ReadOnly (invite_user_row w deleted)
unfolding invite_user_row
invite_user_row-ReadOnly w deleted = record { at = λ d. refl }

owned_invite_user_row-ReadOnly :
    (t : Text) (deleted : Bool) → ReadOnly (owned_invite_user_row t deleted)
unfolding owned_invite_user_row
owned_invite_user_row-ReadOnly t deleted = record { at = λ d. refl }

require_row-ReadOnly : (needed : Bool) (o : Option InviteRow) → ReadOnly (require_row needed o)
require_row-ReadOnly true none = record { at = λ d. refl }
require_row-ReadOnly false none = record { at = λ d. refl }
require_row-ReadOnly needed (some row) = record { at = λ d. refl }

check_key_owner-ReadOnly : (key_id : ℕ) (o : Option InviteRow) → ReadOnly (check_key_owner key_id o)
unfolding check_key_owner
check_key_owner-ReadOnly key_id none = record { at = λ d. refl }
check_key_owner-ReadOnly key_id (some row) = record { at = λ d. ground arith }

module _ (fingerprint : Text → Text) (uuid : Text) (expected : List Text) where
  bind_or_validate-ReadOnly :
      (o : Option InviteRow)
      → ReadOnly (bind_or_validate_invite_user fingerprint o uuid expected false)
  unfolding bind_or_validate_invite_user
  bind_or_validate-ReadOnly none = record { at = λ d. refl }
  bind_or_validate-ReadOnly (some row) = record { at = λ d. ground arith }

  resolve_by_id-ReadOnly :
      (user_id : ℕ) (deleted : Bool)
      → ReadOnly (resolve_by_id fingerprint uuid expected user_id deleted false)
  unfolding resolve_by_id
  resolve_by_id-ReadOnly user_id deleted =
      search
        (read_only_rules, invite_user_row-ReadOnly, require_row-ReadOnly, bind_or_validate-ReadOnly)

  resolve_owned-ReadOnly :
      (key_id : ℕ) (deleted : Bool)
      → ReadOnly (resolve_owned fingerprint uuid expected key_id deleted)
  unfolding resolve_owned
  resolve_owned-ReadOnly key_id deleted = search (
    read_only_rules, owned_invite_user_row-ReadOnly, require_row-ReadOnly,
    bind_or_validate-ReadOnly,
  )

module _ (fingerprint : Text → Text) (uuid legacy_username username : Text) where
  pub resolve_invite_user-ReadOnly :
      (user_id key_id : ℕ) (deleted : Bool)
      → ReadOnly (
          resolve_invite_user fingerprint uuid legacy_username username user_id key_id deleted
            false)
  unfolding resolve_invite_user resolve_row
  resolve_invite_user-ReadOnly user_id key_id deleted =
      ReadOnly-bind _ _
        (ReadOnly-if (ltb 0 user_id) _ _
          (resolve_by_id-ReadOnly fingerprint uuid (legacy_username ∷ username ∷ []) user_id
            deleted)
          (resolve_owned-ReadOnly fingerprint uuid (legacy_username ∷ username ∷ []) key_id
            deleted))
        (λ o. check_key_owner-ReadOnly key_id o)
