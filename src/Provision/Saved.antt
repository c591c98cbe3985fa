-- ===== src/Provision/Saved.antt =====
-- The user that `_provision` saves belongs to the invite.
use mathlib.Core.Path.{subst}
use sub2api_gate.Keys.{KeyReader}
use sub2api_gate.Base.{
  ℕ, ◌≡◌, refl, ap, sym, ◌∙◌, Bool, true, not, ◌&&◌, Option, none, some, List, [], ◌∷◌, Text, codes,
  arith, text_eq, ◌==◌, nat_eq, Result, ok,
}
use sub2api_gate.Payload.{Python, Fields, get, truthy}
use sub2api_gate.Identity.{Identity}
use sub2api_gate.Database.{Db, ApiKey, Owner, User, Exec, ◌>>◌, pure, first}
use sub2api_gate.Database.ReadOnly.{bind_ok}
use sub2api_gate.Database.Keeps.{Keeps}
use sub2api_gate.Invite.{
  InviteRow, owner_of, bind_or_validate_invite_user, bind_or_validate_row, confirm_owner,
  insert_owner,
}
use sub2api_gate.Invite.Owned.{bind_or_validate_row-Validated}
use sub2api_gate.Provision.Users.{
  Profile, save_user, update_user, reset_user, insert_user, chosen_password, user_number, new_row,
}
use sub2api_gate.Provision.{Settings, profile_of, submitted, save}
use sub2api_gate.Provision.Found.{keys_part, own_part}

-- A validation that returns has a row to return.
confirm_owner_some :
    (row : InviteRow) (t : Text) (o : Option Text) (d d' : Db)
    → confirm_owner row t o d ≡ (ok none, d')
    → ⊥
unfolding confirm_owner
confirm_owner_some row t none d d' h = cc
confirm_owner_some row t (some u) d d' h = ground arith

user_number_same :
    (o : Option User) (d : Db) (id : ℕ) (d' : Db) → user_number o d ≡ (ok id, d') → d' ≡ d
user_number_same none d id d' h = cc
user_number_same (some u) d id d' h = cc

module _ (fingerprint : Text → Text) (uuid : Text) (expected : List Text) where
  bind_or_validate_row_some :
      (row : InviteRow) (allow_bind : Bool) (d d' : Db)
      → bind_or_validate_row fingerprint row uuid expected allow_bind d ≡ (ok none, d')
      → ⊥
  unfolding bind_or_validate_row
  bind_or_validate_row_some row allow_bind d d' h = ground (
    arith,
    confirm_owner_some row (fingerprint uuid)
        (owner_of row.id (insert_owner row.id (fingerprint uuid) d).owners)
        (insert_owner row.id (fingerprint uuid) d) d',
  )

  bound_owner :
      (n : ℕ) (username : Text) (r : Option InviteRow) (d d' : Db)
      → bind_or_validate_invite_user fingerprint (some (new_row n username)) uuid expected true d
        ≡ (ok r, d')
      → (keys_part d' ≡ keys_part d) × (owner_of n d'.owners ≡ some (fingerprint uuid))
  unfolding bind_or_validate_invite_user
  bound_owner n username none d d' h =
      absurd (bind_or_validate_row_some (new_row n username) true d d' h)
  bound_owner n username (some row) d d' h =
      let v =
        bind_or_validate_row-Validated fingerprint uuid expected true (new_row n username) row d d'
          (λ e. cc) h in
      (
        ap keys_part v.grew.rest,
        subst (λ (x : ℕ). owner_of x d'.owners ≡ some (fingerprint uuid)) v.same_id
            v.owned_row.owned,
      )

module _ (fingerprint crypt : Text → Text) (drawn : Text) (who : Identity) (profile : Profile)
    (reset : Bool) (password : Text) where
  save_user_old-Keeps :
      (row : InviteRow)
      → Keeps own_part (save_user fingerprint crypt drawn who profile reset password (some row))
  unfolding save_user update_user reset_user
  save_user_old-Keeps row = record { at = λ d. ground arith }

  save_user_old_id :
      (row : InviteRow) (d : Db) (id : ℕ) (d' : Db)
      → save_user fingerprint crypt drawn who profile reset password (some row) d ≡ (ok id, d')
      → row.id ≡ id
  unfolding save_user
  save_user_old_id row d id d' h = ground arith

  -- A new user belongs to the invite.
  save_user_new :
      (d : Db) (id : ℕ) (d' : Db)
      → save_user fingerprint crypt drawn who profile reset password none d ≡ (ok id, d')
      → (keys_part d' ≡ keys_part d) × (owner_of id d'.owners ≡ some (fingerprint who.uuid))
  unfolding save_user insert_user
  save_user_new d id d' h =
      let d2 = insert_user profile (crypt (chosen_password drawn password)) d in
      let o = first (λ u. u.username == who.username && not u.deleted) d2.users in
      let (n, d3, h1, h2) = bind_ok (user_number o) bind_it d2 id d' h in
      let (r, d4, h3, h4) = bind_ok (validate n) (λ _. pure n) d3 id d' h2 in
      let (kept, owned) =
        bound_owner fingerprint who.uuid (who.legacy_username ∷ who.username ∷ []) n who.username r
          d3 d4 h3 in
      let same : d3 ≡ d2 = user_number_same o d2 n d3 h1 in
      let same_id : n ≡ id = cc in
      let last : d4 ≡ d' = cc in
      (ap keys_part (sym last) ∙ kept ∙ ap keys_part same, rw (← same_id, ← last) owned)
    where
      validate : ℕ → Exec (Option InviteRow)
      validate n =
          bind_or_validate_invite_user fingerprint (some (new_row n who.username)) who.uuid
            (who.legacy_username ∷ who.username ∷ []) true

      bind_it : ℕ → Exec ℕ
      bind_it n = validate n >> pure n

module _ (py : Python) (fingerprint crypt password_hash_fingerprint : Text → Text)
    (reader : KeyReader) (s : Settings) where
  abbrev pub profile : Fields → Identity → Profile
  profile payload who =
      profile_of py fingerprint crypt password_hash_fingerprint reader s payload who

  abbrev pub reset : Fields → Bool
  reset payload = truthy (get (codes "resetLoginPassword") payload)

  abbrev pub password : Fields → Text
  password payload = submitted py fingerprint crypt password_hash_fingerprint reader s payload

  -- A user that is there keeps its owner; a new one gets it.
  pub save-owned :
      (payload : Fields) (who : Identity) (user : Option InviteRow) (d : Db) (id : ℕ) (d' : Db)
      → ((row : InviteRow)
          → user ≡ some row
          → owner_of row.id d.owners ≡ some (fingerprint who.uuid))
      → save py fingerprint crypt password_hash_fingerprint reader s payload who user d
        ≡ (ok id, d')
      → (keys_part d' ≡ keys_part d) × (owner_of id d'.owners ≡ some (fingerprint who.uuid))
  unfolding save
  save-owned payload who none d id d' owned h =
      save_user_new fingerprint crypt s.drawn_password who (profile payload who) (reset payload)
        (password payload) d id d' h
  save-owned payload who (some row) d id d' owned h =
      let kept =
        (save_user_old-Keeps fingerprint crypt s.drawn_password who (profile payload who)
            (reset payload) (password payload) row).at
          d in
      let same : own_part d' ≡ own_part d =
        sym (ap (λ (x : Result ℕ × Db). own_part x.1) h) ∙ kept in
      let same_id =
        save_user_old_id fingerprint crypt s.drawn_password who (profile payload who)
          (reset payload) (password payload) row d id d' h in
      (
        ap (λ (x : List ApiKey × ℕ × List Owner). (x.0, x.1)) same,
        ap (owner_of id) (ap (λ (x : List ApiKey × ℕ × List Owner). x.2) same)
            ∙ rw (← same_id) (owned row refl),
      )
