-- ===== src/Provision/Users.antt =====
-- The user that `_provision` (sub2api-sync/sub2api_sync.py) updates or inserts.
use sub2api_gate.Base.{
  ℕ, ◌+◌, Bool, true, false, not, ◌&&◌, ◌||◌, Option, none, some, [], ◌∷◌, ◌++◌, Text, codes, ◌==◌,
  nat_eq, text_eq, leb, length, take, is_empty, if◌then◌else◌, runtime_error, other,
}
use sub2api_gate.Database.{
  User, Db, Exec, ◌>>=◌, ◌>>◌, pure, raise, select, update, first, update_where,
}
use sub2api_gate.Invite.{InviteRow, bind_or_validate_invite_user}
use sub2api_gate.Identity.{Identity}
use sub2api_gate.Catalog.{active}

abbrev pub default_user_balance : ℕ
default_user_balance = 100

-- What a user is set to.
pub record Profile : Type 0 where
  pub email : Text
  pub username : Text
  pub display_name : Text

-- `8 <= len(password) <= 64`
abbrev pub is_usable : Text → Bool
is_usable password = leb 8 (length password) && leb (length password) 64

-- The password that is returned: the submitted one, or a drawn one in the place of one that is too short or
-- too long.
unfoldable pub chosen_password : Text → Text → Text
chosen_password drawn password = if is_usable password then password else drawn

abbrev pub has_email : Text → User → Bool
has_email email u = u.email == take 255 email && not u.deleted

abbrev pub row_number : Option InviteRow → ℕ
row_number none = 0
row_number (some row) = row.id

unfoldable pub check_owner : ℕ → Option User → Exec (Unit {0})
check_owner current none = pure tt
check_owner current (some u) =
    if u.id == current then pure tt else raise (runtime_error (codes "email_conflict"))

-- The test of a submitted email address.
unfoldable pub check_email : Text → Text → Option InviteRow → Exec (Unit {0})
unfolding check_owner
check_email submitted email user =
    if is_empty submitted
    then pure tt
    else (select (λ d. first (has_email email) d.users) >>= check_owner (row_number user))

-- The columns of both forms of the `UPDATE`.
abbrev pub set_profile : Profile → User → User
set_profile profile u = record u {
  email = take 255 profile.email;
  username = take 100 profile.username;
  notes = take 240 profile.display_name;
  status = active;
  balance = default_user_balance;
  deleted = false;
}

unfoldable pub update_user : ℕ → Profile → Db → Db
update_user id profile d = record d {
  users = update_where (λ u. u.id == id) (set_profile profile) d.users;
}

unfoldable pub reset_user : ℕ → Profile → Text → Db → Db
reset_user id profile hash d = record d {
  users =
      update_where (λ u. u.id == id) (λ u. record (set_profile profile u) { password_hash = hash })
        d.users;
}

unfoldable pub insert_user : Profile → Text → Db → Db
insert_user profile hash d = record d {
  users =
      d.users
      ++ record {
        id = d.next_user;
        username = take 100 profile.username;
        role = codes "user";
        email = take 255 profile.email;
        password_hash = hash;
        notes = take 240 profile.display_name;
        balance = default_user_balance;
        status = active;
        deleted = false;
      }
        ∷ [];
  next_user = d.next_user + 1;
}

-- `int(first_row(...)[0])`; with no row it is a TypeError.
abbrev pub user_number : Option User → Exec ℕ
user_number none = raise other
user_number (some u) = pure u.id

-- The row that `_bind_or_validate_invite_user` is called with.
abbrev pub new_row : ℕ → Text → InviteRow
new_row id username = record {
  id = id;
  username = username;
  role = codes "user";
  invite_fingerprint = [];
  email = [];
  password_hash = [];
  status = [];
}

-- `crypt` is the function of the database, with the salt that it draws.
module _ (fingerprint crypt : Text → Text) (drawn : Text) where
  unfoldable pub save_user : Identity → Profile → Bool → Text → Option InviteRow → Exec ℕ
  unfolding chosen_password update_user reset_user insert_user bind_or_validate_invite_user
  save_user who profile reset password (some row) =
      if reset || not (is_usable password)
      then (update (reset_user row.id profile (crypt (chosen_password drawn password)))
          >> pure row.id)
      else (update (update_user row.id profile) >> pure row.id)
  save_user who profile reset password none = do
    update (insert_user profile (crypt (chosen_password drawn password)))
    inserted ← select (λ d. first (λ u. u.username == who.username && not u.deleted) d.users)
    id ← user_number inserted
    bind_or_validate_invite_user fingerprint (some (new_row id who.username)) who.uuid
        (who.legacy_username ∷ who.username ∷ []) true
    pure id
