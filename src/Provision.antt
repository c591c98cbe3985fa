-- ===== src/Provision.antt =====
-- `provision` of sub2api-sync/sub2api_sync.py: the user of an invite, its groups and its keys.
pub mod Users
pub mod Found
pub mod Frame
pub mod Saved
pub mod Provisioned
mod Tests
use sub2api_gate.Base.{
  ℕ, Bool, true, false, not, ◌&&◌, ◌||◌, Option, none, some, List, [], ◌∷◌, ◌++◌, map, Text, codes,
  ◌==◌, nat_eq, text_eq, leb, ltb, length, take, is_empty, strip, exists, keep, if◌then◌else◌,
  other, Result,
}
use sub2api_gate.Payload.{Python, Fields, str, get, has, truthy, value_or, str_of, text_of}
use sub2api_gate.Payload.Identifier.{payload_user_id}
use sub2api_gate.Identity.{Identity, payload_identity, default_email}
use sub2api_gate.Token.{Token, requested_tokens, default_key_name}
use sub2api_gate.Database.{
  User, ApiKey, Allowed, Db, Exec, ◌>>=◌, ◌>>◌, pure, raise, lift, select, update, first,
  delete_where, Fault, transaction,
}
use sub2api_gate.Invite.{InviteRow, resolve_invite_user}
use sub2api_gate.Catalog.{
  resolve_provision_groups, ensure_subscription_plan, ensure_default_subscription,
}
use sub2api_gate.Keys.{KeyReader, KeyView, get_user_keys, sync_user_keys}
use sub2api_gate.Provision.Users.{Profile, chosen_password, check_email, save_user}

-- The part of the reply that the settings of the service do not fix.
pub record ProvisionReply : Type 0 where
  pub uuid : Text
  pub username : Text
  pub email : Text
  pub user_id : ℕ
  pub api_key_id : ℕ
  pub api_key : Text
  pub login_password : Text
  pub password_hash_fingerprint : Text
  pub tokens : List KeyView
  pub allowed_groups : List Text

abbrev pub group_names : List (Text × ℕ) → List Text
group_names [] = []
group_names ((name, id) ∷ groups) = name ∷ group_names groups

-- `groups[0][1]`; with no group it is an IndexError.
abbrev pub primary_group : List (Text × ℕ) → Exec ℕ
primary_group [] = raise other
primary_group ((name, id) ∷ groups) = pure id

-- `INSERT INTO user_allowed_groups ... ON CONFLICT (user_id,group_id) DO NOTHING`
unfoldable pub allow_group : ℕ → ℕ → Db → Db
allow_group user_id group_id d =
    if exists (λ (a : Allowed). a.user_id == user_id && a.group_id == group_id) d.allowed
    then d
    else record d { allowed = d.allowed ++ record { user_id = user_id; group_id = group_id } ∷ [] }

-- The settings, and what the code draws or reads of the clock.
pub record Settings : Type 0 where
  pub default_group : Text
  pub plan_name : Text
  pub days : ℕ
  pub now : ℕ
  pub drawn_password : Text
  pub drawn_key : Text

unfoldable pub ensure_plans : Settings → List (Text × ℕ) → Exec (Unit {0})
unfolding ensure_subscription_plan
ensure_plans s [] = pure tt
ensure_plans s ((name, id) ∷ groups) =
    update (ensure_subscription_plan s.days s.plan_name id) >> ensure_plans s groups

unfoldable pub grant_groups : Settings → ℕ → List (Text × ℕ) → Exec (Unit {0})
unfolding allow_group ensure_default_subscription
grant_groups s user_id [] = pure tt
grant_groups s user_id ((name, id) ∷ groups) =
    update (allow_group user_id id)
    >> (update (ensure_default_subscription s.days s.now user_id id)
        >> grant_groups s user_id groups)

-- A payload that says nothing of keys is given a new one.
unfoldable pub or_new_key : Settings → Fields → List Token → List Token
or_new_key s payload [] =
    if has (codes "tokens") payload
    then []
    else record { key = s.drawn_key; name = default_key_name; group_name = none } ∷ []
or_new_key s payload (token ∷ tokens) = token ∷ tokens

abbrev pub hash_or_empty : Option User → Text
hash_or_empty none = []
hash_or_empty (some u) = u.password_hash

module _ (py : Python) (fingerprint crypt password_hash_fingerprint : Text → Text)
    (reader : KeyReader) (s : Settings) where
  abbrev pub profile_of : Fields → Identity → Profile
  profile_of payload who = record {
    email = default_email py who.username (get (codes "email") payload);
    username = who.username;
    display_name =
        take 80 (strip (str_of py (value_or (get (codes "name") payload) (str who.username))));
  }

  abbrev pub submitted : Fields → Text
  submitted payload = strip (text_of py (get (codes "loginPassword") payload))

  -- From the groups of the user to its keys.
  unfoldable pub equip : Fields → List (Text × ℕ) → ℕ → Exec (ℕ × Text)
  unfolding ensure_plans grant_groups or_new_key sync_user_keys
  equip payload groups user_id = do
    grant_groups s user_id groups
    tokens ← lift (requested_tokens py payload)
    primary ← primary_group groups
    sync_user_keys py user_id primary (or_new_key s payload tokens)

  -- What comes in front of the user: its email address and its groups.
  unfoldable pub prepare : Fields → Identity → Option InviteRow → Exec (List (Text × ℕ))
  unfolding check_email resolve_provision_groups ensure_plans
  prepare payload who user = do
    check_email (strip (text_of py (get (codes "email") payload))) (profile_of payload who).email
        user
    groups ← resolve_provision_groups py s.default_group payload
    primary_group groups
    ensure_plans s groups
    pure groups

  unfoldable pub save : Fields → Identity → Option InviteRow → Exec ℕ
  unfolding save_user
  save payload who user =
      save_user fingerprint crypt s.drawn_password who (profile_of payload who)
        (truthy (get (codes "resetLoginPassword") payload)) (submitted payload) user

  unfoldable pub reply_of : Fields → Identity → List (Text × ℕ) → ℕ → ℕ × Text → Exec ProvisionReply
  unfolding get_user_keys
  reply_of payload who groups user_id (api_key_id, key) = do
    row ← select (λ d. first (λ u. u.id == user_id) d.users)
    listed ← get_user_keys reader user_id
    pure (record {
      uuid = who.uuid;
      username = who.username;
      email = (profile_of payload who).email;
      user_id = user_id;
      api_key_id = api_key_id;
      api_key = key;
      login_password = chosen_password s.drawn_password (submitted payload);
      password_hash_fingerprint = password_hash_fingerprint (hash_or_empty row);
      tokens = listed;
      allowed_groups = group_names groups;
    })

  -- `_provision`
  unfoldable pub provision_body : Fields → Exec ProvisionReply
  unfolding prepare save equip reply_of
  provision_body payload = do
    who ← lift (payload_identity py payload)
    requested_id ← lift (payload_user_id payload)
    user ←
        resolve_invite_user fingerprint who.uuid who.legacy_username who.username requested_id 0
          true true
    groups ← prepare payload who user
    user_id ← save payload who user
    keyed ← equip payload groups user_id
    reply_of payload who groups user_id keyed

  unfoldable pub provision : Fault → Fields → Exec ProvisionReply
  unfolding provision_body
  provision fault payload = transaction fault (provision_body payload)
