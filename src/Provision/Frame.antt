-- ===== src/Provision/Frame.antt =====
-- What each part of `_provision` leaves as it is.
use sub2api_gate.Keys.{KeyReader}
use sub2api_gate.Base.{
  ℕ, ◌≡◌, refl, Option, none, some, List, [], ◌∷◌, Text, arith, member, text_eq,
}
use sub2api_gate.Payload.{Python, Fields, str}
use sub2api_gate.Identity.{Identity}
use sub2api_gate.Database.{Db, User, Exec, ◌>>◌, lift, update, select}
use sub2api_gate.Database.Keeps.{
  Keeps, Keeps-pure, Keeps-bind, Keeps-if, Keeps-update, Keeps-select, Keeps-lift, keeps_rules,
}
use sub2api_gate.Invite.{InviteRow}
use sub2api_gate.Group.{validate_group_name, group_profile, requested_groups, configured_groups}
use sub2api_gate.Catalog.{
  ensure_subscription_plan, ensure_default_subscription, insert_group, update_group, require_group,
  require_known, resolve_each, lookup_active_group_id, active_group_id, ensure_group, ensure_groups,
  resolve_name, resolve_names, same_names, resolve_requested, resolve_provision_groups,
}
use sub2api_gate.Provision.Users.{check_email, check_owner}
use sub2api_gate.Provision.{
  Settings, prepare, primary_group, allow_group, ensure_plans, grant_groups,
}
use sub2api_gate.Provision.Found.{own_part}

check_owner-Keeps : (id : ℕ) (o : Option User) → Keeps own_part (check_owner id o)
unfolding check_owner
check_owner-Keeps id none = record { at = λ d. refl }
check_owner-Keeps id (some u) = record { at = λ d. ground arith }

pub check_email-Keeps :
    (submitted email : Text) (o : Option InviteRow) → Keeps own_part (check_email submitted email o)
unfolding check_email
check_email-Keeps submitted email o = search (keeps_rules, check_owner-Keeps)

-- A statement in front of code.
update_then :
    {A : Type 0} (f : Db → Db) (m : Exec A)
    → ((d : Db) → own_part (f d) ≡ own_part d)
    → Keeps own_part m
    → Keeps own_part (update f >> m)
update_then f m h k = Keeps-bind own_part (update f) (λ _. m) (Keeps-update own_part f h) (λ _. k)

ensure_plan_own :
    (days : ℕ) (name : Text) (id : ℕ) (d : Db)
    → own_part (ensure_subscription_plan days name id d) ≡ own_part d
unfolding ensure_subscription_plan
ensure_plan_own days name id d = refl

pub ensure_plans-Keeps :
    (s : Settings) (groups : List (Text × ℕ)) → Keeps own_part (ensure_plans s groups)
unfolding ensure_plans
ensure_plans-Keeps s [] = record { at = λ d. refl }
ensure_plans-Keeps s ((name, id) ∷ groups) =
    update_then (ensure_subscription_plan s.days s.plan_name id) (ensure_plans s groups)
      (ensure_plan_own s.days s.plan_name id) (ensure_plans-Keeps s groups)

allow_group_own : (user_id id : ℕ) (d : Db) → own_part (allow_group user_id id d) ≡ own_part d
unfolding allow_group
allow_group_own user_id id d = ground arith

subscribe_own :
    (days now user_id id : ℕ) (d : Db)
    → own_part (ensure_default_subscription days now user_id id d) ≡ own_part d
unfolding ensure_default_subscription
subscribe_own days now user_id id d = refl

pub grant_groups-Keeps :
    (s : Settings) (user_id : ℕ) (groups : List (Text × ℕ))
    → Keeps own_part (grant_groups s user_id groups)
unfolding grant_groups
grant_groups-Keeps s user_id [] = record { at = λ d. refl }
grant_groups-Keeps s user_id ((name, id) ∷ groups) =
    update_then (allow_group user_id id) _ (allow_group_own user_id id) (
      update_then (ensure_default_subscription s.days s.now user_id id)
        (grant_groups s user_id groups) (subscribe_own s.days s.now user_id id)
        (grant_groups-Keeps s user_id groups))

insert_group_own :
    (name platform description : Text) (d : Db)
    → own_part (insert_group name platform description d) ≡ own_part d
unfolding insert_group
insert_group_own name platform description d = ground arith

update_group_own :
    (name description : Text) (d : Db) → own_part (update_group name description d) ≡ own_part d
unfolding update_group
update_group_own name description d = refl

require_group-Keeps : (o : Option ℕ) → Keeps own_part (require_group o)
unfolding require_group
require_group-Keeps none = record { at = λ d. refl }
require_group-Keeps (some id) = record { at = λ d. ground arith }

require_known-Keeps : (o : Option ℕ) → Keeps own_part (require_known o)
unfolding require_known
require_known-Keeps none = record { at = λ d. refl }
require_known-Keeps (some id) = record { at = λ d. refl }

pub primary_group-Keeps : (groups : List (Text × ℕ)) → Keeps own_part (primary_group groups)
primary_group-Keeps [] = record { at = λ d. refl }
primary_group-Keeps ((name, id) ∷ groups) = record { at = λ d. refl }

resolve_each-Keeps :
    (resolve : Text → Exec ℕ) (names : List Text)
    → ((name : Text) → Keeps own_part (resolve name))
    → Keeps own_part (resolve_each resolve names)
unfolding resolve_each
resolve_each-Keeps resolve [] h = record { at = λ d. refl }
resolve_each-Keeps resolve (name ∷ names) h = Keeps-bind own_part (resolve name) _ (h name) (λ id.
    Keeps-bind own_part (resolve_each resolve names) _ (resolve_each-Keeps resolve names h)
      (λ others. Keeps-pure own_part _))

module _ (py : Python) where
  lookup-Keeps : (name : Text) → Keeps own_part (lookup_active_group_id py name)
  unfolding lookup_active_group_id
  lookup-Keeps name =
      Keeps-bind own_part (lift (validate_group_name py (str name)))
        (λ n. select (active_group_id n)) (Keeps-lift own_part _) (λ n. Keeps-select own_part _)

  ensure_group-Keeps : (name : Text) → Keeps own_part (ensure_group py name)
  unfolding ensure_group
  ensure_group-Keeps name =
      Keeps-bind own_part (lift (validate_group_name py (str name))) _ (Keeps-lift own_part _) (λ n.
        update_then (insert_group n (group_profile py (str n)).0 (group_profile py (str n)).1) _
          (insert_group_own n (group_profile py (str n)).0 (group_profile py (str n)).1)
          (update_then (update_group n (group_profile py (str n)).1) _
            (update_group_own n (group_profile py (str n)).1)
            (Keeps-bind own_part (lookup_active_group_id py n) require_group (lookup-Keeps n)
              require_group-Keeps)))

  resolve_name-Keeps :
      (configured : List Text) (name : Text) → Keeps own_part (resolve_name py configured name)
  unfolding resolve_name
  resolve_name-Keeps configured name =
      Keeps-if own_part (member name configured) _ _ (ensure_group-Keeps name) (
        Keeps-bind own_part (lookup_active_group_id py name) require_known (lookup-Keeps name)
          require_known-Keeps)

  resolve_requested-Keeps :
      (configured requested : List Text)
      → Keeps own_part (resolve_requested py configured requested)
  unfolding resolve_requested ensure_groups resolve_names
  resolve_requested-Keeps configured requested =
      Keeps-if own_part (same_names requested configured) _ _
        (resolve_each-Keeps (ensure_group py) configured ensure_group-Keeps)
        (resolve_each-Keeps (resolve_name py configured) requested (resolve_name-Keeps configured))

  resolve_provision_groups-Keeps :
      (raw : Text) (payload : Fields) → Keeps own_part (resolve_provision_groups py raw payload)
  unfolding resolve_provision_groups
  resolve_provision_groups-Keeps raw payload =
      Keeps-bind own_part (lift (requested_groups py raw payload))
        (resolve_requested py (configured_groups raw)) (Keeps-lift own_part _)
        (resolve_requested-Keeps (configured_groups raw))

module _ (py : Python) (fingerprint crypt password_hash_fingerprint : Text → Text)
    (reader : KeyReader) (s : Settings) where
  pub prepare-Keeps :
      (payload : Fields) (who : Identity) (user : Option InviteRow)
      → Keeps own_part
          (prepare py fingerprint crypt password_hash_fingerprint reader s payload who user)
  unfolding prepare
  prepare-Keeps payload who user =
      Keeps-bind own_part (check_email _ _ user) _ (check_email-Keeps _ _ user) (λ _.
        Keeps-bind own_part (resolve_provision_groups py s.default_group payload) _
          (resolve_provision_groups-Keeps py s.default_group payload)
          (λ groups. Keeps-bind own_part (primary_group groups) _ (primary_group-Keeps groups) (λ _.
            Keeps-bind own_part (ensure_plans s groups) _ (ensure_plans-Keeps s groups)
              (λ _. Keeps-pure own_part groups))))
