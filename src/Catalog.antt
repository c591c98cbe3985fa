-- ===== src/Catalog.antt =====
-- The groups of the database (sub2api-sync/sub2api_sync.py): `ensure_group`,
-- `lookup_active_group_id`, `ensure_groups`, `resolve_provision_groups`, `load_group_catalog`,
-- `subscription_days`, `ensure_subscription_plan` and `ensure_default_subscription`.
pub mod Lookup
pub mod Resolved
pub mod Cached
mod Tests
use sub2api_gate.Base.{
  ℕ, suc, ◌+◌, ◌*◌, min, max, Bool, true, false, not, ◌&&◌, ◌||◌, Option, none, some, List, [], ◌∷◌,
  ◌++◌, map, nat_eq, text_eq, Text, codes, ◌==◌, member, length, take, keep, ltb, leb, exists,
  is_empty, text_or, if◌then◌else◌, ℤ, pos, negsuc, Raised, value_error, runtime_error, Result, ok,
  err,
}
use sub2api_gate.Payload.{Python, Fields, str}
use sub2api_gate.Group.{
  validate_name, validate_group_name, group_profile, configured_groups, requested_groups,
  max_group_catalog,
}
use sub2api_gate.Database.{
  GroupRow, Plan, Subscription, Db, Exec, ◌>>=◌, ◌>>◌, pure, raise, lift, select, update, first,
  update_where,
}

abbrev pub active : Text
active = codes "active"

abbrev pub standard : Text
standard = codes "standard"

-- `name=... AND deleted_at IS NULL`
abbrev pub is_named : Text → GroupRow → Bool
is_named name g = g.name == name && not g.deleted

abbrev pub is_active_named : Text → GroupRow → Bool
is_active_named name g = is_named name g && g.status == active

-- `INSERT INTO groups ... WHERE NOT EXISTS`, and then `UPDATE groups`.
unfoldable pub insert_group : Text → Text → Text → Db → Db
insert_group name platform description d = if exists (is_named name) d.groups then d else record d {
  groups =
      d.groups
      ++ record {
        id = d.next_group;
        name = name;
        platform = platform;
        description = description;
        subscription_type = standard;
        status = active;
        dispatch = true;
        deleted = false;
      }
        ∷ [];
  next_group = d.next_group + 1;
}

abbrev pub refresh_group : Text → GroupRow → GroupRow
refresh_group description g = record g {
  subscription_type = standard;
  description = text_or g.description description;
  status = active;
  dispatch = true;
}

unfoldable pub update_group : Text → Text → Db → Db
update_group name description d = record d {
  groups = update_where (is_named name) (refresh_group description) d.groups;
}

abbrev pub group_number : Option GroupRow → Option ℕ
group_number none = none
group_number (some g) = some g.id

unfoldable pub active_group_id : Text → Db → Option ℕ
active_group_id name d = group_number (first (is_active_named name) d.groups)

-- `return group_id` under the test `not group_id`.
unfoldable pub require_group : Option ℕ → Exec ℕ
require_group none = raise (runtime_error (codes "sub2api group not found"))
require_group (some id) =
    if id == 0 then raise (runtime_error (codes "sub2api group not found")) else pure id

-- A payload's group that is not configured has to be there.
unfoldable pub require_known : Option ℕ → Exec ℕ
require_known none = raise (value_error (codes "unknown_group"))
require_known (some id) = pure id

-- `requested == configured`
abbrev pub same_names : List Text → List Text → Bool
same_names [] [] = true
same_names (a ∷ s) (b ∷ t) = a == b && same_names s t
same_names _ _ = false

-- Each name with what it is resolved to, in order.
unfoldable pub resolve_each : (Text → Exec ℕ) → List Text → Exec (List (Text × ℕ))
resolve_each resolve [] = pure []
resolve_each resolve (name ∷ names) = do
  id ← resolve name
  others ← resolve_each resolve names
  pure ((name, id) ∷ others)

module _ (py : Python) where
  unfoldable pub lookup_active_group_id : Text → Exec (Option ℕ)
  unfolding validate_group_name active_group_id
  lookup_active_group_id group = do
    name ← lift (validate_group_name py (str group))
    select (active_group_id name)

  unfoldable pub ensure_group : Text → Exec ℕ
  unfolding validate_group_name group_profile insert_group update_group lookup_active_group_id
      require_group
  ensure_group group = do
    name ← lift (validate_group_name py (str group))
    update (insert_group name (group_profile py (str name)).0 (group_profile py (str name)).1)
    update (update_group name (group_profile py (str name)).1)
    found ← lookup_active_group_id name
    require_group found

  unfoldable pub ensure_groups : List Text → Exec (List (Text × ℕ))
  unfolding ensure_group resolve_each
  ensure_groups configured = resolve_each ensure_group configured

  unfoldable pub resolve_name : List Text → Text → Exec ℕ
  unfolding ensure_group lookup_active_group_id require_known
  resolve_name configured name =
      if member name configured
      then ensure_group name
      else (lookup_active_group_id name >>= require_known)

  unfoldable pub resolve_names : List Text → List Text → Exec (List (Text × ℕ))
  unfolding resolve_name resolve_each
  resolve_names configured requested = resolve_each (resolve_name configured) requested

  unfoldable pub resolve_requested : List Text → List Text → Exec (List (Text × ℕ))
  unfolding ensure_groups resolve_names
  resolve_requested configured requested =
      if same_names requested configured
      then ensure_groups configured
      else resolve_names configured requested

  -- `raw` is the setting SUB2API_SYNC_DEFAULT_GROUP.
  unfoldable pub resolve_provision_groups : Text → Fields → Exec (List (Text × ℕ))
  unfolding requested_groups configured_groups resolve_requested
  resolve_provision_groups raw payload = do
    requested ← lift (requested_groups py raw payload)
    resolve_requested (configured_groups raw) requested

abbrev pub default_subscription_days : ℕ
default_subscription_days = 36500

-- `subscription_days`, of what `env_int` gives.
unfoldable pub subscription_days : ℤ → ℕ
subscription_days (pos n) = max 1 (min n default_subscription_days)
subscription_days (negsuc n) = 1

abbrev pub is_plan : ℕ → Text → Plan → Bool
is_plan group_id name p = p.group_id == group_id && p.name == name

-- The default plan of a group, by its two statements; `name` is the setting, cut and never empty.
unfoldable pub ensure_subscription_plan : ℕ → Text → ℕ → Db → Db
ensure_subscription_plan days name group_id d =
    let kept =
      if exists (is_plan group_id name) d.plans
      then d.plans
      else d.plans ++ record { group_id = group_id; name = name; validity_days = days } ∷ [] in
    record d {
      plans = update_where (is_plan group_id name) (λ p. record p { validity_days = days }) kept;
    }

abbrev pub is_subscription : ℕ → ℕ → Subscription → Bool
is_subscription user_id group_id s = s.user_id == user_id && s.group_id == group_id && not s.deleted

-- An insertion, or the update of its `ON CONFLICT` clause; instants are in days here.
unfoldable pub ensure_default_subscription : ℕ → ℕ → ℕ → ℕ → Db → Db
ensure_default_subscription days now user_id group_id d = record d {
  subscriptions =
      if exists (is_subscription user_id group_id) d.subscriptions
      then update_where (is_subscription user_id group_id)
          (λ s. record s { status = active; expires_at = max s.expires_at (now + days) })
          d.subscriptions
      else d.subscriptions
        ++ record {
          user_id = user_id;
          group_id = group_id;
          status = active;
          expires_at = now + days;
          deleted = false;
        }
          ∷ [];
}

-- One entry of the catalogue, and the cache of the whole; instants are seconds.
pub record CatalogEntry : Type 0 where
  pub id : ℕ
  pub name : Text
  pub platform : Text

pub record Cache : Type 0 where
  pub groups : Option (List CatalogEntry)
  pub expires_at : ℕ

abbrev pub group_catalog_ttl : ℕ
group_catalog_ttl = 30

abbrev pub names_of : List CatalogEntry → List Text
names_of [] = []
names_of (entry ∷ entries) = entry.name ∷ names_of entries

-- A row with the name that it has under `validate_group_name`, or the row is passed over.
unfoldable pub add_row : GroupRow → Result Text → List CatalogEntry → List CatalogEntry
add_row g (err e) catalog = catalog
add_row g (ok name) catalog =
    if member name (names_of catalog)
    then catalog
    else catalog ++ record { id = g.id; name = name; platform = take 32 g.platform } ∷ []

-- The cached entries, while they have not expired.
unfoldable pub if_fresh : ℕ → ℕ → Option (List CatalogEntry) → Option (List CatalogEntry)
if_fresh now expires_at none = none
if_fresh now expires_at (some entries) = if ltb now expires_at then some entries else none

module _ (py : Python) (order_by_name : List GroupRow → List GroupRow) where
  -- The loop over the rows; the test at its head stops it.
  unfoldable pub collect_rows : List GroupRow → List CatalogEntry → List CatalogEntry
  unfolding add_row validate_group_name
  collect_rows [] catalog = catalog
  collect_rows (g ∷ gs) catalog =
      let rest =
        collect_rows gs (add_row g (validate_group_name py (str (take 64 g.name))) catalog) in
      if leb max_group_catalog (length catalog) then catalog else rest

  -- The query of `load_group_catalog`, with its limit.
  abbrev pub catalog_rows : Db → List GroupRow
  catalog_rows d =
      take (max_group_catalog + 1)
        (order_by_name (keep (λ g. not g.deleted && g.status == active) d.groups))

  unfoldable pub serve_catalog :
      ℕ → Cache → Db → Option (List CatalogEntry) → List CatalogEntry × Cache
  unfolding collect_rows
  serve_catalog later cache d (some entries) = (entries, cache)
  serve_catalog later cache d none =
      let catalog = collect_rows (catalog_rows d) [] in
      (catalog, record { groups = some catalog; expires_at = later + group_catalog_ttl })

  -- `load_group_catalog()`; `now` is read before the query and `later` after it.
  unfoldable pub load_group_catalog : ℕ → ℕ → Cache → Db → List CatalogEntry × Cache
  unfolding serve_catalog
  load_group_catalog now later cache d =
      serve_catalog later cache d (if_fresh now cache.expires_at cache.groups)
