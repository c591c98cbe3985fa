-- ===== src/Catalog/Tests.antt =====
-- Groups and the catalogue of a small database.
use sub2api_gate.Base.{
  ℕ, ◌≡◌, refl, true, false, none, List, [], ◌∷◌, map, Text, codes, text_eqb, strip, split,
  to_lower, ok, pos, negsuc,
}
use sub2api_gate.Payload.{
  Python, Fields, str, arr, cons, nil, field, end, get, has, text_of, str_of, items,
}
use sub2api_gate.Group.{
  requested_groups, add_group, is_group_name, configured_groups, configured_step, group_profile,
  validate_group_name,
}
use sub2api_gate.Group.Names.{AreGroups}
use sub2api_gate.Database.{Db, GroupRow, first, update_where}
use sub2api_gate.Catalog.{
  Cache, collect_rows, load_group_catalog, resolve_provision_groups, resolve_requested,
  resolve_names, resolve_name, ensure_group, lookup_active_group_id, insert_group, update_group,
  active_group_id, subscription_days, add_row, if_fresh, serve_catalog,
}
use sub2api_gate.Catalog.Resolved.{Settled, resolve_provision_groups-Settled}
use sub2api_gate.Catalog.Cached.{IsCatalog, IsCache, load_group_catalog-IsCatalog}

abbrev ascii : Python
ascii = record { repr = λ v. []; lower = map to_lower; lower_ascii = λ t h. refl }

abbrev group : ℕ → Text → GroupRow
group id name = record {
  id = id;
  name = name;
  platform = codes "openai";
  description = [];
  subscription_type = codes "standard";
  status = codes "active";
  dispatch = true;
  deleted = false;
}

abbrev start : Db
start = record {
  users = [];
  keys = [];
  subscriptions = [];
  allowed = [];
  owners = [];
  groups = group 5 (codes "beta") ∷ group 6 (codes "no name") ∷ [];
  plans = [];
  next_user = 1;
  next_key = 1;
  next_group = 7;
}

abbrev asks_for_two : Fields
asks_for_two =
    field (codes "allowedGroups") (arr (cons (str (codes "vip")) (cons (str (codes "beta")) nil)))
      end

abbrev resolved : List (Text × ℕ)
resolved = (codes "vip", 7) ∷ (codes "beta", 5) ∷ []

abbrev settled : Db
settled = (resolve_provision_groups ascii (codes "vip") asks_for_two start).1

two_resolved :
    resolve_provision_groups ascii (codes "vip") asks_for_two start ≡ (ok resolved, settled)
unfolding resolve_provision_groups requested_groups resolve_requested resolve_names resolve_name
    ensure_group lookup_active_group_id insert_group update_group active_group_id add_group
    is_group_name configured_groups configured_step split strip text_of str_of text_eqb get has
    items group_profile first update_where
two_resolved = refl

resolve_provision_groups-Settled_example :
    (names : List Text) × (requested_groups ascii (codes "vip") asks_for_two ≡ ok names)
    × AreGroups names
    × Settled names resolved start settled
resolve_provision_groups-Settled_example =
    resolve_provision_groups-Settled ascii (codes "vip") asks_for_two start resolved settled
      two_resolved

abbrev empty_cache : Cache
empty_cache = record { groups = none; expires_at = 0 }

empty_cache-IsCache : IsCache ascii empty_cache
empty_cache-IsCache entries e = cc

load_group_catalog-IsCatalog_example :
    IsCatalog (load_group_catalog ascii (λ gs. gs) 3 4 empty_cache start).0
    × IsCache ascii (load_group_catalog ascii (λ gs. gs) 3 4 empty_cache start).1
load_group_catalog-IsCatalog_example =
    load_group_catalog-IsCatalog ascii (λ gs. gs) 3 4 empty_cache start empty_cache-IsCache

one_listed :
    (load_group_catalog ascii (λ gs. gs) 3 4 empty_cache start).0
    ≡ record { id = 5; name = codes "beta"; platform = codes "openai" } ∷ []
unfolding load_group_catalog if_fresh serve_catalog collect_rows add_row validate_group_name
    is_group_name strip text_of str_of text_eqb
one_listed = refl

days_in_bounds : (subscription_days (negsuc 4) ≡ 1) × (subscription_days (pos 40000) ≡ 36500)
unfolding subscription_days
days_in_bounds = (refl, refl)
