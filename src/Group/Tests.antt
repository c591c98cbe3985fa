-- ===== src/Group/Tests.antt =====
-- Group names at concrete settings and payloads.
use sub2api_gate.Base.{
  ◌≤◌, ◌≡◌, ◌⊎◌, refl, false, List, [], ◌∷◌, map, Text, codes, text_eqb, is_empty, length, strip,
  split, to_lower, ok,
}
use sub2api_gate.Payload.{
  items, Python, Fields, str, arr, nil, cons, obj, field, end, get, has, text_of,
}
use sub2api_gate.Group.{
  configured_groups, requested_groups, group_profile, max_group_catalog, add_group, is_group_name,
  configured_step,
}
use sub2api_gate.Group.Names.{AreGroups, configured_groups-AreGroups, requested_groups-AreGroups}

abbrev ascii : Python
ascii = record { repr = λ v. []; lower = map to_lower; lower_ascii = λ t h. refl }

configured_twice : configured_groups (codes "vip, Default ,vip,gr ok") ≡ codes "vip" ∷ []
unfolding configured_groups split strip is_group_name text_eqb configured_step
configured_twice = refl

profile_of_xai :
    group_profile ascii (str (codes "XAI-fast")) ≡ (codes "openai", codes "Grok gateway")
unfolding group_profile text_of strip text_eqb
profile_of_xai = refl

abbrev asks_for_two : Fields
asks_for_two =
    field (codes "allowedGroups") (arr (cons (str (codes "vip")) (cons (str (codes "beta")) nil))) (
      field (codes "tokens")
        (arr (cons (obj (field (codes "groupName") (str (codes "vip")) end)) nil)) end)

two_requested :
    requested_groups ascii (codes "openai-default") asks_for_two
    ≡ ok (codes "vip" ∷ codes "beta" ∷ [])
unfolding requested_groups get has text_of strip is_group_name text_eqb add_group items
two_requested = refl

configured_groups-AreGroups_example :
    AreGroups (configured_groups (codes ",,")) × (is_empty (configured_groups (codes ",,")) ≡ false)
configured_groups-AreGroups_example = configured_groups-AreGroups (codes ",,")

abbrev two : List Text
two = codes "vip" ∷ codes "beta" ∷ []

requested_groups-AreGroups_example :
    AreGroups two
    × (is_empty two ≡ false)
    × ((two ≡ configured_groups (codes "openai-default")) ⊎ (length two ≤ max_group_catalog))
requested_groups-AreGroups_example =
    requested_groups-AreGroups ascii (codes "openai-default") asks_for_two two two_requested
