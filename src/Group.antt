-- ===== src/Group.antt =====
-- Group names of sub2api-sync/sub2api_sync.py: `validate_group_name`, `configured_groups`,
-- `requested_groups` and `group_profile`.
pub mod Names
mod Tests
use sub2api_gate.Base.{
  ℕ, Bool, true, false, not, ◌&&◌, ◌||◌, List, [], ◌∷◌, ◌++◌, map, Text, codes, ◌==◌, text_eq, leb,
  ltb, every, length, take, member, is_alnum, to_lower, strip, split, starts_with, nat_eqb,
  if◌then◌else◌, Raised, value_error, Result, ok, err, ◌>>=◌, ◌>>◌, is_empty,
}
use sub2api_gate.Payload.{
  Python, Value, Fields, null, str, arr, obj, items, get, has, truthy, text_of,
}

abbrev pub max_group_catalog : ℕ
max_group_catalog = 32

abbrev pub invalid_group : Raised
invalid_group = value_error (codes "invalid_group")

abbrev pub is_name_char : ℕ → Bool
is_name_char c = is_alnum c || nat_eqb c b'.' || nat_eqb c b'_' || nat_eqb c b'-'

-- `^[A-Za-z0-9][A-Za-z0-9._-]{0,63}$`
unfoldable pub is_group_name : Text → Bool
is_group_name [] = false
is_group_name (c ∷ t) = is_alnum c && every is_name_char t && leb (length t) 63

abbrev pub forbidden_group_names : List Text
forbidden_group_names = codes "default" ∷ []

-- Behind the strip; a name that matches is ASCII, so `lower` maps its letters.
unfoldable pub validate_name : Text → Result Text
unfolding is_group_name
validate_name name =
    if is_empty name || not (is_group_name name)
    then err invalid_group
    else if member (map to_lower name) forbidden_group_names
    then err invalid_group
    else ok name

-- One round of the loop of `configured_groups`; `seen` holds the elements of `groups`.
unfoldable pub configured_step : List Text → Text → List Text
unfolding validate_name
configured_step groups part = elim (validate_name (strip (take 100 (strip part)))) [
  | err e ↦ groups
  | ok group ↦ if member group groups then groups else groups ++ group ∷ []
]

pub configured_loop : List Text → List Text → List Text
configured_loop groups [] = groups
configured_loop groups (part ∷ parts) = configured_loop (configured_step groups part) parts

abbrev pub or_default : List Text → List Text
or_default [] = codes "openai-default" ∷ []
or_default (g ∷ gs) = g ∷ gs

-- `configured_groups`, of the value of SUB2API_SYNC_DEFAULT_GROUP.
unfoldable pub configured_groups : Text → List Text
unfolding configured_loop
configured_groups raw = or_default (configured_loop [] (split b',' raw))

-- One round of the loop of `requested_groups` behind the validation.
unfoldable pub add_group : List Text → Text → Result (List Text)
add_group seen group =
    if member group seen
    then ok seen
    else if ltb max_group_catalog (length (seen ++ group ∷ []))
    then err (value_error (codes "too_many_groups"))
    else ok (seen ++ group ∷ [])

-- The group names that the items of `tokens` bring.
abbrev pub token_group_names : List Value → List Value
token_group_names [] = []
token_group_names (obj fs ∷ vs) =
    let rest = token_group_names vs in
    if truthy (get (codes "groupName") fs) then get (codes "groupName") fs ∷ rest else rest
token_group_names (_ ∷ vs) = token_group_names vs

abbrev pub list_items : Value → List Value
list_items (arr vs) = items vs
list_items _ = []

-- `names` behind the first `if`.
unfoldable pub allowed_names : Fields → Result (List Value)
allowed_names payload =
    if has (codes "allowedGroups") payload
    then (if is_empty (list_items (get (codes "allowedGroups") payload))
        then err invalid_group
        else ok (list_items (get (codes "allowedGroups") payload)))
    else ok (list_items (get (codes "groupNames") payload))

module _ (py : Python) where
  unfoldable pub validate_group_name : Value → Result Text
  unfolding validate_name
  validate_group_name value = validate_name (strip (text_of py value))

  pub requested_loop : List Text → List Value → Result (List Text)
  unfolding validate_group_name
  requested_loop seen [] = ok seen
  requested_loop seen (v ∷ vs) = do
    group ← validate_group_name v
    seen' ← add_group seen group
    requested_loop seen' vs

  unfoldable pub requested_groups : Text → Fields → Result (List Text)
  unfolding requested_loop allowed_names
  requested_groups raw payload = do
    names ← allowed_names payload
    seen ←
        requested_loop [] (names ++ token_group_names (list_items (get (codes "tokens") payload)))
    ok (if is_empty seen then configured_groups raw else seen)

  -- The platform and the description of a group.
  unfoldable pub group_profile : Value → Text × Text
  group_profile group =
      let name = py.lower (strip (text_of py group)) in
      if name == codes "default" || starts_with (codes "openai") name
      then (codes "openai", codes "OpenAI-compatible gateway")
      else if starts_with (codes "grok") name || starts_with (codes "xai") name
      then (codes "openai", codes "Grok gateway")
      else if starts_with (codes "anthropic") name
      then (codes "anthropic", codes "Anthropic gateway")
      else if starts_with (codes "gemini") name
      then (codes "gemini", codes "Gemini gateway")
      else if starts_with (codes "antigravity") name
      then (codes "antigravity", codes "Antigravity gateway")
      else (codes "openai", codes "OpenAI-compatible gateway")
