-- ===== src/Token.antt =====
-- API keys as a request gives them (sub2api-sync/sub2api_sync.py): `is_api_key`,
-- `normalize_api_key`, `clean_key_name` and `requested_tokens`.
pub mod Keys
pub mod Requested
mod Tests
use sub2api_gate.Base.{
  ℕ, Bool, true, false, not, ◌&&◌, ◌||◌, Option, none, some, List, [], ◌∷◌, ◌++◌, Text, codes, ◌==◌,
  text_eq, nat_eq, leb, ltb, every, length, take, drop, member, is_alnum, is_empty, strip,
  starts_with, text_or, if◌then◌else◌, value_error, runtime_error, Result, ok, err, ◌>>=◌, ◌>>◌,
}
use sub2api_gate.Payload.{
  Python, Value, Fields, str, arr, obj, field, end, items, get, truthy, value_or, text_of, null,
  bool, int, real,
}
use sub2api_gate.Group.{validate_group_name}

abbrev pub max_user_api_keys : ℕ
max_user_api_keys = 100

abbrev pub default_key_name : Text
default_key_name = codes "Sub2API"

unfoldable pub is_api_key : Text → Bool
is_api_key t =
    if length t == 48 && every is_alnum t
    then true
    else starts_with (codes "sk-") t
      && (leb 1 (length (drop 3 t)) && leb (length (drop 3 t)) 125)
      && every is_alnum (drop 3 t)

-- `normalize_api_key` behind its strip.
unfoldable pub normalize_key : Text → Result Text
normalize_key text =
    if is_empty text
    then ok []
    else if not (is_api_key text)
    then err (value_error (codes "invalid api key"))
    else if starts_with (codes "sk-") text
    then ok text
    else ok (codes "sk-" ++ text)

-- What a request asks for; a group name is there where the item brings one.
pub record Token : Type 0 where
  pub key : Text
  pub name : Text
  pub group_name : Option Text

-- The state of the loop: the set of keys seen, and the result.
pub record Gathered : Type 0 where
  pub seen : List Text
  pub result : List Token

-- The item that stands for a payload with no list of tokens.
unfoldable pub single_item : Fields → Value
single_item payload = obj (
    field (codes "tokenKey")
      (value_or (get (codes "tokenKey") payload) (value_or (get (codes "apiKey") payload) (str [])))
      (field (codes "tokenName")
        (value_or (get (codes "tokenName") payload)
          (value_or (get (codes "apiKeyName") payload) (str default_key_name)))
        end))

unfoldable pub token_items : Fields → Value → List Value
unfolding single_item
token_items payload (arr vs) = items vs
token_items payload _ = single_item payload ∷ []

module _ (py : Python) where
  unfoldable pub normalize_api_key : Value → Result Text
  unfolding normalize_key
  normalize_api_key value = normalize_key (strip (text_of py value))

  unfoldable pub clean_key_name : Value → Text
  clean_key_name value = text_or (take 100 (strip (text_of py value))) default_key_name

  -- The `groupName` of an item, where it is truthy.
  unfoldable pub item_group : Fields → Result (Option Text)
  item_group fs =
      let name = get (codes "groupName") fs in
      if truthy name then (do group ← validate_group_name py name; ok (some group)) else ok none

  unfoldable pub new_token : Fields → Text → Option Text → Token
  new_token fs key group = record {
    key = key;
    name = clean_key_name (
        value_or (get (codes "tokenName") fs)
          (value_or (get (codes "apiKeyName") fs) (str default_key_name)));
    group_name = group;
  }

  -- The loop's body from the test of the key on.
  unfoldable pub gather : Fields → Text → Gathered → Result Gathered
  unfolding item_group
  gather fs key state = if is_empty key || member key state.seen then ok state else do
    group ← item_group fs
    let token = new_token fs key group
    let result = state.result ++ token ∷ []
    if ltb max_user_api_keys (length result)
        then err (runtime_error (codes "api_key_limit_exceeded"))
        else ok (record { seen = key ∷ state.seen; result = result })

  unfoldable pub gather_item : Value → Gathered → Result Gathered
  unfolding gather normalize_api_key
  gather_item (obj fs) state = do
    key ←
        normalize_api_key
          (value_or (get (codes "tokenKey") fs) (value_or (get (codes "apiKey") fs) (str [])))
    gather fs key state
  gather_item _ state = ok state

  pub gather_all : List Value → Gathered → Result Gathered
  unfolding gather_item
  gather_all [] state = ok state
  gather_all (v ∷ vs) state = do state' ← gather_item v state; gather_all vs state'

  unfoldable pub requested_tokens : Fields → Result (List Token)
  unfolding gather_all token_items
  requested_tokens payload = do
    state ←
        gather_all (token_items payload (get (codes "tokens") payload))
          (record { seen = []; result = [] })
    ok state.result
