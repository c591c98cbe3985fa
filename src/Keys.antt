-- ===== src/Keys.antt =====
-- The API keys of a user (sub2api-sync/sub2api_sync.py): `get_user_keys` and `sync_user_keys`.
pub mod Rows
pub mod Stored
pub mod Progress
pub mod Synced
pub mod Shown
pub mod Memory
mod Tests
use sub2api_gate.Base.{
  ℕ, ◌+◌, Bool, true, false, not, ◌&&◌, Option, none, some, List, [], ◌∷◌, ◌++◌, map, keep, Text,
  codes, ◌==◌, nat_eq, text_eq, member, length, take, ltb, is_empty, strip, if◌then◌else◌,
  runtime_error, other, ok, err, show_nat, Result,
}
use sub2api_gate.Payload.{Python}
use sub2api_gate.Token.{Token, max_user_api_keys}
use sub2api_gate.Database.{
  ApiKey, GroupRow, Db, Exec, ◌>>=◌, ◌>>◌, pure, raise, lift, select, update, first, update_where,
}
use sub2api_gate.Catalog.{active, group_number, lookup_active_group_id}
use sub2api_gate.Removal.{disable_keys, end_key, is_live_key}

-- One entry of the reply; the texts of the quotas stand for the floats that they are read as.
pub record KeyView : Type 0 where
  pub api_key_id : ℕ
  pub name : Text
  pub api_key : Text
  pub status : ℕ
  pub quota : Text
  pub quota_used : Text
  pub group_name : Text

-- The name that the join finds, cut.
abbrev pub joined_name : Option GroupRow → Text
joined_name none = []
joined_name (some g) = take 64 g.name

-- What the database and `psql` do for the query of the keys: the order that `ORDER BY api_keys.id`
-- gives, the cells that `rows` finds in the text that `psql` prints for the rows, and `int` of a cell.
pub record KeyReader : Type 0 where
  pub order_by_id : List ApiKey → List ApiKey
  pub read_back : List (List Text) → List (List Text)
  pub number_of : Text → Result ℕ

-- The columns of the query.
abbrev pub key_columns : List GroupRow → ApiKey → List Text
key_columns groups k =
    show_nat k.id
    ∷ take 100 k.name
    ∷ take 128 k.key
    ∷ take 16 k.status
    ∷ take 64 k.quota
    ∷ take 64 k.quota_used
    ∷ joined_name (first (λ g. g.id == k.group_id) groups)
    ∷ []

abbrev pub live_keys : ℕ → Db → List ApiKey
live_keys user_id d = keep (is_live_key user_id) d.keys

abbrev pub within_limit : List (List Text) → Exec (List (List Text))
within_limit rows =
    if ltb max_user_api_keys (length rows)
    then raise (runtime_error (codes "api_key_limit_exceeded"))
    else pure rows

-- `row[6] if len(row) >= 7 else ""`
abbrev pub seventh : List Text → Text
seventh [] = []
seventh (group_name ∷ more) = group_name

-- `int(row[0])` of an entry may raise.
abbrev pub entry_of : Result ℕ → (ℕ → KeyView) → Result KeyView
entry_of (err e) made = err e
entry_of (ok n) made = ok (made n)

abbrev pub add_view : Result KeyView → Result (List KeyView) → Result (List KeyView)
add_view (err e) rest = err e
add_view (ok entry) (err e) = err e
add_view (ok entry) (ok entries) = ok (entry ∷ entries)

module _ (reader : KeyReader) where
  -- The entry of a row of six columns or more; a shorter one is left out.
  unfoldable pub view_columns : List Text → Option (Result KeyView)
  view_columns (id ∷ name ∷ key ∷ status ∷ quota ∷ quota_used ∷ more) = some (
      entry_of (reader.number_of id) (λ n. record {
        api_key_id = n;
        name = name;
        api_key = key;
        status = if status == active then 1 else 0;
        quota = quota;
        quota_used = quota_used;
        group_name = seventh more;
      }))
  view_columns _ = none

  unfoldable pub view_rows : List (List Text) → Result (List KeyView)
  unfolding view_columns
  view_rows [] = ok []
  view_rows (row ∷ rows) =
      let rest = view_rows rows in
      elim (view_columns row) [ none ↦ rest | some entry ↦ add_view entry rest ]

  unfoldable pub get_user_keys : ℕ → Exec (List KeyView)
  unfolding view_rows
  get_user_keys user_id = do
    rows ← select λ d. reader.read_back (
        map (key_columns d.groups)
          (take (max_user_api_keys + 1) (reader.order_by_id (live_keys user_id d))))
    listed ← within_limit rows
    lift (view_rows listed)

-- `lookup_active_group_id(token_group_name) or group_id`
unfoldable pub found_or : ℕ → Option ℕ → ℕ
found_or group_id none = group_id
found_or group_id (some id) = if id == 0 then group_id else id

abbrev pub is_key_row : Text → ApiKey → Bool
is_key_row key k = k.key == key

-- `UPDATE api_keys` of a row that is there, whoever it belonged to.
abbrev pub reuse_key : ℕ → Text → Text → ℕ → ApiKey → ApiKey
reuse_key user_id key name group_id k = record k {
  user_id = user_id;
  key = key;
  name = name;
  group_id = group_id;
  status = active;
  quota = codes "0";
  deleted = false;
}

unfoldable pub rewrite_key : ℕ → ℕ → Text → Text → ℕ → Db → Db
rewrite_key id user_id key name group_id d = record d {
  keys = update_where (λ k. k.id == id) (reuse_key user_id key name group_id) d.keys;
}

abbrev pub new_key : ℕ → ℕ → Text → Text → ℕ → ApiKey
new_key id user_id key name group_id = record {
  id = id;
  user_id = user_id;
  key = key;
  name = name;
  group_id = group_id;
  status = active;
  quota = codes "0";
  quota_used = codes "0";
  deleted = false;
}

unfoldable pub insert_key : ℕ → Text → Text → ℕ → Db → Db
insert_key user_id key name group_id d = record d {
  keys = d.keys ++ new_key d.next_key user_id key name group_id ∷ [];
  next_key = d.next_key + 1;
}

-- `int(first_row(...)[0])`; with no row it is a TypeError.
abbrev pub inserted_id : Option ApiKey → Exec ℕ
inserted_id none = raise other
inserted_id (some k) = pure k.id

-- What is done about one token, by the row that has its key.
unfoldable pub store_key : ℕ → Text → Text → ℕ → Option ApiKey → Exec ℕ
unfolding rewrite_key insert_key
store_key user_id key name group_id (some row) =
    if not (row.user_id == user_id) && not row.deleted
    then raise (runtime_error (codes "api_key_conflict"))
    else (update (rewrite_key row.id user_id key name group_id) >> pure row.id)
store_key user_id key name group_id none = do
  update (insert_key user_id key name group_id)
  found ← select (λ d. first (is_key_row key) d.keys)
  inserted_id found

-- The state of the loop.
pub record SyncState : Type 0 where
  pub active_ids : List ℕ
  pub primary_id : ℕ
  pub primary_key : Text

unfoldable pub add_synced : ℕ → Text → SyncState → SyncState
add_synced id key state = record {
  active_ids = state.active_ids ++ id ∷ [];
  primary_id = if state.primary_id == 0 then id else state.primary_id;
  primary_key = if state.primary_id == 0 then key else state.primary_key;
}

-- The statement behind the loop.
unfoldable pub disable_rest : ℕ → List ℕ → Db → Db
unfolding disable_keys
disable_rest user_id [] d = disable_keys user_id d
disable_rest user_id (id ∷ ids) d = record d {
  keys = update_where (λ k. is_live_key user_id k && not (member k.id (id ∷ ids))) end_key d.keys;
}

module _ (py : Python) where
  unfoldable pub token_group : ℕ → Option Text → Exec ℕ
  unfolding found_or lookup_active_group_id
  token_group group_id none = pure group_id
  token_group group_id (some name) =
      if is_empty (strip name)
      then pure group_id
      else (lookup_active_group_id py (strip name) >>= λ found. pure (found_or group_id found))

  -- A text in a statement is cut, and so is the key that is looked for.
  unfoldable pub sync_key : ℕ → ℕ → Token → Exec ℕ
  unfolding token_group store_key
  sync_key user_id group_id token = do
    token_group_id ← token_group group_id token.group_name
    existing ← select (λ d. first (is_key_row (take 128 token.key)) d.keys)
    store_key user_id (take 128 token.key) (take 100 token.name) token_group_id existing

  unfoldable pub sync_keys : ℕ → ℕ → List Token → SyncState → Exec SyncState
  unfolding sync_key add_synced
  sync_keys user_id group_id [] state = pure state
  sync_keys user_id group_id (token ∷ tokens) state = do
    id ← sync_key user_id group_id token
    sync_keys user_id group_id tokens (add_synced id token.key state)

  unfoldable pub sync_user_keys : ℕ → ℕ → List Token → Exec (ℕ × Text)
  unfolding sync_keys disable_rest
  sync_user_keys user_id group_id tokens = do
    state ←
        sync_keys user_id group_id tokens
          (record { active_ids = []; primary_id = 0; primary_key = [] })
    update (disable_rest user_id state.active_ids)
    pure (state.primary_id, state.primary_key)
