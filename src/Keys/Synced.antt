-- ===== src/Keys/Synced.antt =====
-- What `sync_user_keys` makes of the keys of a user.
use mathlib.Core.Path.{subst}
use sub2api_gate.Base.{
  ℕ, ◌≡◌, refl, ap, ◌∙◌, sym, Option, none, some, List, [], ◌∷◌, ◌++◌, nat_eq, text_eq, Text, take,
  Result, ok, is_empty, strip,
}
use sub2api_gate.Payload.{Python, str}
use sub2api_gate.Group.{validate_group_name}
use sub2api_gate.Token.{Token}
use sub2api_gate.Database.{Db, Exec, ◌>>=◌, ◌>>◌, pure, lift, update, first, select}
use sub2api_gate.Database.ReadOnly.{ReadOnly, ReadOnly-bind, ReadOnly-if, ReadOnly-pure, bind_ok}
use sub2api_gate.Catalog.{lookup_active_group_id, active_group_id}
use sub2api_gate.Keys.{
  is_key_row, store_key, SyncState, add_synced, disable_rest, found_or, token_group, sync_key,
  sync_keys, sync_user_keys,
}
use sub2api_gate.Keys.Rows.{IsKeyed, All-mono}
use sub2api_gate.Keys.Stored.{OnlyKeys-refl, Stored, store_key-Stored}
use sub2api_gate.Keys.Progress.{
  Progress, Progress-Stored, Apart, Apart-trans, Holds, append_nil, append_assoc,
  disable_rest-Holds,
}

-- The keys that a request asks for, as they are stored.
abbrev pub keys_of : List Token → List Text
keys_of [] = []
keys_of (token ∷ tokens) = take 128 token.key ∷ keys_of tokens

module _ (py : Python) where
  lookup_active_group_id-ReadOnly : (name : Text) → ReadOnly (lookup_active_group_id py name)
  unfolding lookup_active_group_id
  lookup_active_group_id-ReadOnly name =
      ReadOnly-bind (lift (validate_group_name py (str name))) (λ n. select (active_group_id n))
        (record { at = λ d. refl }) (λ n. record { at = λ d. refl })

  token_group-ReadOnly :
      (group_id : ℕ) (name : Option Text) → ReadOnly (token_group py group_id name)
  unfolding token_group
  token_group-ReadOnly group_id none = ReadOnly-pure group_id
  token_group-ReadOnly group_id (some name) =
      ReadOnly-if (is_empty (strip name)) (pure group_id) _ (ReadOnly-pure group_id) (
        ReadOnly-bind (lookup_active_group_id py (strip name))
          (λ found. pure (found_or group_id found)) (lookup_active_group_id-ReadOnly (strip name))
          (λ found. ReadOnly-pure (found_or group_id found)))

  sync_key-Stored :
      (user_id group_id : ℕ) (token : Token) (d : Db) (id : ℕ) (d' : Db)
      → IsKeyed d.next_key d.keys
      → sync_key py user_id group_id token d ≡ (ok id, d')
      → Stored user_id (take 128 token.key) id d d'
  unfolding sync_key
  sync_key-Stored user_id group_id token d id d' keyed h =
      let (gid, d1, h1, h2) = bind_ok (token_group py group_id token.group_name) store d id d' h in
      let same : d1 ≡ d =
        sym (ap (λ (x : Result ℕ × Db). x.1) h1)
        ∙ (token_group-ReadOnly group_id token.group_name).at d in
      store_key-Stored user_id (take 128 token.key) (take 100 token.name) gid
        (first (is_key_row (take 128 token.key)) d.keys) d id d' keyed refl (rw same at h2)
    where
      store : ℕ → Exec ℕ
      store gid =
          select (λ d. first (is_key_row (take 128 token.key)) d.keys)
          >>= store_key user_id (take 128 token.key) (take 100 token.name) gid

  Apart-Stored :
      (user_id : ℕ) (key : Text) (id : ℕ) (d d' : Db)
      → Stored user_id key id d d'
      → Apart user_id d d'
  Apart-Stored user_id key id d d' s = record { others = s.others; only = s.only }

  sync_keys-Progress :
      (user_id group_id : ℕ) (tokens : List Token) (state : SyncState) (given : List Text) (d : Db)
      (end_state : SyncState) (d' : Db)
      → Progress user_id state.active_ids given d
      → sync_keys py user_id group_id tokens state d ≡ (ok end_state, d')
      → Progress user_id end_state.active_ids (given ++ keys_of tokens) d' × Apart user_id d d'
  unfolding sync_keys add_synced
  sync_keys-Progress user_id group_id [] state given d end_state d' p h =
      let same : state ≡ end_state = cc in
      let there : d ≡ d' = cc in
      subst (λ (x : Db). Progress user_id end_state.active_ids (given ++ []) x × Apart user_id d x)
        there
        (
          rw (append_nil given)
              (subst (λ (s : SyncState). Progress user_id s.active_ids given d) same p),
          record { others = λ v ne. refl; only = OnlyKeys-refl d },
        )
  sync_keys-Progress user_id group_id (token ∷ tokens) state given d end_state d' p h =
      let (id, d1, h1, h2) =
        bind_ok (sync_key py user_id group_id token)
          (λ n. sync_keys py user_id group_id tokens (add_synced n token.key state)) d end_state d'
          h in
      let s = sync_key-Stored user_id group_id token d id d1 p.keyed h1 in
      let (p', apart) =
        sync_keys-Progress user_id group_id tokens (add_synced id token.key state)
          (given ++ take 128 token.key ∷ []) d1 end_state d'
          (Progress-Stored user_id state.active_ids given (take 128 token.key) id d d1 p s) h2 in
      (
        subst (λ (g : List Text). Progress user_id end_state.active_ids g d')
            (append_assoc given (take 128 token.key ∷ []) (keys_of tokens)) p',
        Apart-trans user_id d d1 d' (Apart-Stored user_id (take 128 token.key) id d d1 s) apart,
      )

  -- When the keys of a user have been synchronised, the user's live keys are those that were asked for
  -- and no others, each other user has the live keys that it had, and nothing but the keys has changed.
  -- The identifiers of the keys have to be distinct and below the next one, and are so again.
  pub sync_user_keys-Holds :
      (user_id group_id : ℕ) (tokens : List Token) (d : Db) (primary : ℕ × Text) (d' : Db)
      → IsKeyed d.next_key d.keys
      → sync_user_keys py user_id group_id tokens d ≡ (ok primary, d')
      → Holds user_id (keys_of tokens) d' × IsKeyed d'.next_key d'.keys × Apart user_id d d'
  unfolding sync_user_keys
  sync_user_keys-Holds user_id group_id tokens d primary d' keyed h =
      let (state, d1, h1, h2) =
        bind_ok (sync_keys py user_id group_id tokens start) finish d primary d' h in
      let (p, apart) =
        sync_keys-Progress user_id group_id tokens start [] d state d1 (nothing d keyed) h1 in
      let there : disable_rest user_id state.active_ids d1 ≡ d' =
        ap (λ (x : Result (ℕ × Text) × Db). x.1) h2 in
      let (holds, again, apart') =
        disable_rest-Holds user_id state.active_ids (keys_of tokens) d1 p in
      subst
        (λ (x : Db).
          Holds user_id (keys_of tokens) x × IsKeyed x.next_key x.keys × Apart user_id d x)
        there
        (
          holds,
          again,
          Apart-trans user_id d d1 (disable_rest user_id state.active_ids d1) apart apart',
        )
    where
      start : SyncState
      start = record { active_ids = []; primary_id = 0; primary_key = [] }

      finish : SyncState → Exec (ℕ × Text)
      finish state =
          update (disable_rest user_id state.active_ids)
          >> pure (state.primary_id, state.primary_key)

      nothing : (d : Db) → IsKeyed d.next_key d.keys → Progress user_id [] [] d
      nothing d k = record {
        keyed = k;
        sound = All-mono _ _ d.keys (λ k _ m. cc) k.bounded;
        complete = λ key m. cc;
      }
