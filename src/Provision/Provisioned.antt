-- ===== src/Provision/Provisioned.antt =====
-- What `provision` leaves behind when it returns.
use mathlib.Core.Path.{subst}
use sub2api_gate.Base.{
  [], ◌∷◌, ◌⊎◌, inl, inr, Bool-cases, codes, false, ℕ, ◌≡◌, ◌≢◌, refl, ap, sym, ◌∙◌, true, Option,
  some, List, Text, text_eq, ◌==◌, keep, map, ltb, length, take, nat_eq, ◌+◌, Result, ok,
}
use sub2api_gate.Payload.{Python, Fields, has}
use sub2api_gate.Payload.Identifier.{payload_user_id}
use sub2api_gate.Identity.{Identity, payload_identity}
use sub2api_gate.Token.{Token, max_user_api_keys, requested_tokens}
use sub2api_gate.Removal.{is_live_key}
use sub2api_gate.Database.Transaction.{transaction_atomic}
use sub2api_gate.Database.{
  Fault, transaction, Db, ApiKey, Owner, Exec, ◌>>=◌, pure, lift, select, first,
}
use sub2api_gate.Database.ReadOnly.{ReadOnly, ReadOnly-if, ReadOnly-bind, bind_ok, lift_ok}
use sub2api_gate.Invite.{InviteRow, owner_of, resolve_invite_user}
use sub2api_gate.Invite.Owned.{OwnersUnique}
use sub2api_gate.Invite.Resolve.{resolve_invite_user-Resolved}
use sub2api_gate.Keys.{
  KeyReader, KeyView, within_limit, key_columns, view_rows, live_keys, get_user_keys,
  sync_user_keys,
}
use sub2api_gate.Keys.Rows.{IsKeyed}
use sub2api_gate.Keys.Synced.{keys_of, sync_user_keys-Holds}
use sub2api_gate.Keys.Progress.{Holds}
use sub2api_gate.Provision.Users.{chosen_password}
use sub2api_gate.Provision.{
  ProvisionReply, Settings, hash_or_empty, group_names, primary_group, grant_groups, or_new_key,
  profile_of, submitted, equip, prepare, save, reply_of, provision_body, provision,
}
use sub2api_gate.Provision.Found.{keys_part, own_part, resolve_invite_user-Keeps}
use sub2api_gate.Provision.Frame.{prepare-Keeps, primary_group-Keeps, grant_groups-Keeps}
use sub2api_gate.Provision.Saved.{save-owned}

-- The user of a reply has exactly the given keys, and belongs to the invite.
pub record Provisioned (fp : Text) (given : List Text) (user_id : ℕ) (d d' : Db) : Type 0 where
  pub holds : Holds user_id given d'
  pub keyed : IsKeyed d'.next_key d'.keys
  pub others : (v : ℕ) → v ≢ user_id → live_keys v d' ≡ live_keys v d
  pub owned : owner_of user_id d'.owners ≡ some fp

module _ (py : Python) (fingerprint crypt password_hash_fingerprint : Text → Text)
    (reader : KeyReader) (s : Settings) where
  -- What the keys and the owners are, once the user has been saved.
  equip-Provisioned :
      (payload : Fields) (fp : Text) (groups : List (Text × ℕ)) (user_id : ℕ) (d : Db)
      (primary : ℕ × Text) (d' : Db)
      → IsKeyed d.next_key d.keys
      → owner_of user_id d.owners ≡ some fp
      → equip py fingerprint crypt password_hash_fingerprint reader s payload groups user_id d
        ≡ (ok primary, d')
      → (tokens : List Token) × (requested_tokens py payload ≡ ok tokens)
        × Provisioned fp (keys_of (or_new_key s payload tokens)) user_id d d'
  unfolding equip
  equip-Provisioned payload fp groups user_id d primary d' keyed owned h =
      let (_, d1, h1, h2) = bind_ok (grant_groups s user_id groups) (λ _. behind) d primary d' h in
      let (tokens, e, h3) = lift_ok (requested_tokens py payload) synced d1 primary d' h2 in
      let (group, d2, h4, h5) = bind_ok (primary_group groups) (sync tokens) d1 primary d' h3 in
      let same : own_part d2 ≡ own_part d =
        sym (ap (λ (x : Result ℕ × Db). own_part x.1) h4)
        ∙ (primary_group-Keeps groups).at d1
        ∙ (sym (ap (λ (x : Result (Unit {0}) × Db). own_part x.1) h1)
            ∙ (grant_groups-Keeps s user_id groups).at d) in
      let keys_same : d2.keys ≡ d.keys = ap (λ (x : List ApiKey × ℕ × List Owner). x.0) same in
      let next_same : d2.next_key ≡ d.next_key =
        ap (λ (x : List ApiKey × ℕ × List Owner). x.1) same in
      let owners_same : d2.owners ≡ d.owners =
        ap (λ (x : List ApiKey × ℕ × List Owner). x.2) same in
      let (holds, again, apart) =
        sync_user_keys-Holds py user_id group (or_new_key s payload tokens) d2 primary d'
          (rw (next_same, keys_same) keyed) h5 in
      (
        tokens,
        e,
        record {
          holds = holds;
          keyed = again;
          others = λ v ne. apart.others v ne ∙ ap (keep (is_live_key v)) keys_same;
          owned =
              ap (owner_of user_id) (ap (λ (x : Db). x.owners) apart.only.rest ∙ owners_same)
              ∙ owned;
        },
      )
    where
      sync : List Token → ℕ → Exec (ℕ × Text)
      sync tokens group = sync_user_keys py user_id group (or_new_key s payload tokens)

      synced : List Token → Exec (ℕ × Text)
      synced tokens = primary_group groups >>= sync tokens

      behind : Exec (ℕ × Text)
      behind = lift (requested_tokens py payload) >>= synced

  within_limit-ReadOnly : (rows : List (List Text)) → ReadOnly (within_limit rows)
  within_limit-ReadOnly rows =
      ReadOnly-if (ltb max_user_api_keys (length rows)) _ _ (record { at = λ d. refl })
        (record { at = λ d. refl })

  get_user_keys-ReadOnly : (user_id : ℕ) → ReadOnly (get_user_keys reader user_id)
  unfolding get_user_keys
  get_user_keys-ReadOnly user_id =
      ReadOnly-bind
        (select (λ d. reader.read_back (
          map (key_columns d.groups)
            (take (max_user_api_keys + 1) (reader.order_by_id (live_keys user_id d))))))
        _ (record { at = λ d. refl })
        (λ rows.
          ReadOnly-bind (within_limit rows) (λ listed. lift (view_rows reader listed))
            (within_limit-ReadOnly rows) (λ listed. record { at = λ d. refl }))

  -- The reply names the user, and nothing is written for it.
  reply_of_same :
      (payload : Fields) (who : Identity) (groups : List (Text × ℕ)) (user_id : ℕ)
      (keyed : ℕ × Text) (d : Db) (reply : ProvisionReply) (d' : Db)
      → reply_of py fingerprint crypt password_hash_fingerprint reader s payload who groups user_id
          keyed d
        ≡ (ok reply, d')
      → (d ≡ d') × (user_id ≡ reply.user_id)
  unfolding reply_of
  reply_of_same payload who groups user_id (api_key_id, key) d reply d' h =
      let (listed, d1, h1, h2) =
        bind_ok (get_user_keys reader user_id) (λ l. pure (shown l)) d reply d' h in
      let same : d1 ≡ d =
        sym (ap (λ (x : Result (List KeyView) × Db). x.1) h1)
        ∙ (get_user_keys-ReadOnly user_id).at d in
      let last : d1 ≡ d' = cc in
      let made : shown listed ≡ reply = cc in
      (sym same ∙ last, ap (λ (r : ProvisionReply). r.user_id) made)
    where
      shown : List KeyView → ProvisionReply
      shown listed = record {
        uuid = who.uuid;
        username = who.username;
        email =
            (profile_of py fingerprint crypt password_hash_fingerprint reader s payload who).email;
        user_id = user_id;
        api_key_id = api_key_id;
        api_key = key;
        login_password =
            chosen_password s.drawn_password
              (submitted py fingerprint crypt password_hash_fingerprint reader s payload);
        password_hash_fingerprint =
            password_hash_fingerprint (hash_or_empty (first (λ u. u.id == user_id) d.users));
        tokens = listed;
        allowed_groups = group_names groups;
      }

  -- The parts of the body, in the order of the code.
  provision_body-Provisioned :
      (payload : Fields) (d : Db) (reply : ProvisionReply) (d' : Db)
      → OwnersUnique d
      → IsKeyed d.next_key d.keys
      → provision_body py fingerprint crypt password_hash_fingerprint reader s payload d
        ≡ (ok reply, d')
      → (who : Identity) × (tokens : List Token) × (payload_identity py payload ≡ ok who)
        × (requested_tokens py payload ≡ ok tokens)
        × Provisioned
            (fingerprint who.uuid)
            (keys_of (or_new_key s payload tokens))
            reply.user_id
            d
            d'
  unfolding provision_body
  provision_body-Provisioned payload d reply d' unique keyed h =
      let (who, e, h1) = lift_ok (payload_identity py payload) for_who d reply d' h in
      let (asked, e2, h2) = lift_ok (payload_user_id payload) (for_id who) d reply d' h1 in
      let (user, d1, h3, h4) = bind_ok (resolve who asked) (for_user who) d reply d' h2 in
      let (groups, d2, h5, h6) =
        bind_ok (prepare py fingerprint crypt password_hash_fingerprint reader s payload who user)
          (for_groups who user) d1 reply d' h4 in
      let (user_id, d3, h7, h8) =
        bind_ok (save py fingerprint crypt password_hash_fingerprint reader s payload who user)
          (for_saved who groups) d2 reply d' h6 in
      let (primary, d4, h9, h10) =
        bind_ok
          (equip py fingerprint crypt password_hash_fingerprint reader s payload groups user_id)
          (for_keys who groups user_id) d3 reply d' h8 in
      let (last, named) = reply_of_same payload who groups user_id primary d4 reply d' h10 in
      let before : own_part d2 ≡ own_part d1 =
        sym (ap (λ (x : Result (List (Text × ℕ)) × Db). own_part x.1) h5)
        ∙ (prepare-Keeps py fingerprint crypt password_hash_fingerprint reader s payload who
              user).at
            d1 in
      let found : keys_part d1 ≡ keys_part d =
        sym (ap (λ (x : Result (Option InviteRow) × Db). keys_part x.1) h3)
        ∙ (resolve_invite_user-Keeps fingerprint who.uuid who.legacy_username who.username asked 0
              true true).at
            d in
      let (saved, owned) =
        save-owned py fingerprint crypt password_hash_fingerprint reader s payload who user d2
          user_id d3
          (λ row e.
            ap (owner_of row.id) (ap (λ (x : List ApiKey × ℕ × List Owner). x.2) before)
            ∙ (resolve_invite_user-Resolved fingerprint who.uuid who.legacy_username who.username
                asked 0 true true row d d1 unique
                (h3 ∙ ap (λ (o : Option InviteRow). (ok o, d1)) e)).owned_row.owned)
          h7 in
      let kept : keys_part d3 ≡ keys_part d =
        saved ∙ ap (λ (x : List ApiKey × ℕ × List Owner). (x.0, x.1)) before ∙ found in
      let keys_same : d3.keys ≡ d.keys = ap (λ (x : List ApiKey × ℕ). x.0) kept in
      let next_same : d3.next_key ≡ d.next_key = ap (λ (x : List ApiKey × ℕ). x.1) kept in
      let (tokens, e3, p) =
        equip-Provisioned payload (fingerprint who.uuid) groups user_id d3 primary d4
          (rw (next_same, keys_same) keyed) owned h9 in
      (
        who,
        tokens,
        e,
        e3,
        subst
            (λ (x : Db).
              Provisioned (fingerprint who.uuid) (keys_of (or_new_key s payload tokens))
                reply.user_id d x)
            last
            (subst
              (λ (n : ℕ).
                Provisioned (fingerprint who.uuid) (keys_of (or_new_key s payload tokens)) n d d4)
              named
              (record {
                holds = p.holds;
                keyed = p.keyed;
                others = λ v ne. p.others v ne ∙ ap (keep (is_live_key v)) keys_same;
                owned = p.owned;
              })),
      )
    where
      resolve : Identity → ℕ → Exec (Option InviteRow)
      resolve who asked =
          resolve_invite_user fingerprint who.uuid who.legacy_username who.username asked 0 true
            true

      for_keys : Identity → List (Text × ℕ) → ℕ → ℕ × Text → Exec ProvisionReply
      for_keys who groups user_id primary =
          reply_of py fingerprint crypt password_hash_fingerprint reader s payload who groups
            user_id primary

      for_saved : Identity → List (Text × ℕ) → ℕ → Exec ProvisionReply
      for_saved who groups user_id =
          equip py fingerprint crypt password_hash_fingerprint reader s payload groups user_id
          >>= for_keys who groups user_id

      for_groups : Identity → Option InviteRow → List (Text × ℕ) → Exec ProvisionReply
      for_groups who user groups =
          save py fingerprint crypt password_hash_fingerprint reader s payload who user
          >>= for_saved who groups

      for_user : Identity → Option InviteRow → Exec ProvisionReply
      for_user who user =
          prepare py fingerprint crypt password_hash_fingerprint reader s payload who user
          >>= for_groups who user

      for_id : Identity → ℕ → Exec ProvisionReply
      for_id who asked = resolve who asked >>= for_user who

      for_who : Identity → Exec ProvisionReply
      for_who who = lift (payload_user_id payload) >>= for_id who

  -- The keys that a provision leaves its user with: those that the payload asks for, where it asks for
  -- any or has a list of them, and else the one that was drawn.
  abbrev pub Given : Fields → List Token → List Text → Type 0
  Given payload tokens given =
      ((given ≡ keys_of tokens) × ((tokens ≢ []) ⊎ (has (codes "tokens") payload ≡ true)))
      ⊎ ((given ≡ take 128 s.drawn_key ∷ [])
          × (tokens ≡ [])
          × (has (codes "tokens") payload ≡ false))

  or_new_key-Given :
      (payload : Fields) (tokens : List Token)
      → Given payload tokens (keys_of (or_new_key s payload tokens))
  unfolding or_new_key
  or_new_key-Given payload (token ∷ tokens) = inl (refl, inl (λ e. cc))
  or_new_key-Given payload [] = elim (Bool-cases (has (codes "tokens") payload)) [
    | inl listed ↦ rw listed (inl (refl, inr refl))
    | inr silent ↦ rw silent (inr (refl, refl, refl))
  ]

  -- A provision that returns names a user who belongs to the invite and whose live keys are exactly
  -- those that the payload asks for, or the one newly drawn key where the payload has no list of keys
  -- and asks for none; every other user has the live keys that it had. No user has two owners, and the identifiers of the keys are distinct and
  -- below the next one, which holds again afterwards.
  pub provision-Provisioned :
      (fault : Fault) (payload : Fields) (d : Db) (reply : ProvisionReply) (d' : Db)
      → OwnersUnique d
      → IsKeyed d.next_key d.keys
      → provision py fingerprint crypt password_hash_fingerprint reader s fault payload d
        ≡ (ok reply, d')
      → (who : Identity) × (tokens : List Token) × (payload_identity py payload ≡ ok who)
        × (requested_tokens py payload ≡ ok tokens)
        × (given : List Text) × Given payload tokens given
        × Provisioned (fingerprint who.uuid) given reply.user_id d d'
  unfolding provision
  provision-Provisioned fault payload d reply d' unique keyed h =
      let body = provision_body py fingerprint crypt password_hash_fingerprint reader s payload in
      let ran : transaction fault body d ≡ body d =
        (transaction_atomic fault body d).1 reply
          (ap (λ (x : Result ProvisionReply × Db). x.0) h) in
      let (who, tokens, e, e2, p) =
        provision_body-Provisioned payload d reply d' unique keyed (sym ran ∙ h) in
      (
        who,
        tokens,
        e,
        e2,
        keys_of (or_new_key s payload tokens),
        or_new_key-Given payload tokens,
        p,
      )
