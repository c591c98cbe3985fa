-- ===== src/Invite/Resolve.antt =====
-- `resolve_invite_user` from its query to its last check: what is returned is the invite's own user.
use mathlib.Core.Path.{subst}
use sub2api_gate.Base.{
  exists, codes, ℕ, ◌<◌, ◌≡◌, refl, sym, ap, ◌∙◌, Bool, true, false, not, ◌&&◌, ◌||◌, Option, none,
  some, List, [], ◌∷◌, arith, Text, ◌==◌, nat_eq, text_eq, nat_eqb_iff, is_empty, ltb, take, Result,
  ok, err, Bool-cases, Option-cases, inl, inr,
}
use sub2api_gate.Database.{User, ApiKey, Db, Exec, ◌>>=◌, pure, first}
use sub2api_gate.Database.Tables.{first-holds}
use sub2api_gate.Invite.{
  InviteRow, row_of, invite_user_row, owned_rows, owned_invite_user_row,
  bind_or_validate_invite_user, require_row, by_username, by_key, resolve_by_id, resolve_owned,
  resolve_by_name, resolve_row, check_key_owner, resolve_invite_user, owns_key,
}
use sub2api_gate.Invite.Owned.{
  OwnersUnique, OwnersGrew, IsOwnedRow, Validated, bind_or_validate_row-Validated,
}
use sub2api_gate.Invite.Rows.{IsUserRow, AreRows, joined-AreRows, owned_rows-AreRows, ordinary_user}

-- A query that leaves the database alone.
record Finds (m : Exec (Option InviteRow)) (d : Db) : Type 0 where
  found : Option InviteRow
  runs : m d ≡ (ok found, d)
  of_db : AreRows d found

abbrev continue :
    (Option InviteRow → Exec (Option InviteRow))
    → Result (Option InviteRow) × Db
    → Result (Option InviteRow) × Db
continue f (r, d) = elim r [ ok a ↦ f a d | err e ↦ (err e, d) ]

Finds-bind :
    (m : Exec (Option InviteRow)) (d : Db) (q : Finds m d)
    (f : Option InviteRow → Exec (Option InviteRow)) (r : Result (Option InviteRow) × Db)
    → (m >>= f) d ≡ r
    → f q.found d ≡ r
Finds-bind m d q f r h = sym (ap (continue f) q.runs) ∙ h

invite_user_row-Finds :
    (where_clause : User → Bool) (deleted : Bool) (d : Db)
    → Finds (invite_user_row where_clause deleted) d
unfolding invite_user_row
invite_user_row-Finds where_clause deleted d = record {
  found = _;
  runs = refl;
  of_db = joined-AreRows d (λ (u : User). where_clause u && (deleted || not u.deleted)) _ refl;
}

Finds-pure : (o : Option InviteRow) (d : Db) → AreRows d o → Finds (pure o) d
Finds-pure o d h = record { found = o; runs = refl; of_db = h }

by_username-Finds :
    (deleted : Bool) (candidate : Text) (o : Option InviteRow) (d : Db)
    → AreRows d o
    → Finds (by_username deleted candidate o) d
unfolding by_username
by_username-Finds deleted candidate (some row) d h = Finds-pure (some row) d h
by_username-Finds deleted candidate none d h = elim (Bool-cases (is_empty candidate)) [
  | inl skipped ↦ rw skipped (Finds-pure none d h)
  | inr given ↦ rw given (invite_user_row-Finds (λ u. u.username == take 100 candidate) deleted d)
]

by_key-Finds :
    (deleted : Bool) (key_id : ℕ) (o : Option InviteRow) (d : Db)
    → AreRows d o
    → Finds (by_key deleted key_id o) d
unfolding by_key
by_key-Finds deleted key_id (some row) d h = Finds-pure (some row) d h
by_key-Finds deleted key_id none d h = elim (Bool-cases (ltb 0 key_id)) [
  | inr skipped ↦ rw skipped (Finds-pure none d h)
  | inl given ↦
      let q = invite_user_row-Finds (owns_key key_id d) deleted d in
      record { found = q.found; runs = rw given q.runs; of_db = q.of_db }
]

module _ (fingerprint : Text → Text) (uuid : Text) (expected : List Text) where
  -- A validation that returns a row was given one.
  validated :
      (allow_bind : Bool) (o : Option InviteRow) (row : InviteRow) (d d' : Db)
      → AreRows d o
      → bind_or_validate_invite_user fingerprint o uuid expected allow_bind d ≡ (ok (some row), d')
      → (found : InviteRow) × (o ≡ some found)
        × IsUserRow d.users found
        × Validated (fingerprint uuid) allow_bind found row d d'
  unfolding bind_or_validate_invite_user
  validated allow_bind none row d d' of_db h = cc
  validated allow_bind (some found) row d d' of_db h = (
    found,
    refl,
    (of_db found refl).of_users,
    bind_or_validate_row-Validated fingerprint uuid expected allow_bind found row d d'
        (of_db found refl).of_owners h,
  )

  required :
      (needed allow_bind : Bool) (o : Option InviteRow) (row : InviteRow) (d d' : Db)
      → AreRows d o
      → (require_row needed o >>= λ r.
            bind_or_validate_invite_user fingerprint r uuid expected allow_bind)
          d
        ≡ (ok (some row), d')
      → (found : InviteRow) × (o ≡ some found)
        × IsUserRow d.users found
        × Validated (fingerprint uuid) allow_bind found row d d'
  unfolding bind_or_validate_invite_user
  required true allow_bind none row d d' of_db h = cc
  required false allow_bind none row d d' of_db h = cc
  required needed allow_bind (some found) row d d' of_db h =
      validated allow_bind (some found) row d d' of_db h

-- What a resolution that returns a row has established.
pub record Resolved (fp : Text) (user_id key_id : ℕ) (allow_bind : Bool) (row : InviteRow)
    (d d' : Db) : Type 0 where
  pub ordinary : exists (λ u. u.id == row.id && u.role == codes "user") d.users ≡ true
  pub owned_row : IsOwnedRow fp row d'
  pub grew : OwnersGrew d d'
  pub unbound : allow_bind ≡ false → d' ≡ d
  pub asked : 0 < user_id → row.id ≡ user_id
  pub own_key :
      (k : ApiKey) → 0 < key_id → first (λ j. j.id == key_id) d'.keys ≡ some k → k.user_id ≡ row.id

module _ (fingerprint : Text → Text) (uuid legacy_username username : Text) where
  by_id-asked :
      (user_id : ℕ) (deleted : Bool) (d : Db) (found : InviteRow)
      → (invite_user_row (λ u. u.id == user_id) deleted d).0 ≡ ok (some found)
      → found.id ≡ user_id
  unfolding invite_user_row row_of
  by_id-asked user_id deleted d found h =
      elim (Option-cases (first (λ u. u.id == user_id && (deleted || not u.deleted)) d.users)) [
        | inl gone ↦ cc (rw gone at h)
        | inr (u, e) ↦
            let hit =
              first-holds (λ (w : User). w.id == user_id && (deleted || not w.deleted)) d.users u
                e in
            ground (arith, hit, rw e at h)
      ]

  resolve_by_id-Validated :
      (user_id : ℕ) (deleted allow_bind : Bool) (row : InviteRow) (d d' : Db)
      → resolve_by_id fingerprint uuid
          (legacy_username ∷ username ∷ [])
          user_id
          deleted
          allow_bind
          d
        ≡ (ok (some row), d')
      → (found : InviteRow) × (found.id ≡ user_id)
        × IsUserRow d.users found
        × Validated (fingerprint uuid) allow_bind found row d d'
  unfolding resolve_by_id invite_user_row
  resolve_by_id-Validated user_id deleted allow_bind row d d' h =
      let q = invite_user_row-Finds (λ u. u.id == user_id) deleted d in
      let (found, e, listed, v) =
        required fingerprint uuid (legacy_username ∷ username ∷ []) true allow_bind q.found row d d'
          q.of_db
          (Finds-bind (invite_user_row (λ u. u.id == user_id) deleted) d q
            (λ x. require_row true x >>= λ r.
              bind_or_validate_invite_user fingerprint r uuid (legacy_username ∷ username ∷ [])
                allow_bind)
            (ok (some row), d') h) in
      (
        found,
        by_id-asked user_id deleted d found
            (ap (λ (x : Result (Option InviteRow) × Db). x.0) q.runs ∙ ap ok e),
        listed,
        v,
      )

  resolve_owned-Validated :
      (key_id : ℕ) (deleted : Bool) (row : InviteRow) (d d' : Db)
      → OwnersUnique d
      → resolve_owned fingerprint uuid (legacy_username ∷ username ∷ []) key_id deleted d
        ≡ (ok (some row), d')
      → (found : InviteRow) × IsUserRow d.users found
        × Validated (fingerprint uuid) false found row d d'
  unfolding resolve_owned owned_invite_user_row
  resolve_owned-Validated key_id deleted row d d' u h =
      let (found, e, listed, v) =
        required fingerprint uuid (legacy_username ∷ username ∷ []) (ltb 0 key_id) false
          (owned_rows (take 64 (fingerprint uuid)) deleted d.users d.owners) row d d'
          (owned_rows-AreRows (take 64 (fingerprint uuid)) deleted d u) h in
      (found, listed, v)

  resolve_by_name-Validated :
      (key_id : ℕ) (deleted allow_bind : Bool) (row : InviteRow) (d d' : Db)
      → resolve_by_name fingerprint uuid legacy_username username key_id deleted allow_bind d
        ≡ (ok (some row), d')
      → (found : InviteRow) × IsUserRow d.users found
        × Validated (fingerprint uuid) allow_bind found row d d'
  unfolding resolve_by_name
  resolve_by_name-Validated key_id deleted allow_bind row d d' h =
      let last : Option InviteRow → Exec (Option InviteRow) = λ r.
        bind_or_validate_invite_user fingerprint r uuid (legacy_username ∷ username ∷ [])
          allow_bind in
      let named = by_username-Finds deleted username none d (λ r e. cc) in
      let legacy = by_username-Finds deleted legacy_username named.found d named.of_db in
      let keyed = by_key-Finds deleted key_id legacy.found d legacy.of_db in
      let (found, e, listed, v) =
        validated fingerprint uuid (legacy_username ∷ username ∷ []) allow_bind keyed.found row d d'
          keyed.of_db
          (Finds-bind _ d keyed last (ok (some row), d')
            (Finds-bind _ d legacy (λ x. by_key deleted key_id x >>= last) (ok (some row), d')
              (Finds-bind _ d named
                (λ x.
                  by_username deleted legacy_username x >>= λ y. by_key deleted key_id y >>= last)
                (ok (some row), d') h))) in
      (found, listed, v)

  -- The last check hands the row on, and has compared the key's owner.
  check_key_owner-ok :
      (key_id : ℕ) (o : Option InviteRow) (row : InviteRow) (d d' : Db)
      → check_key_owner key_id o d ≡ (ok (some row), d')
      → (o ≡ some row)
        × (d ≡ d')
        × ((k : ApiKey)
            → 0 < key_id
            → first (λ j. j.id == key_id) d.keys ≡ some k
            → k.user_id ≡ row.id)
  unfolding check_key_owner
  check_key_owner-ok key_id none row d d' h = cc
  check_key_owner-ok key_id (some r) row d d' h =
      (ground arith, ground arith, λ k pos e. ground (arith, nat_eqb_iff k.user_id r.id))

  resolve_row-Validated :
      (user_id key_id : ℕ) (deleted allow_bind : Bool) (row : InviteRow) (d d' : Db)
      → OwnersUnique d
      → resolve_row fingerprint uuid legacy_username username user_id key_id deleted allow_bind d
        ≡ (ok (some row), d')
      → (found : InviteRow) × (0 < user_id → found.id ≡ user_id)
        × IsUserRow d.users found
        × Validated (fingerprint uuid) allow_bind found row d d'
  unfolding resolve_row
  resolve_row-Validated user_id key_id deleted allow_bind row d d' u h =
      elim (Bool-cases (ltb 0 user_id)) [
        | inl asked ↦
            let (found, same, listed, v) =
              resolve_by_id-Validated user_id deleted allow_bind row d d' (rw asked at h) in
            (found, λ p. same, listed, v)
        | inr unasked ↦ elim (Bool-cases allow_bind) [
          | inr forbidden ↦
              let (found, listed, v) =
                resolve_owned-Validated key_id deleted row d d' u (rw (unasked, forbidden) at h) in
              (
                found,
                λ p. absurd (ground arith),
                listed,
                subst (λ (b : Bool). Validated (fingerprint uuid) b found row d d') (sym forbidden)
                    v,
              )
          | inl allowed ↦
              let (found, listed, v) =
                resolve_by_name-Validated key_id deleted allow_bind row d d'
                  (rw (unasked, not_allowed allowed) at h) in
              (found, λ p. absurd (ground arith), listed, v)
        ]
      ]
    where
      not_allowed : allow_bind ≡ true → not allow_bind ≡ false
      not_allowed e = ground arith

  -- A row that `resolve_invite_user` returns belongs to a user of the table with the role `user`,
  -- whose recorded owner is the invite; it is the user that was asked for by number, if one was, and the owner of the key that was
  -- given, if there is one. No other table has changed, no owner that was recorded has changed, and
  -- where binding is not allowed nothing has. The table of owners is taken to have unique users.
  pub resolve_invite_user-Resolved :
      (user_id key_id : ℕ) (deleted allow_bind : Bool) (row : InviteRow) (d d' : Db)
      → OwnersUnique d
      → resolve_invite_user fingerprint uuid legacy_username username user_id key_id deleted
          allow_bind d
        ≡ (ok (some row), d')
      → Resolved (fingerprint uuid) user_id key_id allow_bind row d d'
  unfolding resolve_invite_user
  resolve_invite_user-Resolved user_id key_id deleted allow_bind row d d' u h =
      go (resolve_row fingerprint uuid legacy_username username user_id key_id deleted allow_bind d)
        refl h
    where
      go :
          (m : Result (Option InviteRow) × Db)
          → resolve_row fingerprint uuid legacy_username username user_id key_id deleted allow_bind
              d
            ≡ m
          → (let (r, d1) = m in elim r [ ok a ↦ check_key_owner key_id a d1 | err e ↦ (err e, d1) ])
            ≡ (ok (some row), d')
          → Resolved (fingerprint uuid) user_id key_id allow_bind row d d'
      go (err e, d1) q k = cc
      go (ok o, d1) q k =
          let (given, same_db, own) = check_key_owner-ok key_id o row d1 d' k in
          let (found, asked, listed, v) =
            resolve_row-Validated user_id key_id deleted allow_bind row d d' u
              (cc (q, given, same_db)) in
          record {
            ordinary =
                ordinary_user d.users row
                  (subst
                    (λ (t : Text).
                      exists (λ u. u.id == row.id && take 32 u.role == t) d.users ≡ true)
                    (sym v.same_role)
                    (subst
                      (λ (n : ℕ).
                        exists (λ u. u.id == n && take 32 u.role == found.role) d.users ≡ true)
                      (sym v.same_id) listed))
                  v.owned_row.ordinary;
            owned_row = v.owned_row;
            grew = v.grew;
            unbound = v.unbound;
            asked = λ p. v.same_id ∙ asked p;
            own_key =
                subst
                  (λ (x : Db).
                    (k : ApiKey)
                    → 0 < key_id
                    → first (λ j. j.id == key_id) x.keys ≡ some k
                    → k.user_id ≡ row.id)
                  same_db own;
          }
