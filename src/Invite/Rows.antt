-- ===== src/Invite/Rows.antt =====
-- What the rows of the queries show of the database: a user of the table, and its recorded owner.
use mathlib.Core.Path.{subst}
use sub2api_gate.Base.{
  exists, codes, text_eqb_iff, ℕ, ◌≡◌, refl, ap, ◌∙◌, Bool, true, not, ◌&&◌, ◌||◌, Option, none,
  some, List, [], ◌∷◌, arith, Text, ◌==◌, nat_eq, text_eq, nat_eqb_iff, Distinct, member, take,
  Bool-cases, Option-cases, inl, inr,
}
use sub2api_gate.Database.{User, Owner, Db, first}
use sub2api_gate.Database.Tables.{first-holds}
use sub2api_gate.Invite.{InviteRow, owner_of, row_of, joined, text_or_empty, owned_rows}
use sub2api_gate.Invite.Owned.{owner_ids, OwnersUnique, IsRowOf}

row_of-IsRowOf :
    (owners : List Owner) (u : User) (t : Option Text)
    → owner_of u.id owners ≡ t
    → IsRowOf owners (row_of u (text_or_empty t))
unfolding row_of
row_of-IsRowOf owners u none e h = cc
row_of-IsRowOf owners u (some t) e h = e

-- The row shows a user of the table.
abbrev pub IsUserRow : List User → InviteRow → Type 0
IsUserRow users row = exists (λ u. u.id == row.id && take 32 u.role == row.role) users ≡ true

-- A row that a query may give: one of the users, with the fingerprint that the database has for it.
pub record IsFound (d : Db) (row : InviteRow) : Type 0 where
  pub of_owners : IsRowOf d.owners row
  pub of_users : IsUserRow d.users row

abbrev pub AreRows : Db → Option InviteRow → Type 0
AreRows d o = (row : InviteRow) → o ≡ some row → IsFound d row

row_of-IsUserRow :
    (p : User → Bool) (users : List User) (u : User) (t : Text)
    → first p users ≡ some u
    → IsUserRow users (row_of u t)
unfolding row_of first
row_of-IsUserRow p [] u t h = cc
row_of-IsUserRow p (v ∷ users) u t h = elim (Bool-cases (p v)) [
  | inr miss ↦ ground (arith, row_of-IsUserRow p users u t (rw miss at h))
  | inl hit ↦
      let same : v ≡ u = cc (rw hit at h) in
      ground (
        arith,
        (nat_eqb_iff v.id u.id).1 (ap (λ (w : User). w.id) same),
        (text_eqb_iff (take 32 v.role) (take 32 u.role)).1 (ap (λ (w : User). take 32 w.role) same),
      )
]

pub joined-AreRows :
    (d : Db) (p : User → Bool) (o : Option User)
    → first p d.users ≡ o
    → AreRows d (joined d.owners o)
joined-AreRows d p none e row h = cc
joined-AreRows d p (some u) e row h = subst (IsFound d) (some_inj h) (record {
  of_owners = row_of-IsRowOf d.owners u (owner_of u.id d.owners) refl;
  of_users = row_of-IsUserRow p d.users u _ e;
})
  where
    some_inj : {a b : InviteRow} → some a ≡ some b → a ≡ b
    some_inj e = cc

owner_of-member :
    (id : ℕ) (os : List Owner) (t : Text)
    → owner_of id os ≡ some t
    → member id (owner_ids os) ≡ true
unfolding owner_of
owner_of-member id [] t h = cc
owner_of-member id (o ∷ os) t h = ground (arith, owner_of-member id os t)

-- The user that a row of the owners belongs to has that owner, since no user has two.
owner_of-tail :
    (o : Owner) (os : List Owner) (id : ℕ) (t : Text)
    → Distinct (owner_ids (o ∷ os))
    → owner_of id os ≡ some t
    → owner_of id (o ∷ os) ≡ some t
unfolding owner_of
owner_of-tail o os id t u h = elim (Bool-cases (o.user_id == id)) [
  | inr differs ↦ rw differs h
  | inl same ↦
      let e : o.user_id ≡ id = (nat_eqb_iff o.user_id id).0 same in
      absurd (cc (e, u.0, owner_of-member id os t h))
]

head_owner :
    (o : Owner) (os : List Owner) (v : User)
    → v.id ≡ o.user_id
    → owner_of v.id (o ∷ os) ≡ some o.invite_fingerprint
unfolding owner_of
head_owner o os v h = ground arith

owned_rows-owner :
    (fp : Text) (deleted : Bool) (users : List User) (os : List Owner) (row : InviteRow)
    → Distinct (owner_ids os)
    → owned_rows fp deleted users os ≡ some row
    → owner_of row.id os ≡ some row.invite_fingerprint
unfolding owned_rows row_of
owned_rows-owner fp deleted users [] row u h = cc
owned_rows-owner fp deleted users (o ∷ os) row u h =
    elim (Bool-cases (o.invite_fingerprint == fp)) [
      | inr other ↦
          owner_of-tail o os row.id _ u
            (owned_rows-owner fp deleted users os row u.1 (rw other at h))
      | inl same ↦
          elim (Option-cases (first (λ v. v.id == o.user_id && (deleted || not v.deleted)) users)) [
            | inl gone ↦
                owner_of-tail o os row.id _ u
                  (owned_rows-owner fp deleted users os row u.1 (rw (same, gone) at h))
            | inr (v, e) ↦
                let hit =
                  first-holds (λ (w : User). w.id == o.user_id && (deleted || not w.deleted)) users
                    v e in
                let made : row_of v o.invite_fingerprint ≡ row = cc (rw (same, e) at h) in
                subst (λ (r : InviteRow). owner_of r.id (o ∷ os) ≡ some r.invite_fingerprint) made
                  (head_owner o os v (ground (arith, hit)))
          ]
    ]

owned_rows-IsUserRow :
    (fp : Text) (deleted : Bool) (users : List User) (os : List Owner) (row : InviteRow)
    → owned_rows fp deleted users os ≡ some row
    → IsUserRow users row
unfolding owned_rows
owned_rows-IsUserRow fp deleted users [] row h = cc
owned_rows-IsUserRow fp deleted users (o ∷ os) row h =
    elim (Bool-cases (o.invite_fingerprint == fp)) [
      | inr foreign ↦ owned_rows-IsUserRow fp deleted users os row (rw foreign at h)
      | inl same ↦
          elim (Option-cases (first (λ v. v.id == o.user_id && (deleted || not v.deleted)) users)) [
            | inl gone ↦ owned_rows-IsUserRow fp deleted users os row (rw (same, gone) at h)
            | inr (v, e) ↦
                let made : row_of v o.invite_fingerprint ≡ row = cc (rw (same, e) at h) in
                subst (IsUserRow users) made (
                  row_of-IsUserRow (λ (w : User). w.id == o.user_id && (deleted || not w.deleted))
                    users v o.invite_fingerprint e)
          ]
    ]

pub owned_rows-AreRows :
    (fp : Text) (deleted : Bool) (d : Db)
    → OwnersUnique d
    → AreRows d (owned_rows fp deleted d.users d.owners)
owned_rows-AreRows fp deleted d u row h = record {
  of_owners = λ filled. owned_rows-owner fp deleted d.users d.owners row u h;
  of_users = owned_rows-IsUserRow fp deleted d.users d.owners row h;
}

cut_role : (t : Text) → take 32 t ≡ codes "user" → t ≡ codes "user"
cut_role [] h = cc
cut_role (a ∷ []) h = h
cut_role (a ∷ b ∷ []) h = h
cut_role (a ∷ b ∷ c ∷ []) h = h
cut_role (a ∷ b ∷ c ∷ e ∷ []) h = h
cut_role (a ∷ b ∷ c ∷ e ∷ f ∷ t) h = cc

-- A row of an ordinary user shows one of the table.
pub ordinary_user :
    (users : List User) (row : InviteRow)
    → IsUserRow users row
    → row.role ≡ codes "user"
    → exists (λ u. u.id == row.id && u.role == codes "user") users ≡ true
ordinary_user [] row h role = cc
ordinary_user (u ∷ users) row h role =
    elim (Bool-cases (u.id == row.id && take 32 u.role == row.role)) [
      | inr miss ↦ ground (arith, ordinary_user users row (rw miss at h) role)
      | inl hit ↦
          let cut : take 32 u.role ≡ row.role =
            (text_eqb_iff (take 32 u.role) row.role).0 (ground arith) in
          ground (arith, hit, (text_eqb_iff u.role (codes "user")).1 (cut_role u.role (cut ∙ role)))
    ]
