-- ===== src/Invite/Owned.antt =====
-- A user that an invite resolves to is the invite's own: an ordinary user whose recorded owner is the
-- invite's fingerprint. Ownership is recorded once and never overwritten.
use mathlib.Core.Path.{subst}
use sub2api_gate.Base.{
  ℕ, ◌≡◌, refl, sym, ap, Bool, true, false, Option, none, some, List, [], ◌∷◌, ◌++◌, arith, Text,
  codes, ◌==◌, nat_eq, text_eq, text_eqb_iff, Distinct, member, is_empty, take, ok, Bool-cases, inl,
  inr, if◌then◌else◌,
}
use sub2api_gate.Database.{Owner, Db}
use sub2api_gate.Invite.{
  InviteRow, owner_of, insert_owner, confirm_owner, insert_new_owner, bind_or_validate_row,
}

abbrev pub owner_ids : List Owner → List ℕ
owner_ids [] = []
owner_ids (o ∷ os) = o.user_id ∷ owner_ids os

-- The primary key of the table of owners.
abbrev pub OwnersUnique : Db → Type 0
OwnersUnique d = Distinct (owner_ids d.owners)

-- The fingerprint in a row is the one that the database has for its user.
abbrev pub IsRowOf : List Owner → InviteRow → Type 0
IsRowOf owners row =
    is_empty row.invite_fingerprint ≡ false → owner_of row.id owners ≡ some row.invite_fingerprint

-- The database has changed in its owners only, and every owner that it had is there.
pub record OwnersGrew (d d' : Db) : Type 0 where
  pub rest : d' ≡ record d { owners = d'.owners }
  pub kept : (id : ℕ) (t : Text) → owner_of id d.owners ≡ some t → owner_of id d'.owners ≡ some t

OwnersGrew-refl : (d : Db) → OwnersGrew d d
OwnersGrew-refl d = record { rest = refl; kept = λ id t h. h }

owner_of-snoc :
    (id : ℕ) (os : List Owner) (o : Owner)
    → owner_of id (os ++ o ∷ []) ≡ elim (owner_of id os) [
      | some t ↦ some t
      | none ↦ if o.user_id == id then some o.invite_fingerprint else none
    ]
unfolding owner_of
owner_of-snoc id [] o = refl
owner_of-snoc id (x ∷ os) o = ground (arith, owner_of-snoc id os o)

insert_new_owner-OwnersGrew :
    (o : Option Text) (id : ℕ) (t : Text) (d : Db) → OwnersGrew d (insert_new_owner o id t d)
insert_new_owner-OwnersGrew (some u) id t d = OwnersGrew-refl d
insert_new_owner-OwnersGrew none id t d = record {
  rest = refl;
  kept = λ j u h.
      rw (owner_of-snoc j d.owners (record { user_id = id; invite_fingerprint = take 64 t }))
        (rw h);
}

-- What a validation that returns a row has established.
pub record IsOwnedRow (fp : Text) (row : InviteRow) (d : Db) : Type 0 where
  pub ordinary : row.role ≡ codes "user"
  pub owned : owner_of row.id d.owners ≡ some fp

pub record Validated (fp : Text) (allow_bind : Bool) (row row' : InviteRow) (d d' : Db)
    : Type 0 where
  pub owned_row : IsOwnedRow fp row' d'
  pub same_id : row'.id ≡ row.id
  pub same_role : row'.role ≡ row.role
  pub grew : OwnersGrew d d'
  pub unbound : allow_bind ≡ false → d' ≡ d

confirm_owner-ok :
    (row row' : InviteRow) (expected : Text) (o : Option Text) (d d' : Db)
    → confirm_owner row expected o d ≡ (ok (some row'), d')
    → (o ≡ some expected) × (record row { invite_fingerprint = expected } ≡ row') × (d ≡ d')
unfolding confirm_owner
confirm_owner-ok row row' expected none d d' h = cc
confirm_owner-ok row row' expected (some t) d d' h = ground (arith, text_eqb_iff t expected)

module _ (fingerprint : Text → Text) (uuid : Text) (expected : List Text) (allow_bind : Bool) where
  bound-Validated :
      (row row' : InviteRow) (d d' : Db)
      → row.role ≡ codes "user"
      → allow_bind ≡ true
      → confirm_owner row
          (fingerprint uuid)
          (owner_of row.id (insert_owner row.id (fingerprint uuid) d).owners)
          (insert_owner row.id (fingerprint uuid) d)
        ≡ (ok (some row'), d')
      → Validated (fingerprint uuid) allow_bind row row' d d'
  unfolding insert_owner
  bound-Validated row row' d d' role allowed h =
      let (owner, same_row, same_db) =
        confirm_owner-ok row row' (fingerprint uuid)
          (owner_of row.id (insert_owner row.id (fingerprint uuid) d).owners)
          (insert_owner row.id (fingerprint uuid) d) d' h in
      record {
        owned_row = record {
          ordinary = cc (same_row, role);
          owned =
              cc (owner, ap (λ (r : InviteRow). r.id) same_row, ap (λ (x : Db). x.owners) same_db);
        };
        same_id = sym (ap (λ (r : InviteRow). r.id) same_row);
        same_role = sym (ap (λ (r : InviteRow). r.role) same_row);
        grew =
            subst (OwnersGrew d) same_db
              (insert_new_owner-OwnersGrew (owner_of row.id d.owners) row.id (fingerprint uuid) d);
        unbound = λ e. cc;
      }

  -- The row's owner is recorded already, and is the invite.
  stored-Validated :
      (row row' : InviteRow) (d d' : Db)
      → row.role ≡ codes "user"
      → owner_of row.id d.owners ≡ some row.invite_fingerprint
      → row.invite_fingerprint ≡ fingerprint uuid
      → row ≡ row'
      → d ≡ d'
      → Validated (fingerprint uuid) allow_bind row row' d d'
  stored-Validated row row' d d' role owner same same_row same_db =
      subst (λ (r : InviteRow). Validated (fingerprint uuid) allow_bind row r d d') same_row
        (subst (λ (x : Db). Validated (fingerprint uuid) allow_bind row row d x) same_db
          (record {
            owned_row = record { ordinary = role; owned = cc (owner, same) };
            same_id = refl;
            same_role = refl;
            grew = OwnersGrew-refl d;
            unbound = λ e. refl;
          }))

  pub bind_or_validate_row-Validated :
      (row row' : InviteRow) (d d' : Db)
      → IsRowOf d.owners row
      → bind_or_validate_row fingerprint row uuid expected allow_bind d ≡ (ok (some row'), d')
      → Validated (fingerprint uuid) allow_bind row row' d d'
  unfolding bind_or_validate_row
  bind_or_validate_row-Validated row row' d d' of_db h =
      elim (Bool-cases (row.role == codes "user")) [
        | inr other ↦ absurd (ground arith)
        | inl user ↦
            let role : row.role ≡ codes "user" = (text_eqb_iff row.role (codes "user")).0 user in
            elim (Bool-cases (is_empty row.invite_fingerprint)) [
              | inr stored ↦ elim (Bool-cases (row.invite_fingerprint == fingerprint uuid)) [
                | inr foreign ↦ absurd (ground arith)
                | inl same ↦
                    stored-Validated row row' d d' role (of_db stored)
                      ((text_eqb_iff row.invite_fingerprint (fingerprint uuid)).0 same)
                      (ground arith) (ground arith)
              ]
              | inl unowned ↦ elim (Bool-cases allow_bind) [
                | inr forbidden ↦ absurd (ground arith)
                | inl allowed ↦ elim (Bool-cases (member row.username expected)) [
                  | inr stranger ↦ absurd (ground arith)
                  | inl named ↦
                      bound-Validated row row' d d' role allowed
                        (rw (user, unowned, allowed, named) at h)
                ]
              ]
            ]
      ]
