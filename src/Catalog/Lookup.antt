-- ===== src/Catalog/Lookup.antt =====
-- What `ensure_group` establishes, and that it touches no group of another name.
use mathlib.Core.Path.{subst}
use sub2api_gate.Base.{
  ℕ, ◌≡◌, ◌≢◌, refl, ap, ◌∙◌, sym, true, false, Bool-cases, inl, inr, Option, none, some, arith,
  nat_eq, text_eq, Text, exists, text_eqb_iff, ok,
}
use sub2api_gate.Payload.{Python, str}
use sub2api_gate.Group.{group_profile}
use sub2api_gate.Group.Names.{IsGroup, validate_group_name-IsGroup}
use sub2api_gate.Database.{Db, GroupRow, Exec, ◌>>=◌}
use sub2api_gate.Database.ReadOnly.{bind_at}
use sub2api_gate.Database.Tables.{first-update_where, first-snoc}
use sub2api_gate.Catalog.{
  is_named, is_active_named, insert_group, update_group, refresh_group, group_number,
  active_group_id, require_group, lookup_active_group_id, ensure_group,
}

-- The database has changed in its groups only.
pub record OnlyGroups (d d' : Db) : Type 0 where
  pub rest : d' ≡ record d { groups = d'.groups; next_group = d'.next_group }

pub OnlyGroups-trans : (d e f : Db) → OnlyGroups d e → OnlyGroups e f → OnlyGroups d f
OnlyGroups-trans d e f h k = record { rest = ground (arith, h.rest, k.rest) }

pub OnlyGroups-refl : (d : Db) → OnlyGroups d d
OnlyGroups-refl d = record { rest = refl }

other_name :
    (n name : Text) (g : GroupRow) → n ≢ name → is_named name g ≡ true → is_active_named n g ≡ false
other_name n name g ne h = ground (arith, text_eqb_iff g.name name, text_eqb_iff g.name n)

insert_group_other :
    (n name platform description : Text) (d : Db)
    → n ≢ name
    → active_group_id n (insert_group name platform description d) ≡ active_group_id n d
unfolding insert_group active_group_id
insert_group_other n name platform description d ne =
    elim (Bool-cases (exists (is_named name) d.groups)) [
      | inl there ↦ rw there refl
      | inr new ↦ rw new (
          ap group_number
            (first-snoc (is_active_named n) d.groups _ (ground (arith, text_eqb_iff name n))))
    ]

update_group_other :
    (n name description : Text) (d : Db)
    → n ≢ name
    → active_group_id n (update_group name description d) ≡ active_group_id n d
unfolding update_group active_group_id
update_group_other n name description d ne = ap group_number (
    first-update_where (is_active_named n) (is_named name) (refresh_group description) d.groups
      (λ g h. (other_name n name g ne h, other_name n name (refresh_group description g) ne h)))

pub record Ensured (name : Text) (id : ℕ) (d d' : Db) : Type 0 where
  pub found : active_group_id name d' ≡ some id
  pub others : (n : Text) → n ≢ name → active_group_id n d' ≡ active_group_id n d
  pub only : OnlyGroups d d'

require_group_ok :
    (o : Option ℕ) (d : Db) (id : ℕ) (d' : Db)
    → require_group o d ≡ (ok id, d')
    → (o ≡ some id) × (d' ≡ d)
unfolding require_group
require_group_ok none d id d' h = cc
require_group_ok (some n) d id d' h = ground arith

ensured_db : Text → Text × Text → Db → Db
ensured_db name (platform, description) d =
    update_group name description (insert_group name platform description d)

ensured_db-OnlyGroups :
    (name platform description : Text) (d : Db)
    → OnlyGroups d (ensured_db name (platform, description) d)
unfolding ensured_db insert_group update_group
ensured_db-OnlyGroups name platform description d =
    elim (Bool-cases (exists (is_named name) d.groups)) [
      | inl there ↦ rw there (record { rest = refl })
      | inr new ↦ rw new (record { rest = refl })
    ]

module _ (py : Python) where
  pub lookup_active_group_id_at :
      (name : Text) (d : Db)
      → IsGroup name
      → lookup_active_group_id py name d ≡ (ok (active_group_id name d), d)
  unfolding lookup_active_group_id
  lookup_active_group_id_at name d g = rw (validate_group_name-IsGroup py name g, ◌>>=◌) refl

  pub lookup_then :
      {A : Type 0} (name : Text) (f : Option ℕ → Exec A) (d : Db)
      → IsGroup name
      → (lookup_active_group_id py name >>= f) d ≡ f (active_group_id name d) d
  lookup_then name f d g =
      bind_at (lookup_active_group_id py name) f d (active_group_id name d) d
        (lookup_active_group_id_at name d g)

  ensure_group_at :
      (name : Text) (d : Db)
      → IsGroup name
      → ensure_group py name d
        ≡ require_group
            (active_group_id name (ensured_db name (group_profile py (str name)) d))
            (ensured_db name (group_profile py (str name)) d)
  unfolding ensure_group ensured_db
  ensure_group_at name d g =
      rw (validate_group_name-IsGroup py name g, ◌>>=◌)
        (lookup_then name require_group (ensured_db name (group_profile py (str name)) d) g)

  pub ensure_group-Ensured :
      (name : Text) (d : Db) (id : ℕ) (d' : Db)
      → IsGroup name
      → ensure_group py name d ≡ (ok id, d')
      → Ensured name id d d'
  unfolding ensured_db
  ensure_group-Ensured name d id d' g h =
      let (platform, description) = group_profile py (str name) in
      let new = ensured_db name (platform, description) d in
      let (found, same) =
        require_group_ok (active_group_id name new) new id d'
          (sym (ensure_group_at name d g) ∙ h) in
      record {
        found = cc (found, same);
        others = λ n ne.
            ap (active_group_id n) same
            ∙ update_group_other n name description (insert_group name platform description d) ne
            ∙ insert_group_other n name platform description d ne;
        only = subst (OnlyGroups d) (sym same) (ensured_db-OnlyGroups name platform description d);
      }
