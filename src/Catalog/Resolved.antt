-- ===== src/Catalog/Resolved.antt =====
-- What `resolve_provision_groups` resolves the groups of a request to.
use mathlib.Core.Path.{subst}
use sub2api_gate.Base.{
  ℕ, ◌≡◌, ◌≢◌, refl, ap, ◌∙◌, sym, Bool, true, false, Bool-cases, inl, inr, Option, none, some,
  List, [], ◌∷◌, arith, text_eq, text_eqb_iff, Text, member, All, ok, if◌then◌else◌,
}
use sub2api_gate.Payload.{Python, Fields}
use sub2api_gate.Group.{configured_groups, requested_groups}
use sub2api_gate.Group.Names.{IsGroup, AreGroups, requested_groups-AreGroups}
use sub2api_gate.Database.{Db, Exec, ◌>>=◌, pure}
use sub2api_gate.Database.ReadOnly.{bind_ok, lift_ok}
use sub2api_gate.Catalog.{
  active_group_id, require_known, lookup_active_group_id, ensure_group, ensure_groups, resolve_name,
  resolve_names, resolve_each, same_names, resolve_requested, resolve_provision_groups,
}
use sub2api_gate.Catalog.Lookup.{
  OnlyGroups, OnlyGroups-refl, OnlyGroups-trans, Ensured, ensure_group-Ensured, lookup_then,
}

abbrev pub named : List (Text × ℕ) → List Text
named [] = []
named ((name, id) ∷ groups) = name ∷ named groups

-- Each group is the active one of its name.
abbrev pub AreActive : Db → List (Text × ℕ) → Type 0
AreActive d groups = All (λ g. active_group_id g.0 d ≡ some g.1) groups

-- The groups have the names that were asked for, in that order, and are active; what has another name
-- is not touched.
pub record Settled (names : List Text) (groups : List (Text × ℕ)) (d d' : Db) : Type 0 where
  pub names_of : named groups ≡ names
  pub are_active : AreActive d' groups
  pub others : (n : Text) → member n names ≡ false → active_group_id n d' ≡ active_group_id n d
  pub only : OnlyGroups d d'

require_known_ok :
    (o : Option ℕ) (d : Db) (id : ℕ) (d' : Db)
    → require_known o d ≡ (ok id, d')
    → (o ≡ some id) × (d' ≡ d)
unfolding require_known
require_known_ok none d id d' h = cc
require_known_ok (some n) d id d' h = ground arith

-- One more group in front of those that are settled behind it.
Settled-cons :
    (name : Text) (id : ℕ) (names : List Text) (groups : List (Text × ℕ)) (d d1 d' : Db)
    → member name names ≡ false
    → Ensured name id d d1
    → Settled names groups d1 d'
    → Settled (name ∷ names) ((name, id) ∷ groups) d d'
Settled-cons name id names groups d d1 d' new e s = record {
  names_of = ap (◌∷◌ name) s.names_of;
  are_active = (s.others name new ∙ e.found, s.are_active);
  others = λ n h.
      let away : n ≢ name = λ same. ground (arith, text_eqb_iff n name) in
      s.others n (ground arith) ∙ e.others n away;
  only = OnlyGroups-trans d d1 d' e.only s.only;
}

module _ (py : Python) where
  resolve_name-Ensured :
      (configured : List Text) (name : Text) (d : Db) (id : ℕ) (d' : Db)
      → IsGroup name
      → resolve_name py configured name d ≡ (ok id, d')
      → Ensured name id d d'
  unfolding resolve_name
  resolve_name-Ensured configured name d id d' g h = elim (Bool-cases (member name configured)) [
    | inl known ↦ ensure_group-Ensured py name d id d' g (sym (at_choice true known) ∙ h)
    | inr other ↦
        let (found, same) =
          require_known_ok (active_group_id name d) d id d'
            (sym (lookup_then py name require_known d g) ∙ (sym (at_choice false other) ∙ h)) in
        subst (Ensured name id d) (sym same)
          (record { found = found; others = λ n ne. refl; only = OnlyGroups-refl d })
  ]
    where
      at_choice :
          (b : Bool)
          → member name configured ≡ b
          → (if member name configured
                then ensure_group py name
                else (lookup_active_group_id py name >>= require_known))
              d
            ≡ (if b
                  then ensure_group py name
                  else (lookup_active_group_id py name >>= require_known))
                d
      at_choice b e =
          ap
            (λ (x : Bool).
              (if x
                  then ensure_group py name
                  else (lookup_active_group_id py name >>= require_known))
                d)
            e

module _ (resolve : Text → Exec ℕ) where
  resolve_each-Settled :
      (ensured : (name : Text) (d : Db) (id : ℕ) (d' : Db)
        → IsGroup name
        → resolve name d ≡ (ok id, d')
        → Ensured name id d d')
      (names : List Text) (d : Db) (groups : List (Text × ℕ)) (d' : Db)
      → AreGroups names
      → resolve_each resolve names d ≡ (ok groups, d')
      → Settled names groups d d'
  unfolding resolve_each
  resolve_each-Settled ensured [] d groups d' g h =
      let nothing : groups ≡ [] = cc in
      let same : d' ≡ d = cc in
      subst (λ (x : List (Text × ℕ)). Settled [] x d d') (sym nothing)
        (subst (Settled [] [] d) (sym same) (record {
          names_of = refl;
          are_active = tt;
          others = λ n o. refl;
          only = OnlyGroups-refl d;
        }))
  resolve_each-Settled ensured (name ∷ names) d groups d' g h =
      let (id, d1, h1, h2) = bind_ok (resolve name) (behind name names) d groups d' h in
      let (others, d2, h3, h4) =
        bind_ok (resolve_each resolve names) (pair name id) d1 groups d' h2 in
      let e = ensured name d id d1 g.1.0 h1 in
      let s = resolve_each-Settled ensured names d1 others d2 (g.0.1, g.1.1) h3 in
      let all : groups ≡ (name, id) ∷ others = cc in
      let same : d' ≡ d2 = cc in
      subst (λ (x : List (Text × ℕ)). Settled (name ∷ names) x d d') (sym all)
        (subst (Settled (name ∷ names) ((name, id) ∷ others) d) (sym same)
          (Settled-cons name id names others d d1 d2 g.0.0 e s))
    where
      pair : Text → ℕ → List (Text × ℕ) → Exec (List (Text × ℕ))
      pair name id others = pure ((name, id) ∷ others)

      behind : Text → List Text → ℕ → Exec (List (Text × ℕ))
      behind name names id = resolve_each resolve names >>= pair name id

same_names_equal : (s t : List Text) → same_names s t ≡ true → s ≡ t
same_names_equal [] [] h = refl
same_names_equal [] (b ∷ t) h = cc
same_names_equal (a ∷ s) [] h = cc
same_names_equal (a ∷ s) (b ∷ t) h = ground (arith, text_eqb_iff a b, same_names_equal s t)

module _ (py : Python) where
  resolve_requested-Settled :
      (configured requested : List Text) (d : Db) (groups : List (Text × ℕ)) (d' : Db)
      → AreGroups requested
      → resolve_requested py configured requested d ≡ (ok groups, d')
      → Settled requested groups d d'
  unfolding resolve_requested ensure_groups resolve_names
  resolve_requested-Settled configured requested d groups d' g h =
      elim (Bool-cases (same_names requested configured)) [
        | inl same ↦
            resolve_each-Settled (ensure_group py) (ensure_group-Ensured py) requested d groups d' g
              (rw (same_names_equal requested configured same) (rw same at h))
        | inr other ↦
            resolve_each-Settled (resolve_name py configured) (resolve_name-Ensured py configured)
              requested d groups d' g (rw other at h)
      ]

  -- When the groups of a request are resolved, they are those that it asks for, each once and in that
  -- order, or else the configured ones; each is given the identifier that its name has among the
  -- active groups afterwards. A group of another name keeps its own, and no other table is changed.
  pub resolve_provision_groups-Settled :
      (raw : Text) (payload : Fields) (d : Db) (groups : List (Text × ℕ)) (d' : Db)
      → resolve_provision_groups py raw payload d ≡ (ok groups, d')
      → (names : List Text) × (requested_groups py raw payload ≡ ok names)
        × AreGroups names
        × Settled names groups d d'
  unfolding resolve_provision_groups
  resolve_provision_groups-Settled raw payload d groups d' h =
      let (names, e, h1) =
        lift_ok (requested_groups py raw payload) (resolve_requested py (configured_groups raw)) d
          groups d' h in
      let valid = (requested_groups-AreGroups py raw payload names e).0 in
      (
        names,
        e,
        valid,
        resolve_requested-Settled (configured_groups raw) names d groups d' valid h1,
      )
