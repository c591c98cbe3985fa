-- ===== src/Group/Names.antt =====
-- Every list of group names that the service works with is not empty, has no name twice, and holds
-- valid names only.
use mathlib.Core.Path.{subst}
use sub2api_gate.Base.{
  ◌≤◌, ◌≡◌, refl, sym, if◌then◌else◌, text_eqb, err, true, false, List, [], ◌∷◌, ◌++◌, ◌⊎◌, inl,
  inr, map, arith, ℕ, every, every_mono, is_visible, is_visible_ascii, strip_visible, Text, codes,
  text_eq, All, Distinct, Distinct-snoc, member, length, is_empty, to_lower, strip, split, Result,
  ok, take, >>=-eq-ok, Bool-cases,
}
use sub2api_gate.Payload.{Python, Value, Fields, str, str_of, text_of, get}
use sub2api_gate.Group.{
  is_name_char, is_group_name, forbidden_group_names, validate_name, validate_group_name,
  configured_step, configured_loop, configured_groups, or_default, add_group, requested_loop,
  requested_groups, max_group_catalog, allowed_names, token_group_names, list_items,
}

-- A name that matches the pattern and is not `default` in any spelling.
abbrev pub IsGroup : Text → Type 0
IsGroup g = (is_group_name g ≡ true) × (member (map to_lower g) forbidden_group_names ≡ false)

abbrev pub AreGroups : List Text → Type 0
AreGroups gs = Distinct gs × All IsGroup gs

pub validate_name-IsGroup : (name group : Text) → validate_name name ≡ ok group → IsGroup group
unfolding validate_name
validate_name-IsGroup name group h = ground arith

group_char_visible : (c : ℕ) → is_name_char c ≡ true → is_visible c ≡ true
group_char_visible c h = is_visible_ascii c (ground arith) (ground arith)

group_name_visible : (g : Text) → is_group_name g ≡ true → every is_visible g ≡ true
unfolding is_group_name
group_name_visible [] h = cc
group_name_visible (c ∷ t) h =
    let head : is_visible c ≡ true = group_char_visible c (ground arith) in
    let tail : every is_name_char t ≡ true = ground arith in
    ground (arith, head, every_mono is_name_char is_visible t group_char_visible tail)

-- A valid name is the one that it is validated to.
pub validate_group_name-IsGroup :
    (py : Python) (g : Text) → IsGroup g → validate_group_name py (str g) ≡ ok g
unfolding validate_group_name validate_name text_of str_of is_group_name
validate_group_name-IsGroup py [] h = cc
validate_group_name-IsGroup py (c ∷ t) h =
    rw (strip_visible (c ∷ t) (group_name_visible (c ∷ t) h.0)) (rw (h.0, h.1) refl)

All-snoc : (gs : List Text) (g : Text) → All IsGroup gs → IsGroup g → All IsGroup (gs ++ g ∷ [])
All-snoc [] g h p = (p, tt)
All-snoc (x ∷ gs) g h p = (h.0, All-snoc gs g h.1 p)

AreGroups-snoc :
    (gs : List Text) (g : Text)
    → AreGroups gs
    → IsGroup g
    → member g gs ≡ false
    → AreGroups (gs ++ g ∷ [])
AreGroups-snoc gs g h p new = (Distinct-snoc gs g h.0 new, All-snoc gs g h.1 p)

configured_step-AreGroups :
    (gs : List Text) (part : Text) → AreGroups gs → AreGroups (configured_step gs part)
unfolding configured_step
configured_step-AreGroups gs part h = go (validate_name (strip (take 100 (strip part)))) refl
  where
    go :
        (r : Result Text)
        → validate_name (strip (take 100 (strip part))) ≡ r
        → AreGroups
            (elim r [ err e ↦ gs | ok group ↦ if member group gs then gs else gs ++ group ∷ [] ])
    go (err e) q = h
    go (ok g) q = elim (Bool-cases (member g gs)) [
      | inl old ↦ rw old h
      | inr new ↦
          rw new
            (AreGroups-snoc gs g h (validate_name-IsGroup (strip (take 100 (strip part))) g q) new)
    ]

configured_loop-AreGroups :
    (gs parts : List Text) → AreGroups gs → AreGroups (configured_loop gs parts)
unfolding configured_loop
configured_loop-AreGroups gs [] h = h
configured_loop-AreGroups gs (part ∷ parts) h =
    configured_loop-AreGroups (configured_step gs part) parts (configured_step-AreGroups gs part h)

or_default-AreGroups :
    (gs : List Text) → AreGroups gs → AreGroups (or_default gs) × (is_empty (or_default gs) ≡ false)
unfolding is_group_name text_eqb
or_default-AreGroups [] h = ((((refl, tt)), (((refl, refl), tt))), refl)
or_default-AreGroups (g ∷ gs) h = (h, refl)

-- Whatever the setting is, the configured groups are valid names, each once, and there is one.
pub configured_groups-AreGroups :
    (raw : Text) → AreGroups (configured_groups raw) × (is_empty (configured_groups raw) ≡ false)
unfolding configured_groups
configured_groups-AreGroups raw =
    or_default-AreGroups _ (configured_loop-AreGroups [] (split b',' raw) (tt, tt))

add_group-AreGroups :
    (gs : List Text) (g : Text) (gs' : List Text)
    → AreGroups gs × (length gs ≤ max_group_catalog)
    → IsGroup g
    → add_group gs g ≡ ok gs'
    → AreGroups gs' × (length gs' ≤ max_group_catalog)
unfolding add_group
add_group-AreGroups gs g gs' h p e = elim (Bool-cases (member g gs)) [
  | inl old ↦
      let same : gs ≡ gs' = ground arith in
      subst (λ (x : List Text). AreGroups x × (length x ≤ max_group_catalog)) same h
  | inr new ↦
      let same : gs ++ g ∷ [] ≡ gs' = ground arith in
      let short : length (gs ++ g ∷ []) ≤ max_group_catalog = ground arith in
      subst (λ (x : List Text). AreGroups x × (length x ≤ max_group_catalog)) same
        (AreGroups-snoc gs g h.0 p new, short)
]

module _ (py : Python) where
  requested_loop-AreGroups :
      (gs : List Text) (vs : List Value) (gs' : List Text)
      → AreGroups gs × (length gs ≤ max_group_catalog)
      → requested_loop py gs vs ≡ ok gs'
      → AreGroups gs' × (length gs' ≤ max_group_catalog)
  unfolding requested_loop validate_group_name
  requested_loop-AreGroups gs [] gs' h e = ground arith
  requested_loop-AreGroups gs (v ∷ vs) gs' h e =
      let (g, e1, h1) = >>=-eq-ok (validate_group_name py v) _ e in
      let (seen, e2, h2) = >>=-eq-ok (add_group gs g) _ h1 in
      requested_loop-AreGroups seen vs gs'
        (add_group-AreGroups gs g seen h (validate_name-IsGroup (strip (text_of py v)) g e1) e2) h2

  -- The groups that a request is given are valid names, each once, and there is one; they are the
  -- configured ones, or 32 at most.
  pub requested_groups-AreGroups :
      (raw : Text) (payload : Fields) (gs : List Text)
      → requested_groups py raw payload ≡ ok gs
      → AreGroups gs
        × (is_empty gs ≡ false)
        × ((gs ≡ configured_groups raw) ⊎ (length gs ≤ max_group_catalog))
  unfolding requested_groups
  requested_groups-AreGroups raw payload gs e =
      let (names, e1, h1) = >>=-eq-ok (allowed_names payload) _ e in
      let (seen, e2, h2) = >>=-eq-ok (requested_loop py [] (all_names names)) _ h1 in
      let valid = requested_loop-AreGroups [] (all_names names) seen ((tt, tt), omega arith) e2 in
      elim (Bool-cases (is_empty seen)) [
        | inl none_given ↦
            let same : configured_groups raw ≡ gs = ground arith in
            let (named, some_name) = configured_groups-AreGroups raw in
            (subst AreGroups same named, cc (same, some_name), inl (sym same))
        | inr given ↦
            let same : seen ≡ gs = ground arith in
            (subst AreGroups same valid.0, cc (same, given), inr (rw (← same) valid.1))
      ]
    where
      all_names : List Value → List Value
      all_names names = names ++ token_group_names (list_items (get (codes "tokens") payload))
