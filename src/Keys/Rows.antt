-- ===== src/Keys/Rows.antt =====
-- Rows told apart by their identifiers.
use sub2api_gate.Base.{
  ℕ, ◌+◌, ◌≡◌, refl, ap, Bool, true, false, Bool-cases, inl, inr, none, some, List, [], ◌∷◌, ◌++◌,
  arith, keep, exists, nat_eq, nat_eqb_iff, ◌==◌, ltb, member, Distinct, Distinct-snoc, All,
  All-append,
}
use sub2api_gate.Database.{ApiKey, first, update_where}

abbrev pub ids_of : List ApiKey → List ℕ
ids_of [] = []
ids_of (k ∷ ks) = k.id ∷ ids_of ks

-- No two rows have the same identifier, and the next one is unused.
pub record IsKeyed (next : ℕ) (ks : List ApiKey) : Type 0 where
  pub distinct : Distinct (ids_of ks)
  pub bounded : All (λ (k : ApiKey). ltb k.id next ≡ true) ks

-- A row that stands nowhere in the list has another identifier than each row that does.
absent :
    (id : ℕ) (ks : List ApiKey)
    → member id (ids_of ks) ≡ false
    → All (λ (k : ApiKey). (k.id == id) ≡ false) ks
absent id [] h = tt
absent id (k ∷ ks) h = (ground (arith, nat_eqb_iff k.id id), absent id ks (ground arith))

pub first-member :
    (p : ApiKey → Bool) (ks : List ApiKey) (r : ApiKey)
    → first p ks ≡ some r
    → member r.id (ids_of ks) ≡ true
unfolding first
first-member p [] r h = cc
first-member p (k ∷ ks) r h = elim (Bool-cases (p k)) [
  | inl hit ↦ let same : k ≡ r = ground arith in rw (← same) (ground arith)
  | inr miss ↦ ground (arith, first-member p ks r (rw miss at h))
]

pub All-mono :
    (P Q : ApiKey → Type 0) (ks : List ApiKey) → ((k : ApiKey) → P k → Q k) → All P ks → All Q ks
All-mono P Q [] f h = tt
All-mono P Q (k ∷ ks) f h = (f k h.0, All-mono P Q ks f h.1)

pub All-both :
    (P B Q : ApiKey → Type 0) (ks : List ApiKey)
    → ((k : ApiKey) → P k → B k → Q k)
    → All P ks
    → All B ks
    → All Q ks
All-both P B Q [] f h b = tt
All-both P B Q (k ∷ ks) f h b = (f k h.0 b.0, All-both P B Q ks f h.1 b.1)

-- The row that a query finds is the only one with its identifier.
pub first_only :
    (p : ApiKey → Bool) (ks : List ApiKey) (r : ApiKey)
    → Distinct (ids_of ks)
    → first p ks ≡ some r
    → All (λ (k : ApiKey). (k.id == r.id) ≡ true → k ≡ r) ks
unfolding first
first_only p [] r h e = tt
first_only p (k ∷ ks) r h e = elim (Bool-cases (p k)) [
  | inl hit ↦
      let same : k ≡ r = ground arith in
      (
        (λ _. same),
        All-mono (λ (x : ApiKey). (x.id == k.id) ≡ false)
            (λ (x : ApiKey). (x.id == r.id) ≡ true → x ≡ r) ks (λ x away here. ground (arith, same))
            (absent k.id ks h.0),
      )
  | inr miss ↦
      let e' : first p ks ≡ some r = rw miss at e in
      (
        (λ here. ground (arith, first-member p ks r e', nat_eqb_iff k.id r.id)),
        first_only p ks r h.1 e',
      )
]

-- `keep` and an update, when the rows at hand are known.
pub keep-update_where-All :
    (q p : ApiKey → Bool) (f : ApiKey → ApiKey) (ks : List ApiKey)
    → All (λ (k : ApiKey). p k ≡ true → (q k ≡ false) × (q (f k) ≡ false)) ks
    → keep q (update_where p f ks) ≡ keep q ks
unfolding update_where
keep-update_where-All q p f [] h = refl
keep-update_where-All q p f (k ∷ ks) h = elim (Bool-cases (p k)) [
  | inl hit ↦ ground (arith, h.0 hit, keep-update_where-All q p f ks h.1)
  | inr miss ↦ ground (arith, keep-update_where-All q p f ks h.1)
]

pub exists-update_where-All :
    (q p : ApiKey → Bool) (f : ApiKey → ApiKey) (ks : List ApiKey)
    → All (λ (k : ApiKey). p k ≡ true → q k ≡ true → q (f k) ≡ true) ks
    → exists q ks ≡ true
    → exists q (update_where p f ks) ≡ true
unfolding update_where
exists-update_where-All q p f [] h e = cc
exists-update_where-All q p f (k ∷ ks) h e = elim (Bool-cases (p k)) [
  | inl hit ↦ ground (arith, h.0 hit, exists-update_where-All q p f ks h.1)
  | inr miss ↦ ground (arith, exists-update_where-All q p f ks h.1)
]

pub All-update_where :
    (P Q : ApiKey → Type 0) (p : ApiKey → Bool) (f : ApiKey → ApiKey) (ks : List ApiKey)
    → All P ks
    → ((k : ApiKey) → p k ≡ true → P k → Q (f k))
    → ((k : ApiKey) → p k ≡ false → P k → Q k)
    → All Q (update_where p f ks)
unfolding update_where
All-update_where P Q p f [] h hit miss = tt
All-update_where P Q p f (k ∷ ks) h hit miss = elim (Bool-cases (p k)) [
  | inl yes_here ↦ rw yes_here (hit k yes_here h.0, All-update_where P Q p f ks h.1 hit miss)
  | inr not_here ↦ rw not_here (miss k not_here h.0, All-update_where P Q p f ks h.1 hit miss)
]

ids_of-update_where :
    (p : ApiKey → Bool) (f : ApiKey → ApiKey) (ks : List ApiKey)
    → ((k : ApiKey) → (f k).id ≡ k.id)
    → ids_of (update_where p f ks) ≡ ids_of ks
unfolding update_where
ids_of-update_where p f [] h = refl
ids_of-update_where p f (k ∷ ks) h = elim (Bool-cases (p k)) [
  | inl hit ↦ ground (arith, h k, ids_of-update_where p f ks h)
  | inr miss ↦ ground (arith, ids_of-update_where p f ks h)
]

pub IsKeyed-update_where :
    (next : ℕ) (p : ApiKey → Bool) (f : ApiKey → ApiKey) (ks : List ApiKey)
    → ((k : ApiKey) → (f k).id ≡ k.id)
    → IsKeyed next ks
    → IsKeyed next (update_where p f ks)
IsKeyed-update_where next p f ks h k = record {
  distinct = rw (ids_of-update_where p f ks h) k.distinct;
  bounded =
      All-update_where (λ (x : ApiKey). ltb x.id next ≡ true) (λ (x : ApiKey). ltb x.id next ≡ true)
        p f ks k.bounded (λ x _ b. rw (h x) b) (λ x _ b. b);
}

ids_of-append : (ks : List ApiKey) (k : ApiKey) → ids_of (ks ++ k ∷ []) ≡ ids_of ks ++ k.id ∷ []
ids_of-append [] k = refl
ids_of-append (x ∷ ks) k = ap (◌∷◌ x.id) (ids_of-append ks k)

fresh :
    (next : ℕ) (ks : List ApiKey)
    → All (λ (k : ApiKey). ltb k.id next ≡ true) ks
    → member next (ids_of ks) ≡ false
fresh next [] h = refl
fresh next (k ∷ ks) h = ground (arith, h.0, fresh next ks h.1)

pub IsKeyed-snoc :
    (next : ℕ) (ks : List ApiKey) (k : ApiKey)
    → k.id ≡ next
    → IsKeyed next ks
    → IsKeyed (next + 1) (ks ++ k ∷ [])
IsKeyed-snoc next ks k e h = record {
  distinct =
      rw (ids_of-append ks k)
        (Distinct-snoc (ids_of ks) k.id h.distinct (rw e (fresh next ks h.bounded)));
  bounded =
      All-append (λ (x : ApiKey). ltb x.id (next + 1) ≡ true) ks (k ∷ [])
        (All-mono (λ (x : ApiKey). ltb x.id next ≡ true)
          (λ (x : ApiKey). ltb x.id (next + 1) ≡ true) ks (λ x b. ground arith) h.bounded)
        (ground arith, tt);
}

pub keep-snoc :
    (q : ApiKey → Bool) (ks : List ApiKey) (k : ApiKey)
    → q k ≡ false
    → keep q (ks ++ k ∷ []) ≡ keep q ks
keep-snoc q [] k h = ground arith
keep-snoc q (x ∷ ks) k h = ground (arith, keep-snoc q ks k h)

pub exists-snoc :
    (q : ApiKey → Bool) (ks : List ApiKey) (k : ApiKey)
    → (exists q ks ≡ true → exists q (ks ++ k ∷ []) ≡ true)
      × (q k ≡ true → exists q (ks ++ k ∷ []) ≡ true)
exists-snoc q [] k = (λ h. cc, λ h. ground arith)
exists-snoc q (x ∷ ks) k =
    let (old, new) = exists-snoc q ks k in (λ h. ground (arith, old), λ h. ground (arith, new h))

pub first-snoc_new :
    (p : ApiKey → Bool) (ks : List ApiKey) (k : ApiKey)
    → first p ks ≡ none
    → p k ≡ true
    → first p (ks ++ k ∷ []) ≡ some k
unfolding first
first-snoc_new p [] k h e = ground arith
first-snoc_new p (x ∷ ks) k h e = elim (Bool-cases (p x)) [
  | inl hit ↦ ground arith
  | inr miss ↦ ground (arith, first-snoc_new p ks k (rw miss at h) e)
]

pub exists-update_where_id :
    (q : ApiKey → Bool) (id : ℕ) (f : ApiKey → ApiKey) (ks : List ApiKey)
    → ((k : ApiKey) → (k.id == id) ≡ true → q (f k) ≡ true)
    → member id (ids_of ks) ≡ true
    → exists q (update_where (λ k. k.id == id) f ks) ≡ true
unfolding update_where
exists-update_where_id q id f [] h e = cc
exists-update_where_id q id f (k ∷ ks) h e = elim (Bool-cases (k.id == id)) [
  | inl hit ↦ ground (arith, h k hit)
  | inr miss ↦ ground (arith, nat_eqb_iff k.id id, exists-update_where_id q id f ks h)
]

pub exists_mono :
    (p q : ApiKey → Bool) (ks : List ApiKey)
    → ((k : ApiKey) → p k ≡ true → q k ≡ true)
    → exists p ks ≡ true
    → exists q ks ≡ true
exists_mono p q [] h e = cc
exists_mono p q (k ∷ ks) h e = ground (arith, h k, exists_mono p q ks h)
