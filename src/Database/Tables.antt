-- ===== src/Database/Tables.antt =====
-- What updates and deletions leave alone, and what they leave nothing of.
use sub2api_gate.Base.{
  ◌≡◌, refl, Bool, true, false, some, List, [], ◌∷◌, ◌++◌, arith, keep, Bool-cases, inl, inr,
}
use sub2api_gate.Database.{first, update_where, delete_where}

module _ {A : Type 0} where
  -- Rows outside the condition, before and after, are as they were.
  pub keep-update_where :
      (q p : A → Bool) (f : A → A) (xs : List A)
      → ((x : A) → p x ≡ true → (q x ≡ false) × (q (f x) ≡ false))
      → keep q (update_where p f xs) ≡ keep q xs
  unfolding update_where
  keep-update_where q p f [] h = refl
  keep-update_where q p f (x ∷ xs) h = elim (Bool-cases (p x)) [
    | inl hit ↦ ground (arith, h x hit, keep-update_where q p f xs h)
    | inr miss ↦ ground (arith, keep-update_where q p f xs h)
  ]

  -- Rows that the update reaches, and moves out of the condition, are gone from it.
  pub keep-update_where_none :
      (q p : A → Bool) (f : A → A) (xs : List A)
      → ((x : A) → p x ≡ false → q x ≡ false)
      → ((x : A) → p x ≡ true → q (f x) ≡ false)
      → keep q (update_where p f xs) ≡ []
  unfolding update_where
  keep-update_where_none q p f [] h k = refl
  keep-update_where_none q p f (x ∷ xs) h k = elim (Bool-cases (p x)) [
    | inl hit ↦ ground (arith, k x hit, keep-update_where_none q p f xs h k)
    | inr miss ↦ ground (arith, h x miss, keep-update_where_none q p f xs h k)
  ]

  pub keep-delete_where :
      (q p : A → Bool) (xs : List A)
      → ((x : A) → p x ≡ true → q x ≡ false)
      → keep q (delete_where p xs) ≡ keep q xs
  unfolding delete_where
  keep-delete_where q p [] h = refl
  keep-delete_where q p (x ∷ xs) h = elim (Bool-cases (p x)) [
    | inl hit ↦ ground (arith, h x hit, keep-delete_where q p xs h)
    | inr miss ↦ ground (arith, keep-delete_where q p xs h)
  ]

  pub keep-delete_where_none :
      (q p : A → Bool) (xs : List A)
      → ((x : A) → q x ≡ true → p x ≡ true)
      → keep q (delete_where p xs) ≡ []
  unfolding delete_where
  keep-delete_where_none q p [] h = refl
  keep-delete_where_none q p (x ∷ xs) h = elim (Bool-cases (p x)) [
    | inl hit ↦ ground (arith, keep-delete_where_none q p xs h)
    | inr miss ↦ ground (arith, h x, keep-delete_where_none q p xs h)
  ]

  -- A row that is found satisfies the condition.
  pub first-holds : (p : A → Bool) (xs : List A) (x : A) → first p xs ≡ some x → p x ≡ true
  unfolding first
  first-holds p [] x h = cc
  first-holds p (y ∷ xs) x h = elim (Bool-cases (p y)) [
    | inl hit ↦ ground arith
    | inr miss ↦ first-holds p xs x (rw miss at h)
  ]

  -- The row that a query finds is not another for rows that it would not have found.
  pub first-update_where :
      (q p : A → Bool) (f : A → A) (xs : List A)
      → ((x : A) → p x ≡ true → (q x ≡ false) × (q (f x) ≡ false))
      → first q (update_where p f xs) ≡ first q xs
  unfolding update_where first
  first-update_where q p f [] h = refl
  first-update_where q p f (x ∷ xs) h = elim (Bool-cases (p x)) [
    | inl hit ↦ ground (arith, h x hit, first-update_where q p f xs h)
    | inr miss ↦ ground (arith, first-update_where q p f xs h)
  ]

  pub first-snoc :
      (q : A → Bool) (xs : List A) (y : A) → q y ≡ false → first q (xs ++ y ∷ []) ≡ first q xs
  unfolding first
  first-snoc q [] y h = ground arith
  first-snoc q (x ∷ xs) y h = ground (arith, first-snoc q xs y h)
