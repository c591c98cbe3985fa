-- ===== src/Keys/Shown.antt =====
-- What `get_user_keys` shows of the keys of a user.
use mathlib.Core.List.{Perm, foldr}
use mathlib.Core.List.Perm
use mathlib.Core.Bool.{Bool-set}
use mathlib.Core.Path.{subst}
use sub2api_gate.Base.{
  ℕ, zero, suc, ◌+◌, ◌≡◌, ◌≤◌, ◌⊎◌, inl, inr, refl, ap, sym, ◌∙◌, Bool, true, not, ◌&&◌, ◌||◌,
  Bool-cases, Option, none, some, List, [], ◌∷◌, map, every, take, drop, length, ltb, Text, arith,
  Result, ok, ◌==◌, nat_eq, text_eq, strip, is_space, show_nat, if◌then◌else◌,
}
use sub2api_gate.Token.{max_user_api_keys}
use sub2api_gate.Database.{ApiKey, GroupRow, Db, lift, first}
use sub2api_gate.Database.ReadOnly.{bind_ok}
use sub2api_gate.Catalog.{active}
use sub2api_gate.Keys.{
  KeyView, KeyReader, joined_name, key_columns, live_keys, within_limit, add_view, view_columns,
  view_rows, get_user_keys,
}

-- What is to be shown of a key.
unfoldable pub view_key : List GroupRow → ApiKey → KeyView
view_key groups k = record {
  api_key_id = k.id;
  name = take 100 k.name;
  api_key = take 128 k.key;
  status = if take 16 k.status == active then 1 else 0;
  quota = take 64 k.quota;
  quota_used = take 64 k.quota_used;
  group_name = joined_name (first (λ g. g.id == k.group_id) groups);
}

-- A cell without tabs and line breaks, and without white space at its ends.
unfoldable pub is_plain : Text → Bool
is_plain t = every (λ c. c == 32 || not (is_space c)) t && strip t == t

unfoldable pub is_plain_key : List GroupRow → ApiKey → Bool
unfolding is_plain
is_plain_key groups k = every is_plain (key_columns groups k)

-- The rows as they were, but for the last, which may have lost its seventh cell where that is empty:
-- the text is stripped.
abbrev pub ReadsBack : List (List Text) → List (List Text) → Type 0
ReadsBack [] [] = Unit {0}
ReadsBack [] (o ∷ os) = ⊥
ReadsBack (r ∷ rs) [] = ⊥
ReadsBack (r ∷ rs) (o ∷ os) =
    ((r ≡ o) × ReadsBack rs os) ⊎ ((rs ≡ []) × (os ≡ []) × (o ≡ take 6 r) × (drop 6 r ≡ [] ∷ []))

-- What PostgreSQL, `psql` and `int` are documented to do.
pub record IsDocumented (reader : KeyReader) : Type 0 where
  pub ordered : (keys : List ApiKey) → Perm (reader.order_by_id keys) keys
  pub reads :
      (groups : List GroupRow) (keys : List ApiKey)
      → every (is_plain_key groups) keys ≡ true
      → ReadsBack (map (key_columns groups) keys) (reader.read_back (map (key_columns groups) keys))
  pub numbers : (n : ℕ) → reader.number_of (show_nat n) ≡ ok n

every-foldr :
    {A : Type 0} (p : A → Bool) (xs : List A) → every p xs ≡ foldr (λ x b. p x && b) true xs
every-foldr p [] = refl
every-foldr p (x ∷ xs) = ap (λ b. p x && b) (every-foldr p xs)

every-Perm :
    {A : Type 0} (p : A → Bool) {xs ys : List A}
    → Perm xs ys
    → every p ys ≡ true
    → every p xs ≡ true
every-Perm p {xs} {ys} perm h =
    every-foldr p xs
    ∙ Perm.foldr-eq Bool-set (λ x b. p x && b) (λ a b x. ground arith) perm true
    ∙ sym (every-foldr p ys)
    ∙ h

every-take :
    {A : Type 0} (p : A → Bool) (n : ℕ) (xs : List A)
    → every p xs ≡ true
    → every p (take n xs) ≡ true
every-take p zero xs h = refl
every-take p (suc n) [] h = refl
every-take p (suc n) (x ∷ xs) h = ground (arith, every-take p n xs)

-- Rows that do not fill the limit are all of them.
take_all : {A : Type 0} (n : ℕ) (xs : List A) → length (take (suc n) xs) ≤ n → take (suc n) xs ≡ xs
take_all n [] h = refl
take_all zero (x ∷ xs) h = absurd (omega (arith, h))
take_all (suc n) (x ∷ xs) h = ap (λ t. x ∷ t) (take_all n xs (omega (arith, h)))

module _ (reader : KeyReader) (laws : IsDocumented reader) where
  view_columns-whole :
      (groups : List GroupRow) (k : ApiKey)
      → view_columns reader (key_columns groups k) ≡ some (ok (view_key groups k))
  unfolding view_columns view_key
  view_columns-whole groups k = rw (laws.numbers k.id)

  -- The fallback of the seventh column.
  view_columns-cut :
      (groups : List GroupRow) (k : ApiKey)
      → drop 6 (key_columns groups k) ≡ [] ∷ []
      → view_columns reader (take 6 (key_columns groups k)) ≡ some (ok (view_key groups k))
  unfolding view_columns view_key
  view_columns-cut groups k h =
      let no_name : joined_name (first (λ g. g.id == k.group_id) groups) ≡ [] = cc in
      rw (laws.numbers k.id, no_name)

  view_rows-cons :
      (o : List Text) (out : List (List Text)) (v : KeyView) (vs : List KeyView)
      → view_columns reader o ≡ some (ok v)
      → view_rows reader out ≡ ok vs
      → view_rows reader (o ∷ out) ≡ ok (v ∷ vs)
  unfolding view_rows
  view_rows-cons o out v vs e h =
      ap
        (λ (c : Option (Result KeyView)). elim c as (λ x. Result (List KeyView)) [
          | none ↦ view_rows reader out
          | some entry ↦ add_view entry (view_rows reader out)
        ])
        e
      ∙ ap (add_view (ok v)) h

  view_rows-whole :
      (groups : List GroupRow) (keys : List ApiKey) (out : List (List Text))
      → ReadsBack (map (key_columns groups) keys) out
      → (view_rows reader out ≡ ok (map (view_key groups) keys)) × (length out ≡ length keys)
  unfolding view_rows
  view_rows-whole groups [] [] h = (refl, refl)
  view_rows-whole groups [] (o ∷ out) h = absurd h
  view_rows-whole groups (k ∷ keys) [] h = absurd h
  view_rows-whole groups (k ∷ keys) (o ∷ out) (inl (same, h)) =
      let (shown, long) = view_rows-whole groups keys out h in
      (
        view_rows-cons o out (view_key groups k) (map (view_key groups) keys)
            (ap (view_columns reader) (sym same) ∙ view_columns-whole groups k) shown,
        omega (arith, long),
      )
  view_rows-whole groups (k ∷ []) (o ∷ out) (inr (last, done, cut, empty)) = (
    view_rows-cons o out (view_key groups k) []
        (ap (view_columns reader) cut ∙ view_columns-cut groups k empty)
        (ap (view_rows reader) done),
    ap (λ (rows : List (List Text)). length (o ∷ rows)) done,
  )
  view_rows-whole groups (k ∷ l ∷ keys) (o ∷ out) (inr (last, done, cut, empty)) = cc

  length_views :
      (groups : List GroupRow) (keys : List ApiKey)
      → length (map (view_key groups) keys) ≡ length keys
  length_views groups [] = refl
  length_views groups (k ∷ keys) = omega (arith, length_views groups keys)

  within_limit_ok :
      (rows : List (List Text)) (d : Db) (listed : List (List Text)) (d' : Db)
      → within_limit rows d ≡ (ok listed, d')
      → (rows ≡ listed) × (d ≡ d') × (length rows ≤ max_user_api_keys)
  within_limit_ok rows d listed d' h = elim (Bool-cases (ltb max_user_api_keys (length rows))) [
    | inl many ↦ let clash = rw many at h in cc
    | inr few ↦
        let h1 : Path (Result (List (List Text)) × Db) (ok rows, d) (ok listed, d') = rw few at h in
        (cc, cc, ground arith)
  ]

  -- What is shown are the live keys of the user, in some order, each once; they are 100 at most.
  pub get_user_keys_lem :
      (user_id : ℕ) (d : Db) (listed : List KeyView) (d' : Db)
      → every (is_plain_key d.groups) (live_keys user_id d) ≡ true
      → get_user_keys reader user_id d ≡ (ok listed, d')
      → (d ≡ d')
        × Perm listed (map (view_key d.groups) (live_keys user_id d))
        × (length listed ≤ max_user_api_keys)
  unfolding get_user_keys
  get_user_keys_lem user_id d listed d' plain h =
      let asked : List ApiKey =
        take (max_user_api_keys + 1) (reader.order_by_id (live_keys user_id d)) in
      let printed : List (List Text) = map (key_columns d.groups) asked in
      let (rows, d1, h1, h2) =
        bind_ok (within_limit (reader.read_back printed)) (λ l. lift (view_rows reader l)) d listed
          d' h in
      let (same, last, few) = within_limit_ok (reader.read_back printed) d rows d1 h1 in
      let (shown, long) = view_rows-whole d.groups asked (reader.read_back printed) (
        laws.reads d.groups asked (
          every-take (is_plain_key d.groups) (max_user_api_keys + 1)
            (reader.order_by_id (live_keys user_id d))
            (every-Perm (is_plain_key d.groups) (laws.ordered (live_keys user_id d)) plain))) in
      let all : asked ≡ reader.order_by_id (live_keys user_id d) =
        take_all max_user_api_keys (reader.order_by_id (live_keys user_id d))
          (omega (arith, long, few)) in
      let made : ok listed ≡ ok (map (view_key d.groups) asked) =
        sym (ap (λ (x : Result (List KeyView) × Db). x.0) h2)
        ∙ ap (view_rows reader) (sym same)
        ∙ shown in
      let entries : listed ≡ map (view_key d.groups) (reader.order_by_id (live_keys user_id d)) =
        ok_inj made ∙ ap (map (view_key d.groups)) all in
      (
        last ∙ ap (λ (x : Result (List KeyView) × Db). x.1) h2,
        rw entries (Perm.map (view_key d.groups) (laws.ordered (live_keys user_id d))),
        subst (λ (n : ℕ). n ≤ max_user_api_keys)
            (long ∙ sym (length_views d.groups asked) ∙ sym (ap length (ok_inj made))) few,
      )
    where
      ok_inj : {a b : List KeyView} → ok a ≡ ok b → a ≡ b
      ok_inj e = cc
