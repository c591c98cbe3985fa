-- ===== src/Keys/Stored.antt =====
-- What one round of the loop of `sync_user_keys` does to the keys.
use mathlib.Core.Path.{subst}
use sub2api_gate.Base.{
  ℕ, ◌≡◌, ◌≢◌, refl, ◌∙◌, sym, Bool, true, false, not, ◌&&◌, Bool-cases, inl, inr, Option, none,
  some, arith, exists, nat_eq, nat_eqb_iff, text_eq, text_eqb_iff, Text, ◌==◌, ltb, All, All-append,
  Result, ok,
}
use sub2api_gate.Database.{ApiKey, Db, first}
use sub2api_gate.Database.Tables.{first-holds}
use sub2api_gate.Removal.{is_live_key}
use sub2api_gate.Keys.{
  live_keys, is_key_row, reuse_key, rewrite_key, new_key, insert_key, inserted_id, store_key,
}
use sub2api_gate.Keys.Rows.{
  IsKeyed, IsKeyed-update_where, IsKeyed-snoc, first-member, first_only, All-mono, All-both,
  All-update_where, keep-update_where-All, exists-update_where-All, exists-update_where_id,
  keep-snoc, exists-snoc, first-snoc_new,
}

-- The database has changed in its keys only.
pub record OnlyKeys (d d' : Db) : Type 0 where
  pub rest : d' ≡ record d { keys = d'.keys; next_key = d'.next_key }

pub OnlyKeys-refl : (d : Db) → OnlyKeys d d
OnlyKeys-refl d = record { rest = refl }

pub OnlyKeys-trans : (d e f : Db) → OnlyKeys d e → OnlyKeys e f → OnlyKeys d f
OnlyKeys-trans d e f h k = record { rest = ground (arith, h.rest, k.rest) }

-- A live row of the user with the key.
abbrev pub holds_key : ℕ → Text → ApiKey → Bool
holds_key user_id key k = is_live_key user_id k && k.key == key

-- The row `id` holds the key for the user; what is known of the other rows stays; and no other user's
-- live keys change.
pub record Stored (user_id : ℕ) (key : Text) (id : ℕ) (d d' : Db) : Type 1 where
  pub keyed : IsKeyed d'.next_key d'.keys
  pub others : (v : ℕ) → v ≢ user_id → live_keys v d' ≡ live_keys v d
  pub rows :
      (P Q : ApiKey → Type 0)
      → All P d.keys
      → ((k : ApiKey) → (k.id == id) ≡ true → holds_key user_id key k ≡ true → Q k)
      → ((k : ApiKey) → (k.id == id) ≡ false → P k → Q k)
      → All Q d'.keys
  pub stored : exists (λ k. k.id == id && holds_key user_id key k) d'.keys ≡ true
  pub still :
      (q : ApiKey → Bool)
      → ((k : ApiKey) → (k.key == key) ≡ true → q k ≡ false)
      → exists q d.keys ≡ true
      → exists q d'.keys ≡ true
  pub only : OnlyKeys d d'

module _ (user_id : ℕ) (key name : Text) (group_id : ℕ) where
  rewrite_key-Stored :
      (row : ApiKey) (d : Db)
      → IsKeyed d.next_key d.keys
      → first (is_key_row key) d.keys ≡ some row
      → (not (row.user_id == user_id) && not row.deleted) ≡ false
      → Stored user_id key row.id d (rewrite_key row.id user_id key name group_id d)
  unfolding rewrite_key
  rewrite_key-Stored row d keyed e free =
      let alone = first_only (is_key_row key) d.keys row keyed.distinct e in
      record {
        keyed =
            IsKeyed-update_where d.next_key (λ k. k.id == row.id)
              (reuse_key user_id key name group_id) d.keys (λ k. refl) keyed;
        others = λ v ne.
            keep-update_where-All (is_live_key v) (λ k. k.id == row.id)
              (reuse_key user_id key name group_id) d.keys
              (All-mono (λ (k : ApiKey). (k.id == row.id) ≡ true → k ≡ row) _ d.keys
                (λ k same here. (
                  rw (same here) (
                      ground
                        (arith, ne, nat_eqb_iff row.user_id v, nat_eqb_iff row.user_id user_id)),
                  ground (arith, ne, nat_eqb_iff user_id v),
                ))
                alone);
        rows = λ P Q h new old.
            All-update_where P Q (λ k. k.id == row.id) (reuse_key user_id key name group_id) d.keys
              h
              (λ k here _.
                new (reuse_key user_id key name group_id k) here
                  (ground (arith, text_eqb_iff key key, nat_eqb_iff user_id user_id)))
              old;
        stored =
            exists-update_where_id (λ k. k.id == row.id && holds_key user_id key k) row.id
              (reuse_key user_id key name group_id) d.keys
              (λ k here. ground (arith, text_eqb_iff key key, nat_eqb_iff user_id user_id))
              (first-member (is_key_row key) d.keys row e);
        still = λ q no h.
            exists-update_where-All q (λ k. k.id == row.id) (reuse_key user_id key name group_id)
              d.keys
              (All-mono (λ (k : ApiKey). (k.id == row.id) ≡ true → k ≡ row) _ d.keys
                (λ k same here old.
                  ground (arith, no row (first-holds (is_key_row key) d.keys row e), same here))
                alone)
              h;
        only = record { rest = refl };
      }

  insert_key-Stored :
      (d : Db)
      → IsKeyed d.next_key d.keys
      → Stored user_id key d.next_key d (insert_key user_id key name group_id d)
  unfolding insert_key
  insert_key-Stored d keyed = record {
    keyed = IsKeyed-snoc d.next_key d.keys _ refl keyed;
    others = λ v ne. keep-snoc (is_live_key v) d.keys _ (ground (arith, ne, nat_eqb_iff user_id v));
    rows = λ P Q h new old.
        All-append Q d.keys _
          (All-both P (λ (k : ApiKey). ltb k.id d.next_key ≡ true) Q d.keys
            (λ k p b. old k (ground (arith, b, nat_eqb_iff k.id d.next_key)) p) h keyed.bounded)
          (
            new _ (ground (arith, nat_eqb_iff d.next_key d.next_key))
                (ground (arith, text_eqb_iff key key, nat_eqb_iff user_id user_id)),
            tt,
          );
    stored =
        (exists-snoc (λ k. k.id == d.next_key && holds_key user_id key k) d.keys _).1
          (ground (arith, text_eqb_iff key key, nat_eqb_iff user_id user_id));
    still = λ q no h. (exists-snoc q d.keys _).0 h;
    only = record { rest = refl };
  }

  inserted :
      (d : Db)
      → first (is_key_row key) d.keys ≡ none
      → inserted_id
          (first (is_key_row key) (insert_key user_id key name group_id d).keys)
          (insert_key user_id key name group_id d)
        ≡ (ok d.next_key, insert_key user_id key name group_id d)
  unfolding insert_key
  inserted d e =
      rw
        (first-snoc_new (is_key_row key) d.keys (new_key d.next_key user_id key name group_id) e
          (ground (arith, text_eqb_iff key key)))
        refl

  -- A round that returns has stored the key.
  pub store_key-Stored :
      (o : Option ApiKey) (d : Db) (id : ℕ) (d' : Db)
      → IsKeyed d.next_key d.keys
      → first (is_key_row key) d.keys ≡ o
      → store_key user_id key name group_id o d ≡ (ok id, d')
      → Stored user_id key id d d'
  unfolding store_key
  store_key-Stored (some row) d id d' keyed e h =
      elim (Bool-cases (not (row.user_id == user_id) && not row.deleted)) [
        | inl taken ↦ let clash = rw taken at h in cc
        | inr free ↦
            let h1 : Path (Result ℕ × Db)
                (ok row.id, rewrite_key row.id user_id key name group_id d) (ok id, d') =
              rw free at h in
            let here : row.id ≡ id = cc in
            let there : rewrite_key row.id user_id key name group_id d ≡ d' = cc in
            subst (λ (x : Db). Stored user_id key id d x) there
              (subst
                (λ (n : ℕ). Stored user_id key n d (rewrite_key row.id user_id key name group_id d))
                here (rewrite_key-Stored row d keyed e free))
      ]
  store_key-Stored none d id d' keyed e h =
      let new = insert_key user_id key name group_id d in
      let h1 : Path (Result ℕ × Db) (ok d.next_key, new) (ok id, d') = sym (inserted d e) ∙ h in
      let here : d.next_key ≡ id = cc in
      let there : new ≡ d' = cc in
      subst (λ (x : Db). Stored user_id key id d x) there
        (subst (λ (n : ℕ). Stored user_id key n d new) here (insert_key-Stored d keyed))
