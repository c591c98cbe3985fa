-- ===== src/Keys/Progress.antt =====
-- The state of the loop of `sync_user_keys`, and the statement behind it.
use sub2api_gate.Base.{
  ℕ, ◌≡◌, ◌≢◌, refl, ap, ◌∙◌, Bool, true, not, ◌&&◌, Bool-cases, inl, inr, List, [], ◌∷◌, ◌++◌,
  arith, exists, nat_eq, nat_eqb_iff, text_eq, text_eqb_iff, Text, ◌==◌, member, member-append, All,
}
use sub2api_gate.Database.{ApiKey, Db, update_where}
use sub2api_gate.Database.Tables.{keep-update_where}
use sub2api_gate.Removal.{is_live_key, end_key, disable_keys}
use sub2api_gate.Keys.{live_keys, disable_rest}
use sub2api_gate.Keys.Rows.{
  IsKeyed, IsKeyed-update_where, All-mono, All-update_where, exists-update_where-All, exists_mono,
}
use sub2api_gate.Keys.Stored.{OnlyKeys, OnlyKeys-trans, holds_key, Stored}

-- Behind some rounds: the rows that the loop remembers are live ones of the user with a key that it
-- was given, and each key that it was given has such a row.
pub record Progress (user_id : ℕ) (ids : List ℕ) (given : List Text) (d : Db) : Type 0 where
  pub keyed : IsKeyed d.next_key d.keys
  pub sound :
      All
        (λ (k : ApiKey).
          member k.id ids ≡ true → (is_live_key user_id k ≡ true) × (member k.key given ≡ true))
        d.keys
  pub complete :
      (key : Text)
      → member key given ≡ true
      → exists (λ k. member k.id ids && holds_key user_id key k) d.keys ≡ true

pub Progress-Stored :
    (user_id : ℕ) (ids : List ℕ) (given : List Text) (key : Text) (id : ℕ) (d d' : Db)
    → Progress user_id ids given d
    → Stored user_id key id d d'
    → Progress user_id (ids ++ id ∷ []) (given ++ key ∷ []) d'
Progress-Stored user_id ids given key id d d' p s = record {
  keyed = s.keyed;
  sound =
      s.rows _ _ p.sound
        (λ k here h _. (
          ground arith,
          ground (arith, member-append k.key given (key ∷ []), text_eqb_iff k.key key),
        ))
        (λ k away h m. (
          ground (arith, h, member-append k.id ids (id ∷ []), nat_eqb_iff k.id id),
          ground (
            arith,
            h,
            member-append k.id ids (id ∷ []),
            member-append k.key given (key ∷ []),
            nat_eqb_iff k.id id,
          ),
        ));
  complete = λ c m. elim (Bool-cases (c == key)) [
    | inl same ↦
        exists_mono (λ k. k.id == id && holds_key user_id key k)
          (λ k. member k.id (ids ++ id ∷ []) && holds_key user_id c k) d'.keys
          (λ k h.
            ground
              (arith, text_eqb_iff c key, member-append k.id ids (id ∷ []), nat_eqb_iff k.id id))
          s.stored
    | inr another ↦
        exists_mono (λ k. member k.id ids && holds_key user_id c k)
          (λ k. member k.id (ids ++ id ∷ []) && holds_key user_id c k) d'.keys
          (λ k h. ground (arith, member-append k.id ids (id ∷ [])))
          (s.still (λ k. member k.id ids && holds_key user_id c k)
            (λ k h.
              ground (arith, text_eqb_iff c key, text_eqb_iff k.key key, text_eqb_iff k.key c))
            (p.complete c (ground (arith, member-append c given (key ∷ []), text_eqb_iff c key))))
  ];
}

-- What a run on behalf of a user leaves as it is.
pub record Apart (user_id : ℕ) (d d' : Db) : Type 0 where
  pub others : (v : ℕ) → v ≢ user_id → live_keys v d' ≡ live_keys v d
  pub only : OnlyKeys d d'

pub Apart-trans :
    (user_id : ℕ) (d e f : Db) → Apart user_id d e → Apart user_id e f → Apart user_id d f
Apart-trans user_id d e f h k = record {
  others = λ v ne. k.others v ne ∙ h.others v ne;
  only = OnlyKeys-trans d e f h.only k.only;
}

pub append_nil : (given : List Text) → given ++ [] ≡ given
append_nil [] = refl
append_nil (x ∷ given) = ap (◌∷◌ x) (append_nil given)

pub append_assoc : (a b c : List Text) → (a ++ b) ++ c ≡ a ++ (b ++ c)
append_assoc [] b c = refl
append_assoc (x ∷ a) b c = ap (◌∷◌ x) (append_assoc a b c)

-- The statement behind the loop, whichever of its two forms it has.
left_over : ℕ → List ℕ → ApiKey → Bool
left_over user_id ids k = is_live_key user_id k && not (member k.id ids)

all_left_over_at :
    (user_id : ℕ) (ks : List ApiKey)
    → update_where (is_live_key user_id) end_key ks ≡ update_where (left_over user_id []) end_key ks
unfolding left_over update_where
all_left_over_at user_id [] = refl
all_left_over_at user_id (k ∷ ks) = ground (arith, all_left_over_at user_id ks)

disable_rest_at :
    (user_id : ℕ) (ids : List ℕ) (d : Db)
    → disable_rest user_id ids d
      ≡ record d { keys = update_where (left_over user_id ids) end_key d.keys }
unfolding disable_rest disable_keys left_over
disable_rest_at user_id [] d =
    ap (λ (ks : List ApiKey). record d { keys = ks }) (all_left_over_at user_id d.keys)
disable_rest_at user_id (id ∷ ids) d = refl

-- The keys of a user after a synchronisation: a live key is one of those that were asked for, and
-- each of those is held by a live row.
pub record Holds (user_id : ℕ) (given : List Text) (d : Db) : Type 0 where
  pub sound : All (λ (k : ApiKey). is_live_key user_id k ≡ true → member k.key given ≡ true) d.keys
  pub complete :
      (key : Text) → member key given ≡ true → exists (holds_key user_id key) d.keys ≡ true

pub disable_rest-Holds :
    (user_id : ℕ) (ids : List ℕ) (given : List Text) (d : Db)
    → Progress user_id ids given d
    → Holds user_id given (disable_rest user_id ids d)
      × IsKeyed (disable_rest user_id ids d).next_key (disable_rest user_id ids d).keys
      × Apart user_id d (disable_rest user_id ids d)
unfolding left_over
disable_rest-Holds user_id ids given d p = rw (disable_rest_at user_id ids d) (
  record {
    sound =
        All-update_where _
          (λ (k : ApiKey). is_live_key user_id k ≡ true → member k.key given ≡ true)
          (left_over user_id ids) end_key d.keys p.sound (λ k hit h live. ground arith)
          (λ k miss h live. (h (ground arith)).1);
    complete = λ key m.
        exists_mono (λ k. member k.id ids && holds_key user_id key k) (holds_key user_id key) _
          (λ k h. ground arith)
          (exists-update_where-All (λ k. member k.id ids && holds_key user_id key k)
            (left_over user_id ids) end_key d.keys
            (All-mono _ _ d.keys (λ k _ hit old. ground arith) p.sound) (p.complete key m));
  },
  IsKeyed-update_where d.next_key (left_over user_id ids) end_key d.keys (λ k. refl) p.keyed,
  record {
    others = λ v ne.
        keep-update_where (is_live_key v) (left_over user_id ids) end_key d.keys (λ k h. (
          ground (arith, ne, nat_eqb_iff k.user_id v, nat_eqb_iff k.user_id user_id),
          ground arith,
        ));
    only = record { rest = refl };
  },
)
