-- ===== src/Token/Requested.antt =====
-- The tokens that a request gives: keys in normal form, each once, a hundred at most.
use mathlib.Core.Path.{subst}
use sub2api_gate.Base.{
  ◌≤◌, ◌≡◌, refl, sym, ap, ◌∙◌, Bool, true, false, ◌||◌, Option, List, [], ◌∷◌, ◌++◌, ◌⊎◌, inl, inr,
  arith, Text, codes, ◌==◌, text_eq, All, Distinct, Distinct-snoc, member, member-append, length,
  length-take, is_empty, text_or, take, strip, ok, >>=-eq-ok, Bool-cases,
}
use sub2api_gate.Payload.{Python, Value, Fields, obj, str, get, value_or, text_of}
use sub2api_gate.Token.{
  Token, Gathered, new_token, item_group, gather, gather_item, gather_all, requested_tokens,
  token_items, clean_key_name, normalize_api_key, max_user_api_keys, default_key_name,
}
use sub2api_gate.Token.Keys.{IsKey, normalize_api_key-IsKey}

abbrev pub keys : List Token → List Text
keys [] = []
keys (t ∷ ts) = t.key ∷ keys ts

abbrev pub IsToken : Token → Type 0
IsToken t = IsKey t.key × (is_empty t.name ≡ false) × (length t.name ≤ 100)

-- Tokens whose keys are distinct and in normal form, with names of 1 to 100 characters.
pub record AreTokens (ts : List Token) : Type 0 where
  pub distinct : Distinct (keys ts)
  pub valid : All IsToken ts
  pub few : length ts ≤ max_user_api_keys

record IsGathered (s : Gathered) : Type 0 where
  tokens : AreTokens s.result
  same : (k : Text) → member k s.seen ≡ member k (keys s.result)

or_swap : (a b : Bool) → (a || b) ≡ (b || (a || false))
or_swap true true = refl
or_swap true false = refl
or_swap false true = refl
or_swap false false = refl

keys-snoc : (ts : List Token) (t : Token) → keys (ts ++ t ∷ []) ≡ keys ts ++ t.key ∷ []
keys-snoc [] t = refl
keys-snoc (x ∷ ts) t = ap (λ (ks : List Text). x.key ∷ ks) (keys-snoc ts t)

All-snoc : (ts : List Token) (t : Token) → All IsToken ts → IsToken t → All IsToken (ts ++ t ∷ [])
All-snoc [] t h p = (p, tt)
All-snoc (x ∷ ts) t h p = (h.0, All-snoc ts t h.1 p)

-- One more token with a new key, below the limit.
IsGathered-snoc :
    (s : Gathered) (t : Token)
    → IsGathered s
    → IsToken t
    → member t.key s.seen ≡ false
    → length (s.result ++ t ∷ []) ≤ max_user_api_keys
    → IsGathered (record { seen = t.key ∷ s.seen; result = s.result ++ t ∷ [] })
IsGathered-snoc s t h p new room = record {
  tokens = record {
    distinct =
        rw (keys-snoc s.result t)
          (Distinct-snoc (keys s.result) t.key h.tokens.distinct (sym (h.same t.key) ∙ new));
    valid = All-snoc s.result t h.tokens.valid p;
    few = room;
  };
  same = λ k.
      rw (keys-snoc s.result t, member-append k (keys s.result) (t.key ∷ []), h.same k)
        (or_swap (k == t.key) (member k (keys s.result)));
}

text_or_bounds :
    (t d : Text)
    → length t ≤ 100
    → length d ≤ 100
    → is_empty d ≡ false
    → (is_empty (text_or t d) ≡ false) × (length (text_or t d) ≤ 100)
text_or_bounds [] d h k n = (n, k)
text_or_bounds (c ∷ t) d h k n = (refl, h)

given-IsKey : (key : Text) → (key ≡ []) ⊎ IsKey key → is_empty key ≡ false → IsKey key
given-IsKey key (inl none_given) h = cc (none_given, h)
given-IsKey key (inr k) h = k

IsGathered-start : IsGathered (record { seen = []; result = [] })
IsGathered-start = record {
  tokens = record { distinct = tt; valid = tt; few = omega arith };
  same = λ k. refl;
}

abbrev key_value : Fields → Value
key_value fs = value_or (get (codes "tokenKey") fs) (value_or (get (codes "apiKey") fs) (str []))

or_false_left : (a b : Bool) → (a || b) ≡ false → a ≡ false
or_false_left a b h = ground arith

or_false_right : (a b : Bool) → (a || b) ≡ false → b ≡ false
or_false_right a b h = ground arith

module _ (py : Python) where
  IsKey-or_nil :
      (fs : Fields) (key : Text)
      → normalize_api_key py (key_value fs) ≡ ok key
      → (key ≡ []) ⊎ IsKey key
  IsKey-or_nil fs key h = elim (normalize_api_key-IsKey py (key_value fs) key h) [
    | inl none_given ↦ inl none_given
    | inr k ↦ inr k.0
  ]

  clean_key_name_bounds :
      (v : Value) → (is_empty (clean_key_name py v) ≡ false) × (length (clean_key_name py v) ≤ 100)
  unfolding clean_key_name
  clean_key_name_bounds v =
      text_or_bounds (take 100 (strip (text_of py v))) default_key_name
        (omega (arith, length-take 100 (strip (text_of py v)))) (omega arith) refl

  new_token-IsToken :
      (fs : Fields) (key : Text) (group : Option Text)
      → IsKey key
      → IsToken (new_token py fs key group)
  unfolding new_token
  new_token-IsToken fs key group h =
      let (named, short) = clean_key_name_bounds _ in (h, named, short)

  gather-IsGathered :
      (fs : Fields) (key : Text) (s s' : Gathered)
      → (key ≡ []) ⊎ IsKey key
      → IsGathered s
      → gather py fs key s ≡ ok s'
      → IsGathered s'
  unfolding gather new_token
  gather-IsGathered fs key s s' k h e = elim (Bool-cases (is_empty key || member key s.seen)) [
    | inl skip ↦ let same : s ≡ s' = ground arith in subst IsGathered same h
    | inr fresh ↦
        let (group, e1, h1) = >>=-eq-ok (item_group py fs) _ (rw fresh at e) in
        let room : length (s.result ++ new_token py fs key group ∷ []) ≤ max_user_api_keys =
          ground arith in
        let same : record {
          seen = key ∷ s.seen;
          result = s.result ++ new_token py fs key group ∷ [];
        }
            ≡ s' =
          ground arith in
        subst IsGathered same (
          IsGathered-snoc s (new_token py fs key group) h
            (new_token-IsToken fs key group (given-IsKey key k (or_false_left _ _ fresh)))
            (or_false_right _ _ fresh) room)
  ]

  gather_item-IsGathered :
      (v : Value) (s s' : Gathered) → IsGathered s → gather_item py v s ≡ ok s' → IsGathered s'
  unfolding gather_item
  gather_item-IsGathered (obj fs) s s' h e =
      let (key, e1, h1) = >>=-eq-ok (normalize_api_key py (key_value fs)) _ e in
      gather-IsGathered fs key s s' (IsKey-or_nil fs key e1) h h1
  gather_item-IsGathered _ s s' h e = let same : s ≡ s' = ground arith in subst IsGathered same h

  gather_all-IsGathered :
      (vs : List Value) (s s' : Gathered)
      → IsGathered s
      → gather_all py vs s ≡ ok s'
      → IsGathered s'
  unfolding gather_all
  gather_all-IsGathered [] s s' h e = let same : s ≡ s' = ground arith in subst IsGathered same h
  gather_all-IsGathered (v ∷ vs) s s' h e =
      let (t, e1, h1) = >>=-eq-ok (gather_item py v s) _ e in
      gather_all-IsGathered vs t s' (gather_item-IsGathered v s t h e1) h1

  -- The tokens that a request gives have distinct keys in normal form, names of 1 to 100
  -- characters, and are a hundred at most.
  pub requested_tokens-AreTokens :
      (payload : Fields) (ts : List Token) → requested_tokens py payload ≡ ok ts → AreTokens ts
  unfolding requested_tokens
  requested_tokens-AreTokens payload ts e =
      let start : Gathered = record { seen = []; result = [] } in
      let (s, e1, h1) =
        >>=-eq-ok (gather_all py (token_items payload (get (codes "tokens") payload)) start) _ e in
      let same : s.result ≡ ts = ground arith in
      subst AreTokens same
        (gather_all-IsGathered (token_items payload (get (codes "tokens") payload)) start s
          IsGathered-start e1).tokens
