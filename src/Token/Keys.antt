-- ===== src/Token/Keys.antt =====
-- API keys in their normal form.
use sub2api_gate.Base.{
  ℕ, ◌≡◌, refl, true, false, [], ◌∷◌, ◌++◌, ◌⊎◌, inl, inr, arith, Text, codes, every, is_alnum,
  is_empty, starts_with, ok, strip, strip_visible, is_visible, is_visible_ascii, Bool-cases, length,
}
use sub2api_gate.Payload.{Python, Value, str, text_of}
use sub2api_gate.Token.{is_api_key, normalize_key, normalize_api_key}

-- A key in normal form: it is accepted, and it has the prefix.
abbrev pub IsKey : Text → Type 0
IsKey k = (is_api_key k ≡ true) × (starts_with (codes "sk-") k ≡ true)

bare_key :
    (t : Text)
    → is_api_key t ≡ true
    → starts_with (codes "sk-") t ≡ false
    → (length t ≡ 48) × (every is_alnum t ≡ true)
unfolding is_api_key
bare_key t h no_prefix = ground arith

prefixed_key :
    (t : Text) → (length t ≡ 48) × (every is_alnum t ≡ true) → is_api_key (codes "sk-" ++ t) ≡ true
unfolding is_api_key
prefixed_key t h = ground arith

pub normalize_key-IsKey : (t k : Text) → normalize_key t ≡ ok k → (is_empty k ≡ true) ⊎ IsKey k
unfolding normalize_key
normalize_key-IsKey t k h = elim (Bool-cases (is_api_key t)) [
  | inl good ↦ elim (Bool-cases (starts_with (codes "sk-") t)) [
    | inl prefix ↦ ground arith
    | inr bare ↦ ground (arith, prefixed_key t (bare_key t good bare))
  ]
  | inr bad ↦ ground arith
]

alnum_visible : (c : ℕ) → is_alnum c ≡ true → is_visible c ≡ true
alnum_visible c h = is_visible_ascii c (ground arith) (ground arith)

every_alnum_visible : (t : Text) → every is_alnum t ≡ true → every is_visible t ≡ true
every_alnum_visible [] h = refl
every_alnum_visible (c ∷ t) h = ground (arith, alnum_visible c, every_alnum_visible t)

IsKey-visible : (k : Text) → IsKey k → every is_visible k ≡ true
unfolding is_api_key
IsKey-visible [] h = refl
IsKey-visible (a ∷ []) h = absurd (ground arith)
IsKey-visible (a ∷ b ∷ []) h = absurd (ground arith)
IsKey-visible (a ∷ b ∷ c ∷ k) h =
    ground
      (arith, is_visible_ascii a, is_visible_ascii b, is_visible_ascii c, every_alnum_visible k)

normalize_key_fixed : (k : Text) → IsKey k → normalize_key k ≡ ok k
unfolding normalize_key
normalize_key_fixed [] h = cc
normalize_key_fixed (c ∷ k) h = ground arith

is_empty→nil : (t : Text) → is_empty t ≡ true → t ≡ []
is_empty→nil [] h = refl
is_empty→nil (c ∷ t) h = cc

text_of-str : (py : Python) (t : Text) → text_of py (str t) ≡ t
unfolding text_of
text_of-str py [] = refl
text_of-str py (c ∷ t) = refl

-- A value that is normalised to a key other than the empty one gives a key in normal form, and a
-- key in normal form is left as it is when it is submitted again.
pub normalize_api_key-IsKey :
    (py : Python) (value : Value) (k : Text)
    → normalize_api_key py value ≡ ok k
    → (k ≡ []) ⊎ (IsKey k × (normalize_api_key py (str k) ≡ ok k))
unfolding normalize_api_key
normalize_api_key-IsKey py value k h = elim (normalize_key-IsKey (strip (text_of py value)) k h) [
  | inl none_given ↦ inl (is_empty→nil k none_given)
  | inr key ↦ inr (
    key,
    rw (text_of-str py k, strip_visible k (IsKey-visible k key)) (normalize_key_fixed k key),
  )
]
