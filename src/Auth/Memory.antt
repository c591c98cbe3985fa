-- ===== src/Auth/Memory.antt =====
-- A store of nonces in memory that keeps to what is assumed of Redis, with toy hash functions.
use sub2api_gate.Base.{
  ℕ, zero, suc, ◌+◌, ◌*◌, ◌<◌, ◌≡◌, ◌≢◌, Bool, true, false, ◌&&◌, ◌||◌, Option, none, some, List,
  [], ◌∷◌, arith, Text, codes, ◌==◌, text_eq, ltb, if◌then◌else◌, Result, ok, text_eqb_iff,
}
use sub2api_gate.Auth.{Services}

-- Keys with the instants at which they expire.
abbrev pub holds_key : Text → ℕ → List (Text × ℕ) → Bool
holds_key key at [] = false
holds_key key at ((k, expires) ∷ s) = (k == key && ltb at expires) || holds_key key at s

abbrev pub set_key : Text → ℕ → ℕ → List (Text × ℕ) → Result (Option Text) × List (Text × ℕ)
set_key key ttl now s =
    if holds_key key now s
    then (ok none, s)
    else (ok (some (codes "OK")), (key, now + ttl * 1000) ∷ s)

abbrev pub fill : ℕ → Text
fill zero = []
fill (suc n) = b'a' ∷ fill n

pub set_key_held :
    (key : Text) (ttl now : ℕ) (s : List (Text × ℕ))
    → holds_key key now s ≡ true
    → (set_key key ttl now s).0 ≢ ok (some (codes "OK"))
set_key_held key ttl now s h e = ground arith

pub set_key_holds :
    (key : Text) (ttl now later : ℕ) (s : List (Text × ℕ))
    → (set_key key ttl now s).0 ≡ ok (some (codes "OK"))
    → later < now + ttl * 1000
    → holds_key key later (set_key key ttl now s).1 ≡ true
set_key_holds key ttl now later s h lt = ground (arith, text_eqb_iff key key)

pub set_key_keeps :
    (key other : Text) (ttl now later : ℕ) (s : List (Text × ℕ))
    → holds_key key later s ≡ true
    → holds_key key later (set_key other ttl now s).1 ≡ true
set_key_keeps key other ttl now later s h = ground arith

abbrev pub memory : Services
memory = record {
  sha256_hex = λ t. t;
  hmac_sha256_hex = λ key message. fill 64;
  Store = List (Text × ℕ);
  set_nx_ex = set_key;
  holds = holds_key;
  set_held = set_key_held;
  set_holds = set_key_holds;
  set_keeps = set_key_keeps;
}
