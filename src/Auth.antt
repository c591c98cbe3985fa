-- ===== src/Auth.antt =====
-- Request authentication of the sync service (sub2api-sync/sub2api_sync.py): `get_secret`,
-- `verify_request` and `claim_nonce`. Instants are milliseconds; `time.time()` is cut to seconds as
-- in the source. Redis and the hash functions are the parameters of `Services`.
pub mod Checks
pub mod Memory
pub mod Replay
mod Tests
use sub2api_gate.Base.{
  ℕ, suc, ◌+◌, ◌-◌, ◌*◌, ◌/◌, ◌<◌, ◌≡◌, ◌≢◌, Bool, true, false, ◌&&◌, ◌||◌, not, Option, none, some,
  List, [], ◌∷◌, ◌++◌, Text, codes, ◌==◌, nat_eq, text_eq, ltb, leb, is_digit, all_hex, every,
  length, decimal, if◌then◌else◌, Raised, runtime_error, Result, ok, err,
}

abbrev pub signature_max_skew_seconds : ℕ
signature_max_skew_seconds = 300

abbrev pub nonce_ttl_seconds : ℕ
nonce_ttl_seconds = signature_max_skew_seconds * 2 + 1

-- What `hashlib`, `hmac` and the Redis server give. `set_nx_ex key ttl now` is the command
-- `SET key 1 NX EX ttl`, run by the server at the instant `now`; its reply is `none` where the key
-- was not set. `holds` says whether a key exists at an instant if no later command touches it.
pub record Services : Type 1 where
  pub sha256_hex : Text → Text
  pub hmac_sha256_hex : Text → Text → Text
  pub Store : Type 0
  pub set_nx_ex : Text → ℕ → ℕ → Store → Result (Option Text) × Store
  pub holds : Text → ℕ → Store → Bool
  -- NX: a key that exists is not set.
  pub set_held :
      (key : Text) (ttl now : ℕ) (s : Store)
      → holds key now s ≡ true
      → (set_nx_ex key ttl now s).0 ≢ ok (some (codes "OK"))
  -- EX: a key that was set exists until its seconds are over.
  pub set_holds :
      (key : Text) (ttl now later : ℕ) (s : Store)
      → (set_nx_ex key ttl now s).0 ≡ ok (some (codes "OK"))
      → later < now + ttl * 1000
      → holds key later (set_nx_ex key ttl now s).1 ≡ true
  -- No such command removes a key or shortens its life.
  pub set_keeps :
      (key other : Text) (ttl now later : ℕ) (s : Store)
      → holds key later s ≡ true
      → holds key later (set_nx_ex other ttl now s).1 ≡ true

-- One signed request, with the instant at which the service reads its clock and the instant at
-- which Redis runs the command.
pub record Attempt : Type 0 where
  pub read_at : ℕ
  pub claimed_at : ℕ
  pub timestamp : Text
  pub nonce : Text
  pub signature : Text
  pub body : Text

-- `[1-9][0-9]{9,12}`
unfoldable pub is_timestamp : Text → Bool
is_timestamp [] = false
is_timestamp (c ∷ t) =
    leb b'1' c && leb c b'9' && every is_digit t && leb 9 (length t) && leb (length t) 12

-- `[0-9a-f]{n}`
unfoldable pub is_hex : ℕ → Text → Bool
is_hex n t = every all_hex t && length t == n

-- `abs(a - b)`
abbrev pub distance : ℕ → ℕ → ℕ
distance a b = (a - b) + (b - a)

-- `get_secret`, of the environment variable's value.
unfoldable pub get_secret : Text → Result Text
get_secret secret =
    if ltb (length secret) 32
    then err (runtime_error (codes "SUB2API_SYNC_SECRET must be at least 32 characters"))
    else ok secret

abbrev pub signed_message : Attempt → Text
signed_message a = a.timestamp ++ (codes "." ++ (a.nonce ++ (codes "." ++ a.body)))

abbrev pub is_ok_reply : Result (Option Text) → Result Bool
is_ok_reply (err e) = err e
is_ok_reply (ok none) = ok false
is_ok_reply (ok (some reply)) = ok (reply == codes "OK")

-- The three patterns.
unfoldable pub is_well_formed : Attempt → Bool
is_well_formed a = is_timestamp a.timestamp && is_hex 32 a.nonce && is_hex 64 a.signature

unfoldable pub is_fresh : Attempt → Bool
is_fresh a = leb (distance (a.read_at / 1000) (decimal a.timestamp)) signature_max_skew_seconds

module _ (env : Services) where
  open env use {sha256_hex, hmac_sha256_hex, Store, set_nx_ex}

  pub nonce_key : Text → Text
  nonce_key nonce = codes "sub2api-sync:nonce:" ++ sha256_hex nonce

  unfoldable pub claim_nonce : Text → ℕ → Store → Result Bool × Store
  claim_nonce nonce now s =
      let (reply, s') = set_nx_ex (nonce_key nonce) nonce_ttl_seconds now s in
      (is_ok_reply reply, s')

  unfoldable pub is_signed : Text → Attempt → Bool
  is_signed secret a = hmac_sha256_hex secret (signed_message a) == a.signature

  verify_with : Text → Attempt → Store → Result Bool × Store
  verify_with secret a s =
      if not (is_well_formed a)
      then (ok false, s)
      else if not (is_fresh a)
      then (ok false, s)
      else if not (is_signed secret a)
      then (ok false, s)
      else claim_nonce a.nonce a.claimed_at s

  unfoldable pub verify_request : Text → Attempt → Store → Result Bool × Store
  unfolding verify_with get_secret
  verify_request secret a s = elim (get_secret secret) [
    | err e ↦ (err e, s)
    | ok key ↦ verify_with key a s
  ]

  -- The store after a row of requests, whatever became of each.
  unfoldable pub verify_all : Text → List Attempt → Store → Store
  verify_all secret [] s = s
  verify_all secret (a ∷ rest) s = verify_all secret rest (verify_request secret a s).1
