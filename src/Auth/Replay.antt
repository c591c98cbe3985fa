-- ===== src/Auth/Replay.antt =====
-- A nonce outlives the window in which its timestamp is accepted, so no request passes twice.
use mathlib.Core.Path.{subst}
use sub2api_gate.Base.{
  ℕ, ◌+◌, ◌*◌, ◌≤◌, ◌<◌, ◌≡◌, ◌≢◌, true, List, [], ◌∷◌, arith, Text, decimal, ok, ap, leb→le,
}
use sub2api_gate.Auth.{
  Services, Attempt, verify_request, verify_all, claim_nonce, nonce_key, is_fresh,
  nonce_ttl_seconds,
}
use sub2api_gate.Auth.Checks.{verify_request-passes, reply_of_ok}

-- Two instants at which one timestamp is fresh are less than the nonce's life apart.
fresh_window :
    (a b : Attempt)
    → is_fresh a ≡ true
    → is_fresh b ≡ true
    → a.timestamp ≡ b.timestamp
    → b.read_at < a.read_at + nonce_ttl_seconds * 1000
unfolding is_fresh
fresh_window a b fa fb same = omega (arith, leb→le _ _ fa, leb→le _ _ fb, ap decimal same)

module _ (env : Services) (secret : Text) where
  -- Whatever a request does to the store, a key that is held stays held.
  verify_request_keeps :
      (key : Text) (later : ℕ) (a : Attempt) (s : env.Store)
      → env.holds key later s ≡ true
      → env.holds key later (verify_request env secret a s).1 ≡ true
  unfolding verify_request claim_nonce
  verify_request_keeps key later a s h =
      ground
        (arith, env.set_keeps key (nonce_key env a.nonce) nonce_ttl_seconds a.claimed_at later s h)

  verify_all_keeps :
      (key : Text) (later : ℕ) (mid : List Attempt) (s : env.Store)
      → env.holds key later s ≡ true
      → env.holds key later (verify_all env secret mid s) ≡ true
  unfolding verify_all
  verify_all_keeps key later [] s h = h
  verify_all_keeps key later (a ∷ mid) s h =
      verify_all_keeps key later mid (verify_request env secret a s).1
        (verify_request_keeps key later a s h)

  -- An accepted request holds its nonce until the life of the nonce is over.
  accepted_holds :
      (a : Attempt) (later : ℕ) (s : env.Store)
      → (verify_request env secret a s).0 ≡ ok true
      → later < a.claimed_at + nonce_ttl_seconds * 1000
      → env.holds (nonce_key env a.nonce) later (verify_request env secret a s).1 ≡ true
  unfolding verify_request claim_nonce
  accepted_holds a later s h lt =
      let claimed : (claim_nonce env a.nonce a.claimed_at s).0 ≡ ok true =
        ((verify_request-passes env secret a s).0 h).4 in
      ground (
        arith,
        env.set_holds (nonce_key env a.nonce) nonce_ttl_seconds a.claimed_at later s
            (reply_of_ok _ claimed) lt,
      )

  held_refused :
      (b : Attempt) (s : env.Store)
      → env.holds (nonce_key env b.nonce) b.claimed_at s ≡ true
      → (verify_request env secret b s).0 ≢ ok true
  unfolding claim_nonce
  held_refused b s h e =
      env.set_held (nonce_key env b.nonce) nonce_ttl_seconds b.claimed_at s h
        (reply_of_ok _ ((verify_request-passes env secret b s).0 e).4)

  -- After a request was accepted, and after any further requests, no request with the same nonce
  -- and timestamp is accepted, at any instant, if Redis runs its command with no more delay behind
  -- the reading of the clock than it had the first time.
  pub verify_request_replay :
      (a b : Attempt) (mid : List Attempt) (s : env.Store)
      → (verify_request env secret a s).0 ≡ ok true
      → a.nonce ≡ b.nonce
      → a.timestamp ≡ b.timestamp
      → b.claimed_at + a.read_at ≤ a.claimed_at + b.read_at
      → (verify_request env secret b
          (verify_all env secret mid (verify_request env secret a s).1)).0
        ≢ ok true
  verify_request_replay a b mid s accepted same_nonce same_time delay again =
      held_refused b after
        (subst (λ n. env.holds (nonce_key env n) b.claimed_at after ≡ true) same_nonce
          (verify_all_keeps (nonce_key env a.nonce) b.claimed_at mid
            (verify_request env secret a s).1
            (accepted_holds a b.claimed_at s accepted (omega (arith, window)))))
        again
    where
      after : env.Store
      after = verify_all env secret mid (verify_request env secret a s).1

      window : b.read_at < a.read_at + nonce_ttl_seconds * 1000
      window =
          fresh_window a b ((verify_request-passes env secret a s).0 accepted).2
            ((verify_request-passes env secret b after).0 again).2 same_time
