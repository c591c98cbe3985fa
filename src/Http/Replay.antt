-- ===== src/Http/Replay.antt =====
-- A signed POST request takes effect once.
use sub2api_gate.Base.{
  ◌+◌, ◌≤◌, ◌≡◌, ◌≢◌, ◌⊎◌, inl, inr, refl, sym, ap, ◌∙◌, Bool, true, false, List, [], ◌∷◌, Text,
  Result, ok, err,
}
use sub2api_gate.Auth.{Services, Attempt, verify_request, verify_all}
use sub2api_gate.Auth.Replay.{verify_request_replay}
use sub2api_gate.Http.Answers.{Request}
use sub2api_gate.Http.Dispatch.{Actions}
use sub2api_gate.Http.{Host, State, attempt_of, authenticate, do_post}
use sub2api_gate.Http.Steps.{is_done, authenticate-nonces, authenticate_refused, do_post_cases}

true_not_false : true ≢ false
true_not_false e = cc

module _ (env : Services) (host : Host) {S : Type 0} (actions : Actions S) (secret : Text) where
  -- The state after a row of POST requests, whatever each was answered.
  abbrev pub post_all : List Request → State env host actions secret → State env host actions secret
  post_all [] w = w
  post_all (q ∷ qs) w = post_all qs (do_post env host actions secret q w).1

  -- The nonces after any POST requests are those after some attempts to verify.
  post_all_attempts :
      (qs : List Request) (w : State env host actions secret)
      → (mid : List Attempt) × ((post_all qs w).nonces ≡ verify_all env secret mid w.nonces)
  unfolding verify_all
  post_all_attempts [] w = ([], refl)
  post_all_attempts (q ∷ qs) w =
      let (mid, e) = post_all_attempts qs (do_post env host actions secret q w).1 in
      elim (do_post_cases env host actions secret q w) [
        | inl (failed, same) ↦ (mid, e ∙ ap (λ v. verify_all env secret mid v.nonces) same)
        | inr (body, shape, is) ↦ (
          attempt_of q body ∷ mid,
          e
              ∙ ap (λ r. verify_all env secret mid r.1.nonces) is
              ∙ ap (verify_all env secret mid)
                  (authenticate-nonces env host actions secret q body w),
        )
      ]

  accepted_or_not : (r : Result Bool) → (r ≡ ok true) ⊎ (r ≢ ok true)
  accepted_or_not (ok true) = inl refl
  accepted_or_not (ok false) = inr (λ e. cc)
  accepted_or_not (err raised) = inr (λ e. cc)

  -- A request answered with success was accepted, whatever its body.
  done_accepted :
      (q : Request) (w : State env host actions secret)
      → is_done (do_post env host actions secret q w).0 ≡ true
      → (body : Text) × (do_post env host actions secret q w
          ≡ authenticate env host actions secret q body w)
        × ((verify_request env secret (attempt_of q body) w.nonces).0 ≡ ok true)
  done_accepted q w h = elim (do_post_cases env host actions secret q w) [
    | inl (failed, same) ↦ cc
    | inr (body, shape, is) ↦
        elim (accepted_or_not (verify_request env secret (attempt_of q body) w.nonces).0) [
          | inl accepted ↦ (body, is, accepted)
          | inr denied ↦
              let (failed, same) = authenticate_refused env host actions secret q body w denied in
              absurd (true_not_false (sym h ∙ ap (λ r. is_done r.0) is ∙ failed))
        ]
  ]

  -- After a POST request was answered with success, and after any further ones, a POST request with
  -- the same nonce and timestamp is not answered with success and changes no data, whatever its body
  -- and at any instant, if Redis runs its command with no more delay behind the reading of the clock
  -- than it had the first time.
  pub do_post_replay :
      (q r : Request) (between : List Request) (w : State env host actions secret)
      → is_done (do_post env host actions secret q w).0 ≡ true
      → q.nonce ≡ r.nonce
      → q.timestamp ≡ r.timestamp
      → r.claimed_at + q.read_at ≤ q.claimed_at + r.read_at
      → (is_done
            (do_post env host actions secret r
              (post_all between (do_post env host actions secret q w).1)).0
          ≡ false)
        × ((do_post env host actions secret r
              (post_all between (do_post env host actions secret q w).1)).1.data_of
            ≡ (post_all between (do_post env host actions secret q w).1).data_of)
  unfolding attempt_of
  do_post_replay q r between w h same_nonce same_time delay =
      let (body, is, accepted) = done_accepted q w h in
      let (mid, e) = post_all_attempts between (do_post env host actions secret q w).1 in
      let nonces : after.nonces
          ≡ verify_all env secret mid (verify_request env secret (attempt_of q body) w.nonces).1 =
        e
        ∙ ap (λ p. verify_all env secret mid p.1.nonces) is
        ∙ ap (verify_all env secret mid) (authenticate-nonces env host actions secret q body w) in
      elim (do_post_cases env host actions secret r after) [
        | inl (failed, same) ↦ (failed, ap (λ v. v.data_of) same)
        | inr (body', shape, is') ↦
            let (failed, same) =
              authenticate_refused env host actions secret r body' after (λ again.
                verify_request_replay env secret (attempt_of q body) (attempt_of r body') mid
                  w.nonces accepted same_nonce same_time delay
                  (sym (ap (λ n. (verify_request env secret (attempt_of r body') n).0) nonces)
                    ∙ again)) in
            (ap (λ p. is_done p.0) is' ∙ failed, ap (λ p. p.1.data_of) is' ∙ same)
      ]
    where
      after : State env host actions secret
      after = post_all between (do_post env host actions secret q w).1
