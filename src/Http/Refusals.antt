-- ===== src/Http/Refusals.antt =====
-- The table of error answers: which status may be retried, and which headers come with it.
use sub2api_gate.Base.{
  ℕ, ◌≡◌, inl, inr, refl, Bool, true, false, ◌&&◌, ◌||◌, Bool-cases, Option, none, some, List, [],
  ◌∷◌, ◌==◌, nat_eq, Text, text_eq, codes, member, length, if◌then◌else◌, arith, Raised, json_error,
  value_error, timeout, url_error, os_error, runtime_error, database_error, other, Result, ok, err,
  ℤ, pos, negsuc,
}
use sub2api_gate.Payload.{Value, obj, get, text_of}
use sub2api_gate.Auth.{Services, verify_request}
use sub2api_gate.Diagnostics.{Entry, sync_actions}
use sub2api_gate.Http.Answers.{
  Request, Refusal, Answer, done, refused, dropped, shown_action, respond_error, not_found,
  method_not_allowed, action_failure, verify_failure, post_elsewhere, value_failure, url_failure,
  runtime_failure, database_failure, respond_action_failure, login_failure, conflict, unavailable,
}
use sub2api_gate.Http.Dispatch.{Actions, dispatch_action}
use sub2api_gate.Http.{
  Host, State, answer_action, perform, choose_action, parsed, verified, authenticate, received,
  sized, measured, do_post, attempt_of,
}

-- A status that says "try again" by itself, and 502, which may say either.
abbrev pub may_retry : ℕ → Bool
may_retry status = member status (408 ∷ 429 ∷ 502 ∷ 503 ∷ 504 ∷ [])

abbrev pub may_not_retry : ℕ → Bool
may_not_retry status =
    member status (400 ∷ 401 ∷ 404 ∷ 405 ∷ 409 ∷ 411 ∷ 413 ∷ 415 ∷ 500 ∷ 502 ∷ [])

abbrev is_none {ℓ} : {A : Type ℓ} → Option A → Bool
is_none none = true
is_none (some a) = false

abbrev pub is_listed : Option Text → Bool
is_listed none = true
is_listed (some action) = member action sync_actions

-- The status fits `retryable`; `retry-after` comes only with a retryable one, `allow` only with 405,
-- and an action that is named is a listed one.
abbrev pub is_consistent : ℕ → Refusal → Bool
is_consistent status refusal =
    (if refusal.retryable then may_retry status else may_not_retry status)
    && (is_none refusal.retry_after || refusal.retryable)
    && (is_none refusal.allow || status == 405)
    && is_listed refusal.action

abbrev pub answer_is_consistent : Answer → Bool
answer_is_consistent (done reply) = true
answer_is_consistent (refused status refusal) = is_consistent status refusal
answer_is_consistent dropped = true

abbrev pub IsConsistent : Answer → Type 0
IsConsistent answer = answer_is_consistent answer ≡ true

shown_action_listed : (action : Option Text) → is_listed (shown_action action) ≡ true
unfolding shown_action
shown_action_listed none = refl
shown_action_listed (some action) = elim (Bool-cases (member action sync_actions)) [
  | inl listed ↦ rw listed listed
  | inr unlisted ↦ rw unlisted refl
]

module _ (q : Request) where
  action_failure-IsConsistent :
      (action : Text) (raised : Raised) (ring : List Entry)
      → IsConsistent (action_failure q action raised ring).0
  unfolding action_failure value_failure url_failure runtime_failure database_failure conflict
      unavailable respond_action_failure login_failure respond_error
  action_failure-IsConsistent action json_error ring = ground (arith, shown_action_listed none)
  action_failure-IsConsistent action (value_error message) ring =
      ground (arith, shown_action_listed (some action))
  action_failure-IsConsistent action timeout ring =
      ground (arith, shown_action_listed (some action))
  action_failure-IsConsistent action (url_error true) ring =
      ground (arith, shown_action_listed (some action))
  action_failure-IsConsistent action (url_error false) ring =
      ground (arith, shown_action_listed (some action))
  action_failure-IsConsistent action (runtime_error code) ring =
      ground (arith, shown_action_listed (some action))
  action_failure-IsConsistent action (database_error none) ring =
      ground (arith, shown_action_listed (some action))
  action_failure-IsConsistent action (database_error (some t)) ring =
      ground (arith, shown_action_listed (some action))
  action_failure-IsConsistent action os_error ring =
      ground (arith, shown_action_listed (some action))
  action_failure-IsConsistent action other ring = ground (arith, shown_action_listed (some action))

  verify_failure-IsConsistent :
      (raised : Raised) (ring : List Entry) → IsConsistent (verify_failure q raised ring).0
  unfolding verify_failure unavailable respond_error shown_action
  verify_failure-IsConsistent timeout ring = refl
  verify_failure-IsConsistent json_error ring = refl
  verify_failure-IsConsistent (value_error message) ring = refl
  verify_failure-IsConsistent other ring = refl
  verify_failure-IsConsistent os_error ring = refl
  verify_failure-IsConsistent (url_error b) ring = refl
  verify_failure-IsConsistent (runtime_error code) ring = refl
  verify_failure-IsConsistent (database_error t) ring = refl

  post_elsewhere-IsConsistent : IsConsistent (post_elsewhere q)
  unfolding post_elsewhere not_found method_not_allowed respond_error shown_action
  post_elsewhere-IsConsistent = ground arith

module _ (env : Services) (host : Host) {S : Type 0} (actions : Actions S) (secret : Text) where
  answer_action-IsConsistent :
      (q : Request) (action : Text) (r : Result Value × State env host actions secret)
      → IsConsistent (answer_action env host actions secret q action r).0
  unfolding answer_action
  answer_action-IsConsistent q action (ok v, w) = refl
  answer_action-IsConsistent q action (err raised, w) =
      action_failure-IsConsistent q action raised w.failures

  parsed-IsConsistent :
      (q : Request) (r : Result Value) (w : State env host actions secret)
      → IsConsistent (parsed env host actions secret q r w).0
  unfolding parsed choose_action perform respond_error shown_action
  parsed-IsConsistent q (ok (obj payload)) w =
      elim (Bool-cases (member (text_of host.python (get (codes "action") payload)) sync_actions)) [
        | inl listed ↦ rw listed (
            answer_action-IsConsistent q (text_of host.python (get (codes "action") payload))
              (dispatch_action host.python actions q.now _ payload w))
        | inr unlisted ↦ rw unlisted refl
      ]
  parsed-IsConsistent q (ok v) w =
      answer_action-IsConsistent q (codes "unknown")
        (err (value_error (codes "invalid payload")), w)
  parsed-IsConsistent q (err raised) w =
      answer_action-IsConsistent q (codes "unknown") (err raised, w)

  verified-IsConsistent :
      (q : Request) (body : Text) (r : Result Bool) (w : State env host actions secret)
      → IsConsistent (verified env host actions secret q body r w).0
  unfolding verified respond_error shown_action
  verified-IsConsistent q body (ok true) w = parsed-IsConsistent q (host.json_loads body) w
  verified-IsConsistent q body (ok false) w = refl
  verified-IsConsistent q body (err raised) w = verify_failure-IsConsistent q raised w.failures

  received-IsConsistent :
      (q : Request) (n : ℕ) (r : Result Text) (w : State env host actions secret)
      → IsConsistent (received env host actions secret q n r w).0
  unfolding received authenticate respond_error shown_action
  received-IsConsistent q n (ok body) w = elim (Bool-cases (length body == n)) [
    | inl whole ↦ rw whole (
        let (result, nonces) = verify_request env secret (attempt_of q body) w.nonces in
        verified-IsConsistent q body result (record w { nonces = nonces }))
    | inr part ↦ rw part refl
  ]
  received-IsConsistent q n (err timeout) w = refl
  received-IsConsistent q n (err json_error) w = refl
  received-IsConsistent q n (err (value_error t)) w = refl
  received-IsConsistent q n (err (url_error t)) w = refl
  received-IsConsistent q n (err os_error) w = refl
  received-IsConsistent q n (err (runtime_error t)) w = refl
  received-IsConsistent q n (err (database_error t)) w = refl
  received-IsConsistent q n (err other) w = refl

  sized-IsConsistent :
      (q : Request) (r : Option ℤ) (w : State env host actions secret)
      → IsConsistent (sized env host actions secret q r w).0
  unfolding sized respond_error shown_action
  sized-IsConsistent q none w = refl
  sized-IsConsistent q (some (negsuc n)) w = refl
  sized-IsConsistent q (some (pos n)) w = ground (arith, received-IsConsistent q n (q.read n) w)

  measured-IsConsistent :
      (q : Request) (o : Option Text) (w : State env host actions secret)
      → IsConsistent (measured env host actions secret q o w).0
  unfolding measured respond_error shown_action
  measured-IsConsistent q none w = refl
  measured-IsConsistent q (some raw) w = sized-IsConsistent q (host.int_of raw) w

  -- Whatever a POST request is and the dependencies do, an error answer is consistent: it calls
  -- itself retryable only with 408, 429, 502, 503 or 504, and not retryable only with 400, 401, 404,
  -- 405, 409, 411, 413, 415, 500 or 502; it has `retry-after` only where it is retryable and `allow`
  -- only with 405, and names no action but a listed one.
  pub do_post-IsConsistent :
      (q : Request) (w : State env host actions secret)
      → IsConsistent (do_post env host actions secret q w).0
  unfolding do_post respond_error shown_action
  do_post-IsConsistent q w =
      ground (arith, post_elsewhere-IsConsistent q, measured-IsConsistent q q.content_length w)
