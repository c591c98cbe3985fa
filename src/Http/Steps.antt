-- ===== src/Http/Steps.antt =====
-- The handler of POST requests seen as two steps: what happens before a request is authenticated
-- changes nothing, and what happens after keeps the nonces.
use sub2api_gate.Base.{
  ℕ, ◌≤◌, ◌≡◌, ◌≢◌, ◌⊎◌, inl, inr, refl, sym, ap, ◌∙◌, Bool, true, false, Bool-cases, Option, none,
  some, List, nat_eq, text_eq, Text, codes, ◌==◌, member, length, ltb, arith, ℤ, pos, negsuc,
  Raised, json_error, value_error, timeout, url_error, os_error, runtime_error, database_error,
  other, Result, ok, err, nat_eqb_iff, text_eqb_iff,
}
use sub2api_gate.Payload.{Value, Fields, obj, get, text_of}
use sub2api_gate.Auth.{Services, verify_request}
use sub2api_gate.Diagnostics.{Entry, sync_actions}
use sub2api_gate.Http.Answers.{
  Request, Answer, done, refused, dropped, respond_error, not_found, method_not_allowed,
  action_failure, verify_failure, post_elsewhere, value_failure, url_failure, runtime_failure,
  database_failure, respond_action_failure, login_failure, conflict, unavailable,
}
use sub2api_gate.Http.Dispatch.{Actions, run, diagnostics, dispatch_action}
use sub2api_gate.Http.{
  Host, State, attempt_of, answer_action, perform, choose_action, parsed, verified, authenticate,
  received, sized, measured, media_type, do_post, max_body_bytes,
}

abbrev pub is_done : Answer → Bool
is_done (done v) = true
is_done (refused status refusal) = false
is_done dropped = false

-- No `except` clause answers with success.
pub action_failure_refuses :
    (q : Request) (action : Text) (raised : Raised) (ring : List Entry)
    → is_done (action_failure q action raised ring).0 ≡ false
unfolding action_failure value_failure url_failure runtime_failure database_failure
    respond_action_failure login_failure conflict unavailable respond_error
action_failure_refuses q action json_error ring = refl
action_failure_refuses q action (value_error message) ring = ground arith
action_failure_refuses q action timeout ring = refl
action_failure_refuses q action (url_error true) ring = refl
action_failure_refuses q action (url_error false) ring = refl
action_failure_refuses q action os_error ring = refl
action_failure_refuses q action (runtime_error code) ring = ground arith
action_failure_refuses q action (database_error none) ring = refl
action_failure_refuses q action (database_error (some t)) ring = ground arith
action_failure_refuses q action other ring = refl

pub verify_failure_refuses :
    (q : Request) (raised : Raised) (ring : List Entry)
    → is_done (verify_failure q raised ring).0 ≡ false
unfolding verify_failure unavailable respond_error
verify_failure_refuses q timeout ring = refl
verify_failure_refuses q json_error ring = refl
verify_failure_refuses q (value_error message) ring = refl
verify_failure_refuses q other ring = refl
verify_failure_refuses q os_error ring = refl
verify_failure_refuses q (url_error b) ring = refl
verify_failure_refuses q (runtime_error code) ring = refl
verify_failure_refuses q (database_error t) ring = refl

module _ (env : Services) (host : Host) {S : Type 0} (actions : Actions S) (secret : Text) where
  answer_action-nonces :
      (q : Request) (action : Text) (r : Result Value) (w : State env host actions secret)
      → (answer_action env host actions secret q action (r, w)).1.nonces ≡ w.nonces
  unfolding answer_action
  answer_action-nonces q action (ok v) w = refl
  answer_action-nonces q action (err raised) w = refl

  dispatch_action-nonces :
      (now : ℕ) (action : Text) (payload : Fields) (w : State env host actions secret)
      → (dispatch_action host.python actions now action payload w).1.nonces ≡ w.nonces
  unfolding dispatch_action run diagnostics
  dispatch_action-nonces now action payload w = ground arith

  perform-nonces :
      (q : Request) (action : Text) (payload : Fields) (w : State env host actions secret)
      → (perform env host actions secret q action payload w).1.nonces ≡ w.nonces
  unfolding perform
  perform-nonces q action payload w =
      let (r, after) = dispatch_action host.python actions q.now action payload w in
      answer_action-nonces q action r after ∙ dispatch_action-nonces q.now action payload w

  parsed-nonces :
      (q : Request) (r : Result Value) (w : State env host actions secret)
      → (parsed env host actions secret q r w).1.nonces ≡ w.nonces
  unfolding parsed choose_action
  parsed-nonces q (ok (obj payload)) w =
      elim (Bool-cases (member (text_of host.python (get (codes "action") payload)) sync_actions)) [
        | inl listed ↦ rw listed (perform-nonces q _ payload w)
        | inr unlisted ↦ rw unlisted refl
      ]
  parsed-nonces q (ok v) w =
      answer_action-nonces q (codes "unknown") (err (value_error (codes "invalid payload"))) w
  parsed-nonces q (err raised) w = answer_action-nonces q (codes "unknown") (err raised) w

  verified-nonces :
      (q : Request) (body : Text) (r : Result Bool) (w : State env host actions secret)
      → (verified env host actions secret q body r w).1.nonces ≡ w.nonces
  unfolding verified
  verified-nonces q body (ok true) w = parsed-nonces q (host.json_loads body) w
  verified-nonces q body (ok false) w = refl
  verified-nonces q body (err raised) w = refl

  -- The nonces after an authenticated request are those that `verify_request` left.
  pub authenticate-nonces :
      (q : Request) (body : Text) (w : State env host actions secret)
      → (authenticate env host actions secret q body w).1.nonces
        ≡ (verify_request env secret (attempt_of q body) w.nonces).1
  unfolding authenticate
  authenticate-nonces q body w = verified-nonces q body _ _

  verified_refused :
      (q : Request) (body : Text) (r : Result Bool) (w : State env host actions secret)
      → r ≢ ok true
      → (is_done (verified env host actions secret q body r w).0 ≡ false)
        × ((verified env host actions secret q body r w).1.data_of ≡ w.data_of)
  unfolding verified respond_error
  verified_refused q body (ok true) w denied = absurd (denied refl)
  verified_refused q body (ok false) w denied = (refl, refl)
  verified_refused q body (err raised) w denied = (verify_failure_refuses q raised w.failures, refl)

  -- A request that is not accepted is not answered with success, and no data changes.
  pub authenticate_refused :
      (q : Request) (body : Text) (w : State env host actions secret)
      → (verify_request env secret (attempt_of q body) w.nonces).0 ≢ ok true
      → (is_done (authenticate env host actions secret q body w).0 ≡ false)
        × ((authenticate env host actions secret q body w).1.data_of ≡ w.data_of)
  unfolding authenticate
  authenticate_refused q body w denied = verified_refused q body _ _ denied

  -- The request has the shape that the handler asks for before it authenticates it.
  pub record Received (q : Request) (body : Text) : Type 0 where
    pub path : q.path ≡ codes "/provision"
    pub media : media_type env host actions secret q ≡ codes "application/json"
    pub length_given :
        (raw : Text) × (q.content_length ≡ some raw) × (host.int_of raw ≡ some (pos (length body)))
    pub nonempty : 1 ≤ length body
    pub small : length body ≤ max_body_bytes
    pub read_whole : q.read (length body) ≡ ok body

  -- What `do_POST` does with a request: it answers an error and leaves the state as it is, or
  -- authenticates a request of the required shape.
  abbrev pub Stopped :
      Request → State env host actions secret → Answer × State env host actions secret → Type 0
  Stopped q w result = (is_done result.0 ≡ false) × (result.1 ≡ w)

  received_cases :
      (q : Request) (n : ℕ) (r : Result Text) (w : State env host actions secret)
      → Stopped q w (received env host actions secret q n r w)
        ⊎ ((body : Text) × (r ≡ ok body)
            × (length body ≡ n)
            × (received env host actions secret q n r w
                ≡ authenticate env host actions secret q body w))
  unfolding received respond_error
  received_cases q n (ok body) w = elim (Bool-cases (length body == n)) [
    | inl whole ↦ rw whole (inr (body, refl, (nat_eqb_iff (length body) n).0 whole, refl))
    | inr part ↦ rw part (inl (refl, refl))
  ]
  received_cases q n (err timeout) w = inl (refl, refl)
  received_cases q n (err json_error) w = inl (refl, refl)
  received_cases q n (err (value_error t)) w = inl (refl, refl)
  received_cases q n (err (url_error t)) w = inl (refl, refl)
  received_cases q n (err os_error) w = inl (refl, refl)
  received_cases q n (err (runtime_error t)) w = inl (refl, refl)
  received_cases q n (err (database_error t)) w = inl (refl, refl)
  received_cases q n (err other) w = inl (refl, refl)

  sized_cases :
      (q : Request) (r : Option ℤ) (w : State env host actions secret)
      → Stopped q w (sized env host actions secret q r w)
        ⊎ ((body : Text) × (r ≡ some (pos (length body)))
            × (1 ≤ length body)
            × (length body ≤ max_body_bytes)
            × (q.read (length body) ≡ ok body)
            × (sized env host actions secret q r w ≡ authenticate env host actions secret q body w))
  unfolding sized respond_error
  sized_cases q none w = inl (refl, refl)
  sized_cases q (some (negsuc n)) w = inl (refl, refl)
  sized_cases q (some (pos n)) w = elim (Bool-cases (n == 0)) [
    | inl zero_length ↦ rw zero_length (inl (refl, refl))
    | inr positive ↦ elim (Bool-cases (ltb max_body_bytes n)) [
      | inl large ↦ rw (positive, large) (inl (refl, refl))
      | inr small ↦ elim (received_cases q n (q.read n) w) [
        | inl stopped ↦ rw (positive, small) (inl stopped)
        | inr (body, whole, same, e) ↦
            rw (positive, small)
              (inr (
                body,
                ap (λ m. some (pos m)) (sym same),
                ground arith,
                ground arith,
                ap q.read same ∙ whole,
                e,
              ))
      ]
    ]
  ]

  measured_cases :
      (q : Request) (o : Option Text) (w : State env host actions secret)
      → Stopped q w (measured env host actions secret q o w)
        ⊎ ((body : Text) × ((raw : Text) × (o ≡ some raw)
              × (host.int_of raw ≡ some (pos (length body))))
            × (1 ≤ length body)
            × (length body ≤ max_body_bytes)
            × (q.read (length body) ≡ ok body)
            × (measured env host actions secret q o w
                ≡ authenticate env host actions secret q body w))
  unfolding measured respond_error
  measured_cases q none w = inl (refl, refl)
  measured_cases q (some raw) w = elim (sized_cases q (host.int_of raw) w) [
    | inl stopped ↦ inl stopped
    | inr (body, number, nonempty, small, whole, e) ↦
        inr (body, (raw, refl, number), nonempty, small, whole, e)
  ]

  pub do_post_cases :
      (q : Request) (w : State env host actions secret)
      → Stopped q w (do_post env host actions secret q w)
        ⊎ ((body : Text) × Received q body
            × (do_post env host actions secret q w ≡ authenticate env host actions secret q body w))
  unfolding do_post measured respond_error post_elsewhere not_found method_not_allowed
  do_post_cases q w = elim (Bool-cases (q.path == codes "/provision")) [
    | inr elsewhere ↦ rw elsewhere (inl (ground arith, refl))
    | inl path ↦
        elim (Bool-cases (media_type env host actions secret q == codes "application/json")) [
          | inr media ↦ rw (path, media) (inl (refl, refl))
          | inl media ↦ elim (measured_cases q q.content_length w) [
            | inl stopped ↦ rw (path, media) (inl stopped)
            | inr (body, given, nonempty, small, whole, e) ↦
                rw (path, media)
                  (inr (
                    body,
                    record {
                      path = (text_eqb_iff q.path (codes "/provision")).0 path;
                      media = (text_eqb_iff _ (codes "application/json")).0 media;
                      length_given = given;
                      nonempty = nonempty;
                      small = small;
                      read_whole = whole;
                    },
                    e,
                  ))
          ]
        ]
  ]
