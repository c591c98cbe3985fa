-- ===== src/Http/Success.antt =====
-- What stands behind a successful answer to a POST request.
use sub2api_gate.Base.{
  ◌≡◌, ◌≢◌, inl, inr, refl, sym, ap, ◌∙◌, Bool, true, false, Bool-cases, Text, text_eq, codes,
  member, Result, ok, err, value_error, arith,
}
use sub2api_gate.Payload.{Value, Fields, obj, get, text_of}
use sub2api_gate.Auth.{Services, verify_request}
use sub2api_gate.Diagnostics.{sync_actions}
use sub2api_gate.Http.Answers.{Request, done, respond_error}
use sub2api_gate.Http.Dispatch.{Actions, dispatch_action}
use sub2api_gate.Http.{
  Host, State, attempt_of, answer_action, perform, choose_action, parsed, verified, authenticate,
  do_post,
}
use sub2api_gate.Http.Steps.{
  is_done, Received, action_failure_refuses, verify_failure_refuses, do_post_cases,
}

module _ (env : Services) (host : Host) {S : Type 0} (actions : Actions S) (secret : Text) where
  -- The payload that the body holds, and the listed action that ran on it with this reply.
  abbrev pub Ran :
      Request
      → Text
      → State env host actions secret
      → Value
      → State env host actions secret
      → Type 0
  Ran q body w reply after =
      (payload : Fields) × (host.json_loads body ≡ ok (obj payload))
      × (member (text_of host.python (get (codes "action") payload)) sync_actions ≡ true)
      × (dispatch_action host.python actions q.now
            (text_of host.python (get (codes "action") payload)) payload w
          ≡ (ok reply, after))

  answer_action_done :
      (q : Request) (action : Text) (r : Result Value × State env host actions secret)
      (reply : Value) (after : State env host actions secret)
      → answer_action env host actions secret q action r ≡ (done reply, after)
      → r ≡ (ok reply, after)
  unfolding answer_action
  answer_action_done q action (ok v, w) reply after h = cc
  answer_action_done q action (err raised, w) reply after h =
      absurd
        (clash (sym (action_failure_refuses q action raised w.failures) ∙ ap (λ p. is_done p.0) h))
    where
      clash : false ≢ true
      clash e = cc

  parsed_done :
      (q : Request) (body : Text) (r : Result Value) (w : State env host actions secret)
      (reply : Value) (after : State env host actions secret)
      → host.json_loads body ≡ r
      → parsed env host actions secret q r w ≡ (done reply, after)
      → Ran q body w reply after
  unfolding parsed choose_action perform respond_error
  parsed_done q body (ok (obj payload)) w reply after e h =
      elim (Bool-cases (member (text_of host.python (get (codes "action") payload)) sync_actions)) [
        | inl listed ↦ (
          payload,
          e,
          listed,
          answer_action_done q _ (dispatch_action host.python actions q.now _ payload w) reply after
              (rw listed at h),
        )
        | inr unlisted ↦ ground arith
      ]
  parsed_done q body (ok v) w reply after e h =
      let stopped : ◌≡◌ {A = Result Value × State env host actions secret}
          (err (value_error (codes "invalid payload")), w) (ok reply, after) =
        answer_action_done q (codes "unknown") (err (value_error (codes "invalid payload")), w)
          reply after h in
      cc
  parsed_done q body (err raised) w reply after e h =
      let stopped : ◌≡◌ {A = Result Value × State env host actions secret} (err raised, w)
          (ok reply, after) =
        answer_action_done q (codes "unknown") (err raised, w) reply after h in
      cc

  verified_done :
      (q : Request) (body : Text) (r : Result Bool) (w : State env host actions secret)
      (reply : Value) (after : State env host actions secret)
      → verified env host actions secret q body r w ≡ (done reply, after)
      → (r ≡ ok true) × Ran q body w reply after
  unfolding verified respond_error
  verified_done q body (ok true) w reply after h =
      (refl, parsed_done q body (host.json_loads body) w reply after refl h)
  verified_done q body (ok false) w reply after h = ground arith
  verified_done q body (err raised) w reply after h =
      absurd (clash (sym (verify_failure_refuses q raised w.failures) ∙ ap (λ p. is_done p.0) h))
    where
      clash : false ≢ true
      clash e = cc

  -- A POST request that is answered with success has the path, the media type and the length that
  -- the handler asks for, 16384 bytes at most; it was accepted by `verify_request`, its body is a JSON
  -- object that names a listed action, and the answer and the state are those of that action.
  pub do_post-succeeds :
      (q : Request) (w : State env host actions secret) (reply : Value)
      (after : State env host actions secret)
      → do_post env host actions secret q w ≡ (done reply, after)
      → (body : Text) × Received env host actions secret q body
        × ((verify_request env secret (attempt_of q body) w.nonces).0 ≡ ok true)
        × Ran q body
            (record w { nonces = (verify_request env secret (attempt_of q body) w.nonces).1 })
            reply
            after
  unfolding authenticate
  do_post-succeeds q w reply after h = elim (do_post_cases env host actions secret q w) [
    | inl (failed, same) ↦ absurd (clash (sym failed ∙ ap (λ p. is_done p.0) h))
    | inr (body, shape, is) ↦
        let (accepted, ran) = verified_done q body _ _ reply after (sym is ∙ h) in
        (body, shape, accepted, ran)
  ]
    where
      clash : false ≢ true
      clash e = cc
