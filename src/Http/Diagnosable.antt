-- ===== src/Http/Diagnosable.antt =====
-- An answer that a dependency is unavailable can be looked up by its request number.
use mathlib.Core.Path.{subst}
use sub2api_gate.Base.{
  ℕ, ◌≡◌, ◌≢◌, inl, inr, refl, sym, ap, ◌∙◌, Bool, true, false, not, Bool-cases, Option, none, some,
  List, [], ◌∷◌, Text, text_eq, codes, ◌==◌, member, arith, Raised, json_error, value_error,
  timeout, url_error, os_error, runtime_error, database_error, other, Result, ok, err, length, ltb,
  nat_eq, ℤ, pos, negsuc, if◌then◌else◌,
}
use sub2api_gate.Payload.{Python, Value, str, obj, get, text_of}
use sub2api_gate.Auth.{Services, verify_request}
use sub2api_gate.Diagnostics.{
  Entry, sync_actions, is_request_id, record_failure_diagnostic, failure_diagnostic, reported,
  new_entry,
}
use sub2api_gate.Diagnostics.Ring.{Failure, entry_of, record_one}
use sub2api_gate.Diagnostics.Found.{failure_diagnostic-record}
use sub2api_gate.Http.Answers.{
  Request, Refusal, Answer, done, refused, dropped, request_id, respond_error, action_failure,
  unavailable, verify_failure, value_failure, url_failure, runtime_failure, database_failure,
  respond_action_failure, login_failure, conflict, post_elsewhere, not_found, method_not_allowed,
}
use sub2api_gate.Http.Dispatch.{Actions, dispatch_action}
use sub2api_gate.Http.{
  Host, State, attempt_of, answer_action, perform, choose_action, parsed, verified, authenticate,
  received, sized, measured, media_type, max_body_bytes, do_post,
}

-- The request number that an answer carries.
abbrev number_of : Answer → Text
number_of (done reply) = []
number_of (refused status refusal) = refusal.request_id
number_of dropped = []

abbrev status_of : Answer → ℕ
status_of (done reply) = 200
status_of (refused status refusal) = status
status_of dropped = 0

-- The last thing done to the deque was to record a failure of the request.
abbrev Recorded : Request → List Entry → Type 0
Recorded q ring =
    (f : Failure) × (before : List Entry) × (f.request_id ≡ request_id q)
    × (f.now ≡ q.now)
    × (ring ≡ record_one f before)

record Explained (q : Request) (answer : Answer) (ring : List Entry) : Type 0 where
  explains : status_of answer ≡ 503 → Recorded q ring
  numbered : status_of answer ≡ 503 → number_of answer ≡ request_id q

module _ (q : Request) where
  recorded :
      (action category : Text) (sqlstate : Option Text) (ring : List Entry)
      → Recorded q (record_failure_diagnostic q.now (request_id q) action category sqlstate ring)
  recorded action category sqlstate ring = (
    record {
      now = q.now;
      request_id = request_id q;
      action = action;
      category = category;
      sqlstate = sqlstate;
    },
    ring,
    refl,
    refl,
    refl,
  )

  login_failure_status : (action code : Text) → status_of (login_failure q action code) ≢ 503
  unfolding login_failure respond_error respond_action_failure
  login_failure_status action code h = ground arith

  value_failure_status : (action message : Text) → status_of (value_failure q action message) ≢ 503
  unfolding value_failure respond_error
  value_failure_status action message h = ground arith

  silent : (answer : Answer) (ring : List Entry) → status_of answer ≢ 503 → Explained q answer ring
  silent answer ring other_status = record {
    explains = λ h. absurd (other_status h);
    numbered = λ h. absurd (other_status h);
  }

  either :
      (b : Bool) (x y : Answer × List Entry)
      → Explained q x.0 x.1
      → Explained q y.0 y.1
      → Explained q (if b then x else y).0 (if b then x else y).1
  either true x y h k = h
  either false x y h k = k

  runtime_failure-Explained :
      (action code : Text) (ring : List Entry)
      → Explained q (runtime_failure q action code ring).0 (runtime_failure q action code ring).1
  unfolding runtime_failure conflict unavailable respond_error
  runtime_failure-Explained action code ring =
      either (code == codes "invite_identity_mismatch") _ _ (silent _ _ (λ h. omega (arith, h))) (
        either (member code (codes "email_conflict" ∷ codes "api_key_conflict" ∷ [])) _ _
          (silent _ _ (λ h. omega (arith, h)))
          (either
            (member code
              (codes "database_command_failed" ∷ codes "database_configuration_invalid" ∷ []))
            _ _
            (record {
              explains = λ h. recorded action (codes "database_unavailable") none ring;
              numbered = λ h. refl;
            })
            (silent _ _ (login_failure_status action code))))

  database_failure-Explained :
      (action : Text) (sqlstate : Option Text) (ring : List Entry)
      → Explained q
          (database_failure q action sqlstate ring).0
          (database_failure q action sqlstate ring).1
  unfolding database_failure unavailable conflict respond_error
  database_failure-Explained action none ring = record {
    explains = λ h. recorded action (codes "database_error") none ring;
    numbered = λ h. refl;
  }
  database_failure-Explained action (some t) ring =
      either (t == codes "23505") _ _
        (record {
          explains = λ h. recorded action (codes "database_error") (some t) ring;
          numbered = λ h. refl;
        })
        (record {
          explains = λ h. recorded action (codes "database_error") (some t) ring;
          numbered = λ h. refl;
        })

  action_failure-Explained :
      (action : Text) (raised : Raised) (ring : List Entry)
      → Explained q (action_failure q action raised ring).0 (action_failure q action raised ring).1
  unfolding action_failure url_failure respond_error respond_action_failure
  action_failure-Explained action json_error ring = silent _ _ (λ h. omega (arith, h))
  action_failure-Explained action (value_error message) ring =
      silent _ _ (value_failure_status action message)
  action_failure-Explained action timeout ring = silent _ _ (λ h. omega (arith, h))
  action_failure-Explained action (url_error true) ring = silent _ _ (λ h. omega (arith, h))
  action_failure-Explained action (url_error false) ring = silent _ _ (λ h. omega (arith, h))
  action_failure-Explained action os_error ring = silent _ _ (λ h. omega (arith, h))
  action_failure-Explained action (runtime_error code) ring =
      runtime_failure-Explained action code ring
  action_failure-Explained action (database_error t) ring = database_failure-Explained action t ring
  action_failure-Explained action other ring = silent _ _ (λ h. omega (arith, h))

  verify_failure-Explained :
      (raised : Raised) (ring : List Entry)
      → Explained q (verify_failure q raised ring).0 (verify_failure q raised ring).1
  unfolding verify_failure unavailable respond_error
  verify_failure-Explained timeout ring = silent _ _ (λ h. omega (arith, h))
  verify_failure-Explained json_error ring = silent _ _ (λ h. omega (arith, h))
  verify_failure-Explained (value_error message) ring = silent _ _ (λ h. omega (arith, h))
  verify_failure-Explained other ring = silent _ _ (λ h. omega (arith, h))
  verify_failure-Explained os_error ring = record {
    explains = λ h. recorded (codes "unknown") (codes "redis_unavailable") none ring;
    numbered = λ h. refl;
  }
  verify_failure-Explained (url_error b) ring = record {
    explains = λ h. recorded (codes "unknown") (codes "redis_unavailable") none ring;
    numbered = λ h. refl;
  }
  verify_failure-Explained (runtime_error code) ring = record {
    explains = λ h. recorded (codes "unknown") (codes "redis_unavailable") none ring;
    numbered = λ h. refl;
  }
  verify_failure-Explained (database_error t) ring = record {
    explains = λ h. recorded (codes "unknown") (codes "redis_unavailable") none ring;
    numbered = λ h. refl;
  }

  request_id_valid : is_request_id q.random_id ≡ true → is_request_id (request_id q) ≡ true
  unfolding request_id
  request_id_valid h = elim (Bool-cases (is_request_id q.x_request_id)) [
    | inl given ↦ rw given given
    | inr missing ↦ rw missing h
  ]

  -- A failure that was just recorded is found.
  found :
      (py : Python) (ring : List Entry)
      → is_request_id q.random_id ≡ true
      → Recorded q ring
      → (entry : Entry) × ((failure_diagnostic py q.now (str (request_id q)) ring).0 ≡ ok entry)
        × (entry.request_id ≡ request_id q)
  unfolding new_entry
  found py ring valid (f, before, same, at_now, e) = (
    reported (entry_of f),
    rw (e, sym same, sym at_now)
        (failure_diagnostic-record py f [] f.now before (rw same (request_id_valid valid)) tt
          (omega arith) (omega arith)),
    same,
  )

module _ (env : Services) (host : Host) {S : Type 0} (actions : Actions S) (secret : Text) where
  abbrev Shown : Request → Answer × State env host actions secret → Type 0
  Shown q result = Explained q result.0 result.1.failures

  either_of :
      (q : Request) (b : Bool) (x y : Answer × State env host actions secret)
      → Shown q x
      → Shown q y
      → Shown q (if b then x else y)
  either_of q true x y h k = h
  either_of q false x y h k = k

  answer_action-Shown :
      (q : Request) (action : Text) (r : Result Value × State env host actions secret)
      → Shown q (answer_action env host actions secret q action r)
  unfolding answer_action
  answer_action-Shown q action (ok v, w) = silent q _ _ (λ h. omega (arith, h))
  answer_action-Shown q action (err raised, w) = action_failure-Explained q action raised w.failures

  parsed-Shown :
      (q : Request) (r : Result Value) (w : State env host actions secret)
      → Shown q (parsed env host actions secret q r w)
  unfolding parsed choose_action perform respond_error
  parsed-Shown q (ok (obj payload)) w =
      either_of q (member (text_of host.python (get (codes "action") payload)) sync_actions) _ _
        (answer_action-Shown q (text_of host.python (get (codes "action") payload)) (
          dispatch_action host.python actions q.now
            (text_of host.python (get (codes "action") payload)) payload w))
        (silent q _ _ (λ h. omega (arith, h)))
  parsed-Shown q (ok v) w =
      answer_action-Shown q (codes "unknown") (err (value_error (codes "invalid payload")), w)
  parsed-Shown q (err raised) w = answer_action-Shown q (codes "unknown") (err raised, w)

  verified-Shown :
      (q : Request) (body : Text) (r : Result Bool) (w : State env host actions secret)
      → Shown q (verified env host actions secret q body r w)
  unfolding verified respond_error
  verified-Shown q body (ok true) w = parsed-Shown q (host.json_loads body) w
  verified-Shown q body (ok false) w = silent q _ _ (λ h. omega (arith, h))
  verified-Shown q body (err raised) w = verify_failure-Explained q raised w.failures

  received-Shown :
      (q : Request) (n : ℕ) (r : Result Text) (w : State env host actions secret)
      → Shown q (received env host actions secret q n r w)
  unfolding received authenticate respond_error
  received-Shown q n (ok body) w =
      either_of q (length body == n) _ _
        (verified-Shown q body (verify_request env secret (attempt_of q body) w.nonces).0
          (record w { nonces = (verify_request env secret (attempt_of q body) w.nonces).1 }))
        (silent q _ _ (λ h. omega (arith, h)))
  received-Shown q n (err timeout) w = silent q _ _ (λ h. omega (arith, h))
  received-Shown q n (err json_error) w = silent q _ _ (λ h. omega (arith, h))
  received-Shown q n (err (value_error t)) w = silent q _ _ (λ h. omega (arith, h))
  received-Shown q n (err (url_error t)) w = silent q _ _ (λ h. omega (arith, h))
  received-Shown q n (err os_error) w = silent q _ _ (λ h. omega (arith, h))
  received-Shown q n (err (runtime_error t)) w = silent q _ _ (λ h. omega (arith, h))
  received-Shown q n (err (database_error t)) w = silent q _ _ (λ h. omega (arith, h))
  received-Shown q n (err other) w = silent q _ _ (λ h. omega (arith, h))

  sized-Shown :
      (q : Request) (r : Option ℤ) (w : State env host actions secret)
      → Shown q (sized env host actions secret q r w)
  unfolding sized respond_error
  sized-Shown q none w = silent q _ _ (λ h. omega (arith, h))
  sized-Shown q (some (negsuc n)) w = silent q _ _ (λ h. omega (arith, h))
  sized-Shown q (some (pos n)) w = either_of q (n == 0) _ _ (silent q _ _ (λ h. omega (arith, h))) (
      either_of q (ltb max_body_bytes n) _ _ (silent q _ _ (λ h. omega (arith, h)))
        (received-Shown q n (q.read n) w))

  measured-Shown :
      (q : Request) (o : Option Text) (w : State env host actions secret)
      → Shown q (measured env host actions secret q o w)
  unfolding measured respond_error
  measured-Shown q none w = silent q _ _ (λ h. omega (arith, h))
  measured-Shown q (some raw) w = sized-Shown q (host.int_of raw) w

  elsewhere_status : (q : Request) → status_of (post_elsewhere q) ≢ 503
  unfolding post_elsewhere not_found method_not_allowed respond_error
  elsewhere_status q h = ground arith

  -- A POST request that is answered with 503 has left a failure under the number that the answer
  -- carries: looking that number up at the same instant finds an entry with it. The number that the
  -- service makes up, where a request brings none of the permitted form, is taken to be of that form.
  pub do_post-diagnosable :
      (q : Request) (w after : State env host actions secret) (refusal : Refusal)
      → is_request_id q.random_id ≡ true
      → do_post env host actions secret q w ≡ (refused 503 refusal, after)
      → (entry : Entry) × ((failure_diagnostic host.python q.now
            (str refusal.request_id)
            after.failures).0
          ≡ ok entry)
        × (entry.request_id ≡ refusal.request_id)
  unfolding do_post respond_error
  do_post-diagnosable q w after refusal valid h =
      subst
        (λ (n : Text).
          (entry : Entry) × ((failure_diagnostic host.python q.now (str n) after.failures).0
            ≡ ok entry)
          × (entry.request_id ≡ n))
        number
        (found q host.python after.failures valid
          (subst (λ r. Recorded q r.1.failures) h (shown.explains (ap (λ r. status_of r.0) h))))
    where
      shown : Shown q (do_post env host actions secret q w)
      shown =
          either_of q (not (q.path == codes "/provision")) _ _ (silent q _ _ (elsewhere_status q)) (
            either_of q (not (media_type env host actions secret q == codes "application/json")) _ _
              (silent q _ _ (λ h. omega (arith, h))) (measured-Shown q q.content_length w))

      number : request_id q ≡ refusal.request_id
      number = sym (shown.numbered (ap (λ r. status_of r.0) h)) ∙ ap (λ r. number_of r.0) h
