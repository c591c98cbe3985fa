-- ===== src/Http/Answers.antt =====
-- What the handler answers: `respond_error`, the answers to a wrong path or method, and the chain of
-- `except` clauses of `do_POST`, with the failures that it records.
use sub2api_gate.Base.{
  ℕ, Bool, true, false, not, Option, none, some, List, [], ◌∷◌, text_eq, Text, codes, ◌==◌, member,
  starts_with, if◌then◌else◌, Raised, json_error, value_error, timeout, url_error, os_error,
  runtime_error, database_error, other, Result,
}
use sub2api_gate.Payload.{Value}
use sub2api_gate.Diagnostics.{Entry, sync_actions, is_request_id, record_failure_diagnostic}

-- A request: its path and headers (a missing one is empty where the source takes `""` for it), what
-- `rfile.read` gives, the instants at which the clock is read for the signature, Redis runs the
-- command that claims the nonce, and a failure or a lookup takes its time; and the number that
-- `secrets.token_hex(8)` would give.
pub record Request : Type 0 where
  pub path : Text
  pub x_request_id : Text
  pub random_id : Text
  pub content_type : Text
  pub content_length : Option Text
  pub read : ℕ → Result Text
  pub timestamp : Text
  pub nonce : Text
  pub signature : Text
  pub read_at : ℕ
  pub claimed_at : ℕ
  pub now : ℕ

-- The body of an error response, and the headers that vary.
pub record Refusal : Type 0 where
  pub error : Text
  pub retryable : Bool
  pub request_id : Text
  pub action : Option Text
  pub retry_after : Option ℕ
  pub allow : Option Text

-- `dropped`: an exception leaves the handler, and the connection is closed with no response.
pub data Answer : Type 0 where
  done : Value → Answer
  refused : ℕ → Refusal → Answer
  dropped : Answer

unfoldable pub request_id : Request → Text
request_id q = if is_request_id q.x_request_id then q.x_request_id else q.random_id

-- `payload["action"] = action` under its test.
unfoldable pub shown_action : Option Text → Option Text
shown_action none = none
shown_action (some action) = if member action sync_actions then some action else none

unfoldable pub respond_error :
    Request → ℕ → Text → Bool → Option Text → Option ℕ → Option Text → Answer
respond_error q status error retryable action retry_after allow = refused status (record {
  error = error;
  retryable = retryable;
  request_id = request_id q;
  action = shown_action action;
  retry_after = retry_after;
  allow = allow;
})

abbrev pub health_paths : List Text
health_paths = codes "/health" ∷ codes "/healthz" ∷ []

unfoldable pub not_found : Request → Answer
unfolding respond_error
not_found q = respond_error q 404 (codes "not_found") false none none none

unfoldable pub method_not_allowed : Request → Text → Answer
unfolding respond_error
method_not_allowed q allow =
    respond_error q 405 (codes "method_not_allowed") false none none (some allow)

-- The answer of `do_POST` to a path other than `/provision`.
unfoldable pub post_elsewhere : Request → Answer
unfolding not_found method_not_allowed
post_elsewhere q =
    if member q.path health_paths then method_not_allowed q (codes "GET") else not_found q

-- `_other_method`: DELETE, HEAD, OPTIONS, PATCH and PUT.
unfoldable pub other_method : Request → Answer
unfolding not_found method_not_allowed
other_method q =
    if q.path == codes "/provision"
    then method_not_allowed q (codes "POST")
    else if member q.path health_paths
    then method_not_allowed q (codes "GET")
    else not_found q

-- Whether `psql` and the `PING` of Redis raised one of the classes that `do_GET` catches. A
-- `URLError` is an `OSError`, and a failed statement a `RuntimeError`.
unfoldable pub get_answer : Request → Option Raised → Value → Answer
unfolding respond_error
get_answer q none healthy = done healthy
get_answer q (some json_error) healthy = dropped
get_answer q (some (value_error message)) healthy = dropped
get_answer q (some other) healthy = dropped
get_answer q (some raised) healthy =
    respond_error q 503 (codes "dependency_unavailable") true none (some 1) none

-- `do_GET`; `probe` is what the two dependency calls raise, and `healthy` the body `{"ok": True}`.
unfoldable pub do_get : Request → Option Raised → Value → Answer
unfolding get_answer not_found method_not_allowed
do_get q probe healthy =
    if member q.path health_paths
    then get_answer q probe healthy
    else if q.path == codes "/provision"
    then method_not_allowed q (codes "POST")
    else not_found q

module _ (q : Request) where
  abbrev pub record_failure : Text → Text → Option Text → List Entry → List Entry
  record_failure action category sqlstate ring =
      record_failure_diagnostic q.now (request_id q) action category sqlstate ring

  -- `_respond_action_failure`
  unfoldable pub respond_action_failure : Text → Answer
  unfolding respond_error
  respond_action_failure action =
      respond_error q 500 (codes "internal_error") false (some action) none none

  unfoldable pub conflict : Text → Text → Answer
  unfolding respond_error
  conflict action error = respond_error q 409 error false (some action) none none

  unfoldable pub value_failure : Text → Text → Answer
  unfolding respond_error
  value_failure action message =
      if member message (codes "usage log not found" ∷ codes "diagnostic not found" ∷ [])
      then respond_error q 404 (codes "not_found") false (some action) none none
      else respond_error q 400 (codes "invalid_request") false (some action) none none

  unfoldable pub url_failure : Text → Bool → Answer
  unfolding respond_error
  url_failure action true =
      respond_error q 504 (codes "dependency_timeout") true (some action) (some 1) none
  url_failure action false =
      respond_error q 502 (codes "upstream_unavailable") true (some action) none none

  unfoldable pub unavailable : Option Text → Answer
  unfolding respond_error
  unavailable action =
      respond_error q 503 (codes "dependency_unavailable") true action (some 1) none

  -- A `DatabaseCommandError`, by its SQLSTATE: 23505 is a unique violation.
  unfoldable pub database_failure : Text → Option Text → List Entry → Answer × List Entry
  unfolding conflict unavailable
  database_failure action none ring =
      (unavailable (some action), record_failure action (codes "database_error") none ring)
  database_failure action (some sqlstate) ring =
      let after = record_failure action (codes "database_error") (some sqlstate) ring in
      if sqlstate == codes "23505"
      then (conflict action (codes "data_conflict"), after)
      else (unavailable (some action), after)

  unfoldable pub login_failure : Text → Text → Answer
  unfolding respond_error respond_action_failure
  login_failure action code =
      if code == codes "sub2api_login_rate_limited"
      then respond_error q 429 (codes "upstream_rate_limited") true (some action) (some 1) none
      else if starts_with (codes "sub2api_login_") code
      then respond_error q 502 (codes "upstream_invalid_response")
          (not (code == codes "sub2api_login_rejected")) (some action) none none
      else respond_action_failure action

  -- Any other `RuntimeError`, by `args[0]`.
  unfoldable pub runtime_failure : Text → Text → List Entry → Answer × List Entry
  unfolding conflict unavailable login_failure
  runtime_failure action code ring =
      if code == codes "invite_identity_mismatch"
      then (conflict action (codes "identity_conflict"), ring)
      else if member code (codes "email_conflict" ∷ codes "api_key_conflict" ∷ [])
      then (conflict action code, ring)
      else if member code
          (codes "database_command_failed" ∷ codes "database_configuration_invalid" ∷ [])
      then (
        unavailable (some action),
        record_failure action (codes "database_unavailable") none ring,
      )
      else (login_failure action code, ring)

  -- The `except` clauses around the action, in their order.
  unfoldable pub action_failure : Text → Raised → List Entry → Answer × List Entry
  unfolding respond_error value_failure url_failure database_failure runtime_failure
      respond_action_failure
  action_failure action json_error ring =
      (respond_error q 400 (codes "invalid_json") false none none none, ring)
  action_failure action (value_error message) ring = (value_failure action message, ring)
  action_failure action timeout ring = (
    respond_error q 504 (codes "dependency_timeout") true (some action) (some 1) none,
    record_failure action (codes "dependency_timeout") none ring,
  )
  action_failure action (url_error timed_out) ring = (url_failure action timed_out, ring)
  action_failure action (runtime_error code) ring = runtime_failure action code ring
  action_failure action (database_error sqlstate) ring = database_failure action sqlstate ring
  action_failure action os_error ring = (respond_action_failure action, ring)
  action_failure action other ring = (respond_action_failure action, ring)

  -- The `except` clauses around `verify_request`; other classes are not caught.
  unfoldable pub verify_failure : Raised → List Entry → Answer × List Entry
  unfolding respond_error unavailable
  verify_failure timeout ring = (
    respond_error q 504 (codes "dependency_timeout") true none (some 1) none,
    record_failure (codes "unknown") (codes "dependency_timeout") none ring,
  )
  verify_failure json_error ring = (dropped, ring)
  verify_failure (value_error message) ring = (dropped, ring)
  verify_failure other ring = (dropped, ring)
  verify_failure raised ring =
      (unavailable none, record_failure (codes "unknown") (codes "redis_unavailable") none ring)
