-- ===== src/Http.antt =====
-- The HTTP handler of the sync service (sub2api-sync/sub2api_sync.py): `Handler.do_POST`,
-- `do_GET`, `_other_method`, `respond_error`, `_respond_action_failure` and `request_id`, with
-- `dispatch_action`. Log lines, response headers that never vary and the deadline of a request are
-- left out: a call that runs out of time is a call that raises `timeout`.
pub mod Answers
pub mod Dispatch
pub mod Steps
pub mod Replay
pub mod Diagnosable
pub mod Refusals
pub mod Success
mod Tests
use sub2api_gate.Base.{
  ℕ, ◌*◌, Bool, true, false, not, ◌&&◌, ◌||◌, Option, none, some, List, [], ◌∷◌, nat_eq, text_eq,
  Text, codes, ◌==◌, member, length, ltb, leb, strip, split, is_empty, if◌then◌else◌, ℤ, pos,
  negsuc, Raised, json_error, value_error, timeout, url_error, os_error, runtime_error,
  database_error, other, Result, ok, err,
}
use sub2api_gate.Payload.{Python, Value, Fields, obj, get, text_of}
use sub2api_gate.Auth.{Services, Attempt, verify_request}
use sub2api_gate.Diagnostics.{Entry, sync_actions, record_failure_diagnostic}
use sub2api_gate.Http.Answers.{
  Request, Answer, done, refused, dropped, request_id, respond_error, action_failure,
  verify_failure, post_elsewhere,
}
use sub2api_gate.Http.Dispatch.{Actions, World, dispatch_action}

abbrev pub max_body_bytes : ℕ
max_body_bytes = 16 * 1024

-- What the handler takes from outside: Python's own functions on text, `int` of a header's value
-- (`none` where it raises) and `json.loads` of the decoded body.
pub record Host : Type 0 where
  pub python : Python
  pub int_of : Text → Option ℤ
  pub json_loads : Text → Result Value

abbrev pub first_part : List Text → Text
first_part [] = []
first_part (part ∷ parts) = part

unfoldable pub attempt_of : Request → Text → Attempt
attempt_of q body = record {
  read_at = q.read_at;
  claimed_at = q.claimed_at;
  timestamp = q.timestamp;
  nonce = q.nonce;
  signature = q.signature;
  body = body;
}

module _ (env : Services) (host : Host) {S : Type 0} (actions : Actions S) (secret : Text) where
  abbrev State : Type 0
  State = World env.Store S

  -- The result of an action, answered.
  unfoldable pub answer_action : Request → Text → Result Value × State → Answer × State
  answer_action q action (ok reply, w) = (done reply, w)
  answer_action q action (err raised, w) =
      let (answer, ring) = action_failure q action raised w.failures in
      (answer, record w { failures = ring })

  unfoldable pub perform : Request → Text → Fields → State → Answer × State
  unfolding answer_action
  perform q action payload w =
      answer_action q action (dispatch_action host.python actions q.now action payload w)

  unfoldable pub choose_action : Request → Fields → State → Answer × State
  unfolding perform
  choose_action q payload w =
      let action = text_of host.python (get (codes "action") payload) in
      if member action sync_actions
      then perform q action payload w
      else (respond_error q 400 (codes "invalid_action") false none none none, w)

  unfoldable pub parsed : Request → Result Value → State → Answer × State
  unfolding choose_action answer_action
  parsed q (ok (obj payload)) w = choose_action q payload w
  parsed q (ok v) w =
      answer_action q (codes "unknown") (err (value_error (codes "invalid payload")), w)
  parsed q (err raised) w = answer_action q (codes "unknown") (err raised, w)

  -- `verified`, or what `verify_request` raised; `w` has the nonces that it left.
  unfoldable pub verified : Request → Text → Result Bool → State → Answer × State
  unfolding parsed
  verified q body (ok true) w = parsed q (host.json_loads body) w
  verified q body (ok false) w =
      (respond_error q 401 (codes "unauthorized") false none none none, w)
  verified q body (err raised) w =
      let (answer, ring) = verify_failure q raised w.failures in
      (answer, record w { failures = ring })

  unfoldable pub authenticate : Request → Text → State → Answer × State
  unfolding verified
  authenticate q body w =
      let (result, nonces) = verify_request env secret (attempt_of q body) w.nonces in
      verified q body result (record w { nonces = nonces })

  unfoldable pub received : Request → ℕ → Result Text → State → Answer × State
  unfolding authenticate
  received q n (ok body) w =
      if length body == n
      then authenticate q body w
      else (respond_error q 400 (codes "incomplete_body") false none none none, w)
  received q n (err timeout) w =
      (respond_error q 408 (codes "request_timeout") true none none none, w)
  received q n (err raised) w = (dropped, w)

  unfoldable pub sized : Request → Option ℤ → State → Answer × State
  unfolding received
  sized q none w = (respond_error q 400 (codes "invalid_content_length") false none none none, w)
  sized q (some (negsuc n)) w =
      (respond_error q 400 (codes "invalid_body_size") false none none none, w)
  sized q (some (pos n)) w =
      if n == 0
      then (respond_error q 400 (codes "invalid_body_size") false none none none, w)
      else if ltb max_body_bytes n
      then (respond_error q 413 (codes "payload_too_large") false none none none, w)
      else received q n (q.read n) w

  unfoldable pub measured : Request → Option Text → State → Answer × State
  unfolding sized
  measured q none w = (respond_error q 411 (codes "length_required") false none none none, w)
  measured q (some raw) w = sized q (host.int_of raw) w

  -- `content_type`
  unfoldable pub media_type : Request → Text
  media_type q = host.python.lower (strip (first_part (split b';' q.content_type)))

  unfoldable pub do_post : Request → State → Answer × State
  unfolding measured media_type
  do_post q w =
      if not (q.path == codes "/provision")
      then (post_elsewhere q, w)
      else if not (media_type q == codes "application/json")
      then (respond_error q 415 (codes "unsupported_media_type") false none none none, w)
      else measured q q.content_length w
