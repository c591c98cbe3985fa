-- ===== src/Http/Tests.antt =====
-- The handler at concrete requests, over a store of nonces in memory and a counter for data.
use sub2api_gate.Base.{
  none, err, database_error, ℕ, suc, ◌≡◌, refl, true, false, some, [], map, arith, Text, codes,
  text_eqb, to_lower, decimal, split, strip, pos, Result, ok,
}
use sub2api_gate.Payload.{Python, Value, Fields, str, obj, field, end, get, text_of, str_of, truthy}
use sub2api_gate.Auth.{
  verify_request, is_signed, is_hex, is_timestamp, is_well_formed, is_fresh, claim_nonce,
  get_secret,
}
use sub2api_gate.Auth.Memory.{memory, fill}
use sub2api_gate.Diagnostics.{Entry, sync_actions, is_request_id, failure_diagnostic}
use sub2api_gate.Http.Diagnosable.{do_post-diagnosable}
use sub2api_gate.Http.Answers.{
  Request, Refusal, done, refused, request_id, shown_action, respond_error, action_failure,
  database_failure, unavailable,
}
use sub2api_gate.Http.Dispatch.{Actions, dispatch_action, run}
use sub2api_gate.Http.{
  Host, State, attempt_of, answer_action, perform, choose_action, parsed, verified, authenticate,
  received, sized, measured, media_type, do_post,
}
use sub2api_gate.Http.Steps.{is_done, Received}
use sub2api_gate.Http.Success.{Ran, do_post-succeeds}
use sub2api_gate.Http.Refusals.{IsConsistent, do_post-IsConsistent}
use sub2api_gate.Http.Replay.{post_all, do_post_replay}

abbrev ascii : Python
ascii = record { repr = λ v. []; lower = map to_lower; lower_ascii = λ t h. refl }

abbrev payload : Fields
payload = field (codes "action") (str (codes "purge")) end

abbrev host : Host
host = record {
  python = ascii;
  int_of = λ t. some (pos (decimal t));
  json_loads = λ t. ok (obj payload);
}

abbrev count : Fields → ℕ → Result Value × ℕ
count p n = (ok (obj end), suc n)

abbrev counting : Actions ℕ
counting = record {
  provision = count;
  status = count;
  login = count;
  deprovision = count;
  purge = count;
  list_usage_logs = count;
  get_usage_log_detail = count;
  list_groups = count;
  test_api_key = count;
}

abbrev start : State memory host counting (fill 40)
start = record { nonces = []; data_of = 0; failures = [] }

abbrev post : Request
post = record {
  path = codes "/provision";
  x_request_id = codes "req-1";
  random_id = codes "0123456789abcdef";
  content_type = codes "Application/JSON; charset=utf-8";
  content_length = some (codes "2");
  read = λ n. ok (codes "{}");
  timestamp = codes "1700000300";
  nonce = fill 32;
  signature = fill 64;
  read_at = 1700000000500;
  claimed_at = 1700000000600;
  now = 1700000000700;
}

-- The same request, as late as its timestamp allows.
abbrev again : Request
again = record post { read_at = 1700000600999; claimed_at = 1700000601000 }

abbrev after : State memory host counting (fill 40)
after = (do_post memory host counting (fill 40) post start).1

posted : do_post memory host counting (fill 40) post start ≡ (done (obj end), after)
unfolding do_post media_type split strip measured sized received authenticate attempt_of
    verify_request is_timestamp is_hex is_well_formed is_fresh is_signed claim_nonce get_secret
    text_eqb verified parsed choose_action sync_actions get text_of str_of truthy perform
    dispatch_action run answer_action
posted = refl

posted_done : is_done (do_post memory host counting (fill 40) post start).0 ≡ true
posted_done = rw posted refl

do_post_replay_example :
    (is_done
        (do_post memory host counting
          (fill 40)
          again
          (post_all memory host counting (fill 40) [] after)).0
      ≡ false)
    × ((do_post memory host counting
          (fill 40)
          again
          (post_all memory host counting (fill 40) [] after)).1.data_of
        ≡ (post_all memory host counting (fill 40) [] after).data_of)
do_post_replay_example =
    do_post_replay memory host counting (fill 40) post again [] start posted_done refl refl
      (omega arith)

do_post-succeeds_example :
    (body : Text) × Received memory host counting (fill 40) post body
    × ((verify_request memory (fill 40) (attempt_of post body) []).0 ≡ ok true)
    × Ran memory host counting
        (fill 40)
        post
        body
        (record start { nonces = (verify_request memory (fill 40) (attempt_of post body) []).1 })
        (obj end)
        after
do_post-succeeds_example =
    do_post-succeeds memory host counting (fill 40) post start (obj end) after posted

do_post-IsConsistent_example :
    IsConsistent
      (do_post memory host counting (fill 39) (record post { path = codes "/health" }) start).0
do_post-IsConsistent_example =
    do_post-IsConsistent memory host counting (fill 39) (record post { path = codes "/health" })
      start

abbrev fail : Fields → ℕ → Result Value × ℕ
fail p n = (err (database_error none), n)

abbrev failing : Actions ℕ
failing = record counting { purge = fail }

abbrev unavailable_now : Refusal
unavailable_now = record {
  error = codes "dependency_unavailable";
  retryable = true;
  request_id = codes "req-1";
  action = some (codes "purge");
  retry_after = some 1;
  allow = none;
}

abbrev after_failing : State memory host failing (fill 40)
after_failing = (do_post memory host failing (fill 40) post start).1

refused_503 :
    do_post memory host failing (fill 40) post start ≡ (refused 503 unavailable_now, after_failing)
unfolding do_post media_type split strip measured sized received authenticate attempt_of
    verify_request is_timestamp is_hex is_well_formed is_fresh is_signed claim_nonce get_secret
    text_eqb verified parsed choose_action sync_actions get text_of str_of truthy perform
    dispatch_action run answer_action action_failure database_failure unavailable respond_error
    shown_action request_id is_request_id
refused_503 = refl

valid_random : is_request_id post.random_id ≡ true
unfolding is_request_id
valid_random = refl

do_post-diagnosable_example :
    (entry : Entry) × ((failure_diagnostic ascii post.now
        (str unavailable_now.request_id)
        after_failing.failures).0
      ≡ ok entry)
    × (entry.request_id ≡ unavailable_now.request_id)
do_post-diagnosable_example =
    do_post-diagnosable memory host failing (fill 40) post start after_failing unavailable_now
      valid_random refused_503
