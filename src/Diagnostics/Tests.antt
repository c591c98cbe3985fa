-- ===== src/Diagnostics/Tests.antt =====
-- Recorded failures at concrete calls.
use sub2api_gate.Base.{
  ◌≡◌, ◌≢◌, refl, ap, true, false, [], ◌∷◌, map, none, some, codes, to_lower, arith, text_eqb, ok,
  err, other, pos, show_nat,
}
use sub2api_gate.Payload.{Python, int, str, text_of, str_of, truthy}
use sub2api_gate.Diagnostics.{
  is_request_id, failure_diagnostic, reported, record_failure_diagnostic, drop_expired,
  append_bounded, new_entry, look_up, is_expired,
}
use sub2api_gate.Diagnostics.Ring.{
  Failure, IsRing, entry_of, record_one, record_all, record_failure_diagnostic-IsRing,
}
use sub2api_gate.Diagnostics.Found.{failure_diagnostic-record}

abbrev ascii : Python
ascii = record { repr = λ v. []; lower = map to_lower; lower_ascii = λ t h. refl }

abbrev refused_write : Failure
refused_write = record {
  now = 1700000000000;
  request_id = codes "req-1";
  action = codes "provision";
  category = codes "database_error";
  sqlstate = some (codes "23505");
}

abbrev lost_redis : Failure
lost_redis = record {
  now = 1700000001000;
  request_id = codes "req-2";
  action = codes "unknown";
  category = codes "redis_unavailable";
  sqlstate = none;
}

valid_id : is_request_id (codes "req-1") ≡ true
unfolding is_request_id
valid_id = refl

-- A number of a request given as a JSON number passes the test of its form, and then raises.
numeric_id :
    (failure_diagnostic ascii 1700000002000 (int (pos 7)) (record_one refused_write [])).0
    ≡ err other
unfolding failure_diagnostic record_failure_diagnostic is_request_id drop_expired append_bounded
    look_up text_of str_of truthy is_expired show_nat
numeric_id = refl

record_failure_diagnostic-IsRing_example : IsRing (
    record_failure_diagnostic 1700000000000
      (codes "req-1")
      (codes "steal")
      (codes "panic")
      (some (codes "x"))
      [])
record_failure_diagnostic-IsRing_example =
    record_failure_diagnostic-IsRing 1700000000000 (codes "req-1") (codes "steal") (codes "panic")
      (some (codes "x")) [] (record { bounded = omega arith; entries = tt })

other_id : codes "req-2" ≢ codes "req-1"
unfolding text_eqb
other_id e = clash (ap (λ t. text_eqb t (codes "req-1")) e)
  where
    clash : false ≢ true
    clash h = cc

failure_diagnostic-record_example :
    (failure_diagnostic ascii 1700000002000
      (str (codes "req-1"))
      (record_all (lost_redis ∷ []) (record_one refused_write []))).0
    ≡ ok (reported (entry_of refused_write))
unfolding new_entry
failure_diagnostic-record_example =
    failure_diagnostic-record ascii refused_write (lost_redis ∷ []) 1700000002000 [] valid_id
      ((other_id, omega arith), tt) (omega arith) (omega arith)
