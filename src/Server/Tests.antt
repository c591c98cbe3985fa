-- ===== src/Server/Tests.antt =====
-- Deadlines and slots at concrete values.
use sub2api_gate.Base.{ℕ, ◌+◌, ◌≤◌, ◌<◌, ◌≡◌, refl, Bool, true, none, some, codes, text_eqb, ok}
use sub2api_gate.Server.{
  Server, all_free, max_request_threads, process_request, end_request, served, action_timeout,
  new_deadline, action_deadline, remaining_timeout,
}
use sub2api_gate.Server.Slots.{at_start, arrived, Arrival, Reached-balanced}
use sub2api_gate.Server.Deadlines.{ask, remaining_timeout_nested}

abbrev one_busy : Server
one_busy = record { free = 15; workers = 1 }

first_served : process_request true all_free ≡ ok (served, one_busy)
unfolding process_request
first_served = refl

Reached-balanced_example :
    (15 + 1 ≡ max_request_threads)
    × ((starts : Bool) → Arrival one_busy starts)
    × (0 < one_busy.workers → (s' : Server) × (end_request one_busy ≡ ok s'))
Reached-balanced_example = Reached-balanced one_busy (arrived true served at_start first_served)

-- A login that started at 1000 asks at 2500 for 5 s within the 4 s of the request before it.
asked :
    (action_deadline
      (codes "pre_request")
      1000
      (action_deadline (codes "login") 1000 (ask 5000 2500))
      none).0
    ≡ ok 2500
unfolding action_deadline new_deadline action_timeout remaining_timeout text_eqb
asked = refl

remaining_timeout_nested_example :
    (2500 ≤ 5000)
    × (0 < 5000 → 0 < 2500)
    × (2500 + 2500 ≤ 1000 + action_timeout (codes "pre_request"))
    × (2500 + 2500 ≤ 1000 + action_timeout (codes "login"))
    × ((d : ℕ) → none ≡ some d → 2500 + 2500 ≤ d)
    × ((action_deadline
          (codes "pre_request")
          1000
          (action_deadline (codes "login") 1000 (ask 5000 2500))
          none).1
        ≡ none)
remaining_timeout_nested_example =
    remaining_timeout_nested (codes "pre_request") (codes "login") 1000 1000 5000 2500 2500 none
      asked
