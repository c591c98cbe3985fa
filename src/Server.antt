-- ===== src/Server.antt =====
-- Limits on time and on threads in the sync service (sub2api-sync/sub2api_sync.py):
-- `action_deadline` and `remaining_timeout`, and the request slots of `SafeThreadingHTTPServer`.
-- Instants and spans are milliseconds.
pub mod Deadlines
pub mod Slots
mod Tests
use sub2api_gate.Base.{
  ℕ, ◌+◌, ◌-◌, ◌*◌, ◌≤◌, ◌<◌, ◌≡◌, min, Bool, true, false, not, Option, none, some, text_eq, Text,
  codes, ◌==◌, leb, ltb, if◌then◌else◌, Raised, timeout, value_error, Result, ok, err,
}

unfoldable pub action_timeout : Text → ℕ
action_timeout action =
    if action == codes "login"
    then 8 * 1000
    else if action == codes "health"
    then 2 * 1000
    else if action == codes "test_api_key"
    then 3 * 1000
    else 4 * 1000

-- The deadline inside `with action_deadline(action, start)`; `previous` is the one around it.
unfoldable pub new_deadline : Text → ℕ → Option ℕ → ℕ
new_deadline action start none = start + action_timeout action
new_deadline action start (some previous) = min (start + action_timeout action) previous

-- What a `with` block computes from the deadline of the thread, and the one that it leaves.
abbrev pub Timed : Type 0 → Type 0
Timed A = Option ℕ → Result A × Option ℕ

-- `with action_deadline(action, start): body`. What the body leaves is put back, also when it raises.
unfoldable pub action_deadline : {A : Type 0} → Text → ℕ → Timed A → Timed A
unfolding new_deadline
action_deadline action start body previous =
    ((body (some (new_deadline action start previous))).0, previous)

-- `remaining_timeout(maximum)` at the instant `now`.
unfoldable pub remaining_timeout : ℕ → ℕ → Option ℕ → Result ℕ
remaining_timeout maximum now none = ok maximum
remaining_timeout maximum now (some deadline) =
    if leb deadline now then err timeout else ok (min maximum (deadline - now))

abbrev pub max_request_threads : ℕ
max_request_threads = 16

-- The free slots of the semaphore, and the threads that serve a request.
pub record Server : Type 0 where
  pub free : ℕ
  pub workers : ℕ

abbrev pub all_free : Server
all_free = record { free = max_request_threads; workers = 0 }

-- `release` of a `BoundedSemaphore` raises where it would pass its first value.
unfoldable pub release : Server → Result Server
release s =
    if ltb s.free max_request_threads
    then ok (record s { free = s.free + 1 })
    else err (value_error (codes "Semaphore released too many times"))

-- What becomes of a connection: it is answered with 503, gets a thread, or fails for want of one.
pub data Outcome : Type 0 where
  rejected : Outcome
  served : Outcome
  failed : Outcome

-- After the slot was released, or with what `release` raised.
unfoldable pub after_failure : Result Server → Result (Outcome × Server)
after_failure (err e) = err e
after_failure (ok s) = ok (failed, s)

-- `process_request`; `starts` says whether a thread could be started.
unfoldable pub process_request : Bool → Server → Result (Outcome × Server)
unfolding release after_failure
process_request starts s =
    if not (ltb 0 s.free)
    then ok (rejected, s)
    else if starts
    then ok (served, record { free = s.free - 1; workers = s.workers + 1 })
    else after_failure (release (record s { free = s.free - 1 }))

-- The end of `process_request_thread`: a thread ends, and its slot is released.
unfoldable pub end_request : Server → Result Server
unfolding release
end_request s = release (record s { workers = s.workers - 1 })
