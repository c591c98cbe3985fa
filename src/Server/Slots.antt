-- ===== src/Server/Slots.antt =====
-- The slots of the server: no more threads than slots, and no release too many.
use sub2api_gate.Base.{
  ◌+◌, ◌-◌, ◌<◌, ◌≡◌, ◌↔◌, inl, inr, Bool-cases, refl, Bool, true, false, ltb, arith, ok,
}
use sub2api_gate.Server.{
  Server, all_free, max_request_threads, release, after_failure, process_request, end_request,
  Outcome, rejected, served, failed,
}

-- The servers that any order of arriving connections and ending threads leads to.
pub data Reached : Server → Type 0 where
  at_start : Reached all_free
  arrived :
      {s s' : Server} (starts : Bool) (outcome : Outcome)
      → Reached s
      → process_request starts s ≡ ok (outcome, s')
      → Reached s'
  ended : {s s' : Server} → Reached s → 0 < s.workers → end_request s ≡ ok s' → Reached s'

arrived_balance :
    (starts : Bool) (outcome : Outcome) (s s' : Server)
    → process_request starts s ≡ ok (outcome, s')
    → s.free + s.workers ≡ max_request_threads
    → s'.free + s'.workers ≡ max_request_threads
unfolding process_request release after_failure
arrived_balance starts outcome s s' h e = ground arith

ended_balance :
    (s s' : Server)
    → end_request s ≡ ok s'
    → 0 < s.workers
    → s.free + s.workers ≡ max_request_threads
    → s'.free + s'.workers ≡ max_request_threads
unfolding end_request release
ended_balance s s' h busy e = ground arith

Reached-balance : (s : Server) → Reached s → s.free + s.workers ≡ max_request_threads
Reached-balance _ at_start = omega arith
Reached-balance s' (arrived {s} starts outcome r h) =
    arrived_balance starts outcome s s' h (Reached-balance s r)
Reached-balance s' (ended {s} r busy h) = ended_balance s s' h busy (Reached-balance s r)

-- How a connection fares where free slots and threads add up.
abbrev pub Arrival : Server → Bool → Type 0
Arrival s starts =
    (outcome : Outcome) × (s' : Server) × (process_request starts s ≡ ok (outcome, s'))
    × ((outcome ≡ rejected) ↔ (s.workers ≡ max_request_threads))

arrival : (s : Server) (starts : Bool) → s.free + s.workers ≡ max_request_threads → Arrival s starts
unfolding process_request release after_failure
arrival s starts e = elim (Bool-cases (ltb 0 s.free)) [
  | inr taken ↦ (rejected, s, rw taken refl, (λ same. ground arith, λ full. refl))
  | inl room ↦ with_room starts room
]
  where
    with_room : (b : Bool) → ltb 0 s.free ≡ true → Arrival s b
    with_room true room = (
      served,
      record { free = s.free - 1; workers = s.workers + 1 },
      rw room refl,
      (λ same. cc, λ full. absurd (ground arith)),
    )
    with_room false room = (
      failed,
      record { free = s.free - 1 + 1; workers = s.workers },
      ground arith,
      (λ same. cc, λ full. absurd (ground arith)),
    )

departure :
    (s : Server)
    → s.free + s.workers ≡ max_request_threads
    → 0 < s.workers
    → (s' : Server) × (end_request s ≡ ok s')
unfolding end_request release
departure s e busy = (record { free = s.free + 1; workers = s.workers - 1 }, ground arith)

-- In every server that is reached, free slots and serving threads add up to 16; a connection is
-- processed without an exception from the semaphore, and is rejected exactly when 16 threads serve;
-- and a thread that ends releases its slot without one.
pub Reached-balanced :
    (s : Server)
    → Reached s
    → (s.free + s.workers ≡ max_request_threads)
      × ((starts : Bool) → Arrival s starts)
      × (0 < s.workers → (s' : Server) × (end_request s ≡ ok s'))
Reached-balanced s r =
    let e = Reached-balance s r in (e, λ starts. arrival s starts e, departure s e)
