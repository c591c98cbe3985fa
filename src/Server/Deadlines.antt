-- ===== src/Server/Deadlines.antt =====
-- Deadlines only shrink towards the inside, and every timeout that is given ends by all of them.
use sub2api_gate.Base.{ℕ, ◌+◌, ◌≤◌, ◌<◌, ◌≡◌, refl, Option, none, some, arith, Text, ok}
use sub2api_gate.Server.{action_timeout, new_deadline, Timed, action_deadline, remaining_timeout}

-- What a block asks for: `remaining_timeout(maximum)` at the instant `now`.
abbrev pub ask : ℕ → ℕ → Timed ℕ
ask maximum now deadline = (remaining_timeout maximum now deadline, deadline)

-- A timeout given inside two nested blocks is at most what was asked for, not zero unless that is,
-- and is over by the deadline of each block and by the one that was there before; after the blocks
-- the deadline of the thread is what it was.
pub remaining_timeout_nested :
    (outer inner : Text) (start later maximum now given : ℕ) (previous : Option ℕ)
    → (action_deadline outer start (action_deadline inner later (ask maximum now)) previous).0
      ≡ ok given
    → (given ≤ maximum)
      × (0 < maximum → 0 < given)
      × (now + given ≤ start + action_timeout outer)
      × (now + given ≤ later + action_timeout inner)
      × ((d : ℕ) → previous ≡ some d → now + given ≤ d)
      × ((action_deadline outer start (action_deadline inner later (ask maximum now)) previous).1
          ≡ previous)
unfolding action_deadline new_deadline remaining_timeout
remaining_timeout_nested outer inner start later maximum now given none h =
    (ground arith, λ p. ground arith, ground arith, ground arith, λ d e. cc, refl)
remaining_timeout_nested outer inner start later maximum now given (some p) h =
    (ground arith, λ p. ground arith, ground arith, ground arith, λ d e. ground arith, refl)
