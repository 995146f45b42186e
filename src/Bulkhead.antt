-- ===== src/Bulkhead.antt =====
-- packages/worker/src/resilience.ts: the semaphore of the bulkhead. A call of `acquire` is a ticket; a
-- ticket holds a permit from the moment at which its promise is settled. The `released` flag of a
-- release function is that its ticket holds no longer.
pub mod Permits
mod Tests
use self_consistency_answer.Common.{
  ℕ, zero, suc, ◌+◌, ◌≡◌, Bool, true, false, not, List, [], ◌∷◌, ◌++◌, filter, any, ◌==◌,
  if◌then◌else◌,
}

pub record Semaphore : Type 0 where
  pub available : ℕ
  pub waiting : List ℕ
  pub holding : List ℕ

unfoldable pub new_semaphore : ℕ → Semaphore
new_semaphore permits = record { available = permits; waiting = []; holding = [] }

abbrev pub take_permit : ℕ → ℕ → Semaphore → Semaphore
take_permit ticket zero s = record s { waiting = s.waiting ++ ticket ∷ [] }
take_permit ticket (suc left) s = record s { available = left; holding = s.holding ++ ticket ∷ [] }

-- `acquire`: a permit at once, or a place at the end of the queue.
unfoldable pub acquire : ℕ → Semaphore → Semaphore
acquire ticket s = take_permit ticket s.available s

abbrev pub hand_on : List ℕ → Semaphore → Semaphore
hand_on [] s = record s { available = suc s.available; waiting = [] }
hand_on (next ∷ waiting) s = record s { waiting = waiting; holding = s.holding ++ next ∷ [] }

-- The first occurrence of a ticket among those that hold, taken out.
abbrev pub drop_ticket : ℕ → List ℕ → List ℕ
drop_ticket ticket [] = []
drop_ticket ticket (t ∷ holding) =
    let rest = drop_ticket ticket holding in if t == ticket then holding else t ∷ rest

-- A call of the release function of a ticket. The second call does nothing.
unfoldable pub release : ℕ → Semaphore → Semaphore
release ticket s =
    if any (λ t. t == ticket) s.holding
    then hand_on s.waiting (record s { holding = drop_ticket ticket s.holding })
    else s

-- The life of a semaphore: calls of `acquire` under new tickets and of release functions, and the
-- tickets in the order of their calls.
pub data Life (permits : ℕ) : Semaphore → List ℕ → Type 0 where
  begins : Life permits (new_semaphore permits) []
  acquires :
      {s : Semaphore} {arrived : List ℕ} (ticket : ℕ)
      → Life permits s arrived
      → Life permits (acquire ticket s) (arrived ++ ticket ∷ [])
  releases :
      {s : Semaphore} {arrived : List ℕ} (ticket : ℕ)
      → Life permits s arrived
      → Life permits (release ticket s) arrived
