-- ===== src/Bulkhead/Tests.antt =====
-- A run of the semaphore, and the theorems at it.
use self_consistency_answer.Common.{[], ◌∷◌}
use self_consistency_answer.Bulkhead.{
  Semaphore, new_semaphore, acquire, release, Life, begins, acquires, releases,
}
use self_consistency_answer.Bulkhead.Permits.{IsBalanced, Life-IsBalanced}

-- Four calls for two permits; the first one is done.
abbrev busy : Semaphore
busy = record { available = 0; waiting = 4 ∷ []; holding = 2 ∷ 3 ∷ [] }

busy-Life : Life 2 busy (1 ∷ 2 ∷ 3 ∷ 4 ∷ [])
unfolding new_semaphore acquire release
busy-Life = releases 1 (acquires 4 (acquires 3 (acquires 2 (acquires 1 begins))))

Life-IsBalanced_example : IsBalanced 2 busy
Life-IsBalanced_example = Life-IsBalanced busy-Life
