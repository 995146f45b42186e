-- ===== src/V1/Tests.antt =====
-- A handler that counts its runs, and the theorems at it.
use self_consistency_answer.Common.{ℕ, suc, ◌≡◌, refl, true, none, List, [], ◌∷◌, arith}
use self_consistency_answer.Idempotency.{IdempotentResponse, Store, Request}
use self_consistency_answer.V1.{Handled, throws, responds, idempotent}
use self_consistency_answer.V1.Retries.{
  Retry, answers_to, state_after, expected_answers, works_once,
}

abbrev created : IdempotentResponse
created = record { status = 201; body = 123 ∷ 125 ∷ [] }

abbrev create : ℕ → ℕ × Handled
create runs = (suc runs, responds created true)

abbrev crash : ℕ → ℕ × Handled
crash runs = (suc runs, throws)

abbrev empty_store : Store
empty_store = record { slot = none; next_id = 1 }

abbrev asks : Request
asks = record { fingerprint = "POST /v1/runs a"; now = 1_000 }

abbrev retries : List (Retry ℕ)
retries =
    record { request = record asks { now = 2_000 }; handler = create }
    ∷ record { request = record { fingerprint = "POST /v1/runs b"; now = 3_000 }; handler = create }
    ∷ []

works_once_example :
    let s = (idempotent asks create (empty_store, 0)).0 in
    ((state_after ℕ retries s).1 ≡ 1)
    × (answers_to ℕ retries s ≡ expected_answers ℕ asks created retries)
works_once_example =
    works_once ℕ asks create created retries empty_store 0 1 refl refl (omega arith) (omega arith)
      refl
