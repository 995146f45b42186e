-- ===== src/V1.antt =====
-- packages/server/src/v1/idempotency.ts: the middleware that answers a retried POST, over the records
-- of Idempotency. The handler behind it is a parameter, with the world that it changes; the key is
-- one that is well formed, and requests come one after the other.
pub mod Retries
mod Tests
use self_consistency_answer.Common.{
  ℕ, Bool, true, false, Option, none, some, String, List, [], ◌∷◌, leb, if◌then◌else◌,
}
use self_consistency_answer.Idempotency.{
  IdempotentResponse, Store, Request, IdempotencyClaim, fresh, in_flight, mismatch, unrecoverable,
  replay, Progress, waits, answers, claim_idempotency_key, complete_idempotency_key,
  release_idempotency_key,
}

-- What the handler comes to: an exception, or a response, whose body may not be readable again.
pub data Handled : Type 0 where
  throws : Handled
  responds : IdempotentResponse → (is_readable : Bool) → Handled

-- What the client is told.
pub data ClientAnswer : Type 0 where
  replayed : IdempotentResponse → ClientAnswer
  conflicts : IdempotencyClaim → ClientAnswer
  handled : Handled → ClientAnswer

-- Alone, a claim is answered in three statements.
abbrev pub claim_of : Progress → IdempotencyClaim
claim_of (answers request claim) = claim
claim_of (waits claiming) = in_flight

unfoldable pub remember : Handled → Store → Store
remember throws store = release_idempotency_key store
remember (responds response is_readable) store =
    if leb 500 response.status
    then release_idempotency_key store
    else if is_readable
    then complete_idempotency_key response store
    else store

module _ {World : Type 0} where
  abbrev pub proceed : (World → World × Handled) → World → Store → (Store × World) × ClientAnswer
  proceed handler world store =
      let (world', result) = handler world in ((remember result store, world'), handled result)

  abbrev pub after_claim :
      IdempotencyClaim → (World → World × Handled) → World → Store → (Store × World) × ClientAnswer
  after_claim fresh handler world store = proceed handler world store
  after_claim (replay response) handler world store = ((store, world), replayed response)
  after_claim in_flight handler world store = ((store, world), conflicts in_flight)
  after_claim mismatch handler world store = ((store, world), conflicts mismatch)
  after_claim unrecoverable handler world store = ((store, world), conflicts unrecoverable)

  unfoldable pub idempotent :
      Request → (World → World × Handled) → Store × World → (Store × World) × ClientAnswer
  unfolding claim_idempotency_key remember
  idempotent request handler (store, world) =
      let (store', progress) = claim_idempotency_key request store in
      after_claim (claim_of progress) handler world store'
