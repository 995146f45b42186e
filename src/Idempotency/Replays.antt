-- ===== src/Idempotency/Replays.antt =====
-- What later requests under a key are told, one after the other.
use self_consistency_answer.Common.{
  ◌+◌, ◌≤◌, ◌<◌, ◌≡◌, none, arith, str_eq, leb, length, if◌then◌else◌,
}
use self_consistency_answer.Idempotency.{
  IdempotentResponse, Store, Request, fresh, in_flight, mismatch, unrecoverable, replay,
  retention_ms, response_max_bytes, answers, insert_record, claim_idempotency_key,
  complete_idempotency_key, release_idempotency_key,
}

-- A key nobody holds is claimed by an insert. Until the record expires, every other claim leaves it
-- alone and is told to wait if it asks for the same thing, and of the mismatch if not; from then on
-- the next claim takes the key over.
pub claim_then_claim :
    (first second : Request) (store : Store)
    → store.slot ≡ none
    → let held = insert_record first store in
      (claim_idempotency_key first store ≡ (held, answers first fresh))
      × (second.now < first.now + retention_ms
          → claim_idempotency_key second held ≡ (
            held,
            answers second
                (if str_eq first.fingerprint second.fingerprint then in_flight else mismatch),
          ))
      × (first.now + retention_ms ≤ second.now
          → (claim_idempotency_key second held).1 ≡ answers second fresh)
unfolding claim_idempotency_key
claim_then_claim first second store empty =
    (ground arith, λ early. ground arith, λ late. ground arith)

-- The response, with a status from 100 to 599, to the request that claimed a free key is replayed verbatim to every later request
-- for the same thing until the record expires, if it fits the cap; a larger one is reported lost,
-- and another request is told of the mismatch. No such request changes the record.
pub complete_then_claim :
    (first second : Request) (response : IdempotentResponse) (store : Store)
    → store.slot ≡ none
    → 100 ≤ response.status
    → response.status ≤ 599
    → second.now < first.now + retention_ms
    → let done = complete_idempotency_key response (claim_idempotency_key first store).0 in
      claim_idempotency_key second done ≡ (
        done,
        answers second (
            if str_eq first.fingerprint second.fingerprint
            then (if leb (length response.body) response_max_bytes
                then replay response
                else unrecoverable)
            else mismatch),
      )
unfolding claim_idempotency_key complete_idempotency_key
complete_then_claim first second response store empty low high early = ground arith

-- A key whose request failed is free again, and a key whose request was completed stays taken.
pub release_after_claim :
    (first : Request) (response : IdempotentResponse) (store : Store)
    → store.slot ≡ none
    → let held = (claim_idempotency_key first store).0 in
      ((release_idempotency_key held).slot ≡ none)
      × (release_idempotency_key (complete_idempotency_key response held)
          ≡ complete_idempotency_key response held)
unfolding claim_idempotency_key complete_idempotency_key release_idempotency_key
release_after_claim first response store empty = (ground arith, ground arith)
