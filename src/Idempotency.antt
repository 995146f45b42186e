-- ===== src/Idempotency.antt =====
-- packages/db/src/idempotency.ts and packages/shared/src/idempotency.ts: the record that makes a
-- retried POST safe. Every statement selects by (tenant, endpoint, key), on which the table has a
-- unique index, so the model is the slot of one such triple. Each statement is atomic; `advance` is
-- what a claim does from one `await` to the next, and claims of several requests interleave.
pub mod Replays
pub mod Spacing
pub mod Races
mod Tests
use self_consistency_answer.Common.{
  ℕ, suc, ◌+◌, ◌*◌, ◌≡◌, ◌≢◌, Bool, true, false, not, ◌&&◌, Option, none, some, String, List, [],
  ◌∷◌, ◌++◌, str_eq, length, ltb, leb, ◌==◌, if◌then◌else◌,
}

-- A body is its list of UTF-16 code units.
pub data IdempotencyStatus : Type 0 where
  in_flight completed : IdempotencyStatus

pub record IdempotentResponse : Type 0 where
  pub status : ℕ
  pub body : List ℕ

pub record IdempotencyRecord : Type 0 where
  pub id : ℕ
  pub fingerprint : String
  pub status : IdempotencyStatus
  pub response_status : Option ℕ
  pub response_body : Option (List ℕ)
  pub expires_at : ℕ

pub record Store : Type 0 where
  pub slot : Option IdempotencyRecord
  pub next_id : ℕ

-- The parts of `IdempotencyClaimInput` that differ between requests for one triple.
pub record Request : Type 0 where
  pub fingerprint : String
  pub now : ℕ

pub data IdempotencyClaim : Type 0 where
  fresh in_flight mismatch unrecoverable : IdempotencyClaim
  replay : IdempotentResponse → IdempotencyClaim

abbrev pub retention_ms : ℕ
retention_ms = 86_400_000

abbrev pub response_max_bytes : ℕ
response_max_bytes = 262_144

-- `storedResponse`: both columns are set, and the status is one that HTTP knows.
unfoldable pub stored_response : IdempotencyRecord → Option IdempotentResponse
stored_response row = elim row.response_status [
  | none ↦ none
  | some status ↦ elim row.response_body [
    | none ↦ none
    | some body ↦
        if leb 100 status && leb status 599
        then some (record { status = status; body = body })
        else none
  ]
]

abbrev pub is_completed : IdempotencyStatus → Bool
is_completed completed = true
is_completed in_flight = false

abbrev pub replay_of : Option IdempotentResponse → IdempotencyClaim
replay_of none = unrecoverable
replay_of (some response) = replay response

-- The answer to a claim on a row that has not expired.
unfoldable pub judge : Request → IdempotencyRecord → IdempotencyClaim
unfolding stored_response
judge request row =
    if not (str_eq row.fingerprint request.fingerprint)
    then mismatch
    else if is_completed row.status
    then replay_of (stored_response row)
    else in_flight

-- Where a claim stands: before the insert, before the read, before the reclaim of an expired row.
pub data Claiming : Type 0 where
  inserting reading : Request → Claiming
  reclaiming : Request → IdempotencyRecord → Claiming

pub data Progress : Type 0 where
  waits : Claiming → Progress
  answers : Request → IdempotencyClaim → Progress

unfoldable pub insert_record : Request → Store → Store
insert_record request store = record {
  slot = some (record {
    id = store.next_id;
    fingerprint = request.fingerprint;
    status = IdempotencyStatus.in_flight;
    response_status = none;
    response_body = none;
    expires_at = request.now + retention_ms;
  });
  next_id = suc store.next_id;
}

-- `updateMany` under `id` and `expiresAt <= now`: whether it matched, and the row then.
unfoldable pub reclaim : Request → IdempotencyRecord → IdempotencyRecord → Option IdempotencyRecord
reclaim request read row =
    if row.id == read.id && leb row.expires_at request.now
    then some (record row {
      fingerprint = request.fingerprint;
      status = IdempotencyStatus.in_flight;
      response_status = none;
      response_body = none;
      expires_at = request.now + retention_ms;
    })
    else none

unfoldable pub advance : Claiming → Store → Store × Progress
unfolding insert_record judge reclaim
advance (inserting request) store = elim store.slot [
  | none ↦ (insert_record request store, answers request fresh)
  | some row ↦ (store, waits (reading request))
]
advance (reading request) store = elim store.slot [
  | none ↦ (store, answers request fresh)
  | some row ↦
      if leb row.expires_at request.now
      then (store, waits (reclaiming request row))
      else (store, answers request (judge request row))
]
advance (reclaiming request read) store = elim store.slot [
  | none ↦ (store, answers request in_flight)
  | some row ↦ elim (reclaim request read row) [
    | none ↦ (store, answers request in_flight)
    | some row' ↦ (record store { slot = some row' }, answers request fresh)
  ]
]

-- `claimIdempotencyKey` with nobody else at work: at most three statements.
abbrev pub resume : Store × Progress → Store × Progress
resume (store, waits claiming) = advance claiming store
resume (store, answers request claim) = (store, answers request claim)

unfoldable pub claim_idempotency_key : Request → Store → Store × Progress
unfolding advance
claim_idempotency_key request store = resume (resume (advance (inserting request) store))

unfoldable pub complete_idempotency_key : IdempotentResponse → Store → Store
complete_idempotency_key response store = elim store.slot [
  | none ↦ store
  | some row ↦ record store {
    slot = some (record row {
      status = completed;
      response_status = some response.status;
      response_body =
          if leb (length response.body) response_max_bytes then some response.body else none;
    });
  }
]

unfoldable pub release_idempotency_key : Store → Store
release_idempotency_key store = elim store.slot [
  | none ↦ store
  | some row ↦ if is_completed row.status then store else record store { slot = none }
]

unfoldable pub sweep_idempotency_records : ℕ → Store → Store
sweep_idempotency_records now store = elim store.slot [
  | none ↦ store
  | some row ↦ if leb row.expires_at now then record store { slot = none } else store
]

pub record Sys : Type 0 where
  pub store : Store
  pub claims : List Claiming
  pub answered : List (Request × IdempotencyClaim)

-- What a step of a claim makes of the system; `before` and `after` are the claims of others.
unfoldable pub settle : List Claiming → List Claiming → Store × Progress → Sys → Sys
settle before after (store, waits claiming) s = record s {
  store = store;
  claims = before ++ claiming ∷ after;
}
settle before after (store, answers request claim) s = record s {
  store = store;
  claims = before ++ after;
  answered = (request, claim) ∷ s.answered;
}

-- Where `deletions` is false, no record is released or swept.
pub data Step (deletions : Bool) : Sys → Sys → Type 0 where
  arrives :
      (s : Sys) (request : Request)
      → Step deletions s (record s { claims = inserting request ∷ s.claims })
  advances :
      (s : Sys) (before : List Claiming) (claiming : Claiming) (after : List Claiming)
      → s.claims ≡ before ++ claiming ∷ after
      → Step deletions s (settle before after (advance claiming s.store) s)
  completes :
      (s : Sys) (response : IdempotentResponse)
      → Step deletions s (record s { store = complete_idempotency_key response s.store })
  releases :
      (s : Sys)
      → deletions ≡ true
      → Step deletions s (record s { store = release_idempotency_key s.store })
  sweeps :
      (s : Sys) (now : ℕ)
      → deletions ≡ true
      → Step deletions s (record s { store = sweep_idempotency_records now s.store })

pub data Reach (deletions : Bool) (s : Sys) : Sys → Type 0 where
  here : Reach deletions s s
  next : {t u : Sys} → Reach deletions s t → Step deletions t u → Reach deletions s u
