-- ===== src/V1/Retries.antt =====
-- A request that is sent again does its work once.
use self_consistency_answer.Common.{
  ℕ, ◌+◌, ◌≤◌, ◌<◌, ◌≡◌, refl, ap, Bool, true, false, ◌&&◌, none, List, [], ◌∷◌, arith, length,
  str_eq, ltb, leb, if◌then◌else◌,
}
use self_consistency_answer.Idempotency.{
  IdempotentResponse, Store, Request, mismatch, unrecoverable, replay, retention_ms,
  response_max_bytes, claim_idempotency_key, complete_idempotency_key, insert_record,
}
use self_consistency_answer.Idempotency.Replays.{
  claim_then_claim, complete_then_claim, release_after_claim,
}
use self_consistency_answer.V1.{
  Handled, throws, responds, ClientAnswer, replayed, conflicts, handled, after_claim, remember,
  idempotent,
}

-- The answer to a retry of a completed request.
abbrev pub retry_answer : Request → IdempotentResponse → Request → ClientAnswer
retry_answer first response second =
    if str_eq first.fingerprint second.fingerprint
    then (if leb (length response.body) response_max_bytes
        then replayed response
        else conflicts unrecoverable)
    else conflicts mismatch

-- Whether a handler threw or answered with a server error.
abbrev pub has_failed : Handled → Bool
has_failed throws = true
has_failed (responds response is_readable) = leb 500 response.status

module _ (World : Type 0) where
  told_retry :
      (fits same : Bool) (response : IdempotentResponse) (handler : World → World × Handled)
      (world : World) (store : Store)
      → after_claim
          (if same then (if fits then replay response else unrecoverable) else mismatch)
          handler
          world
          store
        ≡ (
          (store, world),
          if same
              then (if fits then replayed response else conflicts unrecoverable)
              else conflicts mismatch,
        )
  told_retry true true response handler world store = refl
  told_retry false true response handler world store = refl
  told_retry true false response handler world store = refl
  told_retry false false response handler world store = refl

  pub record Retry : Type 0 where
    pub request : Request
    pub handler : World → World × Handled

  abbrev pub answers_to : List Retry → Store × World → List ClientAnswer
  answers_to [] s = []
  answers_to (r ∷ retries) s =
      let (s', answer) = idempotent r.request r.handler s in answer ∷ answers_to retries s'

  abbrev pub state_after : List Retry → Store × World → Store × World
  state_after [] s = s
  state_after (r ∷ retries) s = state_after retries (idempotent r.request r.handler s).0

  abbrev pub expected_answers : Request → IdempotentResponse → List Retry → List ClientAnswer
  expected_answers first response [] = []
  expected_answers first response (r ∷ retries) =
      retry_answer first response r.request ∷ expected_answers first response retries

  -- Whether every retry comes before the record expires.
  abbrev pub all_early : ℕ → List Retry → Bool
  all_early ends [] = true
  all_early ends (r ∷ retries) = ltb r.request.now ends && all_early ends retries

  retry_once :
      (first : Request) (response : IdempotentResponse) (store : Store) (world : World) (r : Retry)
      → store.slot ≡ none
      → 100 ≤ response.status
      → response.status ≤ 499
      → r.request.now < first.now + retention_ms
      → let done = complete_idempotency_key response (claim_idempotency_key first store).0 in
        idempotent r.request r.handler (done, world)
        ≡ ((done, world), retry_answer first response r.request)
  unfolding idempotent
  retry_once first response store world r empty low high early =
      let told =
        complete_then_claim first r.request response store empty low (omega (arith, high)) early in
      rw (idempotent, told)
        (told_retry (leb (length response.body) response_max_bytes)
          (str_eq first.fingerprint r.request.fingerprint) response r.handler world
          (complete_idempotency_key response (claim_idempotency_key first store).0))

  retries_from :
      (first : Request) (response : IdempotentResponse) (store : Store) (world : World)
      (retries : List Retry)
      → store.slot ≡ none
      → 100 ≤ response.status
      → response.status ≤ 499
      → all_early (first.now + retention_ms) retries ≡ true
      → let done = complete_idempotency_key response (claim_idempotency_key first store).0 in
        (state_after retries (done, world) ≡ (done, world))
        × (answers_to retries (done, world) ≡ expected_answers first response retries)
  retries_from first response store world [] empty low high early = (refl, refl)
  retries_from first response store world (r ∷ retries) empty low high early =
      let once = retry_once first response store world r empty low high (ground (arith, early)) in
      let (same, told) =
        retries_from first response store world retries empty low high (ground (arith, early)) in
      (rw once same, rw (once, told) refl)

  first_request :
      (first : Request) (handler : World → World × Handled) (response : IdempotentResponse)
      (store : Store) (world world' : World)
      → store.slot ≡ none
      → handler world ≡ (world', responds response true)
      → response.status ≤ 499
      → idempotent first handler (store, world) ≡ (
        (complete_idempotency_key response (claim_idempotency_key first store).0, world'),
        handled (responds response true),
      )
  unfolding idempotent remember
  first_request first handler response store world world' empty answered high =
      let claimed = (claim_then_claim first first store empty).0 in
      let small : leb 500 response.status ≡ false = ground (arith, high) in
      rw (idempotent, claimed, answered, small) refl

  -- Take a request under a free key, whose handler answers with a status from 100 to 499 and a body
  -- that can be read. Whatever requests follow under the key before its record expires, each with any
  -- handler, none runs its handler again: what the handler of the first changed is changed once. Those
  -- that ask for the same are given the first response again, if its body is within the cap, and are
  -- told that it is lost if not; the others are told of the mismatch.
  pub works_once :
      (first : Request) (handler : World → World × Handled) (response : IdempotentResponse)
      (retries : List Retry) (store : Store) (world world' : World)
      → store.slot ≡ none
      → handler world ≡ (world', responds response true)
      → 100 ≤ response.status
      → response.status ≤ 499
      → all_early (first.now + retention_ms) retries ≡ true
      → let s = (idempotent first handler (store, world)).0 in
        ((state_after retries s).1 ≡ world')
        × (answers_to retries s ≡ expected_answers first response retries)
  works_once first handler response retries store world world' empty answered low high early =
      let start = first_request first handler response store world world' empty answered high in
      let (same, told) = retries_from first response store world' retries empty low high early in
      rw start (ap (λ s. s.1) same, told)

  fresh_claim :
      (request : Request) (handler : World → World × Handled) (store : Store) (world : World)
      → store.slot ≡ none
      → idempotent request handler (store, world) ≡ (
        (remember (handler world).1 (insert_record request store), (handler world).0),
        handled (handler world).1,
      )
  unfolding idempotent
  fresh_claim request handler store world empty =
      let claimed = (claim_then_claim request request store empty).0 in
      rw (idempotent, claimed) refl

  freed :
      (request : Request) (response : IdempotentResponse) (store : Store) (result : Handled)
      → store.slot ≡ none
      → has_failed result ≡ true
      → (remember result (insert_record request store)).slot ≡ none
  unfolding remember
  freed request response store throws empty failed =
      let claimed = (claim_then_claim request request store empty).0 in
      rw claimed at (release_after_claim request response store empty).0
  freed request response store (responds answer is_readable) empty failed =
      let claimed = (claim_then_claim request request store empty).0 in
      rw failed (rw claimed at (release_after_claim request response store empty).0)

  -- A request under a free key that fails, by an exception or by a status of 500 or more, leaves the
  -- key free: the next request under it runs its handler, whatever it asks for and whenever it comes,
  -- in the world that the first one left.
  pub failure_frees :
      (first second : Request) (handler again : World → World × Handled) (store : Store)
      (world : World)
      → store.slot ≡ none
      → has_failed (handler world).1 ≡ true
      → let (s, answer) = idempotent first handler (store, world) in
        let (s', answer') = idempotent second again s in
        (s'.1 ≡ (again (handler world).0).0) × (answer' ≡ handled (again (handler world).0).1)
  failure_frees first second handler again store world empty failed =
      let free =
        freed first (record { status = 200; body = [] }) store (handler world).1 empty failed in
      let retried =
        fresh_claim second again (remember (handler world).1 (insert_record first store))
          (handler world).0 free in
      rw (fresh_claim first handler store world empty, retried) (refl, refl)
