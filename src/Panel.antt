-- ===== src/Panel.antt =====
-- The members of a run's panel: packages/worker/src/candidate.ts and the reviews of
-- packages/worker/src/synthesis.ts, over the candidate rows of packages/db/src/repository.ts. The
-- stop check, the provider and the breaker's answer are what the steps before it gave. A body is its
-- text, wherever it is stored. Not modelled: the model call itself and the wording of a failure.
pub mod Calls
pub mod Reviews
mod Tests
use self_consistency_answer.Common.{
  ℕ, suc, ◌+◌, Bool, true, false, not, ◌&&◌, ◌||◌, Option, none, some, String, List, [], ◌∷◌, map,
  is_some, find?, or_else, str_eq, if◌then◌else◌,
}
use self_consistency_answer.Events.{
  ProviderId, openai, anthropic, google, CandidateStatus, running, Candidate, CandidateReview,
  Decimal,
}
use self_consistency_answer.Breaker.{
  ErrorFacts, Settings, Classification, retryable, permanent, classify, BreakerState, closed,
  open_until,
}
use self_consistency_answer.Runs.{StopReason, deadline, budget, halted, finished, missing}

pub record Answer : Type 0 where
  pub content : String
  pub latency_ms : ℕ
  pub input_tokens : Option ℕ
  pub output_tokens : Option ℕ

-- `CandidateResult`; the failures are those without an answer.
pub data CandidateResult : Type 0 where
  answered : Answer → CandidateResult
  error skipped canceled : (message : String) → (latency_ms : Option ℕ) → CandidateResult

unfoldable pub set_candidate_running : Candidate → Candidate
set_candidate_running candidate = record candidate {
  status = running;
  attempts = suc candidate.attempts;
  error = none;
}

unfoldable pub settle_candidate : CandidateResult → Candidate → Candidate
settle_candidate (answered answer) candidate = record candidate {
  status = CandidateStatus.ok;
  content = some answer.content;
  error = none;
  latency_ms = some answer.latency_ms;
  input_tokens = answer.input_tokens;
  output_tokens = answer.output_tokens;
}
settle_candidate (error message latency_ms) candidate = record candidate {
  status = CandidateStatus.error;
  error = some message;
  latency_ms = latency_ms;
}
settle_candidate (skipped message latency_ms) candidate = record candidate {
  status = CandidateStatus.skipped;
  error = some message;
  latency_ms = latency_ms;
}
settle_candidate (canceled message latency_ms) candidate = record candidate {
  status = CandidateStatus.canceled;
  error = some message;
  latency_ms = latency_ms;
}

-- `status !== "PENDING" && status !== "RUNNING"`.
abbrev pub is_settled : CandidateStatus → Bool
is_settled CandidateStatus.pending = false
is_settled running = false
is_settled _ = true

unfoldable pub already_settled : Candidate → Bool
already_settled candidate = is_settled candidate.status

-- `cancelPendingCandidates`, whose filter names the two statuses of a candidate at work.
unfoldable pub cancel_pending_candidates : String → List Candidate → List Candidate
unfolding already_settled
cancel_pending_candidates reason [] = []
cancel_pending_candidates reason (candidate ∷ candidates) =
    (if already_settled candidate
      then candidate
      else record candidate { status = CandidateStatus.canceled; error = some reason })
    ∷ cancel_pending_candidates reason candidates

unfoldable pub stop_to_result : StopReason → Option CandidateResult
stop_to_result (StopReason.canceled message) = some (CandidateResult.canceled message none)
stop_to_result (deadline message) = some (skipped message none)
stop_to_result (budget message) = some (skipped message none)
stop_to_result (halted message) = some (skipped message none)
stop_to_result (finished message) = none
stop_to_result (missing message) = none

-- What `resolveProvider` gave: whether there is a model to call, a hint if not, and a label.
pub record ResolvedProvider : Type 0 where
  pub has_model : Bool
  pub hint : Option String
  pub label : String

-- How the steps before the model call end: the job is dropped, the candidate is settled without a
-- call, or the run is marked as fanning out and the model is called.
pub data Beginning : Type 0 where
  drops calls : Beginning
  settles : CandidateResult → Beginning

abbrev pub settle_if : Option CandidateResult → Beginning
settle_if none = drops
settle_if (some result) = settles result

-- What `processCandidateJob` decides before the call; `none` is a run or a candidate that is not
-- there. `paused` is the text of a pause until a time.
unfoldable pub process_candidate_job :
    (paused : String → ℕ → String)
    → Option Candidate
    → Option StopReason
    → ResolvedProvider
    → BreakerState
    → Beginning
unfolding already_settled stop_to_result
process_candidate_job paused none stop provider breaker = drops
process_candidate_job paused (some candidate) stop provider breaker =
    let at_breaker : Beginning = elim breaker [
      | closed ↦ calls
      | open_until until ↦ settles (skipped (paused provider.label until) none)
    ] in
    let at_provider : Beginning =
      if provider.has_model
      then at_breaker
      else settles (skipped (or_else provider.hint "Provider is not configured") none) in
    if already_settled candidate
    then drops
    else (elim stop [ some reason ↦ settle_if (stop_to_result reason) | none ↦ at_provider ])

-- `Failure`, its error as its facts, and whether it is an `EmptyAnswerError`.
pub record Failure : Type 0 where
  pub facts : ErrorFacts
  pub is_empty_answer : Bool
  pub timed_out : Bool
  pub canceled : Bool

pub data Verdict : Type 0 where
  retries : Verdict
  settles_as : CandidateStatus → Verdict

abbrev pub is_retryable : Classification → Bool
is_retryable (retryable retry_after_ms reason) = true
is_retryable (permanent reason) = false

-- What `handleFailure` decides: the error is thrown to the queue, or the candidate is settled.
unfoldable pub handle_failure :
    (settings : Settings) → (is_final_attempt : Bool) → Failure → Verdict
handle_failure settings is_final_attempt failure =
    let again =
      not failure.canceled
      && not failure.timed_out
      && not failure.is_empty_answer
      && is_retryable (classify settings failure.facts) in
    if again && not is_final_attempt
    then retries
    else settles_as (if failure.canceled then CandidateStatus.canceled else CandidateStatus.error)

abbrev pub provider_eq : ProviderId → ProviderId → Bool
provider_eq openai openai = true
provider_eq anthropic anthropic = true
provider_eq google google = true
provider_eq _ _ = false

-- `byProvider.get(provider)`: the last review of the provider, since later entries of a `Map` win.
unfoldable pub review_of : ProviderId → List CandidateReview → Option CandidateReview
review_of provider [] = none
review_of provider (review ∷ reviews) =
    let later = review_of provider reviews in
    if is_some later
    then later
    else if provider_eq review.provider provider
    then some review
    else none

abbrev pub no_review : ProviderId → CandidateReview
no_review provider = record {
  provider = provider;
  score = "0";
  strengths = [];
  weaknesses = "The evaluator did not return a review for this candidate." ∷ [];
}

unfoldable pub normalise_reviews : List CandidateReview → List Candidate → List CandidateReview
unfolding review_of
normalise_reviews reviews candidates =
    map
      (λ (candidate : Candidate).
        or_else (review_of candidate.provider reviews) (no_review candidate.provider))
      candidates
