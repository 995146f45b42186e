-- ===== src/Panel/Calls.antt =====
-- When a panel member's model is called, and how often a failed call comes back.
use self_consistency_answer.Common.{
  ℕ, ◌≡◌, ◌≢◌, ◌↔◌, refl, inl, inr, Bool, true, false, Option, none, some, String, List, [], ◌∷◌,
  arith, All, Bool-cases, Option-cases, if◌then◌else◌,
}
use self_consistency_answer.Events.{CandidateStatus, Candidate}
use self_consistency_answer.Breaker.{Settings, classify, BreakerState, closed}
use self_consistency_answer.Runs.{StopReason}
use self_consistency_answer.Panel.{
  already_settled, cancel_pending_candidates, CandidateResult, stop_to_result, ResolvedProvider,
  settle_if, drops, calls, process_candidate_job, Failure, retries, settles_as, is_retryable,
  handle_failure, is_settled,
}

settle_if-ne-calls : (result : Option CandidateResult) → settle_if result ≢ calls
settle_if-ne-calls none h = cc
settle_if-ne-calls (some result) h = cc

-- A job calls the model exactly if its candidate is there and has not settled, nothing stops the
-- run, the provider has a model, and its breaker is closed; so none is made for a settled candidate.
pub calls_iff :
    (paused : String → ℕ → String) (candidate : Candidate) (stop : Option StopReason)
    (provider : ResolvedProvider) (breaker : BreakerState)
    → (process_candidate_job paused (some candidate) stop provider breaker ≡ calls) ↔ (
        (already_settled candidate ≡ false)
        × (stop ≡ none)
        × (provider.has_model ≡ true)
        × (breaker ≡ closed))
unfolding process_candidate_job
calls_iff paused candidate stop provider breaker = (
  λ h.
      let unsettled : already_settled candidate ≡ false = ground (arith, h) in
      let going : stop ≡ none = elim (Option-cases stop) [
        | inl e ↦ e
        | inr (reason, e) ↦
            absurd (settle_if-ne-calls (stop_to_result reason) (rw (unsettled, e) at h))
      ] in
      let model : provider.has_model ≡ true = ground (arith, h, unsettled, going) in
      (unsettled, going, model, ground (arith, h, unsettled, going, model)),
  λ (unsettled, going, model, shut). rw (unsettled, going, model, shut) refl,
)

-- A failed call is thrown back to the queue exactly if attempts are left, nobody canceled it or let
-- it time out, and the failure is a retryable one of the provider. So the last attempt settles the
-- candidate, and what it is settled as is a settled status.
pub retries_iff :
    (settings : Settings) (is_final_attempt : Bool) (failure : Failure)
    → ((handle_failure settings is_final_attempt failure ≡ retries) ↔ (
        (is_final_attempt ≡ false)
        × (failure.canceled ≡ false)
        × (failure.timed_out ≡ false)
        × (failure.is_empty_answer ≡ false)
        × (is_retryable (classify settings failure.facts) ≡ true)))
      × ((status : CandidateStatus)
          → handle_failure settings is_final_attempt failure ≡ settles_as status
          → is_settled status ≡ true)
unfolding handle_failure
retries_iff settings is_final_attempt failure = (
  (
    λ h. (
      ground (arith, h),
      ground (arith, h),
      ground (arith, h),
      ground (arith, h),
      ground (arith, h),
    ),
    λ (more, wanted, quick, full, again). rw (more, wanted, quick, full, again) refl,
  ),
  λ status h. ground (arith, h),
)

canceled_settles :
    (reason : String) (candidate : Candidate)
    → already_settled (
        if already_settled candidate
        then candidate
        else record candidate { status = CandidateStatus.canceled; error = some reason })
      ≡ true
unfolding already_settled
canceled_settles reason candidate = elim (Bool-cases (already_settled candidate)) [
  | inl settled ↦ rw (settled, settled) refl
  | inr at_work ↦ rw at_work refl
]

-- Once the pending candidates of a run are canceled, every job that then reads one of the panel's
-- rows is dropped, whatever its other steps find.
pub canceled_panel_drops :
    (paused : String → ℕ → String) (reason : String) (candidates : List Candidate)
    → All
        (λ (candidate : Candidate).
          (stop : Option StopReason) (provider : ResolvedProvider) (breaker : BreakerState)
          → process_candidate_job paused (some candidate) stop provider breaker ≡ drops)
        (cancel_pending_candidates reason candidates)
unfolding cancel_pending_candidates process_candidate_job
canceled_panel_drops paused reason [] = tt
canceled_panel_drops paused reason (candidate ∷ candidates) = (
  λ stop provider breaker. rw (canceled_settles reason candidate) refl,
  canceled_panel_drops paused reason candidates,
)
