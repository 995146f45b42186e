-- ===== src/Breaker.antt =====
-- packages/worker/src/resilience.ts: the circuit breaker of one provider (MemoryBreakerStore) and the
-- classification of failures, over the facts that errorFacts of packages/shared/src/errors.ts reads
-- off an error. The worker's settings are parameters, and so is what the host's regular expressions
-- and number formatting do.
pub mod Outcomes
mod Tests
use self_consistency_answer.Common.{
  ℕ, suc, ◌+◌, Bool, true, false, ◌||◌, Option, none, some, String, List, [], ◌∷◌, any, or_else,
  str_eq, ltb, leb, ◌==◌, if◌then◌else◌,
}
use Prim.Native.String.{◌++◌}

pub record ErrorFacts : Type 0 where
  pub message : String
  pub name : String
  pub status : Option ℕ
  pub retry_after_ms : Option ℕ

pub data Classification : Type 0 where
  retryable : (retry_after_ms : Option ℕ) → (reason : String) → Classification
  permanent : (reason : String) → Classification

abbrev pub retryable_statuses : List ℕ
retryable_statuses = 408 ∷ 409 ∷ 425 ∷ 429 ∷ 500 ∷ 502 ∷ 503 ∷ 504 ∷ 529 ∷ []

-- The worker's settings, whether a message matches `TRANSIENT_PATTERNS`, and the text of a number.
pub record Settings : Type 0 where
  pub threshold : ℕ
  pub cooldown_ms : ℕ
  pub is_transient : String → Bool
  pub to_text : ℕ → String

pub data BreakerState : Type 0 where
  closed : BreakerState
  open_until : ℕ → BreakerState

pub record BreakerRow : Type 0 where
  pub failures : ℕ
  pub open_until_ms : ℕ

pub data Outcome : Type 0 where
  ok : Outcome
  failed : ErrorFacts → Outcome

module _ (settings : Settings) where
  unfoldable pub classify : ErrorFacts → Classification
  classify facts =
      if str_eq facts.name "AbortError" || str_eq facts.name "TimeoutError"
      then permanent "aborted"
      else (elim facts.status [
        | some status ↦
            if any (λ s. s == status) retryable_statuses
            then retryable facts.retry_after_ms ("HTTP " ++ settings.to_text status)
            else permanent ("HTTP " ++ settings.to_text status)
        | none ↦
            if settings.is_transient facts.message
            then retryable none "transient network error"
            else permanent facts.name
      ])

  abbrev pub delay_of : Classification → ℕ → ℕ
  delay_of (permanent reason) fallback_ms = fallback_ms
  delay_of (retryable retry_after_ms reason) fallback_ms = or_else retry_after_ms fallback_ms

  unfoldable pub retry_delay_ms : ErrorFacts → ℕ → ℕ
  unfolding classify
  retry_delay_ms facts fallback_ms = delay_of (classify facts) fallback_ms

  -- `read`: a provider with no row has not failed.
  abbrev pub read : Option BreakerRow → BreakerRow
  read none = record { failures = 0; open_until_ms = 0 }
  read (some row) = row

  unfoldable pub record_failure : ℕ → Option BreakerRow → Option BreakerRow
  record_failure now store =
      let row = read store in
      let failures = suc row.failures in
      some (record {
        failures = failures;
        open_until_ms =
            if leb settings.threshold failures
            then now + settings.cooldown_ms
            else row.open_until_ms;
      })

  abbrev pub record_success : Option BreakerRow → Option BreakerRow
  record_success store = none

  abbrev pub record_error : Classification → ℕ → Option BreakerRow → Option BreakerRow
  record_error (permanent reason) now store = store
  record_error (retryable retry_after_ms reason) now store = record_failure now store

  unfoldable pub record_provider_outcome : Outcome → ℕ → Option BreakerRow → Option BreakerRow
  unfolding classify record_failure
  record_provider_outcome ok now store = record_success store
  record_provider_outcome (failed facts) now store = record_error (classify facts) now store

  unfoldable pub breaker_state : ℕ → Option BreakerRow → BreakerState
  breaker_state now store =
      let until = (read store).open_until_ms in if ltb now until then open_until until else closed
