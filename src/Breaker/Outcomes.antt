-- ===== src/Breaker/Outcomes.antt =====
-- The breaker against a reading of the history: what matters is the run of retryable failures since
-- the last success.
use self_consistency_answer.Common.{
  ℕ, suc, ◌+◌, ◌≤◌, ◌≡◌, refl, ap, Bool, true, false, ◌&&◌, ◌||◌, str_eq, or_else, Option, none,
  some, List, [], ◌∷◌, arith, ltb, leb, if◌then◌else◌,
}
use self_consistency_answer.Breaker.{
  ErrorFacts, Classification, retryable, permanent, Settings, closed, open_until, BreakerRow,
  Outcome, ok, failed, classify, read, record_failure, record_error, record_provider_outcome,
  breaker_state, retry_delay_ms,
}

pub record Event : Type 0 where
  pub outcome : Outcome
  pub now : ℕ

module _ (settings : Settings) where
  abbrev pub counts : Classification → Bool
  counts (permanent reason) = false
  counts (retryable retry_after_ms reason) = true

  -- The retryable failures since the last success, the latest event first.
  abbrev pub streak : List Event → ℕ
  streak [] = 0
  streak (e ∷ events) = elim e.outcome [
    | ok ↦ 0
    | failed facts ↦ if counts (classify settings facts) then suc (streak events) else streak events
  ]

  -- The time of the last of them.
  abbrev pub last_failure : List Event → ℕ
  last_failure [] = 0
  last_failure (e ∷ events) = elim e.outcome [
    | ok ↦ 0
    | failed facts ↦ if counts (classify settings facts) then e.now else last_failure events
  ]

  unfoldable pub store_after : List Event → Option BreakerRow
  unfolding record_provider_outcome
  store_after [] = none
  store_after (e ∷ events) = record_provider_outcome settings e.outcome e.now (store_after events)

  -- What the row says after a history.
  record Reflects (events : List Event) (store : Option BreakerRow) : Type 0 where
    failures : (read settings store).failures ≡ streak events
    until : (read settings store).open_until_ms ≡ (
        if leb settings.threshold (streak events)
        then last_failure events + settings.cooldown_ms
        else 0)

  record_error-Reflects :
      (c : Classification) (now : ℕ) (events : List Event) (store : Option BreakerRow)
      → Reflects events store
      → let row = read settings (record_error settings c now store) in
        let streak' = if counts c then suc (streak events) else streak events in
        (row.failures ≡ streak')
        × (row.open_until_ms ≡ (
            if leb settings.threshold streak'
            then (if counts c then now else last_failure events) + settings.cooldown_ms
            else 0))
  unfolding record_failure
  record_error-Reflects (permanent reason) now events store h = (h.failures, h.until)
  record_error-Reflects (retryable hint reason) now events store h =
      (ap suc h.failures, ground (arith, h.failures, h.until))

  outcome-Reflects :
      (outcome : Outcome) (now : ℕ) (events : List Event)
      → 1 ≤ settings.threshold
      → Reflects events (store_after events)
      → Reflects
          (record { outcome = outcome; now = now } ∷ events)
          (store_after (record { outcome = outcome; now = now } ∷ events))
  unfolding store_after
  outcome-Reflects ok now events positive h = record {
    failures = refl;
    until = ground (arith, positive);
  }
  outcome-Reflects (failed facts) now events positive h =
      let (same, until) =
        record_error-Reflects (classify settings facts) now events (store_after events) h in
      record { failures = same; until = until }

  store_after-Reflects :
      1 ≤ settings.threshold → (events : List Event) → Reflects events (store_after events)
  unfolding store_after
  store_after-Reflects positive [] = record { failures = refl; until = ground (arith, positive) }
  store_after-Reflects positive (e ∷ events) =
      outcome-Reflects e.outcome e.now events positive (store_after-Reflects positive events)

  -- After any history of calls, the breaker is open exactly if at least as many retryable failures
  -- as the threshold, which is not zero, came since the last success, and the cooldown after the
  -- last of them is not over; it is then open until the cooldown's end. Failures that are permanent
  -- do not count, wherever they come.
  pub open_iff_streak :
      (events : List Event) (now : ℕ)
      → 1 ≤ settings.threshold
      → let until = last_failure events + settings.cooldown_ms in
        breaker_state settings now (store_after events) ≡ (
          if leb settings.threshold (streak events) && ltb now until
          then open_until until
          else closed)
  unfolding breaker_state
  open_iff_streak events now positive =
      let e = (store_after-Reflects positive events).until in rw e (ground arith)

  -- An abort is the worker's own decision: whatever else its error says, it leaves the breaker as it
  -- was and waits for the queue's own delay. A rate limit (429) counts, and waits for as
  -- long as the provider asks, if it does.
  pub aborts_and_rate_limits :
      (facts : ErrorFacts) (now fallback_ms : ℕ) (store : Option BreakerRow)
      → let is_abort = str_eq facts.name "AbortError" || str_eq facts.name "TimeoutError" in
        (is_abort ≡ true
          → (record_provider_outcome settings (failed facts) now store ≡ store)
            × (retry_delay_ms settings facts fallback_ms ≡ fallback_ms))
        × (is_abort ≡ false
            → facts.status ≡ some 429
            → (record_provider_outcome settings (failed facts) now store
                ≡ record_failure settings now store)
              × (retry_delay_ms settings facts fallback_ms
                  ≡ or_else facts.retry_after_ms fallback_ms))
  unfolding record_provider_outcome retry_delay_ms classify
  aborts_and_rate_limits facts now fallback_ms store =
      (λ abort. rw abort (refl, refl), λ other limited. rw (other, limited) (refl, refl))
