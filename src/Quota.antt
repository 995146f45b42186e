-- ===== src/Quota.antt =====
-- packages/shared/src/quota.ts: whether a tenant may start another run. What the JavaScript host
-- does (number formatting and the UTC calendar) is a parameter; a reset time stands as its
-- milliseconds of the epoch in place of the ISO text that is parsed back.
pub mod Decisions
mod Tests
use self_consistency_answer.Common.{
  ℕ, suc, ◌+◌, ◌-◌, max, Bool, true, false, Option, none, some, String, List, [], ◌∷◌, map, ltb,
  ceil_div, if◌then◌else◌,
}
use Prim.Native.String.{◌++◌}
use self_consistency_answer.Plans.{PlanId, PlanLimits, usd, plan_for, next_plan_up}

pub data QuotaLimit : Type 0 where
  monthly_runs monthly_tokens monthly_cost concurrent_runs : QuotaLimit

abbrev pub quota_limits : List QuotaLimit
quota_limits = monthly_runs ∷ monthly_tokens ∷ monthly_cost ∷ concurrent_runs ∷ []

pub record QuotaSnapshot : Type 0 where
  pub runs : ℕ
  pub tokens : ℕ
  pub cost_micro_cents : ℕ
  pub active_runs : ℕ

pub record QuotaStatus : Type 0 where
  pub limit : QuotaLimit
  pub used : ℕ
  pub ceiling : Option ℕ
  pub remaining : Option ℕ
  pub reset_at : Option ℕ

pub record QuotaViolation : Type 0 where
  pub status : QuotaStatus
  pub plan : PlanId
  pub upgrade_to : Option PlanId
  pub message : String

pub data QuotaDecision : Type 0 where
  allowed : QuotaDecision
  refused : QuotaViolation → QuotaDecision

pub record MonthWindow : Type 0 where
  pub from : ℕ
  pub to : ℕ

-- The host: the text of a number, `(n / d).toFixed(digits)`, and the UTC calendar, whose `Date.UTC`
-- takes a year and a month and gives the first moment of that month.
pub record Host : Type 0 where
  pub to_text : ℕ → String
  pub to_fixed : ℕ → ℕ → ℕ → String
  pub utc_full_year : ℕ → ℕ
  pub utc_month : ℕ → ℕ
  pub date_utc : ℕ → ℕ → ℕ

unfoldable pub ceiling_for : PlanLimits → QuotaLimit → Option ℕ
ceiling_for limits monthly_runs = limits.monthly_runs
ceiling_for limits monthly_tokens = limits.monthly_tokens
ceiling_for limits monthly_cost = limits.monthly_cost_micro_cents
ceiling_for limits concurrent_runs = limits.concurrent_runs

unfoldable pub used_for : QuotaSnapshot → QuotaLimit → ℕ
used_for snapshot monthly_runs = snapshot.runs
used_for snapshot monthly_tokens = snapshot.tokens
used_for snapshot monthly_cost = snapshot.cost_micro_cents
used_for snapshot concurrent_runs = snapshot.active_runs

unfoldable pub reset_at_for : QuotaLimit → MonthWindow → Option ℕ
reset_at_for concurrent_runs window = none
reset_at_for _ window = some window.to

module _ (host : Host) where
  unfoldable pub month_window : ℕ → MonthWindow
  month_window now = record {
    from = host.date_utc (host.utc_full_year now) (host.utc_month now);
    to = host.date_utc (host.utc_full_year now) (host.utc_month now + 1);
  }

  -- `formatMicroCentsUsd` of pricing.ts.
  unfoldable pub format_micro_cents_usd : ℕ → ℕ → String
  format_micro_cents_usd micro_cents digits = "$" ++ host.to_fixed micro_cents usd digits

  unfoldable pub describe_limit : QuotaLimit → ℕ → ℕ → PlanId → String
  unfolding plan_for format_micro_cents_usd
  describe_limit monthly_runs used ceiling plan =
      "Monthly run limit reached — "
      ++ host.to_text used
      ++ " of "
      ++ host.to_text ceiling
      ++ " runs on the "
      ++ (plan_for plan).label
      ++ " plan."
  describe_limit monthly_tokens used ceiling plan =
      "Monthly token limit reached — "
      ++ host.to_text used
      ++ " of "
      ++ host.to_text ceiling
      ++ " tokens on the "
      ++ (plan_for plan).label
      ++ " plan."
  describe_limit monthly_cost used ceiling plan =
      "Monthly spend limit reached — "
      ++ format_micro_cents_usd used 2
      ++ " of "
      ++ format_micro_cents_usd ceiling 2
      ++ " on the "
      ++ (plan_for plan).label
      ++ " plan."
  describe_limit concurrent_runs used ceiling plan =
      "Too many runs in flight — "
      ++ host.to_text used
      ++ " of "
      ++ host.to_text ceiling
      ++ " concurrent runs on the "
      ++ (plan_for plan).label
      ++ " plan. Wait for one to finish."

  abbrev pub remaining_of : Option ℕ → ℕ → Option ℕ
  remaining_of none used = none
  remaining_of (some ceiling) used = some (ceiling - used)

  unfoldable pub quota_status : PlanId → QuotaSnapshot → ℕ → QuotaLimit → QuotaStatus
  unfolding plan_for ceiling_for used_for reset_at_for month_window
  quota_status plan snapshot now limit =
      let ceiling = ceiling_for (plan_for plan).limits limit in
      let used = used_for snapshot limit in
      record {
        limit = limit;
        used = used;
        ceiling = ceiling;
        remaining = remaining_of ceiling used;
        reset_at = reset_at_for limit (month_window now);
      }

  unfoldable pub quota_statuses : PlanId → QuotaSnapshot → ℕ → List QuotaStatus
  unfolding quota_status
  quota_statuses plan snapshot now = map (quota_status plan snapshot now) quota_limits

  -- The loop of `evaluateQuota`: the first status at its ceiling refuses.
  unfoldable pub first_refusal : PlanId → List QuotaStatus → QuotaDecision
  unfolding next_plan_up describe_limit
  first_refusal plan [] = allowed
  first_refusal plan (status ∷ statuses) =
      let rest = first_refusal plan statuses in
      elim status.ceiling [
        | none ↦ rest
        | some ceiling ↦
            if ltb status.used ceiling
            then rest
            else refused (record {
              status = status;
              plan = plan;
              upgrade_to = next_plan_up plan;
              message = describe_limit status.limit status.used ceiling plan;
            })
      ]

  unfoldable pub evaluate_quota : PlanId → QuotaSnapshot → ℕ → QuotaDecision
  unfolding first_refusal quota_statuses
  evaluate_quota plan snapshot now = first_refusal plan (quota_statuses plan snapshot now)

unfoldable pub retry_after_seconds : QuotaViolation → ℕ → ℕ
retry_after_seconds violation now = elim violation.status.reset_at [
  | none ↦ 30
  | some reset_at ↦ max 1 (ceil_div (reset_at - now) 1000)
]
