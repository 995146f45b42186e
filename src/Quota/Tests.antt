-- ===== src/Quota/Tests.antt =====
-- Decisions on small inputs, and the theorems at inputs that meet their conditions.
use self_consistency_answer.Common.{◌*◌, ◌/◌, ◌≡◌, ◌↔◌, refl, false, some}
use self_consistency_answer.Plans.{free, pro, webhooks, plan_for, next_plan_up, has_entitlement}
use self_consistency_answer.Quota.{
  monthly_tokens, QuotaSnapshot, QuotaViolation, allowed, refused, Host, evaluate_quota,
}
use self_consistency_answer.Quota.Decisions.{IsBelow, allowed_iff}

-- A calendar of months of 30 days, and texts that leave the number out.
abbrev host : Host
host = record {
  to_text = λ n. "n";
  to_fixed = λ n d digits. "0.00";
  utc_full_year = λ t. 0;
  utc_month = λ t. t / 2_592_000_000;
  date_utc = λ year month. month * 2_592_000_000;
}

abbrev light : QuotaSnapshot
light = record { runs = 3; tokens = 9_000; cost_micro_cents = 1_000; active_runs = 0 }

-- Both the tokens and the runs in flight are at their ceiling.
abbrev heavy : QuotaSnapshot
heavy = record { runs = 3; tokens = 500_000; cost_micro_cents = 1_000; active_runs = 1 }

abbrev violation : QuotaViolation
violation = record {
  status = record {
    limit = monthly_tokens;
    used = 500_000;
    ceiling = some 500_000;
    remaining = some 0;
    reset_at = some 2_592_000_000;
  };
  plan = free;
  upgrade_to = some pro;
  message = "Monthly token limit reached — n of n tokens on the Free plan.";
}

webhooks_not_on_pro : has_entitlement pro webhooks ≡ false
unfolding has_entitlement
webhooks_not_on_pro = refl

allows_one : evaluate_quota host free light 5_000 ≡ allowed
unfolding evaluate_quota
allows_one = refl

refuses : evaluate_quota host free heavy 5_000 ≡ refused violation
unfolding evaluate_quota
refuses = refl

allowed_iff_example : (evaluate_quota host free light 5_000 ≡ allowed) ↔ (
    IsBelow (plan_for free).limits.monthly_runs 3
    × IsBelow (plan_for free).limits.monthly_tokens 9_000
    × IsBelow (plan_for free).limits.monthly_cost_micro_cents 1_000
    × IsBelow (plan_for free).limits.concurrent_runs 0)
allowed_iff_example = allowed_iff host free light 5_000

goes_up : next_plan_up free ≡ some pro
unfolding next_plan_up
goes_up = refl
