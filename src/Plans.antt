-- ===== src/Plans.antt =====
-- packages/shared/src/plans.ts: the price list as data. Money is in micro-cents. A ceiling of `none`
-- is a limit that the plan does not impose.
use self_consistency_answer.Common.{
  ℕ, ◌+◌, ◌*◌, Bool, true, false, Option, none, some, String, List, [], ◌∷◌, any, filter, head?,
  ◌==◌,
}

pub data PlanId : Type 0 where
  free pro team enterprise : PlanId

abbrev pub plan_ids : List PlanId
plan_ids = free ∷ pro ∷ team ∷ enterprise ∷ []

pub data Feature : Type 0 where
  panel_custom api_keys usage_daily webhooks priority_queue : Feature

pub record PlanLimits : Type 0 where
  pub monthly_runs : Option ℕ
  pub monthly_tokens : Option ℕ
  pub monthly_cost_micro_cents : Option ℕ
  pub concurrent_runs : Option ℕ

pub record Plan : Type 0 where
  pub id : PlanId
  pub label : String
  pub price_micro_cents_per_month : ℕ
  pub self_serve : Bool
  pub limits : PlanLimits
  pub features : List Feature

abbrev pub usd : ℕ
usd = 100 * 1_000_000

-- `PLANS[id]`.
unfoldable pub plan_for : PlanId → Plan
plan_for free = record {
  id = free;
  label = "Free";
  price_micro_cents_per_month = 0;
  self_serve = true;
  limits = record {
    monthly_runs = some 50;
    monthly_tokens = some 500_000;
    monthly_cost_micro_cents = some (5 * usd);
    concurrent_runs = some 1;
  };
  features = [];
}
plan_for pro = record {
  id = pro;
  label = "Pro";
  price_micro_cents_per_month = 29 * usd;
  self_serve = true;
  limits = record {
    monthly_runs = some 1_000;
    monthly_tokens = some 20_000_000;
    monthly_cost_micro_cents = some (100 * usd);
    concurrent_runs = some 5;
  };
  features = panel_custom ∷ api_keys ∷ usage_daily ∷ [];
}
plan_for team = record {
  id = team;
  label = "Team";
  price_micro_cents_per_month = 199 * usd;
  self_serve = true;
  limits = record {
    monthly_runs = some 10_000;
    monthly_tokens = some 200_000_000;
    monthly_cost_micro_cents = some (1_000 * usd);
    concurrent_runs = some 20;
  };
  features = panel_custom ∷ api_keys ∷ usage_daily ∷ webhooks ∷ priority_queue ∷ [];
}
plan_for enterprise = record {
  id = enterprise;
  label = "Enterprise";
  price_micro_cents_per_month = 0;
  self_serve = false;
  limits = record {
    monthly_runs = none;
    monthly_tokens = none;
    monthly_cost_micro_cents = none;
    concurrent_runs = some 100;
  };
  features = panel_custom ∷ api_keys ∷ usage_daily ∷ webhooks ∷ priority_queue ∷ [];
}

abbrev pub feature_eq : Feature → Feature → Bool
feature_eq panel_custom panel_custom = true
feature_eq api_keys api_keys = true
feature_eq usage_daily usage_daily = true
feature_eq webhooks webhooks = true
feature_eq priority_queue priority_queue = true
feature_eq _ _ = false

unfoldable pub has_entitlement : PlanId → Feature → Bool
unfolding plan_for
has_entitlement plan feature =
    any (λ (granted : Feature). feature_eq granted feature) (plan_for plan).features

unfoldable pub plan_rank : PlanId → ℕ
plan_rank free = 0
plan_rank pro = 1
plan_rank team = 2
plan_rank enterprise = 3

unfoldable pub next_plan_up : PlanId → Option PlanId
unfolding plan_rank
next_plan_up plan =
    let rank = plan_rank plan in head? (filter (λ (id : PlanId). plan_rank id == rank + 1) plan_ids)
