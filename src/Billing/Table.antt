-- ===== src/Billing/Table.antt =====
-- packages/db/src/billing.ts: the table of subscriptions, a row for a tenant and the provider's ids
-- unique. A tenant without a row reads as free and active, which is also what the table's defaults
-- make of a new row.
use self_consistency_answer.Common.{
  ℕ, Bool, false, not, ◌&&◌, ◌||◌, Option, none, some, String, List, [], ◌∷◌, any, or_else, str_eq,
  ◌==◌, if◌then◌else◌,
}
use self_consistency_answer.Plans.{PlanId, free, pro, team, enterprise}
use self_consistency_answer.Billing.{SubscriptionStatus, Subscription, free_subscription}

abbrev pub Table : Type 0
Table = List (ℕ × Subscription)

-- The fields that a billing event may set; `none` leaves a field alone.
pub record SubscriptionUpdate : Type 0 where
  pub plan : Option PlanId
  pub status : Option SubscriptionStatus
  pub external_customer_id : Option String
  pub external_subscription_id : Option String
  pub current_period_start : Option (Option ℕ)
  pub current_period_end : Option (Option ℕ)
  pub cancel_at_period_end : Option Bool
  pub grace_ends_at : Option (Option ℕ)

abbrev pub no_update : SubscriptionUpdate
no_update = record {
  plan = none;
  status = none;
  external_customer_id = none;
  external_subscription_id = none;
  current_period_start = none;
  current_period_end = none;
  cancel_at_period_end = none;
  grace_ends_at = none;
}

abbrev pub find_subscription : ℕ → Table → Option Subscription
find_subscription tenant [] = none
find_subscription tenant ((t, s) ∷ table) =
    if t == tenant then some s else find_subscription tenant table

unfoldable pub get_subscription : ℕ → Table → Subscription
get_subscription tenant table = or_else (find_subscription tenant table) free_subscription

abbrev pub put : ℕ → Subscription → Table → Table
put tenant s [] = (tenant, s) ∷ []
put tenant s ((t, r) ∷ table) = if t == tenant then (t, s) ∷ table else (t, r) ∷ put tenant s table

abbrev pub first_set : Option String → Option String → Option String
first_set none old = old
first_set (some new) old = some new

unfoldable pub write : SubscriptionUpdate → Subscription → Subscription
write u s = record {
  plan = or_else u.plan s.plan;
  status = or_else u.status s.status;
  current_period_start = or_else u.current_period_start s.current_period_start;
  current_period_end = or_else u.current_period_end s.current_period_end;
  cancel_at_period_end = or_else u.cancel_at_period_end s.cancel_at_period_end;
  grace_ends_at = or_else u.grace_ends_at s.grace_ends_at;
  external_customer_id = first_set u.external_customer_id s.external_customer_id;
  external_subscription_id = first_set u.external_subscription_id s.external_subscription_id;
}

-- Two columns that are both set, and the same.
abbrev pub same_id : Option String → Option String → Bool
same_id (some a) (some b) = str_eq a b
same_id a b = false

-- Whether a unique index has one of a row's ids for another tenant.
abbrev pub is_taken : ℕ → Subscription → Table → Bool
is_taken tenant s table =
    any
      (λ entry.
        not (entry.0 == tenant)
        && (same_id entry.1.external_customer_id s.external_customer_id
            || same_id entry.1.external_subscription_id s.external_subscription_id))
      table

-- `none` where an index refuses the row and the upsert throws.
unfoldable pub upsert_subscription : ℕ → SubscriptionUpdate → Table → Option Table
upsert_subscription tenant u table =
    let s = write u (or_else (find_subscription tenant table) free_subscription) in
    if is_taken tenant s table then none else some (put tenant s table)

unfoldable pub ensure_unmetered_plan : ℕ → Table → Table
ensure_unmetered_plan tenant table = elim (find_subscription tenant table) [
  | none ↦ put tenant (record free_subscription { plan = enterprise }) table
  | some s ↦ table
]

-- An empty id is no id.
abbrev pub truthy : Option String → Option String
truthy none = none
truthy (some id) = if str_eq id "" then none else some id

unfoldable pub find_tenant_id_for_billing_customer :
    Option String → Option String → Table → Option ℕ
find_tenant_id_for_billing_customer customer_id subscription_id [] = none
find_tenant_id_for_billing_customer customer_id subscription_id ((t, s) ∷ table) =
    if same_id (truthy customer_id) s.external_customer_id
      || same_id (truthy subscription_id) s.external_subscription_id
    then some t
    else find_tenant_id_for_billing_customer customer_id subscription_id table

-- `planIdSchema` on a text that is trimmed and in lower case.
unfoldable pub plan_of_text : String → Option PlanId
plan_of_text text =
    if str_eq text "free"
    then some free
    else if str_eq text "pro"
    then some pro
    else if str_eq text "team"
    then some team
    else if str_eq text "enterprise"
    then some enterprise
    else none
