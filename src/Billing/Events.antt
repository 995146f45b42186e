-- ===== src/Billing/Events.antt =====
-- packages/server/src/subscriptions.ts: what an event of the billing provider does to the table of
-- subscriptions. The identity tables, the grace period and the host's trimming of text are
-- parameters. Times of the provider are Unix seconds; the note for the audit log is left out.
use self_consistency_answer.Common.{
  ℕ, ◌*◌, Bool, true, false, ◌||◌, Option, none, some, String, List, [], ◌∷◌, or_else, str_eq, ◌==◌,
  is_some, if◌then◌else◌,
}
use self_consistency_answer.Plans.{PlanId}
use self_consistency_answer.Billing.{
  SubscriptionStatus, active, past_due, canceled, Subscription, grace_deadline,
}
use self_consistency_answer.Billing.Table.{
  Table, SubscriptionUpdate, no_update, get_subscription, upsert_subscription,
  find_tenant_id_for_billing_customer, plan_of_text,
}

pub record Payer : Type 0 where
  pub organization_id : Option String
  pub user_id : Option String

pub record Item : Type 0 where
  pub slug : Option String
  pub period_start : Option ℕ
  pub period_end : Option ℕ

pub record SubscriptionData : Type 0 where
  pub id : String
  pub payer_id : String
  pub payer : Option Payer
  pub status : String
  pub items : List Item
  pub past_due_at : Option ℕ
  pub canceled_at : Option ℕ

pub record PaymentData : Type 0 where
  pub payer_id : Option String
  pub payer : Payer
  pub status : String
  pub failed_at : Option ℕ

-- By the event's type: `subscription.*` of four kinds, `paymentAttempt.*` of two, and any other.
pub data BillingEvent : Type 0 where
  subscription : SubscriptionData → BillingEvent
  payment_attempt : PaymentData → BillingEvent
  unrelated : BillingEvent

unfoldable pub map_subscription_status : String → Option SubscriptionStatus
map_subscription_status status =
    if str_eq status "active"
    then some active
    else if str_eq status "past_due"
    then some past_due
    else if str_eq status "canceled"
        || (str_eq status "ended" || (str_eq status "expired" || str_eq status "abandoned"))
    then some canceled
    else none

unfoldable pub from_unix_seconds : Option ℕ → Option ℕ
from_unix_seconds none = none
from_unix_seconds (some seconds) = if seconds == 0 then none else some (seconds * 1_000)

abbrev pub is_past_due : SubscriptionStatus → Bool
is_past_due past_due = true
is_past_due status = false

-- `getTenantByExternalId`, and the tenants of `findUserByExternalId` and `listMemberships`.
pub record Host : Type 0 where
  pub tenant_of_organization : String → Option ℕ
  pub tenants_of_user : String → Option (List ℕ)
  pub trim_lower : String → String
  pub grace_period_days : ℕ

pub record PlanOfItems : Type 0 where
  pub plan : Option PlanId
  pub period_start : Option ℕ
  pub period_end : Option ℕ

-- The one membership, if there is one.
abbrev pub only : List ℕ → Option ℕ
only (tenant ∷ []) = some tenant
only tenants = none

abbrev pub or_try {ℓ} : {A : Type ℓ} → Option A → Option A → Option A
or_try none second = second
or_try (some a) second = some a

abbrev pub then_try {ℓ} : {A B : Type ℓ} → Option A → (A → Option B) → Option B
then_try none f = none
then_try (some a) f = f a

module _ (host : Host) where
  abbrev pub tenant_of_payer : Option Payer → Option ℕ
  tenant_of_payer none = none
  tenant_of_payer (some payer) =
      or_try (then_try payer.organization_id host.tenant_of_organization)
        (then_try (then_try payer.user_id host.tenants_of_user) only)

  unfoldable pub resolve_tenant_id : Option Payer → Option String → Option String → Table → Option ℕ
  unfolding find_tenant_id_for_billing_customer
  resolve_tenant_id payer customer_id subscription_id table =
      or_try (tenant_of_payer payer)
        (find_tenant_id_for_billing_customer customer_id subscription_id table)

  abbrev pub plan_of_item : Item → Option PlanId
  plan_of_item item = then_try item.slug (λ slug. plan_of_text (host.trim_lower slug))

  abbrev pub with_periods : Option PlanId → Item → PlanOfItems
  with_periods plan item = record {
    plan = plan;
    period_start = from_unix_seconds item.period_start;
    period_end = from_unix_seconds item.period_end;
  }

  abbrev pub first_periods : List Item → PlanOfItems
  first_periods [] = record { plan = none; period_start = none; period_end = none }
  first_periods (item ∷ items) = with_periods none item

  abbrev pub first_known : List Item → Option PlanOfItems
  first_known [] = none
  first_known (item ∷ items) =
      let rest = first_known items in
      elim (plan_of_item item) [ none ↦ rest | some plan ↦ some (with_periods (some plan) item) ]

  unfoldable pub plan_from_items : List Item → PlanOfItems
  unfolding from_unix_seconds plan_of_text
  plan_from_items items = or_else (first_known items) (first_periods items)

  -- The dunning window after a failure: one that is open is kept.
  unfoldable pub grace_after : Subscription → ℕ → ℕ
  unfolding grace_deadline
  grace_after existing failed_at =
      if is_past_due existing.status
      then or_else existing.grace_ends_at (grace_deadline failed_at host.grace_period_days)
      else grace_deadline failed_at host.grace_period_days

  abbrev pub grace_for : Option SubscriptionStatus → Subscription → ℕ → Option (Option ℕ)
  grace_for none existing failed_at = none
  grace_for (some status) existing failed_at =
      some (if is_past_due status then some (grace_after existing failed_at) else none)

  abbrev pub are_ours : ℕ → Option ℕ → Bool
  are_ours tenant none = true
  are_ours tenant (some owner) = owner == tenant

  unfoldable pub subscription_update : ℕ → SubscriptionData → ℕ → Table → SubscriptionUpdate
  unfolding map_subscription_status plan_from_items grace_after get_subscription
      find_tenant_id_for_billing_customer
  subscription_update tenant body now table =
      let items = plan_from_items body.items in
      let status = map_subscription_status body.status in
      let owner = find_tenant_id_for_billing_customer (some body.payer_id) (some body.id) table in
      let ours = are_ours tenant owner in
      record {
        plan = items.plan;
        status = status;
        external_customer_id = if ours then some body.payer_id else none;
        external_subscription_id = if ours then some body.id else none;
        current_period_start = some items.period_start;
        current_period_end = some items.period_end;
        cancel_at_period_end = some (is_some (from_unix_seconds body.canceled_at));
        grace_ends_at =
            grace_for status (get_subscription tenant table)
              (or_else (from_unix_seconds body.past_due_at) now);
      }

  -- `none` where the upsert throws.
  unfoldable pub apply_subscription_event : SubscriptionData → ℕ → Table → Option Table
  unfolding resolve_tenant_id subscription_update upsert_subscription
  apply_subscription_event body now table =
      elim (resolve_tenant_id body.payer (some body.payer_id) (some body.id) table) [
        | none ↦ some table
        | some tenant ↦ upsert_subscription tenant (subscription_update tenant body now table) table
      ]

  abbrev pub paid_update : SubscriptionUpdate
  paid_update = record no_update { status = some active; grace_ends_at = some none }

  abbrev pub failed_update : Subscription → ℕ → SubscriptionUpdate
  failed_update existing failed_at = record no_update {
    status = some past_due;
    grace_ends_at = some (some (grace_after existing failed_at));
  }

  abbrev pub payment_update : PaymentData → ℕ → Subscription → Option SubscriptionUpdate
  payment_update body now existing =
      if str_eq body.status "paid"
      then some paid_update
      else if str_eq body.status "failed"
      then some (failed_update existing (or_else (from_unix_seconds body.failed_at) now))
      else none

  unfoldable pub apply_payment_attempt_event : PaymentData → ℕ → Table → Option Table
  unfolding resolve_tenant_id upsert_subscription get_subscription grace_after
  apply_payment_attempt_event body now table =
      elim (resolve_tenant_id (some body.payer) body.payer_id none table) [
        | none ↦ some table
        | some tenant ↦ elim (payment_update body now (get_subscription tenant table)) [
          | none ↦ some table
          | some u ↦ upsert_subscription tenant u table
        ]
      ]

  unfoldable pub apply_billing_event : BillingEvent → ℕ → Table → Option Table
  unfolding apply_subscription_event apply_payment_attempt_event
  apply_billing_event (subscription body) now table = apply_subscription_event body now table
  apply_billing_event (payment_attempt body) now table = apply_payment_attempt_event body now table
  apply_billing_event unrelated now table = some table
