-- ===== src/Billing/Tests.antt =====
-- Two workspaces, one of them in dunning, and the theorems at them.
use self_consistency_answer.Common.{
  ◌≡◌, refl, false, not, ◌&&◌, ◌||◌, if◌then◌else◌, str_eq, none, some, String, [], ◌∷◌, ltb, ℕ,
  any, ◌==◌, arith,
}
use self_consistency_answer.Plans.{pro}
use self_consistency_answer.Billing.{
  Subscription, past_due, paused, free_subscription, resolve_access, is_full,
}
use self_consistency_answer.Billing.Table.{
  Table, get_subscription, find_tenant_id_for_billing_customer, same_id,
}
use self_consistency_answer.Billing.Events.{
  Host, SubscriptionData, PaymentData, payment_attempt, resolve_tenant_id,
}
use self_consistency_answer.Billing.Dunning.{IsDunning, apply_all, grace_is_not_extended}
use self_consistency_answer.Billing.Laws.{IsConsistent, apply_all-IsConsistent}

abbrev late : Subscription
late = record free_subscription {
  plan = pro;
  status = past_due;
  grace_ends_at = some 900_000;
  external_customer_id = some "cus_1";
}

abbrev held : Subscription
held = record free_subscription {
  plan = pro;
  status = paused;
  external_subscription_id = some "sub_2";
}

abbrev table : Table
table = (1, late) ∷ (2, held) ∷ []

abbrev host : Host
host = record {
  tenant_of_organization = λ organization. if str_eq organization "org_2" then some 2 else none;
  tenants_of_user = λ user. none;
  trim_lower = λ text. text;
  grace_period_days = 7;
}

abbrev failed_again : PaymentData
failed_again = record {
  payer_id = some "cus_1";
  payer = record { organization_id = none; user_id = none };
  status = "failed";
  failed_at = some 800;
}

abbrev iso : ℕ → String
iso at = "2026-11-26T00:00:00.000Z"

late-IsDunning : IsDunning 1 900_000 table
unfolding get_subscription
late-IsDunning = record { status = refl; grace = refl }

grace_is_not_extended_example :
    is_full
      (resolve_access iso
        (get_subscription 1 (apply_all host ((payment_attempt failed_again, 800_000) ∷ []) table))
        950_000).mode
    ≡ ltb 950_000 900_000
grace_is_not_extended_example =
    grace_is_not_extended host iso 1 900_000 ((payment_attempt failed_again, 800_000) ∷ []) table
      950_000 late-IsDunning refl

table-IsConsistent : IsConsistent ((1, late) ∷ [])
unfolding get_subscription
table-IsConsistent t = ground arith

apply_all-IsConsistent_example :
    IsConsistent (apply_all host ((payment_attempt failed_again, 800_000) ∷ []) ((1, late) ∷ []))
apply_all-IsConsistent_example =
    apply_all-IsConsistent host ((payment_attempt failed_again, 800_000) ∷ []) ((1, late) ∷ [])
      table-IsConsistent

-- A workspace that an operator paused, and a payment of its organization.
abbrev paid : PaymentData
paid = record {
  payer_id = none;
  payer = record { organization_id = some "org_2"; user_id = none };
  status = "paid";
  failed_at = none;
}

paid_resolves : resolve_tenant_id host (some paid.payer) paid.payer_id none table ≡ some 2
unfolding resolve_tenant_id
paid_resolves = refl

paid_fits :
    any
      (λ entry.
        not (entry.0 == 2)
        && (same_id entry.1.external_customer_id (get_subscription 2 table).external_customer_id
            || same_id entry.1.external_subscription_id
                (get_subscription 2 table).external_subscription_id))
      table
    ≡ false
unfolding get_subscription
paid_fits = refl

-- The first workspace's customer, with a subscription that is recorded for the second.
abbrev moved : SubscriptionData
moved = record {
  id = "sub_2";
  payer_id = "cus_1";
  payer = none;
  status = "active";
  items = [];
  past_due_at = none;
  canceled_at = none;
}

moved_found : find_tenant_id_for_billing_customer (some "cus_1") (some "sub_2") table ≡ some 1
unfolding find_tenant_id_for_billing_customer
moved_found = refl

moved_resolves : resolve_tenant_id host none (some "cus_1") (some "sub_2") table ≡ some 1
unfolding resolve_tenant_id
moved_resolves = refl
