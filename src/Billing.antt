-- ===== src/Billing.antt =====
-- packages/shared/src/billing.ts: what a subscription lets a tenant do. Dates are milliseconds; the
-- text of one is a parameter.
pub mod Table
pub mod Events
pub mod Dunning
pub mod Laws
mod Tests
use self_consistency_answer.Common.{
  ℕ, ◌+◌, ◌*◌, Bool, true, false, Option, none, some, String, ltb, if◌then◌else◌,
}
use self_consistency_answer.Plans.{PlanId, free}
use Prim.Native.String.{◌++◌}

pub data SubscriptionStatus : Type 0 where
  active trialing past_due canceled paused : SubscriptionStatus

pub record Subscription : Type 0 where
  pub plan : PlanId
  pub status : SubscriptionStatus
  pub current_period_start : Option ℕ
  pub current_period_end : Option ℕ
  pub cancel_at_period_end : Bool
  pub grace_ends_at : Option ℕ
  pub external_customer_id : Option String
  pub external_subscription_id : Option String

abbrev pub free_subscription : Subscription
free_subscription = record {
  plan = free;
  status = active;
  current_period_start = none;
  current_period_end = none;
  cancel_at_period_end = false;
  grace_ends_at = none;
  external_customer_id = none;
  external_subscription_id = none;
}

pub data AccessMode : Type 0 where
  full read_only : AccessMode

pub data AccessReason : Type 0 where
  payment_past_due subscription_canceled subscription_paused : AccessReason

pub record Access : Type 0 where
  pub mode : AccessMode
  pub reason : Option AccessReason
  pub grace_ends_at : Option ℕ
  pub message : String

abbrev pub full_access : Access
full_access = record { mode = full; reason = none; grace_ends_at = none; message = "" }

unfoldable pub within_grace : Option ℕ → ℕ → Bool
within_grace none now = false
within_grace (some ends) now = ltb now ends

abbrev pub is_full : AccessMode → Bool
is_full full = true
is_full read_only = false

abbrev pub default_grace_period_days : ℕ
default_grace_period_days = 7

unfoldable pub grace_deadline : ℕ → ℕ → ℕ
grace_deadline failed_at days = failed_at + days * 86_400_000

-- The text of a date.
module _ (iso : ℕ → String) where
  abbrev pub date_text : Option ℕ → String
  date_text none = "null"
  date_text (some at) = iso at

  abbrev pub past_due_access : Option ℕ → ℕ → Access
  past_due_access ends now =
      if within_grace ends now
      then record {
        mode = full;
        reason = some payment_past_due;
        grace_ends_at = ends;
        message =
            "A payment failed. Update the card on file before "
            ++ (date_text ends ++ " to avoid interruption.");
      }
      else record {
        mode = read_only;
        reason = some payment_past_due;
        grace_ends_at = ends;
        message =
            "This workspace is read-only because a payment failed. Existing runs remain available; update the card on file to start new ones.";
      }

  abbrev pub access_of : SubscriptionStatus → Option ℕ → ℕ → Access
  access_of active ends now = full_access
  access_of trialing ends now = full_access
  access_of past_due ends now = past_due_access ends now
  access_of canceled ends now = record {
    mode = read_only;
    reason = some subscription_canceled;
    grace_ends_at = none;
    message =
        "This subscription has ended. Existing runs remain available; resubscribe to start new ones.";
  }
  access_of paused ends now = record {
    mode = read_only;
    reason = some subscription_paused;
    grace_ends_at = none;
    message = "This workspace is paused. Contact support to restore access.";
  }

  unfoldable pub resolve_access : Subscription → ℕ → Access
  unfolding within_grace
  resolve_access subscription now = access_of subscription.status subscription.grace_ends_at now

  unfoldable pub effective_plan : Subscription → ℕ → PlanId
  unfolding resolve_access
  effective_plan subscription now =
      if is_full (resolve_access subscription now).mode then subscription.plan else free
