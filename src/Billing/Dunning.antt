-- ===== src/Billing/Dunning.antt =====
-- What the events of a provider can and cannot do to a tenant's access.
use self_consistency_answer.Common.{
  ℕ, ◌≡◌, refl, ap, subst, inl, inr, Bool, true, false, ◌&&◌, none, some, String, List, [], ◌∷◌,
  arith, or_else, str_eq, eq_iff, ltb, ◌==◌, if◌then◌else◌, Bool-cases, Option-cases,
}
use self_consistency_answer.Billing.{
  active, trialing, past_due, canceled, paused, Subscription, is_full, free_subscription,
  resolve_access,
}
use self_consistency_answer.Billing.Table.{
  Table, SubscriptionUpdate, find_subscription, get_subscription, put, write, is_taken,
  upsert_subscription,
}
use self_consistency_answer.Billing.Events.{
  Host, SubscriptionData, BillingEvent, subscription, payment_attempt, unrelated,
  map_subscription_status, from_unix_seconds, resolve_tenant_id, grace_after, subscription_update,
  failed_update, apply_subscription_event, apply_payment_attempt_event, apply_billing_event,
}

-- A tenant may start runs exactly if it is paid up or in a trial, or a payment failed and its grace
-- period is not over. Otherwise it may only read.
pub full_iff :
    (iso : ℕ → String) (s : Subscription) (now : ℕ)
    → is_full (resolve_access iso s now).mode ≡ (elim s.status [
      | active ↦ true
      | trialing ↦ true
      | past_due ↦ (elim s.grace_ends_at [ none ↦ false | some ends ↦ ltb now ends ])
      | canceled ↦ false
      | paused ↦ false
    ])
unfolding resolve_access
full_iff iso s now = ground arith

find-put :
    (tenant other : ℕ) (s : Subscription) (table : Table)
    → find_subscription other (put tenant s table)
      ≡ (if tenant == other then some s else find_subscription other table)
find-put tenant other s [] = refl
find-put tenant other s ((t, r) ∷ table) = ground (arith, find-put tenant other s table)

-- What is read of a tenant after an update of some tenant.
pub upsert-get :
    (tenant other : ℕ) (u : SubscriptionUpdate) (table after : Table)
    → upsert_subscription tenant u table ≡ some after
    → get_subscription other after ≡ (
        if tenant == other
        then write u (get_subscription other table)
        else get_subscription other table)
unfolding upsert_subscription get_subscription
upsert-get tenant other u table after h =
    let s = write u (or_else (find_subscription tenant table) free_subscription) in
    elim (Bool-cases (is_taken tenant s table)) [
      | inl taken ↦ let impossible : none ≡ some after = rw taken at h in cc
      | inr fits ↦
          let same : some (put tenant s table) ≡ some after = rw fits at h in
          let same_table : put tenant s table ≡ after = ground arith in
          let found = find-put tenant other s table in rw⁻¹ same_table (ground (arith, found))
    ]

-- Whether an event reports a failed payment.
abbrev pub is_failing : BillingEvent → Bool
is_failing (subscription body) = str_eq body.status "past_due"
is_failing (payment_attempt body) = str_eq body.status "failed"
is_failing unrelated = false

-- A tenant in dunning until a time.
pub record IsDunning (tenant ends : ℕ) (table : Table) : Type 0 where
  pub status : (get_subscription tenant table).status ≡ past_due
  pub grace : (get_subscription tenant table).grace_ends_at ≡ some ends

upsert-IsDunning :
    (tenant other ends : ℕ) (u : SubscriptionUpdate) (table after : Table)
    → u.status ≡ some past_due
    → (tenant ≡ other → u.grace_ends_at ≡ some (some ends))
    → upsert_subscription tenant u table ≡ some after
    → IsDunning other ends table
    → IsDunning other ends after
unfolding write
upsert-IsDunning tenant other ends u table after status grace h d =
    let got = upsert-get tenant other u table after h in
    elim (Bool-cases (tenant == other)) [
      | inr differs ↦ record {
        status = rw (got, differs) d.status;
        grace = rw (got, differs) d.grace;
      }
      | inl same ↦
          let same_tenant : tenant ≡ other = ground arith in
          record {
            status = rw (got, same, status) refl;
            grace = rw (got, same, grace same_tenant) refl;
          }
    ]

module _ (host : Host) where
  kept :
      (tenant other ends failed_at : ℕ) (table : Table)
      → IsDunning other ends table
      → tenant ≡ other
      → grace_after host (get_subscription tenant table) failed_at ≡ ends
  unfolding grace_after
  kept tenant other ends failed_at table d same = rw (same, d.status, d.grace) refl

  abbrev failure_time : SubscriptionData → ℕ → ℕ
  failure_time body now = or_else (from_unix_seconds body.past_due_at) now

  unchanged-IsDunning :
      (other ends : ℕ) (table after : Table)
      → some table ≡ some after
      → IsDunning other ends table
      → IsDunning other ends after
  unchanged-IsDunning other ends table after same d =
      subst (IsDunning other ends) (ap (λ o. or_else o table) same) d

  event-IsDunning :
      (other ends : ℕ) (event : BillingEvent) (now : ℕ) (table after : Table)
      → is_failing event ≡ true
      → apply_billing_event host event now table ≡ some after
      → IsDunning other ends table
      → IsDunning other ends after
  unfolding apply_billing_event apply_subscription_event apply_payment_attempt_event
      subscription_update map_subscription_status
  event-IsDunning other ends (subscription body) now table after failing h d =
      let same : body.status ≡ "past_due" =
        ground (arith, failing, eq_iff body.status "past_due") in
      let status : map_subscription_status body.status ≡ some past_due = rw same refl in
      elim (Option-cases
        (resolve_tenant_id host body.payer (some body.payer_id) (some body.id) table)) [
          | inl nobody ↦
              unchanged-IsDunning other ends table after
                (rw (apply_subscription_event, nobody) at h) d
          | inr (tenant, resolved) ↦
              let u = subscription_update host tenant body now table in
              let done : upsert_subscription tenant u table ≡ some after =
                rw (apply_subscription_event, resolved) at h in
              upsert-IsDunning tenant other ends u table after status
                (λ e. rw (status, kept tenant other ends (failure_time body now) table d e) refl)
                done d
        ]
  event-IsDunning other ends (payment_attempt body) now table after failing h d =
      let same : body.status ≡ "failed" = ground (arith, failing, eq_iff body.status "failed") in
      elim (Option-cases (resolve_tenant_id host (some body.payer) body.payer_id none table)) [
        | inl nobody ↦
            unchanged-IsDunning other ends table after
              (rw (apply_payment_attempt_event, nobody) at h) d
        | inr (tenant, resolved) ↦
            let failed_at = or_else (from_unix_seconds body.failed_at) now in
            let u = failed_update host (get_subscription tenant table) failed_at in
            let done : upsert_subscription tenant u table ≡ some after =
              rw (apply_payment_attempt_event, resolved, same) at h in
            upsert-IsDunning tenant other ends u table after refl
              (λ e. rw (kept tenant other ends failed_at table d e) refl) done d
      ]
  event-IsDunning other ends unrelated now table after failing h d = cc

  -- What a delivered event leaves: an event that throws changes nothing, and is sent again.
  abbrev pub apply_or_keep : BillingEvent → ℕ → Table → Table
  apply_or_keep event now table = or_else (apply_billing_event host event now table) table

  abbrev pub apply_all : List (BillingEvent × ℕ) → Table → Table
  apply_all [] table = table
  apply_all ((event, now) ∷ events) table = apply_all events (apply_or_keep event now table)

  abbrev pub all_failing : List (BillingEvent × ℕ) → Bool
  all_failing [] = true
  all_failing ((event, now) ∷ events) = is_failing event && all_failing events

  apply_or_keep-IsDunning :
      (other ends : ℕ) (event : BillingEvent) (now : ℕ) (table : Table)
      → is_failing event ≡ true
      → IsDunning other ends table
      → IsDunning other ends (apply_or_keep event now table)
  apply_or_keep-IsDunning other ends event now table failing d =
      elim (Option-cases (apply_billing_event host event now table)) [
        | inl throws ↦ rw throws d
        | inr (after, applied) ↦
            rw applied (event-IsDunning other ends event now table after failing applied d)
      ]

  -- Take a tenant whose payment failed and whose grace period ends at a time. However many more
  -- events report failed payments, of this tenant or of others, new ones or repeats, the grace period
  -- still ends then: the tenant may start runs before that time, and may only read from it on.
  pub grace_is_not_extended :
      (iso : ℕ → String) (tenant ends : ℕ) (events : List (BillingEvent × ℕ)) (table : Table)
      (now : ℕ)
      → IsDunning tenant ends table
      → all_failing events ≡ true
      → is_full (resolve_access iso (get_subscription tenant (apply_all events table)) now).mode
        ≡ ltb now ends
  unfolding resolve_access
  grace_is_not_extended iso tenant ends [] table now d failing =
      rw (d.status, d.grace) (ground arith)
  grace_is_not_extended iso tenant ends ((event, at) ∷ events) table now d failing =
      let one : is_failing event ≡ true = ground arith in
      let rest : all_failing events ≡ true = ground arith in
      grace_is_not_extended iso tenant ends events (apply_or_keep event at table) now
        (apply_or_keep-IsDunning tenant ends event at table one d) rest
