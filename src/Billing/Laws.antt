-- ===== src/Billing/Laws.antt =====
-- What every event keeps, and what a paid invoice restores.
use self_consistency_answer.Common.{
  ℕ, ◌≡◌, refl, ap, subst, inl, inr, Bool, true, false, not, ◌&&◌, ◌||◌, none, some, String, List,
  [], ◌∷◌, arith, or_else, is_some, str_eq, ◌==◌, if◌then◌else◌, Bool-cases, Option-cases, any,
}
use self_consistency_answer.Billing.{Subscription, resolve_access, full_access, effective_plan}
use self_consistency_answer.Billing.Table.{
  Table, SubscriptionUpdate, get_subscription, put, write, is_taken, same_id, upsert_subscription,
  find_tenant_id_for_billing_customer,
}
use self_consistency_answer.Billing.Events.{
  Host, SubscriptionData, PaymentData, BillingEvent, subscription, payment_attempt, unrelated,
  is_past_due, from_unix_seconds, resolve_tenant_id, subscription_update, paid_update,
  failed_update, payment_update, apply_subscription_event, apply_payment_attempt_event,
  apply_billing_event,
}
use self_consistency_answer.Billing.Dunning.{upsert-get, apply_or_keep, apply_all}

-- A grace period is set on the tenants in dunning, and on no other.
abbrev pub IsConsistent : Table → Type 0
IsConsistent table =
    (t : ℕ)
    → is_some (get_subscription t table).grace_ends_at
      ≡ is_past_due (get_subscription t table).status

-- An update that sets the grace period with the status, or neither.
abbrev is_balanced : SubscriptionUpdate → Bool
is_balanced u = elim u.status [
  | none ↦ (elim u.grace_ends_at [ none ↦ true | some grace ↦ false ])
  | some status ↦ (elim u.grace_ends_at [
    | none ↦ false
    | some grace ↦ if is_some grace then is_past_due status else not (is_past_due status)
  ])
]

write_balanced :
    (u : SubscriptionUpdate) (s : Subscription)
    → is_balanced u ≡ true
    → is_some s.grace_ends_at ≡ is_past_due s.status
    → is_some (write u s).grace_ends_at ≡ is_past_due (write u s).status
unfolding write
write_balanced u s balanced h = ground (arith, h)

upsert-IsConsistent :
    (tenant : ℕ) (u : SubscriptionUpdate) (table after : Table)
    → is_balanced u ≡ true
    → upsert_subscription tenant u table ≡ some after
    → IsConsistent table
    → IsConsistent after
upsert-IsConsistent tenant u table after balanced h c t =
    let got = upsert-get tenant t u table after h in
    elim (Bool-cases (tenant == t)) [
      | inr differs ↦ rw (got, differs) (c t)
      | inl same ↦ rw (got, same) (write_balanced u (get_subscription t table) balanced (c t))
    ]

unchanged-IsConsistent :
    (table after : Table) → some table ≡ some after → IsConsistent table → IsConsistent after
unchanged-IsConsistent table after same c = subst IsConsistent (ap (λ o. or_else o table) same) c

any_or :
    (table : Table) (own by_customer by_subscription : ℕ × Subscription → Bool)
    → any (λ entry. not (own entry) && by_subscription entry) table ≡ true
    → any (λ entry. not (own entry) && (by_customer entry || by_subscription entry)) table ≡ true
any_or [] own by_customer by_subscription h = h
any_or (entry ∷ table) own by_customer by_subscription h =
    ground (arith, h, any_or table own by_customer by_subscription)

module _ (host : Host) where
  subscription_update_balanced :
      (tenant : ℕ) (body : SubscriptionData) (now : ℕ) (table : Table)
      → is_balanced (subscription_update host tenant body now table) ≡ true
  unfolding subscription_update
  subscription_update_balanced tenant body now table = ground arith

  payment-IsConsistent :
      (tenant : ℕ) (body : PaymentData) (now : ℕ) (table after : Table)
      → (elim (payment_update host body now (get_subscription tenant table)) [
        | none ↦ some table
        | some u ↦ upsert_subscription tenant u table
      ])
        ≡ some after
      → IsConsistent table
      → IsConsistent after
  payment-IsConsistent tenant body now table after h c =
      elim (Bool-cases (str_eq body.status "paid")) [
        | inl paid ↦ upsert-IsConsistent tenant (paid_update host) table after refl (rw paid at h) c
        | inr unpaid ↦ elim (Bool-cases (str_eq body.status "failed")) [
          | inl failed ↦
              upsert-IsConsistent tenant
                (failed_update host (get_subscription tenant table)
                  (or_else (from_unix_seconds body.failed_at) now))
                table after refl (rw (unpaid, failed) at h) c
          | inr other ↦ unchanged-IsConsistent table after (rw (unpaid, other) at h) c
        ]
      ]

  event-IsConsistent :
      (event : BillingEvent) (now : ℕ) (table after : Table)
      → apply_billing_event host event now table ≡ some after
      → IsConsistent table
      → IsConsistent after
  unfolding apply_billing_event apply_subscription_event apply_payment_attempt_event
  event-IsConsistent (subscription body) now table after h c =
      elim (Option-cases
        (resolve_tenant_id host body.payer (some body.payer_id) (some body.id) table)) [
          | inl nobody ↦
              unchanged-IsConsistent table after (rw (apply_subscription_event, nobody) at h) c
          | inr (tenant, resolved) ↦
              let u = subscription_update host tenant body now table in
              upsert-IsConsistent tenant u table after
                (subscription_update_balanced tenant body now table)
                (rw (apply_subscription_event, resolved) at h) c
        ]
  event-IsConsistent (payment_attempt body) now table after h c =
      elim (Option-cases (resolve_tenant_id host (some body.payer) body.payer_id none table)) [
        | inl nobody ↦
            unchanged-IsConsistent table after (rw (apply_payment_attempt_event, nobody) at h) c
        | inr (tenant, resolved) ↦
            payment-IsConsistent tenant body now table after
              (rw (apply_payment_attempt_event, resolved) at h) c
      ]
  event-IsConsistent unrelated now table after h c = unchanged-IsConsistent table after h c

  -- Whatever events of the provider are delivered, in whatever order, and whether or not some throw:
  -- a tenant has a grace period exactly while it is past due, if that was so before.
  pub apply_all-IsConsistent :
      (events : List (BillingEvent × ℕ)) (table : Table)
      → IsConsistent table
      → IsConsistent (apply_all host events table)
  apply_all-IsConsistent [] table c = c
  apply_all-IsConsistent ((event, now) ∷ events) table c =
      apply_all-IsConsistent events (apply_or_keep host event now table)
        (elim (Option-cases (apply_billing_event host event now table)) [
          | inl throws ↦ rw throws c
          | inr (after, applied) ↦ rw applied (event-IsConsistent event now table after applied c)
        ])

  paid_upsert :
      (tenant : ℕ) (table : Table)
      → is_taken tenant (get_subscription tenant table) table ≡ false
      → upsert_subscription tenant (paid_update host) table
        ≡ some (put tenant (write (paid_update host) (get_subscription tenant table)) table)
  unfolding upsert_subscription get_subscription write
  paid_upsert tenant table fits = simp fits refl

  paid_applied :
      (tenant : ℕ) (body : PaymentData) (now : ℕ) (table : Table)
      → body.status ≡ "paid"
      → resolve_tenant_id host (some body.payer) body.payer_id none table ≡ some tenant
      → is_taken tenant (get_subscription tenant table) table ≡ false
      → apply_billing_event host (payment_attempt body) now table
        ≡ some (put tenant (write (paid_update host) (get_subscription tenant table)) table)
  unfolding apply_billing_event
  paid_applied tenant body now table paid resolved fits =
      let kind : payment_update host body now (get_subscription tenant table)
          ≡ some (paid_update host) =
        rw paid refl in
      rw (apply_payment_attempt_event, resolved, kind) (paid_upsert tenant table fits)

  -- A payment that succeeded gives the tenant full access to the plan it was last on, whatever its
  -- state was, a suspension or a cancellation included, if no index holds its ids for another.
  pub paid_restores :
      (iso : ℕ → String) (tenant : ℕ) (body : PaymentData) (now at : ℕ) (table : Table)
      → body.status ≡ "paid"
      → resolve_tenant_id host (some body.payer) body.payer_id none table ≡ some tenant
      → is_taken tenant (get_subscription tenant table) table ≡ false
      → let after = get_subscription tenant (apply_or_keep host (payment_attempt body) now table) in
        (resolve_access iso after at ≡ full_access)
        × (effective_plan iso after at ≡ (get_subscription tenant table).plan)
  unfolding resolve_access effective_plan write
  paid_restores iso tenant body now at table paid resolved fits =
      let s = get_subscription tenant table in
      let after = put tenant (write (paid_update host) s) table in
      let applied = paid_applied tenant body now table paid resolved fits in
      let got =
        upsert-get tenant tenant (paid_update host) table after (paid_upsert tenant table fits) in
      let same : tenant == tenant ≡ true = ground arith in rw (applied, got, same) (refl, refl)

  conflict_throws :
      (tenant : ℕ) (body : SubscriptionData) (now : ℕ) (table : Table)
      → find_tenant_id_for_billing_customer (some body.payer_id) (some body.id) table ≡ some tenant
      → any
          (λ entry.
            not (entry.0 == tenant) && same_id entry.1.external_subscription_id (some body.id))
          table
        ≡ true
      → upsert_subscription tenant (subscription_update host tenant body now table) table ≡ none
  unfolding upsert_subscription subscription_update write
  conflict_throws tenant body now table found other =
      let ours : tenant == tenant ≡ true = ground arith in
      let taken =
        any_or table (λ entry. entry.0 == tenant)
          (λ entry. same_id entry.1.external_customer_id (some body.payer_id))
          (λ entry. same_id entry.1.external_subscription_id (some body.id)) other in
      simp (found, ours, taken) refl

  -- Where the event's customer is of the workspace that pays, but its subscription is recorded for
  -- another workspace, the row that the two ids find first decides: if it is the payer's own, the
  -- event takes both ids for its own and the upsert throws, whenever it is delivered.
  pub ids_conflict :
      (tenant : ℕ) (body : SubscriptionData) (now : ℕ) (table : Table)
      → resolve_tenant_id host body.payer (some body.payer_id) (some body.id) table ≡ some tenant
      → find_tenant_id_for_billing_customer (some body.payer_id) (some body.id) table ≡ some tenant
      → any
          (λ entry.
            not (entry.0 == tenant) && same_id entry.1.external_subscription_id (some body.id))
          table
        ≡ true
      → apply_billing_event host (subscription body) now table ≡ none
  unfolding apply_billing_event
  ids_conflict tenant body now table resolved found other =
      rw (apply_subscription_event, resolved) (conflict_throws tenant body now table found other)
