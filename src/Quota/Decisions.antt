-- ===== src/Quota/Decisions.antt =====
-- What the quota decides: exactly when it refuses, what it then says, and what an upgrade changes.
use self_consistency_answer.Common.{
  ℕ, ◌+◌, ◌*◌, ◌≤◌, ◌<◌, ◌≡◌, ◌↔◌, ◌⊎◌, ◌≢◌, inl, inr, refl, sym, ap, ◌∙◌, subst, Option, none,
  some, List, [], ◌∷◌, arith, All, ltb, map, Option-cases, Bool-cases, ltb→lt, ltb→le, ◌++◌,
}
use self_consistency_answer.Plans.{PlanId, free, pro, team, enterprise, plan_for, next_plan_up}
use self_consistency_answer.Quota.{
  QuotaLimit, monthly_runs, monthly_tokens, monthly_cost, concurrent_runs, quota_limits,
  QuotaSnapshot, QuotaStatus, QuotaViolation, QuotaDecision, MonthWindow, allowed, refused, Host,
  ceiling_for, used_for, reset_at_for, month_window, quota_status, quota_statuses, first_refusal,
  evaluate_quota, retry_after_seconds, describe_limit,
}

abbrev pub IsBelow : Option ℕ → ℕ → Type 0
IsBelow none used = Unit {0}
IsBelow (some ceiling) used = used < ceiling

-- The tenant is below the plan's ceiling for the limit.
abbrev pub HasRoom : PlanId → QuotaSnapshot → QuotaLimit → Type 0
HasRoom plan snapshot limit =
    IsBelow (ceiling_for (plan_for plan).limits limit) (used_for snapshot limit)

module _ (host : Host) (plan : PlanId) (snapshot : QuotaSnapshot) (now : ℕ) where
  abbrev pub decide : List QuotaLimit → QuotaDecision
  decide limits = first_refusal host plan (map (quota_status host plan snapshot now) limits)

  -- What is said of the limit that refuses.
  pub record IsReached (v : QuotaViolation) : Type 0 where
    pub ceiling : ℕ
    pub sets : ceiling_for (plan_for plan).limits v.status.limit ≡ some ceiling
    pub reached : ceiling ≤ used_for snapshot v.status.limit
    pub says : v.status ≡ quota_status host plan snapshot now v.status.limit
    pub nothing_left : v.status.remaining ≡ some 0
    pub upgrade : v.upgrade_to ≡ next_plan_up plan

  decide-cons :
      (limit : QuotaLimit) (limits : List QuotaLimit)
      → (HasRoom plan snapshot limit × (decide (limit ∷ limits) ≡ decide limits))
        ⊎ ((v : QuotaViolation) × (v.status.limit ≡ limit)
            × IsReached v
            × (decide (limit ∷ limits) ≡ refused v))
  unfolding first_refusal quota_status
  decide-cons limit limits = elim (Option-cases (ceiling_for (plan_for plan).limits limit)) [
    | inl no_ceiling ↦ inl (rw no_ceiling (tt, refl))
    | inr (ceiling, e) ↦ elim (Bool-cases (ltb (used_for snapshot limit) ceiling)) [
      | inl below ↦ inl (rw (e, below) (ltb→lt (used_for snapshot limit) ceiling below, refl))
      | inr full ↦ inr (
        record {
          status = quota_status host plan snapshot now limit;
          plan = plan;
          upgrade_to = next_plan_up plan;
          message = describe_limit host limit (used_for snapshot limit) ceiling plan;
        },
        refl,
        record {
          ceiling = ceiling;
          sets = e;
          reached = ltb→le (used_for snapshot limit) ceiling full;
          says = refl;
          nothing_left =
              rw e (ap some (omega (arith, ltb→le (used_for snapshot limit) ceiling full)));
          upgrade = refl;
        },
        rw (e, full) refl,
      )
    ]
  ]

  no_room : (v : QuotaViolation) → IsReached v → HasRoom plan snapshot v.status.limit → ⊥
  no_room v r h =
      let below : IsBelow (some r.ceiling) (used_for snapshot v.status.limit) =
        subst (λ c. IsBelow c (used_for snapshot v.status.limit)) r.sets h in
      omega (arith, below, r.reached)

  decide-nil : decide [] ≡ allowed
  unfolding first_refusal
  decide-nil = refl

  decide_roomy :
      (limits : List QuotaLimit) → (decide limits ≡ allowed) ↔ All (HasRoom plan snapshot) limits
  decide_roomy [] = (λ e. tt, λ h. decide-nil)
  decide_roomy (limit ∷ limits) = elim (decide-cons limit limits) [
    | inl (room, e) ↦
        (λ h. (room, (decide_roomy limits).0 (sym e ∙ h)), λ h. e ∙ (decide_roomy limits).1 h.1)
    | inr (v, same, r, e) ↦
        (λ h. cc, λ h. absurd (no_room v r (subst (HasRoom plan snapshot) (sym same) h.0)))
  ]

  allowed-ne-refused : (v : QuotaViolation) → allowed ≢ refused v
  allowed-ne-refused v h = cc

  -- The limit that refuses is the first one, in the order of `limits`, that is reached.
  abbrev pub FirstReached : List QuotaLimit → QuotaViolation → Type 0
  FirstReached limits v =
      IsReached v
      × ((before : List QuotaLimit) × (after : List QuotaLimit) × (limits
            ≡ before ++ v.status.limit ∷ after)
          × All (HasRoom plan snapshot) before)

  decide_refused :
      (limits : List QuotaLimit) (v : QuotaViolation)
      → decide limits ≡ refused v
      → FirstReached limits v
  decide_refused [] v h = absurd (allowed-ne-refused v (sym decide-nil ∙ h))
  decide_refused (limit ∷ limits) v h = elim (decide-cons limit limits) [
    | inl (room, e) ↦
        let (r, (before, after, split, roomy)) = decide_refused limits v (sym e ∙ h) in
        (r, (limit ∷ before, after, ap (λ ls. limit ∷ ls) split, (room, roomy)))
    | inr (v', same, r, e) ↦
        let one : v' ≡ v = cc in
        subst (FirstReached (limit ∷ limits)) one
          (r, ([], limits, ap (λ l. l ∷ limits) (sym same), tt))
  ]

  allowed-HasRoom :
      (evaluate_quota host plan snapshot now ≡ allowed) ↔ All (HasRoom plan snapshot) quota_limits
  unfolding evaluate_quota quota_statuses
  allowed-HasRoom = decide_roomy quota_limits

  -- A run may start exactly if the month's runs, its tokens, its cost and the runs in flight are
  -- each below the ceiling that the plan sets for it; a ceiling that the plan leaves open admits any
  -- number.
  pub allowed_iff : (evaluate_quota host plan snapshot now ≡ allowed) ↔ (
      IsBelow (plan_for plan).limits.monthly_runs snapshot.runs
      × IsBelow (plan_for plan).limits.monthly_tokens snapshot.tokens
      × IsBelow (plan_for plan).limits.monthly_cost_micro_cents snapshot.cost_micro_cents
      × IsBelow (plan_for plan).limits.concurrent_runs snapshot.active_runs)
  unfolding ceiling_for used_for
  allowed_iff = (
    λ h.
        let (runs, (tokens, (cost, (active, _)))) = allowed-HasRoom.0 h in
        (runs, tokens, cost, active),
    λ h. allowed-HasRoom.1 (h.0, (h.1, (h.2, (h.3, tt)))),
  )

  -- A refusal names the first limit that is reached, with what is used of it, nothing left and the
  -- next plan up; the limits before it have room.
  pub refusal_names_first :
      (v : QuotaViolation)
      → evaluate_quota host plan snapshot now ≡ refused v
      → FirstReached quota_limits v
  unfolding evaluate_quota quota_statuses
  refusal_names_first v h = decide_refused quota_limits v h

module _ (host : Host) where
  -- Ceilings rise from each plan to the next.
  abbrev Roomier :
      (plan : PlanId) (snapshot : QuotaSnapshot) (limit : QuotaLimit) → Option PlanId → Type 0
  Roomier plan snapshot limit none = Unit {0}
  Roomier plan snapshot limit (some up) = HasRoom plan snapshot limit → HasRoom up snapshot limit

  next-Roomier :
      (plan : PlanId) (snapshot : QuotaSnapshot) (limit : QuotaLimit)
      → Roomier plan snapshot limit (next_plan_up plan)
  unfolding next_plan_up plan_for ceiling_for
  next-Roomier free snapshot monthly_runs = λ h. omega (arith, h)
  next-Roomier free snapshot monthly_tokens = λ h. omega (arith, h)
  next-Roomier free snapshot monthly_cost = λ h. omega (arith, h)
  next-Roomier free snapshot concurrent_runs = λ h. omega (arith, h)
  next-Roomier pro snapshot monthly_runs = λ h. omega (arith, h)
  next-Roomier pro snapshot monthly_tokens = λ h. omega (arith, h)
  next-Roomier pro snapshot monthly_cost = λ h. omega (arith, h)
  next-Roomier pro snapshot concurrent_runs = λ h. omega (arith, h)
  next-Roomier team snapshot concurrent_runs = λ h. omega (arith, h)
  next-Roomier team snapshot _ = λ h. tt
  next-Roomier enterprise snapshot limit = tt

  upgrade-HasRoom :
      (plan up : PlanId) (snapshot : QuotaSnapshot) (limit : QuotaLimit)
      → next_plan_up plan ≡ some up
      → HasRoom plan snapshot limit
      → HasRoom up snapshot limit
  upgrade-HasRoom plan up snapshot limit e h =
      subst (Roomier plan snapshot limit) e (next-Roomier plan snapshot limit) h

  -- Who may start a run may start it on the next plan up too.
  pub upgrade_keeps_allowed :
      (plan up : PlanId) (snapshot : QuotaSnapshot) (now : ℕ)
      → next_plan_up plan ≡ some up
      → evaluate_quota host plan snapshot now ≡ allowed
      → evaluate_quota host up snapshot now ≡ allowed
  upgrade_keeps_allowed plan up snapshot now e h =
      let (runs, (tokens, (cost, (active, _)))) = (allowed-HasRoom host plan snapshot now).0 h in
      (allowed-HasRoom host up snapshot now).1 (
        upgrade-HasRoom plan up snapshot monthly_runs e runs,
        (
          upgrade-HasRoom plan up snapshot monthly_tokens e tokens,
          (
            upgrade-HasRoom plan up snapshot monthly_cost e cost,
            (upgrade-HasRoom plan up snapshot concurrent_runs e active, tt),
          ),
        ),
      )

  retry_after-reset :
      (v : QuotaViolation) (now : ℕ) (window : MonthWindow) (limit : QuotaLimit)
      → v.status.reset_at ≡ reset_at_for limit window
      → (1 ≤ retry_after_seconds v now)
        × (limit ≡ concurrent_runs → retry_after_seconds v now ≡ 30)
        × (limit ≢ concurrent_runs → window.to ≤ now + retry_after_seconds v now * 1000)
  unfolding retry_after_seconds reset_at_for
  retry_after-reset v now window concurrent_runs e =
      rw e (omega arith, λ same. refl, λ other. absurd (other refl))
  retry_after-reset v now window monthly_runs e =
      rw e (omega arith, λ same. cc, λ other. omega arith)
  retry_after-reset v now window monthly_tokens e =
      rw e (omega arith, λ same. cc, λ other. omega arith)
  retry_after-reset v now window monthly_cost e =
      rw e (omega arith, λ same. cc, λ other. omega arith)

  -- A refusal tells the client to wait a second or more. For runs in flight it is 30 seconds; for a
  -- limit of the month it reaches the first moment of the next month.
  pub retry_after_reaches_month :
      (plan : PlanId) (snapshot : QuotaSnapshot) (now : ℕ) (v : QuotaViolation)
      → evaluate_quota host plan snapshot now ≡ refused v
      → (1 ≤ retry_after_seconds v now)
        × (v.status.limit ≡ concurrent_runs → retry_after_seconds v now ≡ 30)
        × (v.status.limit ≢ concurrent_runs
            → (month_window host now).to ≤ now + retry_after_seconds v now * 1000)
  unfolding quota_status
  retry_after_reaches_month plan snapshot now v h =
      let (r, _) = refusal_names_first host plan snapshot now v h in
      let says : v.status.reset_at ≡ reset_at_for v.status.limit (month_window host now) =
        ap (λ (s : QuotaStatus). s.reset_at) r.says in
      retry_after-reset v now (month_window host now) v.status.limit says
