-- ===== src/Runs/Stopping.antt =====
-- When the worker may make the next model call.
use self_consistency_answer.Common.{
  ℕ, ◌<◌, ◌≡◌, ◌≢◌, ◌↔◌, ◌⊎◌, refl, inl, inr, false, Option, none, some, String, arith, ltb, leb,
  or_else, Bool-cases, Option-cases,
}
use self_consistency_answer.Events.{is_terminal_run_status}
use self_consistency_answer.Runs.{
  RunRow, RunUsage, Settings, is_reached, check_budget, check_row, check_stop,
}

-- The deadline, if there is one, lies ahead.
abbrev pub IsAhead : Option ℕ → ℕ → Type 0
IsAhead none now = Unit {0}
IsAhead (some deadline) now = now < deadline

-- Less is spent than the ceiling, where zero is no ceiling.
abbrev pub IsWithin : ℕ → ℕ → Type 0
IsWithin ceiling spent = (ceiling ≡ 0) ⊎ (spent < ceiling)

not_reached-IsWithin :
    (settings : Settings) (ceiling spent : ℕ)
    → is_reached settings ceiling spent ≡ false
    → IsWithin ceiling spent
not_reached-IsWithin settings ceiling spent h = elim (Bool-cases (ltb 0 ceiling)) [
  | inl some_ceiling ↦ inr (ground (arith, h, some_ceiling))
  | inr no_ceiling ↦ inl (ground (arith, no_ceiling))
]

some-ne-none : (reason : String) → some reason ≢ none
some-ne-none reason h = cc

module _ (settings : Settings) (row : RunRow) (spent : RunUsage) (now : ℕ) where
  -- Neither canceled nor finished, in time, and below the run's own ceilings or else the worker's.
  pub record MayGoOn : Type 0 where
    pub not_canceled : row.canceled_at ≡ none
    pub not_finished : is_terminal_run_status row.status ≡ false
    pub in_time : IsAhead row.deadline_at now
    pub tokens :
        IsWithin (or_else row.max_total_tokens settings.run_max_total_tokens) spent.total_tokens
    pub cost :
        IsWithin
          (or_else row.max_cost_micro_cents settings.run_max_cost_micro_cents)
          spent.cost_micro_cents

  budget-IsWithin :
      check_budget settings row spent ≡ none
      → IsWithin (or_else row.max_total_tokens settings.run_max_total_tokens) spent.total_tokens
        × IsWithin
            (or_else row.max_cost_micro_cents settings.run_max_cost_micro_cents)
            spent.cost_micro_cents
  unfolding check_budget
  budget-IsWithin h =
      let token_ceiling = or_else row.max_total_tokens settings.run_max_total_tokens in
      let cost_ceiling = or_else row.max_cost_micro_cents settings.run_max_cost_micro_cents in
      let tokens : is_reached settings token_ceiling spent.total_tokens ≡ false =
        ground (arith, h) in
      let cost : is_reached settings cost_ceiling spent.cost_micro_cents ≡ false =
        ground (arith, h) in
      (
        not_reached-IsWithin settings token_ceiling spent.total_tokens tokens,
        not_reached-IsWithin settings cost_ceiling spent.cost_micro_cents cost,
      )

  IsWithin-budget :
      IsWithin (or_else row.max_total_tokens settings.run_max_total_tokens) spent.total_tokens
      → IsWithin
          (or_else row.max_cost_micro_cents settings.run_max_cost_micro_cents)
          spent.cost_micro_cents
      → check_budget settings row spent ≡ none
  unfolding check_budget
  IsWithin-budget h k = ground arith

  check_row-MayGoOn : check_row settings row spent now ≡ none → MayGoOn
  unfolding check_row
  check_row-MayGoOn h =
      let not_canceled : row.canceled_at ≡ none = ground (arith, h) in
      let not_finished : is_terminal_run_status row.status ≡ false =
        ground (arith, h, not_canceled) in
      elim (Option-cases row.deadline_at) [
        | inl no_deadline ↦
            let (tokens, cost) =
              budget-IsWithin (rw (not_canceled, not_finished, no_deadline) at h) in
            record {
              not_canceled = not_canceled;
              not_finished = not_finished;
              in_time = rw no_deadline tt;
              tokens = tokens;
              cost = cost;
            }
        | inr (deadline, e) ↦
            let ahead : leb deadline now ≡ false =
              ground (arith, h, not_canceled, not_finished, e) in
            let (tokens, cost) = budget-IsWithin (rw (not_canceled, not_finished, e, ahead) at h) in
            record {
              not_canceled = not_canceled;
              not_finished = not_finished;
              in_time = rw e (ground (arith, ahead));
              tokens = tokens;
              cost = cost;
            }
      ]

  MayGoOn-check_row : MayGoOn → check_row settings row spent now ≡ none
  unfolding check_row
  MayGoOn-check_row h = elim (Option-cases row.deadline_at) [
    | inl no_deadline ↦
        rw (h.not_canceled, h.not_finished, no_deadline) (IsWithin-budget h.tokens h.cost)
    | inr (deadline, e) ↦
        let in_time : now < deadline = rw e at h.in_time in
        let ahead : leb deadline now ≡ false = ground (arith, in_time) in
        rw (h.not_canceled, h.not_finished, e, ahead) (IsWithin-budget h.tokens h.cost)
  ]

  -- The next model call may happen exactly if the install is not halted and the run is there, has
  -- not been canceled, has not finished, is in time, and is below its ceilings of tokens and cost.
  pub goes_on_iff :
      (halted : Option String) (run_id : String)
      → (check_stop settings halted run_id (some row) spent now ≡ none)
        ↔ ((halted ≡ none) × MayGoOn)
  unfolding check_stop
  goes_on_iff none run_id = (λ h. (refl, check_row-MayGoOn h), λ h. MayGoOn-check_row h.1)
  goes_on_iff (some reason) run_id = (λ h. cc, λ h. absurd (some-ne-none reason h.0))
