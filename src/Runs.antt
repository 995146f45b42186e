-- ===== src/Runs.antt =====
-- The life of a run: its row in packages/db/src/repository.ts, and the checks that
-- packages/worker/src/context.ts makes before each model call. Each update is one statement; a
-- `where` on the status is a test of the row at that moment. Times are milliseconds.
pub mod Cancelling
pub mod Stopping
mod Tests
use self_consistency_answer.Common.{
  ℕ, ◌+◌, Bool, true, false, not, ◌&&◌, Option, none, some, String, or_else, ltb, leb, ◌==◌,
  if◌then◌else◌,
}
use Prim.Native.String.{◌++◌}
use self_consistency_answer.Events.{
  RunStatus, pending, queued, fanning_out, synthesizing, complete, failed, is_terminal_run_status,
}

-- The columns of a run that its life changes or the worker's checks read; `RunControl` is the last
-- five of them and the status.
pub record RunRow : Type 0 where
  pub status : RunStatus
  pub error : Option String
  pub total_latency_ms : Option ℕ
  pub completed_at : Option ℕ
  pub canceled_at : Option ℕ
  pub cancel_reason : Option String
  pub deadline_at : Option ℕ
  pub max_total_tokens : Option ℕ
  pub max_cost_micro_cents : Option ℕ

unfoldable pub set_run_status : RunStatus → RunRow → RunRow
set_run_status status row = record row { status = status }

unfoldable pub complete_run : ℕ → ℕ → RunRow → RunRow
complete_run now latency row = record row {
  status = complete;
  total_latency_ms = some latency;
  completed_at = some now;
  error = none;
}

unfoldable pub fail_run : ℕ → String → RunRow → RunRow
fail_run now error row = record row { status = failed; error = some error; completed_at = some now }

-- `status: "PENDING"`.
abbrev pub is_pending : RunStatus → Bool
is_pending pending = true
is_pending _ = false

unfoldable pub mark_run_queued : RunRow → RunRow
mark_run_queued row = if is_pending row.status then record row { status = queued } else row

-- `status: { in: ["PENDING", "QUEUED", "FANNING_OUT", "SYNTHESIZING"] }`.
abbrev pub is_active : RunStatus → Bool
is_active pending = true
is_active queued = true
is_active fanning_out = true
is_active synthesizing = true
is_active _ = false

pub data CancelOutcome : Type 0 where
  canceled already_terminal not_found : CancelOutcome

-- `cancelRun`. `none` is a run that is not there.
unfoldable pub cancel_run : ℕ → String → Option RunRow → Option RunRow × CancelOutcome
cancel_run now reason none = (none, not_found)
cancel_run now reason (some row) =
    if is_active row.status
    then (
      some (record row {
        status = RunStatus.canceled;
        canceled_at = some now;
        cancel_reason = some reason;
        completed_at = some now;
      }),
      CancelOutcome.canceled,
    )
    else (some row, already_terminal)

abbrev pub is_past : ℕ → Option ℕ → Bool
is_past now none = false
is_past now (some deadline) = ltb deadline now

-- The filter of `listOverdueRuns`.
unfoldable pub is_overdue : ℕ → RunRow → Bool
is_overdue now row = is_active row.status && is_past now row.deadline_at

pub data StopReason : Type 0 where
  canceled deadline budget halted finished missing : (message : String) → StopReason

-- What the run has spent, from its usage rows.
pub record RunUsage : Type 0 where
  pub total_tokens : ℕ
  pub cost_micro_cents : ℕ

-- The worker's settings, and the host's texts of numbers and of dates.
pub record Settings : Type 0 where
  pub run_max_total_tokens : ℕ
  pub run_max_cost_micro_cents : ℕ
  pub to_text : ℕ → String
  pub to_iso_string : ℕ → String

abbrev pub status_text : RunStatus → String
status_text pending = "PENDING"
status_text queued = "QUEUED"
status_text fanning_out = "FANNING_OUT"
status_text synthesizing = "SYNTHESIZING"
status_text complete = "COMPLETE"
status_text failed = "FAILED"
status_text RunStatus.canceled = "CANCELED"

module _ (settings : Settings) where
  -- A ceiling of zero is no ceiling.
  abbrev pub is_reached : ℕ → ℕ → Bool
  is_reached ceiling spent = ltb 0 ceiling && leb ceiling spent

  unfoldable pub check_budget : RunRow → RunUsage → Option StopReason
  check_budget row spent =
      let token_ceiling = or_else row.max_total_tokens settings.run_max_total_tokens in
      let cost_ceiling = or_else row.max_cost_micro_cents settings.run_max_cost_micro_cents in
      if token_ceiling == 0 && cost_ceiling == 0
      then none
      else if is_reached token_ceiling spent.total_tokens
      then some (
          budget (
            "Run token ceiling reached ("
            ++ settings.to_text spent.total_tokens
            ++ " of "
            ++ settings.to_text token_ceiling
            ++ ")"))
      else if is_reached cost_ceiling spent.cost_micro_cents
      then some (
          budget (
            "Run cost ceiling reached ("
            ++ settings.to_text spent.cost_micro_cents
            ++ " of "
            ++ settings.to_text cost_ceiling
            ++ " micro-cents)"))
      else none

  -- `checkStop` from the moment the row is read.
  unfoldable pub check_row : RunRow → RunUsage → ℕ → Option StopReason
  unfolding check_budget is_terminal_run_status
  check_row row spent now =
      let rest =
        if is_terminal_run_status row.status
        then some (finished ("Run already finished as " ++ status_text row.status))
        else (elim row.deadline_at [
          | none ↦ check_budget row spent
          | some at ↦
              if leb at now
              then some (
                  deadline (
                    "Run deadline of "
                    ++ settings.to_iso_string at
                    ++ " passed before this step started"))
              else check_budget row spent
        ]) in
      elim row.canceled_at [
        | none ↦ rest
        | some at ↦ some (StopReason.canceled (or_else row.cancel_reason "Run was canceled"))
      ]

  -- `halted` is the reason of the install's kill switch, if it is engaged.
  unfoldable pub check_stop :
      (halted : Option String)
      → (run_id : String) → Option RunRow
      → RunUsage
      → ℕ
      → Option StopReason
  unfolding check_row
  check_stop (some reason) run_id row spent now = some (halted reason)
  check_stop none run_id none spent now = some (missing ("Run " ++ run_id ++ " no longer exists"))
  check_stop none run_id (some row) spent now = check_row row spent now
