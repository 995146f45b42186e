-- ===== src/Runs/Cancelling.antt =====
-- Cancelling a run while workers, the queue and the reaper go on updating its row.
use self_consistency_answer.Common.{
  ℕ, ◌≡◌, refl, subst, inl, inr, true, not, none, some, String, arith, is_some, or_else, Bool-cases,
  Option-cases, if◌then◌else◌,
}
use self_consistency_answer.Events.{
  RunStatus, pending, queued, fanning_out, synthesizing, complete, failed, is_terminal_run_status,
}
use self_consistency_answer.Runs.{
  RunRow, set_run_status, complete_run, fail_run, mark_run_queued, is_active, CancelOutcome,
  already_terminal, cancel_run, RunUsage, Settings, StopReason, check_stop,
}

-- The filter of `cancelRun` and `listOverdueRuns` names exactly the statuses that are not terminal.
is_active-not : (status : RunStatus) → is_active status ≡ not (is_terminal_run_status status)
unfolding is_terminal_run_status
is_active-not pending = refl
is_active-not queued = refl
is_active-not fanning_out = refl
is_active-not synthesizing = refl
is_active-not complete = refl
is_active-not failed = refl
is_active-not RunStatus.canceled = refl

-- One update of a row, by whoever makes it; `cancels` also stands for a cancellation that comes too
-- late and leaves the row alone.
pub data Step (row : RunRow) : RunRow → Type 0 where
  sets : (status : RunStatus) → Step row (set_run_status status row)
  completes : (now latency : ℕ) → Step row (complete_run now latency row)
  fails : (now : ℕ) (error : String) → Step row (fail_run now error row)
  queues : Step row (mark_run_queued row)
  cancels :
      (now : ℕ) (reason : String) (row' : RunRow)
      → (cancel_run now reason (some row)).0 ≡ some row'
      → Step row row'

pub data Reach (row : RunRow) : RunRow → Type 0 where
  here : Reach row row
  next : {row' row'' : RunRow} → Reach row row' → Step row' row'' → Reach row row''

abbrev pub canceled_row : ℕ → String → RunRow → RunRow
canceled_row now reason row = record row {
  status = RunStatus.canceled;
  canceled_at = some now;
  cancel_reason = some reason;
  completed_at = some now;
}

-- A cancellation takes effect exactly on a run that has not finished: such a run is canceled, with
-- the time and the reason, and a finished one is left as it is and reported as finished.
pub cancel_run_iff_active :
    (now : ℕ) (reason : String) (row : RunRow)
    → cancel_run now reason (some row) ≡ (
        if is_terminal_run_status row.status
        then (some row, already_terminal)
        else (some (canceled_row now reason row), CancelOutcome.canceled))
unfolding cancel_run
cancel_run_iff_active now reason row = elim (Bool-cases (is_terminal_run_status row.status)) [
  | inl over ↦ rw (is_active-not, over) refl
  | inr active ↦ rw (is_active-not, active) refl
]

abbrev pub IsMarked : RunRow → Type 0
IsMarked row = is_some row.canceled_at ≡ true

Step-IsMarked : {row row' : RunRow} → Step row row' → IsMarked row → IsMarked row'
unfolding set_run_status complete_run fail_run mark_run_queued cancel_run
Step-IsMarked (sets status) h = h
Step-IsMarked (completes now latency) h = h
Step-IsMarked (fails now error) h = h
Step-IsMarked {row = row} queues h = ground arith
Step-IsMarked {row = row} (cancels now reason row' e) h = elim (Bool-cases (is_active row.status)) [
  | inl active ↦
      let made : some (canceled_row now reason row) ≡ some row' = rw active at e in
      let same : canceled_row now reason row ≡ row' = cc in subst IsMarked same refl
  | inr over ↦
      let made : some row ≡ some row' = rw over at e in
      let same : row ≡ row' = cc in subst IsMarked same h
]

Reach-IsMarked : {row row' : RunRow} → Reach row row' → IsMarked row → IsMarked row'
Reach-IsMarked here h = h
Reach-IsMarked (next r st) h = Step-IsMarked st (Reach-IsMarked r h)

marked_stops :
    (settings : Settings) (run_id : String) (row : RunRow) (spent : RunUsage) (now : ℕ)
    → IsMarked row
    → (message : String) × (check_stop settings none run_id (some row) spent now
        ≡ some (StopReason.canceled message))
unfolding check_stop
marked_stops settings run_id row spent now h = elim (Option-cases row.canceled_at) [
  | inl never ↦ cc
  | inr (at, e) ↦ (or_else row.cancel_reason "Run was canceled", rw e refl)
]

-- Once a run has been canceled, and while the install is not halted, every later check before a
-- model call says that it was canceled, whatever the workers, the queue and the reaper have made of
-- its row since, its status included.
pub canceled_stops_for_good :
    (settings : Settings) (run_id reason : String) (at now : ℕ) (row later : RunRow)
    (spent : RunUsage)
    → Reach (canceled_row at reason row) later
    → (message : String) × (check_stop settings none run_id (some later) spent now
        ≡ some (StopReason.canceled message))
canceled_stops_for_good settings run_id reason at now row later spent r =
    marked_stops settings run_id later spent now (Reach-IsMarked r refl)
