-- ===== src/Runs/Tests.antt =====
-- The theorems on runs at a run that is being answered.
use self_consistency_answer.Common.{◌≡◌, refl, Option, none, some, String}
use self_consistency_answer.Events.{fanning_out}
use self_consistency_answer.Runs.{
  RunRow, set_run_status, complete_run, RunUsage, Settings, StopReason, check_stop,
}
use self_consistency_answer.Runs.Cancelling.{
  Reach, here, next, sets, completes, canceled_row, canceled_stops_for_good,
}

abbrev row : RunRow
row = record {
  status = fanning_out;
  error = none;
  total_latency_ms = none;
  completed_at = none;
  canceled_at = none;
  cancel_reason = none;
  deadline_at = some 60_000;
  max_total_tokens = some 5_000;
  max_cost_micro_cents = none;
}

abbrev settings : Settings
settings = record {
  run_max_total_tokens = 0;
  run_max_cost_micro_cents = 1_000;
  to_text = λ n. "n";
  to_iso_string = λ t. "t";
}

abbrev spent : RunUsage
spent = record { total_tokens = 4_000; cost_micro_cents = 900 }

goes_on : check_stop settings none "r1" (some row) spent 1_000 ≡ none
unfolding check_stop
goes_on = refl

abbrev later : RunRow
later = complete_run 4_000 3_500 (set_run_status fanning_out (canceled_row 2_000 "stop" row))

later-Reach : Reach (canceled_row 2_000 "stop" row) later
later-Reach = next (next here (sets fanning_out)) (completes 4_000 3_500)

canceled_stops_for_good_example :
    (message : String) × (check_stop settings none "r1" (some later) spent 5_000
      ≡ some (StopReason.canceled message))
canceled_stops_for_good_example =
    canceled_stops_for_good settings "r1" "stop" 2_000 5_000 row later spent later-Reach

abbrev not_halted : Option String
not_halted = none
