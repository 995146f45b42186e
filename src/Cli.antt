-- ===== src/Cli.antt =====
-- packages/cli/src/state.ts: the reducer of the terminal client. `now` is what
-- `new Date().toISOString()` gives, and the text of a number is a parameter.
pub mod Agreement
mod Tests
use Prim.Native.String as Text
use self_consistency_answer.Common.{
  ℕ, String, Bool, true, false, not, ◌&&◌, Option, none, some, List, [], ◌∷◌, map, filter, length,
  lookup, insert, erase, or_else, str_eq, if◌then◌else◌,
}
use self_consistency_answer.Events.{
  RunStatus, CandidateStatus, Candidate, Run, RunEvent, run_snapshot, run_status, candidate_started,
  candidate_delta, candidate_settled, synthesis_started, synthesis_settled, run_completed,
  run_failed, run_canceled,
}

pub data Phase : Type 0 where
  idle starting running done failed : Phase

pub record EngineState : Type 0 where
  pub run : Option Run
  pub phase : Phase
  pub stage : String
  pub error : Option String
  pub streaming : List (String × String)

abbrev pub initial_state : EngineState
initial_state = record { run = none; phase = idle; stage = "Ready"; error = none; streaming = [] }

pub data EngineAction : Type 0 where
  resets : EngineAction
  starts : (prompt : String) → EngineAction
  receives : RunEvent → EngineAction
  loads : Run → EngineAction
  errs : (message : String) → EngineAction

unfoldable pub patch_candidate : Run → String → (Candidate → Candidate) → Run
patch_candidate run id patch = record run {
  candidates = map (λ c. if str_eq c.id id then patch c else c) run.candidates;
}

abbrev pub has_answered : CandidateStatus → Bool
has_answered CandidateStatus.ok = true
has_answered CandidateStatus.error = true
has_answered CandidateStatus.canceled = true
has_answered status = false

abbrev pub is_skipped : CandidateStatus → Bool
is_skipped CandidateStatus.skipped = true
is_skipped status = false

abbrev pub phase_for : RunStatus → Phase
phase_for RunStatus.complete = done
phase_for RunStatus.failed = failed
phase_for RunStatus.canceled = failed
phase_for status = running

-- `"runId" in event`.
abbrev pub run_id_of : RunEvent → Option String
run_id_of (run_snapshot run) = none
run_id_of (run_status run_id status) = some run_id
run_id_of (candidate_started run_id candidate_id) = some run_id
run_id_of (candidate_delta run_id candidate_id text) = some run_id
run_id_of (candidate_settled run_id candidate) = some run_id
run_id_of (synthesis_started run_id model) = some run_id
run_id_of (synthesis_settled run_id synthesis) = some run_id
run_id_of (run_completed run_id total_latency_ms) = some run_id
run_id_of (run_failed run_id error) = some run_id
run_id_of (run_canceled run_id reason) = some run_id

abbrev pub is_other_run : Option String → Run → Bool
is_other_run none run = false
is_other_run (some run_id) run = not (str_eq run_id run.id)

module _ (number : ℕ → String) where
  abbrev pub stage_for_status : RunStatus → ℕ → ℕ → String
  stage_for_status RunStatus.pending settled total = "Queued"
  stage_for_status RunStatus.queued settled total = "Waiting for a worker"
  stage_for_status RunStatus.fanning_out settled total =
      Text.◌++◌ "Querying the panel — "
        (Text.◌++◌ (number settled) (Text.◌++◌ "/" (Text.◌++◌ (number total) " answered")))
  stage_for_status RunStatus.synthesizing settled total = "Evaluator is comparing the answers"
  stage_for_status RunStatus.complete settled total = "Final answer ready"
  stage_for_status RunStatus.failed settled total = "Run failed"
  stage_for_status RunStatus.canceled settled total = "Run canceled"

  unfoldable pub stage_for_run : Run → String
  stage_for_run run =
      let settled = length (filter (λ (c : Candidate). has_answered c.status) run.candidates) in
      let total = length (filter (λ (c : Candidate). not (is_skipped c.status)) run.candidates) in
      stage_for_status run.status settled total

  -- The `switch` on an event of the run.
  unfoldable pub reduce_event : String → EngineState → Run → RunEvent → EngineState
  unfolding patch_candidate stage_for_run
  reduce_event now s run (run_snapshot snapshot) = s
  reduce_event now s run (run_status run_id status) =
      let next = record run { status = status } in
      record s { run = some next; stage = stage_for_run next }
  reduce_event now s run (candidate_started run_id candidate_id) =
      let next =
        patch_candidate run candidate_id (λ c. record c { status = CandidateStatus.running }) in
      record s {
        run = some next;
        stage = stage_for_run next;
        streaming = insert candidate_id "" s.streaming;
      }
  reduce_event now s run (candidate_delta run_id candidate_id text) =
      let before = or_else (lookup candidate_id s.streaming) "" in
      record s { streaming = insert candidate_id (Text.◌++◌ before text) s.streaming }
  reduce_event now s run (candidate_settled run_id candidate) =
      let next = patch_candidate run candidate.id (λ c. candidate) in
      record s {
        run = some next;
        stage = stage_for_run next;
        streaming = erase candidate.id s.streaming;
      }
  reduce_event now s run (synthesis_started run_id model) = record s {
    stage = Text.◌++◌ "Evaluator (" (Text.◌++◌ model ") is comparing the answers");
  }
  reduce_event now s run (synthesis_settled run_id synthesis) = record s {
    run = some (record run { synthesis = some synthesis });
  }
  reduce_event now s run (run_completed run_id total_latency_ms) =
      let next = record run {
        status = RunStatus.complete;
        total_latency_ms = some total_latency_ms;
        completed_at = some now;
      } in
      record {
        run = some next;
        phase = done;
        stage = stage_for_run next;
        error = none;
        streaming = [];
      }
  reduce_event now s run (run_failed run_id error) = record {
    run = some (record run { status = RunStatus.failed; error = some error });
    phase = failed;
    stage = "Run failed";
    error = some error;
    streaming = [];
  }
  reduce_event now s run (run_canceled run_id reason) = record {
    run =
        some
          (record run { status = RunStatus.canceled; error = some reason; canceled_at = some now });
    phase = failed;
    stage = "Run canceled";
    error = some reason;
    streaming = [];
  }

  abbrev pub snapshot_state : Run → EngineState
  snapshot_state run = record {
    run = some run;
    phase = running;
    stage = stage_for_run run;
    error = none;
    streaming = [];
  }

  abbrev pub receive_for : String → EngineState → Option Run → RunEvent → EngineState
  receive_for now s none event = s
  receive_for now s (some run) event =
      if is_other_run (run_id_of event) run then s else reduce_event now s run event

  unfoldable pub receive : String → EngineState → RunEvent → EngineState
  unfolding reduce_event
  receive now s (run_snapshot run) = snapshot_state run
  receive now s event = receive_for now s s.run event

  unfoldable pub engine_reducer : String → EngineState → EngineAction → EngineState
  unfolding receive
  engine_reducer now s resets = initial_state
  engine_reducer now s (starts prompt) = record {
    run = none;
    phase = starting;
    stage = "Starting run";
    error = none;
    streaming = [];
  }
  engine_reducer now s (loads run) = record {
    run = some run;
    phase = phase_for run.status;
    stage = stage_for_run run;
    error = run.error;
    streaming = [];
  }
  engine_reducer now s (errs message) = record s {
    phase = failed;
    stage = "Error";
    error = some message;
  }
  engine_reducer now s (receives event) = receive now s event
