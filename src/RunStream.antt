-- ===== src/RunStream.antt =====
-- packages/web/src/lib/run-stream.ts: the reducer that turns a stream of events back into a run.
-- `now` is what `new Date().toISOString()` gives at the time of the call.
pub mod Laws
mod Tests
use Prim.Native.String as Text
use Prim.Native.Nat.{max}
use self_consistency_answer.Common.{
  ℕ, String, Bool, true, false, ◌||◌, Option, none, some, List, [], ◌∷◌, ◌++◌, map, any, find?,
  lookup, insert, erase, is_some, or_else, str_eq, if◌then◌else◌,
}
use self_consistency_answer.Events.{
  RunStatus, synthesizing, complete, failed, canceled, is_terminal_run_status, CandidateStatus,
  running, Candidate, Run, RunEvent, run_snapshot, run_status, candidate_started, candidate_delta,
  candidate_settled, synthesis_started, synthesis_settled, run_completed, run_failed, run_canceled,
}

pub data ConnectionState : Type 0 where
  idle connecting live reconnecting closed : ConnectionState

pub record RunStreamState : Type 0 where
  pub run : Run
  pub streaming : List (String × String)
  pub synthesizing_with : Option String
  pub cursor : ℕ
  pub connection : ConnectionState
  pub error : Option String

unfoldable pub initial_run_stream_state : Run → RunStreamState
unfolding is_terminal_run_status
initial_run_stream_state run = record {
  run = run;
  streaming = [];
  synthesizing_with = none;
  cursor = 0;
  connection = if is_terminal_run_status run.status then closed else idle;
  error = none;
}

unfoldable pub replace_candidate : Candidate → List Candidate → List Candidate
replace_candidate candidate [] = []
replace_candidate candidate (existing ∷ others) =
    (if str_eq existing.id candidate.id then candidate else existing)
    ∷ replace_candidate candidate others

unfoldable pub with_candidate : Run → Candidate → Run
unfolding replace_candidate
with_candidate run candidate =
    let known = any (λ (existing : Candidate). str_eq existing.id candidate.id) run.candidates in
    record run {
      candidates =
          if known
          then replace_candidate candidate run.candidates
          else run.candidates ++ candidate ∷ [];
    }

unfoldable pub without_streaming : List (String × String) → String → List (String × String)
without_streaming streaming candidate_id =
    if is_some (lookup candidate_id streaming) then erase candidate_id streaming else streaming

-- The `map` of `candidate.started`.
unfoldable pub mark_running : String → List Candidate → List Candidate
mark_running candidate_id [] = []
mark_running candidate_id (candidate ∷ others) =
    (if str_eq candidate.id candidate_id then record candidate { status = running } else candidate)
    ∷ mark_running candidate_id others

-- `candidates.find(…)?.content`, where `undefined` counts as `null`.
abbrev pub content_of : Option Candidate → Option String
content_of none = none
content_of (some candidate) = candidate.content

unfoldable pub settled_content : String → List Candidate → Option String
settled_content candidate_id candidates =
    content_of (find? (λ (candidate : Candidate). str_eq candidate.id candidate_id) candidates)

unfoldable pub append_delta : String → String → List (String × String) → List (String × String)
append_delta candidate_id text streaming =
    insert candidate_id (Text.◌++◌ (or_else (lookup candidate_id streaming) "") text) streaming

-- The `switch` of `applyRunEvent`, on the state whose cursor has moved.
unfoldable pub reduce : String → RunStreamState → RunEvent → RunStreamState
unfolding mark_running settled_content append_delta with_candidate without_streaming
reduce now s (run_snapshot run) = record s { run = run }
reduce now s (run_status run_id status) = record s { run = record (s.run) { status = status } }
reduce now s (candidate_started run_id candidate_id) = record s {
  run = record (s.run) { candidates = mark_running candidate_id s.run.candidates };
  streaming = insert candidate_id (or_else (lookup candidate_id s.streaming) "") s.streaming;
}
reduce now s (candidate_delta run_id candidate_id text) =
    if is_some (settled_content candidate_id s.run.candidates)
    then s
    else record s { streaming = append_delta candidate_id text s.streaming }
reduce now s (candidate_settled run_id candidate) = record s {
  run = with_candidate s.run candidate;
  streaming = without_streaming s.streaming candidate.id;
}
reduce now s (synthesis_started run_id model) = record s {
  synthesizing_with = some model;
  run = record (s.run) { status = synthesizing };
}
reduce now s (synthesis_settled run_id synthesis) = record s {
  run = record (s.run) { synthesis = some synthesis };
}
reduce now s (run_completed run_id total_latency_ms) = record s {
  connection = closed;
  run = record (s.run) {
    status = complete;
    total_latency_ms = some total_latency_ms;
    completed_at = some (or_else s.run.completed_at now);
  };
}
reduce now s (run_failed run_id error) = record s {
  connection = closed;
  error = some error;
  run = record (s.run) { status = failed; error = some error };
}
reduce now s (run_canceled run_id reason) = record s {
  connection = closed;
  run = record (s.run) {
    status = canceled;
    error = some reason;
    canceled_at = some (or_else s.run.canceled_at now);
  };
}

abbrev pub next_cursor : ℕ → Option ℕ → ℕ
next_cursor cursor none = cursor
next_cursor cursor (some seq) = max cursor seq

unfoldable pub apply_run_event : String → RunStreamState → RunEvent → Option ℕ → RunStreamState
unfolding reduce
apply_run_event now s event seq = reduce now (record s { cursor = next_cursor s.cursor seq }) event

unfoldable pub ends_stream : RunEvent → Bool
ends_stream (run_completed _ _) = true
ends_stream (run_failed _ _) = true
ends_stream (run_canceled _ _) = true
ends_stream _ = false
