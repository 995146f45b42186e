-- ===== src/RunStream/Tests.antt =====
-- The reducer on small inputs.
use self_consistency_answer.Common.{◌≡◌, refl, none, some, [], ◌∷◌}
use self_consistency_answer.Events.{
  openai, RunStatus, CandidateStatus, Candidate, Run, candidate_settled,
}
use self_consistency_answer.RunStream.{
  RunStreamState, idle, initial_run_stream_state, apply_run_event,
}

abbrev member : Candidate
member = record {
  id = "c1";
  provider = openai;
  label = "OpenAI";
  model = "gpt-5.5";
  status = CandidateStatus.pending;
  content = none;
  error = none;
  latency_ms = none;
  input_tokens = none;
  output_tokens = none;
  attempts = 0;
}

abbrev answered : Candidate
answered = record member { status = CandidateStatus.ok; content = some "42" }

abbrev asked : Run
asked = record {
  id = "r1";
  created_by_user_id = none;
  prompt = "why?";
  status = RunStatus.queued;
  error = none;
  total_latency_ms = none;
  temperature = none;
  created_at = "t0";
  completed_at = none;
  deadline_at = none;
  canceled_at = none;
  tags = [];
  candidates = member ∷ [];
  synthesis = none;
}

abbrev shown : RunStreamState
shown = record {
  run = asked;
  streaming = [];
  synthesizing_with = none;
  cursor = 0;
  connection = idle;
  error = none;
}

starts_idle : initial_run_stream_state asked ≡ shown
unfolding initial_run_stream_state
starts_idle = refl

settles :
    (apply_run_event "t1" shown (candidate_settled "r1" answered) (some 4)).run.candidates
    ≡ answered ∷ []
unfolding apply_run_event
settles = refl
