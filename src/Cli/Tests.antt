-- ===== src/Cli/Tests.antt =====
-- One run on two screens.
use self_consistency_answer.Common.{◌≡◌, refl, true, ℕ, String, none, some, [], ◌∷◌, List}
use self_consistency_answer.Events.{
  openai, RunStatus, CandidateStatus, Candidate, Run, candidate_settled, run_completed,
}
use self_consistency_answer.RunStream.{RunStreamState, idle, apply_run_event}
use self_consistency_answer.Cli.{EngineState, initial_state, loads, engine_reducer, running, done}
use self_consistency_answer.Cli.Agreement.{
  Agrees, Received, cli_after, web_after, all_fit, same_panel,
}

abbrev member : Candidate
member = record {
  id = "c1";
  provider = openai;
  label = "OpenAI";
  model = "gpt-5.5";
  status = CandidateStatus.pending;
  content = none;
  error = none;
  latency_ms = none;
  input_tokens = none;
  output_tokens = none;
  attempts = 0;
}

abbrev answered : Candidate
answered = record member { status = CandidateStatus.ok; content = some "42" }

abbrev asked : Run
asked = record {
  id = "r1";
  created_by_user_id = none;
  prompt = "why?";
  status = RunStatus.queued;
  error = none;
  total_latency_ms = none;
  temperature = none;
  created_at = "t0";
  completed_at = none;
  deadline_at = none;
  canceled_at = none;
  tags = [];
  candidates = member ∷ [];
  synthesis = none;
}

abbrev shown : RunStreamState
shown = record {
  run = asked;
  streaming = [];
  synthesizing_with = none;
  cursor = 0;
  connection = idle;
  error = none;
}

abbrev number : ℕ → String
number n = "n"

abbrev screen : EngineState
screen = record initial_state { run = some asked; phase = running; stage = "Waiting for a worker" }

loaded : engine_reducer number "t0" initial_state (loads asked) ≡ screen
unfolding engine_reducer
loaded = refl

abbrev events : List (Received number)
events =
    record { event = candidate_settled "r1" answered; now = "t1"; later = "t2"; seq = some 4 }
    ∷ record { event = run_completed "r1" 9; now = "t3"; later = "t4"; seq = some 5 }
    ∷ []

finishes : (cli_after number events screen).phase ≡ done
unfolding engine_reducer
finishes = refl

agrees : Agrees screen shown
agrees = record {
  run = asked;
  has_run = refl;
  same = record { id = refl; prompt = refl; candidates = refl; synthesis = refl; error = refl };
}

all_fit_here : all_fit number events shown ≡ true
unfolding apply_run_event
all_fit_here = refl

same_panel_example : Agrees (cli_after number events screen) (web_after number events shown)
same_panel_example = same_panel number events screen shown agrees all_fit_here
