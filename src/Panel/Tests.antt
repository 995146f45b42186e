-- ===== src/Panel/Tests.antt =====
-- The theorems on panels at small inputs.
use self_consistency_answer.Common.{ℕ, ◌≡◌, refl, true, false, Option, none, String, []}
use self_consistency_answer.Events.{openai, google, CandidateStatus, Candidate, CandidateReview}
use self_consistency_answer.Breaker.{Settings, classify}
use self_consistency_answer.Runs.{StopReason}
use self_consistency_answer.Panel.{ResolvedProvider, Failure, retries, handle_failure}

abbrev candidate : Candidate
candidate = record {
  id = "c1";
  provider = openai;
  label = "GPT";
  model = "gpt";
  status = CandidateStatus.running;
  content = none;
  error = none;
  latency_ms = none;
  input_tokens = none;
  output_tokens = none;
  attempts = 1;
}

abbrev other : Candidate
other = record candidate { id = "c2"; provider = google }

abbrev provider : ResolvedProvider
provider = record { has_model = true; hint = none; label = "GPT" }

abbrev paused : String → ℕ → String
paused label until = label

abbrev no_stop : Option StopReason
no_stop = none

abbrev settings : Settings
settings = record {
  threshold = 5;
  cooldown_ms = 30_000;
  is_transient = λ message. true;
  to_text = λ n. "n";
}

abbrev dropped : Failure
dropped = record {
  facts = record { message = "ECONNRESET"; name = "Error"; status = none; retry_after_ms = none };
  is_empty_answer = false;
  timed_out = false;
  canceled = false;
}

comes_back : handle_failure settings false dropped ≡ retries
unfolding handle_failure classify
comes_back = refl

abbrev review : CandidateReview
review = record { provider = google; score = "8"; strengths = []; weaknesses = [] }
