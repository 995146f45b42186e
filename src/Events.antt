-- ===== src/Events.antt =====
-- packages/shared/src/schemas.ts, models.ts and events.ts: runs, candidates and the events that
-- report their progress. Times are ISO-8601 texts. A number that may be fractional and that the
-- program only carries (a confidence, a temperature, a score) stands as its JSON text; latencies and
-- token counts, which the program rounds or counts, are natural numbers.
use self_consistency_answer.Common.{ℕ, String, Bool, true, false, Option, List}

pub data ProviderId : Type 0 where
  openai anthropic google : ProviderId

pub data RunStatus : Type 0 where
  pending queued fanning_out synthesizing complete failed canceled : RunStatus

-- `TERMINAL_RUN_STATUSES.includes(status)`.
unfoldable pub is_terminal_run_status : RunStatus → Bool
is_terminal_run_status complete = true
is_terminal_run_status failed = true
is_terminal_run_status canceled = true
is_terminal_run_status _ = false

pub data CandidateStatus : Type 0 where
  pending running ok error skipped canceled : CandidateStatus

abbrev pub Decimal : Type 0
Decimal = String

pub record CandidateReview : Type 0 where
  pub provider : ProviderId
  pub score : Decimal
  pub strengths : List String
  pub weaknesses : List String

pub record Candidate : Type 0 where
  pub id : String
  pub provider : ProviderId
  pub label : String
  pub model : String
  pub status : CandidateStatus
  pub content : Option String
  pub error : Option String
  pub latency_ms : Option ℕ
  pub input_tokens : Option ℕ
  pub output_tokens : Option ℕ
  pub attempts : ℕ

pub record Synthesis : Type 0 where
  pub id : String
  pub model : String
  pub final_answer : String
  pub agreements : List String
  pub disagreements : List String
  pub reviews : List CandidateReview
  pub confidence : Decimal
  pub latency_ms : Option ℕ
  pub input_tokens : Option ℕ
  pub output_tokens : Option ℕ

pub record Run : Type 0 where
  pub id : String
  pub created_by_user_id : Option String
  pub prompt : String
  pub status : RunStatus
  pub error : Option String
  pub total_latency_ms : Option ℕ
  pub temperature : Option Decimal
  pub created_at : String
  pub completed_at : Option String
  pub deadline_at : Option String
  pub canceled_at : Option String
  pub tags : List String
  pub candidates : List Candidate
  pub synthesis : Option Synthesis

pub data RunEvent : Type 0 where
  run_snapshot : Run → RunEvent
  run_status : (run_id : String) → RunStatus → RunEvent
  candidate_started : (run_id candidate_id : String) → RunEvent
  candidate_delta : (run_id candidate_id text : String) → RunEvent
  candidate_settled : (run_id : String) → Candidate → RunEvent
  synthesis_started : (run_id model : String) → RunEvent
  synthesis_settled : (run_id : String) → Synthesis → RunEvent
  run_completed : (run_id : String) → (total_latency_ms : ℕ) → RunEvent
  run_failed : (run_id error : String) → RunEvent
  run_canceled : (run_id reason : String) → RunEvent

unfoldable pub is_terminal_event : RunEvent → Bool
is_terminal_event (run_completed _ _) = true
is_terminal_event (run_failed _ _) = true
is_terminal_event (run_canceled _ _) = true
is_terminal_event _ = false

unfoldable pub is_ephemeral_event : RunEvent → Bool
is_ephemeral_event (candidate_delta _ _ _) = true
is_ephemeral_event _ = false
