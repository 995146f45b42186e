-- ===== src/Cli/Agreement.antt =====
-- The terminal client and the web client, given the same events, show the same panel.
use self_consistency_answer.Common.{
  ℕ, String, ◌≡◌, refl, sym, subst, ap, ◌∙◌, Bool, true, false, not, ◌&&◌, Option, none, some, List,
  [], ◌∷◌, map, any, arith, inl, inr, is_some, str_eq, if◌then◌else◌, Bool-cases,
}
use self_consistency_answer.Events.{
  RunStatus, CandidateStatus, Candidate, Run, RunEvent, run_snapshot, run_status, candidate_started,
  candidate_delta, candidate_settled, synthesis_started, synthesis_settled, run_completed,
  run_failed, run_canceled,
}
use self_consistency_answer.RunStream.{
  RunStreamState, replace_candidate, with_candidate, mark_running, settled_content, reduce,
  next_cursor, apply_run_event,
}
use self_consistency_answer.Cli.{
  EngineState, patch_candidate, run_id_of, is_other_run, reduce_event, receive,
}

patch-replace :
    (candidate : Candidate) (candidates : List Candidate)
    → map (λ (c : Candidate). if str_eq c.id candidate.id then candidate else c) candidates
      ≡ replace_candidate candidate candidates
unfolding replace_candidate
patch-replace candidate [] = refl
patch-replace candidate (c ∷ candidates) = rw (patch-replace candidate candidates) refl

patch-mark_running :
    (id : String) (candidates : List Candidate)
    → map
        (λ (c : Candidate).
          if str_eq c.id id then record c { status = CandidateStatus.running } else c)
        candidates
      ≡ mark_running id candidates
unfolding mark_running
patch-mark_running id [] = refl
patch-mark_running id (c ∷ candidates) = rw (patch-mark_running id candidates) refl

-- The parts of a run that both clients show of it.
pub record IsSame (cli web : Run) : Type 0 where
  pub id : cli.id ≡ web.id
  pub prompt : cli.prompt ≡ web.prompt
  pub candidates : cli.candidates ≡ web.candidates
  pub synthesis : cli.synthesis ≡ web.synthesis
  pub error : cli.error ≡ web.error

pub record Agrees (cli : EngineState) (web : RunStreamState) : Type 0 where
  pub run : Run
  pub has_run : cli.run ≡ some run
  pub same : IsSame run web.run

-- An event of the run that is shown, or a snapshot; and a settled candidate is one of its panel.
abbrev pub is_known : RunEvent → Run → Bool
is_known (candidate_settled run_id candidate) run =
    any (λ (existing : Candidate). str_eq existing.id candidate.id) run.candidates
is_known event run = true

abbrev pub fits : RunEvent → Run → Bool
fits event run = not (is_other_run (run_id_of event) run) && is_known event run

abbrev is_snapshot : RunEvent → Bool
is_snapshot (run_snapshot run) = true
is_snapshot event = false

module _ (number : ℕ → String) where
  -- The run after an event of it.
  reduce_event-Agrees :
      (now later : String) (event : RunEvent) (cli : EngineState) (web : RunStreamState) (run : Run)
      → cli.run ≡ some run
      → IsSame run web.run
      → is_known event web.run ≡ true
      → is_snapshot event ≡ false
      → Agrees (reduce_event number now cli run event) (reduce later web event)
  unfolding reduce_event reduce patch_candidate with_candidate
  reduce_event-Agrees now later (run_snapshot snapshot) cli web run has same known plain = cc
  reduce_event-Agrees now later (run_status run_id status) cli web run has same known plain =
      record {
        run = record run { status = status };
        has_run = refl;
        same = record {
          id = same.id;
          prompt = same.prompt;
          candidates = same.candidates;
          synthesis = same.synthesis;
          error = same.error;
        };
      }
  reduce_event-Agrees now later (candidate_started run_id id) cli web run has same known plain =
      record {
        run = patch_candidate run id (λ c. record c { status = CandidateStatus.running });
        has_run = refl;
        same = record {
          id = same.id;
          prompt = same.prompt;
          candidates = patch-mark_running id run.candidates ∙ ap (mark_running id) same.candidates;
          synthesis = same.synthesis;
          error = same.error;
        };
      }
  reduce_event-Agrees now later (candidate_delta run_id id text) cli web run has same known plain =
      elim (Bool-cases (is_some (settled_content id web.run.candidates))) [
        | inl settled ↦ rw settled (record { run = run; has_run = has; same = same })
        | inr unsettled ↦ rw unsettled (record { run = run; has_run = has; same = same })
      ]
  reduce_event-Agrees now later (candidate_settled run_id candidate) cli web run has same known
        plain =
      record {
        run = patch_candidate run candidate.id (λ c. candidate);
        has_run = refl;
        same = record {
          id = same.id;
          prompt = same.prompt;
          candidates = rw known (
              patch-replace candidate run.candidates
              ∙ ap (replace_candidate candidate) same.candidates);
          synthesis = same.synthesis;
          error = same.error;
        };
      }
  reduce_event-Agrees now later (synthesis_started run_id model) cli web run has same known plain =
      record {
        run = run;
        has_run = has;
        same = record {
          id = same.id;
          prompt = same.prompt;
          candidates = same.candidates;
          synthesis = same.synthesis;
          error = same.error;
        };
      }
  reduce_event-Agrees now later (synthesis_settled run_id synthesis) cli web run has same known
        plain =
      record {
        run = record run { synthesis = some synthesis };
        has_run = refl;
        same = record {
          id = same.id;
          prompt = same.prompt;
          candidates = same.candidates;
          synthesis = refl;
          error = same.error;
        };
      }
  reduce_event-Agrees now later (run_completed run_id total) cli web run has same known plain =
      record {
        run = record run {
          status = RunStatus.complete;
          total_latency_ms = some total;
          completed_at = some now;
        };
        has_run = refl;
        same = record {
          id = same.id;
          prompt = same.prompt;
          candidates = same.candidates;
          synthesis = same.synthesis;
          error = same.error;
        };
      }
  reduce_event-Agrees now later (run_failed run_id error) cli web run has same known plain =
      record {
        run = record run { status = RunStatus.failed; error = some error };
        has_run = refl;
        same = record {
          id = same.id;
          prompt = same.prompt;
          candidates = same.candidates;
          synthesis = same.synthesis;
          error = refl;
        };
      }
  reduce_event-Agrees now later (run_canceled run_id reason) cli web run has same known plain =
      record {
        run = record run {
          status = RunStatus.canceled;
          error = some reason;
          canceled_at = some now;
        };
        has_run = refl;
        same = record {
          id = same.id;
          prompt = same.prompt;
          candidates = same.candidates;
          synthesis = same.synthesis;
          error = refl;
        };
      }

  receive_own :
      (now : String) (event : RunEvent) (cli : EngineState) (run : Run)
      → cli.run ≡ some run
      → is_snapshot event ≡ false
      → is_other_run (run_id_of event) run ≡ false
      → receive number now cli event ≡ reduce_event number now cli run event
  unfolding receive
  receive_own now (run_snapshot snapshot) cli run has plain own = cc
  receive_own now (run_status run_id status) cli run has plain own = rw (has, own) refl
  receive_own now (candidate_started run_id id) cli run has plain own = rw (has, own) refl
  receive_own now (candidate_delta run_id id text) cli run has plain own = rw (has, own) refl
  receive_own now (candidate_settled run_id candidate) cli run has plain own = rw (has, own) refl
  receive_own now (synthesis_started run_id model) cli run has plain own = rw (has, own) refl
  receive_own now (synthesis_settled run_id synthesis) cli run has plain own = rw (has, own) refl
  receive_own now (run_completed run_id total) cli run has plain own = rw (has, own) refl
  receive_own now (run_failed run_id error) cli run has plain own = rw (has, own) refl
  receive_own now (run_canceled run_id reason) cli run has plain own = rw (has, own) refl

  snapshot-Agrees :
      (now later : String) (event : RunEvent) (seq : Option ℕ) (cli : EngineState)
      (web : RunStreamState)
      → is_snapshot event ≡ true
      → Agrees (receive number now cli event) (apply_run_event later web event seq)
  unfolding receive apply_run_event
  snapshot-Agrees now later (run_snapshot run) seq cli web whole = record {
    run = run;
    has_run = refl;
    same = record { id = refl; prompt = refl; candidates = refl; synthesis = refl; error = refl };
  }
  snapshot-Agrees now later (run_status run_id status) seq cli web whole = cc
  snapshot-Agrees now later (candidate_started run_id id) seq cli web whole = cc
  snapshot-Agrees now later (candidate_delta run_id id text) seq cli web whole = cc
  snapshot-Agrees now later (candidate_settled run_id candidate) seq cli web whole = cc
  snapshot-Agrees now later (synthesis_started run_id model) seq cli web whole = cc
  snapshot-Agrees now later (synthesis_settled run_id synthesis) seq cli web whole = cc
  snapshot-Agrees now later (run_completed run_id total) seq cli web whole = cc
  snapshot-Agrees now later (run_failed run_id error) seq cli web whole = cc
  snapshot-Agrees now later (run_canceled run_id reason) seq cli web whole = cc

  other_run_same :
      (run_id : Option String) (cli web : Run)
      → cli.id ≡ web.id
      → is_other_run run_id cli ≡ is_other_run run_id web
  other_run_same none cli web same = refl
  other_run_same (some run_id) cli web same = rw same refl

  receive-Agrees :
      (now later : String) (event : RunEvent) (seq : Option ℕ) (cli : EngineState)
      (web : RunStreamState)
      → Agrees cli web
      → fits event web.run ≡ true
      → Agrees (receive number now cli event) (apply_run_event later web event seq)
  unfolding apply_run_event
  receive-Agrees now later event seq cli web a fit = elim (Bool-cases (is_snapshot event)) [
    | inl whole ↦ snapshot-Agrees now later event seq cli web whole
    | inr plain ↦
        let own : is_other_run (run_id_of event) a.run ≡ false =
          other_run_same (run_id_of event) a.run web.run a.same.id ∙ ground arith in
        let known : is_known event web.run ≡ true = ground arith in
        subst (λ c. Agrees c (apply_run_event later web event seq))
          (sym (receive_own now event cli a.run a.has_run plain own))
          (reduce_event-Agrees now later event cli
            (record web { cursor = next_cursor web.cursor seq }) a.run a.has_run a.same known plain)
  ]

  -- The events as each client receives them: with its own clock, and the web with the number of an
  -- event, if it has one.
  pub record Received : Type 0 where
    pub event : RunEvent
    pub now : String
    pub later : String
    pub seq : Option ℕ

  abbrev pub cli_after : List Received → EngineState → EngineState
  cli_after [] cli = cli
  cli_after (r ∷ rest) cli = cli_after rest (receive number r.now cli r.event)

  abbrev pub web_after : List Received → RunStreamState → RunStreamState
  web_after [] web = web
  web_after (r ∷ rest) web = web_after rest (apply_run_event r.later web r.event r.seq)

  abbrev pub all_fit : List Received → RunStreamState → Bool
  all_fit [] web = true
  all_fit (r ∷ rest) web =
      let fit = all_fit rest (apply_run_event r.later web r.event r.seq) in
      fits r.event web.run && fit

  -- Take a terminal client and a web client that show one run with the same prompt, panel, synthesis
  -- and error. They still do after any events, each client with its own clock, if every event is of
  -- the run that is shown, or is a snapshot, and every candidate that settles is one of the panel.
  pub same_panel :
      (events : List Received) (cli : EngineState) (web : RunStreamState)
      → Agrees cli web
      → all_fit events web ≡ true
      → Agrees (cli_after events cli) (web_after events web)
  same_panel [] cli web a fit = a
  same_panel (r ∷ rest) cli web a fit =
      same_panel rest (receive number r.now cli r.event) (apply_run_event r.later web r.event r.seq)
        (receive-Agrees r.now r.later r.event r.seq cli web a (ground arith)) (ground arith)
