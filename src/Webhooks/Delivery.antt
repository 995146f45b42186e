-- ===== src/Webhooks/Delivery.antt =====
-- packages/worker/src/webhooks.ts: one attempt at a delivery, the emission of a run's event, and the
-- sweep that moves due deliveries onto the queue. What the receiver answers and whether the queue
-- takes a job are arguments; the queue's settings and the spelling of text are parameters.
use self_consistency_answer.Common.{
  ℕ, zero, suc, ◌+◌, ◌-◌, ◌*◌, ◌^◌, Bool, false, ◌&&◌, ◌||◌, Option, none, some, String, List, [],
  ◌∷◌, ◌++◌, take, ltb, leb, ◌==◌, if◌then◌else◌,
}
use self_consistency_answer.Events.{RunStatus}
use self_consistency_answer.Webhooks.{
  Dispatch, Tables, WebhookEvent, PendingWebhookDelivery, FailureReport, claim_webhook_dispatch,
  record_webhook_success, record_webhook_failure, dispatch_webhook_event,
  list_due_webhook_deliveries,
}

-- What `fetch` does: a response with a status and a body, or an error with its description.
pub data Reply : Type 0 where
  responds : (status : ℕ) → (body : List ℕ) → Reply
  unreachable : (description : List ℕ) → Reply

pub record JobMeta : Type 0 where
  pub attempt : ℕ
  pub is_final_attempt : Bool

-- How a job's run ends; the queue runs a job again that threw.
pub data JobEnd : Type 0 where
  returned : JobEnd
  thrown : JobEnd

abbrev pub response_snippet_chars : ℕ
response_snippet_chars = 200

unfoldable pub is_terminal_status : ℕ → Bool
is_terminal_status status =
    if status == 408 || status == 429 then false else leb 400 status && ltb status 500

-- `response.ok`.
abbrev pub is_ok : ℕ → Bool
is_ok status = leb 200 status && leb status 299

-- The setting, and the code units of a text and of a number.
module _ (backoff : ℕ) (units : String → List ℕ) (number : ℕ → List ℕ) where
  unfoldable pub backoff_ms : ℕ → ℕ
  backoff_ms attempt = backoff * 2 ^ (attempt - 1)

  abbrev pub snippet : List ℕ → List ℕ
  snippet [] = []
  snippet (c ∷ body) = units " — " ++ take response_snippet_chars (c ∷ body)

  abbrev pub failure_text : Reply → List ℕ
  failure_text (responds status body) = units "HTTP " ++ number status ++ snippet body
  failure_text (unreachable description) = description

  abbrev pub reply_status : Reply → Option ℕ
  reply_status (responds status body) = some status
  reply_status (unreachable description) = none

  abbrev pub is_terminal : Reply → Bool
  is_terminal (responds status body) = is_terminal_status status
  is_terminal (unreachable description) = false

  abbrev pub is_delivered : Reply → Bool
  is_delivered (responds status body) = is_ok status
  is_delivered (unreachable description) = false

  -- What is recorded of an attempt that was not answered with a 2xx.
  unfoldable pub failure_of : ℕ → PendingWebhookDelivery → JobMeta → Reply → ℕ → FailureReport
  unfolding backoff_ms is_terminal_status
  failure_of tenant delivery meta reply now =
      let exhausted = is_terminal reply || meta.is_final_attempt in
      record {
        tenant = tenant;
        delivery_id = delivery.id;
        endpoint_id = delivery.endpoint_id;
        response_status = reply_status reply;
        error = failure_text reply;
        attempts = meta.attempt;
        exhausted = exhausted;
        next_attempt_at = if exhausted then none else some (now + backoff_ms meta.attempt);
      }

  -- The queue is asked for another attempt unless this was the last; an exception of the recording
  -- leaves the job as well.
  unfoldable pub record_refusal :
      ℕ → PendingWebhookDelivery → JobMeta → Reply → ℕ → Tables → Tables × JobEnd
  unfolding failure_of record_webhook_failure
  record_refusal tenant delivery meta reply now db =
      let failure = failure_of tenant delivery meta reply now in
      let (db', outcome) = record_webhook_failure failure now db in
      (
        db',
        elim outcome [
          | none ↦ thrown
          | some recorded ↦ if failure.exhausted then returned else thrown
        ],
      )

  unfoldable pub record_attempt :
      ℕ → PendingWebhookDelivery → JobMeta → Reply → ℕ → Tables → Tables × JobEnd
  unfolding record_refusal record_webhook_success
  record_attempt tenant delivery meta (responds status body) now db =
      if is_ok status
      then (
        record_webhook_success
            (record {
              tenant = tenant;
              delivery_id = delivery.id;
              endpoint_id = delivery.endpoint_id;
              response_status = status;
              attempts = meta.attempt;
            })
            now db,
        returned,
      )
      else record_refusal tenant delivery meta (responds status body) now db
  record_attempt tenant delivery meta (unreachable description) now db =
      record_refusal tenant delivery meta (unreachable description) now db

  unfoldable pub process_webhook_job : ℕ → ℕ → JobMeta → Reply → ℕ → Tables → Tables × JobEnd
  unfolding claim_webhook_dispatch record_attempt
  process_webhook_job tenant id meta reply now db = elim (claim_webhook_dispatch tenant id db) [
    | none ↦ (db, returned)
    | some delivery ↦
        if delivery.endpoint_disabled
        then (db, returned)
        else record_attempt tenant delivery meta reply now db
  ]

  -- What `webhookJobMeta` of packages/queue/src/webhooks.ts makes of a job's attempts and their
  -- limit.
  abbrev pub webhook_job_meta : ℕ → ℕ → JobMeta
  webhook_job_meta max_attempts attempts_made = record {
    attempt = suc attempts_made;
    is_final_attempt = leb max_attempts (suc attempts_made);
  }

  -- A job on the queue, which runs it until it returns or has no attempts left. What else is done to
  -- the tables before each attempt, in the time that the queue waits, is an argument.
  unfoldable pub run_job :
      ℕ → ℕ → ℕ → (ℕ → Reply) → (ℕ → ℕ) → (ℕ → Tables → Tables) → ℕ → ℕ → Tables → Tables × JobEnd
  unfolding process_webhook_job
  run_job tenant id max_attempts reply clock meanwhile zero made db = (db, thrown)
  run_job tenant id max_attempts reply clock meanwhile (suc left) made db =
      let (db', end) =
        process_webhook_job tenant id (webhook_job_meta max_attempts made) (reply made) (clock made)
          (meanwhile made db) in
      elim end [
        | returned ↦ (db', returned)
        | thrown ↦ run_job tenant id max_attempts reply clock meanwhile left (suc made) db'
      ]

-- `COMPLETE` and `FAILED` make an event; the shared package builds it from the run.
unfoldable pub run_event : RunStatus → WebhookEvent → WebhookEvent → Option WebhookEvent
run_event RunStatus.complete completed_event failed_event = some completed_event
run_event RunStatus.failed completed_event failed_event = some failed_event
run_event status completed_event failed_event = none

-- The queue, whatever it is: what it makes of a delivery's job, `none` where it throws.
module _ {Jobs : Type 0} (enqueue : ℕ → ℕ → Jobs → Option Jobs) where
  abbrev pub enqueue_or_skip : ℕ → ℕ → Jobs → Jobs × ℕ
  enqueue_or_skip tenant id jobs = elim (enqueue tenant id jobs) [
    | none ↦ (jobs, 0)
    | some jobs' ↦ (jobs', 1)
  ]

  abbrev pub enqueue_each : List Dispatch → Jobs → Jobs × ℕ
  enqueue_each [] jobs = (jobs, 0)
  enqueue_each (d ∷ due) jobs =
      let (jobs', one) = enqueue_or_skip d.tenant d.id jobs in
      let (jobs'', rest) = enqueue_each due jobs' in (jobs'', one + rest)

  unfoldable pub sweep_webhooks_once : ℕ → ℕ → Tables → Jobs → Jobs × ℕ
  unfolding list_due_webhook_deliveries
  sweep_webhooks_once now batch db jobs =
      enqueue_each (list_due_webhook_deliveries now batch db) jobs

  abbrev pub enqueue_ids : ℕ → List ℕ → Jobs → Jobs
  enqueue_ids tenant [] jobs = jobs
  enqueue_ids tenant (id ∷ ids) jobs = enqueue_ids tenant ids (enqueue_or_skip tenant id jobs).0

  unfoldable pub emit_webhook_event : ℕ → WebhookEvent → ℕ → Tables → Jobs → Tables × Jobs
  unfolding dispatch_webhook_event
  emit_webhook_event tenant event now db jobs =
      let (db', created) = dispatch_webhook_event tenant event now db in
      (db', enqueue_ids tenant created jobs)

  unfoldable pub emit_run_webhook :
      RunStatus → WebhookEvent → WebhookEvent → ℕ → ℕ → Tables → Jobs → Tables × Jobs
  unfolding run_event emit_webhook_event
  emit_run_webhook status completed_event failed_event tenant now db jobs =
      elim (run_event status completed_event failed_event) [
        | none ↦ (db, jobs)
        | some event ↦ emit_webhook_event tenant event now db jobs
      ]
