-- ===== src/Webhooks/Attempts.antt =====
-- What an attempt makes of its delivery, and the life of a job on the queue.
use self_consistency_answer.Common.{
  ℕ, zero, suc, ◌+◌, ◌-◌, ◌*◌, ◌/◌, ◌^◌, not, ◌&&◌, ◌≡◌, refl, ap, ◌∙◌, sym, subst, inl, inr, Bool,
  true, false, ◌||◌, Option, none, some, String, List, arith, find?, ◌==◌, if◌then◌else◌,
  Bool-cases,
}
use self_consistency_answer.Webhooks.{
  DeliveryStatus, pending, delivered, failed, Dispatch, Tables, is_dispatch, claim_webhook_dispatch,
  record_webhook_success, record_webhook_failure, fail_dispatch,
}
use self_consistency_answer.Webhooks.Delivery.{
  Reply, responds, unreachable, JobMeta, JobEnd, returned, thrown, backoff_ms, is_terminal,
  is_terminal_status, is_delivered, failure_of, record_refusal, record_attempt, process_webhook_job,
}
use self_consistency_answer.Webhooks.Claims.{
  find-update_same, IsClaimable, IsAddressed, delivery_of, claim_of, same_id, keeps_key,
  failure-dispatches, failure-endpoints,
}

-- What an attempt comes to: the status of the delivery, when it is tried next, and how the job ends.
pub record AttemptVerdict : Type 0 where
  pub status : DeliveryStatus
  pub next_attempt_at : Option ℕ
  pub end : JobEnd

-- The delivery's row and the job say this.
pub record Settles (tenant id : ℕ) (verdict : AttemptVerdict) (result : Tables × JobEnd)
    : Type 0 where
  pub row : Dispatch
  pub found : find? (is_dispatch tenant id) result.0.dispatches ≡ some row
  pub status : row.status ≡ verdict.status
  pub next_attempt_at : row.next_attempt_at ≡ verdict.next_attempt_at
  pub end : result.1 ≡ verdict.end

module _ (backoff : ℕ) (units : String → List ℕ) (number : ℕ → List ℕ) where
  abbrev pub process : ℕ → ℕ → JobMeta → Reply → ℕ → Tables → Tables × JobEnd
  process = process_webhook_job backoff units number

  abbrev pub verdict_of : JobMeta → Reply → ℕ → AttemptVerdict
  verdict_of meta reply now =
      if is_delivered backoff units number reply
      then record { status = delivered; next_attempt_at = none; end = returned }
      else if is_terminal backoff units number reply || meta.is_final_attempt
      then record { status = failed; next_attempt_at = none; end = returned }
      else record {
        status = pending;
        next_attempt_at = some (now + backoff_ms backoff units number meta.attempt);
        end = thrown;
      }

  process_claimed :
      {tenant id : ℕ} {db : Tables} (meta : JobMeta) (reply : Reply) (now : ℕ)
      (c : IsClaimable tenant id db)
      → process tenant id meta reply now db
        ≡ record_attempt backoff units number tenant
            (delivery_of c.row c.endpoint)
            meta
            reply
            now
            db
  unfolding process_webhook_job
  process_claimed meta reply now c = rw (process_webhook_job, claim_of c, c.in_rotation) refl

  -- Nothing is sent to an endpoint that is out of rotation: the job returns and changes nothing.
  pub process_disabled :
      {tenant id : ℕ} {db : Tables} (meta : JobMeta) (reply : Reply) (now at : ℕ)
      (a : IsAddressed tenant id db)
      → a.endpoint.disabled_at ≡ some at
      → process tenant id meta reply now db ≡ (db, returned)
  unfolding process_webhook_job claim_webhook_dispatch
  process_disabled meta reply now at a out =
      rw (process_webhook_job, claim_webhook_dispatch, a.found, a.addressed, out) refl

  process_refused :
      {tenant id : ℕ} {db : Tables} (meta : JobMeta) (reply : Reply) (now : ℕ)
      (c : IsClaimable tenant id db)
      → is_delivered backoff units number reply ≡ false
      → process tenant id meta reply now db
        ≡ record_refusal backoff units number tenant
            (delivery_of c.row c.endpoint)
            meta
            reply
            now
            db
  unfolding record_attempt
  process_refused meta (unreachable description) now c refused =
      process_claimed meta (unreachable description) now c
  process_refused meta (responds status body) now c refused =
      process_claimed meta (responds status body) now c ∙ rw (record_attempt, refused) refl

  success-Settles :
      {tenant id : ℕ} {db : Tables} (meta : JobMeta) (reply : Reply) (now : ℕ)
      (c : IsClaimable tenant id db)
      → is_delivered backoff units number reply ≡ true
      → Settles tenant id (verdict_of meta reply now) (
          record_attempt backoff units number tenant
            (delivery_of c.row c.endpoint)
            meta
            reply
            now
            db)
  unfolding record_attempt record_webhook_success
  success-Settles meta (unreachable description) now c accepted = cc
  success-Settles {tenant = tenant} {id = id} {db = db} meta (responds status body) now c accepted =
      let mark : Dispatch → Dispatch = λ d. record d {
        status = delivered;
        attempts = meta.attempt;
        response_status = some status;
        last_error = none;
        delivered_at = some now;
        next_attempt_at = none;
      } in
      rw (accepted, same_id c)
        (record {
          row = mark c.row;
          found =
              find-update_same (is_dispatch tenant id) mark (λ d. refl) db.dispatches c.row c.found;
          status = refl;
          next_attempt_at = refl;
          end = refl;
        })

  refused_row :
      {tenant id : ℕ} {db : Tables} (meta : JobMeta) (reply : Reply) (now : ℕ)
      (c : IsClaimable tenant id db)
      → let failure =
          failure_of backoff units number tenant (delivery_of c.row c.endpoint) meta reply now in
        find? (is_dispatch tenant id) (record_webhook_failure failure now db).0.dispatches
        ≡ some (fail_dispatch failure c.row)
  unfolding failure_of
  refused_row {tenant = tenant} {id = id} {db = db} meta reply now c =
      let failure =
        failure_of backoff units number tenant (delivery_of c.row c.endpoint) meta reply now in
      let here : find? (is_dispatch tenant c.row.id) db.dispatches ≡ some c.row =
        subst (λ i. find? (is_dispatch tenant i) db.dispatches ≡ some c.row) (sym (same_id c))
          c.found in
      let (dispatches, (outcome, recorded)) =
        failure-dispatches failure now db c.endpoint c.owned in
      subst
        (λ i.
          find? (is_dispatch tenant i) (record_webhook_failure failure now db).0.dispatches
          ≡ some (fail_dispatch failure c.row))
        (same_id c)
        (rw dispatches (
          find-update_same (is_dispatch tenant c.row.id) (fail_dispatch failure) (keeps_key failure)
            db.dispatches c.row here))

  refusal-Settles :
      {tenant id : ℕ} {db : Tables} (meta : JobMeta) (reply : Reply) (now : ℕ)
      (c : IsClaimable tenant id db)
      → is_delivered backoff units number reply ≡ false
      → Settles tenant id (verdict_of meta reply now) (
          record_refusal backoff units number tenant
            (delivery_of c.row c.endpoint)
            meta
            reply
            now
            db)
  unfolding record_refusal failure_of fail_dispatch
  refusal-Settles {tenant = tenant} {id = id} {db = db} meta reply now c refused =
      let failure =
        failure_of backoff units number tenant (delivery_of c.row c.endpoint) meta reply now in
      let (dispatches, (outcome, recorded)) =
        failure-dispatches failure now db c.endpoint c.owned in
      let found = refused_row meta reply now c in
      elim (Bool-cases (is_terminal backoff units number reply || meta.is_final_attempt)) [
        | inl last ↦ record {
          row = fail_dispatch failure c.row;
          found = found;
          status = rw (refused, last) refl;
          next_attempt_at = rw (refused, last) refl;
          end = rw (record_refusal, refused, recorded, last) refl;
        }
        | inr more ↦ record {
          row = fail_dispatch failure c.row;
          found = found;
          status = rw (refused, more) refl;
          next_attempt_at = rw (refused, more) refl;
          end = rw (record_refusal, refused, recorded, more) refl;
        }
      ]

  pub attempt-verdict_of :
      {tenant id : ℕ} {db : Tables} (meta : JobMeta) (reply : Reply) (now : ℕ)
      → IsClaimable tenant id db
      → Settles tenant id (verdict_of meta reply now) (process tenant id meta reply now db)
  unfolding record_attempt record_webhook_success
  attempt-verdict_of {tenant = tenant} {id = id} {db = db} meta reply now c =
      elim (Bool-cases (is_delivered backoff units number reply)) [
        | inr refused ↦
            subst (Settles tenant id (verdict_of meta reply now))
              (sym (process_refused meta reply now c refused))
              (refusal-Settles meta reply now c refused)
        | inl accepted ↦
            subst (Settles tenant id (verdict_of meta reply now))
              (sym (process_claimed meta reply now c)) (success-Settles meta reply now c accepted)
      ]

  -- An attempt that is to be repeated leaves the endpoint alone.
  pub repeated-IsClaimable :
      {tenant id : ℕ} {db : Tables} (meta : JobMeta) (reply : Reply) (now : ℕ)
      (c : IsClaimable tenant id db)
      → is_delivered backoff units number reply ≡ false
      → (is_terminal backoff units number reply || meta.is_final_attempt) ≡ false
      → IsClaimable tenant id (process tenant id meta reply now db).0
  unfolding record_refusal failure_of fail_dispatch
  repeated-IsClaimable {tenant = tenant} {id = id} {db = db} meta reply now c refused more =
      let failure =
        failure_of backoff units number tenant (delivery_of c.row c.endpoint) meta reply now in
      let same = failure-endpoints failure now db more in
      subst (IsClaimable tenant id) (sym (ap (λ r. r.0) (process_refused meta reply now c refused)))
        (record {
          row = fail_dispatch failure c.row;
          endpoint = c.endpoint;
          found = refused_row meta reply now c;
          addressed = rw same c.addressed;
          owned = rw same c.owned;
          in_rotation = c.in_rotation;
        })

  -- A 2xx status: its hundreds are two.
  abbrev pub is_accepted : Reply → Bool
  is_accepted (responds status body) = status / 100 == 2
  is_accepted (unreachable description) = false

  -- A status in the four hundreds that is neither 408 nor 429.
  abbrev pub is_rejected : Reply → Bool
  is_rejected (responds status body) =
      status / 100 == 4 && not (status == 408) && not (status == 429)
  is_rejected (unreachable description) = false

  -- The setting, doubled so many times.
  abbrev pub doubled : ℕ → ℕ
  doubled zero = backoff
  doubled (suc n) = 2 * doubled n

  -- What the attempt is to come to, by the answer's status and the attempt's number alone.
  abbrev pub expected : JobMeta → Reply → ℕ → AttemptVerdict
  expected meta reply now =
      if is_accepted reply
      then record { status = delivered; next_attempt_at = none; end = returned }
      else if is_rejected reply || meta.is_final_attempt
      then record { status = failed; next_attempt_at = none; end = returned }
      else record {
        status = pending;
        next_attempt_at = some (now + doubled (meta.attempt - 1));
        end = thrown;
      }

  delivered-accepted : (reply : Reply) → is_delivered backoff units number reply ≡ is_accepted reply
  delivered-accepted (responds status body) = grind arith
  delivered-accepted (unreachable description) = refl

  terminal-rejected : (reply : Reply) → is_terminal backoff units number reply ≡ is_rejected reply
  unfolding is_terminal_status
  terminal-rejected (responds status body) = grind arith
  terminal-rejected (unreachable description) = refl

  power-doubled : (n : ℕ) → backoff * 2 ^ n ≡ doubled n
  power-doubled zero = omega arith
  power-doubled (suc n) = grind (arith, power-doubled n)

  backoff-doubled : (n : ℕ) → backoff_ms backoff units number n ≡ doubled (n - 1)
  unfolding backoff_ms
  backoff-doubled n = power-doubled (n - 1)

  expected-verdict_of :
      (meta : JobMeta) (reply : Reply) (now : ℕ)
      → verdict_of meta reply now ≡ expected meta reply now
  expected-verdict_of meta reply now =
      rw (delivered-accepted reply, terminal-rejected reply, backoff-doubled meta.attempt) refl

  -- Take a delivery whose endpoint is in rotation and of the job's tenant. An answer with a 2xx
  -- status marks it delivered; otherwise, a 4xx that is neither 408 nor 429, or the last attempt,
  -- marks it failed; each ends the job, and no attempt is due. Any other answer, or none, leaves it
  -- pending, due again after the setting's wait, doubled with each attempt made before, and asks the
  -- queue for another attempt.
  pub attempt-Settles :
      {tenant id : ℕ} {db : Tables} (meta : JobMeta) (reply : Reply) (now : ℕ)
      → IsClaimable tenant id db
      → Settles tenant id (expected meta reply now) (process tenant id meta reply now db)
  attempt-Settles {tenant = tenant} {id = id} {db = db} meta reply now c =
      subst (λ v. Settles tenant id v (process tenant id meta reply now db))
        (expected-verdict_of meta reply now) (attempt-verdict_of meta reply now c)
