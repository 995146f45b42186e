-- ===== src/Webhooks/Jobs.antt =====
-- A job on the queue settles its delivery, whatever happens to the tables between its attempts.
use self_consistency_answer.Common.{
  ℕ, zero, suc, ◌+◌, ◌≤◌, ◌≡◌, ◌⊎◌, refl, ap, ◌∙◌, sym, subst, inl, inr, true, false, ◌||◌, some,
  String, List, arith, find?, is_some, Bool-cases, Option-cases,
}
use self_consistency_answer.Webhooks.{
  is_pending_delivery, Dispatch, Endpoint, Tables, is_dispatch, is_endpoint,
}
use self_consistency_answer.Webhooks.Delivery.{
  Reply, JobEnd, returned, thrown, is_terminal, is_delivered, webhook_job_meta, run_job,
}
use self_consistency_answer.Webhooks.Claims.{
  IsAddressed, IsClaimable, claimable, claimed-IsAddressed,
}
use self_consistency_answer.Webhooks.Attempts.{
  AttemptVerdict, Settles, process, process_disabled, verdict_of, attempt-verdict_of,
  repeated-IsClaimable,
}

-- The delivery's endpoint is there, and out of rotation.
pub record IsOut (tenant : ℕ) (row : Dispatch) (db : Tables) : Type 0 where
  pub endpoint : Endpoint
  pub owned : find? (is_endpoint tenant row.endpoint_id) db.endpoints ≡ some endpoint
  pub out : is_some endpoint.disabled_at ≡ true

-- The job has returned, and the delivery is not pending unless its endpoint is out of rotation.
pub record IsOver (tenant id : ℕ) (result : Tables × JobEnd) : Type 0 where
  pub row : Dispatch
  pub found : find? (is_dispatch tenant id) result.0.dispatches ≡ some row
  pub over : (is_pending_delivery row.status ≡ false) ⊎ IsOut tenant row result.0
  pub end : result.1 ≡ returned

module _ (backoff : ℕ) (units : String → List ℕ) (number : ℕ → List ℕ) where
  settled :
      {tenant id : ℕ} (verdict : AttemptVerdict) (result : Tables × JobEnd)
      → Settles tenant id verdict result
      → verdict.end ≡ returned
      → is_pending_delivery verdict.status ≡ false
      → IsOver tenant id result
  settled verdict result s end over = record {
    row = s.row;
    found = s.found;
    over = inl (rw s.status over);
    end = s.end ∙ end;
  }

  left_alone :
      {tenant id : ℕ} {db : Tables} (a : IsAddressed tenant id db) (at : ℕ)
      → a.endpoint.disabled_at ≡ some at
      → IsOver tenant id (db, returned)
  left_alone a at e = record {
    row = a.row;
    found = a.found;
    over = inr (record { endpoint = a.endpoint; owned = a.owned; out = rw e refl });
    end = refl;
  }

  module _ (tenant id max_attempts : ℕ) (reply : ℕ → Reply) (clock : ℕ → ℕ)
      (meanwhile : ℕ → Tables → Tables) where
    -- The attempt after so many others, and the rest of the job.
    abbrev attempt : ℕ → Tables → Tables × JobEnd
    attempt made db =
        process backoff units number tenant id
          (webhook_job_meta backoff units number max_attempts made) (reply made) (clock made)
          (meanwhile made db)

    abbrev run : ℕ → ℕ → Tables → Tables × JobEnd
    run = run_job backoff units number tenant id max_attempts reply clock meanwhile

    run-returned :
        (left made : ℕ) (db : Tables)
        → (attempt made db).1 ≡ returned
        → run (suc left) made db ≡ attempt made db
    unfolding run_job
    run-returned left made db e = rw (run_job, e) (ap (λ end. ((attempt made db).0, end)) (sym e))

    run-thrown :
        (left made : ℕ) (db : Tables)
        → (attempt made db).1 ≡ thrown
        → run (suc left) made db ≡ run left (suc made) (attempt made db).0
    unfolding run_job
    run-thrown left made db e = rw (run_job, e) refl

    -- An attempt at an endpoint in rotation either ends the job or leaves the rest of it to run.
    attempt-settles :
        (left made : ℕ) (db : Tables)
        → made + suc left ≡ max_attempts
        → IsClaimable tenant id (meanwhile made db)
        → (1 ≤ left
            → IsAddressed tenant id (attempt made db).0
            → IsOver tenant id (run left (suc made) (attempt made db).0))
        → IsOver tenant id (run (suc left) made db)
    attempt-settles left made db total c rest =
        let meta = webhook_job_meta backoff units number max_attempts made in
        let verdict = verdict_of backoff units number meta (reply made) (clock made) in
        let s = attempt-verdict_of backoff units number meta (reply made) (clock made) c in
        let ends : verdict.end ≡ returned
            → is_pending_delivery verdict.status ≡ false
            → IsOver tenant id (run (suc left) made db) =
          λ end over.
            subst (IsOver tenant id) (sym (run-returned left made db (s.end ∙ end)))
              (settled verdict (attempt made db) s end over) in
        elim (Bool-cases (is_delivered backoff units number (reply made))) [
          | inl accepted ↦ ends (rw accepted refl) (rw accepted refl)
          | inr refused ↦
              elim (Bool-cases
                (is_terminal backoff units number (reply made) || meta.is_final_attempt)) [
                  | inl last ↦ ends (rw (refused, last) refl) (rw (refused, last) refl)
                  | inr more ↦
                      let thrown_now : (attempt made db).1 ≡ thrown =
                        s.end ∙ rw (refused, more) refl in
                      subst (IsOver tenant id) (sym (run-thrown left made db thrown_now)) (
                        rest (ground (arith, total, more)) (
                          claimed-IsAddressed (
                            repeated-IsClaimable backoff units number meta (reply made) (clock made)
                              c refused more)))
                ]
        ]

    attempts_settle :
        (left made : ℕ) (db : Tables)
        → ((made : ℕ) (t : Tables)
            → IsAddressed tenant id t
            → IsAddressed tenant id (meanwhile made t))
        → made + left ≡ max_attempts
        → 1 ≤ left
        → IsAddressed tenant id db
        → IsOver tenant id (run left made db)
    attempts_settle zero made db keeps total enough a = absurd (omega (arith, enough))
    attempts_settle (suc left) made db keeps total enough a =
        let here = keeps made db a in
        elim (Option-cases here.endpoint.disabled_at) [
          | inr (at, out) ↦
              let meta = webhook_job_meta backoff units number max_attempts made in
              let same : attempt made db ≡ (meanwhile made db, returned) =
                process_disabled backoff units number meta (reply made) (clock made) at here out in
              subst (IsOver tenant id) (sym (run-returned left made db (ap (λ r. r.1) same) ∙ same))
                (left_alone here at out)
          | inl in_rotation ↦
              attempt-settles left made db total (claimable here in_rotation) (λ again next.
                attempts_settle left (suc made) (attempt made db).0 keeps (omega (arith, total))
                  again next)
        ]

    -- Take a delivery whose endpoint is there and of the job's tenant, and a job for it that may be
    -- attempted a given number of times, at least once. Whatever the receiver answers to each
    -- attempt, and whenever, and whatever else happens to the tables before each attempt, as long as
    -- the delivery and its endpoint are not removed, the job returns within those attempts. The
    -- delivery is then marked delivered or failed, or its endpoint is out of rotation.
    pub job_settles :
        (db : Tables)
        → 1 ≤ max_attempts
        → ((made : ℕ) (t : Tables)
            → IsAddressed tenant id t
            → IsAddressed tenant id (meanwhile made t))
        → IsAddressed tenant id db
        → IsOver tenant id (
            run_job backoff units number tenant id max_attempts reply clock meanwhile max_attempts 0
              db)
    job_settles db enough keeps a = attempts_settle max_attempts 0 db keeps (omega arith) enough a
