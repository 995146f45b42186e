-- ===== src/Webhooks/Counting.antt =====
-- When an endpoint is taken out of rotation, against a reading of the history.
use self_consistency_answer.Common.{
  ℕ, suc, ◌≡◌, refl, ap, inl, inr, Bool, true, false, ◌&&◌, ◌||◌, none, some, List, [], ◌∷◌, arith,
  find?, is_some, leb, ◌==◌, if◌then◌else◌, Bool-cases, Option-cases,
}
use self_consistency_answer.Webhooks.{
  Endpoint, Tables, WebhookEvent, SuccessReport, FailureReport, webhook_failure_threshold,
  is_endpoint, update, enable_webhook_endpoint, dispatch_webhook_event, record_webhook_success,
  record_webhook_failure, count_failure, replay_webhook_delivery, prune_webhook_deliveries,
}
use self_consistency_answer.Webhooks.Pairs.{dispatch-endpoints}

-- A call on the tables, with its time.
pub data Call : Type 0 where
  dispatches : (tenant : ℕ) → WebhookEvent → (now : ℕ) → Call
  succeeds : SuccessReport → (now : ℕ) → Call
  fails : FailureReport → (now : ℕ) → Call
  enables : (tenant id : ℕ) → Call
  replays : (tenant id now : ℕ) → Call
  prunes : (before : ℕ) → Call

abbrev pub perform : Call → Tables → Tables
perform (dispatches tenant event now) db = (dispatch_webhook_event tenant event now db).0
perform (succeeds o now) db = record_webhook_success o now db
perform (fails o now) db = (record_webhook_failure o now db).0
perform (enables tenant id) db = (enable_webhook_endpoint tenant id db).0
perform (replays tenant id now) db = (replay_webhook_delivery tenant id now db).0
perform (prunes before) db = prune_webhook_deliveries before db

-- What a call says of one endpoint.
pub data Sign : Type 0 where
  delivered gave_up enabled unrelated : Sign

module _ (tenant id : ℕ) where
  abbrev pub about : ℕ → ℕ → Bool
  about tenant' id' = id == id' && tenant == tenant'

  abbrev pub sign : Call → Sign
  sign (succeeds o now) = if about o.tenant o.endpoint_id then delivered else unrelated
  sign (fails o now) = if o.exhausted && about o.tenant o.endpoint_id then gave_up else unrelated
  sign (enables tenant' id') = if about tenant' id' then enabled else unrelated
  sign call = unrelated

  abbrev pub next_streak : Sign → ℕ → ℕ
  next_streak delivered streak = 0
  next_streak enabled streak = 0
  next_streak gave_up streak = suc streak
  next_streak unrelated streak = streak

  -- The deliveries given up since the last that succeeded or the last enabling, the latest call
  -- first.
  abbrev pub streak : List Call → ℕ
  streak [] = 0
  streak (call ∷ calls) = next_streak (sign call) (streak calls)

  abbrev pub next_tripped : Sign → ℕ → Bool → Bool
  next_tripped delivered streak tripped = tripped
  next_tripped enabled streak tripped = false
  next_tripped gave_up streak tripped = tripped || leb webhook_failure_threshold (suc streak)
  next_tripped unrelated streak tripped = tripped

  -- Whether such a run has been as long as the threshold since the last enabling.
  abbrev pub tripped : List Call → Bool
  tripped [] = false
  tripped (call ∷ calls) = next_tripped (sign call) (streak calls) (tripped calls)

  abbrev pub after : List Call → Tables → Tables
  after [] db = db
  after (call ∷ calls) db = perform call (after calls db)

  -- The endpoint after a call that says this of it, at a time.
  abbrev signed : Sign → ℕ → Endpoint → Endpoint
  signed delivered now e = record e { consecutive_failures = 0 }
  signed enabled now e = record e { disabled_at = none; consecutive_failures = 0 }
  signed gave_up now e = count_failure now e
  signed unrelated now e = e

  find-update :
      (tenant' id' : ℕ) (f : Endpoint → Endpoint)
      → ((e : Endpoint) → ((f e).id ≡ e.id) × ((f e).tenant ≡ e.tenant))
      → (endpoints : List Endpoint) (e : Endpoint)
      → find? (is_endpoint tenant id) endpoints ≡ some e
      → find? (is_endpoint tenant id) (update (is_endpoint tenant' id') f endpoints)
        ≡ some (if about tenant' id' then f e else e)
  find-update tenant' id' f keeps [] e h = cc
  find-update tenant' id' f keeps (x ∷ endpoints) e h =
      let (same_id, same_tenant) = keeps x in
      let rest = find-update tenant' id' f keeps endpoints e in
      ground (arith, h, same_id, same_tenant, rest)

  about_found :
      (tenant' id' : ℕ) (endpoints : List Endpoint) (e : Endpoint)
      → about tenant' id' ≡ true
      → find? (is_endpoint tenant id) endpoints ≡ some e
      → find? (is_endpoint tenant' id') endpoints ≡ some e
  about_found tenant' id' endpoints e same h =
      let same_id : id ≡ id' = ground arith in
      let same_tenant : tenant ≡ tenant' = ground arith in rw (same_id, same_tenant) at h

  failure-endpoint :
      (o : FailureReport) (now : ℕ) (db : Tables) (e : Endpoint)
      → find? (is_endpoint tenant id) db.endpoints ≡ some e
      → find? (is_endpoint tenant id) (record_webhook_failure o now db).0.endpoints
        ≡ some (if o.exhausted && about o.tenant o.endpoint_id then count_failure now e else e)
  unfolding record_webhook_failure count_failure
  failure-endpoint o now db e h =
      let updated =
        find-update o.tenant o.endpoint_id (count_failure now) (λ e. (refl, refl)) db.endpoints e
          h in
      elim (Bool-cases o.exhausted) [
        | inr more ↦ rw more h
        | inl last ↦ elim (Option-cases (find? (is_endpoint o.tenant o.endpoint_id) db.endpoints)) [
          | inr (other, found) ↦ rw (last, found) updated
          | inl gone ↦ elim (Bool-cases (about o.tenant o.endpoint_id)) [
            | inl same ↦
                let found = about_found o.tenant o.endpoint_id db.endpoints e same h in absurd cc
            | inr differs ↦ rw (last, gone, differs) h
          ]
        ]
      ]

  perform-endpoint :
      (call : Call) (db : Tables) (e : Endpoint)
      → find? (is_endpoint tenant id) db.endpoints ≡ some e
      → (now : ℕ) × (find? (is_endpoint tenant id) (perform call db).endpoints
          ≡ some (signed (sign call) now e))
  unfolding enable_webhook_endpoint record_webhook_success replay_webhook_delivery
      prune_webhook_deliveries
  perform-endpoint (dispatches tenant' event now) db e h =
      (now, rw (dispatch-endpoints tenant' event now db) h)
  perform-endpoint (succeeds o now) db e h =
      let updated =
        find-update o.tenant o.endpoint_id (λ e. record e { consecutive_failures = 0 })
          (λ e. (refl, refl)) db.endpoints e h in
      (now, ground (arith, updated))
  perform-endpoint (fails o now) db e h =
      let updated = failure-endpoint o now db e h in (now, ground (arith, updated))
  perform-endpoint (enables tenant' id') db e h =
      let updated =
        find-update tenant' id' (λ e. record e { disabled_at = none; consecutive_failures = 0 })
          (λ e. (refl, refl)) db.endpoints e h in
      (0, ground (arith, updated))
  perform-endpoint (replays tenant' id' now) db e h = (now, h)
  perform-endpoint (prunes before) db e h = (before, h)

  -- What an endpoint's row says after a history.
  pub record Reflects (calls : List Call) (e : Endpoint) : Type 0 where
    pub failures : e.consecutive_failures ≡ streak calls
    pub disabled : is_some e.disabled_at ≡ tripped calls

  signed_counts :
      (s : Sign) (now : ℕ) (e : Endpoint) (k : ℕ) (t : Bool)
      → e.consecutive_failures ≡ k
      → is_some e.disabled_at ≡ t
      → ((signed s now e).consecutive_failures ≡ next_streak s k)
        × (is_some (signed s now e).disabled_at ≡ next_tripped s k t)
  unfolding count_failure
  signed_counts delivered now e k t failures disabled = (refl, disabled)
  signed_counts enabled now e k t failures disabled = (refl, refl)
  signed_counts unrelated now e k t failures disabled = (failures, disabled)
  signed_counts gave_up now e k t failures disabled =
      (ap suc failures, ground (arith, failures, disabled))

  -- Take an endpoint that is in rotation and has no failures, and then any dispatches, recorded
  -- successes and failures, enablings, replays and prunings, of any tenant, in any order. Its counter
  -- is the number of its deliveries that were given up since the last that succeeded or the last
  -- enabling, attempts that are to be retried not counted; and it is out of rotation exactly if that
  -- number has reached 20 since it was last enabled.
  pub disabled_iff_streak :
      (calls : List Call) (db : Tables) (e : Endpoint)
      → find? (is_endpoint tenant id) db.endpoints ≡ some e
      → e.consecutive_failures ≡ 0
      → e.disabled_at ≡ none
      → (e' : Endpoint) × (find? (is_endpoint tenant id) (after calls db).endpoints ≡ some e')
        × Reflects calls e'
  disabled_iff_streak [] db e h none_failed in_rotation =
      (e, h, record { failures = none_failed; disabled = ap is_some in_rotation })
  disabled_iff_streak (call ∷ calls) db e h none_failed in_rotation =
      let (e', found, reflects) = disabled_iff_streak calls db e h none_failed in_rotation in
      let (now, updated) = perform-endpoint call (after calls db) e' found in
      let (failures, disabled) =
        signed_counts (sign call) now e' (streak calls) (tripped calls) reflects.failures
          reflects.disabled in
      (signed (sign call) now e', updated, record { failures = failures; disabled = disabled })
