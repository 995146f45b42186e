-- ===== src/Webhooks/Tests.antt =====
-- Two endpoints, one out of rotation, and the theorems at them.
use self_consistency_answer.Common.{
  ◌≡◌, refl, true, false, none, some, String, List, [], ◌∷◌, arith, ℕ, find?, filter, Bool, map,
  inl, inr, Bool-cases, ◌==◌, if◌then◌else◌,
}
use self_consistency_answer.Webhooks.{
  DeliveryStatus, Endpoint, Tables, WebhookEvent, FailureReport, is_endpoint, is_subscribed,
  webhook_event_types, dispatch_webhook_event,
}
use self_consistency_answer.Webhooks.Delivery.{
  Reply, responds, JobMeta, thrown, process_webhook_job, run_job, backoff_ms,
}
use self_consistency_answer.Webhooks.Pairs.{IsUnique, all_have, dispatch_twice}
use self_consistency_answer.Webhooks.Counting.{fails, enables, after, Reflects, disabled_iff_streak}
use self_consistency_answer.Webhooks.Claims.{IsAddressed, IsClaimable, claimed-IsAddressed}
use self_consistency_answer.Webhooks.Attempts.{Settles, attempt-Settles}
use self_consistency_answer.Webhooks.Jobs.{IsOver, job_settles}

abbrev live : Endpoint
live = record {
  id = 1;
  tenant = 7;
  url = "https://a.example";
  secret = "whsec_a";
  event_types = webhook_event_types;
  disabled_at = none;
  consecutive_failures = 0;
}

abbrev broken : Endpoint
broken = record live { id = 2; disabled_at = some 5; consecutive_failures = 20 }

abbrev tables : Tables
tables = record { endpoints = live ∷ broken ∷ []; dispatches = []; next_id = 3 }

abbrev event : WebhookEvent
event = record { id = "evt_1"; event_type = "run.completed"; json = "{}" }

abbrev dispatched : Tables
dispatched = record tables {
  dispatches =
      record {
        id = 3;
        tenant = 7;
        endpoint_id = 1;
        event_id = "evt_1";
        event_type = "run.completed";
        payload = "{}";
        status = DeliveryStatus.pending;
        attempts = 0;
        response_status = none;
        last_error = none;
        delivered_at = none;
        next_attempt_at = some 100;
        created_at = 100;
      }
      ∷ [];
  next_id = 4;
}

dispatches_one : dispatch_webhook_event 7 event 100 tables ≡ (dispatched, 3 ∷ [])
unfolding dispatch_webhook_event
dispatches_one = refl

dispatch_twice_example :
    let (db', created) = dispatch_webhook_event 7 event 100 tables in
    (all_have event.id (filter (is_subscribed 7 event) tables.endpoints) db' ≡ true)
    × (dispatch_webhook_event 7 event 900 db' ≡ (db', []))
    × IsUnique db'.dispatches
dispatch_twice_example = dispatch_twice 7 event 100 900 tables tt

-- A delivery given up, and the endpoint enabled before it.
abbrev given_up : FailureReport
given_up = record {
  tenant = 7;
  delivery_id = 3;
  endpoint_id = 1;
  response_status = some 410;
  error = [];
  attempts = 1;
  exhausted = true;
  next_attempt_at = none;
}

disabled_iff_streak_example :
    (e : Endpoint) × (find?
        (is_endpoint 7 1)
        (after 7 1 (fails given_up 200 ∷ enables 7 1 ∷ []) dispatched).endpoints
      ≡ some e)
    × Reflects 7 1 (fails given_up 200 ∷ enables 7 1 ∷ []) e
disabled_iff_streak_example =
    disabled_iff_streak 7 1 (fails given_up 200 ∷ enables 7 1 ∷ []) dispatched live refl refl refl

abbrev units : String → List ℕ
units text = []

abbrev number : ℕ → List ℕ
number n = n ∷ []

in_rotation : IsClaimable 7 3 dispatched
in_rotation = record {
  row = record {
    id = 3;
    tenant = 7;
    endpoint_id = 1;
    event_id = "evt_1";
    event_type = "run.completed";
    payload = "{}";
    status = DeliveryStatus.pending;
    attempts = 0;
    response_status = none;
    last_error = none;
    delivered_at = none;
    next_attempt_at = some 100;
    created_at = 100;
  };
  endpoint = live;
  found = refl;
  addressed = refl;
  owned = refl;
  in_rotation = refl;
}

abbrev second : JobMeta
second = record { attempt = 2; is_final_attempt = false }

waits : backoff_ms 5_000 units number 3 ≡ 20_000
unfolding backoff_ms
waits = refl

-- An answer of 429 is tried again, after twice the setting.
attempt-Settles_example :
    Settles 7 3
      (record { status = DeliveryStatus.pending; next_attempt_at = some 10_300; end = thrown })
      (process_webhook_job 5_000 units number 7 3 second (responds 429 []) 300 dispatched)
attempt-Settles_example =
    attempt-Settles 5_000 units number second (responds 429 []) 300 in_rotation

abbrev replies : ℕ → Reply
replies n = responds 503 []

-- Every endpoint is taken out of rotation before the third attempt.
abbrev take_out : Endpoint → Endpoint
take_out e = record e { disabled_at = some 9 }

abbrev halted : ℕ → Tables → Tables
halted n t = if n == 2 then record t { endpoints = map take_out t.endpoints } else t

find-take_out :
    (p : Endpoint → Bool) (endpoints : List Endpoint) (e : Endpoint)
    → ((x : Endpoint) → p (take_out x) ≡ p x)
    → find? p endpoints ≡ some e
    → find? p (map take_out endpoints) ≡ some (take_out e)
find-take_out p [] e keeps h = cc
find-take_out p (x ∷ endpoints) e keeps h =
    let rest = find-take_out p endpoints e keeps in ground (arith, h, keeps x, rest)

halted-IsAddressed : (n : ℕ) (t : Tables) → IsAddressed 7 3 t → IsAddressed 7 3 (halted n t)
halted-IsAddressed n t a = elim (Bool-cases (n == 2)) [
  | inr other ↦ rw other a
  | inl third ↦ rw third (record {
    row = a.row;
    endpoint = take_out a.endpoint;
    found = a.found;
    addressed =
        find-take_out (λ e. e.id == a.row.endpoint_id) t.endpoints a.endpoint (λ x. refl)
          a.addressed;
    owned =
        find-take_out (is_endpoint 7 a.row.endpoint_id) t.endpoints a.endpoint (λ x. refl) a.owned;
  })
]

job_settles_example :
    IsOver 7 3 (run_job 5_000 units number 7 3 6 replies (λ n. n) halted 6 0 dispatched)
job_settles_example =
    job_settles 5_000 units number 7 3 6 replies (λ n. n) halted dispatched (omega arith)
      halted-IsAddressed (claimed-IsAddressed in_rotation)
