-- ===== src/Webhooks.antt =====
-- packages/db/src/webhooks.ts: the tables of webhook endpoints and deliveries. Every statement but
-- the sweep's and the pruning's selects by tenant. A row is created at the front of its table; text
-- that is cut to a length is its list of UTF-16 code units. Prisma and Postgres do what the
-- statements say: the unique index on (endpoint, event), the deletions that cascade, and the errors
-- for both. Columns that are only shown (a description, the reason for a disabling, when a row was
-- updated) are left out, and the event type of a row is one that this build knows.
pub mod Delivery
pub mod Pairs
pub mod Counting
pub mod Claims
pub mod Attempts
pub mod Jobs
mod Tests
use self_consistency_answer.Common.{
  ℕ, suc, ◌+◌, Bool, true, false, not, ◌&&◌, ◌||◌, Option, none, some, String, List, [], ◌∷◌, map,
  filter, any, find?, take, is_some, or_else, str_eq, ltb, leb, ◌==◌, if◌then◌else◌,
}

pub data DeliveryStatus : Type 0 where
  pending delivered failed : DeliveryStatus

pub record Endpoint : Type 0 where
  pub id : ℕ
  pub tenant : ℕ
  pub url : String
  pub secret : String
  pub event_types : List String
  pub disabled_at : Option ℕ
  pub consecutive_failures : ℕ

pub record Dispatch : Type 0 where
  pub id : ℕ
  pub tenant : ℕ
  pub endpoint_id : ℕ
  pub event_id : String
  pub event_type : String
  pub payload : String
  pub status : DeliveryStatus
  pub attempts : ℕ
  pub response_status : Option ℕ
  pub last_error : Option (List ℕ)
  pub delivered_at : Option ℕ
  pub next_attempt_at : Option ℕ
  pub created_at : ℕ

pub record Tables : Type 0 where
  pub endpoints : List Endpoint
  pub dispatches : List Dispatch
  pub next_id : ℕ

-- An event, with what `JSON.stringify` makes of it.
pub record WebhookEvent : Type 0 where
  pub id : String
  pub event_type : String
  pub json : String

abbrev pub webhook_failure_threshold : ℕ
webhook_failure_threshold = 20

abbrev pub error_max_chars : ℕ
error_max_chars = 500

abbrev pub webhook_event_types : List String
webhook_event_types = "run.completed" ∷ "run.failed" ∷ "quota.exceeded" ∷ []

abbrev pub is_pending_delivery : DeliveryStatus → Bool
is_pending_delivery pending = true
is_pending_delivery delivered = false
is_pending_delivery failed = false

-- `where: { id, tenantId }`.
abbrev pub is_endpoint : ℕ → ℕ → Endpoint → Bool
is_endpoint tenant id e = e.id == id && e.tenant == tenant

abbrev pub is_dispatch : ℕ → ℕ → Dispatch → Bool
is_dispatch tenant id d = d.id == id && d.tenant == tenant

-- `updateMany`.
abbrev pub update {ℓ} : {A : Type ℓ} → (A → Bool) → (A → A) → List A → List A
update p f rows = map (λ row. if p row then f row else row) rows

-- `mintWebhookSecret` draws the secret.
unfoldable pub create_webhook_endpoint :
    ℕ → String → String → Option (List String) → Tables → Tables × Endpoint
create_webhook_endpoint tenant url secret event_types db =
    let row : Endpoint = record {
      id = db.next_id;
      tenant = tenant;
      url = url;
      secret = secret;
      event_types = or_else event_types webhook_event_types;
      disabled_at = none;
      consecutive_failures = 0;
    } in
    (record db { endpoints = row ∷ db.endpoints; next_id = suc db.next_id }, row)

-- The endpoint's deliveries go with it.
unfoldable pub delete_webhook_endpoint : ℕ → ℕ → Tables → Tables × Bool
delete_webhook_endpoint tenant id db =
    let found = any (is_endpoint tenant id) db.endpoints in
    (
      record db {
        endpoints = filter (λ e. not (is_endpoint tenant id e)) db.endpoints;
        dispatches =
            if found then filter (λ d. not (d.endpoint_id == id)) db.dispatches else db.dispatches;
      },
      found,
    )

unfoldable pub enable_webhook_endpoint : ℕ → ℕ → Tables → Tables × Option Endpoint
enable_webhook_endpoint tenant id db =
    let endpoints =
      update (is_endpoint tenant id)
        (λ e. record e { disabled_at = none; consecutive_failures = 0 }) db.endpoints in
    (record db { endpoints = endpoints }, find? (is_endpoint tenant id) endpoints)

abbrev pub is_subscribed : ℕ → WebhookEvent → Endpoint → Bool
is_subscribed tenant event e =
    e.tenant == tenant
    && (not (is_some e.disabled_at) && any (λ t. str_eq t event.event_type) e.event_types)

-- The key of the unique index.
abbrev pub is_pair : ℕ → String → Dispatch → Bool
is_pair endpoint_id event_id d = d.endpoint_id == endpoint_id && str_eq d.event_id event_id

-- One `webhookDispatch.create`; a conflict with the index is skipped.
unfoldable pub create_dispatch : ℕ → WebhookEvent → ℕ → Endpoint → Tables × List ℕ → Tables × List ℕ
create_dispatch tenant event now e (db, created) =
    if any (is_pair e.id event.id) db.dispatches then (db, created) else (
      record db {
        dispatches =
            record {
              id = db.next_id;
              tenant = tenant;
              endpoint_id = e.id;
              event_id = event.id;
              event_type = event.event_type;
              payload = event.json;
              status = pending;
              attempts = 0;
              response_status = none;
              last_error = none;
              delivered_at = none;
              next_attempt_at = some now;
              created_at = now;
            }
            ∷ db.dispatches;
        next_id = suc db.next_id;
      },
      db.next_id ∷ created,
    )

unfoldable pub create_dispatches :
    ℕ → WebhookEvent → ℕ → List Endpoint → Tables × List ℕ → Tables × List ℕ
unfolding create_dispatch
create_dispatches tenant event now [] result = result
create_dispatches tenant event now (e ∷ endpoints) result =
    create_dispatches tenant event now endpoints (create_dispatch tenant event now e result)

-- The ids created, the last first.
unfoldable pub dispatch_webhook_event : ℕ → WebhookEvent → ℕ → Tables → Tables × List ℕ
unfolding create_dispatches
dispatch_webhook_event tenant event now db =
    create_dispatches tenant event now (filter (is_subscribed tenant event) db.endpoints) (db, [])

pub record PendingWebhookDelivery : Type 0 where
  pub id : ℕ
  pub endpoint_id : ℕ
  pub event_id : String
  pub payload : String
  pub url : String
  pub secret : String
  pub endpoint_disabled : Bool

-- The endpoint of a delivery exists: it is a foreign key.
unfoldable pub claim_webhook_dispatch : ℕ → ℕ → Tables → Option PendingWebhookDelivery
claim_webhook_dispatch tenant id db = elim (find? (is_dispatch tenant id) db.dispatches) [
  | none ↦ none
  | some d ↦ elim (find? (λ e. e.id == d.endpoint_id) db.endpoints) [
    | none ↦ none
    | some e ↦ some (record {
      id = d.id;
      endpoint_id = d.endpoint_id;
      event_id = d.event_id;
      payload = d.payload;
      url = e.url;
      secret = e.secret;
      endpoint_disabled = is_some e.disabled_at;
    })
  ]
]

pub record SuccessReport : Type 0 where
  pub tenant : ℕ
  pub delivery_id : ℕ
  pub endpoint_id : ℕ
  pub response_status : ℕ
  pub attempts : ℕ

unfoldable pub record_webhook_success : SuccessReport → ℕ → Tables → Tables
record_webhook_success o now db = record db {
  dispatches =
      update (is_dispatch o.tenant o.delivery_id)
        (λ d. record d {
          status = delivered;
          attempts = o.attempts;
          response_status = some o.response_status;
          last_error = none;
          delivered_at = some now;
          next_attempt_at = none;
        })
        db.dispatches;
  endpoints =
      update (is_endpoint o.tenant o.endpoint_id) (λ e. record e { consecutive_failures = 0 })
        db.endpoints;
}

pub record FailureReport : Type 0 where
  pub tenant : ℕ
  pub delivery_id : ℕ
  pub endpoint_id : ℕ
  pub response_status : Option ℕ
  pub error : List ℕ
  pub attempts : ℕ
  pub exhausted : Bool
  pub next_attempt_at : Option ℕ

pub record FailureOutcome : Type 0 where
  pub disabled : Bool
  pub consecutive_failures : ℕ

-- What one more delivery given up makes of the endpoint.
unfoldable pub count_failure : ℕ → Endpoint → Endpoint
count_failure now e =
    let failures = suc e.consecutive_failures in
    record e {
      consecutive_failures = failures;
      disabled_at =
          if ltb failures webhook_failure_threshold || is_some e.disabled_at
          then e.disabled_at
          else some now;
    }

-- What is answered, from the endpoint as it was before.
unfoldable pub failure_outcome : Endpoint → FailureOutcome
failure_outcome e =
    let failures = suc e.consecutive_failures in
    record {
      disabled = not (ltb failures webhook_failure_threshold || is_some e.disabled_at);
      consecutive_failures = failures;
    }

unfoldable pub fail_dispatch : FailureReport → Dispatch → Dispatch
fail_dispatch o d = record d {
  status = if o.exhausted then failed else pending;
  attempts = o.attempts;
  response_status = o.response_status;
  last_error = some (take error_max_chars o.error);
  next_attempt_at = if o.exhausted then none else o.next_attempt_at;
}

-- The three statements of one call, on the delivery, the endpoint's counter and its disabling, are
-- one step here: no other call comes between them. `none` where the endpoint is gone and the `update`
-- throws.
unfoldable pub record_webhook_failure : FailureReport → ℕ → Tables → Tables × Option FailureOutcome
record_webhook_failure o now db =
    let db' = record db {
      dispatches = update (is_dispatch o.tenant o.delivery_id) (fail_dispatch o) db.dispatches;
    } in
    if not o.exhausted
    then (db', some (record { disabled = false; consecutive_failures = 0 }))
    else (elim (find? (is_endpoint o.tenant o.endpoint_id) db.endpoints) [
      | none ↦ (db', none)
      | some e ↦ (
        record db' {
          endpoints = update (is_endpoint o.tenant o.endpoint_id) (count_failure now) db.endpoints;
        },
        some (failure_outcome e),
      )
    ])

unfoldable pub replay_webhook_delivery : ℕ → ℕ → ℕ → Tables → Tables × Option Dispatch
replay_webhook_delivery tenant id now db =
    let dispatches =
      update (is_dispatch tenant id)
        (λ d. record d {
          status = pending;
          attempts = 0;
          last_error = none;
          response_status = none;
          delivered_at = none;
          next_attempt_at = some now;
        })
        db.dispatches in
    (record db { dispatches = dispatches }, find? (is_dispatch tenant id) dispatches)

-- `lte` is false of a column that is not set.
abbrev pub is_due : ℕ → Dispatch → Bool
is_due before d =
    is_pending_delivery d.status
    && (elim d.next_attempt_at [ none ↦ false | some at ↦ leb at before ])

abbrev pub due_time : Dispatch → ℕ
due_time d = or_else d.next_attempt_at 0

unfoldable pub insert_by_due : Dispatch → List Dispatch → List Dispatch
insert_by_due d [] = d ∷ []
insert_by_due d (e ∷ rows) =
    let rest = insert_by_due d rows in
    if leb (due_time d) (due_time e) then d ∷ e ∷ rows else e ∷ rest

-- `orderBy: { nextAttemptAt: "asc" }`.
unfoldable pub sort_by_due : List Dispatch → List Dispatch
unfolding insert_by_due
sort_by_due [] = []
sort_by_due (d ∷ rows) = insert_by_due d (sort_by_due rows)

unfoldable pub list_due_webhook_deliveries : ℕ → ℕ → Tables → List Dispatch
unfolding sort_by_due
list_due_webhook_deliveries before limit db =
    take limit (sort_by_due (filter (is_due before) db.dispatches))

unfoldable pub prune_webhook_deliveries : ℕ → Tables → Tables
prune_webhook_deliveries before db = record db {
  dispatches =
      filter (λ d. not (ltb d.created_at before && not (is_pending_delivery d.status)))
        db.dispatches;
}
