-- ===== src/Webhooks/Claims.antt =====
-- A delivery that an attempt can claim, and what recording a failure leaves of the tables.
use self_consistency_answer.Common.{
  ℕ, ◌≡◌, refl, inl, inr, Bool, true, false, none, some, List, [], ◌∷◌, arith, find?, is_some, ◌==◌,
  Bool-cases,
}
use self_consistency_answer.Webhooks.{
  Endpoint, Dispatch, Tables, PendingWebhookDelivery, FailureReport, is_endpoint, is_dispatch,
  update, claim_webhook_dispatch, record_webhook_failure, FailureOutcome, failure_outcome,
  fail_dispatch,
}

module _ {A : Type 0} where
  find-holds : (p : A → Bool) (xs : List A) (x : A) → find? p xs ≡ some x → p x ≡ true
  find-holds p [] x h = cc
  find-holds p (y ∷ xs) x h = elim (Bool-cases (p y)) [
    | inl here ↦ let same : some y ≡ some x = rw here at h in ground arith
    | inr later ↦ find-holds p xs x (rw later at h)
  ]

  pub find-update_same :
      (p : A → Bool) (f : A → A)
      → ((x : A) → p (f x) ≡ p x)
      → (xs : List A) (x : A) → find? p xs ≡ some x
      → find? p (update p f xs) ≡ some (f x)
  find-update_same p f keeps [] x h = cc
  find-update_same p f keeps (y ∷ xs) x h =
      let rest = find-update_same p f keeps xs x in ground (arith, h, keeps y, rest)

-- The endpoint of a delivery that belongs to the same tenant, and is in rotation.
pub record IsClaimable (tenant id : ℕ) (db : Tables) : Type 0 where
  pub row : Dispatch
  pub endpoint : Endpoint
  pub found : find? (is_dispatch tenant id) db.dispatches ≡ some row
  pub addressed : find? (λ e. e.id == row.endpoint_id) db.endpoints ≡ some endpoint
  pub owned : find? (is_endpoint tenant row.endpoint_id) db.endpoints ≡ some endpoint
  pub in_rotation : endpoint.disabled_at ≡ none

abbrev pub delivery_of : Dispatch → Endpoint → PendingWebhookDelivery
delivery_of d e = record {
  id = d.id;
  endpoint_id = d.endpoint_id;
  event_id = d.event_id;
  payload = d.payload;
  url = e.url;
  secret = e.secret;
  endpoint_disabled = is_some e.disabled_at;
}

pub claim_of :
    {tenant id : ℕ} {db : Tables} (c : IsClaimable tenant id db)
    → claim_webhook_dispatch tenant id db ≡ some (delivery_of c.row c.endpoint)
unfolding claim_webhook_dispatch
claim_of c = rw (claim_webhook_dispatch, c.found, c.addressed) refl

pub same_id : {tenant id : ℕ} {db : Tables} (c : IsClaimable tenant id db) → c.row.id ≡ id
same_id {tenant = tenant} {id = id} {db = db} c =
    let holds = find-holds (is_dispatch tenant id) db.dispatches c.row c.found in ground arith

pub keeps_key :
    (o : FailureReport) (d : Dispatch)
    → is_dispatch o.tenant o.delivery_id (fail_dispatch o d) ≡ is_dispatch o.tenant o.delivery_id d
unfolding fail_dispatch
keeps_key o d = refl

pub failure-dispatches :
    (o : FailureReport) (now : ℕ) (db : Tables) (e : Endpoint)
    → find? (is_endpoint o.tenant o.endpoint_id) db.endpoints ≡ some e
    → ((record_webhook_failure o now db).0.dispatches
        ≡ update (is_dispatch o.tenant o.delivery_id) (fail_dispatch o) db.dispatches)
      × ((outcome : FailureOutcome) × ((record_webhook_failure o now db).1 ≡ some outcome))
unfolding record_webhook_failure
failure-dispatches o now db e owned = elim (Bool-cases o.exhausted) [
  | inl last ↦ simp (last, owned) (refl, (failure_outcome e, refl))
  | inr more ↦ simp more (refl, (record { disabled = false; consecutive_failures = 0 }, refl))
]

pub failure-endpoints :
    (o : FailureReport) (now : ℕ) (db : Tables)
    → o.exhausted ≡ false
    → (record_webhook_failure o now db).0.endpoints ≡ db.endpoints
unfolding record_webhook_failure
failure-endpoints o now db more = simp more refl

-- The delivery and its endpoint, of the same tenant, are there; the endpoint may be out of rotation.
pub record IsAddressed (tenant id : ℕ) (db : Tables) : Type 0 where
  pub row : Dispatch
  pub endpoint : Endpoint
  pub found : find? (is_dispatch tenant id) db.dispatches ≡ some row
  pub addressed : find? (λ e. e.id == row.endpoint_id) db.endpoints ≡ some endpoint
  pub owned : find? (is_endpoint tenant row.endpoint_id) db.endpoints ≡ some endpoint

pub claimable :
    {tenant id : ℕ} {db : Tables} (a : IsAddressed tenant id db)
    → a.endpoint.disabled_at ≡ none
    → IsClaimable tenant id db
claimable a in_rotation = record {
  row = a.row;
  endpoint = a.endpoint;
  found = a.found;
  addressed = a.addressed;
  owned = a.owned;
  in_rotation = in_rotation;
}

pub claimed-IsAddressed :
    {tenant id : ℕ} {db : Tables} → IsClaimable tenant id db → IsAddressed tenant id db
claimed-IsAddressed c = record {
  row = c.row;
  endpoint = c.endpoint;
  found = c.found;
  addressed = c.addressed;
  owned = c.owned;
}
