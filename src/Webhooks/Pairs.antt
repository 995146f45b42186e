-- ===== src/Webhooks/Pairs.antt =====
-- An event reaches an endpoint's deliveries once.
use self_consistency_answer.Common.{
  ℕ, ◌≡◌, refl, ◌∙◌, inl, inr, Bool, true, false, ◌&&◌, String, List, [], ◌∷◌, arith, filter, any,
  str_eq, eq_refl, ◌==◌, Bool-cases,
}
use self_consistency_answer.Webhooks.{
  Endpoint, Dispatch, Tables, WebhookEvent, is_subscribed, is_pair, create_dispatch,
  create_dispatches, dispatch_webhook_event,
}

-- No two deliveries are of one event to one endpoint.
abbrev pub IsUnique : List Dispatch → Type 0
IsUnique [] = Unit
IsUnique (d ∷ rows) = (any (is_pair d.endpoint_id d.event_id) rows ≡ false) × IsUnique rows

create_dispatch-IsUnique :
    (tenant : ℕ) (event : WebhookEvent) (now : ℕ) (e : Endpoint) (db : Tables) (created : List ℕ)
    → IsUnique db.dispatches
    → IsUnique (create_dispatch tenant event now e (db, created)).0.dispatches
unfolding create_dispatch
create_dispatch-IsUnique tenant event now e db created unique =
    elim (Bool-cases (any (is_pair e.id event.id) db.dispatches)) [
      | inl taken ↦ rw taken unique
      | inr free ↦ rw free (free, unique)
    ]

create_dispatches-IsUnique :
    (tenant : ℕ) (event : WebhookEvent) (now : ℕ) (endpoints : List Endpoint)
    (result : Tables × List ℕ)
    → IsUnique result.0.dispatches
    → IsUnique (create_dispatches tenant event now endpoints result).0.dispatches
unfolding create_dispatches
create_dispatches-IsUnique tenant event now [] result unique = unique
create_dispatches-IsUnique tenant event now (e ∷ endpoints) (db, created) unique =
    create_dispatches-IsUnique tenant event now endpoints
      (create_dispatch tenant event now e (db, created))
      (create_dispatch-IsUnique tenant event now e db created unique)

pub dispatch-IsUnique :
    (tenant : ℕ) (event : WebhookEvent) (now : ℕ) (db : Tables)
    → IsUnique db.dispatches
    → IsUnique (dispatch_webhook_event tenant event now db).0.dispatches
unfolding dispatch_webhook_event
dispatch-IsUnique tenant event now db unique =
    create_dispatches-IsUnique tenant event now (filter (is_subscribed tenant event) db.endpoints)
      (db, []) unique

-- Whether each of some endpoints has a delivery of the event.
abbrev pub all_have : String → List Endpoint → Tables → Bool
all_have event_id [] db = true
all_have event_id (e ∷ endpoints) db =
    any (is_pair e.id event_id) db.dispatches && all_have event_id endpoints db

is_pair_self : (id : ℕ) (event_id : String) → (id == id && str_eq event_id event_id) ≡ true
is_pair_self id event_id = ground (arith, eq_refl event_id)

-- The row of an endpoint is there once it is created, and stays.
create_dispatch_has :
    (tenant : ℕ) (event : WebhookEvent) (now : ℕ) (e : Endpoint) (result : Tables × List ℕ)
    → any (is_pair e.id event.id) (create_dispatch tenant event now e result).0.dispatches ≡ true
unfolding create_dispatch
create_dispatch_has tenant event now e (db, created) =
    elim (Bool-cases (any (is_pair e.id event.id) db.dispatches)) [
      | inl taken ↦ rw taken taken
      | inr free ↦ rw (free, is_pair_self e.id event.id) refl
    ]

create_dispatch_keeps :
    (tenant : ℕ) (event : WebhookEvent) (now : ℕ) (e other : Endpoint) (result : Tables × List ℕ)
    → any (is_pair other.id event.id) result.0.dispatches ≡ true
    → any (is_pair other.id event.id) (create_dispatch tenant event now e result).0.dispatches
      ≡ true
unfolding create_dispatch
create_dispatch_keeps tenant event now e other (db, created) has = ground arith

create_dispatches_keep :
    (tenant : ℕ) (event : WebhookEvent) (now : ℕ) (endpoints : List Endpoint) (other : Endpoint)
    (result : Tables × List ℕ)
    → any (is_pair other.id event.id) result.0.dispatches ≡ true
    → any
        (is_pair other.id event.id)
        (create_dispatches tenant event now endpoints result).0.dispatches
      ≡ true
unfolding create_dispatches
create_dispatches_keep tenant event now [] other result has = has
create_dispatches_keep tenant event now (e ∷ endpoints) other result has =
    create_dispatches_keep tenant event now endpoints other
      (create_dispatch tenant event now e result)
      (create_dispatch_keeps tenant event now e other result has)

create_dispatches_cover :
    (tenant : ℕ) (event : WebhookEvent) (now : ℕ) (endpoints : List Endpoint)
    (result : Tables × List ℕ)
    → all_have event.id endpoints (create_dispatches tenant event now endpoints result).0 ≡ true
unfolding create_dispatches
create_dispatches_cover tenant event now [] result = refl
create_dispatches_cover tenant event now (e ∷ endpoints) result =
    rw
      (create_dispatches_keep tenant event now endpoints e
        (create_dispatch tenant event now e result) (create_dispatch_has tenant event now e result))
      (create_dispatches_cover tenant event now endpoints
        (create_dispatch tenant event now e result))

create_dispatches_covered :
    (tenant : ℕ) (event : WebhookEvent) (now : ℕ) (endpoints : List Endpoint)
    (result : Tables × List ℕ)
    → all_have event.id endpoints result.0 ≡ true
    → create_dispatches tenant event now endpoints result ≡ result
unfolding create_dispatches create_dispatch
create_dispatches_covered tenant event now [] result covered = refl
create_dispatches_covered tenant event now (e ∷ endpoints) (db, created) covered =
    let has : any (is_pair e.id event.id) db.dispatches ≡ true = ground arith in
    let rest : all_have event.id endpoints db ≡ true = ground arith in
    rw has (create_dispatches_covered tenant event now endpoints (db, created) rest)

create_dispatch-endpoints :
    (tenant : ℕ) (event : WebhookEvent) (now : ℕ) (e : Endpoint) (result : Tables × List ℕ)
    → (create_dispatch tenant event now e result).0.endpoints ≡ result.0.endpoints
unfolding create_dispatch
create_dispatch-endpoints tenant event now e (db, created) = ground arith

create_dispatches-endpoints :
    (tenant : ℕ) (event : WebhookEvent) (now : ℕ) (endpoints : List Endpoint)
    (result : Tables × List ℕ)
    → (create_dispatches tenant event now endpoints result).0.endpoints ≡ result.0.endpoints
unfolding create_dispatches
create_dispatches-endpoints tenant event now [] result = refl
create_dispatches-endpoints tenant event now (e ∷ endpoints) result =
    create_dispatches-endpoints tenant event now endpoints
      (create_dispatch tenant event now e result)
    ∙ create_dispatch-endpoints tenant event now e result

pub dispatch-endpoints :
    (tenant : ℕ) (event : WebhookEvent) (now : ℕ) (db : Tables)
    → (dispatch_webhook_event tenant event now db).0.endpoints ≡ db.endpoints
unfolding dispatch_webhook_event
dispatch-endpoints tenant event now db =
    create_dispatches-endpoints tenant event now (filter (is_subscribed tenant event) db.endpoints)
      (db, [])

-- After an event is dispatched, every endpoint of the tenant that is in rotation and subscribed to
-- it has a delivery of it, and a second dispatch of the event, at any time, creates nothing and
-- changes nothing. If no two deliveries were of one event to one endpoint, none are afterwards.
pub dispatch_twice :
    (tenant : ℕ) (event : WebhookEvent) (now later : ℕ) (db : Tables)
    → IsUnique db.dispatches
    → let (db', created) = dispatch_webhook_event tenant event now db in
      (all_have event.id (filter (is_subscribed tenant event) db.endpoints) db' ≡ true)
      × (dispatch_webhook_event tenant event later db' ≡ (db', []))
      × IsUnique db'.dispatches
unfolding dispatch_webhook_event
dispatch_twice tenant event now later db unique =
    let subscribed = filter (is_subscribed tenant event) db.endpoints in
    let cover = create_dispatches_cover tenant event now subscribed (db, []) in
    (
      cover,
      rw (create_dispatches-endpoints tenant event now subscribed (db, [])) (
          create_dispatches_covered tenant event later subscribed
            ((create_dispatches tenant event now subscribed (db, [])).0, []) cover),
      dispatch-IsUnique tenant event now db unique,
    )
