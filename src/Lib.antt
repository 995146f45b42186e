-- ===== src/Lib.antt =====
-- A verification library for the self-consistency answer engine: a prompt fans out to several models
-- on workers, an evaluator synthesises their answers, and clients follow the run as a stream of
-- events. Paths are from the repository's root.
--
-- Parts and how they interact. An API request (packages/server) passes its rate limit and its quota,
-- claims its idempotency key and creates a run (packages/db); workers (packages/worker) publish the
-- run's events on the bus (packages/queue), which writes them to the durable log and to a Redis
-- stream; a client decodes the server's event stream (packages/shared) and folds it into a view of
-- the run (packages/web).
--
--   Common and its children: library names, Boolean tests, lists, association lists.
--   Events: packages/shared/src/{schemas,models,events}.ts, the vocabulary of runs.
--   Bus: packages/queue/src/bus.ts (RedisRunBus) with appendRunEvent and listRunEvents of
--     packages/db/src/repository.ts. Each database or Redis call is a step; the steps of publishers
--     and of the subscriber interleave. Bus/Chain, Bus/Replay and Bus/Tail have the lemmas on
--     numbering, on the paged replay and on the live tail; Bus/Delivery and Bus/Races the theorems.
--   RunStream: packages/web/src/lib/run-stream.ts, the client's reducer, clause for clause.
--   Sse: packages/shared/src/sse.ts, framing and decoding over lists of UTF-16 code units. Zod's
--     parsers are parameters. The framing loop takes the length of its buffer as fuel, and each round
--     shortens the buffer by two units at least.
--   Idempotency: packages/db/src/idempotency.ts and packages/shared/src/idempotency.ts. A claim is a
--     small state machine whose steps are its SQL statements, so that claims of several requests
--     interleave; `claim_idempotency_key` runs one alone.
--   RateLimit: packages/queue/src/ratelimit.ts (MemoryRateLimiter, and RedisRateLimiter's script over
--     a parameter for sorted sets) and toRateLimitState of packages/shared/src/ratelimit.ts, the hits
--     of one key.
--   Plans, Quota: packages/shared/src/plans.ts and quota.ts. Number formatting and the UTC calendar
--     are parameters (Host).
--   Bulkhead, Breaker: packages/worker/src/resilience.ts, the semaphore as a relation over calls, and
--     the circuit breaker (MemoryBreakerStore) with the classification of failures.
--   Runs: the row of a run in packages/db/src/repository.ts (setRunStatus, completeRun, failRun,
--     markRunQueued, cancelRun, listOverdueRuns) and checkStop of packages/worker/src/context.ts.
--   Panel: packages/worker/src/candidate.ts (the decisions before and after a model call),
--     cancelPendingCandidates, and normaliseReviews of packages/worker/src/synthesis.ts.
--   Webhooks: packages/db/src/webhooks.ts, the tables, and packages/worker/src/webhooks.ts
--     (Delivery: processWebhookJob, emitRunWebhook, sweepWebhooksOnce), with BullMQ's retries as the
--     recursion run_job on the attempts a job has left; what else is done to the tables before each
--     attempt is an argument.
--   Billing: packages/shared/src/billing.ts (resolveAccess), Table: packages/db/src/billing.ts, and
--     Events: packages/server/src/subscriptions.ts (applyBillingEvent), which resolves the tenant
--     through the identity tables, a parameter (Host).
--   KillSwitch: engageKillSwitch and releaseKillSwitch of packages/db/src/billing.ts, as a relation
--     of the two statements of several replicas; Halting: installHalted of packages/worker/src/context.ts.
--   Signature: packages/shared/src/webhook.ts (signWebhookPayload, verifyWebhookSignature and the
--     comparison in constant time), over the host's cryptography and encodings.
--   Cli: engineReducer of packages/cli/src/state.ts; Agreement compares it with RunStream.
--   V1: idempotent() of packages/server/src/v1/idempotency.ts over Idempotency, for requests that
--     come one after the other.
--   Tenancy: packages/db/src/tenancy.ts (ensureMembership, deleteClerkOrganization, deleteClerkUser,
--     removeClerkMembership, resolveMembership, getMembership, tenantMatches), and Mirror: the upserts
--     that mirror Clerk (syncClerkOrganization with its slugs, syncClerkUser, syncClerkMembership).
--   Auth: packages/shared/src/auth.ts, the scopes, the permissions and the decision can().
--   ApiKeys: packages/shared/src/apikey.ts and the keys of packages/db/src/auth.ts, over the key rows of
--     Tenancy. The digest and the random texts are parameters.
--   Access: packages/server/src/auth/ (authenticate, requirePermission, authorizeResource), and Keys:
--     packages/server/src/keys.ts, over Auth, ApiKeys, Tenancy, Plans and Billing. Belonging, Leaving,
--     Minting, Escalation and Deletion have the theorems.
--   Pricing: packages/shared/src/pricing.ts and estimate.ts. Rounded quotients are taken as exact.
--
-- Numbers are natural numbers; times are milliseconds of the epoch, or opaque texts where the code
-- only carries them. Subtractions that can pass zero are written so that they cannot.
--
-- Not modelled: what calls the network, the clock, randomness, a model or a template only (routes,
-- screens, providers, BullMQ and Redis connections), what Clerk makes of a request, the audit log,
-- sharing, search and feedback, the budget of the install, and the trimming of a Redis stream that is still being followed.
pub mod Common
pub mod Events
pub mod Bus
pub mod RunStream
pub mod Sse
pub mod Idempotency
pub mod RateLimit
pub mod Plans
pub mod Quota
pub mod Bulkhead
pub mod Breaker
pub mod Runs
pub mod Panel
pub mod Webhooks
pub mod Billing
pub mod KillSwitch
pub mod Signature
pub mod Cli
pub mod V1
pub mod Tenancy
pub mod Auth
pub mod ApiKeys
pub mod Access
pub mod Pricing
