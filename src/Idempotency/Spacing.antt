-- ===== src/Idempotency/Spacing.antt =====
-- How often a key can be claimed afresh when claims of many requests interleave.
use self_consistency_answer.Common.{
  ℕ, ◌+◌, ◌≤◌, ◌≡◌, ◌≢◌, refl, sym, ap, subst, ◌⊎◌, inl, inr, false, Option, none, some, List, [],
  ◌∷◌, ◌++◌, arith, All, All-right, Option-cases,
}
use self_consistency_answer.Idempotency.{
  IdempotencyRecord, IdempotentResponse, Store, Request, IdempotencyClaim, fresh, in_flight,
  retention_ms, judge, Claiming, inserting, reading, reclaiming, Progress, waits, answers, reclaim,
  advance, complete_idempotency_key, Sys, settle, Step, arrives, advances, completes, releases,
  sweeps, Reach, here, next,
}

-- The times of the requests that were told to proceed, the latest answer first.
abbrev pub fresh_times : List (Request × IdempotencyClaim) → List ℕ
fresh_times [] = []
fresh_times ((request, fresh) ∷ answered) = request.now ∷ fresh_times answered
fresh_times ((request, _) ∷ answered) = fresh_times answered

-- A retention window or more lies between two neighbours.
abbrev pub IsSpaced : List ℕ → Type 0
IsSpaced [] = Unit {0}
IsSpaced (t ∷ []) = Unit {0}
IsSpaced (t ∷ u ∷ times) = (u + retention_ms ≤ t) × IsSpaced (u ∷ times)

-- A claim that has not found a row yet.
abbrev IsEarly : Claiming → Type 0
IsEarly (inserting request) = Unit {0}
IsEarly _ = ⊥

-- An empty slot was never taken, and a row expires one window after the last claim of it.
abbrev IsHeld : Option IdempotencyRecord → List Claiming → List ℕ → Type 0
IsHeld none claims times = (times ≡ []) × All IsEarly claims
IsHeld (some row) claims times =
    (t : ℕ) × (earlier : List ℕ) × (times ≡ t ∷ earlier) × (row.expires_at ≡ t + retention_ms)

abbrev IsKept : Sys → Type 0
IsKept s = IsHeld s.store.slot s.claims (fresh_times s.answered) × IsSpaced (fresh_times s.answered)

judge-ne-fresh : (request : Request) (row : IdempotencyRecord) → judge request row ≢ fresh
unfolding judge
judge-ne-fresh request row = ground arith

fresh_times-old :
    (request : Request) (claim : IdempotencyClaim) (answered : List (Request × IdempotencyClaim))
    → claim ≢ fresh
    → fresh_times ((request, claim) ∷ answered) ≡ fresh_times answered
fresh_times-old request fresh answered h = absurd (h refl)
fresh_times-old request _ answered h = refl

fresh_times-judge :
    (request : Request) (row : IdempotencyRecord) (answered : List (Request × IdempotencyClaim))
    → fresh_times ((request, judge request row) ∷ answered) ≡ fresh_times answered
fresh_times-judge request row answered =
    fresh_times-old request (judge request row) answered (judge-ne-fresh request row)

reclaim-expired :
    (request : Request) (read row row' : IdempotencyRecord)
    → reclaim request read row ≡ some row'
    → (row.expires_at ≤ request.now) × (row'.expires_at ≡ request.now + retention_ms)
unfolding reclaim
reclaim-expired request read row row' e = ground arith

not-IsEarly :
    (before after : List Claiming) (claiming : Claiming)
    → All IsEarly (before ++ claiming ∷ after)
    → IsEarly claiming
not-IsEarly before after claiming h = (All-right IsEarly before (claiming ∷ after) h).0

abbrev pub at : Option IdempotencyRecord → ℕ → Store
at slot n = record { slot = slot; next_id = n }

advance-reading :
    (request : Request) (row : IdempotencyRecord) (n : ℕ)
    → (advance (reading request) (at (some row) n)
        ≡ (at (some row) n, waits (reclaiming request row)))
      ⊎ (advance (reading request) (at (some row) n)
          ≡ (at (some row) n, answers request (judge request row)))
unfolding advance
advance-reading request row n = ground arith

advance-reclaiming :
    (request : Request) (read row : IdempotencyRecord) (n : ℕ)
    → (advance (reclaiming request read) (at (some row) n)
        ≡ (at (some row) n, answers request in_flight))
      ⊎ ((row' : IdempotencyRecord) × (advance (reclaiming request read) (at (some row) n)
            ≡ (at (some row') n, answers request fresh))
          × (row.expires_at ≤ request.now)
          × (row'.expires_at ≡ request.now + retention_ms))
unfolding advance
advance-reclaiming request read row n = elim (Option-cases (reclaim request read row)) [
  | inl missed ↦ inl (rw (missed, advance) refl)
  | inr (row', found) ↦
      let (expired, renewed) = reclaim-expired request read row row' found in
      inr (row', rw (found, advance) refl, expired, renewed)
]

module _ (before after : List Claiming) (s : Sys) (n : ℕ) where
  abbrev Kept : Store × Progress → Type 0
  Kept outcome = IsKept (settle before after outcome s)

  -- A reclaim is a window or more after the claim before it.
  reclaimed-Kept :
      (request : Request) (row' : IdempotencyRecord) (t : ℕ) (earlier : List ℕ)
      → fresh_times s.answered ≡ t ∷ earlier
      → IsSpaced (fresh_times s.answered)
      → t + retention_ms ≤ request.now
      → row'.expires_at ≡ request.now + retention_ms
      → Kept (at (some row') n, answers request fresh)
  unfolding settle
  reclaimed-Kept request row' t earlier e spaced late renewed =
      ((request.now, fresh_times s.answered, refl, renewed), rw e (late, rw e at spaced))

  advances-IsKept :
      (claiming : Claiming) (slot : Option IdempotencyRecord)
      → IsHeld slot (before ++ claiming ∷ after) (fresh_times s.answered)
      → IsSpaced (fresh_times s.answered)
      → Kept (advance claiming (at slot n))
  unfolding advance settle
  advances-IsKept (inserting request) none (e, early) spaced =
      ((request.now, [], ap (λ ts. request.now ∷ ts) e, refl), rw e tt)
  advances-IsKept (inserting request) (some row) held spaced = (held, spaced)
  advances-IsKept (reading request) none (e, early) spaced =
      absurd (not-IsEarly before after (reading request) early)
  advances-IsKept (reading request) (some row) held spaced = elim (advance-reading request row n) [
    | inl e ↦ subst Kept (sym e) (held, spaced)
    | inr e ↦ subst Kept (sym e) (rw (fresh_times-judge request row s.answered) (held, spaced))
  ]
  advances-IsKept (reclaiming request read) none (e, early) spaced =
      absurd (not-IsEarly before after (reclaiming request read) early)
  advances-IsKept (reclaiming request read) (some row) (t, earlier, e, x) spaced =
      elim (advance-reclaiming request read row n) [
        | inl missed ↦ subst Kept (sym missed) ((t, earlier, e, x), spaced)
        | inr (row', found, expired, renewed) ↦
            subst Kept (sym found)
              (reclaimed-Kept request row' t earlier e spaced (omega arith) renewed)
      ]

completes-IsHeld :
    (response : IdempotentResponse) (slot : Option IdempotencyRecord) (n : ℕ)
    (claims : List Claiming) (times : List ℕ)
    → IsHeld slot claims times
    → IsHeld (complete_idempotency_key response (at slot n)).slot claims times
unfolding complete_idempotency_key
completes-IsHeld response none n claims times h = h
completes-IsHeld response (some row) n claims times h = h

arrives-IsHeld :
    (slot : Option IdempotencyRecord) (request : Request) (claims : List Claiming) (times : List ℕ)
    → IsHeld slot claims times
    → IsHeld slot (inserting request ∷ claims) times
arrives-IsHeld none request claims times (e, early) = (e, (tt, early))
arrives-IsHeld (some row) request claims times h = h

Step-IsKept : {s t : Sys} → Step false s t → IsKept s → IsKept t
Step-IsKept (arrives s request) (held, spaced) =
    (arrives-IsHeld s.store.slot request s.claims _ held, spaced)
Step-IsKept (advances s before claiming after e) (held, spaced) =
    advances-IsKept before after s s.store.next_id claiming s.store.slot
      (subst (λ cs. IsHeld s.store.slot cs (fresh_times s.answered)) e held) spaced
Step-IsKept (completes s response) (held, spaced) =
    (completes-IsHeld response s.store.slot s.store.next_id s.claims _ held, spaced)
Step-IsKept (releases s e) h = cc
Step-IsKept (sweeps s now e) h = cc

Reach-IsKept : {s t : Sys} → IsKept s → Reach false s t → IsKept t
Reach-IsKept h here = h
Reach-IsKept h (next r st) = Step-IsKept st (Reach-IsKept h r)

-- While no record is released or swept, however the claims of any number of requests for a key
-- interleave, two requests that are told to proceed lie at least a retention window apart: within a
-- window a key is claimed afresh once at most.
pub fresh_claims-IsSpaced :
    (n : ℕ) {t : Sys}
    → Reach false (record { store = at none n; claims = []; answered = [] }) t
    → IsSpaced (fresh_times t.answered)
fresh_claims-IsSpaced n r = (Reach-IsKept ((refl, tt), tt) r).1
