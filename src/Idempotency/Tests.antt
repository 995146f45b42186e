-- ===== src/Idempotency/Tests.antt =====
-- Runs of the idempotency record on small inputs, and the theorems at inputs that meet their
-- conditions.
use self_consistency_answer.Common.{◌≡◌, refl, true, false, some, none, [], ◌∷◌}
use self_consistency_answer.Idempotency.{
  IdempotencyRecord, IdempotencyStatus, IdempotentResponse, Store, Request, fresh, replay,
  inserting, reading, reclaiming, answers, advance, insert_record, reclaim, claim_idempotency_key,
  complete_idempotency_key, Sys, settle, arrives, advances, Reach, here, next,
}
use self_consistency_answer.Idempotency.Spacing.{at, fresh_times, IsSpaced, fresh_claims-IsSpaced}
use self_consistency_answer.Idempotency.Races.{holding, both, two_proceed}

abbrev empty : Store
empty = at none 1

abbrev ask : Request
ask = record { fingerprint = "f"; now = 1_000 }

abbrev again : Request
again = record { fingerprint = "f"; now = 2_000 }

abbrev tomorrow : Request
tomorrow = record { fingerprint = "f"; now = 90_000_000 }

abbrev created : IdempotentResponse
created = record { status = 201; body = 123 ∷ 125 ∷ [] }

replays_the_body :
    (claim_idempotency_key again
      (complete_idempotency_key created (claim_idempotency_key ask empty).0)).1
    ≡ answers again (replay created)
unfolding claim_idempotency_key complete_idempotency_key
replays_the_body = refl

abbrev start : Sys
start = record { store = empty; claims = []; answered = [] }

-- A request claims the key, and one of the day after takes it over in three statements.
abbrev taken : Sys
taken = record {
  store = insert_record ask empty;
  claims = inserting tomorrow ∷ [];
  answered = (ask, fresh) ∷ [];
}

abbrev row : IdempotencyRecord
row = record {
  id = 1;
  fingerprint = "f";
  status = IdempotencyStatus.in_flight;
  response_status = none;
  response_body = none;
  expires_at = 86_401_000;
}

abbrev taken_over : Sys
taken_over = record {
  store = at (some (record row { expires_at = 176_400_000 })) 2;
  claims = [];
  answered = (tomorrow, fresh) ∷ (ask, fresh) ∷ [];
}

taken-Reach : Reach false start taken
unfolding advance settle insert_record
taken-Reach =
    next
      (next (next here (arrives start ask))
        (advances (record start { claims = inserting ask ∷ [] }) [] (inserting ask) [] refl))
      (arrives (record taken { claims = [] }) tomorrow)

taken_over-Reach : Reach false start taken_over
unfolding advance settle insert_record reclaim
taken_over-Reach =
    next
      (next (next taken-Reach (advances taken [] (inserting tomorrow) [] refl))
        (advances (record taken { claims = reading tomorrow ∷ [] }) [] (reading tomorrow) [] refl))
      (advances (record taken { claims = reclaiming tomorrow row ∷ [] }) []
        (reclaiming tomorrow row) [] refl)

fresh_claims-IsSpaced_example : IsSpaced (fresh_times taken_over.answered)
fresh_claims-IsSpaced_example = fresh_claims-IsSpaced 1 taken_over-Reach

two_proceed_example : Reach true (holding row 2) (both ask again 2)
two_proceed_example = two_proceed row 2 ask again
