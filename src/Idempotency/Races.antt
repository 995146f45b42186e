-- ===== src/Idempotency/Races.antt =====
-- A claim that finds its row gone between its insert and its read.
use self_consistency_answer.Common.{ℕ, refl, true, none, some, [], ◌∷◌}
use self_consistency_answer.Idempotency.{
  IdempotencyRecord, IdempotencyStatus, Request, fresh, inserting, reading, advance, insert_record,
  release_idempotency_key, Sys, settle, arrives, advances, releases, Reach, here, next,
}
use self_consistency_answer.Idempotency.Spacing.{at}

-- A row whose request is still at work.
abbrev pub held : IdempotencyRecord → IdempotencyRecord
held row = record row { status = IdempotencyStatus.in_flight }

abbrev pub holding : IdempotencyRecord → ℕ → Sys
holding row n = record { store = at (some (held row)) n; claims = []; answered = [] }

-- The row and the answers after the race: `b` holds the row, and both may proceed.
abbrev pub both : Request → Request → ℕ → Sys
both a b n = record {
  store = insert_record b (at none n);
  claims = [];
  answered = (b, fresh) ∷ (a, fresh) ∷ [];
}

-- A request holds the key. A second one fails to insert, the first gives the key back, and the
-- second finds no row: it is told to proceed, and leaves no row behind. Then a third inserts its row
-- and is told to proceed too, at whatever times the two came and whatever they ask for.
pub two_proceed :
    (row : IdempotencyRecord) (n : ℕ) (a b : Request) → Reach true (holding row n) (both a b n)
unfolding advance settle release_idempotency_key insert_record
two_proceed row n a b =
    let s0 = holding row n in
    let s1 = record s0 { claims = inserting a ∷ [] } in
    let s2 = record s0 { claims = reading a ∷ [] } in
    let s3 = record s2 { store = at none n } in
    let s4 = record s3 { claims = []; answered = (a, fresh) ∷ [] } in
    let s5 = record s4 { claims = inserting b ∷ [] } in
    next
      (next
        (next
          (next (next (next here (arrives s0 a)) (advances s1 [] (inserting a) [] refl))
            (releases s2 refl))
          (advances s3 [] (reading a) [] refl))
        (arrives s4 b))
      (advances s5 [] (inserting b) [] refl)
