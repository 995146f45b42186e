-- ===== src/Bus/Tests.antt =====
-- Runs of the bus on small inputs, and the theorems at inputs that meet their conditions.
use self_consistency_answer.Common.{
  ◌≡◌, ◌≤◌, refl, Bool, true, false, some, none, List, [], ◌∷◌, arith, All,
}
use self_consistency_answer.Events.{RunEvent, run_failed, run_completed, is_ephemeral_event}
use self_consistency_answer.Bus.{
  Row, Frame, Bus, persist, add, following, subscribe, join, backfill_page, follow, Sys, persists,
  intrude, intrudes, adds, joins, backfills, follows, Reach, here, next,
}
use self_consistency_answer.Bus.Chain.{done, Chain, Rises}
use self_consistency_answer.Bus.Replay.{IsReadable}
use self_consistency_answer.Bus.Delivery.{IsSound, delivered-Chain, caught_up-Chain}
use self_consistency_answer.Bus.Races.{lost, delivered-Rises, reorder_loses, asked}

abbrev empty_bus : Bus
empty_bus = record { event_seq = 0; rows = []; in_flight = []; stream = [] }

empty_bus-IsSound : IsSound empty_bus
empty_bus-IsSound = record { rows = done refl; readable = tt; flow = done refl }

abbrev fresh : Sys
fresh = record { bus = empty_bus; sub = subscribe 0 }

abbrev failure : RunEvent
failure = run_failed "r1" "no answer"

-- One event is persisted before the subscriber joins and reaches the stream after that, so both the
-- log and the stream hold it.
abbrev recorded : Sys
recorded = record fresh { bus = persist true failure "t0" empty_bus }

abbrev joined : Sys
joined = record recorded { sub = join recorded.bus fresh.sub }

abbrev replayed : Sys
replayed = record joined { sub = backfill_page joined.bus joined.sub }

abbrev frame : Frame
frame = record { seq = some 1; event = failure; created_at = "t0" }

-- An entry that does not parse is in the stream before the event.
abbrev garbled : Sys
garbled = record replayed { bus = intrude replayed.bus }

abbrev streamed : Sys
streamed = record garbled { bus = add [] (some frame) [] garbled.bus }

abbrev read : Sys
read = record streamed { sub = follow streamed.bus streamed.sub }

bus : Unit {0}
unfolding persist add intrude subscribe join backfill_page follow is_ephemeral_event
bus = tt

read_once : read.sub.delivered ≡ frame ∷ []
unfolding bus
read_once = refl

read-Reach : (ordered : Bool) → Reach ordered fresh read
unfolding bus
read-Reach ordered =
    next
      (next
        (next
          (next (next (next here (persists fresh true failure "t0")) (joins recorded refl))
            (backfills joined refl))
          (intrudes replayed))
        (adds garbled [] (some frame) [] refl (λ e. refl)))
      (follows streamed refl)

delivered-Chain_example :
    Chain 0 read.sub.delivered read.sub.seen × (read.sub.seen ≤ read.bus.event_seq)
delivered-Chain_example =
    delivered-Chain 0 empty_bus empty_bus-IsSound (omega arith) (read-Reach true)

caught_up-Chain_example : Chain 0 read.sub.delivered read.bus.event_seq
unfolding bus
caught_up-Chain_example =
    caught_up-Chain 0 empty_bus empty_bus-IsSound (omega arith) (read-Reach true) refl refl refl

delivered-Rises_example : Rises 0 read.sub.delivered read.sub.seen
delivered-Rises_example = delivered-Rises 0 empty_bus (done refl) (read-Reach false)

-- Two workers have persisted an event each, and a subscriber waits at the end of the stream.
abbrev first : Frame
first = record { seq = some 1; event = failure; created_at = "t1" }

abbrev second : Frame
second = record { seq = some 2; event = run_completed "r1" 5; created_at = "t2" }

abbrev racing : Sys
racing = record {
  bus = record { event_seq = 2; rows = []; in_flight = some first ∷ some second ∷ []; stream = [] };
  sub = record { phase = following; last_id = 0; cursor = 0; seen = 0; delivered = [] };
}

reorder_loses_example : (lost racing first second).sub.delivered ≡ second ∷ []
reorder_loses_example = (reorder_loses racing first second refl refl refl refl refl).3

-- A page whose first row has an old event type: the second row is still given, and the backfill ends.
abbrev old_rows : List Row
old_rows =
    record { seq = 1; payload = none; created_at = "t1" }
    ∷ record { seq = 2; payload = some failure; created_at = "t2" }
    ∷ []

abbrev stale : Bus
stale = record empty_bus { event_seq = 2; rows = old_rows }

unreadable : ¬ All IsReadable (asked 0 old_rows)
unreadable ((event, e), rest) = cc
