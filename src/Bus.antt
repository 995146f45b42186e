-- ===== src/Bus.antt =====
-- packages/queue/src/bus.ts with the durable log of packages/db/src/repository.ts: one run's event
-- log in Postgres, its Redis stream, the publishers that write both, and one subscriber
-- (`RedisRunBus`). A database or Redis call is one step; the steps of several publishers and of the
-- subscriber interleave freely. The stream id of an entry is its position, counted from 1, so `0-0`
-- is 0. Not modelled: trimming (MAXLEN, PEXPIRE) of a stream that a subscriber is still following.
pub mod Chain
pub mod Replay
pub mod Tail
pub mod Delivery
pub mod Races
mod Tests
use self_consistency_answer.Common.{
  ℕ, zero, suc, ◌+◌, ◌≡◌, Bool, true, false, Option, none, some, List, [], ◌∷◌, ◌++◌, String,
  length, filter, ltb, leb, ◌==◌, if◌then◌else◌,
}
use self_consistency_answer.Common.{take, drop}
use self_consistency_answer.Events.{RunEvent, is_ephemeral_event}

-- A row of `RunEvent`. The payload is what `runEventSchema` makes of the stored JSON: `none` is a
-- row that no longer fits the union.
pub record Row : Type 0 where
  pub seq : ℕ
  pub payload : Option RunEvent
  pub created_at : String

-- `RunEventFrame`, less its constant run id.
pub record Frame : Type 0 where
  pub seq : Option ℕ
  pub event : RunEvent
  pub created_at : String

-- An entry of the stream, as `frameFromFields` reads it: `none` does not parse.
abbrev pub Entry : Type 0
Entry = Option Frame

-- Entries that a publisher has made and not yet added to the stream are in flight.
pub record Bus : Type 0 where
  pub event_seq : ℕ
  pub rows : List Row
  pub in_flight : List Entry
  pub stream : List Entry

-- `appendRunEvent`: one transaction takes the next number and inserts the row.
unfoldable pub append_run_event : RunEvent → String → Bus → Bus × Row
append_run_event event now b =
    let row : Row = record { seq = suc b.event_seq; payload = some event; created_at = now } in
    (record b { event_seq = suc b.event_seq; rows = b.rows ++ row ∷ [] }, row)

-- `toFrame`. `stored` says whether the database takes the write: a failed one is downgraded to a
-- frame with no number.
unfoldable pub to_frame : Bool → RunEvent → String → Bus → Bus × Frame
unfolding append_run_event
to_frame stored event now b =
    let bare : Frame = record { seq = none; event = event; created_at = now } in
    let (b', row) = append_run_event event now b in
    let numbered : Frame = record {
      seq = some row.seq;
      event = event;
      created_at = row.created_at;
    } in
    if is_ephemeral_event event then (b, bare) else if stored then (b', numbered) else (b, bare)

-- The first half of `publish`.
unfoldable pub persist : Bool → RunEvent → String → Bus → Bus
unfolding to_frame
persist stored event now b =
    let (b', frame) = to_frame stored event now b in
    record b' { in_flight = b'.in_flight ++ some frame ∷ [] }

-- The second half, XADD, by the publisher of `entry`; `before` and `after` are the entries of others.
unfoldable pub add : List Entry → Entry → List Entry → Bus → Bus
add before entry after b = record b { in_flight = before ++ after; stream = b.stream ++ entry ∷ [] }

-- An entry that this code cannot parse reaches the stream, from a publisher of another version.
unfoldable pub intrude : Bus → Bus
intrude b = record b { stream = b.stream ++ none ∷ [] }

-- The loop of `listRunEvents`, which skips a row that does not parse.
unfoldable pub parse_rows : List Row → List Frame
parse_rows [] = []
parse_rows (row ∷ rows) = elim row.payload [
  | none ↦ parse_rows rows
  | some event ↦
      record { seq = some row.seq; event = event; created_at = row.created_at } ∷ parse_rows rows
]

abbrev pub page_size : ℕ
page_size = 200

-- `listRunEvents` with a limit. The rows stand in the order of their numbers, in which they were
-- inserted. A cursor of zero sets no lower bound.
unfoldable pub list_run_events : ℕ → ℕ → List Row → List Frame
unfolding parse_rows
list_run_events after_seq limit rows =
    parse_rows
      (take limit (if after_seq == 0 then rows else filter (λ row. ltb after_seq row.seq) rows))

pub data Phase : Type 0 where
  joining backfilling following : Phase

pub record Subscriber : Type 0 where
  pub phase : Phase
  pub last_id : ℕ
  pub cursor : ℕ
  pub seen : ℕ
  pub delivered : List Frame

unfoldable pub subscribe : ℕ → Subscriber
subscribe after_seq = record {
  phase = joining;
  last_id = 0;
  cursor = after_seq;
  seen = after_seq;
  delivered = [];
}

-- `#tailId`: the stream's last id is recorded before the log is read.
unfoldable pub join : Bus → Subscriber → Subscriber
join b s = record s { phase = backfilling; last_id = length b.stream }

-- `cursor = record.seq` for each record of a page; the same loop keeps `seen`.
unfoldable pub advance : ℕ → List Frame → ℕ
advance cursor [] = cursor
advance cursor (frame ∷ frames) = elim frame.seq [
  | none ↦ advance cursor frames
  | some seq ↦ advance seq frames
]

-- One round of `backfill`: a page, which is the last one if it is not full.
unfoldable pub backfill_page : Bus → Subscriber → Subscriber
unfolding list_run_events advance
backfill_page b s =
    let page = list_run_events s.cursor page_size b.rows in
    record s {
      phase = if ltb (length page) page_size then following else backfilling;
      cursor = advance s.cursor page;
      seen = advance s.seen page;
      delivered = s.delivered ++ page;
    }

-- What the live tail does with the entries of one read: one that does not parse is passed over.
unfoldable pub deliver : ℕ → List Entry → ℕ × List Frame
deliver seen [] = (seen, [])
deliver seen (none ∷ frames) = deliver seen frames
deliver seen (some frame ∷ frames) = elim frame.seq [
  | none ↦ let (seen', out) = deliver seen frames in (seen', frame ∷ out)
  | some seq ↦
      let skipped = deliver seen frames in
      let (seen', out) = deliver seq frames in
      if leb seq seen then skipped else (seen', frame ∷ out)
]

abbrev pub read_count : ℕ
read_count = 256

-- `#read` (XREAD from `lastId`) and the loop over its entries. An empty read is a heartbeat.
unfoldable pub follow : Bus → Subscriber → Subscriber
unfolding deliver
follow b s =
    let entries = take read_count (drop s.last_id b.stream) in
    let (seen', out) = deliver s.seen entries in
    record s { last_id = s.last_id + length entries; seen = seen'; delivered = s.delivered ++ out }

pub record Sys : Type 0 where
  pub bus : Bus
  pub sub : Subscriber

-- Where `ordered` holds, frames reach the stream in the order in which they were made.
pub data Step (ordered : Bool) : Sys → Sys → Type 0 where
  persists :
      (s : Sys) (stored : Bool) (event : RunEvent) (now : String)
      → Step ordered s (record s { bus = persist stored event now s.bus })
  adds :
      (s : Sys) (before : List Entry) (entry : Entry) (after : List Entry)
      → s.bus.in_flight ≡ before ++ entry ∷ after
      → (ordered ≡ true → before ≡ [])
      → Step ordered s (record s { bus = add before entry after s.bus })
  intrudes : (s : Sys) → Step ordered s (record s { bus = intrude s.bus })
  joins : (s : Sys) → s.sub.phase ≡ joining → Step ordered s (record s { sub = join s.bus s.sub })
  backfills :
      (s : Sys)
      → s.sub.phase ≡ backfilling
      → Step ordered s (record s { sub = backfill_page s.bus s.sub })
  follows :
      (s : Sys) → s.sub.phase ≡ following → Step ordered s (record s { sub = follow s.bus s.sub })

pub data Reach (ordered : Bool) (s : Sys) : Sys → Type 0 where
  here : Reach ordered s s
  next : {t u : Sys} → Reach ordered s t → Step ordered t u → Reach ordered s u
