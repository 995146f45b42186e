-- ===== src/Bus/Races.antt =====
-- What holds however the steps of several publishers interleave, and what is lost when two of them
-- reach the stream in the other order.
use native.Mathlib.Nat.{le_refl, lt_of_lt_of_le}
use self_consistency_answer.Common.{
  ℕ, suc, ◌+◌, ◌≤◌, ◌<◌, ◌≡◌, refl, sym, ap, subst, ◌∙◌, ◌⊎◌, inl, inr, Bool, false, some, String,
  List, [], ◌∷◌, ◌++◌, append-nil, append_assoc, arith, length, length-append, take, drop,
  drop-append, drop-length, All, Bool-cases, Option-cases, if◌then◌else◌, length-take_le, lt→ltb,
  ltb, ◌==◌, filter,
}
use self_consistency_answer.Events.{RunEvent, is_ephemeral_event}
use self_consistency_answer.Bus.{
  Row, Frame, Entry, Bus, persist, add, intrude, intrudes, following, Subscriber, subscribe, join,
  backfill_page, follow, deliver, advance, page_size, read_count, Sys, Step, persists, adds, joins,
  backfills, follows, list_run_events, parse_rows, Reach, here, next,
}
use self_consistency_answer.Bus.Chain.{Trail, done, numbered, Trail-append, row_seq, Rises}
use self_consistency_answer.Bus.Replay.{list_run_events-Rises, IsReadable}
use self_consistency_answer.Bus.Tail.{deliver-Rises}

-- The numbers of the log rise; nothing is asked of payloads, the stream or the frames in flight.
pub record IsRising (c : ℕ) (s : Sys) : Type 0 where
  pub rows : Trail row_seq ◌<◌ 0 s.bus.rows s.bus.event_seq
  pub given : Rises c s.sub.delivered s.sub.seen
  pub cursor : (s.sub.phase ≡ following) ⊎ (s.sub.cursor ≡ s.sub.seen)

persist-Rises :
    (stored : Bool) (event : RunEvent) (now : String) (b : Bus)
    → Trail row_seq ◌<◌ 0 b.rows b.event_seq
    → Trail row_seq ◌<◌ 0 (persist stored event now b).rows (persist stored event now b).event_seq
unfolding persist
persist-Rises stored event now b h = elim (Bool-cases (is_ephemeral_event event)) [
  | inl e ↦ rw (e, persist) h
  | inr e ↦ elim (Bool-cases stored) [
    | inl k ↦ rw (e, k, persist) (Trail-append h (numbered refl (omega arith) (done refl)))
    | inr k ↦ rw (e, k, persist) h
  ]
]

Step-IsRising : {c : ℕ} {s t : Sys} → Step false s t → IsRising c s → IsRising c t
unfolding add intrude join backfill_page follow
Step-IsRising (persists s stored event now) h = record {
  rows = persist-Rises stored event now s.bus h.rows;
  given = h.given;
  cursor = h.cursor;
}
Step-IsRising (adds s before frame after e first) h = record {
  rows = h.rows;
  given = h.given;
  cursor = h.cursor;
}
Step-IsRising (intrudes s) h = record { rows = h.rows; given = h.given; cursor = h.cursor }
Step-IsRising (joins s e) h = record {
  rows = h.rows;
  given = h.given;
  cursor = ground (arith, h.cursor);
}
Step-IsRising (backfills s e) h =
    let same : s.sub.cursor ≡ s.sub.seen = ground (arith, h.cursor) in
    let rows = list_run_events s.sub.cursor page_size s.bus.rows in
    let page = list_run_events-Rises s.sub.cursor page_size s.bus.rows h.rows in
    record {
      rows = h.rows;
      given = Trail-append h.given (subst (λ k. Rises k rows (advance k rows)) same page);
      cursor = inr (ap (λ k. advance k rows) same);
    }
Step-IsRising (follows s e) h = record {
  rows = h.rows;
  given =
      Trail-append h.given
        (deliver-Rises s.sub.seen (take read_count (drop s.sub.last_id s.bus.stream)));
  cursor = inl e;
}

Reach-IsRising : {c : ℕ} {s t : Sys} → IsRising c s → Reach false s t → IsRising c t
Reach-IsRising h here = h
Reach-IsRising h (next r st) = Step-IsRising st (Reach-IsRising h r)

-- However publishers and subscriber interleave, and whatever cursor a client sends: the numbers
-- that a subscriber is given rise strictly above its cursor, so none is given twice.
pub delivered-Rises :
    (c : ℕ) (b : Bus) {t : Sys}
    → Trail row_seq ◌<◌ 0 b.rows b.event_seq
    → Reach false (record { bus = b; sub = subscribe c }) t
    → Rises c t.sub.delivered t.sub.seen
unfolding subscribe
delivered-Rises c b h r =
    (Reach-IsRising (record { rows = h; given = done refl; cursor = inr refl }) r).given

-- What a subscriber that follows the stream has been given since an earlier moment.
pub record Continues (s t : Sys) : Type 0 where
  pub follows_on : t.sub.phase ≡ following
  pub more : List Frame
  pub appended : t.sub.delivered ≡ s.sub.delivered ++ more
  pub rising : Rises s.sub.seen more t.sub.seen

Step-Continues : {s t u : Sys} → Continues s t → Step false t u → Continues s u
unfolding follow
Step-Continues c (persists t stored event now) = record {
  follows_on = c.follows_on;
  more = c.more;
  appended = c.appended;
  rising = c.rising;
}
Step-Continues c (adds t before frame after e first) = record {
  follows_on = c.follows_on;
  more = c.more;
  appended = c.appended;
  rising = c.rising;
}
Step-Continues c (intrudes t) = record {
  follows_on = c.follows_on;
  more = c.more;
  appended = c.appended;
  rising = c.rising;
}
Step-Continues c (joins t e) = let f = c.follows_on in cc
Step-Continues c (backfills t e) = let f = c.follows_on in cc
Step-Continues {s} c (follows t e) =
    let entries = take read_count (drop t.sub.last_id t.bus.stream) in
    record {
      follows_on = e;
      more = c.more ++ (deliver t.sub.seen entries).1;
      appended =
          ap (λ xs. xs ++ (deliver t.sub.seen entries).1) c.appended
          ∙ append_assoc s.sub.delivered c.more (deliver t.sub.seen entries).1;
      rising = Trail-append c.rising (deliver-Rises t.sub.seen entries);
    }

-- From any moment at which a subscriber follows the stream, all that it is given later comes after
-- what it was given before, with numbers strictly above those it has seen: a number that it has
-- passed over is never given to it, whatever the publishers and the subscriber do.
pub Reach-Continues : {s t : Sys} → s.sub.phase ≡ following → Reach false s t → Continues s t
Reach-Continues {s} e here = record {
  follows_on = e;
  more = [];
  appended = sym (append-nil s.sub.delivered);
  rising = done refl;
}
Reach-Continues e (next r st) = Step-Continues (Reach-Continues e r) st

-- One frame has reached the end of the stream and the subscriber reads it.
follow-snoc :
    (stream : List Entry) (frame : Entry)
    → take read_count (drop (length stream) (stream ++ frame ∷ [])) ≡ frame ∷ []
follow-snoc stream frame =
    let e : drop (length stream) (stream ++ frame ∷ []) ≡ frame ∷ [] =
      drop-append (length stream) stream (frame ∷ []) (le_refl (length stream))
      ∙ ap (λ xs. xs ++ frame ∷ []) (drop-length stream) in
    ap (take read_count) e

-- The bus after the publisher of the younger frame wins the race, and at the end.
abbrev pub overtaken : Sys → Frame → Frame → Sys
overtaken s f g = record s { bus = add (some f ∷ []) (some g) [] s.bus }

abbrev pub settle : Sys → Sys
settle s = record s { sub = follow s.bus s.sub }

abbrev pub lost : Sys → Frame → Frame → Sys
lost s f g =
    let t = settle (overtaken s f g) in settle (record t { bus = add [] (some f) [] t.bus })

lost-Reach :
    (s : Sys) (f g : Frame)
    → s.sub.phase ≡ following
    → s.bus.in_flight ≡ some f ∷ some g ∷ []
    → Reach false s (lost s f g)
unfolding add follow
lost-Reach s f g e flight =
    next
      (next
        (next (next here (adds s (some f ∷ []) (some g) [] flight (λ k. cc)))
          (follows (overtaken s f g) e))
        (adds (settle (overtaken s f g)) [] (some f) [] refl (λ k. refl)))
      (follows _ e)

follow_one :
    (b : Bus) (u : Subscriber) (stream : List Entry) (frame : Entry)
    → b.stream ≡ stream ++ frame ∷ []
    → u.last_id ≡ length stream
    → follow b u ≡ record u {
      last_id = u.last_id + 1;
      seen = (deliver u.seen (frame ∷ [])).0;
      delivered = u.delivered ++ (deliver u.seen (frame ∷ [])).1;
    }
unfolding follow
follow_one b u stream frame e k =
    let entries : take read_count (drop u.last_id b.stream) ≡ frame ∷ [] =
      ap (λ n. take read_count (drop n b.stream)) k
      ∙ ap (λ xs. take read_count (drop (length stream) xs)) e
      ∙ follow-snoc stream frame in
    ap
      (λ (xs : List Entry). record u {
        last_id = u.last_id + length xs;
        seen = (deliver u.seen xs).0;
        delivered = u.delivered ++ (deliver u.seen xs).1;
      })
      entries

deliver_new :
    (seen n : ℕ) (frame : Frame)
    → frame.seq ≡ some n
    → seen < n
    → deliver seen (some frame ∷ []) ≡ (n, frame ∷ [])
unfolding deliver
deliver_new seen n frame e h = ground arith

deliver_old :
    (seen n : ℕ) (frame : Frame)
    → frame.seq ≡ some n
    → n ≤ seen
    → deliver seen (some frame ∷ []) ≡ (seen, [])
unfolding deliver
deliver_old seen n frame e h = ground arith

-- Two publishers have numbered their frames, a subscriber has read the stream to its end and seen
-- all that was numbered before, and the publisher of the younger frame adds it first. Then all steps
-- are done, nothing is in flight and the stream is read to its end, but the subscriber was given the
-- younger frame alone.
pub reorder_loses :
    (s : Sys) (f g : Frame)
    → s.sub.phase ≡ following
    → s.bus.in_flight ≡ some f ∷ some g ∷ []
    → f.seq ≡ some (suc s.sub.seen)
    → g.seq ≡ some (suc (suc s.sub.seen))
    → s.sub.last_id ≡ length s.bus.stream
    → Reach false s (lost s f g)
      × ((lost s f g).bus.in_flight ≡ [])
      × ((lost s f g).sub.last_id ≡ length (lost s f g).bus.stream)
      × ((lost s f g).sub.delivered ≡ s.sub.delivered ++ g ∷ [])
      × ((lost s f g).sub.seen ≡ suc (suc s.sub.seen))
unfolding add
reorder_loses s f g e flight nf ng read =
    let t = settle (overtaken s f g) in
    let first = follow_one (overtaken s f g).bus s.sub s.bus.stream (some g) refl read in
    let taken = deliver_new s.sub.seen (suc (suc s.sub.seen)) g ng (omega arith) in
    let t_seen : t.sub.seen ≡ suc (suc s.sub.seen) =
      ap (λ (u : Subscriber). u.seen) first ∙ ap (λ r. r.0) taken in
    let t_given : t.sub.delivered ≡ s.sub.delivered ++ g ∷ [] =
      ap (λ (u : Subscriber). u.delivered) first ∙ ap (λ r. s.sub.delivered ++ r.1) taken in
    let t_read : t.sub.last_id ≡ length (s.bus.stream ++ some g ∷ []) =
      ap (λ (u : Subscriber). u.last_id) first
      ∙ omega (arith, length-append {0} s.bus.stream (some g ∷ [])) in
    let second =
      follow_one (add [] (some f) [] t.bus) t.sub (s.bus.stream ++ some g ∷ []) (some f) refl
        t_read in
    let passed_over = deliver_old t.sub.seen (suc s.sub.seen) f nf (omega arith) in
    (
      lost-Reach s f g e flight,
      refl,
      ap (λ (u : Subscriber). u.last_id) second
          ∙ omega (arith, length-append {0} (s.bus.stream ++ some g ∷ []) (some f ∷ [])),
      ap (λ (u : Subscriber). u.delivered) second
          ∙ ap (λ r. t.sub.delivered ++ r.1) passed_over
          ∙ append-nil t.sub.delivered
          ∙ t_given,
      ap (λ (u : Subscriber). u.seen) second ∙ ap (λ r. r.0) passed_over ∙ t_seen,
    )

length-parse_rows-le : (rows : List Row) → length (parse_rows rows) ≤ length rows
unfolding parse_rows
length-parse_rows-le [] = omega arith
length-parse_rows-le (row ∷ rows) = ground (arith, length-parse_rows-le rows)

parse_rows-short :
    (rows : List Row) → (length (parse_rows rows) < length rows) ⊎ All IsReadable rows
unfolding parse_rows
parse_rows-short [] = inr tt
parse_rows-short (row ∷ rows) = elim (Option-cases row.payload) [
  | inl unread ↦ rw (unread, parse_rows) (inl (omega (arith, length-parse_rows-le rows)))
  | inr (event, p) ↦
      rw (p, parse_rows)
        (elim (parse_rows-short rows) [
          | inl short ↦ inl (omega arith)
          | inr readable ↦ inr ((event, refl), readable)
        ])
]

-- The rows that a page is read from.
abbrev pub asked : ℕ → List Row → List Row
asked c rows = take page_size (if c == 0 then rows else filter (λ row. ltb c row.seq) rows)

-- A page that holds a row which does not parse ends the backfill, however many rows are left: the
-- subscriber goes on to the live tail with what that page gave.
pub unreadable_row_ends_backfill :
    (b : Bus) (s : Subscriber)
    → ¬ All IsReadable (asked s.cursor b.rows)
    → ((backfill_page b s).phase ≡ following)
      × ((backfill_page b s).delivered ≡ s.delivered ++ parse_rows (asked s.cursor b.rows))
unfolding backfill_page
unreadable_row_ends_backfill b s unreadable =
    let bound : length (asked s.cursor b.rows) ≤ page_size = length-take_le page_size _ in
    elim (parse_rows-short (asked s.cursor b.rows)) [
      | inl short ↦ (rw (lt→ltb _ page_size (lt_of_lt_of_le short bound)) refl, refl)
      | inr readable ↦ absurd (unreadable readable)
    ]
