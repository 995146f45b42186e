-- ===== src/Bus/Delivery.antt =====
-- What a subscriber has been given when publishers reach the stream in the order of the log.
use self_consistency_answer.Common.{
  ℕ, ◌+◌, ◌≤◌, ◌≡◌, refl, sym, ap, subst, ◌⊎◌, inl, inr, Bool, true, false, none, some, String,
  List, [], ◌∷◌, ◌++◌, append-nil, append_assoc, arith, length, length-append, take, drop,
  take-append, take-add, take-append-drop, take-length-take, length-take-drop_le, take_of_short,
  All, All-append, Bool-cases, if◌then◌else◌, ◌∙◌,
}
use self_consistency_answer.Events.{RunEvent, is_ephemeral_event}
use self_consistency_answer.Bus.{
  Entry, Bus, persist, add, intrude, intrudes, joining, backfilling, following, subscribe, join,
  backfill_page, follow, advance, list_run_events, page_size, read_count, Sys, Step, persists, adds,
  joins, backfills, follows, Reach, here, next,
}
use self_consistency_answer.Bus.Chain.{
  Trail, done, bare, numbered, Trail-append, Trail-split, Trail-le, Trail-end, Trail-unique, IsNext,
  IsNext-mono, row_seq, Chain, Flow,
}
use self_consistency_answer.Bus.Replay.{IsReadable, advance-Trail, list_run_events-Chain}
use self_consistency_answer.Bus.Tail.{deliver-Chain}

-- The log is numbered 1, 2, …, `event_seq`, its rows are readable, and the numbered frames on their
-- way (in the stream or in flight) are the log's, in its order.
pub record IsSound (b : Bus) : Type 0 where
  pub rows : Trail row_seq IsNext 0 b.rows b.event_seq
  pub readable : All IsReadable b.rows
  pub flow : Flow 0 (b.stream ++ b.in_flight) b.event_seq

-- Where the subscriber stands: it was given the numbers from its cursor to `seen`, and once it
-- follows the stream, what it passed there is no newer than `seen`.
pub record IsFollowed (after_seq : ℕ) (s : Sys) : Type 0 where
  pub sound : IsSound s.bus
  pub given : Chain after_seq s.sub.delivered s.sub.seen
  pub within : s.sub.seen ≤ s.bus.event_seq
  pub cursor : (s.sub.phase ≡ following) ⊎ (s.sub.cursor ≡ s.sub.seen)
  pub position : s.sub.last_id ≤ length s.bus.stream
  pub passed :
      s.sub.phase ≡ following
      → (a : ℕ) × Flow 0 (take s.sub.last_id s.bus.stream) a × (a ≤ s.sub.seen)

Flow-snoc :
    {n m : ℕ} (stream in_flight : List Entry) (entry : Entry)
    → Flow 0 (stream ++ in_flight) n
    → Flow n (entry ∷ []) m
    → Flow 0 (stream ++ (in_flight ++ entry ∷ [])) m
Flow-snoc stream in_flight entry t k =
    rw (← append_assoc stream in_flight (entry ∷ [])) (Trail-append t k)

pub persist-IsSound :
    (stored : Bool) (event : RunEvent) (now : String) (b : Bus)
    → IsSound b
    → IsSound (persist stored event now b)
unfolding persist
persist-IsSound stored event now b h = elim (Bool-cases (is_ephemeral_event event)) [
  | inl e ↦ rw e unnumbered
  | inr e ↦ elim (Bool-cases stored) [
    | inl k ↦
        rw (e, k)
          (record {
            rows = Trail-append h.rows (numbered refl refl (done refl));
            readable = All-append IsReadable b.rows _ h.readable ((event, refl), tt);
            flow = Flow-snoc b.stream b.in_flight _ h.flow (numbered refl refl (done refl));
          })
    | inr k ↦ rw (e, k) unnumbered
  ]
]
  where
    unnumbered : IsSound (record b {
      in_flight = b.in_flight ++ some (record { seq = none; event = event; created_at = now }) ∷ [];
    })
    unnumbered = record {
      rows = h.rows;
      readable = h.readable;
      flow = Flow-snoc b.stream b.in_flight _ h.flow (bare refl (done refl));
    }

persist_grows :
    (stored : Bool) (event : RunEvent) (now : String) (b : Bus)
    → (b.event_seq ≤ (persist stored event now b).event_seq)
      × ((persist stored event now b).stream ≡ b.stream)
unfolding persist
persist_grows stored event now b = ground arith

add-IsSound :
    (frame : Entry) (after : List Entry) (b : Bus)
    → b.in_flight ≡ frame ∷ after
    → IsSound b
    → IsSound (add [] frame after b)
unfolding add
add-IsSound frame after b e h = record {
  rows = h.rows;
  readable = h.readable;
  flow =
      rw (append_assoc b.stream (frame ∷ []) after)
        (subst (λ xs. Flow 0 (b.stream ++ xs) b.event_seq) e h.flow);
}

persists-IsFollowed :
    {c : ℕ} (s : Sys) (stored : Bool) (event : RunEvent) (now : String)
    → IsFollowed c s
    → IsFollowed c (record s { bus = persist stored event now s.bus })
persists-IsFollowed s stored event now h =
    let (grown, same) = persist_grows stored event now s.bus in
    record {
      sound = persist-IsSound stored event now s.bus h.sound;
      given = h.given;
      within = omega arith;
      cursor = h.cursor;
      position = rw same h.position;
      passed = rw same h.passed;
    }

adds-IsFollowed :
    {c : ℕ} (s : Sys) (frame : Entry) (after : List Entry)
    → s.bus.in_flight ≡ frame ∷ after
    → IsFollowed c s
    → IsFollowed c (record s { bus = add [] frame after s.bus })
unfolding add
adds-IsFollowed s frame after e h = record {
  sound = unfold add in add-IsSound frame after s.bus e h.sound;
  given = h.given;
  within = h.within;
  cursor = h.cursor;
  position = omega (arith, length-append {0} s.bus.stream (frame ∷ []));
  passed = rw (take-append s.sub.last_id s.bus.stream (frame ∷ []) h.position) h.passed;
}

intrude-IsSound : (b : Bus) → IsSound b → IsSound (intrude b)
unfolding intrude
intrude-IsSound b h =
    let (m, in_stream, rest) = Trail-split b.stream b.in_flight h.flow in
    record {
      rows = h.rows;
      readable = h.readable;
      flow = Trail-append (Trail-append in_stream (bare {x = none} refl (done refl))) rest;
    }

intrudes-IsFollowed :
    {c : ℕ} (s : Sys) → IsFollowed c s → IsFollowed c (record s { bus = intrude s.bus })
unfolding intrude
intrudes-IsFollowed s h = record {
  sound = unfold intrude in intrude-IsSound s.bus h.sound;
  given = h.given;
  within = h.within;
  cursor = h.cursor;
  position = omega (arith, length-append {0} s.bus.stream (none ∷ []));
  passed = rw (take-append s.sub.last_id s.bus.stream (none ∷ []) h.position) h.passed;
}

joins-IsFollowed :
    {c : ℕ} (s : Sys)
    → s.sub.phase ≡ joining
    → IsFollowed c s
    → IsFollowed c (record s { sub = join s.bus s.sub })
unfolding join
joins-IsFollowed s e h = record {
  sound = h.sound;
  given = h.given;
  within = h.within;
  cursor = ground (arith, h.cursor);
  position = omega arith;
  passed = λ k. cc;
}

-- What the stream holds up to any position is numbered within the log.
stream-prefix :
    (n : ℕ) (b : Bus) → IsSound b → (a : ℕ) × Flow 0 (take n b.stream) a × (a ≤ b.event_seq)
stream-prefix n b h =
    let (m, in_stream, rest) = Trail-split b.stream b.in_flight h.flow in
    let (a, prefix, later) =
      Trail-split {c = m} (take n b.stream) (drop n b.stream)
        (rw (take-append-drop n b.stream) in_stream) in
    (a, prefix, omega (arith, Trail-le IsNext-mono later, Trail-le IsNext-mono rest))

last_page : (short : Bool) → (if short then following else backfilling) ≡ following → short ≡ true
last_page true e = refl
last_page false e = cc

backfills-IsFollowed :
    {c : ℕ} (s : Sys)
    → s.sub.phase ≡ backfilling
    → IsFollowed c s
    → IsFollowed c (record s { sub = backfill_page s.bus s.sub })
unfolding backfill_page
backfills-IsFollowed s e h =
    let same : s.sub.cursor ≡ s.sub.seen = ground (arith, h.cursor) in
    let (b, page, within, last) =
      list_run_events-Chain s.sub.cursor page_size s.bus.rows (omega arith) h.sound.readable
        h.sound.rows in
    let (a, prefix, below) = stream-prefix s.sub.last_id s.bus h.sound in
    let top =
      subst (λ k. advance k (list_run_events s.sub.cursor page_size s.bus.rows) ≡ b) same
        (advance-Trail _ page) in
    record {
      sound = h.sound;
      given = Trail-append (Trail-end h.given (sym same)) (Trail-end page (sym top));
      within = omega arith;
      cursor = inr (advance-Trail _ page ∙ sym top);
      position = h.position;
      passed = λ k. (a, prefix, omega (arith, last (last_page _ k), top));
    }

read-take :
    (k n : ℕ) (xs : List Entry)
    → take (n + length (take k (drop n xs))) xs ≡ take n xs ++ take k (drop n xs)
read-take k n xs =
    take-add n (length (take k (drop n xs))) xs
    ∙ ap (λ ys. take n xs ++ ys) (take-length-take k (drop n xs))

follows-IsFollowed :
    {c : ℕ} (s : Sys)
    → s.sub.phase ≡ following
    → IsFollowed c s
    → IsFollowed c (record s { sub = follow s.bus s.sub })
unfolding follow
follows-IsFollowed s e h =
    let (a, behind, old) = h.passed e in
    let stream = s.bus.stream in
    let entries = take read_count (drop s.sub.last_id stream) in
    let moved = read-take read_count s.sub.last_id stream in
    let (b, prefix, below) = stream-prefix (s.sub.last_id + length entries) s.bus h.sound in
    let (a', behind', fresh) =
      Trail-split {c = b} (take s.sub.last_id stream) entries (rw moved at prefix) in
    let same : a ≡ a' = Trail-unique behind behind' in
    let (out, top) = deliver-Chain {a = a'} s.sub.seen entries (omega arith) fresh in
    record {
      sound = h.sound;
      given = Trail-append h.given out;
      within = omega arith;
      cursor = inl e;
      position = length-take-drop_le read_count s.sub.last_id stream h.position;
      passed = λ k. (b, prefix, omega arith);
    }

Step-IsFollowed : {c : ℕ} {s t : Sys} → Step true s t → IsFollowed c s → IsFollowed c t
Step-IsFollowed (persists s stored event now) h = persists-IsFollowed s stored event now h
Step-IsFollowed {c} (adds s before frame after e first) h =
    subst (λ xs. IsFollowed c (record s { bus = add xs frame after s.bus })) (sym (first refl))
      (adds-IsFollowed s frame after (rw (first refl) at e) h)
Step-IsFollowed (intrudes s) h = intrudes-IsFollowed s h
Step-IsFollowed (joins s e) h = joins-IsFollowed s e h
Step-IsFollowed (backfills s e) h = backfills-IsFollowed s e h
Step-IsFollowed (follows s e) h = follows-IsFollowed s e h

pub Reach-IsFollowed : {c : ℕ} {s t : Sys} → IsFollowed c s → Reach true s t → IsFollowed c t
Reach-IsFollowed h here = h
Reach-IsFollowed h (next r st) = Step-IsFollowed st (Reach-IsFollowed h r)

subscribe-IsFollowed :
    (c : ℕ) (b : Bus)
    → IsSound b
    → c ≤ b.event_seq
    → IsFollowed c (record { bus = b; sub = subscribe c })
unfolding subscribe
subscribe-IsFollowed c b h within = record {
  sound = h;
  given = done refl;
  within = within;
  cursor = inr refl;
  position = omega arith;
  passed = λ k. cc;
}

-- A subscriber connects to a sound bus with a cursor within its log, and frames reach the stream in
-- the order of the log, with any entries that do not parse in between: then at every moment it has been given exactly the numbers cursor + 1,
-- cursor + 2, …, `seen`, each once, in order and with no gap, and `seen` is within the log.
pub delivered-Chain :
    (c : ℕ) (b : Bus) {t : Sys}
    → IsSound b
    → c ≤ b.event_seq
    → Reach true (record { bus = b; sub = subscribe c }) t
    → Chain c t.sub.delivered t.sub.seen × (t.sub.seen ≤ t.bus.event_seq)
delivered-Chain c b h within r =
    let f = Reach-IsFollowed (subscribe-IsFollowed c b h within) r in (f.given, f.within)

-- Under the same conditions, once no frame is in flight and the subscriber has read the stream to
-- its end, it has been given the whole log after its cursor.
pub caught_up-Chain :
    (c : ℕ) (b : Bus) {t : Sys}
    → IsSound b
    → c ≤ b.event_seq
    → Reach true (record { bus = b; sub = subscribe c }) t
    → t.sub.phase ≡ following
    → t.bus.in_flight ≡ []
    → t.sub.last_id ≡ length t.bus.stream
    → Chain c t.sub.delivered t.bus.event_seq
caught_up-Chain c b {t} h within r following_now landed read =
    let f = Reach-IsFollowed (subscribe-IsFollowed c b h within) r in
    let (a, prefix, old) = f.passed following_now in
    let whole : take t.sub.last_id t.bus.stream ≡ t.bus.stream =
      take_of_short t.sub.last_id t.bus.stream (omega arith) in
    let all_seen : Flow 0 t.bus.stream t.bus.event_seq =
      subst (λ xs. Flow 0 xs t.bus.event_seq)
        (ap (◌++◌ t.bus.stream) landed ∙ append-nil t.bus.stream) f.sound.flow in
    let top : t.bus.event_seq ≡ a = Trail-unique all_seen (rw whole at prefix) in
    Trail-end f.given (omega (arith, f.within))
