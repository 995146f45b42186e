-- ===== src/RunStream/Laws.antt =====
-- Replay, the cursor, and what settles a candidate.
use Prim.Native.String as Text
use self_consistency_answer.Common.{
  ℕ, String, ◌≡◌, ◌≤◌, refl, sym, ap, ◌∙◌, Bool, true, false, Option, none, some, List, [], ◌∷◌,
  ◌++◌, any, arith, lookup, insert, or_else, str_eq, eq_iff, insert-insert, lookup-insert_self,
  lookup-erase_self, if◌then◌else◌, Bool-cases, inl, inr,
}
use self_consistency_answer.Events.{
  Candidate, Run, RunEvent, candidate_started, candidate_delta, candidate_settled,
  is_ephemeral_event, is_terminal_event,
}
use self_consistency_answer.RunStream.{
  RunStreamState, closed, replace_candidate, with_candidate, without_streaming, mark_running,
  settled_content, append_delta, reduce, next_cursor, apply_run_event, ends_stream,
}

mark_running_idempotent :
    (id : String) (cs : List Candidate) → mark_running id (mark_running id cs) ≡ mark_running id cs
unfolding mark_running
mark_running_idempotent id [] = refl
mark_running_idempotent id (c ∷ cs) = ground (arith, mark_running_idempotent id cs)

replace_candidate_idempotent :
    (c : Candidate) (cs : List Candidate)
    → replace_candidate c (replace_candidate c cs) ≡ replace_candidate c cs
unfolding replace_candidate
replace_candidate_idempotent c [] = refl
replace_candidate_idempotent c (d ∷ cs) = ground (arith, replace_candidate_idempotent c cs)

abbrev has_id : String → Candidate → Bool
has_id id c = str_eq c.id id

any-replace_candidate :
    (c : Candidate) (cs : List Candidate)
    → any (has_id c.id) (replace_candidate c cs) ≡ any (has_id c.id) cs
unfolding replace_candidate
any-replace_candidate c [] = refl
any-replace_candidate c (d ∷ cs) = ground (arith, any-replace_candidate c cs, eq_iff c.id c.id)

any-append_self : (c : Candidate) (cs : List Candidate) → any (has_id c.id) (cs ++ c ∷ []) ≡ true
any-append_self c [] = ground (arith, eq_iff c.id c.id)
any-append_self c (d ∷ cs) = ground (arith, any-append_self c cs)

replace-append_self :
    (c : Candidate) (cs : List Candidate)
    → any (has_id c.id) cs ≡ false
    → replace_candidate c (cs ++ c ∷ []) ≡ cs ++ c ∷ []
unfolding replace_candidate
replace-append_self c [] h = ground arith
replace-append_self c (d ∷ cs) h = ground (arith, replace-append_self c cs)

with_candidate_idempotent :
    (run : Run) (c : Candidate) → with_candidate (with_candidate run c) c ≡ with_candidate run c
unfolding with_candidate
with_candidate_idempotent run c = elim (Bool-cases (any (has_id c.id) run.candidates)) [
  | inl known ↦
      rw (known, any-replace_candidate c run.candidates, known)
        (ap (λ cs. record run { candidates = cs }) (replace_candidate_idempotent c run.candidates))
  | inr new ↦
      rw (new, any-append_self c run.candidates)
        (ap (λ cs. record run { candidates = cs }) (replace-append_self c run.candidates new))
]

without_streaming_idempotent :
    (m : List (String × String)) (id : String)
    → without_streaming (without_streaming m id) id ≡ without_streaming m id
unfolding without_streaming
without_streaming_idempotent m id = ground (arith, lookup-erase_self id m)

started_idempotent :
    (id : String) (m : List (String × String))
    → let m' = insert id (or_else (lookup id m) "") m in
      insert id (or_else (lookup id m') "") m' ≡ m'
started_idempotent id m =
    rw (lookup-insert_self id (or_else (lookup id m) "") m) (insert-insert id _ _ m)

reduce_twice :
    (now later : String) (s : RunStreamState) (event : RunEvent)
    → is_ephemeral_event event ≡ false
    → reduce later (reduce now s event) event ≡ reduce now s event
unfolding reduce is_ephemeral_event
reduce_twice now later s (candidate_started run_id id) h =
    ground (arith, mark_running_idempotent id s.run.candidates, started_idempotent id s.streaming)
reduce_twice now later s (candidate_delta run_id id text) h = cc
reduce_twice now later s (candidate_settled run_id c) h =
    ground (arith, with_candidate_idempotent s.run c, without_streaming_idempotent s.streaming c.id)
reduce_twice now later s _ h = ground arith

cursor-reduce :
    (now : String) (s : RunStreamState) (event : RunEvent) → (reduce now s event).cursor ≡ s.cursor
unfolding reduce
cursor-reduce now s (candidate_delta run_id id text) = ground arith
cursor-reduce now s _ = refl

next_cursor_settled :
    (c : ℕ) (seq : Option ℕ) → next_cursor (next_cursor c seq) seq ≡ next_cursor c seq
next_cursor_settled c none = refl
next_cursor_settled c (some n) = omega arith

next_cursor-le : (c : ℕ) (seq : Option ℕ) → c ≤ next_cursor c seq
next_cursor-le c none = omega arith
next_cursor-le c (some n) = omega arith

-- Applying an event that is in the durable log a second time, with the same number and at any later
-- time, changes nothing.
pub replay_idempotent :
    (now later : String) (s : RunStreamState) (event : RunEvent) (seq : Option ℕ)
    → is_ephemeral_event event ≡ false
    → apply_run_event later (apply_run_event now s event seq) event seq
      ≡ apply_run_event now s event seq
unfolding apply_run_event
replay_idempotent now later s event seq h =
    let s' = record s { cursor = next_cursor s.cursor seq } in
    let t = reduce now s' event in
    let same = cursor-reduce now s' event in
    let moved : next_cursor t.cursor seq ≡ t.cursor =
      ap (λ n. next_cursor n seq) same ∙ next_cursor_settled s.cursor seq ∙ sym same in
    ap (λ n. reduce later (record t { cursor = n }) event) moved ∙ reduce_twice now later s' event h

-- The cursor moves forward only, and an event with no number leaves it alone.
pub cursor_forward :
    (now : String) (s : RunStreamState) (event : RunEvent) (seq : Option ℕ)
    → (s.cursor ≤ (apply_run_event now s event seq).cursor)
      × ((apply_run_event now s event none).cursor ≡ s.cursor)
unfolding apply_run_event
cursor_forward now s event seq =
    let s' = record s { cursor = next_cursor s.cursor seq } in
    (
      omega (arith, cursor-reduce now s' event, next_cursor-le s.cursor seq),
      cursor-reduce now s event,
    )

find-replace_candidate :
    (c : Candidate) (cs : List Candidate)
    → any (has_id c.id) cs ≡ true
    → settled_content c.id (replace_candidate c cs) ≡ c.content
unfolding replace_candidate settled_content
find-replace_candidate c [] h = cc
find-replace_candidate c (d ∷ cs) h = ground (arith, find-replace_candidate c cs, eq_iff c.id c.id)

find-append_new :
    (c : Candidate) (cs : List Candidate)
    → any (has_id c.id) cs ≡ false
    → settled_content c.id (cs ++ c ∷ []) ≡ c.content
unfolding settled_content
find-append_new c [] h = ground (arith, eq_iff c.id c.id)
find-append_new c (d ∷ cs) h = ground (arith, find-append_new c cs)

settled_content-with_candidate :
    (run : Run) (c : Candidate) → settled_content c.id (with_candidate run c).candidates ≡ c.content
unfolding with_candidate
settled_content-with_candidate run c = elim (Bool-cases (any (has_id c.id) run.candidates)) [
  | inl known ↦ rw known (find-replace_candidate c run.candidates known)
  | inr new ↦ rw new (find-append_new c run.candidates new)
]

lookup-without_streaming :
    (m : List (String × String)) (id : String) → lookup id (without_streaming m id) ≡ none
unfolding without_streaming
lookup-without_streaming m id = ground (arith, lookup-erase_self id m)

-- Once a candidate has settled with a text, that text is what the run holds of it, its partial text
-- is gone, and a delta that arrives for it later changes nothing.
pub settled_wins :
    (now later : String) (s : RunStreamState) (run_id run_id' text body : String) (c : Candidate)
    (seq : Option ℕ)
    → c.content ≡ some body
    → let s' = apply_run_event now s (candidate_settled run_id c) seq in
      (settled_content c.id s'.run.candidates ≡ some body)
      × (lookup c.id s'.streaming ≡ none)
      × (apply_run_event later s' (candidate_delta run_id' c.id text) none ≡ s')
unfolding apply_run_event reduce
settled_wins now later s run_id run_id' text body c seq e =
    let here = settled_content-with_candidate s.run c ∙ e in
    (here, lookup-without_streaming s.streaming c.id, rw here refl)

-- A delta is appended, not assigned: for a candidate with no text yet, a second copy of the same
-- delta shows its text twice.
pub delta_appends_twice :
    (now later : String) (s : RunStreamState) (run_id id text : String)
    → settled_content id s.run.candidates ≡ none
    → let event = candidate_delta run_id id text in
      lookup id (apply_run_event later (apply_run_event now s event none) event none).streaming
      ≡ some (Text.◌++◌ (Text.◌++◌ (or_else (lookup id s.streaming) "") text) text)
unfolding apply_run_event reduce append_delta
delta_appends_twice now later s run_id id text e =
    rw (e, e, lookup-insert_self id _ _, lookup-insert_self id _ s.streaming) refl

-- The events that end the stream are the terminal events of the shared contract, and applying one is
-- what closes the connection.
pub closes_iff :
    (now : String) (s : RunStreamState) (event : RunEvent) (seq : Option ℕ)
    → (ends_stream event ≡ is_terminal_event event)
      × ((apply_run_event now s event seq).connection
          ≡ (if is_terminal_event event then closed else s.connection))
unfolding ends_stream is_terminal_event apply_run_event reduce
closes_iff now s (candidate_delta run_id id text) seq = ground arith
closes_iff now s _ seq = (refl, refl)
