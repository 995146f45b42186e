-- ===== src/Sse/Frames.antt =====
-- Frames are cut at blank lines, wherever the chunks of the stream end.
use native.Mathlib.Nat.{le_refl}
use self_consistency_answer.Common.{
  ℕ, zero, suc, ◌+◌, ◌≤◌, ◌≡◌, refl, sym, ap, ◌∙◌, inl, inr, Option, none, some, List, [], ◌∷◌,
  ◌++◌, append-nil, append_assoc, arith, length, length-append, Option-cases,
}
use self_consistency_answer.Events.{RunEvent}
use self_consistency_answer.Sse.{
  Text, newline, cut, drain, raw_frames, events_of_frames, read_run_event_stream,
}

-- Text that follows a frame stays behind it.
cut-append :
    (buffer more raw left : Text)
    → cut buffer ≡ some (raw, left)
    → cut (buffer ++ more) ≡ some (raw, left ++ more)
unfolding cut
cut-append [] more raw left e = cc
cut-append (c ∷ []) more raw left e = cc
cut-append (c ∷ d ∷ rest) more raw left e = elim (Option-cases (cut (d ∷ rest))) [
  | inl missing ↦ ground arith
  | inr ((raw', left'), found) ↦ ground (arith, cut-append (d ∷ rest) more raw' left' found)
]

-- A cut takes the frame and the blank line off the front.
cut-eq :
    (buffer raw left : Text)
    → cut buffer ≡ some (raw, left)
    → buffer ≡ raw ++ newline ∷ newline ∷ left
unfolding cut
cut-eq [] raw left e = cc
cut-eq (c ∷ []) raw left e = cc
cut-eq (c ∷ d ∷ rest) raw left e = elim (Option-cases (cut (d ∷ rest))) [
  | inl missing ↦ ground arith
  | inr ((raw', left'), found) ↦ ground (arith, cut-eq (d ∷ rest) raw' left' found)
]

cut_shorter :
    (buffer raw left : Text) → cut buffer ≡ some (raw, left) → length left + 2 ≤ length buffer
cut_shorter buffer raw left e =
    omega (
      arith,
      ap length (cut-eq buffer raw left e),
      length-append {0} raw (newline ∷ newline ∷ left),
    )

-- With fuel for its length, a buffer is drained: what is left holds no blank line.
pub drain_complete :
    (fuel : ℕ) (buffer : Text) → length buffer ≤ fuel → cut (drain fuel buffer).1 ≡ none
unfolding drain
drain_complete zero [] h = unfold cut in refl
drain_complete zero (c ∷ buffer) h = absurd (omega arith)
drain_complete (suc fuel) buffer h = elim (Option-cases (cut buffer)) [
  | inl missing ↦ rw (missing, drain) missing
  | inr ((raw, left), found) ↦
      rw (found, drain)
        (drain_complete fuel left (omega (arith, cut_shorter buffer raw left found)))
]

-- More fuel than the length of the buffer changes nothing.
drain_fuel :
    (f g : ℕ) (buffer : Text)
    → length buffer ≤ f
    → length buffer ≤ g
    → drain f buffer ≡ drain g buffer
unfolding drain
drain_fuel zero zero buffer h k = refl
drain_fuel zero (suc g) [] h k = unfold cut in refl
drain_fuel zero (suc g) (c ∷ buffer) h k = absurd (omega arith)
drain_fuel (suc f) zero [] h k = unfold cut in refl
drain_fuel (suc f) zero (c ∷ buffer) h k = absurd (omega arith)
drain_fuel (suc f) (suc g) buffer h k = elim (Option-cases (cut buffer)) [
  | inl missing ↦ rw (missing, drain) refl
  | inr ((raw, left), found) ↦
      let shorter = cut_shorter buffer raw left found in
      rw (found, drain)
        (ap (λ (r : List Text × Text). (raw ∷ r.0, r.1))
          (drain_fuel f g left (omega arith) (omega arith)))
]

abbrev pub drained : Text → List Text × Text
drained buffer = drain (length buffer) buffer

-- Draining a buffer to which more text has come is draining it first, and the rest with that text
-- after it.
drain-append :
    (f g : ℕ) (buffer more : Text)
    → length buffer ≤ f
    → length (buffer ++ more) ≤ g
    → drain g (buffer ++ more) ≡ (
      (drain f buffer).0 ++ (drained ((drain f buffer).1 ++ more)).0,
      (drained ((drain f buffer).1 ++ more)).1,
    )
unfolding drain
drain-append zero g [] more h k = drain_fuel g (length more) more k (le_refl _)
drain-append zero g (c ∷ buffer) more h k = absurd (omega arith)
drain-append (suc f) zero [] [] h k = unfold cut in refl
drain-append (suc f) zero [] (d ∷ more) h k = absurd (omega arith)
drain-append (suc f) zero (c ∷ buffer) more h k = absurd (omega arith)
drain-append (suc f) (suc g) buffer more h k = elim (Option-cases (cut buffer)) [
  | inl missing ↦
      rw (missing, drain)
        (drain_fuel (suc g) (length (buffer ++ more)) (buffer ++ more) k (le_refl _))
  | inr ((raw, left), found) ↦
      let shorter = cut_shorter buffer raw left found in
      let lengths = length-append {0} buffer more in
      let lengths' = length-append {0} left more in
      rw (found, cut-append buffer more raw left found, drain)
        (ap (λ (r : List Text × Text). (raw ∷ r.0, r.1))
          (drain-append f g left more (omega arith) (omega arith)))
]

abbrev pub joined : List Text → Text
joined [] = []
joined (chunk ∷ chunks) = chunk ++ joined chunks

raw_frames-joined :
    (buffer : Text) (chunks : List Text)
    → cut buffer ≡ none
    → raw_frames buffer chunks ≡ (drained (buffer ++ joined chunks)).0
unfolding raw_frames drain
raw_frames-joined buffer [] h = rw (append-nil buffer) (nothing buffer h)
  where
    nothing : (text : Text) → cut text ≡ none → [] ≡ (drained text).0
    nothing [] h = refl
    nothing (c ∷ text) h = rw (h, drain) refl
raw_frames-joined buffer (chunk ∷ chunks) h =
    let now = buffer ++ chunk in
    let rest = (drained now).1 in
    let later = raw_frames-joined rest chunks (drain_complete (length now) now (le_refl _)) in
    let all =
      drain-append (length now) (length (now ++ joined chunks)) now (joined chunks) (le_refl _)
        (le_refl _) in
    ap (λ xs. (drained now).0 ++ xs) later
    ∙ sym (ap (λ (r : List Text × Text). r.0) all)
    ∙ ap (λ t. (drained t).0) (append_assoc buffer chunk (joined chunks))

-- The events of a stream depend on its text alone, and not on where its chunks end.
pub chunks_do_not_matter :
    (parse_event : Text → Option RunEvent) (parse_seq : Text → Option ℕ) (chunks : List Text)
    → read_run_event_stream parse_event parse_seq chunks
      ≡ read_run_event_stream parse_event parse_seq (joined chunks ∷ [])
unfolding read_run_event_stream
chunks_do_not_matter parse_event parse_seq chunks = ap (events_of_frames parse_event parse_seq) (
    raw_frames-joined [] chunks (unfold cut in refl)
    ∙ sym (
        raw_frames-joined [] (joined chunks ∷ []) (unfold cut in refl)
        ∙ ap (λ t. (drained t).0) (append-nil (joined chunks))))
