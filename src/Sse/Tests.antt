-- ===== src/Sse/Tests.antt =====
-- Reading a small stream.
use self_consistency_answer.Common.{ℕ, ◌≡◌, refl, none, some, Option, [], ◌∷◌}
use self_consistency_answer.Events.{RunEvent, run_failed}
use self_consistency_answer.Sse.{Text, newline, cut, drain, decode_sse_frame, read_run_event_stream}
use self_consistency_answer.Sse.Frames.{chunks_do_not_matter}

-- "id:1\ndata:x"
abbrev sample : Text
sample =
    b'i' ∷ b'd' ∷ b':' ∷ b'1' ∷ newline ∷ b'd' ∷ b'a' ∷ b't' ∷ b'a' ∷ b':' ∷ b'x' ∷ newline
    ∷ newline ∷ b'i' ∷ []

decodes :
    decode_sse_frame (b'd' ∷ b'a' ∷ b't' ∷ b'a' ∷ b':' ∷ 32 ∷ b'x' ∷ [])
    ≡ some (record { id = none; body = b'x' ∷ [] })
unfolding decode_sse_frame
decodes = refl

drains : (drain 14 sample).1 ≡ b'i' ∷ []
unfolding drain cut
drains = refl

abbrev any_event : Text → Option RunEvent
any_event body = some (run_failed "r1" "x")

abbrev first_number : Text → Option ℕ
first_number id = some 1

chunks_do_not_matter_example :
    read_run_event_stream any_event first_number ((b'd' ∷ b'a' ∷ []) ∷ (b't' ∷ []) ∷ [])
    ≡ read_run_event_stream any_event first_number ((b'd' ∷ b'a' ∷ b't' ∷ []) ∷ [])
chunks_do_not_matter_example =
    chunks_do_not_matter any_event first_number ((b'd' ∷ b'a' ∷ []) ∷ (b't' ∷ []) ∷ [])
