-- ===== src/Sse.antt =====
-- packages/shared/src/sse.ts: cutting an event stream into frames and reading each frame. Text is
-- the list of its UTF-16 code units, as the streaming `TextDecoder` hands it on. Zod's parsers
-- (`runEventSchema` over `JSON.parse`, `seqSchema`) are parameters.
pub mod Frames
pub mod Wire
mod Tests
use Prim.Native.Nat.{pred}
use self_consistency_answer.Common.{
  ℕ, zero, suc, ◌+◌, Bool, true, false, ◌&&◌, ◌||◌, Option, none, some, List, [], ◌∷◌, ◌++◌, length,
  drop, leb, ◌==◌, if◌then◌else◌,
}
use self_consistency_answer.Events.{RunEvent}

abbrev pub Text : Type 0
Text = List ℕ

abbrev pub newline : ℕ
newline = 10

-- `buffer.indexOf("\n\n")` with the two slices around it.
unfoldable pub cut : Text → Option (Text × Text)
cut [] = none
cut (c ∷ []) = none
cut (c ∷ d ∷ rest) =
    let later = cut (d ∷ rest) in
    if c == newline && d == newline
    then some ([], rest)
    else (elim later [ none ↦ none | some (raw, left) ↦ some (c ∷ raw, left) ])

-- The inner `while`: the complete frames of the buffer, and what is left in it. Each round shortens
-- the buffer, so its length is fuel enough.
unfoldable pub drain : ℕ → Text → List Text × Text
drain zero buffer = ([], buffer)
drain (suc fuel) buffer = elim (cut buffer) [
  | none ↦ ([], buffer)
  | some (raw, left) ↦ let (frames, rest) = drain fuel left in (raw ∷ frames, rest)
]

-- The outer loop, over the chunks that the reader yields: all complete frames, in order.
unfoldable pub raw_frames : Text → List Text → List Text
unfolding drain
raw_frames buffer [] = []
raw_frames buffer (chunk ∷ chunks) =
    let (frames, rest) = drain (length (buffer ++ chunk)) (buffer ++ chunk) in
    frames ++ raw_frames rest chunks

-- `line.startsWith(prefix)`.
unfoldable pub starts_with : Text → Text → Bool
starts_with text [] = true
starts_with [] (p ∷ ps) = false
starts_with (c ∷ text) (p ∷ ps) = c == p && starts_with text ps

-- The characters that `trim` strips: white space and line ends.
unfoldable pub is_white : ℕ → Bool
is_white c =
    (leb 9 c && leb c 13)
    || c == 32
    || c == 160
    || c == 5760
    || (leb 8192 c && leb c 8202)
    || c == 8232
    || c == 8233
    || c == 8239
    || c == 8287
    || c == 12288
    || c == 65279

unfoldable pub trim_start : Text → Text
unfolding is_white
trim_start [] = []
trim_start (c ∷ text) = let rest = trim_start text in if is_white c then rest else c ∷ text

unfoldable pub trim_end : Text → Text
unfolding is_white
trim_end [] = []
trim_end (c ∷ text) = elim (trim_end text) [
  | [] ↦ if is_white c then [] else c ∷ []
  | d ∷ rest ↦ c ∷ d ∷ rest
]

unfoldable pub trim : Text → Text
unfolding trim_start trim_end
trim text = trim_end (trim_start text)

-- `frame.split("\n")`.
unfoldable pub split_lines : Text → List Text
split_lines [] = [] ∷ []
split_lines (c ∷ text) = elim (split_lines text) [
  | [] ↦ []
  | line ∷ lines ↦ if c == newline then [] ∷ line ∷ lines else (c ∷ line) ∷ lines
]

-- `lines.join("\n")`.
unfoldable pub join_lines : List Text → Text
join_lines [] = []
join_lines (line ∷ []) = line
join_lines (line ∷ more ∷ lines) = line ++ newline ∷ join_lines (more ∷ lines)

-- "data:" and "id:".
abbrev pub data_prefix : Text
data_prefix = b'd' ∷ b'a' ∷ b't' ∷ b'a' ∷ b':' ∷ []

abbrev pub id_prefix : Text
id_prefix = b'i' ∷ b'd' ∷ b':' ∷ []

pub record RawFrame : Type 0 where
  pub id : Option Text
  pub body : Text

-- The loop over the lines of a frame, from what it has gathered.
unfoldable pub read_lines : List Text → Option Text → List Text → List Text × Option Text
unfolding starts_with trim_start trim
read_lines data_lines id [] = (data_lines, id)
read_lines data_lines id (line ∷ lines) =
    let is_data = starts_with line data_prefix in
    let is_id = starts_with line id_prefix in
    read_lines (if is_data then data_lines ++ trim_start (drop 5 line) ∷ [] else data_lines)
      (if is_data then id else if is_id then some (trim (drop 3 line)) else id) lines

unfoldable pub frame_of : List Text × Option Text → Option RawFrame
unfolding join_lines
frame_of ([], id) = none
frame_of (line ∷ lines, id) = some (record { id = id; body = join_lines (line ∷ lines) })

unfoldable pub decode_sse_frame : Text → Option RawFrame
unfolding read_lines split_lines frame_of
decode_sse_frame frame = frame_of (read_lines [] none (split_lines frame))

pub record StreamedRunEvent : Type 0 where
  pub event : RunEvent
  pub seq : Option ℕ

abbrev pub seq_of : (Text → Option ℕ) → Option Text → Option ℕ
seq_of parse_seq none = none
seq_of parse_seq (some id) = parse_seq id

module _ (parse_event : Text → Option RunEvent) (parse_seq : Text → Option ℕ) where
  -- What is yielded for one raw frame: nothing, if it has no data or does not fit the contract.
  pub event_of_frame : Text → List StreamedRunEvent
  event_of_frame raw = elim (decode_sse_frame raw) [
    | none ↦ []
    | some frame ↦ elim (parse_event frame.body) [
      | none ↦ []
      | some event ↦ record { event = event; seq = seq_of parse_seq frame.id } ∷ []
    ]
  ]

  pub events_of_frames : List Text → List StreamedRunEvent
  events_of_frames [] = []
  events_of_frames (raw ∷ frames) = event_of_frame raw ++ events_of_frames frames

  unfoldable pub read_run_event_stream : List Text → List StreamedRunEvent
  unfolding raw_frames
  read_run_event_stream chunks = events_of_frames (raw_frames [] chunks)
