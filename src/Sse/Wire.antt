-- ===== src/Sse/Wire.antt =====
-- Frames in the wire format of the EventSource standard are read back as they were written.
use self_consistency_answer.Common.{ℕ, ◌≡◌, ◌≢◌, List, ◌∷◌, ◌++◌, map, All}
use self_consistency_answer.Sse.{Text, newline, trim_start, join_lines, data_prefix, id_prefix}

abbrev pub IsOneLine : Text → Type 0
IsOneLine = All (λ c. c ≢ newline)

-- A text that `trimStart` leaves alone.
abbrev pub IsFlush : Text → Type 0
IsFlush text = trim_start text ≡ text

abbrev pub space : ℕ
space = 32

abbrev pub id_line : Text → Text
id_line id = id_prefix ++ space ∷ id

abbrev pub data_line : Text → Text
data_line line = data_prefix ++ space ∷ line

-- The frame for an id and the lines of its data, less the blank line that ends it.
pub encode : Text → List Text → Text
encode id lines = join_lines (id_line id ∷ map data_line lines)
