-- ===== src/Streamer/CsvReader.antt =====
-- The csv.Reader of encoding/csv as internal/streamer/csv.go sets it up: comma-separated, leading
-- white space trimmed, no comments, strict quotes, any number of fields. It is a machine that reads a
-- byte at a time; the line breaks stand in the text.
use my_queue.Base.{ℕ, zero, suc, List, [], ◌∷◌, ◌++◌, Str, ◌==◌, if◌then◌else◌}
use my_queue.Streamer.Spaces.{space_len}

-- ErrBareQuote and ErrQuote; a position that the message names is left out.
pub data CsvError : Type 0 where
  bare_quote quote : CsvError

-- The records up to the end of the file, or up to an error.
pub data Reads : Type 0 where
  eof : Reads
  failed : CsvError → Reads
  next : List Str → Reads → Reads

-- `skipping k` is inside a white space, with k + 1 bytes to go; `closing` is behind a quotation mark
-- in a quoted field.
pub data Mode : Type 0 where
  record_start field_start bare quoted closing : Mode
  skipping : ℕ → Mode

pub record Machine : Type 0 where
  pub mode : Mode
  pub field : Str
  pub fields : List Str

pub data Step : Type 0 where
  go : Machine → Step
  emit : List Str → Step
  fail : CsvError → Step

abbrev pub initial : Machine
initial = record { mode = record_start; field = []; fields = [] }

abbrev pub all_fields : Machine → List Str
all_fields m = m.fields ++ m.field ∷ []

-- The end of a field, at a comma.
abbrev pub end_field : Machine → Machine
end_field m = record { mode = field_start; field = []; fields = all_fields m }

abbrev pub push : Machine → ℕ → Mode → Machine
push m c mode = record m { field = m.field ++ c ∷ []; mode = mode }

abbrev after_space : ℕ → Mode
after_space zero = field_start
after_space (suc k) = skipping k

unfoldable pub step_bare : Machine → ℕ → Step
step_bare m c =
    if c == b','
    then go (end_field m)
    else if c == b'\n'
    then emit (all_fields m)
    else if c == b'"'
    then fail bare_quote
    else go (push m c bare)

unfoldable pub step_text : ℕ → Machine → ℕ → Step
unfolding step_bare
step_text zero m c = if c == b'"' then go (record m { mode = quoted }) else step_bare m c
step_text (suc k) m c = go (record m { mode = after_space k })

unfoldable pub step_field : Machine → ℕ → Str → Step
unfolding step_text
step_field m c cs = if c == b'\n' then emit (all_fields m) else step_text (space_len (c ∷ cs)) m c

-- One byte; `cs` are those after it.
unfoldable pub step : Mode → Machine → ℕ → Str → Step
unfolding step_field step_bare
step record_start m c cs = if c == b'\n' then go m else step_field m c cs
step field_start m c cs = step_field m c cs
step (skipping zero) m c cs = go (record m { mode = field_start })
step (skipping (suc k)) m c cs = go (record m { mode = skipping k })
step bare m c cs = step_bare m c
step quoted m c cs = go (if c == b'"' then record m { mode = closing } else push m c quoted)
step closing m c cs =
    if c == b'"'
    then go (push m c quoted)
    else if c == b','
    then go (end_field m)
    else if c == b'\n'
    then emit (all_fields m)
    else fail quote

-- The end of the text.
abbrev pub finish : Mode → Machine → Reads
finish record_start m = eof
finish field_start m = next (all_fields m) eof
finish (skipping k) m = next (all_fields m) eof
finish bare m = next (all_fields m) eof
finish quoted m = failed quote
finish closing m = next (all_fields m) eof

unfoldable pub run : Machine → Str → Reads
run m [] = finish m.mode m
run m (c ∷ cs) = elim (step m.mode m c cs) [
  | go m' ↦ run m' cs
  | emit record_ ↦ next record_ (run initial cs)
  | fail e ↦ failed e
]

-- A carriage return before a line feed, or at the end of the file, is dropped.
unfoldable pub drop_cr : Str → Str
drop_cr [] = []
drop_cr (c ∷ []) = if c == b'\r' then [] else c ∷ []
drop_cr (c ∷ d ∷ cs) =
    let rest = drop_cr (d ∷ cs) in
    if c == b'\r' then (if d == b'\n' then rest else c ∷ rest) else c ∷ rest

unfoldable pub read_records : Str → Reads
read_records text = run initial (drop_cr text)
