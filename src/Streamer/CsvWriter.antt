-- ===== src/Streamer/CsvWriter.antt =====
-- The csv.Writer of encoding/csv as internal/streamer/csv.go uses it: comma-separated, with a line
-- feed behind each record.
use my_queue.Base.{
  ℕ, Bool, false, ◌||◌, List, [], ◌∷◌, ◌++◌, Str, bytes, str_eq, ltb, ◌==◌, if◌then◌else◌,
}
use my_queue.Streamer.Spaces.{space_len}

-- The bytes that must stand in quotation marks: comma, quotation mark and the line breaks.
abbrev pub is_special : ℕ → Bool
is_special c = c == b'"' || (c == b',' || (c == b'\n' || c == b'\r'))

unfoldable pub any_special : Str → Bool
any_special [] = false
any_special (c ∷ cs) = is_special c || any_special cs

-- fieldNeedsQuotes
unfoldable pub needs_quotes : Str → Bool
needs_quotes [] = false
needs_quotes (c ∷ cs) =
    str_eq (c ∷ cs) (bytes "\\.") || (any_special (c ∷ cs) || ltb 0 (space_len (c ∷ cs)))

-- What is written for one byte in quotation marks.
abbrev pub quoted_byte : ℕ → Str → Str
quoted_byte c rest = if c == b'"' then b'"' ∷ b'"' ∷ rest else c ∷ rest

-- The inside of a quoted field, its closing mark, and what follows.
unfoldable pub quoted_field : Str → Str → Str
quoted_field [] rest = b'"' ∷ rest
quoted_field (c ∷ cs) rest = quoted_byte c (quoted_field cs rest)

-- A field, and what follows.
unfoldable pub write_field : Str → Str → Str
write_field f rest = if needs_quotes f then b'"' ∷ quoted_field f rest else f ++ rest

-- The fields after the first, each behind a comma, then the end of the record, and what follows.
unfoldable pub write_more : List Str → Str → Str
write_more [] rest = b'\n' ∷ rest
write_more (f ∷ fs) rest = b',' ∷ write_field f (write_more fs rest)

-- Write
unfoldable pub write_record : List Str → Str → Str
write_record [] rest = b'\n' ∷ rest
write_record (f ∷ fs) rest = write_field f (write_more fs rest)

-- All records of a file.
unfoldable pub write_records : List (List Str) → Str
write_records [] = []
write_records (r ∷ rs) = write_record r (write_records rs)
