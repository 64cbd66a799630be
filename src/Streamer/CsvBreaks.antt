-- ===== src/Streamer/CsvBreaks.antt =====
-- Carriage returns: the reader drops some, so a text keeps its value if it holds none.
use my_queue.Base.{
  ◌≡◌, ◌≢◌, refl, ap, ◌∙◌, List, [], ◌∷◌, ◌++◌, arith, Str, ◌==◌, Bool-cases, inl, inr, All,
}
use my_queue.Streamer.CsvReader.{drop_cr, read_records, run, initial}
use my_queue.Streamer.CsvWriter.{
  quoted_byte, quoted_field, write_field, write_more, write_record, write_records, needs_quotes,
}
use my_queue.Streamer.CsvRoundTrip.{IsWide, all_read, run-write_records}

-- No carriage return.
abbrev pub LacksCr : Str → Type 0
LacksCr = All (λ c. c ≢ b'\r')

drop_cr-LacksCr : (s : Str) → LacksCr s → drop_cr s ≡ s
unfolding drop_cr
drop_cr-LacksCr [] h = refl
drop_cr-LacksCr (c ∷ []) h = ground (arith, h.0)
drop_cr-LacksCr (c ∷ d ∷ cs) h = ground (arith, h.0, drop_cr-LacksCr (d ∷ cs) h.1)

append-LacksCr : (s rest : Str) → LacksCr s → LacksCr rest → LacksCr (s ++ rest)
append-LacksCr [] rest h k = k
append-LacksCr (c ∷ cs) rest h k = (h.0, append-LacksCr cs rest h.1 k)

quoted_field-LacksCr : (s rest : Str) → LacksCr s → LacksCr rest → LacksCr (quoted_field s rest)
unfolding quoted_field
quoted_field-LacksCr [] rest h k = ((λ e. cc), k)
quoted_field-LacksCr (c ∷ cs) rest h k =
    doubled (quoted_field cs rest) (quoted_field-LacksCr cs rest h.1 k)
  where
    doubled : (tail : Str) → LacksCr tail → LacksCr (quoted_byte c tail)
    doubled tail t = elim (Bool-cases (c == b'"')) [
      | inl e ↦ rw e ((λ x. cc), ((λ x. cc), t))
      | inr e ↦ rw e (h.0, t)
    ]

write_field-LacksCr : (f rest : Str) → LacksCr f → LacksCr rest → LacksCr (write_field f rest)
unfolding write_field
write_field-LacksCr f rest h k = elim (Bool-cases (needs_quotes f)) [
  | inl e ↦ rw e ((λ x. cc), quoted_field-LacksCr f rest h k)
  | inr e ↦ rw e (append-LacksCr f rest h k)
]

write_more-LacksCr :
    (fs : List Str) (rest : Str) → All LacksCr fs → LacksCr rest → LacksCr (write_more fs rest)
unfolding write_more
write_more-LacksCr [] rest h k = ((λ e. cc), k)
write_more-LacksCr (f ∷ fs) rest h k =
    ((λ e. cc), write_field-LacksCr f _ h.0 (write_more-LacksCr fs rest h.1 k))

write_record-LacksCr :
    (fs : List Str) (rest : Str) → All LacksCr fs → LacksCr rest → LacksCr (write_record fs rest)
unfolding write_record
write_record-LacksCr [] rest h k = ((λ e. cc), k)
write_record-LacksCr (f ∷ fs) rest h k =
    write_field-LacksCr f _ h.0 (write_more-LacksCr fs rest h.1 k)

write_records-LacksCr : (rs : List (List Str)) → All (All LacksCr) rs → LacksCr (write_records rs)
unfolding write_records
write_records-LacksCr [] h = tt
write_records-LacksCr (r ∷ rs) h = write_record-LacksCr r _ h.0 (write_records-LacksCr rs h.1)

-- Records of two or more fields, whose bytes are any but the carriage return, are read back as they
-- were written: commas, quotation marks, line feeds and white space included.
pub read_records-write_records :
    (rs : List (List Str))
    → All IsWide rs
    → All (All LacksCr) rs
    → read_records (write_records rs) ≡ all_read rs
unfolding read_records
read_records-write_records rs wide lacks =
    ap (run initial) (drop_cr-LacksCr (write_records rs) (write_records-LacksCr rs lacks))
    ∙ run-write_records rs wide
