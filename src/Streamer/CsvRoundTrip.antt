-- ===== src/Streamer/CsvRoundTrip.antt =====
-- Reading back what the writer wrote. Each lemma runs the machine over one piece of a text, with any
-- rest behind it.
use mathlib.Core.List.{append_assoc, append-nil}
use my_queue.Base.{
  ℕ, zero, suc, ◌≡◌, ◌≢◌, refl, sym, ap, ◌∙◌, false, ◌⊎◌, inl, inr, List, [], ◌∷◌, ◌++◌, arith, Str,
  ◌==◌, ◌<◌, if◌then◌else◌, Bool-cases, All,
}
use my_queue.Streamer.Spaces.{space_len, space_len-append}
use my_queue.Streamer.CsvReader.{
  Machine, Reads, eof, next, record_start, field_start, bare, quoted, initial, step, step_field,
  step_text, step_bare, run,
}
use my_queue.Streamer.CsvWriter.{
  any_special, needs_quotes, quoted_byte, quoted_field, write_field, write_more, write_record,
  write_records,
}

-- The machine at the start of a field, with fields before it.
abbrev at_field : List Str → Machine
at_field fields = record { mode = field_start; field = []; fields = fields }

abbrev in_bare : Str → List Str → Machine
in_bare field fields = record { mode = bare; field = field; fields = fields }

abbrev in_quotes : Str → List Str → Machine
in_quotes field fields = record { mode = quoted; field = field; fields = fields }

-- What follows a field that has been read: the next field, or the next record.
after_field : ℕ → List Str → Str → Reads
after_field d fields rest =
    if d == b',' then run (at_field fields) rest else next fields (run initial rest)

run-end_bare :
    (field : Str) (fields : List Str) (d : ℕ) (rest : Str)
    → (d ≡ b',') ⊎ (d ≡ b'\n')
    → run (in_bare field fields) (d ∷ rest) ≡ after_field d (fields ++ field ∷ []) rest
unfolding run step step_bare after_field
run-end_bare field fields d rest (inl e) = rw e
run-end_bare field fields d rest (inr e) = rw e

run-bare :
    (cs field : Str) (fields : List Str) (d : ℕ) (rest : Str)
    → any_special cs ≡ false
    → (d ≡ b',') ⊎ (d ≡ b'\n')
    → run (in_bare field fields) (cs ++ d ∷ rest)
      ≡ after_field d (fields ++ (field ++ cs) ∷ []) rest
unfolding any_special
run-bare [] field fields d rest n h = rw append-nil (run-end_bare field fields d rest h)
run-bare (c ∷ cs) field fields d rest n h =
    pushed
    ∙ run-bare cs (field ++ c ∷ []) fields d rest (ground arith) h
    ∙ ap (λ f. after_field d (fields ++ f ∷ []) rest) (append_assoc field (c ∷ []) cs)
  where
    pushed :
        run (in_bare field fields) (c ∷ (cs ++ d ∷ rest))
        ≡ run (in_bare (field ++ c ∷ []) fields) (cs ++ d ∷ rest)
    pushed = unfold run step step_bare in ground arith

run-quoted :
    (cs field : Str) (fields : List Str) (d : ℕ) (rest : Str)
    → (d ≡ b',') ⊎ (d ≡ b'\n')
    → run (in_quotes field fields) (quoted_field cs (d ∷ rest))
      ≡ after_field d (fields ++ (field ++ cs) ∷ []) rest
unfolding quoted_field
run-quoted [] field fields d rest (inl e) = rw (e, append-nil) (unfold run step after_field in refl)
run-quoted [] field fields d rest (inr e) = rw (e, append-nil) (unfold run step after_field in refl)
run-quoted (c ∷ cs) field fields d rest h =
    pushed
    ∙ run-quoted cs (field ++ c ∷ []) fields d rest h
    ∙ ap (λ f. after_field d (fields ++ f ∷ []) rest) (append_assoc field (c ∷ []) cs)
  where
    pushed :
        run (in_quotes field fields) (quoted_byte c (quoted_field cs (d ∷ rest)))
        ≡ run (in_quotes (field ++ c ∷ []) fields) (quoted_field cs (d ∷ rest))
    pushed = unfold run step in ground arith

run-plain :
    (c : ℕ) (cs : Str) (fields : List Str) (d : ℕ) (rest : Str)
    → any_special (c ∷ cs) ≡ false
    → space_len (c ∷ cs) ≡ 0
    → (d ≡ b',') ⊎ (d ≡ b'\n')
    → run (at_field fields) (c ∷ (cs ++ d ∷ rest)) ≡ after_field d (fields ++ (c ∷ cs) ∷ []) rest
run-plain c cs fields d rest plain front h =
    started (space_len-append c d cs rest (small h) ∙ front)
    ∙ run-bare cs (c ∷ []) fields d rest (unfold any_special in ground (arith, plain)) h
  where
    small : (d ≡ b',') ⊎ (d ≡ b'\n') → d < 128
    small (inl e) = omega arith
    small (inr e) = omega arith

    started :
        space_len (c ∷ (cs ++ d ∷ rest)) ≡ 0
        → run (at_field fields) (c ∷ (cs ++ d ∷ rest))
          ≡ run (in_bare (c ∷ []) fields) (cs ++ d ∷ rest)
    started e =
        unfold run step step_field step_text step_bare any_special in ground (arith, e, plain)

-- A field that has been written is read as itself.
run-write_field :
    (f : Str) (fields : List Str) (d : ℕ) (rest : Str)
    → (d ≡ b',') ⊎ (d ≡ b'\n')
    → run (at_field fields) (write_field f (d ∷ rest)) ≡ after_field d (fields ++ f ∷ []) rest
unfolding write_field
run-write_field f fields d rest h = elim (Bool-cases (needs_quotes f)) [
  | inl q ↦ rw q (opened ∙ run-quoted f [] fields d rest h)
  | inr n ↦ rw n (plain f n)
]
  where
    opened :
        run (at_field fields) (b'"' ∷ quoted_field f (d ∷ rest))
        ≡ run (in_quotes [] fields) (quoted_field f (d ∷ rest))
    opened = unfold run step step_field step_text space_len in refl

    plain :
        (f : Str)
        → needs_quotes f ≡ false
        → run (at_field fields) (f ++ d ∷ rest) ≡ after_field d (fields ++ f ∷ []) rest
    plain [] n = empty h
      where
        empty :
            (d ≡ b',') ⊎ (d ≡ b'\n')
            → run (at_field fields) (d ∷ rest) ≡ after_field d (fields ++ [] ∷ []) rest
        empty (inl e) =
            rw e (unfold run step step_field step_text step_bare space_len after_field in refl)
        empty (inr e) = rw e (unfold run step step_field after_field in refl)
    plain (c ∷ cs) n =
        run-plain c cs fields d rest (unfold needs_quotes in ground (arith, n))
          (unfold needs_quotes in ground (arith, n)) h

step_text-initial : (k c : ℕ) → step_text k initial c ≡ step_text k (at_field []) c
unfolding step_text step_bare
step_text-initial zero c = refl
step_text-initial (suc k) c = refl

step-initial :
    (c : ℕ) (cs : Str)
    → c ≢ b'\n'
    → step record_start initial c cs ≡ step field_start (at_field []) c cs
unfolding step step_field
step-initial c cs h = ground (arith, h, step_text-initial (space_len (c ∷ cs)) c)

-- The start of a record is the start of a field, unless the line is empty.
run-initial : (c : ℕ) (cs : Str) → c ≢ b'\n' → run initial (c ∷ cs) ≡ run (at_field []) (c ∷ cs)
unfolding run
run-initial c cs h = rw (step-initial c cs h, run) refl

run-begun :
    (text : Str)
    → ((c : ℕ) × (cs : Str) × (text ≡ c ∷ cs) × (c ≢ b'\n'))
    → run initial text ≡ run (at_field []) text
run-begun text (c, cs, e, h) = rw e (run-initial c cs h)

run-write_more :
    (fs : List Str) (fields : List Str) (f : Str) (rest : Str)
    → run (at_field fields) (write_field f (write_more fs rest))
      ≡ next (fields ++ f ∷ fs) (run initial rest)
unfolding write_more after_field
run-write_more [] fields f rest = run-write_field f fields b'\n' rest (inr refl)
run-write_more (g ∷ fs) fields f rest =
    run-write_field f fields b',' (write_field g (write_more fs rest)) (inl refl)
    ∙ run-write_more fs (fields ++ f ∷ []) g rest
    ∙ ap (λ r. next r (run initial rest)) (append_assoc fields (f ∷ []) (g ∷ fs))

-- A written field, with what follows it, does not begin an empty line.
write_field-start :
    (f rest : Str) (d : ℕ)
    → d ≢ b'\n'
    → (c : ℕ) × (cs : Str) × (write_field f (d ∷ rest) ≡ c ∷ cs) × (c ≢ b'\n')
unfolding write_field needs_quotes
write_field-start [] rest d h = (d, rest, refl, h)
write_field-start (c ∷ cs) rest d h = elim (Bool-cases (needs_quotes (c ∷ cs))) [
  | inl q ↦ (b'"', quoted_field (c ∷ cs) (d ∷ rest), rw q refl, λ e. cc)
  | inr n ↦ (c, cs ++ d ∷ rest, rw n refl, unfold any_special in λ e. ground (arith, n, e))
]

-- The rest of a file, behind a record of two or more fields.
run-write_record :
    (f g : Str) (fs : List Str) (rest : Str)
    → run initial (write_record (f ∷ g ∷ fs) rest) ≡ next (f ∷ g ∷ fs) (run initial rest)
unfolding write_record
run-write_record f g fs rest =
    ap (run initial) opened
    ∙ run-begun (write_field f (b',' ∷ write_field g (write_more fs rest)))
        (write_field-start f (write_field g (write_more fs rest)) b',' (λ e. cc))
    ∙ ap (run (at_field [])) (sym opened)
    ∙ run-write_more (g ∷ fs) [] f rest
  where
    opened :
        write_field f (write_more (g ∷ fs) rest)
        ≡ write_field f (b',' ∷ write_field g (write_more fs rest))
    opened = unfold write_more in refl

-- Two or more fields.
abbrev pub IsWide : List Str → Type 0
IsWide [] = ⊥
IsWide (f ∷ []) = ⊥
IsWide (f ∷ g ∷ fs) = Unit

abbrev pub all_read : List (List Str) → Reads
all_read [] = eof
all_read (r ∷ rs) = next r (all_read rs)

pub run-write_records :
    (rs : List (List Str)) → All IsWide rs → run initial (write_records rs) ≡ all_read rs
unfolding write_records
run-write_records [] h = unfold run in refl
run-write_records ([] ∷ rs) h = absurd h.0
run-write_records ((f ∷ []) ∷ rs) h = absurd h.0
run-write_records ((f ∷ g ∷ fs) ∷ rs) h =
    run-write_record f g fs (write_records rs) ∙ ap (next (f ∷ g ∷ fs)) (run-write_records rs h.1)
