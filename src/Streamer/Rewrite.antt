-- ===== src/Streamer/Rewrite.antt =====
-- WriteCSV replaces a file as a whole, or leaves it.
use mathlib.Core.List.{append_assoc, append-nil}
use my_queue.Base.{
  ◌≡◌, ◌≢◌, refl, sym, ap, ◌∙◌, List, [], ◌∷◌, ◌++◌, map, arith, Option, some, Str, bytes, Result,
  ok, err, length, length-append,
}
use my_queue.Streamer.CsvWriter.{quoted_field, write_field, write_more, write_record, write_records}
use my_queue.Streamer.Rows.{TelemetryRow, Codec, csv_header, record_of, csv_text}
use my_queue.Streamer.File.{
  Fs, tmp_of, or_abandon, close_and_rename, flush_file, write_rows, write_header, created,
  write_csv,
}

-- What the operating system documents of files: `content` is what a file holds, with what is
-- buffered for it. An operation on one file leaves the others alone; a rename replaces its target at
-- once, or fails and leaves it.
pub record FsLaws (fs : Fs) : Type 0 where
  pub content : fs.World → Str → Option Str
  pub create-other : (w : fs.World) (p q : Str) → q ≢ p → content (fs.create w p).1 q ≡ content w q
  pub create-ok :
      (w : fs.World) (p : Str) (u : Unit {0})
      → (fs.create w p).0 ≡ ok u
      → content (fs.create w p).1 p ≡ some []
  pub append-other :
      (w : fs.World) (p b q : Str) → q ≢ p → content (fs.append w p b).1 q ≡ content w q
  pub append-ok :
      (w : fs.World) (p b s : Str) (u : Unit {0})
      → content w p ≡ some s
      → (fs.append w p b).0 ≡ ok u
      → content (fs.append w p b).1 p ≡ some (s ++ b)
  pub flush-other : (w : fs.World) (p q : Str) → q ≢ p → content (fs.flush w p).1 q ≡ content w q
  pub flush-ok :
      (w : fs.World) (p : Str) (u : Unit {0})
      → (fs.flush w p).0 ≡ ok u
      → content (fs.flush w p).1 p ≡ content w p
  pub close-other : (w : fs.World) (p q : Str) → q ≢ p → content (fs.close w p).1 q ≡ content w q
  pub close-ok :
      (w : fs.World) (p : Str) (u : Unit {0})
      → (fs.close w p).0 ≡ ok u
      → content (fs.close w p).1 p ≡ content w p
  pub remove-other : (w : fs.World) (p q : Str) → q ≢ p → content (fs.remove w p) q ≡ content w q
  pub rename-ok :
      (w : fs.World) (p q : Str) (u : Unit {0})
      → (fs.rename w p q).0 ≡ ok u
      → content (fs.rename w p q).1 q ≡ content w p
  pub rename-err :
      (w : fs.World) (p q e : Str)
      → (fs.rename w p q).0 ≡ err e
      → content (fs.rename w p q).1 q ≡ content w q

quoted_field-append :
    (s rest more : Str) → quoted_field s (rest ++ more) ≡ quoted_field s rest ++ more
unfolding quoted_field
quoted_field-append [] rest more = refl
quoted_field-append (c ∷ cs) rest more = ground (arith, quoted_field-append cs rest more)

write_field-append : (f rest more : Str) → write_field f (rest ++ more) ≡ write_field f rest ++ more
unfolding write_field
write_field-append f rest more =
    ground (arith, quoted_field-append f rest more, append_assoc f rest more)

write_more-append :
    (fs : List Str) (rest more : Str) → write_more fs (rest ++ more) ≡ write_more fs rest ++ more
unfolding write_more
write_more-append [] rest more = refl
write_more-append (f ∷ fs) rest more = ap (◌∷◌ b',') (
    ap (write_field f) (write_more-append fs rest more)
    ∙ write_field-append f (write_more fs rest) more)

write_record-append :
    (fs : List Str) (more : Str) → write_record fs more ≡ write_record fs [] ++ more
unfolding write_record
write_record-append [] more = refl
write_record-append (f ∷ fs) more =
    ap (write_field f) (write_more-append fs [] more) ∙ write_field-append f (write_more fs []) more

longer :
    (done : Str) (fs : List Str) (more : Str)
    → done ++ write_record fs more ≡ (done ++ write_record fs []) ++ more
longer done fs more =
    ap (◌++◌ done) (write_record-append fs more) ∙ sym (append_assoc done (write_record fs []) more)

tmp_of-ne : (path : Str) → path ≢ tmp_of path
tmp_of-ne path e = omega (arith, ap (λ (s : Str). length s) e, length-append path (bytes ".tmp"))

module _ (fs : Fs) (laws : FsLaws fs) (codec : Codec) where
  open laws use {
    content, create-other, create-ok, append-other, append-ok, flush-other, flush-ok, close-other,
    close-ok, remove-other, rename-ok, rename-err,
  }

  -- A file is replaced by a text, or left.
  abbrev pub IsReplaced : Str → Option Str → Str → Result (Unit {0}) × fs.World → Type 0
  IsReplaced path before text (ok u, w) = content w path ≡ some text
  IsReplaced path before text (err e, w) = content w path ≡ before

  module _ (path tmp : Str) (before : Option Str) (apart : path ≢ tmp) where
    or_abandon-IsReplaced :
        (r : Result (Unit {0})) (prefix text : Str) (w : fs.World)
        (rest : Result (Unit {0}) × fs.World)
        → content w path ≡ before
        → ((u : Unit {0}) → r ≡ ok u → IsReplaced path before text rest)
        → IsReplaced path before text (or_abandon fs r prefix w tmp rest)
    or_abandon-IsReplaced (ok u) prefix text w rest kept h = h u refl
    or_abandon-IsReplaced (err e) prefix text w rest kept h =
        remove-other (fs.close w tmp).1 tmp path apart ∙ close-other w tmp path apart ∙ kept

    close-IsReplaced :
        (w : fs.World) (text : Str) (r : Result (Unit {0}))
        → content w path ≡ before
        → ((u : Unit {0}) → r ≡ ok u → content w tmp ≡ some text)
        → IsReplaced path before text (close_and_rename fs w path tmp r)
    unfolding close_and_rename
    close-IsReplaced w text (err e) kept h = remove-other w tmp path apart ∙ kept
    close-IsReplaced w text (ok u) kept h = renamed (fs.rename w tmp path).0 refl
      where
        renamed :
            (r : Result (Unit {0}))
            → (fs.rename w tmp path).0 ≡ r
            → IsReplaced path before text (r, (fs.rename w tmp path).1)
        renamed (ok v) x = rename-ok w tmp path v x ∙ h u refl
        renamed (err e) x = rename-err w tmp path e x ∙ kept

    flush-IsReplaced :
        (w : fs.World) (text : Str)
        → content w path ≡ before
        → content w tmp ≡ some text
        → IsReplaced path before text (flush_file fs w path tmp)
    unfolding flush_file
    flush-IsReplaced w text kept written =
        or_abandon-IsReplaced (fs.flush w tmp).0 (bytes "csv flush: ") text w₁ _ same (λ u e.
          close-IsReplaced (fs.close w₁ tmp).1 text (fs.close w₁ tmp).0
            (close-other w₁ tmp path apart ∙ same)
            (λ v x. close-ok w₁ tmp v x ∙ flush-ok w tmp u e ∙ written))
      where
        w₁ : fs.World
        w₁ = (fs.flush w tmp).1

        same : content w₁ path ≡ before
        same = flush-other w tmp path apart ∙ kept

    write_rows-IsReplaced :
        (w : fs.World) (done : Str) (rows : List TelemetryRow)
        → content w path ≡ before
        → content w tmp ≡ some done
        → IsReplaced path before
            (done ++ write_records (map (record_of codec) rows))
            (write_rows fs codec w path tmp rows)
    unfolding write_rows write_records
    write_rows-IsReplaced w done [] kept written =
        flush-IsReplaced w (done ++ []) kept (written ∙ ap some (sym (append-nil done)))
    write_rows-IsReplaced w done (row ∷ rows) kept written =
        rw (longer done (record_of codec row) (write_records (map (record_of codec) rows))) (
          or_abandon-IsReplaced (fs.append w tmp (write_record (record_of codec row) [])).0
            (bytes "write row: ") _ (fs.append w tmp (write_record (record_of codec row) [])).1 _
            (append-other w tmp _ path apart ∙ kept)
            (λ u e.
              write_rows-IsReplaced (fs.append w tmp (write_record (record_of codec row) [])).1
                (done ++ write_record (record_of codec row) []) rows
                (append-other w tmp _ path apart ∙ kept) (append-ok w tmp _ done u written e)))

    write_header-IsReplaced :
        (w : fs.World) (rows : List TelemetryRow)
        → content w path ≡ before
        → content w tmp ≡ some []
        → IsReplaced path before (csv_text codec rows) (write_header fs codec w path tmp rows)
    unfolding write_header csv_text write_records
    write_header-IsReplaced w rows kept written =
        rw (write_record-append csv_header (write_records (map (record_of codec) rows))) (
          or_abandon-IsReplaced (fs.append w tmp (write_record csv_header [])).0
            (bytes "write header: ") _ (fs.append w tmp (write_record csv_header [])).1 _
            (append-other w tmp _ path apart ∙ kept)
            (λ u e.
              write_rows-IsReplaced (fs.append w tmp (write_record csv_header [])).1
                (write_record csv_header []) rows (append-other w tmp _ path apart ∙ kept)
                (append-ok w tmp _ [] u written e)))

    created-IsReplaced :
        (w : fs.World) (rows : List TelemetryRow) (r : Result (Unit {0}))
        → content w path ≡ before
        → ((u : Unit {0}) → r ≡ ok u → content w tmp ≡ some [])
        → IsReplaced path before (csv_text codec rows) (created fs codec w path tmp rows r)
    created-IsReplaced w rows (err e) kept h = kept
    created-IsReplaced w rows (ok u) kept h = write_header-IsReplaced w rows kept (h u refl)

  -- WriteCSV replaces a file as a whole or not at all, whichever operation fails: if it succeeds, the
  -- file holds the header and all rows; if it fails, the file is as it was.
  pub write_csv-IsReplaced :
      (w : fs.World) (path : Str) (rows : List TelemetryRow)
      → IsReplaced path (content w path) (csv_text codec rows) (write_csv fs codec w path rows)
  unfolding write_csv
  write_csv-IsReplaced w path rows =
      created-IsReplaced path (tmp_of path) (content w path) (tmp_of-ne path)
        (fs.create w (tmp_of path)).1 rows (fs.create w (tmp_of path)).0
        (create-other w (tmp_of path) path (tmp_of-ne path)) (λ u e. create-ok w (tmp_of path) u e)
