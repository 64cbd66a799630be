-- ===== src/Streamer/Written.antt =====
-- WriteCSV writes, unless an operation of the file system fails.
use my_queue.Base.{◌≡◌, some, List, [], ◌∷◌, Str, Result, ok, err}
use my_queue.Streamer.CsvWriter.{write_record}
use my_queue.Streamer.Rows.{TelemetryRow, Codec, csv_header, record_of, csv_text}
use my_queue.Streamer.File.{
  Fs, tmp_of, close_and_rename, flush_file, write_rows, write_header, write_csv,
}
use my_queue.Streamer.Rewrite.{FsLaws, IsReplaced, write_csv-IsReplaced}

-- No operation fails: the directory is writable, and there is space.
pub record IsWritable (fs : Fs) : Type 0 where
  pub creates : (w : fs.World) (p : Str) → (fs.create w p).0 ≡ ok tt
  pub appends : (w : fs.World) (p b : Str) → (fs.append w p b).0 ≡ ok tt
  pub flushes : (w : fs.World) (p : Str) → (fs.flush w p).0 ≡ ok tt
  pub closes : (w : fs.World) (p : Str) → (fs.close w p).0 ≡ ok tt
  pub renames : (w : fs.World) (p q : Str) → (fs.rename w p q).0 ≡ ok tt

module _ (fs : Fs) (laws : FsLaws fs) (codec : Codec) (works : IsWritable fs) where
  open laws use {content}
  open works use {creates, appends, flushes, closes, renames}

  flush_file-ok : (w : fs.World) (path tmp : Str) → (flush_file fs w path tmp).0 ≡ ok tt
  unfolding flush_file close_and_rename
  flush_file-ok w path tmp = rw (flushes w tmp, closes (fs.flush w tmp).1 tmp) (renames _ tmp path)

  write_rows-ok :
      (w : fs.World) (path tmp : Str) (rows : List TelemetryRow)
      → (write_rows fs codec w path tmp rows).0 ≡ ok tt
  unfolding write_rows
  write_rows-ok w path tmp [] = flush_file-ok w path tmp
  write_rows-ok w path tmp (row ∷ rows) =
      let next =
        write_rows-ok (fs.append w tmp (write_record (record_of codec row) [])).1 path tmp rows in
      rw (appends w tmp (write_record (record_of codec row) [])) next

  write_csv-ok :
      (w : fs.World) (path : Str) (rows : List TelemetryRow)
      → (write_csv fs codec w path rows).0 ≡ ok tt
  unfolding write_csv write_header
  write_csv-ok w path rows =
      rw
        (
          creates w (tmp_of path),
          appends (fs.create w (tmp_of path)).1 (tmp_of path) (write_record csv_header []),
        )
        (write_rows-ok _ path (tmp_of path) rows)

  -- If no operation of the file system fails, WriteCSV succeeds, and the file holds the header and all
  -- rows.
  pub write_csv_writes :
      (w : fs.World) (path : Str) (rows : List TelemetryRow)
      → let t = write_csv fs codec w path rows in
        (t.0 ≡ ok tt) × (content t.1 path ≡ some (csv_text codec rows))
  write_csv_writes w path rows = (
    write_csv-ok w path rows,
    replaced _ (write_csv-ok w path rows) (write_csv-IsReplaced fs laws codec w path rows),
  )
    where
      replaced :
          (t : Result (Unit {0}) × fs.World)
          → t.0 ≡ ok tt
          → IsReplaced fs laws codec path (content w path) (csv_text codec rows) t
          → content t.1 path ≡ some (csv_text codec rows)
      replaced (ok u, w') e h = h
      replaced (err x, w') e h = cc
