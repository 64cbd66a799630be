-- ===== src/Streamer/File.antt =====
-- WriteCSV of internal/streamer/csv.go: a file is written beside the old one, and then renamed over it.
-- The file system is a parameter; an `append` is one Write of the csv.Writer into its buffer.
use my_queue.Base.{List, [], ◌∷◌, ◌++◌, Str, bytes, Result, ok, err}
use my_queue.Streamer.CsvWriter.{write_record}
use my_queue.Streamer.Rows.{TelemetryRow, Codec, csv_header, record_of}

pub record Fs : Type 1 where
  pub World : Type 0
  pub create : World → Str → Result (Unit {0}) × World
  pub append : World → Str → Str → Result (Unit {0}) × World
  pub flush : World → Str → Result (Unit {0}) × World
  pub close : World → Str → Result (Unit {0}) × World
  pub remove : World → Str → World
  pub rename : World → Str → Str → Result (Unit {0}) × World

abbrev pub tmp_of : Str → Str
tmp_of path = path ++ bytes ".tmp"

module _ (fs : Fs) where
  -- The early return after a failed write: the file is closed and removed.
  abbrev pub or_abandon :
      Result (Unit {0})
      → Str
      → fs.World
      → Str
      → Result (Unit {0}) × fs.World
      → Result (Unit {0}) × fs.World
  or_abandon (err e) prefix w tmp rest = (err (prefix ++ e), fs.remove (fs.close w tmp).1 tmp)
  or_abandon (ok u) prefix w tmp rest = rest

  unfoldable pub close_and_rename :
      fs.World → Str → Str → Result (Unit {0}) → Result (Unit {0}) × fs.World
  close_and_rename w path tmp (err e) = (err (bytes "close temp csv: " ++ e), fs.remove w tmp)
  close_and_rename w path tmp (ok u) = fs.rename w tmp path

  unfoldable pub flush_file : fs.World → Str → Str → Result (Unit {0}) × fs.World
  unfolding close_and_rename
  flush_file w path tmp =
      let (r, w₁) = fs.flush w tmp in
      let (c, w₂) = fs.close w₁ tmp in
      or_abandon r (bytes "csv flush: ") w₁ tmp (close_and_rename w₂ path tmp c)

  module _ (codec : Codec) where
    -- The loop over the rows, and what follows it.
    unfoldable pub write_rows :
        fs.World → Str → Str → List TelemetryRow → Result (Unit {0}) × fs.World
    write_rows w path tmp [] = flush_file w path tmp
    write_rows w path tmp (row ∷ rows) =
        let (r, w') = fs.append w tmp (write_record (record_of codec row) []) in
        or_abandon r (bytes "write row: ") w' tmp (write_rows w' path tmp rows)

    unfoldable pub write_header :
        fs.World → Str → Str → List TelemetryRow → Result (Unit {0}) × fs.World
    write_header w path tmp rows =
        let (r, w') = fs.append w tmp (write_record csv_header []) in
        or_abandon r (bytes "write header: ") w' tmp (write_rows w' path tmp rows)

    abbrev pub created :
        fs.World → Str → Str → List TelemetryRow → Result (Unit {0}) → Result (Unit {0}) × fs.World
    created w path tmp rows (err e) = (err (bytes "create temp csv: " ++ e), w)
    created w path tmp rows (ok u) = write_header w path tmp rows

    unfoldable pub write_csv : fs.World → Str → List TelemetryRow → Result (Unit {0}) × fs.World
    write_csv w path rows =
        let (r, w') = fs.create w (tmp_of path) in created w' path (tmp_of path) rows r
