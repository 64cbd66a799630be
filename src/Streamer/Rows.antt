-- ===== src/Streamer/Rows.antt =====
-- internal/streamer/csv.go: the rows of a file, and how a record gives a row. The formatting and
-- parsing of instants and floats (packages time and strconv) are parameters.
use my_queue.Base.{
  ℕ, ◌+◌, zero, suc, Bool, ◌&&◌, List, [], ◌∷◌, ◌++◌, map, ℤ, negsuc, leb_ℤ, Str, bytes, Result, ok,
  err, length, ltb, if◌then◌else◌,
}
use my_queue.Streamer.Spaces.{trim_space}
use my_queue.Streamer.CsvReader.{CsvError, Reads, eof, failed, next, read_records}
use my_queue.Streamer.CsvWriter.{write_records}

-- An instant is in nanoseconds since 1970 in UTC; a float64 is given by its bits.
pub record TelemetryRow : Type 0 where
  pub timestamp : ℤ
  pub metric_name : Str
  pub gpu_id : Str
  pub device : Str
  pub uuid : Str
  pub model_name : Str
  pub hostname : Str
  pub container : Str
  pub pod : Str
  pub namespace : Str
  pub value : ℕ
  pub labels_raw : Str

-- time.Time{}, the first instant of the year 1.
abbrev pub zero_time : ℤ
zero_time = negsuc 62135596799999999999

abbrev pub is_zero : ℤ → Bool
is_zero t = leb_ℤ t zero_time && leb_ℤ zero_time t

-- The parsers give a value beside an error, too.
pub record Codec : Type 0 where
  pub format_time : ℤ → Str
  pub parse_time : Str → ℤ
  pub format_float : ℕ → Str
  pub parse_float : Str → ℕ

abbrev pub csv_header : List Str
csv_header =
    bytes "timestamp"
    ∷ bytes "metric_name"
    ∷ bytes "gpu_id"
    ∷ bytes "device"
    ∷ bytes "uuid"
    ∷ bytes "model_name"
    ∷ bytes "hostname"
    ∷ bytes "container"
    ∷ bytes "pod"
    ∷ bytes "namespace"
    ∷ bytes "value"
    ∷ bytes "labels_raw"
    ∷ []

pub data ReadError : Type 0 where
  open_failed : Str → ReadError
  no_header : ReadError
  bad_header : CsvError → ReadError
  bad_line : ℕ → CsvError → ReadError
  short_line : ℕ → ℕ → ReadError
  no_rows : ReadError

pub data ReadResult : Type 0 where
  loaded : List TelemetryRow → ReadResult
  refused : ReadError → ReadResult

-- record[i]
abbrev pub at_index : ℕ → List Str → Str
at_index i [] = []
at_index zero (f ∷ fs) = f
at_index (suc i) (f ∷ fs) = at_index i fs

abbrev pub some_rows : List TelemetryRow → ReadResult
some_rows [] = refused no_rows
some_rows (r ∷ rs) = loaded (r ∷ rs)

module _ (codec : Codec) where
  abbrev pub row_of : List Str → TelemetryRow
  row_of fields = record {
    timestamp = codec.parse_time (trim_space (at_index 0 fields));
    metric_name = trim_space (at_index 1 fields);
    gpu_id = trim_space (at_index 2 fields);
    device = trim_space (at_index 3 fields);
    uuid = trim_space (at_index 4 fields);
    model_name = trim_space (at_index 5 fields);
    hostname = trim_space (at_index 6 fields);
    container = trim_space (at_index 7 fields);
    pod = trim_space (at_index 8 fields);
    namespace = trim_space (at_index 9 fields);
    value = codec.parse_float (trim_space (at_index 10 fields));
    labels_raw = trim_space (at_index 11 fields);
  }

  -- The loop over the records from line `line` on, with the rows so far.
  unfoldable pub read_rows : ℕ → List TelemetryRow → Reads → ReadResult
  read_rows line rows eof = some_rows rows
  read_rows line rows (failed e) = refused (bad_line line e)
  read_rows line rows (next fields rest) =
      let more = read_rows (line + 1) (rows ++ row_of fields ∷ []) rest in
      if ltb (length fields) 12 then refused (short_line line (length fields)) else more

  -- The header is read and dropped.
  unfoldable pub after_header : Reads → ReadResult
  after_header eof = refused no_header
  after_header (failed e) = refused (bad_header e)
  after_header (next fields rest) = read_rows 2 [] rest

  -- The text of the file, or the error of opening it.
  unfoldable pub read_csv : Result Str → ReadResult
  read_csv (err e) = refused (open_failed e)
  read_csv (ok text) = after_header (read_records text)

  abbrev pub record_of : TelemetryRow → List Str
  record_of row =
      (if is_zero row.timestamp then [] else codec.format_time row.timestamp)
      ∷ row.metric_name
      ∷ row.gpu_id
      ∷ row.device
      ∷ row.uuid
      ∷ row.model_name
      ∷ row.hostname
      ∷ row.container
      ∷ row.pod
      ∷ row.namespace
      ∷ codec.format_float row.value
      ∷ row.labels_raw
      ∷ []

  -- What WriteCSV writes, from the header on.
  unfoldable pub csv_text : List TelemetryRow → Str
  csv_text rows = write_records (csv_header ∷ map record_of rows)
