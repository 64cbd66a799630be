-- ===== src/Streamer/RoundTrip.antt =====
-- ReadCSV reads back what WriteCSV writes.
use mathlib.Core.List.{append_assoc, append-nil}
use my_queue.Base.{
  ℕ, ◌+◌, ◌%◌, ◌/◌, ◌<◌, ◌≡◌, ◌≢◌, refl, sym, ap, ◌∙◌, true, List, [], ◌∷◌, ◌++◌, map, arith, ℤ,
  pos, negsuc, ◌≤ℤ◌, ◌<ℤ◌, Str, ok, Bool-cases, inl, inr, All, if◌then◌else◌,
}
use my_queue.Streamer.Spaces.{IsTrimmed, trim_space-IsTrimmed, space_len, space_len_back}
use my_queue.Streamer.CsvRoundTrip.{IsWide, all_read}
use my_queue.Streamer.CsvBreaks.{LacksCr, read_records-write_records}
use my_queue.Streamer.Rows.{
  TelemetryRow, zero_time, is_zero, Codec, csv_header, loaded, some_rows, row_of, read_rows,
  after_header, read_csv, record_of, csv_text,
}

-- A text that no reader trims or normalises.
abbrev pub IsPlain : Str → Type 0
IsPlain s = IsTrimmed s × LacksCr s

-- The instants whose year has four digits, and the floats that are numbers.
abbrev pub InYears : ℤ → Type 0
InYears t = (negsuc 62167219199999999999 ≤ℤ t) × (t <ℤ pos 253402300800000000000)

abbrev pub IsFinite : ℕ → Type 0
IsFinite n = (n < 18446744073709551616) × ((n / 4503599627370496) % 2048 ≢ 2047)

-- What the packages time and strconv document: an instant printed as RFC 3339 with nanoseconds, and
-- a number printed with as many digits as it needs, are parsed as themselves; the empty text is no
-- instant. The numerals hold no white space and no carriage return.
pub record CodecLaws (codec : Codec) : Type 0 where
  pub parse_time-nil : codec.parse_time [] ≡ zero_time
  pub parse-format_time : (t : ℤ) → InYears t → codec.parse_time (codec.format_time t) ≡ t
  pub format_time-IsPlain : (t : ℤ) → InYears t → IsPlain (codec.format_time t)
  pub parse-format_float : (n : ℕ) → IsFinite n → codec.parse_float (codec.format_float n) ≡ n
  pub format_float-IsPlain : (n : ℕ) → IsFinite n → IsPlain (codec.format_float n)

-- The rows that a file can hold: what a row loses in a file, it does not have.
pub record IsStorable (row : TelemetryRow) : Type 0 where
  pub timestamp : InYears row.timestamp
  pub metric_name : IsPlain row.metric_name
  pub gpu_id : IsPlain row.gpu_id
  pub device : IsPlain row.device
  pub uuid : IsPlain row.uuid
  pub model_name : IsPlain row.model_name
  pub hostname : IsPlain row.hostname
  pub container : IsPlain row.container
  pub pod : IsPlain row.pod
  pub namespace : IsPlain row.namespace
  pub value : IsFinite row.value
  pub labels_raw : IsPlain row.labels_raw

is_zero-eq : (t : ℤ) → is_zero t ≡ true → zero_time ≡ t
is_zero-eq (pos n) h = absurd (ground arith)
is_zero-eq (negsuc n) h = ap negsuc (ground arith)

module _ (codec : Codec) (laws : CodecLaws codec) where
  open laws use {
    parse_time-nil, parse-format_time, format_time-IsPlain, parse-format_float,
    format_float-IsPlain,
  }

  -- The first field.
  abbrev time_text : ℤ → Str
  time_text t = if is_zero t then [] else codec.format_time t

  time_text-IsPlain : (t : ℤ) → InYears t → IsPlain (time_text t)
  time_text-IsPlain t h = elim (Bool-cases (is_zero t)) [
    | inl e ↦ rw e ((unfold space_len in refl, unfold space_len_back in refl), tt)
    | inr e ↦ rw e (format_time-IsPlain t h)
  ]

  parse-time_text : (t : ℤ) → InYears t → codec.parse_time (time_text t) ≡ t
  parse-time_text t h = elim (Bool-cases (is_zero t)) [
    | inl e ↦ rw e (parse_time-nil ∙ is_zero-eq t e)
    | inr e ↦ rw e (parse-format_time t h)
  ]

  row_of-record_of :
      (row : TelemetryRow) → IsStorable row → row_of codec (record_of codec row) ≡ row
  row_of-record_of row h = λ i. record {
    timestamp =
        (ap codec.parse_time
              (trim_space-IsTrimmed _ (time_text-IsPlain row.timestamp h.timestamp).0)
            ∙ parse-time_text row.timestamp h.timestamp)
          i;
    metric_name = trim_space-IsTrimmed row.metric_name h.metric_name.0 i;
    gpu_id = trim_space-IsTrimmed row.gpu_id h.gpu_id.0 i;
    device = trim_space-IsTrimmed row.device h.device.0 i;
    uuid = trim_space-IsTrimmed row.uuid h.uuid.0 i;
    model_name = trim_space-IsTrimmed row.model_name h.model_name.0 i;
    hostname = trim_space-IsTrimmed row.hostname h.hostname.0 i;
    container = trim_space-IsTrimmed row.container h.container.0 i;
    pod = trim_space-IsTrimmed row.pod h.pod.0 i;
    namespace = trim_space-IsTrimmed row.namespace h.namespace.0 i;
    value =
        (ap codec.parse_float (trim_space-IsTrimmed _ (format_float-IsPlain row.value h.value).0)
            ∙ parse-format_float row.value h.value)
          i;
    labels_raw = trim_space-IsTrimmed row.labels_raw h.labels_raw.0 i;
  }

  record_of-LacksCr : (row : TelemetryRow) → IsStorable row → All LacksCr (record_of codec row)
  record_of-LacksCr row h = (
    (time_text-IsPlain row.timestamp h.timestamp).1,
    (
      h.metric_name.1,
      (
        h.gpu_id.1,
        (
          h.device.1,
          (
            h.uuid.1,
            (
              h.model_name.1,
              (
                h.hostname.1,
                (
                  h.container.1,
                  (
                    h.pod.1,
                    (
                      h.namespace.1,
                      ((format_float-IsPlain row.value h.value).1, (h.labels_raw.1, tt)),
                    ),
                  ),
                ),
              ),
            ),
          ),
        ),
      ),
    ),
  )

  records-LacksCr :
      (rows : List TelemetryRow)
      → All IsStorable rows
      → All (All LacksCr) (map (record_of codec) rows)
  records-LacksCr [] h = tt
  records-LacksCr (row ∷ rows) h = (record_of-LacksCr row h.0, records-LacksCr rows h.1)

  records-IsWide : (rows : List TelemetryRow) → All IsWide (map (record_of codec) rows)
  records-IsWide [] = tt
  records-IsWide (row ∷ rows) = (tt, records-IsWide rows)

  read_rows-records :
      (line : ℕ) (done rows : List TelemetryRow)
      → All IsStorable rows
      → read_rows codec line done (all_read (map (record_of codec) rows)) ≡ some_rows (done ++ rows)
  unfolding read_rows
  read_rows-records line done [] h = ap some_rows (sym (append-nil done))
  read_rows-records line done (row ∷ rows) h =
      read_rows-records (line + 1) (done ++ row_of codec (record_of codec row) ∷ []) rows h.1
      ∙ ap some_rows (append_assoc done (row_of codec (record_of codec row) ∷ []) rows)
      ∙ ap (λ r. some_rows (done ++ r ∷ rows)) (row_of-record_of row h.0)

  -- ReadCSV, on a file that holds what WriteCSV wrote of at least one row, gives the same rows, if
  -- each is storable: its instant lies in the years 0 to 9999, its value is a number, and its texts
  -- hold no carriage return and neither begin nor end with white space. They may hold anything else,
  -- commas, quotation marks and line feeds included.
  pub read_csv-csv_text :
      (row : TelemetryRow) (rows : List TelemetryRow)
      → All IsStorable (row ∷ rows)
      → read_csv codec (ok (csv_text codec (row ∷ rows))) ≡ loaded (row ∷ rows)
  unfolding read_csv csv_text after_header
  read_csv-csv_text row rows h =
      ap (after_header codec) (
        read_records-write_records (csv_header ∷ map (record_of codec) (row ∷ rows))
          (tt, records-IsWide (row ∷ rows)) (omega arith, records-LacksCr (row ∷ rows) h))
      ∙ read_rows-records 2 [] (row ∷ rows) h
