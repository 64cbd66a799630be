-- ===== src/Gateway/Store.antt =====
-- internal/apigw/store.go and queries.go: the two queries of the telemetry table. The database that
-- runs them is a parameter.
use my_queue.Base.{
  ℕ, Option, none, some, List, [], ◌∷◌, ◌++◌, ℤ, Str, bytes, Result, ok, err, ◌>>=◌, wrap,
}

-- A pointer is an Option; a float64 is given by its bits, an instant in nanoseconds.
pub record TelemetryEntry : Type 0 where
  pub uuid : Str
  pub gpu_id : Str
  pub metric_name : Str
  pub timestamp : ℤ
  pub device : Option Str
  pub model_name : Option Str
  pub hostname : Option Str
  pub container : Option Str
  pub pod : Option Str
  pub namespace : Option Str
  pub value : Option ℕ
  pub labels_raw : Option Str
  pub ingested_at : ℤ

-- *sql.Rows: what Scan gives for each row that Next reaches, and what Err says afterwards.
pub record Cursor (A : Type 0) : Type 0 where
  pub scans : List (Result A)
  pub error : Option Str

pub record Db : Type 1 where
  pub World : Type 0
  pub query_gpus : World → Str → Result (Cursor Str) × World
  pub query_telemetry : World → Str → Str → ℤ → ℤ → Result (Cursor TelemetryEntry) × World

pub query_distinct_gpus : Str
query_distinct_gpus =
    bytes "SELECT DISTINCT uuid FROM telemetry WHERE uuid IS NOT NULL ORDER BY uuid"

-- Line breaks of the Go literal are written as spaces.
pub query_telemetry_by_gpu : Str
query_telemetry_by_gpu =
    bytes "SELECT uuid, gpu_id, metric_name, timestamp, device, model_name, "
    ++ (bytes "hostname, container, pod, namespace, value, labels_raw, ingested_at "
        ++ bytes
            "FROM telemetry WHERE uuid = $1 AND timestamp >= $2 AND timestamp <= $3 ORDER BY timestamp ASC")

-- The loop over the rows, with the name of the error of a failed Scan.
unfoldable pub scan_all : {A : Type 0} → Str → List A → List (Result A) → Result (List A)
scan_all what done [] = ok done
scan_all what done (ok a ∷ rest) = scan_all what (done ++ a ∷ []) rest
scan_all what done (err e ∷ rest) = err (what ++ e)

abbrev pub rows_err : {A : Type 0} → Option Str → List A → Result (List A)
rows_err none done = ok done
rows_err (some e) done = err e

-- What the store makes of the answer to a query.
unfoldable pub collect : {A : Type 0} → Str → Str → Result (Cursor A) → Result (List A)
collect query_error scan_error r = do
  rows ← wrap query_error r
  done ← scan_all scan_error [] rows.scans
  rows_err rows.error done

module _ (db : Db) where
  unfoldable pub list_gpus : db.World → Result (List Str) × db.World
  list_gpus w =
      let (r, w') = db.query_gpus w query_distinct_gpus in
      (collect (bytes "list gpus: ") (bytes "scan gpu_id: ") r, w')

  unfoldable pub get_telemetry : db.World → Str → ℤ → ℤ → Result (List TelemetryEntry) × db.World
  get_telemetry w gpu_id start end =
      let (r, w') = db.query_telemetry w query_telemetry_by_gpu gpu_id start end in
      (collect (bytes "get telemetry: ") (bytes "scan telemetry: ") r, w')
