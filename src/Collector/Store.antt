-- ===== src/Collector/Store.antt =====
-- internal/collector/store.go: PersistBatch, one transaction that inserts telemetry rows. The
-- database that runs it, uuid.Parse and the quoting of an error text are parameters.
use my_queue.Base.{
  ℕ, suc, Option, none, some, List, [], ◌∷◌, ◌++◌, ℤ, Str, bytes, is_empty, Result, ok, err,
  if◌then◌else◌,
}

-- An instant is in nanoseconds; a float64 is given by its bits.
pub record TelemetryRow : Type 0 where
  pub uuid : Str
  pub msg_uuid : Str
  pub gpu_id : Str
  pub metric_name : Str
  pub timestamp : ℤ
  pub device : Str
  pub model_name : Str
  pub hostname : Str
  pub container : Str
  pub pod : Str
  pub namespace : Str
  pub value : ℕ
  pub labels_raw : Str

-- The arguments of the INSERT; `none` is NULL.
pub record Args : Type 0 where
  pub uuid : Option Str
  pub msg_uuid : Str
  pub gpu_id : Str
  pub metric_name : Str
  pub timestamp : ℤ
  pub device : Option Str
  pub model_name : Option Str
  pub hostname : Option Str
  pub container : Option Str
  pub pod : Option Str
  pub namespace : Option Str
  pub value : Option ℕ
  pub labels_raw : Option Str

-- What Scan of the one row of INSERT … RETURNING gives: the row, sql.ErrNoRows, or another error.
pub data Scan : Type 0 where
  inserted no_rows : Scan
  failed : Str → Scan

pub record Db : Type 1 where
  pub World : Type 0
  pub begin : World → Result (Unit {0}) × World
  pub prepare : World → Result (Unit {0}) × World
  pub insert : World → Args → Scan × World
  pub commit : World → Result (Unit {0}) × World
  pub rollback : World → World

pub record Texts : Type 0 where
  pub parse_uuid : Str → Result Str
  pub quote : Str → Str

abbrev pub null_str : Str → Option Str
null_str s = if is_empty s then none else some s

abbrev pub null_float : ℕ → Option ℕ
null_float f = some f

abbrev pub args_of : TelemetryRow → Str → Args
args_of row msg_uuid = record {
  uuid = null_str row.uuid;
  msg_uuid = msg_uuid;
  gpu_id = row.gpu_id;
  metric_name = row.metric_name;
  timestamp = row.timestamp;
  device = null_str row.device;
  model_name = null_str row.model_name;
  hostname = null_str row.hostname;
  container = null_str row.container;
  pod = null_str row.pod;
  namespace = null_str row.namespace;
  value = null_float row.value;
  labels_raw = null_str row.labels_raw;
}

abbrev pub count_inserted : Scan → ℕ → ℕ
count_inserted inserted n = suc n
count_inserted no_rows n = n
count_inserted (failed e) n = n

abbrev pub count_skipped : Scan → ℕ → ℕ
count_skipped inserted n = n
count_skipped no_rows n = suc n
count_skipped (failed e) n = n

-- The early return of the loop.
abbrev pub or_failure : {W : Type 0} → Scan → Str → W → Result (ℕ × ℕ) × W → Result (ℕ × ℕ) × W
or_failure inserted msg_uuid w rest = rest
or_failure no_rows msg_uuid w rest = rest
or_failure (failed e) msg_uuid w rest =
    (err (bytes "insert msg_uuid " ++ (msg_uuid ++ (bytes ": " ++ e))), w)

abbrev pub committed : Result (Unit {0}) → ℕ × ℕ → Result (ℕ × ℕ)
committed (ok u) counts = ok counts
committed (err e) counts = err (bytes "commit: " ++ e)

module _ (texts : Texts) (db : Db) where
  -- One round of the loop, and what comes after it.
  unfoldable pub insert_one :
      db.World
      → ℕ
      → ℕ
      → TelemetryRow
      → Result Str
      → (db.World → ℕ → ℕ → Result (ℕ × ℕ) × db.World)
      → Result (ℕ × ℕ) × db.World
  insert_one w persisted duplicates row (err e) next =
      (err (bytes "invalid msg_uuid " ++ (texts.quote row.msg_uuid ++ (bytes ": " ++ e))), w)
  insert_one w persisted duplicates row (ok u) next =
      let (scan, w') = db.insert w (args_of row u) in
      or_failure scan row.msg_uuid w'
        (next w' (count_inserted scan persisted) (count_skipped scan duplicates))

  -- The loop over the rows, with the two counters.
  unfoldable pub insert_all : db.World → ℕ → ℕ → List TelemetryRow → Result (ℕ × ℕ) × db.World
  insert_all w persisted duplicates [] = (ok (persisted, duplicates), w)
  insert_all w persisted duplicates (row ∷ rows) =
      insert_one w persisted duplicates row (texts.parse_uuid row.msg_uuid)
        (λ w' p d. insert_all w' p d rows)

  unfoldable pub commit_counts : db.World → Result (ℕ × ℕ) → Result (ℕ × ℕ) × db.World
  commit_counts w (err e) = (err e, w)
  commit_counts w (ok counts) = let (r, w') = db.commit w in (committed r counts, w')

  unfoldable pub prepared :
      db.World → List TelemetryRow → Result (Unit {0}) → Result (ℕ × ℕ) × db.World
  prepared w rows (err e) = (err (bytes "prepare: " ++ e), w)
  prepared w rows (ok u) = let (r, w') = insert_all w 0 0 rows in commit_counts w' r

  -- The body after a transaction has begun, and then the deferred Rollback.
  unfoldable pub in_transaction :
      db.World → List TelemetryRow → Result (Unit {0}) → Result (ℕ × ℕ) × db.World
  in_transaction w rows (err e) = (err (bytes "begin tx: " ++ e), w)
  in_transaction w rows (ok u) =
      let (r, w₁) = db.prepare w in
      let (counts, w₂) = prepared w₁ rows r in (counts, db.rollback w₂)

  unfoldable pub persist_batch : db.World → List TelemetryRow → Result (ℕ × ℕ) × db.World
  unfolding commit_counts prepared in_transaction
  persist_batch w rows = let (r, w') = db.begin w in in_transaction w' rows r
