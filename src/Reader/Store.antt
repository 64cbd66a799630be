-- ===== src/Reader/Store.antt =====
-- internal/mqreader/store.go and queries.go: the reader's two statements. The database that runs
-- them is a parameter.
use my_queue.Base.{
  ℕ, zero, suc, ◌+◌, Option, none, some, List, [], ◌∷◌, ◌++◌, map, ℤ, Str, bytes, decimal, Result,
  ok, err, ◌>>=◌, wrap, length,
}

pub record BufMsg : Type 0 where
  pub id : ℕ  -- a BIGSERIAL: positive, and only ever compared
  pub topic : Str
  pub msg_uuid : Str
  pub payload : Str

abbrev pub ids_of : List BufMsg → List ℕ
ids_of = map (λ m. m.id)

-- *sql.Rows: what Scan gives for each row that Next reaches, and what Err says afterwards.
pub record Cursor : Type 0 where
  pub scans : List (Result BufMsg)
  pub error : Option Str

-- *sql.DB. `World` is the database with all that may befall the connection to it.
pub record Db : Type 1 where
  pub World : Type 0
  pub query : World → Str → ℤ → ℤ → ℤ → Result Cursor × World
  pub exec : World → Str → List ℕ → Result (Result ℕ) × World

-- Line breaks of the Go literal are written as spaces.
pub query_fetch_batch : Str
query_fetch_batch =
    bytes "SELECT id, topic, msg_uuid, payload FROM queue_messages "
    ++ bytes "WHERE partition_key BETWEEN $1 AND $2 ORDER BY id LIMIT $3"

unfoldable pub scan_rows : List BufMsg → List (Result BufMsg) → Result (List BufMsg)
scan_rows msgs [] = ok msgs
scan_rows msgs (ok m ∷ rest) = scan_rows (msgs ++ m ∷ []) rest
scan_rows msgs (err e ∷ rest) = err (bytes "scan: " ++ e)

abbrev pub rows_err : Option Str → List BufMsg → Result (List BufMsg)
rows_err none msgs = ok msgs
rows_err (some e) msgs = err (bytes "rows: " ++ e)

-- "$1, $2, …": `n` placeholders, the first with number `i`.
placeholders : ℕ → ℕ → Str
placeholders zero i = []
placeholders (suc zero) i = b'$' ∷ decimal i
placeholders (suc (suc n)) i = b'$' ∷ (decimal i ++ (bytes ", " ++ placeholders (suc n) (i + 1)))

pub query_delete : ℕ → Str
unfolding placeholders
query_delete n = bytes "DELETE FROM queue_messages WHERE id IN (" ++ (placeholders n 1 ++ bytes ")")

-- The affected rows, or the error of reporting them.
abbrev affected : Result (Result ℕ) → Result ℕ
affected (ok r) = r
affected (err e) = err (bytes "delete by IDs: " ++ e)

-- What FetchBatch makes of the answer to its query.
unfoldable pub collect : Result Cursor → Result (List BufMsg)
collect r = do
  rows ← wrap (bytes "fetch batch: ") r
  msgs ← scan_rows [] rows.scans
  rows_err rows.error msgs

module _ (db : Db) where
  unfoldable pub fetch_batch : db.World → ℤ → ℤ → ℤ → Result (List BufMsg) × db.World
  fetch_batch w part_start part_end limit =
      let (r, w') = db.query w query_fetch_batch part_start part_end limit in (collect r, w')

  unfoldable pub delete_by_ids : db.World → List ℕ → Result ℕ × db.World
  delete_by_ids w [] = (ok 0, w)
  delete_by_ids w (id ∷ ids) =
      let (r, w') = db.exec w (query_delete (length (id ∷ ids))) (id ∷ ids) in (affected r, w')
