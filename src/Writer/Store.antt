-- ===== src/Writer/Store.antt =====
-- internal/mqwriter/store.go and queries.go: Publish, one transaction that inserts messages. The
-- database that runs it is a parameter.
use my_queue.Base.{ℕ, suc, List, [], ◌∷◌, ◌++◌, Str, bytes, Result, ok, err}

pub record IngestMsg : Type 0 where
  pub uuid : Str
  pub gpu_id : Str
  pub payload : Str
  pub partition : ℕ

-- What Scan of the one row of INSERT … RETURNING gives: the row, sql.ErrNoRows, or another error.
pub data Scan : Type 0 where
  inserted no_rows : Scan
  failed : Str → Scan

-- *sql.DB with its transaction; `World` is the database with all that may befall the connection.
pub record Db : Type 1 where
  pub World : Type 0
  pub begin : World → Result (Unit {0}) × World
  pub prepare : World → Result (Unit {0}) × World
  pub insert : World → Str → IngestMsg → Scan × World
  pub commit : World → Result (Unit {0}) × World
  pub rollback : World → World

abbrev pub count_inserted : Scan → ℕ → ℕ
count_inserted inserted n = suc n
count_inserted no_rows n = n
count_inserted (failed e) n = n

abbrev pub count_skipped : Scan → ℕ → ℕ
count_skipped inserted n = n
count_skipped no_rows n = suc n
count_skipped (failed e) n = n

-- The early return of the loop.
abbrev pub or_failure : {W : Type 0} → Scan → Str → W → Result (ℕ × ℕ) × W → Result (ℕ × ℕ) × W
or_failure inserted uuid w rest = rest
or_failure no_rows uuid w rest = rest
or_failure (failed e) uuid w rest = (err (bytes "insert msg " ++ (uuid ++ (bytes ": " ++ e))), w)

abbrev pub committed : Result (Unit {0}) → ℕ × ℕ → Result (ℕ × ℕ)
committed (ok u) counts = ok counts
committed (err e) counts = err (bytes "commit: " ++ e)

module _ (db : Db) where
  -- The loop over the messages, with the two counters.
  unfoldable pub insert_all : db.World → Str → ℕ → ℕ → List IngestMsg → Result (ℕ × ℕ) × db.World
  insert_all w topic accepted duplicates [] = (ok (accepted, duplicates), w)
  insert_all w topic accepted duplicates (m ∷ ms) =
      let (scan, w') = db.insert w topic m in
      let rest =
        insert_all w' topic (count_inserted scan accepted) (count_skipped scan duplicates) ms in
      or_failure scan m.uuid w' rest

  unfoldable pub commit_counts : db.World → Result (ℕ × ℕ) → Result (ℕ × ℕ) × db.World
  commit_counts w (err e) = (err e, w)
  commit_counts w (ok counts) = let (r, w') = db.commit w in (committed r counts, w')

  unfoldable pub prepared :
      db.World → Str → List IngestMsg → Result (Unit {0}) → Result (ℕ × ℕ) × db.World
  prepared w topic msgs (err e) = (err (bytes "prepare: " ++ e), w)
  prepared w topic msgs (ok u) = let (r, w') = insert_all w topic 0 0 msgs in commit_counts w' r

  -- The body after a transaction has begun, and then the deferred Rollback.
  unfoldable pub in_transaction :
      db.World → Str → List IngestMsg → Result (Unit {0}) → Result (ℕ × ℕ) × db.World
  in_transaction w topic msgs (err e) = (err (bytes "begin tx: " ++ e), w)
  in_transaction w topic msgs (ok u) =
      let (r, w₁) = db.prepare w in
      let (counts, w₂) = prepared w₁ topic msgs r in (counts, db.rollback w₂)

  unfoldable pub publish : db.World → Str → List IngestMsg → Result (ℕ × ℕ) × db.World
  unfolding commit_counts prepared in_transaction
  publish w topic msgs = let (r, w') = db.begin w in in_transaction w' topic msgs r
