-- ===== src/Writer/Retries.antt =====
-- flushWithRetry of internal/mqwriter/buffer.go repeats a transaction that may have been committed.
use my_queue.Base.{
  ℕ, zero, suc, ◌+◌, ◌≡◌, refl, ◌∙◌, ◌⊎◌, List, [], arith, Str, Result, ok, err, length, inl, inr,
}
use my_queue.Writer.Store.{IngestMsg, Db, publish}
use my_queue.Writer.Buffer.{first_success, retry, flush_with_retry}
use my_queue.Writer.Rows.{Row, insert_rows, DbLaws, insert_rows-again}
use my_queue.Writer.Atomic.{AllOrNothing, publish-AllOrNothing}

module _ (db : Db) (laws : DbLaws db) where
  open laws use {rows}

  -- The table that a retry starts from: as before the first attempt, or with all messages in it.
  retry-inserts :
      (n : ℕ) (w : db.World) (t : Str) (before : List Row) (ms : List IngestMsg) (last : Str)
      → (rows w ≡ before) ⊎ (rows w ≡ insert_rows t before ms)
      → ((c : ℕ × ℕ)
          → (retry db n w t ms last).0 ≡ ok c
          → (rows (retry db n w t ms last).1 ≡ insert_rows t before ms) × (c.0 + c.1 ≡ length ms))
        × ((rows (retry db n w t ms last).1 ≡ before)
            ⊎ (rows (retry db n w t ms last).1 ≡ insert_rows t before ms))
  unfolding retry
  retry-inserts zero w t before ms last h = ((λ c e. cc), h)
  retry-inserts (suc n) w t before ms last h =
      outcome (publish db w t ms).0 _ (publish-AllOrNothing db laws w t ms)
        (λ k. retry-inserts n (publish db w t ms).1 t before ms _ k)
    where
      w' : db.World
      w' = (publish db w t ms).1

      inserted_again :
          (rows w ≡ before) ⊎ (rows w ≡ insert_rows t before ms)
          → insert_rows t (rows w) ms ≡ insert_rows t before ms
      inserted_again (inl e) = rw e
      inserted_again (inr e) = rw e (insert_rows-again t before ms)

      outcome :
          (r : Result (ℕ × ℕ)) (again : Result (ℕ × ℕ) × db.World)
          → AllOrNothing db laws w t ms r (rows w')
          → ((rows w' ≡ before) ⊎ (rows w' ≡ insert_rows t before ms)
              → ((c : ℕ × ℕ)
                  → again.0 ≡ ok c
                  → (rows again.1 ≡ insert_rows t before ms) × (c.0 + c.1 ≡ length ms))
                × ((rows again.1 ≡ before) ⊎ (rows again.1 ≡ insert_rows t before ms)))
          → ((c : ℕ × ℕ)
              → (first_success r w' again).0 ≡ ok c
              → (rows (first_success r w' again).1 ≡ insert_rows t before ms)
                × (c.0 + c.1 ≡ length ms))
            × ((rows (first_success r w' again).1 ≡ before)
                ⊎ (rows (first_success r w' again).1 ≡ insert_rows t before ms))
      outcome (ok c) again a ih =
          ((λ c' e. (a.0 ∙ inserted_again h, ground (arith, a.1))), inr (a.0 ∙ inserted_again h))
      outcome (err x) again (inl kept) ih = ih (start h)
        where
          start :
              (rows w ≡ before) ⊎ (rows w ≡ insert_rows t before ms)
              → (rows w' ≡ before) ⊎ (rows w' ≡ insert_rows t before ms)
          start (inl e) = inl (kept ∙ e)
          start (inr e) = inr (kept ∙ e)
      outcome (err x) again (inr (done, unclear)) ih = ih (inr (done ∙ inserted_again h))

  -- If nobody else changes the table from the first attempt of a flush to its last, the waits between
  -- them included, the flush inserts its messages once, also when an attempt failed in a commit that
  -- took effect and was repeated: if it reports success, the table is the old one with the new messages
  -- inserted once, and the counts that it reports add up to the number of messages. If it reports
  -- failure, the table is the old one, or that same one.
  pub flush_inserts_once :
      (w : db.World) (t : Str) (ms : List IngestMsg)
      → ((c : ℕ × ℕ)
          → (flush_with_retry db w t ms).0 ≡ ok c
          → (rows (flush_with_retry db w t ms).1 ≡ insert_rows t (rows w) ms)
            × (c.0 + c.1 ≡ length ms))
        × ((rows (flush_with_retry db w t ms).1 ≡ rows w)
            ⊎ (rows (flush_with_retry db w t ms).1 ≡ insert_rows t (rows w) ms))
  unfolding flush_with_retry
  flush_inserts_once w t ms = retry-inserts 3 w t (rows w) ms [] (inl refl)
