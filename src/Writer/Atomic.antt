-- ===== src/Writer/Atomic.antt =====
-- Store.Publish of internal/mqwriter/store.go is atomic.
use my_queue.Base.{
  ℕ, ◌+◌, ◌≡◌, refl, sym, ap, ◌∙◌, ◌⊎◌, List, [], ◌∷◌, ◌++◌, arith, Str, bytes, Result, ok, err,
  length, length-append, inl, inr,
}
use my_queue.Writer.Store.{
  IngestMsg, Scan, Db, inserted, no_rows, failed, count_inserted, count_skipped, or_failure,
  committed, insert_all, publish, commit_counts, prepared, in_transaction,
}
use my_queue.Writer.Rows.{Row, insert_row, insert_rows, DbLaws}

module _ (db : Db) (laws : DbLaws db) where
  open laws use {
    rows, seen, begin-rows, begin-seen, prepare-rows, prepare-seen, insert-rows, insert-inserted,
    insert-no_rows, commit-ok, commit-err, rollback-rows,
  }

  rows-insert_all :
      (w : db.World) (t : Str) (a d : ℕ) (ms : List IngestMsg)
      → rows (insert_all db w t a d ms).1 ≡ rows w
  unfolding insert_all
  rows-insert_all w t a d [] = refl
  rows-insert_all w t a d (m ∷ ms) = either (db.insert w t m).0 _ (
      rows-insert_all (db.insert w t m).1 t (count_inserted (db.insert w t m).0 a)
        (count_skipped (db.insert w t m).0 d) ms)
    where
      either :
          (s : Scan) (rest : Result (ℕ × ℕ) × db.World)
          → rows rest.1 ≡ rows (db.insert w t m).1
          → rows (or_failure s m.uuid (db.insert w t m).1 rest).1 ≡ rows w
      either inserted rest h = h ∙ insert-rows w t m
      either no_rows rest h = h ∙ insert-rows w t m
      either (failed e) rest h = insert-rows w t m

  -- What a run through the messages that met no error has done.
  abbrev Inserted : Str → ℕ → ℕ → List Row → List IngestMsg → ℕ × ℕ → List Row → Type 0
  Inserted t a d before ms c after =
      (after ≡ insert_rows t before ms)
      × (c.0 + c.1 ≡ a + d + length ms)
      × (c.0 + length before ≡ a + length after)

  seen-insert_all :
      (w : db.World) (t : Str) (a d : ℕ) (ms : List IngestMsg) (c : ℕ × ℕ)
      → (insert_all db w t a d ms).0 ≡ ok c
      → Inserted t a d (seen w) ms c (seen (insert_all db w t a d ms).1)
  unfolding insert_all insert_rows
  seen-insert_all w t a d [] c h = (refl, ground arith, ground arith)
  seen-insert_all w t a d (m ∷ ms) c h = either (db.insert w t m).0 refl _ h (
      seen-insert_all (db.insert w t m).1 t (count_inserted (db.insert w t m).0 a)
        (count_skipped (db.insert w t m).0 d) ms c)
    where
      w' : db.World
      w' = (db.insert w t m).1

      either :
          (s : Scan)
          → (db.insert w t m).0 ≡ s
          → (rest : Result (ℕ × ℕ) × db.World) → (or_failure s m.uuid w' rest).0 ≡ ok c
          → (rest.0 ≡ ok c
              → Inserted t (count_inserted s a) (count_skipped s d) (seen w') ms c (seen rest.1))
          → Inserted t a d (seen w) (m ∷ ms) c (seen (or_failure s m.uuid w' rest).1)
      either inserted e rest h ih =
          let (fresh, now) = insert-inserted w t m e in
          let (grown, counted, added) = ih h in
          (
            grown ∙ ap (λ rs. insert_rows t rs ms) (now ∙ sym (unfold insert_row in rw fresh)),
            omega (arith, counted),
            omega (
              arith,
              added,
              ap length now,
              length-append (seen w) (record { topic = t; msg = m } ∷ []),
            ),
          )
      either no_rows e rest h ih =
          let (there, now) = insert-no_rows w t m e in
          let (grown, counted, added) = ih h in
          (
            grown ∙ ap (λ rs. insert_rows t rs ms) (now ∙ sym (unfold insert_row in rw there)),
            omega (arith, counted),
            omega (arith, added, ap length now),
          )
      either (failed x) e rest h ih = cc

  -- The world that a Publish which has met no error so far commits in.
  abbrev pub at_commit : db.World → Str → List IngestMsg → db.World
  at_commit w t ms = (insert_all db (db.prepare (db.begin w).1).1 t 0 0 ms).1

  -- The error is the one that the commit in this world answers.
  abbrev pub IsCommitError : db.World → Str → Type 0
  IsCommitError w e = (x : Str) × ((db.commit w).0 ≡ err x) × (e ≡ bytes "commit: " ++ x)

  -- What Publish may have done to a table: all or nothing.
  abbrev pub AllOrNothing : db.World → Str → List IngestMsg → Result (ℕ × ℕ) → List Row → Type 0
  AllOrNothing w t ms (ok c) after =
      (after ≡ insert_rows t (rows w) ms)
      × (c.0 + c.1 ≡ length ms)
      × (c.0 + length (rows w) ≡ length after)
  AllOrNothing w t ms (err e) after =
      (after ≡ rows w) ⊎ ((after ≡ insert_rows t (rows w) ms) × IsCommitError (at_commit w t ms) e)

  commit-AllOrNothing :
      (w₀ : db.World) (t : Str) (ms : List IngestMsg) (r : Result (ℕ × ℕ))
      → let w = at_commit w₀ t ms in
        rows w ≡ rows w₀
        → ((c : ℕ × ℕ) → r ≡ ok c → Inserted t 0 0 (rows w₀) ms c (seen w))
        → AllOrNothing w₀ t ms (commit_counts db w r).0 (rows (commit_counts db w r).1)
  unfolding commit_counts
  commit-AllOrNothing w₀ t ms (err e) same h = inl same
  commit-AllOrNothing w₀ t ms (ok c) same h = outcome (db.commit w).0 refl
    where
      w : db.World
      w = at_commit w₀ t ms

      outcome :
          (r : Result (Unit {0}))
          → (db.commit w).0 ≡ r
          → AllOrNothing w₀ t ms (committed r c) (rows (db.commit w).1)
      outcome (ok u) e =
          let (grown, counted, added) = h c refl in
          (
            commit-ok w u e ∙ grown,
            omega (arith, counted),
            omega (arith, added, ap length (commit-ok w u e)),
          )
      outcome (err x) e = elim (commit-err w x e) [
        | inl kept ↦ inl (kept ∙ same)
        | inr done ↦ inr (done ∙ (h c refl).0, (x, e, refl))
      ]

  -- Publish inserts all messages that are new, in order, or changes nothing. If it succeeds, it has
  -- inserted them, the two counts add up to the number of messages, and the first is the growth of
  -- the table. If it fails, it has changed nothing, unless the error is the one that the commit itself
  -- answered. Nobody else changes the table meanwhile.
  pub publish-AllOrNothing :
      (w : db.World) (t : Str) (ms : List IngestMsg)
      → AllOrNothing w t ms (publish db w t ms).0 (rows (publish db w t ms).1)
  unfolding publish in_transaction prepared
  publish-AllOrNothing w t ms = begun (db.begin w).0
    where
      w₁ : db.World
      w₁ = (db.begin w).1

      w₂ : db.World
      w₂ = (db.prepare w₁).1

      same : rows w₂ ≡ rows w
      same = prepare-rows w₁ ∙ begin-rows w

      ready :
          (r : Result (Unit {0}))
          → AllOrNothing w t ms (prepared db w₂ t ms r).0 (rows (prepared db w₂ t ms r).1)
      ready (err e) = inl same
      ready (ok u) =
          commit-AllOrNothing w t ms _ (rows-insert_all w₂ t 0 0 ms ∙ same)
            (λ c e. rw (← (prepare-seen w₁ ∙ begin-seen w)) (seen-insert_all w₂ t 0 0 ms c e))

      begun :
          (r : Result (Unit {0}))
          → AllOrNothing w t ms
              (in_transaction db w₁ t ms r).0
              (rows (in_transaction db w₁ t ms r).1)
      begun (err e) = inl (begin-rows w)
      begun (ok u) = rw rollback-rows (ready (db.prepare w₁).0)
