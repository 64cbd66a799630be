-- ===== src/Collector/Persisted.antt =====
-- PersistBatch of internal/collector/store.go stores a whole batch, or nothing.
use my_queue.Base.{
  ℕ, ◌+◌, ◌≡◌, refl, ap, ◌∙◌, ◌⊎◌, inl, inr, true, List, [], ◌∷◌, ◌++◌, arith, Str, bytes, Result,
  ok, err, length, length-append, All,
}
use my_queue.Collector.Store.{
  TelemetryRow, Args, args_of, Scan, inserted, no_rows, failed, Db, Texts, count_inserted,
  count_skipped, or_failure, committed, insert_one, insert_all, commit_counts, prepared,
  in_transaction, persist_batch,
}
use my_queue.Collector.Table.{has_uuid, Gains, insert_new, DbLaws, has_uuid-snoc, has_uuid-stays}

module _ (texts : Texts) (db : Db) (laws : DbLaws db) where
  open laws use {
    rows, seen, begin-rows, begin-seen, prepare-rows, prepare-seen, insert-rows, insert-inserted,
    insert-no_rows, commit-ok, commit-err, rollback-rows,
  }

  -- A row of the batch is in a table under its message's UUID.
  abbrev pub Stored : List Args → TelemetryRow → Type 0
  Stored table row = (u : Str) × (texts.parse_uuid row.msg_uuid ≡ ok u) × (has_uuid u table ≡ true)

  rows-insert_all :
      (w : db.World) (p d : ℕ) (batch : List TelemetryRow)
      → rows (insert_all texts db w p d batch).1 ≡ rows w
  unfolding insert_all insert_one
  rows-insert_all w p d [] = refl
  rows-insert_all w p d (row ∷ batch) = parsed (texts.parse_uuid row.msg_uuid) (λ u.
      rows-insert_all (db.insert w (args_of row u)).1
        (count_inserted (db.insert w (args_of row u)).0 p)
        (count_skipped (db.insert w (args_of row u)).0 d) batch)
    where
      either :
          (w' : db.World) (s : Scan) (rest : Result (ℕ × ℕ) × db.World)
          → rows w' ≡ rows w
          → rows rest.1 ≡ rows w'
          → rows (or_failure s row.msg_uuid w' rest).1 ≡ rows w
      either w' inserted rest same h = h ∙ same
      either w' no_rows rest same h = h ∙ same
      either w' (failed e) rest same h = same

      parsed :
          (r : Result Str)
          → ((u : Str)
              → rows
                  (insert_all texts db
                    (db.insert w (args_of row u)).1
                    (count_inserted (db.insert w (args_of row u)).0 p)
                    (count_skipped (db.insert w (args_of row u)).0 d)
                    batch).1
                ≡ rows (db.insert w (args_of row u)).1)
          → rows
              (insert_one texts db w p d row r (λ w' p' d'. insert_all texts db w' p' d' batch)).1
            ≡ rows w
      parsed (err e) ih = refl
      parsed (ok u) ih =
          let (scan, w') = db.insert w (args_of row u) in
          either w' scan _ (insert-rows w (args_of row u)) (ih u)

  -- What a run through the rows that met no error has done.
  record Inserted (p d : ℕ) (before : List Args) (batch : List TelemetryRow) (c : ℕ × ℕ)
      (after : List Args) : Type 0 where
    stored : All (Stored after) batch
    counted : c.0 + c.1 ≡ p + d + length batch
    added : c.0 + length before ≡ p + length after
    kept : Gains before after
    exact : after ≡ insert_new texts.parse_uuid before batch

  seen-insert_all :
      (w : db.World) (p d : ℕ) (batch : List TelemetryRow) (c : ℕ × ℕ)
      → (insert_all texts db w p d batch).0 ≡ ok c
      → Inserted p d (seen w) batch c (seen (insert_all texts db w p d batch).1)
  unfolding insert_all insert_one insert_new
  seen-insert_all w p d [] c h = record {
    stored = tt;
    counted = ground arith;
    added = ground arith;
    kept = λ u k. k;
    exact = refl;
  }
  seen-insert_all w p d (row ∷ batch) c h = parsed (texts.parse_uuid row.msg_uuid) refl h (λ u.
      seen-insert_all (db.insert w (args_of row u)).1
        (count_inserted (db.insert w (args_of row u)).0 p)
        (count_skipped (db.insert w (args_of row u)).0 d) batch c)
    where
      either :
          (u : Str)
          → texts.parse_uuid row.msg_uuid ≡ ok u
          → (s : Scan) → (db.insert w (args_of row u)).0 ≡ s
          → (rest : Result (ℕ × ℕ) × db.World)
          → (or_failure s row.msg_uuid (db.insert w (args_of row u)).1 rest).0 ≡ ok c
          → (rest.0 ≡ ok c
              → Inserted
                  (count_inserted s p)
                  (count_skipped s d)
                  (seen (db.insert w (args_of row u)).1)
                  batch
                  c
                  (seen rest.1))
          → Inserted p d
              (seen w)
              (row ∷ batch)
              c
              (seen (or_failure s row.msg_uuid (db.insert w (args_of row u)).1 rest).1)
      either u valid inserted e rest h ih =
          let r = ih h in
          let now = (insert-inserted w (args_of row u) e).1 in
          record {
            stored =
                ((u, valid, r.kept u (rw now (has_uuid-snoc (seen w) (args_of row u)))), r.stored);
            counted = omega (arith, r.counted);
            added =
                omega (arith, r.added, ap length now, length-append (seen w) (args_of row u ∷ []));
            kept = λ v k. r.kept v (rw now (has_uuid-stays v (seen w) (args_of row u) k));
            exact =
                rw (valid, (insert-inserted w (args_of row u) e).0)
                  (r.exact ∙ ap (λ t. insert_new texts.parse_uuid t batch) now);
          }
      either u valid no_rows e rest h ih =
          let r = ih h in
          let (there, now) = insert-no_rows w (args_of row u) e in
          record {
            stored = ((u, valid, r.kept u (rw now there)), r.stored);
            counted = omega (arith, r.counted);
            added = omega (arith, r.added, ap length now);
            kept = λ v k. r.kept v (rw now k);
            exact = rw (valid, there) (r.exact ∙ ap (λ t. insert_new texts.parse_uuid t batch) now);
          }
      either u valid (failed x) e rest h ih = cc

      parsed :
          (r : Result Str)
          → texts.parse_uuid row.msg_uuid ≡ r
          → (insert_one texts db w p d row r (λ w' p' d'. insert_all texts db w' p' d' batch)).0
            ≡ ok c
          → ((u : Str)
              → (insert_all texts db
                  (db.insert w (args_of row u)).1
                  (count_inserted (db.insert w (args_of row u)).0 p)
                  (count_skipped (db.insert w (args_of row u)).0 d)
                  batch).0
                ≡ ok c
              → Inserted
                  (count_inserted (db.insert w (args_of row u)).0 p)
                  (count_skipped (db.insert w (args_of row u)).0 d)
                  (seen (db.insert w (args_of row u)).1)
                  batch
                  c
                  (seen
                    (insert_all texts db
                      (db.insert w (args_of row u)).1
                      (count_inserted (db.insert w (args_of row u)).0 p)
                      (count_skipped (db.insert w (args_of row u)).0 d)
                      batch).1))
          → Inserted p d (seen w) (row ∷ batch) c (
              seen
                (insert_one texts db w p d row r
                  (λ w' p' d'. insert_all texts db w' p' d' batch)).1)
      parsed (err e) valid h ih = cc
      parsed (ok u) valid h ih = either u valid (db.insert w (args_of row u)).0 refl _ h (ih u)

  -- The world that a PersistBatch which has met no error so far commits in.
  abbrev pub at_commit : db.World → List TelemetryRow → db.World
  at_commit w batch = (insert_all texts db (db.prepare (db.begin w).1).1 0 0 batch).1

  -- The error is the one that the commit in this world answers.
  abbrev pub IsCommitError : db.World → Str → Type 0
  IsCommitError w e = (x : Str) × ((db.commit w).0 ≡ err x) × (e ≡ bytes "commit: " ++ x)

  -- What PersistBatch may have done to a table.
  abbrev pub IsPersisted : db.World → List TelemetryRow → Result (ℕ × ℕ) → List Args → Type 0
  IsPersisted w batch (ok c) after =
      All (Stored after) batch
      × (c.0 + c.1 ≡ length batch)
      × (c.0 + length (rows w) ≡ length after)
      × Gains (rows w) after
      × (after ≡ insert_new texts.parse_uuid (rows w) batch)
  IsPersisted w batch (err e) after =
      (after ≡ rows w)
      ⊎ (All (Stored after) batch
          × Gains (rows w) after
          × (after ≡ insert_new texts.parse_uuid (rows w) batch)
          × IsCommitError (at_commit w batch) e)

  commit-IsPersisted :
      (w₀ : db.World) (batch : List TelemetryRow) (r : Result (ℕ × ℕ))
      → let w = at_commit w₀ batch in
        rows w ≡ rows w₀
        → ((c : ℕ × ℕ) → r ≡ ok c → Inserted 0 0 (rows w₀) batch c (seen w))
        → IsPersisted w₀ batch (commit_counts texts db w r).0 (rows (commit_counts texts db w r).1)
  unfolding commit_counts
  commit-IsPersisted w₀ batch (err e) same h = inl same
  commit-IsPersisted w₀ batch (ok c) same h = outcome (db.commit w).0 refl
    where
      w : db.World
      w = at_commit w₀ batch

      outcome :
          (r : Result (Unit {0}))
          → (db.commit w).0 ≡ r
          → IsPersisted w₀ batch (committed r c) (rows (db.commit w).1)
      outcome (ok u) e =
          let done = h c refl in
          (
            rw (commit-ok w u e) done.stored,
            omega (arith, done.counted),
            omega (arith, done.added, ap length (commit-ok w u e)),
            rw (commit-ok w u e) done.kept,
            commit-ok w u e ∙ done.exact,
          )
      outcome (err x) e = elim (commit-err w x e) [
        | inl kept ↦ inl (kept ∙ same)
        | inr done ↦ inr (
          rw done (h c refl).stored,
          rw done (h c refl).kept,
          done ∙ (h c refl).exact,
          (x, e, refl),
        )
      ]

  -- If PersistBatch succeeds, the table has become what ON CONFLICT DO NOTHING makes of it, row after
  -- row of the batch: it keeps its rows, and each row of the batch has a valid message UUID, under
  -- which the table holds a row; the two counts add up to the number of rows, and the first is
  -- the growth of the table. If it fails, the table is unchanged, unless the error is the one that the
  -- commit itself answered: then it may have become the same.
  pub persist_batch-IsPersisted :
      (w : db.World) (batch : List TelemetryRow)
      → let answer = persist_batch texts db w batch in IsPersisted w batch answer.0 (rows answer.1)
  unfolding persist_batch in_transaction prepared
  persist_batch-IsPersisted w batch = begun (db.begin w).0
    where
      w₁ : db.World
      w₁ = (db.begin w).1

      w₂ : db.World
      w₂ = (db.prepare w₁).1

      same : rows w₂ ≡ rows w
      same = prepare-rows w₁ ∙ begin-rows w

      ready :
          (r : Result (Unit {0}))
          → IsPersisted w batch
              (prepared texts db w₂ batch r).0
              (rows (prepared texts db w₂ batch r).1)
      ready (err e) = inl same
      ready (ok u) =
          commit-IsPersisted w batch _ (rows-insert_all w₂ 0 0 batch ∙ same)
            (λ c e. rw (← (prepare-seen w₁ ∙ begin-seen w)) (seen-insert_all w₂ 0 0 batch c e))

      begun :
          (r : Result (Unit {0}))
          → IsPersisted w batch
              (in_transaction texts db w₁ batch r).0
              (rows (in_transaction texts db w₁ batch r).1)
      begun (err e) = inl (begin-rows w)
      begun (ok u) = rw rollback-rows (ready (db.prepare w₁).0)

  pub persist_batch-Gains :
      (w : db.World) (batch : List TelemetryRow)
      → Gains (rows w) (rows (persist_batch texts db w batch).1)
  persist_batch-Gains w batch =
      gains (persist_batch texts db w batch).0 (persist_batch-IsPersisted w batch)
    where
      after : List Args
      after = rows (persist_batch texts db w batch).1

      gains : (r : Result (ℕ × ℕ)) → IsPersisted w batch r after → Gains (rows w) after
      gains (ok c) p = p.3
      gains (err e) (inl same) = rw same (λ u h. h)
      gains (err e) (inr done) = done.1

  pub persist_batch-exact :
      (w : db.World) (batch : List TelemetryRow)
      → let after = rows (persist_batch texts db w batch).1 in
        (after ≡ rows w) ⊎ (after ≡ insert_new texts.parse_uuid (rows w) batch)
  persist_batch-exact w batch =
      exact (persist_batch texts db w batch).0 (persist_batch-IsPersisted w batch)
    where
      after : List Args
      after = rows (persist_batch texts db w batch).1

      exact :
          (r : Result (ℕ × ℕ))
          → IsPersisted w batch r after
          → (after ≡ rows w) ⊎ (after ≡ insert_new texts.parse_uuid (rows w) batch)
      exact (ok c) p = inr p.4
      exact (err e) (inl same) = inl same
      exact (err e) (inr done) = inr done.2
