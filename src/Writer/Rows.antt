-- ===== src/Writer/Rows.antt =====
-- The table queue_messages as the writer sees it (migrations/001 to 004), and what PostgreSQL
-- documents of the statements of internal/mqwriter/store.go, as hypotheses on the database. Nobody else
-- changes the table during one flush.
use my_queue.Base.{
  ◌≡◌, refl, ◌⊎◌, Bool, true, false, ◌&&◌, ◌||◌, List, [], ◌∷◌, ◌++◌, arith, Str, str_eq,
  str_eq_self, ok, err, All, if◌then◌else◌,
}
use my_queue.Writer.Store.{IngestMsg, Db, inserted, no_rows}

-- A row of queue_messages, as the writer sees it.
pub record Row : Type 0 where
  pub topic : Str
  pub msg : IngestMsg

-- The unique index on (topic, msg_uuid).
unfoldable pub has_key : Str → Str → List Row → Bool
has_key topic uuid [] = false
has_key topic uuid (r ∷ rs) =
    (str_eq r.topic topic && str_eq r.msg.uuid uuid) || has_key topic uuid rs

-- INSERT … ON CONFLICT (topic, msg_uuid) DO NOTHING
unfoldable pub insert_row : Str → List Row → IngestMsg → List Row
insert_row topic rows m =
    if has_key topic m.uuid rows then rows else rows ++ record { topic = topic; msg = m } ∷ []

unfoldable pub insert_rows : Str → List Row → List IngestMsg → List Row
insert_rows topic rows [] = rows
insert_rows topic rows (m ∷ ms) = insert_rows topic (insert_row topic rows m) ms

-- `rows` is the committed table, `seen` what the open transaction sees. The laws are about executions in
-- which nobody else changes the table meanwhile.
pub record DbLaws (db : Db) : Type 0 where
  pub rows : db.World → List Row
  pub seen : db.World → List Row
  pub begin-rows : (w : db.World) → rows (db.begin w).1 ≡ rows w
  pub begin-seen : (w : db.World) → seen (db.begin w).1 ≡ rows w
  pub prepare-rows : (w : db.World) → rows (db.prepare w).1 ≡ rows w
  pub prepare-seen : (w : db.World) → seen (db.prepare w).1 ≡ seen w
  pub insert-rows : (w : db.World) (t : Str) (m : IngestMsg) → rows (db.insert w t m).1 ≡ rows w
  pub insert-inserted :
      (w : db.World) (t : Str) (m : IngestMsg)
      → (db.insert w t m).0 ≡ inserted
      → (has_key t m.uuid (seen w) ≡ false)
        × (seen (db.insert w t m).1 ≡ seen w ++ record { topic = t; msg = m } ∷ [])
  pub insert-no_rows :
      (w : db.World) (t : Str) (m : IngestMsg)
      → (db.insert w t m).0 ≡ no_rows
      → (has_key t m.uuid (seen w) ≡ true) × (seen (db.insert w t m).1 ≡ seen w)
  pub commit-ok :
      (w : db.World) (u : Unit {0}) → (db.commit w).0 ≡ ok u → rows (db.commit w).1 ≡ seen w
  -- After an error the transaction may or may not have been committed.
  pub commit-err :
      (w : db.World) (e : Str)
      → (db.commit w).0 ≡ err e
      → (rows (db.commit w).1 ≡ rows w) ⊎ (rows (db.commit w).1 ≡ seen w)
  pub rollback-rows : (w : db.World) → rows (db.rollback w) ≡ rows w

has_key-append :
    (t u : Str) (xs ys : List Row) → has_key t u (xs ++ ys) ≡ (has_key t u xs || has_key t u ys)
unfolding has_key
has_key-append t u [] ys = refl
has_key-append t u (x ∷ xs) ys = ground (arith, has_key-append t u xs ys)

-- A key that is there stays.
has_key-insert_row :
    (t u s : Str) (rows : List Row) (m : IngestMsg)
    → has_key t u rows ≡ true
    → has_key t u (insert_row s rows m) ≡ true
unfolding insert_row
has_key-insert_row t u s rows m h =
    ground (arith, has_key-append t u rows (record { topic = s; msg = m } ∷ []))

pub has_key-insert_rows :
    (t u s : Str) (rows : List Row) (ms : List IngestMsg)
    → has_key t u rows ≡ true
    → has_key t u (insert_rows s rows ms) ≡ true
unfolding insert_rows
has_key-insert_rows t u s rows [] h = h
has_key-insert_rows t u s rows (m ∷ ms) h =
    has_key-insert_rows t u s (insert_row s rows m) ms (has_key-insert_row t u s rows m h)

has_key-insert_row_self :
    (t : Str) (rows : List Row) (m : IngestMsg) → has_key t m.uuid (insert_row t rows m) ≡ true
unfolding insert_row has_key
has_key-insert_row_self t rows m = ground (
  arith,
  has_key-append t m.uuid rows (record { topic = t; msg = m } ∷ []),
  str_eq_self t,
  str_eq_self m.uuid,
)

abbrev pub HasAll : Str → List Row → List IngestMsg → Type 0
HasAll t rows = All (λ m. has_key t m.uuid rows ≡ true)

-- All messages are there after they have been inserted.
pub insert_rows-HasAll :
    (t : Str) (rows : List Row) (ms : List IngestMsg) → HasAll t (insert_rows t rows ms) ms
unfolding insert_rows
insert_rows-HasAll t rows [] = tt
insert_rows-HasAll t rows (m ∷ ms) = (
  has_key-insert_rows t m.uuid t (insert_row t rows m) ms (has_key-insert_row_self t rows m),
  insert_rows-HasAll t (insert_row t rows m) ms,
)

insert_rows-present :
    (t : Str) (rows : List Row) (ms : List IngestMsg)
    → HasAll t rows ms
    → insert_rows t rows ms ≡ rows
unfolding insert_rows insert_row
insert_rows-present t rows [] a = refl
insert_rows-present t rows (m ∷ ms) a = rw a.0 (insert_rows-present t rows ms a.1)

-- Inserting the same messages a second time changes nothing.
pub insert_rows-again :
    (t : Str) (rows : List Row) (ms : List IngestMsg)
    → insert_rows t (insert_rows t rows ms) ms ≡ insert_rows t rows ms
insert_rows-again t rows ms =
    insert_rows-present t (insert_rows t rows ms) ms (insert_rows-HasAll t rows ms)
