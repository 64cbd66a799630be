-- ===== src/Collector/Table.antt =====
-- The table telemetry, and what PostgreSQL documents of the statements of
-- internal/collector/store.go, as hypotheses on the database.
use my_queue.Base.{
  ◌≡◌, refl, ◌⊎◌, Bool, true, false, ◌||◌, List, [], ◌∷◌, ◌++◌, arith, Str, str_eq, str_eq_self,
  Result, ok, err, if◌then◌else◌,
}
use my_queue.Collector.Store.{TelemetryRow, Args, args_of, inserted, no_rows, Db}

-- The unique index on msg_uuid.
unfoldable pub has_uuid : Str → List Args → Bool
has_uuid u [] = false
has_uuid u (a ∷ rest) = str_eq a.msg_uuid u || has_uuid u rest

abbrev pub add_new : List Args → TelemetryRow → Result Str → List Args
add_new table row (ok u) = if has_uuid u table then table else table ++ args_of row u ∷ []
add_new table row (err e) = table

-- INSERT … ON CONFLICT (msg_uuid) DO NOTHING, row by row.
unfoldable pub insert_new : (Str → Result Str) → List Args → List TelemetryRow → List Args
insert_new parse_uuid table [] = table
insert_new parse_uuid table (row ∷ batch) =
    insert_new parse_uuid (add_new table row (parse_uuid row.msg_uuid)) batch

-- A table only gains rows.
abbrev pub Gains : List Args → List Args → Type 0
Gains before after = (u : Str) → has_uuid u before ≡ true → has_uuid u after ≡ true

pub record DbLaws (db : Db) : Type 0 where
  pub rows : db.World → List Args
  pub seen : db.World → List Args
  pub begin-rows : (w : db.World) → rows (db.begin w).1 ≡ rows w
  pub begin-seen : (w : db.World) → seen (db.begin w).1 ≡ rows w
  pub prepare-rows : (w : db.World) → rows (db.prepare w).1 ≡ rows w
  pub prepare-seen : (w : db.World) → seen (db.prepare w).1 ≡ seen w
  pub insert-rows : (w : db.World) (a : Args) → rows (db.insert w a).1 ≡ rows w
  pub insert-inserted :
      (w : db.World) (a : Args)
      → (db.insert w a).0 ≡ inserted
      → (has_uuid a.msg_uuid (seen w) ≡ false) × (seen (db.insert w a).1 ≡ seen w ++ a ∷ [])
  pub insert-no_rows :
      (w : db.World) (a : Args)
      → (db.insert w a).0 ≡ no_rows
      → (has_uuid a.msg_uuid (seen w) ≡ true) × (seen (db.insert w a).1 ≡ seen w)
  pub commit-ok :
      (w : db.World) (u : Unit {0}) → (db.commit w).0 ≡ ok u → rows (db.commit w).1 ≡ seen w
  -- After an error the transaction may or may not have been committed.
  pub commit-err :
      (w : db.World) (e : Str)
      → (db.commit w).0 ≡ err e
      → (rows (db.commit w).1 ≡ rows w) ⊎ (rows (db.commit w).1 ≡ seen w)
  pub rollback-rows : (w : db.World) → rows (db.rollback w) ≡ rows w

has_uuid-append :
    (u : Str) (xs ys : List Args) → has_uuid u (xs ++ ys) ≡ (has_uuid u xs || has_uuid u ys)
unfolding has_uuid
has_uuid-append u [] ys = refl
has_uuid-append u (x ∷ xs) ys = ground (arith, has_uuid-append u xs ys)

pub has_uuid-snoc : (xs : List Args) (a : Args) → has_uuid a.msg_uuid (xs ++ a ∷ []) ≡ true
unfolding has_uuid
has_uuid-snoc xs a = ground (arith, has_uuid-append a.msg_uuid xs (a ∷ []), str_eq_self a.msg_uuid)

pub has_uuid-stays :
    (u : Str) (xs : List Args) (a : Args) → has_uuid u xs ≡ true → has_uuid u (xs ++ a ∷ []) ≡ true
has_uuid-stays u xs a h = ground (arith, has_uuid-append u xs (a ∷ []))
