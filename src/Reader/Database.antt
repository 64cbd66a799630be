-- ===== src/Reader/Database.antt =====
-- What PostgreSQL documents of the two statements of internal/mqreader, over the rows of
-- queue_messages (migrations/001 to 004): hypotheses on the database that runs them.
use my_queue.Base.{
  ℕ, zero, suc, ◌≤◌, ◌<◌, ◌≡◌, refl, ap, ◌∙◌, ◌⊎◌, inl, inr, Bool, not, ◌&&◌, none, List, [], ◌∷◌,
  ◌++◌, map, arith, ℤ, pos, negsuc, leb_ℤ, Str, Result, ok, err, Result-cases, length, take,
  pos_part, keep, contains, count, if◌then◌else◌, length-take,
}
use mathlib.Core.List.{append-nil, append_assoc}
use my_queue.Reader.Store.{
  BufMsg, ids_of, Cursor, Db, query_fetch_batch, query_delete, scan_rows, collect, fetch_batch,
  delete_by_ids,
}

pub record Row : Type 0 where
  pub msg : BufMsg
  pub partition_key : ℤ

abbrev pub row_ids : List Row → List ℕ
row_ids = map (λ r. r.msg.id)

-- WHERE partition_key BETWEEN $1 AND $2
abbrev pub in_range : ℤ → ℤ → Row → Bool
in_range part_start part_end r = leb_ℤ part_start r.partition_key && leb_ℤ r.partition_key part_end

-- The rows of a range, oldest first, up to a limit.
abbrev pub select : ℤ → ℤ → ℕ → List Row → List BufMsg
select part_start part_end limit rows =
    take limit (map (λ r. r.msg) (keep (in_range part_start part_end) rows))

-- The table after DELETE … WHERE id IN (…).
abbrev pub without : List ℕ → List Row → List Row
without ids = keep (λ r. not (contains r.msg.id ids))

-- Each number is above the one before it.
abbrev pub Ascending : List ℕ → Type 0
Ascending [] = Unit
Ascending (x ∷ []) = Unit
Ascending (x ∷ y ∷ ys) = (x < y) × Ascending (y ∷ ys)

-- A row is scanned as itself, or its scan fails.
abbrev pub Delivers : List (Result BufMsg) → List BufMsg → Type 0
Delivers [] [] = Unit
Delivers [] (m ∷ ms) = ⊥
Delivers (r ∷ rs) [] = ⊥
Delivers (r ∷ rs) (m ∷ ms) = ((m' : BufMsg) → r ≡ ok m' → m' ≡ m) × Delivers rs ms

-- `rows` is the table in the order of its primary key.
pub record DbLaws (db : Db) : Type 0 where
  pub rows : db.World → List Row
  pub ascending : (w : db.World) → Ascending (row_ids (rows w))
  pub query-rows : (w : db.World) (a b n : ℤ) → rows (db.query w query_fetch_batch a b n).1 ≡ rows w
  pub query-delivers :
      (w : db.World) (a b : ℤ) (n : ℕ) (c : Cursor)
      → (db.query w query_fetch_batch a b (pos n)).0 ≡ ok c
      → c.error ≡ none
      → Delivers c.scans (select a b n (rows w))
  pub query-negative :
      (w : db.World) (a b : ℤ) (n : ℕ) (c : Cursor)
      → (db.query w query_fetch_batch a b (negsuc n)).0 ≡ ok c
      → ⊥
  pub exec-ok :
      (w : db.World) (ids : List ℕ) (r : Result ℕ)
      → (db.exec w (query_delete (length ids)) ids).0 ≡ ok r
      → rows (db.exec w (query_delete (length ids)) ids).1 ≡ without ids (rows w)
  -- After an error the statement may or may not have taken effect.
  pub exec-err :
      (w : db.World) (ids : List ℕ) (e : Str)
      → (db.exec w (query_delete (length ids)) ids).0 ≡ err e
      → (rows (db.exec w (query_delete (length ids)) ids).1 ≡ rows w)
        ⊎ (rows (db.exec w (query_delete (length ids)) ids).1 ≡ without ids (rows w))

count_below : (n : ℕ) (xs : List ℕ) (i : ℕ) → Ascending (n ∷ xs) → i ≤ n → count i xs ≡ 0
count_below n [] i a h = refl
count_below n (x ∷ xs) i a h = ground (arith, count_below x xs i a.1)

Ascending-tail : (x : ℕ) (xs : List ℕ) → Ascending (x ∷ xs) → Ascending xs
Ascending-tail x [] a = tt
Ascending-tail x (y ∷ ys) a = a.1

pub Ascending-count : (xs : List ℕ) (i : ℕ) → Ascending xs → count i xs ≤ 1
Ascending-count [] i a = omega arith
Ascending-count (x ∷ xs) i a =
    ground (arith, Ascending-count xs i (Ascending-tail x xs a), count_below x xs i a)

count-keep :
    (p : Row → Bool) (i : ℕ) (rs : List Row) → count i (row_ids (keep p rs)) ≤ count i (row_ids rs)
count-keep p i [] = omega arith
count-keep p i (r ∷ rs) = ground (arith, count-keep p i rs)

count-take : (i n : ℕ) (ms : List BufMsg) → count i (ids_of (take n ms)) ≤ count i (ids_of ms)
count-take i zero ms = omega arith
count-take i (suc n) [] = omega arith
count-take i (suc n) (m ∷ ms) = ground (arith, count-take i n ms)

ids_of-map : (rs : List Row) → ids_of (map (λ r. r.msg) rs) ≡ row_ids rs
ids_of-map [] = refl
ids_of-map (r ∷ rs) = ap (◌∷◌ r.msg.id) (ids_of-map rs)

-- A selection names no row that the table does not hold, and none twice.
pub count-select :
    (a b : ℤ) (n : ℕ) (rs : List Row) (i : ℕ)
    → count i (ids_of (select a b n rs)) ≤ count i (row_ids rs)
count-select a b n rs i = omega (
  arith,
  count-take i n (map (λ r. r.msg) (keep (in_range a b) rs)),
  ap (count i) (ids_of-map (keep (in_range a b) rs)),
  count-keep (in_range a b) i rs,
)

pub count-without :
    (ids : List ℕ) (rs : List Row) (i : ℕ)
    → count i (row_ids (without ids rs)) ≡ (if contains i ids then 0 else count i (row_ids rs))
count-without ids [] i = ground arith
count-without ids (r ∷ rs) i = ground (arith, count-without ids rs i)

scan-Delivers :
    (msgs : List BufMsg) (rs : List (Result BufMsg)) (ms : List BufMsg) {out : List BufMsg}
    → Delivers rs ms
    → scan_rows msgs rs ≡ ok out
    → out ≡ msgs ++ ms
unfolding scan_rows
scan-Delivers msgs [] [] d h = ground (arith, append-nil msgs)
scan-Delivers msgs [] (m ∷ ms) d h = absurd d
scan-Delivers msgs (r ∷ rs) [] d h = absurd d
scan-Delivers msgs (ok m' ∷ rs) (m ∷ ms) d h =
    scan-Delivers (msgs ++ m' ∷ []) rs ms d.1 h
    ∙ append_assoc msgs (m' ∷ []) ms
    ∙ ap (λ x. msgs ++ x ∷ ms) (d.0 m' refl)
scan-Delivers msgs (err e ∷ rs) (m ∷ ms) d h = cc

collect-ok :
    (r : Result Cursor) {msgs : List BufMsg}
    → collect r ≡ ok msgs
    → (c : Cursor) × (r ≡ ok c) × (c.error ≡ none) × (scan_rows [] c.scans ≡ ok msgs)
unfolding collect
collect-ok (ok c) h = (c, refl, ground arith, ground arith)
collect-ok (err e) h = cc

module _ (db : Db) (laws : DbLaws db) where
  open laws use {rows, query-rows, query-delivers, query-negative, exec-ok, exec-err}

  -- A successful load is the selection of the range at that time.
  pub fetch-select :
      (w : db.World) (a b n : ℤ) {msgs : List BufMsg}
      → (fetch_batch db w a b n).0 ≡ ok msgs
      → (k : ℕ) × (n ≡ pos k) × (msgs ≡ select a b k (rows w))
  unfolding fetch_batch
  fetch-select w a b (pos k) h =
      let (c, asked, done, scanned) = collect-ok (db.query w query_fetch_batch a b (pos k)).0 h in
      (k, refl, scan-Delivers [] c.scans _ (query-delivers w a b k c asked done) scanned)
  fetch-select w a b (negsuc k) h =
      let (c, asked, done, scanned) =
        collect-ok (db.query w query_fetch_batch a b (negsuc k)).0 h in
      absurd (query-negative w a b k c asked)

  -- A load names no message twice, and stays within its limit.
  pub fetch-once :
      (w : db.World) (a b n : ℤ) (msgs : List BufMsg) (i : ℕ)
      → (fetch_batch db w a b n).0 ≡ ok msgs
      → count i (ids_of msgs) ≤ 1
  fetch-once w a b n msgs i h =
      let (k, limit, sel) = fetch-select w a b n h in
      omega (
        arith,
        ap (λ (ms : List BufMsg). count i (ids_of ms)) sel,
        count-select a b k (rows w) i,
        Ascending-count (row_ids (rows w)) i (laws.ascending w),
      )

  pub fetch-bounded :
      (w : db.World) (a b n : ℤ) (msgs : List BufMsg)
      → (fetch_batch db w a b n).0 ≡ ok msgs
      → length msgs ≤ pos_part n
  fetch-bounded w a b n msgs h =
      let (k, limit, sel) = fetch-select w a b n h in
      omega (
        arith,
        ap (λ (ms : List BufMsg). length ms) sel,
        ap pos_part limit,
        length-take k (map (λ r. r.msg) (keep (in_range a b) (rows w))),
      )

  pub fetch-rows : (w : db.World) (a b n : ℤ) → rows (fetch_batch db w a b n).1 ≡ rows w
  unfolding fetch_batch
  fetch-rows w a b n = query-rows w a b n

  -- A refused deletion leaves the table, or has taken effect all the same.
  pub delete-rows :
      (w : db.World) (ids : List ℕ)
      → (rows (delete_by_ids db w ids).1 ≡ rows w)
        ⊎ (rows (delete_by_ids db w ids).1 ≡ without ids (rows w))
  unfolding delete_by_ids
  delete-rows w [] = inl refl
  delete-rows w (id ∷ ids) =
      elim (Result-cases (db.exec w (query_delete (length (id ∷ ids))) (id ∷ ids)).0) [
        | inl (r, e) ↦ inr (exec-ok w (id ∷ ids) r e)
        | inr (m, e) ↦ exec-err w (id ∷ ids) m e
      ]
