-- ===== src/Tests/Rows.antt =====
-- A table of two rows of queue_messages, for the reader's theorems.
use my_queue.Base.{
  ℕ, ◌≡◌, refl, ap, Bool, true, false, not, ◌&&◌, none, List, [], ◌∷◌, ◌++◌, map, arith, ℤ, pos,
  negsuc, bytes, Result, ok, err, contains, inl,
}
use my_queue.Reader.Store.{BufMsg, Cursor, Db}
use my_queue.Reader.Database.{Row, row_ids, select, without, Ascending, Delivers, DbLaws}

abbrev pub first : BufMsg
first = record { id = 1; topic = bytes "telemetry"; msg_uuid = bytes "u1"; payload = bytes "{}" }

abbrev pub second : BufMsg
second = record { id = 2; topic = bytes "telemetry"; msg_uuid = bytes "u2"; payload = bytes "[]" }

-- Which of the two rows the table holds.
abbrev present : Bool → Row → List Row
present true r = r ∷ []
present false r = []

abbrev pub two_rows : Bool × Bool → List Row
two_rows (a, b) =
    present a (record { msg = first; partition_key = pos 0 })
    ++ present b (record { msg = second; partition_key = pos 1 })

abbrev all_of : List BufMsg → Cursor
all_of ms = record { scans = map ok ms; error = none }

abbrev select_all : ℤ → ℤ → ℤ → List Row → Result Cursor
select_all a b (pos n) rows = ok (all_of (select a b n rows))
select_all a b (negsuc n) rows = err (bytes "LIMIT must not be negative")

abbrev pub test_db : Db
test_db = record {
  World = Bool × Bool;
  query = λ w stmt a b n. (select_all a b n (two_rows w), w);
  exec = λ w stmt ids. (ok (ok 0), (w.0 && not (contains 1 ids), w.1 && not (contains 2 ids)));
}

Delivers_self : (ms : List BufMsg) → Delivers (map ok ms) ms
Delivers_self [] = tt
Delivers_self (m ∷ ms) = ((λ m' e. cc), Delivers_self ms)

pub two_rows-Ascending : (w : Bool × Bool) → Ascending (row_ids (two_rows w))
two_rows-Ascending (true, true) = (omega arith, tt)
two_rows-Ascending (true, false) = tt
two_rows-Ascending (false, true) = tt
two_rows-Ascending (false, false) = tt

pub two_rows-without :
    (w : Bool × Bool) (ids : List ℕ)
    → two_rows (w.0 && not (contains 1 ids), w.1 && not (contains 2 ids)) ≡ without ids (two_rows w)
two_rows-without (true, true) ids = ground arith
two_rows-without (true, false) ids = ground arith
two_rows-without (false, true) ids = ground arith
two_rows-without (false, false) ids = ground arith

scans_of : Result Cursor → List (Result BufMsg)
scans_of (ok c) = c.scans
scans_of (err e) = []

pub delivered : {c : Cursor} (ms : List BufMsg) → ok (all_of ms) ≡ ok c → Delivers c.scans ms
unfolding scans_of
delivered ms e = rw (← ap scans_of e) (Delivers_self ms)

unfoldable pub test_laws : DbLaws test_db
test_laws = record {
  rows = two_rows;
  ascending = two_rows-Ascending;
  query-rows = λ w a b n. refl;
  query-delivers = λ w a b n c asked done. delivered (select a b n (two_rows w)) asked;
  query-negative = λ w a b n c asked. cc;
  exec-ok = λ w ids r e. two_rows-without w ids;
  exec-err = λ w ids e h. inl cc;
}
