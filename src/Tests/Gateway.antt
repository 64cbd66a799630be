-- ===== src/Tests/Gateway.antt =====
-- The time window, with a parser that knows one instant.
use mathlib.Core.List.Perm
use my_queue.Base.{
  ◌≡◌, refl, ap, inl, ℤ, pos, ◌≤ℤ◌, Str, str_eq, false, none, some, List, [], ◌∷◌, map, bytes,
  Result, ok, err, Bool-cases, inr,
}
use my_queue.Gateway.Store.{TelemetryEntry, Cursor, Db}
use my_queue.Gateway.Handler.{gpus_endpoint, telemetry_endpoint}
use my_queue.Gateway.Table.{Row, IsDistinct, Delivers, entries_of, IsByTime, matches, DbLaws}
use my_queue.Gateway.Answers.{
  IsGpusAnswer, IsWindowAnswer, gpus_endpoint-IsGpusAnswer, telemetry_endpoint-IsWindowAnswer,
}
use my_queue.Gateway.{earliest, latest, Stands, parse_time_window, parse_time_window_exact}

abbrev test_parse : Str → Result ℤ
test_parse s = ok (pos 1000000000)

parse_time_window_exact_example :
    (parse_time_window test_parse (bytes "1970-01-01T00:00:01Z") [] ≡ ok (pos 1000000000, latest)
      → Stands test_parse (bytes "1970-01-01T00:00:01Z") earliest (pos 1000000000)
        × Stands test_parse [] latest latest
        × (pos 1000000000 ≤ℤ latest))
    × (Stands test_parse (bytes "1970-01-01T00:00:01Z") earliest (pos 1000000000)
        → Stands test_parse [] latest latest
        → pos 1000000000 ≤ℤ latest
        → parse_time_window test_parse (bytes "1970-01-01T00:00:01Z") []
          ≡ ok (pos 1000000000, latest))
parse_time_window_exact_example =
    parse_time_window_exact test_parse (bytes "1970-01-01T00:00:01Z") [] (pos 1000000000) latest

abbrev test_entry : TelemetryEntry
test_entry = record {
  uuid = bytes "u";
  gpu_id = bytes "0";
  metric_name = bytes "temp";
  timestamp = pos 5;
  device = none;
  model_name = none;
  hostname = none;
  container = none;
  pod = none;
  namespace = none;
  value = some 0;
  labels_raw = none;
  ingested_at = pos 6;
}

abbrev test_row : Row
test_row = record { uuid = some (bytes "u"); entry = test_entry }

abbrev test_table : List Row
test_table = test_row ∷ []

abbrev all_of : {A : Type 0} → List A → Cursor A
all_of as_ = record { scans = map ok as_; error = none }

abbrev test_db : Db
test_db = record {
  World = Unit {0};
  query_gpus = λ w stmt. (ok (all_of (bytes "u" ∷ [])), w);
  query_telemetry = λ w stmt u start end. (ok (all_of (entries_of u start end test_table)), w);
}

Delivers_self : {A : Type 0} (as_ : List A) → Delivers (map ok as_) as_
Delivers_self [] = tt
Delivers_self (a ∷ as_) = ((λ b e. cc), Delivers_self as_)

scans_of : {A : Type 0} → Result (Cursor A) → List (Result A)
scans_of (ok c) = c.scans
scans_of (err e) = []

delivered :
    {A : Type 0} (as_ : List A) {c : Cursor A} → ok (all_of as_) ≡ ok c → Delivers c.scans as_
unfolding scans_of
delivered as_ e = rw (← ap scans_of e) (Delivers_self as_)

one_gpu : IsDistinct test_table (bytes "u" ∷ [])
one_gpu u = elim (Bool-cases (str_eq (bytes "u") u)) [ inl e ↦ rw e refl | inr e ↦ rw e refl ]

one_entry-IsByTime : (u : Str) (start end : ℤ) → IsByTime (entries_of u start end test_table)
one_entry-IsByTime u start end = elim (Bool-cases (matches u start end test_row)) [
  | inl e ↦ rw e tt
  | inr e ↦ rw e tt
]

abbrev test_laws : DbLaws test_db
test_laws = record {
  rows = λ w. test_table;
  gpus-delivers = λ w c e done. (bytes "u" ∷ [], one_gpu, delivered _ e);
  telemetry-delivers = λ w u start end c e done. (
    entries_of u start end test_table,
    Perm.refl _,
    one_entry-IsByTime u start end,
    delivered _ e,
  );
}

gpus_endpoint-IsGpusAnswer_example :
    IsGpusAnswer test_db test_laws test_table false (gpus_endpoint test_db tt).0
gpus_endpoint-IsGpusAnswer_example = gpus_endpoint-IsGpusAnswer test_db test_laws tt

telemetry_endpoint-IsWindowAnswer_example :
    IsWindowAnswer test_db test_laws tt
      (bytes "u")
      (ok (pos 1000000000, latest))
      (telemetry_endpoint test_db test_parse tt (bytes "u") (bytes "1970-01-01T00:00:01Z") []).0
unfolding parse_time_window
telemetry_endpoint-IsWindowAnswer_example =
    telemetry_endpoint-IsWindowAnswer test_db test_laws test_parse tt (bytes "u")
      (bytes "1970-01-01T00:00:01Z") []
