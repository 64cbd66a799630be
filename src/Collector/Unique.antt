-- ===== src/Collector/Unique.antt =====
-- What the inserts of internal/collector/store.go keep of the telemetry table.
use my_queue.Base.{
  ℕ, suc, ◌+◌, ◌≤◌, ◌≡◌, refl, ap, ◌⊎◌, inl, inr, true, false, List, [], ◌∷◌, ◌++◌, arith, Str,
  str_eq, str_eq→eq, Result, ok, err, if◌then◌else◌, Bool-cases,
}
use my_queue.Collector.Store.{TelemetryRow, Args, args_of}
use my_queue.Collector.Table.{has_uuid, add_new, insert_new}

-- How many rows a table holds under a UUID.
unfoldable pub count_uuid : Str → List Args → ℕ
count_uuid u [] = 0
count_uuid u (a ∷ table) =
    let rest = count_uuid u table in if str_eq a.msg_uuid u then suc rest else rest

abbrev pub IsUnique : List Args → Type 0
IsUnique table = (u : Str) → count_uuid u table ≤ 1

has_uuid-count : (u : Str) (table : List Args) → has_uuid u table ≡ false → count_uuid u table ≡ 0
unfolding has_uuid count_uuid
has_uuid-count u [] h = refl
has_uuid-count u (a ∷ table) h = ground (arith, has_uuid-count u table, h)

count_uuid-snoc :
    (u : Str) (table : List Args) (a : Args)
    → count_uuid u (table ++ a ∷ []) ≡ count_uuid u table + (if str_eq a.msg_uuid u then 1 else 0)
unfolding count_uuid
count_uuid-snoc u [] a = ground arith
count_uuid-snoc u (b ∷ table) a = ground (arith, count_uuid-snoc u table a)

module _ (parse_uuid : Str → Result Str) where
  add_new-IsUnique :
      (table : List Args) (row : TelemetryRow) (r : Result Str)
      → IsUnique table
      → IsUnique (add_new table row r)
  add_new-IsUnique table row (err e) h = h
  add_new-IsUnique table row (ok v) h = elim (Bool-cases (has_uuid v table)) [
    | inl e ↦ rw e h
    | inr e ↦ rw e (λ u. fresh u e (Bool-cases (str_eq v u)))
  ]
    where
      fresh :
          (u : Str)
          → has_uuid v table ≡ false
          → (str_eq v u ≡ true) ⊎ (str_eq v u ≡ false)
          → count_uuid u (table ++ args_of row v ∷ []) ≤ 1
      fresh u new (inl e) = ground (
        arith,
        count_uuid-snoc u table (args_of row v),
        e,
        ap (λ x. count_uuid x table) (str_eq→eq v u e),
        has_uuid-count v table new,
      )
      fresh u new (inr e) = ground (arith, count_uuid-snoc u table (args_of row v), e, h u)

  pub insert_new-IsUnique :
      (table : List Args) (batch : List TelemetryRow)
      → IsUnique table
      → IsUnique (insert_new parse_uuid table batch)
  unfolding insert_new
  insert_new-IsUnique table [] h = h
  insert_new-IsUnique table (row ∷ batch) h =
      insert_new-IsUnique (add_new table row (parse_uuid row.msg_uuid)) batch
        (add_new-IsUnique table row (parse_uuid row.msg_uuid) h)

  -- The statement's values for a row.
  abbrev pub IsOf : TelemetryRow → Args → Type 0
  IsOf row a = (u : Str) × (parse_uuid row.msg_uuid ≡ ok u) × (a ≡ args_of row u)
