-- ===== src/Gateway/Table.antt =====
-- What PostgreSQL documents of the two queries of internal/apigw, over the rows of the telemetry table.
use mathlib.Core.List.{append_assoc, append-nil, Perm}
use my_queue.Base.{
  ℕ, ◌+◌, ◌≡◌, refl, ap, ◌∙◌, Bool, true, false, ◌&&◌, ◌||◌, Option, none, some, List, [], ◌∷◌,
  ◌++◌, map, arith, ℤ, ◌≤ℤ◌, leb_ℤ, Str, str_eq, Result, ok, err, ◌>>=◌, keep, if◌then◌else◌,
}
use my_queue.Gateway.Store.{
  TelemetryEntry, Cursor, Db, query_distinct_gpus, query_telemetry_by_gpu, scan_all, rows_err,
  collect,
}

-- A row of the telemetry table: its uuid may be NULL.
pub record Row : Type 0 where
  pub uuid : Option Str
  pub entry : TelemetryEntry

abbrev pub has_uuid : Str → Option Str → Bool
has_uuid u none = false
has_uuid u (some v) = str_eq v u

-- WHERE uuid = $1 AND timestamp >= $2 AND timestamp <= $3
abbrev pub matches : Str → ℤ → ℤ → Row → Bool
matches u start end r =
    has_uuid u r.uuid && (leb_ℤ start r.entry.timestamp && leb_ℤ r.entry.timestamp end)

abbrev pub entries_of : Str → ℤ → ℤ → List Row → List TelemetryEntry
entries_of u start end rows = map (λ r. r.entry) (keep (matches u start end) rows)

-- ORDER BY timestamp ASC
abbrev pub IsByTime : List TelemetryEntry → Type 0
IsByTime [] = Unit
IsByTime (e ∷ []) = Unit
IsByTime (e ∷ f ∷ es) = (e.timestamp ≤ℤ f.timestamp) × IsByTime (f ∷ es)

abbrev pub any_row : Str → List Row → Bool
any_row u [] = false
any_row u (r ∷ rs) = has_uuid u r.uuid || any_row u rs

abbrev pub times : Str → List Str → ℕ
times u [] = 0
times u (v ∷ vs) = (if str_eq v u then 1 else 0) + times u vs

-- Each uuid of a row stands in the list, once, and nothing else does.
abbrev pub IsDistinct : List Row → List Str → Type 0
IsDistinct rows us = (u : Str) → times u us ≡ (if any_row u rows then 1 else 0)

-- A row is scanned as itself, or its scan fails.
abbrev pub Delivers : {A : Type 0} → List (Result A) → List A → Type 0
Delivers [] [] = Unit
Delivers [] (a ∷ as_) = ⊥
Delivers (r ∷ rs) [] = ⊥
Delivers {A} (r ∷ rs) (a ∷ as_) = ((b : A) → r ≡ ok b → b ≡ a) × Delivers rs as_

pub record DbLaws (db : Db) : Type 0 where
  pub rows : db.World → List Row
  pub gpus-delivers :
      (w : db.World) (c : Cursor Str)
      → (db.query_gpus w query_distinct_gpus).0 ≡ ok c
      → c.error ≡ none
      → (us : List Str) × IsDistinct (rows w) us × Delivers c.scans us
  pub telemetry-delivers :
      (w : db.World) (u : Str) (start end : ℤ) (c : Cursor TelemetryEntry)
      → (db.query_telemetry w query_telemetry_by_gpu u start end).0 ≡ ok c
      → c.error ≡ none
      → (es : List TelemetryEntry) × Perm es (entries_of u start end (rows w))
        × IsByTime es
        × Delivers c.scans es

pub scan-Delivers :
    {A : Type 0} (what : Str) (done : List A) (rs : List (Result A)) (as_ : List A) {out : List A}
    → Delivers rs as_
    → scan_all what done rs ≡ ok out
    → out ≡ done ++ as_
unfolding scan_all
scan-Delivers what done [] [] d h = ground (arith, append-nil done)
scan-Delivers what done [] (a ∷ as_) d h = absurd d
scan-Delivers what done (r ∷ rs) [] d h = absurd d
scan-Delivers what done (ok b ∷ rs) (a ∷ as_) d h =
    scan-Delivers what (done ++ b ∷ []) rs as_ d.1 h
    ∙ append_assoc done (b ∷ []) as_
    ∙ ap (λ x. done ++ x ∷ as_) (d.0 b refl)
scan-Delivers what done (err e ∷ rs) (a ∷ as_) d h = cc

pub collect-ok :
    {A : Type 0} (p q : Str) (r : Result (Cursor A)) {out : List A}
    → collect p q r ≡ ok out
    → (c : Cursor A) × (r ≡ ok c) × (c.error ≡ none) × (scan_all q [] c.scans ≡ ok out)
unfolding collect
collect-ok p q (ok c) h = (c, refl, ground arith, ground arith)
collect-ok p q (err e) h = cc

-- The query, a scan or the iteration has failed.
abbrev pub any_failed : {A : Type 0} → List (Result A) → Bool
any_failed [] = false
any_failed (ok a ∷ rest) = any_failed rest
any_failed (err e ∷ rest) = true

abbrev pub is_some : Option Str → Bool
is_some none = false
is_some (some e) = true

abbrev pub has_failed : {A : Type 0} → Result (Cursor A) → Bool
has_failed (err e) = true
has_failed (ok c) = any_failed c.scans || is_some c.error

scan-failed :
    {A : Type 0} (what : Str) (done : List A) (rs : List (Result A)) {e : Str}
    → scan_all what done rs ≡ err e
    → any_failed rs ≡ true
unfolding scan_all
scan-failed what done [] h = cc
scan-failed what done (ok a ∷ rest) h = scan-failed what (done ++ a ∷ []) rest h
scan-failed what done (err e ∷ rest) h = refl

pub collect-failed :
    {A : Type 0} (p q : Str) (r : Result (Cursor A)) {e : Str}
    → collect p q r ≡ err e
    → has_failed r ≡ true
unfolding collect
collect-failed p q (err e) h = refl
collect-failed {A = A} p q (ok c) h =
    scanned c.error (scan_all q [] c.scans) (λ e x. scan-failed q [] c.scans x) h
  where
    scanned :
        (o : Option Str) (r : Result (List A))
        → ((e : Str) → r ≡ err e → any_failed c.scans ≡ true)
        → {e : Str} → (r >>= rows_err o) ≡ err e
        → (any_failed c.scans || is_some o) ≡ true
    scanned none (ok done) f h = cc
    scanned (some x) (ok done) f h = ground arith
    scanned o (err x) f h = rw (f x refl) refl
