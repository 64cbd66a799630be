-- ===== src/Gateway/Answers.antt =====
-- What the endpoints of internal/apigw answer.
use mathlib.Core.List.{Perm}
use my_queue.Base.{
  ◌≡◌, refl, ap, ◌⊎◌, inl, inr, Bool, true, List, [], ◌∷◌, map, ℤ, Str, bytes, Result, ok, err,
}
use my_queue.Gateway.{parse_time_window}
use my_queue.Gateway.Store.{
  TelemetryEntry, Db, query_distinct_gpus, query_telemetry_by_gpu, collect, list_gpus,
  get_telemetry,
}
use my_queue.Gateway.Handler.{
  Response, gpus_response, telemetry_response, gpus_answer, telemetry_answer, gpus_endpoint,
  in_window, telemetry_endpoint,
}
use my_queue.Gateway.Table.{
  Row, entries_of, IsByTime, IsDistinct, DbLaws, scan-Delivers, collect-ok, has_failed,
  collect-failed,
}

module _ (db : Db) (laws : DbLaws db) where
  open laws use {rows, gpus-delivers, telemetry-delivers}

  -- What the list of GPUs may be.
  abbrev pub IsGpusAnswer : List Row → Bool → Response → Type 0
  IsGpusAnswer table failed r =
      ((us : List Str) × IsDistinct table us
        × (r ≡ record { status = 200; body = gpus_response (map (λ id. record { id = id }) us) }))
      ⊎ ((failed ≡ true) × (r.status ≡ 500))

  -- GET /api/v1/gpus answers each uuid of the telemetry table once, and nothing else, or
  -- status 500, the latter only if the query, a scan or the iteration has failed.
  pub gpus_endpoint-IsGpusAnswer :
      (w : db.World)
      → IsGpusAnswer
          (rows w)
          (has_failed (db.query_gpus w query_distinct_gpus).0)
          (gpus_endpoint db w).0
  unfolding gpus_endpoint list_gpus
  gpus_endpoint-IsGpusAnswer w = listed (collect p q (db.query_gpus w query_distinct_gpus).0) refl
    where
      p : Str
      p = bytes "list gpus: "

      q : Str
      q = bytes "scan gpu_id: "

      listed :
          (r : Result (List Str))
          → collect p q (db.query_gpus w query_distinct_gpus).0 ≡ r
          → IsGpusAnswer
              (rows w)
              (has_failed (db.query_gpus w query_distinct_gpus).0)
              (gpus_answer r)
      listed (err e) h = inr (collect-failed p q (db.query_gpus w query_distinct_gpus).0 h, refl)
      listed (ok us) h =
          let (c, asked, done, scanned) =
            collect-ok p q (db.query_gpus w query_distinct_gpus).0 h in
          let (vs, distinct, delivered) = gpus-delivers w c asked done in
          inl (
            vs,
            distinct,
            ap (λ l. gpus_answer (ok l)) (scan-Delivers q [] c.scans vs delivered scanned),
          )

  -- What the telemetry of a GPU in a window may be.
  abbrev pub IsTelemetryAnswer : List Row → Bool → Str → ℤ → ℤ → Response → Type 0
  IsTelemetryAnswer table failed u start end r =
      ((es : List TelemetryEntry) × Perm es (entries_of u start end table)
        × IsByTime es
        × (r ≡ record { status = 200; body = telemetry_response u es }))
      ⊎ ((failed ≡ true) × (r.status ≡ 500))

  found :
      (w : db.World) (u : Str) (start end : ℤ)
      → IsTelemetryAnswer
          (rows w)
          (has_failed (db.query_telemetry w query_telemetry_by_gpu u start end).0)
          u
          start
          end
          (telemetry_answer u (get_telemetry db w u start end).0)
  unfolding get_telemetry
  found w u start end =
      listed (collect p q (db.query_telemetry w query_telemetry_by_gpu u start end).0) refl
    where
      p : Str
      p = bytes "get telemetry: "

      q : Str
      q = bytes "scan telemetry: "

      listed :
          (r : Result (List TelemetryEntry))
          → collect p q (db.query_telemetry w query_telemetry_by_gpu u start end).0 ≡ r
          → IsTelemetryAnswer
              (rows w)
              (has_failed (db.query_telemetry w query_telemetry_by_gpu u start end).0)
              u
              start
              end
              (telemetry_answer u r)
      listed (err e) h =
          inr
            (collect-failed p q (db.query_telemetry w query_telemetry_by_gpu u start end).0 h, refl)
      listed (ok out) h =
          let (c, asked, done, scanned) =
            collect-ok p q (db.query_telemetry w query_telemetry_by_gpu u start end).0 h in
          let (es, perm, sorted, delivered) = telemetry-delivers w u start end c asked done in
          inl (
            es,
            perm,
            sorted,
            ap (λ l. telemetry_answer u (ok l)) (scan-Delivers q [] c.scans es delivered scanned),
          )

  -- What the telemetry endpoint may answer for an ID and a window, or the error of parsing it.
  abbrev pub IsWindowAnswer : db.World → Str → Result (ℤ × ℤ) → Response → Type 0
  IsWindowAnswer w [] window r = r.status ≡ 400
  IsWindowAnswer w (c ∷ cs) (err e) r = r.status ≡ 400
  IsWindowAnswer w (c ∷ cs) (ok (start, end)) r =
      IsTelemetryAnswer (rows w)
        (has_failed (db.query_telemetry w query_telemetry_by_gpu (c ∷ cs) start end).0) (c ∷ cs)
        start end r

  -- GET /api/v1/gpus/{id}/telemetry answers status 400 if the ID is empty or the window is refused.
  -- Otherwise it answers, under the same ID, just the entries of the table with that uuid whose
  -- timestamps lie in the window, each as often as the table has it, ordered by timestamp, or
  -- status 500, the latter only if the query, a scan or the iteration has failed.
  pub telemetry_endpoint-IsWindowAnswer :
      (parse : Str → Result ℤ) (w : db.World) (u start_time end_time : Str)
      → IsWindowAnswer w u
          (parse_time_window parse start_time end_time)
          (telemetry_endpoint db parse w u start_time end_time).0
  unfolding telemetry_endpoint
  telemetry_endpoint-IsWindowAnswer parse w [] start_time end_time = refl
  telemetry_endpoint-IsWindowAnswer parse w (c ∷ cs) start_time end_time =
      asked (parse_time_window parse start_time end_time)
    where
      asked : (r : Result (ℤ × ℤ)) → IsWindowAnswer w (c ∷ cs) r (in_window db w (c ∷ cs) r).0
      asked (err e) = refl
      asked (ok (start, end)) = found w (c ∷ cs) start end
