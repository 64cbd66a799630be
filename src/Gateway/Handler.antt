-- ===== src/Gateway/Handler.antt =====
-- internal/apigw/handler.go: the two endpoints. A request is its path and query parameters.
use my_queue.Base.{ℕ, List, [], ◌∷◌, map, ℤ, Str, bytes, Result, ok, err}
use my_queue.Gateway.{parse_time_window}
use my_queue.Gateway.Store.{TelemetryEntry, Db, list_gpus, get_telemetry}

pub record GpuItem : Type 0 where
  pub id : Str

pub data Body : Type 0 where
  gpus_response : List GpuItem → Body
  telemetry_response : Str → List TelemetryEntry → Body
  error_response : Str → Body

pub record Response : Type 0 where
  pub status : ℕ
  pub body : Body

abbrev pub write_err : ℕ → Str → Response
write_err status message = record { status = status; body = error_response message }

abbrev pub gpus_answer : Result (List Str) → Response
gpus_answer (err e) = write_err 500 (bytes "failed to list GPUs")
gpus_answer (ok gpus) = record {
  status = 200;
  body = gpus_response (map (λ id. record { id = id }) gpus);
}

-- A nil slice is answered as an empty one.
abbrev pub telemetry_answer : Str → Result (List TelemetryEntry) → Response
telemetry_answer gpu_id (err e) = write_err 500 (bytes "failed to fetch telemetry")
telemetry_answer gpu_id (ok entries) = record {
  status = 200;
  body = telemetry_response gpu_id entries;
}

module _ (db : Db) where
  -- GET /api/v1/gpus
  unfoldable pub gpus_endpoint : db.World → Response × db.World
  gpus_endpoint w = let (r, w') = list_gpus db w in (gpus_answer r, w')

  abbrev pub in_window : db.World → Str → Result (ℤ × ℤ) → Response × db.World
  in_window w gpu_id (err e) = (write_err 400 e, w)
  in_window w gpu_id (ok (start, end)) =
      let (r, w') = get_telemetry db w gpu_id start end in (telemetry_answer gpu_id r, w')

  -- GET /api/v1/gpus/{id}/telemetry
  unfoldable pub telemetry_endpoint :
      (Str → Result ℤ) → db.World → Str → Str → Str → Response × db.World
  telemetry_endpoint parse w [] start_time end_time =
      (write_err 400 (bytes "gpu id is required"), w)
  telemetry_endpoint parse w (c ∷ cs) start_time end_time =
      in_window w (c ∷ cs) (parse_time_window parse start_time end_time)
