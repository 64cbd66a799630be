-- ===== src/Process/Probes.antt =====
-- The health probes that the mains of cmd serve, with HealthResponse of internal/models. Probes of the
-- database and of the network are answered by the driver and by the client of internal/httpx.
use my_queue.Base.{
  ℕ, ◌≡◌, ◌≢◌, refl, ◌⊎◌, inl, inr, true, false, Option, none, some, ◌++◌, pos, Str, bytes, Result,
  ok, err, arith, ◌==◌, ap, decimal, Bool-cases,
}
use my_queue.Client.{Response}
use my_queue.Client.Get.{Getter, Settings, new_client, get, get-ne}
use my_queue.Collector.HttpClient as Collector
use my_queue.Streamer.Publish as Streamer

pub record HealthResponse : Type 0 where
  pub status : Str
  pub service : Str

-- writeJSON
pub record Reply : Type 0 where
  pub code : ℕ
  pub body : HealthResponse

abbrev pub ready : Str → Reply
ready service = record { code = 200; body = record { status = bytes "ready"; service = service } }

abbrev pub unavailable : Str → Reply
unavailable service = record {
  code = 503;
  body = record { status = bytes "unavailable"; service = service };
}

unfoldable pub healthz : Str → Reply
healthz service = record { code = 200; body = record { status = bytes "ok"; service = service } }

-- /readyz of mqwriter, mqreader and apigw, given the answer of db.Healthy.
unfoldable pub db_readyz : Str → Result (Unit {0}) → Reply
db_readyz service (err e) = unavailable service
db_readyz service (ok u) = ready service

abbrev pub mq_healthz : Str → Str
mq_healthz mq_base_url = mq_base_url ++ bytes "/healthz"

-- Healthy, on what Get gives. Without a response and without an error it panics.
abbrev probed : (Result Response → Option Str) → Result (Option Response) → Option (Option Str)
probed healthy (err e) = some (healthy (err e))
probed healthy (ok none) = none
probed healthy (ok (some r)) = some (healthy (ok r))

-- `none` is a panic.
abbrev after_probe : Str → Option (Option Str) → Option Reply
after_probe service none = none
after_probe service (some (some e)) = some (unavailable service)
after_probe service (some none) = some (ready service)

abbrev pub collector_client : Settings
collector_client = new_client (pos 10000000000) (pos 2)

abbrev pub streamer_client : Settings
streamer_client = new_client (pos 10000000000) (pos 1)

-- An answer with the status 200.
abbrev pub IsHealthy : Result (Option Response) → Type 0
IsHealthy r = (resp : Response) × (r ≡ ok (some resp)) × (resp.status_code ≡ 200)

-- Ready exactly on a condition, and unavailable otherwise.
abbrev pub IsReadyIf : Str → Type 0 → Option Reply → Type 0
IsReadyIf service P o = ((o ≡ some (ready service)) × P) ⊎ ((o ≡ some (unavailable service)) × ¬ P)

-- What the functions named Healthy have in common: no error for the status 200, and one for anything else.
record IsJudge (healthy : Result Response → Option Str) : Type 0 where
  on_err : (e : Str) → (x : Str) × (healthy (err e) ≡ some x)
  on_200 : (r : Response) → (r.status_code == 200) ≡ true → healthy (ok r) ≡ none
  on_others :
      (r : Response) → (r.status_code == 200) ≡ false → (x : Str) × (healthy (ok r) ≡ some x)

collector-IsJudge : IsJudge Collector.healthy
unfolding Collector.healthy
collector-IsJudge = record {
  on_err = λ e. (_, refl);
  on_200 = λ r h. rw h refl;
  on_others = λ r h. (bytes "mq healthz: status " ++ decimal r.status_code, rw h refl);
}

streamer-IsJudge : IsJudge Streamer.healthy
unfolding Streamer.healthy
streamer-IsJudge = record {
  on_err = λ e. (_, refl);
  on_200 = λ r h. rw h refl;
  on_others = λ r h. (bytes "mq healthz: status " ++ decimal r.status_code, rw h refl);
}

code_of : Result (Option Response) → ℕ
code_of (err e) = 0
code_of (ok none) = 0
code_of (ok (some r)) = r.status_code

probed-IsReadyIf :
    (service : Str) (healthy : Result Response → Option Str) (r : Result (Option Response))
    → IsJudge healthy
    → r ≢ ok none
    → IsReadyIf service (IsHealthy r) (after_probe service (probed healthy r))
unfolding code_of
probed-IsReadyIf service healthy (err e) v h =
    let (x, is_err) = v.on_err e in rw is_err (inr (refl, λ p. cc))
probed-IsReadyIf service healthy (ok none) v h = absurd (h refl)
probed-IsReadyIf service healthy (ok (some r)) v h = elim (Bool-cases (r.status_code == 200)) [
  | inl e ↦ rw (v.on_200 r e) (inl (refl, (r, refl, ground (arith, e))))
  | inr e ↦
      let (x, is_err) = v.on_others r e in
      rw is_err (inr (refl, λ p. absurd (ground (arith, e, ap code_of p.1, p.2))))
]

module _ (getter : Getter) (mq_base_url : Str) where
  abbrev pub World : Type 0
  World = getter.http.World

  abbrev pub collector_asks : World → Result (Option Response) × World
  collector_asks w = get getter collector_client.max_retries w (mq_healthz mq_base_url)

  abbrev pub streamer_asks : World → Result (Option Response) × World
  streamer_asks w = get getter streamer_client.max_retries w (mq_healthz mq_base_url)

  -- /readyz of collector, given the answer of db.Healthy.
  unfoldable pub collector_readyz : World → Result (Unit {0}) → Option Reply × World
  collector_readyz w (err e) = (some (unavailable (bytes "collector")), w)
  collector_readyz w (ok u) =
      let (r, w') = collector_asks w in
      (after_probe (bytes "collector") (probed Collector.healthy r), w')

  unfoldable pub streamer_readyz : World → Option Reply × World
  streamer_readyz w =
      let (r, w') = streamer_asks w in
      (after_probe (bytes "streamer") (probed Streamer.healthy r), w')

  -- The probe of the collector answers, and says ready exactly if the database answered its ping and the
  -- reader, asked with at most three attempts, ended with the status 200; otherwise it says that
  -- the service is unavailable. Without the database, it asks no reader.
  pub collector_readyz-IsReadyIf :
      (w : World) (db : Result (Unit {0}))
      → let t = collector_readyz w db in
        IsReadyIf (bytes "collector") ((db ≡ ok tt) × IsHealthy (collector_asks w).0) t.0
        × ((e : Str) → db ≡ err e → t.1 ≡ w)
  unfolding collector_readyz
  collector_readyz-IsReadyIf w (err e) = (inr (refl, λ p. cc), λ x h. refl)
  collector_readyz-IsReadyIf w (ok u) = (
    elim (probed-IsReadyIf (bytes "collector") Collector.healthy (collector_asks w).0
        collector-IsJudge (unfold new_client in get-ne getter 2 w (mq_healthz mq_base_url))) [
          | inl (e, p) ↦ inl (e, (refl, p))
          | inr (e, p) ↦ inr (e, λ q. p q.1)
        ],
    λ x h. cc,
  )

  -- The same of the streamer, which asks the writer with at most two attempts.
  pub streamer_readyz-IsReadyIf :
      (w : World)
      → IsReadyIf (bytes "streamer") (IsHealthy (streamer_asks w).0) (streamer_readyz w).0
  unfolding streamer_readyz
  streamer_readyz-IsReadyIf w =
      probed-IsReadyIf (bytes "streamer") Streamer.healthy (streamer_asks w).0 streamer-IsJudge
        (unfold new_client in get-ne getter 1 w (mq_healthz mq_base_url))
