-- ===== src/Tests/Collector.antt =====
-- The collector's theorems, on a telemetry table in memory and a lease of two messages.
use my_queue.Base.{
  ℕ, ◌+◌, ◌≡◌, refl, ◌⊎◌, inl, Bool, true, false, List, [], ◌∷◌, ◌++◌, pos, Str, bytes, Result, ok,
  err, All, if◌then◌else◌,
}
use my_queue.Collector.Store.{TelemetryRow, Args, Scan, inserted, no_rows, Db, Texts, persist_batch}
use my_queue.Collector.Cycle.{LeaseResponse, MqClient, Config, process_once}
use my_queue.Collector.Table.{has_uuid, DbLaws}
use my_queue.Collector.Persisted.{IsPersisted, persist_batch-IsPersisted}
use my_queue.Collector.Delivered.{store_persister, IsSafe, acks_only_persisted}

abbrev pub Tables : Type 0
Tables = List Args × List Args

abbrev pub insert_scan : Bool → Scan
insert_scan b = if b then no_rows else inserted

abbrev pub insert_seen : Bool → List Args → Args → List Args
insert_seen b rows a = if b then rows else rows ++ a ∷ []

abbrev pub test_db : Db
test_db = record {
  World = Tables;
  begin = λ w. (ok tt, (w.0, w.0));
  prepare = λ w. (ok tt, w);
  insert = λ w a.
      (insert_scan (has_uuid a.msg_uuid w.1), (w.0, insert_seen (has_uuid a.msg_uuid w.1) w.1 a));
  commit = λ w. (ok tt, (w.1, w.1));
  rollback = λ w. (w.0, w.0);
}

pub new_uuid :
    (b : Bool) (rows : List Args) (a : Args)
    → insert_scan b ≡ inserted
    → (b ≡ false) × (insert_seen b rows a ≡ rows ++ a ∷ [])
new_uuid true rows a e = cc
new_uuid false rows a e = (refl, refl)

pub old_uuid :
    (b : Bool) (rows : List Args) (a : Args)
    → insert_scan b ≡ no_rows
    → (b ≡ true) × (insert_seen b rows a ≡ rows)
old_uuid true rows a e = (refl, refl)
old_uuid false rows a e = cc

unfoldable pub test_laws : DbLaws test_db
test_laws = record {
  rows = λ w. w.0;
  seen = λ w. w.1;
  begin-rows = λ w. refl;
  begin-seen = λ w. refl;
  prepare-rows = λ w. refl;
  prepare-seen = λ w. refl;
  insert-rows = λ w a. refl;
  insert-inserted = λ w a e. new_uuid (has_uuid a.msg_uuid w.1) w.1 a e;
  insert-no_rows = λ w a e. old_uuid (has_uuid a.msg_uuid w.1) w.1 a e;
  commit-ok = λ w u e. refl;
  commit-err = λ w e h. inl cc;
  rollback-rows = λ w. refl;
}

abbrev pub test_texts : Texts
test_texts = record { parse_uuid = ok; quote = λ s. s }

abbrev sample : Str → TelemetryRow
sample msg_uuid = record {
  uuid = bytes "GPU-1";
  msg_uuid = msg_uuid;
  gpu_id = bytes "0";
  metric_name = bytes "temp";
  timestamp = pos 0;
  device = [];
  model_name = [];
  hostname = [];
  container = [];
  pod = [];
  namespace = [];
  value = 0;
  labels_raw = [];
}

-- An empty payload cannot be parsed.
abbrev test_unmarshal : Str → Result TelemetryRow
test_unmarshal [] = err (bytes "unexpected end of JSON input")
test_unmarshal (c ∷ cs) = ok (sample [])

abbrev test_lease : LeaseResponse
test_lease = record {
  lease_id = bytes "lease-1";
  messages =
      record { msg_uuid = bytes "u1"; payload = bytes "{}" }
      ∷ record { msg_uuid = bytes "u2"; payload = [] }
      ∷ [];
}

-- The reader counts the acks that it is sent.
abbrev test_mq : MqClient
test_mq = record {
  World = ℕ;
  lease = λ m topic consumer max seconds. (ok test_lease, m);
  ack = λ m topic consumer lease_id. (ok (record { acked = 2 }), m + 1);
}

abbrev pub test_config : Config
test_config = record { collector_id = bytes "c1"; lease_max = pos 100; lease_seconds = pos 30 }

abbrev pub no_telemetry : Tables
no_telemetry = ([], [])

persist_batch-IsPersisted_example :
    let answer =
      persist_batch test_texts test_db no_telemetry
        (sample (bytes "u1") ∷ sample (bytes "u1") ∷ []) in
    IsPersisted test_texts test_db test_laws no_telemetry
      (sample (bytes "u1") ∷ sample (bytes "u1") ∷ [])
      answer.0
      answer.1.0
unfolding test_laws
persist_batch-IsPersisted_example =
    persist_batch-IsPersisted test_texts test_db test_laws no_telemetry
      (sample (bytes "u1") ∷ sample (bytes "u1") ∷ [])

acks_only_persisted_example :
    let t =
      process_once test_unmarshal test_mq
        (store_persister test_texts test_db)
        test_config
        no_telemetry
        0
        (bytes "telemetry") in
    (t.mq ≡ 0)
    ⊎ ((resp : LeaseResponse) × (ok test_lease ≡ ok resp)
        × (t.mq ≡ 1)
        × All
            (IsSafe test_unmarshal test_texts test_db test_laws test_mq test_config t.store.0)
            resp.messages)
unfolding test_laws
acks_only_persisted_example =
    acks_only_persisted test_unmarshal test_texts test_db test_laws test_mq test_config no_telemetry
      0 (bytes "telemetry")
