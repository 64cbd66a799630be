-- ===== src/Collector/Cycle.antt =====
-- internal/collector/collector.go: one cycle of lease, persist and ack. The MQ reader's client, the
-- JSON decoder of a payload and the Persister are parameters.
use my_queue.Base.{ℕ, zero, suc, List, [], ◌∷◌, ℤ, Str, bytes, Result, ok, err}
use my_queue.Collector.Store.{TelemetryRow}

pub record LeaseMessage : Type 0 where
  pub msg_uuid : Str
  pub payload : Str

pub record LeaseResponse : Type 0 where
  pub lease_id : Str
  pub messages : List LeaseMessage

pub record AckResponse : Type 0 where
  pub acked : ℕ

pub record MqClient : Type 1 where
  pub World : Type 0
  pub lease : World → Str → Str → ℤ → ℤ → Result LeaseResponse × World
  pub ack : World → Str → Str → Str → Result AckResponse × World

pub record Persister : Type 1 where
  pub World : Type 0
  pub persist_batch : World → List TelemetryRow → Result (ℕ × ℕ) × World

-- The fields of config.Collector that the loop reads.
pub record Config : Type 0 where
  pub collector_id : Str
  pub lease_max : ℤ
  pub lease_seconds : ℤ

-- How a cycle ends: the last line that it logs.
pub data Outcome : Type 0 where
  lease_failed : Str → Outcome
  no_messages : Outcome
  all_unparseable : Outcome
  persist_failed : Str → Outcome
  ack_failed : Str → Outcome
  acked_lease : ℕ → Outcome

pub record Cycle (S M : Type 0) : Type 0 where
  pub store : S
  pub mq : M
  pub outcome : Outcome

abbrev ack_outcome : Result AckResponse → Outcome
ack_outcome (ok r) = acked_lease r.acked
ack_outcome (err e) = ack_failed e

-- An unparseable message is skipped.
abbrev pub add_row : Str → Result TelemetryRow → List TelemetryRow → List TelemetryRow
add_row msg_uuid (ok row) rows = record row { msg_uuid = msg_uuid } ∷ rows
add_row msg_uuid (err e) rows = rows

unfoldable pub parse_rows : (Str → Result TelemetryRow) → List LeaseMessage → List TelemetryRow
parse_rows unmarshal [] = []
parse_rows unmarshal (msg ∷ msgs) =
    add_row msg.msg_uuid (unmarshal msg.payload) (parse_rows unmarshal msgs)

module _ (unmarshal : Str → Result TelemetryRow) (mqc : MqClient) (persister : Persister)
    (cfg : Config) where
  abbrev After : Type 0
  After = Cycle persister.World mqc.World

  -- Step 4, if step 3 has succeeded.
  unfoldable pub ack_if : persister.World → mqc.World → Str → Str → Result (ℕ × ℕ) → After
  ack_if s m topic lease_id (err e) = record { store = s; mq = m; outcome = persist_failed e }
  ack_if s m topic lease_id (ok counts) =
      let (r, m') = mqc.ack m topic cfg.collector_id lease_id in
      record { store = s; mq = m'; outcome = ack_outcome r }

  -- Step 3, if there is something to persist.
  unfoldable pub persist_if : persister.World → mqc.World → Str → Str → List TelemetryRow → After
  persist_if s m topic lease_id [] = record { store = s; mq = m; outcome = all_unparseable }
  persist_if s m topic lease_id (row ∷ rows) =
      let (r, s') = persister.persist_batch s (row ∷ rows) in ack_if s' m topic lease_id r

  unfoldable pub collect_messages :
      persister.World → mqc.World → Str → Str → List LeaseMessage → After
  collect_messages s m topic lease_id [] = record { store = s; mq = m; outcome = no_messages }
  collect_messages s m topic lease_id (msg ∷ msgs) =
      persist_if s m topic lease_id (parse_rows unmarshal (msg ∷ msgs))

  unfoldable pub collect_lease : persister.World → mqc.World → Str → Result LeaseResponse → After
  collect_lease s m topic (err e) = record { store = s; mq = m; outcome = lease_failed e }
  collect_lease s m topic (ok resp) = collect_messages s m topic resp.lease_id resp.messages

  unfoldable pub process_once : persister.World → mqc.World → Str → After
  process_once s m topic =
      let (r, m') = mqc.lease m topic cfg.collector_id cfg.lease_max cfg.lease_seconds in
      collect_lease s m' topic r

  -- Run: one cycle per tick.
  unfoldable pub run : ℕ → persister.World → mqc.World → persister.World × mqc.World
  run zero s m = (s, m)
  run (suc ticks) s m = let t = process_once s m (bytes "telemetry") in run ticks t.store t.mq
