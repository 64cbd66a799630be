-- ===== src/Pipeline/System.antt =====
-- The system of a reader and its collectors as their code runs: the reader handles events, and whoever has
-- been given a lease runs the rest of processOnce (internal/collector/collector.go) on it, at
-- any time and any number of times. What it sends to acknowledge waits in the network, and is
-- delivered late, repeatedly, or never.
use my_queue.Base.{
  ℕ, ◌≡◌, Bool, true, false, ◌||◌, none, some, List, [], ◌∷◌, ◌++◌, map, Str, str_eq, bytes, Result,
  ok, err, Assoc, lookup,
}
use my_queue.Reader.Store.{BufMsg}
use my_queue.Reader.Store as Queue
use my_queue.Reader.Database as QueueLaws
use my_queue.Reader.Partition.{
  LeasedMsg, Loop, Event, LeaseCmd, AckCmd, lease, ack, Status, running, handle, start,
}
use my_queue.Reader.Partition as Partition
use my_queue.Reader.Execution.{Grows, acked_by}
use my_queue.Collector.Store.{TelemetryRow, Texts}
use my_queue.Collector.Store as Telemetry
use my_queue.Collector.Cycle.{MqClient, Config, collect_messages}
use my_queue.Collector.Delivered.{store_persister}
use my_queue.Pipeline.Ledger.{reply_of}
use my_queue.Pipeline.Flow.{received, IsInternal}

-- A client that keeps the IDs of the leases that it is asked to acknowledge. How the calls end matters
-- for log lines only.
abbrev pub outbox : MqClient
outbox = record {
  World = List Str;
  lease = λ sent topic consumer_id max lease_seconds. (err [], sent);
  ack = λ sent topic consumer_id lease_id. (ok (record { acked = 0 }), lease_id ∷ sent);
}

abbrev pub was_sent : Str → List Str → Bool
was_sent id [] = false
was_sent id (j ∷ sent) = str_eq j id || was_sent id sent

module _ (unmarshal : Str → Result TelemetryRow) (texts : Texts) (tele : Telemetry.Db) where
  -- What a collector does with the answer to a lease.
  abbrev pub collected :
      Config → tele.World → List Str → Str → List LeasedMsg → tele.World × List Str
  collected collector t sent uuid msgs =
      let c =
        collect_messages unmarshal outbox (store_persister texts tele) collector t sent
          (bytes "telemetry") uuid (map received msgs) in
      (c.store, c.mq)

  module _ (db : Queue.Db) (laws : QueueLaws.DbLaws db) (cfg : Partition.Config) where
    -- What the system has come to since a reader started on the world `w₀` of the queue and the world
    -- `t₀` of telemetry: the reader's world, variables, acknowledged messages and status, the
    -- world of telemetry, the answers to leases, and the acknowledgements that have been sent.
    pub data System (w₀ : db.World) (t₀ : tele.World)
        : db.World
          → Loop
          → List ℕ
          → Status
          → tele.World
          → Assoc (List LeasedMsg)
          → List Str
          → Type 0 where
      begins : System w₀ t₀ (start db cfg w₀).0 (start db cfg w₀).1 [] running t₀ [] []
      -- A lease, under an ID that has not been given before.
      leases :
          {w : db.World} {s : Loop} {acked : List ℕ} {t : tele.World}
          {given : Assoc (List LeasedMsg)} {sent : List Str}
          → System w₀ t₀ w s acked running t given sent
          → (cmd : LeaseCmd) (uuid : Str) (now : ℕ) → lookup uuid given ≡ none
          → System w₀ t₀
              (handle db cfg w s (lease cmd uuid now)).world
              (handle db cfg w s (lease cmd uuid now)).loop
              (acked ++ acked_by s (lease cmd uuid now))
              (handle db cfg w s (lease cmd uuid now)).status
              t
              ((uuid, reply_of (handle db cfg w s (lease cmd uuid now)).outputs) ∷ given)
              sent
      -- A collector, with whatever configuration, works on the answer to a lease.
      collects :
          {w : db.World} {s : Loop} {acked : List ℕ} {st : Status} {t : tele.World}
          {given : Assoc (List LeasedMsg)} {sent : List Str}
          → System w₀ t₀ w s acked st t given sent
          → (collector : Config) (uuid : Str) (msgs : List LeasedMsg)
          → lookup uuid given ≡ some msgs
          → System w₀ t₀ w s acked st
              (collected collector t sent uuid msgs).0
              given
              (collected collector t sent uuid msgs).1
      -- An acknowledgement that has been sent arrives.
      acks :
          {w : db.World} {s : Loop} {acked : List ℕ} {t : tele.World}
          {given : Assoc (List LeasedMsg)} {sent : List Str}
          → System w₀ t₀ w s acked running t given sent
          → (cmd : AckCmd) → was_sent cmd.lease_id sent ≡ true
          → System w₀ t₀
              (handle db cfg w s (ack cmd)).world
              (handle db cfg w s (ack cmd)).loop
              (acked ++ acked_by s (ack cmd))
              (handle db cfg w s (ack cmd)).status
              t
              given
              sent
      -- A tick, a drain, a look at the utilization, the end of the context.
      turns :
          {w : db.World} {s : Loop} {acked : List ℕ} {t : tele.World}
          {given : Assoc (List LeasedMsg)} {sent : List Str}
          → System w₀ t₀ w s acked running t given sent
          → (e : Event) → IsInternal e
          → System w₀ t₀
              (handle db cfg w s e).world
              (handle db cfg w s e).loop
              (acked ++ acked_by s e)
              (handle db cfg w s e).status
              t
              given
              sent
      -- Writers publish.
      publishes :
          {w w' : db.World} {s : Loop} {acked : List ℕ} {st : Status} {t : tele.World}
          {given : Assoc (List LeasedMsg)} {sent : List Str}
          → System w₀ t₀ w s acked st t given sent
          → Grows db laws cfg w w'
          → System w₀ t₀ w' s acked st t given sent
