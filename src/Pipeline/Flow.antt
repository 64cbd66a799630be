-- ===== src/Pipeline/Flow.antt =====
-- The executions of a reader with the collectors that it serves, and with the telemetry table that
-- they fill. Turns of the reader, cycles of the collectors, and writes of other services interleave in
-- any order.
use my_queue.Base.{
  ℕ, ◌≡◌, true, none, some, List, [], ◌∷◌, ◌++◌, map, Str, Result, ok, Assoc, lookup, All,
}
use my_queue.Reader.Store.{Db}
use my_queue.Reader.Database.{DbLaws}
use my_queue.Reader.Partition.{
  LeasedMsg, Config, Loop, Event, LeaseCmd, AckCmd, lease, ack, Status, running, handle, start,
}
use my_queue.Reader.Execution.{Grows, acked_by, Reach, begin, turn, others}
use my_queue.Collector.Store.{TelemetryRow, Args}
use my_queue.Collector.Cycle.{LeaseMessage}
use my_queue.Collector.Table.{has_uuid, Gains}
use my_queue.Pipeline.Ledger.{reply_of}
use my_queue.Pipeline.Traced.{IsQuiet}

-- The message that a collector receives, as JSON carries it.
abbrev pub received : LeasedMsg → LeaseMessage
received m = record { msg_uuid = m.msg_uuid; payload = m.payload }

-- No ack, and no lease.
abbrev pub IsInternal : Event → Type 0
IsInternal (ack cmd) = ⊥
IsInternal e = IsQuiet e

module _ (unmarshal : Str → Result TelemetryRow) (parse_uuid : Str → Result Str) where
  -- Collector.Delivered.IsSafe: what the collector has made sure of when it acknowledges.
  abbrev pub Persisted : List Args → LeaseMessage → Type 0
  Persisted table msg =
      (row : TelemetryRow)
      → unmarshal msg.payload ≡ ok row
      → (u : Str) × (parse_uuid msg.msg_uuid ≡ ok u) × (has_uuid u table ≡ true)

  module _ (db : Db) (laws : DbLaws db) (cfg : Config) where
    -- What the system has come to since a reader started on the world `w₀`: the reader's world,
    -- variables, acknowledged messages and status, the telemetry table, and the answers to leases.
    pub data Flow (w₀ : db.World)
        : db.World → Loop → List ℕ → Status → List Args → Assoc (List LeasedMsg) → Type 0 where
      begins :
          {table : List Args} → Flow w₀ (start db cfg w₀).0 (start db cfg w₀).1 [] running table []
      -- A lease, under an ID that has not been given before.
      leases :
          {w : db.World} {s : Loop} {acked : List ℕ} {table : List Args}
          {given : Assoc (List LeasedMsg)}
          → Flow w₀ w s acked running table given
          → (cmd : LeaseCmd) (uuid : Str) (now : ℕ) → lookup uuid given ≡ none
          → Flow w₀
              (handle db cfg w s (lease cmd uuid now)).world
              (handle db cfg w s (lease cmd uuid now)).loop
              (acked ++ acked_by s (lease cmd uuid now))
              (handle db cfg w s (lease cmd uuid now)).status
              table
              ((uuid, reply_of (handle db cfg w s (lease cmd uuid now)).outputs) ∷ given)
      -- An ack, by a collector that was given the lease and has persisted its messages.
      acks :
          {w : db.World} {s : Loop} {acked : List ℕ} {table : List Args}
          {given : Assoc (List LeasedMsg)}
          → Flow w₀ w s acked running table given
          → (cmd : AckCmd) (msgs : List LeasedMsg) → lookup cmd.lease_id given ≡ some msgs
          → All (Persisted table) (map received msgs)
          → Flow w₀
              (handle db cfg w s (ack cmd)).world
              (handle db cfg w s (ack cmd)).loop
              (acked ++ acked_by s (ack cmd))
              (handle db cfg w s (ack cmd)).status
              table
              given
      -- A tick, a drain, a look at the utilization, the end of the context.
      turns :
          {w : db.World} {s : Loop} {acked : List ℕ} {table : List Args}
          {given : Assoc (List LeasedMsg)}
          → Flow w₀ w s acked running table given
          → (e : Event) → IsInternal e
          → Flow w₀
              (handle db cfg w s e).world
              (handle db cfg w s e).loop
              (acked ++ acked_by s e)
              (handle db cfg w s e).status
              table
              given
      -- Writers publish.
      publishes :
          {w w' : db.World} {s : Loop} {acked : List ℕ} {st : Status} {table : List Args}
          {given : Assoc (List LeasedMsg)}
          → Flow w₀ w s acked st table given
          → Grows db laws cfg w w'
          → Flow w₀ w' s acked st table given
      -- Collectors persist.
      persists :
          {w : db.World} {s : Loop} {acked : List ℕ} {st : Status} {table table' : List Args}
          {given : Assoc (List LeasedMsg)}
          → Flow w₀ w s acked st table given
          → Gains table table'
          → Flow w₀ w s acked st table' given

    -- The reader's part of an execution.
    pub Flow-Reach :
        {w₀ w : db.World} {s : Loop} {acked : List ℕ} {st : Status} {table : List Args}
        {given : Assoc (List LeasedMsg)}
        → Flow w₀ w s acked st table given
        → Reach db laws cfg w₀ w s acked st
    Flow-Reach begins = begin
    Flow-Reach (leases f cmd uuid now h) = turn (Flow-Reach f) (lease cmd uuid now)
    Flow-Reach (acks f cmd msgs h p) = turn (Flow-Reach f) (ack cmd)
    Flow-Reach (turns f e h) = turn (Flow-Reach f) e
    Flow-Reach (publishes f g) = others (Flow-Reach f) g
    Flow-Reach (persists f g) = Flow-Reach f
