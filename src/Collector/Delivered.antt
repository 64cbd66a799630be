-- ===== src/Collector/Delivered.antt =====
-- What the collector acknowledges.
use my_queue.Base.{ℕ, ◌≡◌, refl, ◌⊎◌, inl, inr, true, List, [], ◌∷◌, Str, Result, ok, err, All}
use my_queue.Collector.Store.{TelemetryRow, Args, Db, Texts, persist_batch}
use my_queue.Collector.Cycle.{
  LeaseMessage, LeaseResponse, MqClient, Persister, Config, Cycle, add_row, parse_rows, ack_if,
  persist_if, collect_messages, collect_lease, process_once,
}
use my_queue.Collector.Table.{has_uuid, Gains, insert_new, DbLaws}
use my_queue.Collector.Persisted.{
  Stored, IsPersisted, persist_batch-IsPersisted, persist_batch-Gains, persist_batch-exact,
}
use my_queue.Collector.Unique.{IsUnique, insert_new-IsUnique}

-- The Store is the Persister that the service runs with.
abbrev pub store_persister : Texts → Db → Persister
store_persister texts db = record { World = db.World; persist_batch = persist_batch texts db }

module _ (unmarshal : Str → Result TelemetryRow) (texts : Texts) (db : Db) (laws : DbLaws db)
    (mqc : MqClient) (cfg : Config) where
  open laws use {rows}

  -- If the message's payload can be parsed, a table holds a row under the message's UUID.
  abbrev pub IsSafe : List Args → LeaseMessage → Type 0
  IsSafe table msg =
      (row : TelemetryRow)
      → unmarshal msg.payload ≡ ok row
      → (u : Str) × (texts.parse_uuid msg.msg_uuid ≡ ok u) × (has_uuid u table ≡ true)

  parse_rows-IsSafe :
      (table : List Args) (msgs : List LeaseMessage)
      → All (Stored texts db laws table) (parse_rows unmarshal msgs)
      → All (IsSafe table) msgs
  unfolding parse_rows
  parse_rows-IsSafe table [] a = tt
  parse_rows-IsSafe table (msg ∷ msgs) a =
      parsed (unmarshal msg.payload) refl (parse_rows unmarshal msgs) (parse_rows-IsSafe table msgs)
        a
    where
      parsed :
          (r : Result TelemetryRow)
          → unmarshal msg.payload ≡ r
          → (rest : List TelemetryRow)
          → (All (Stored texts db laws table) rest → All (IsSafe table) msgs)
          → All (Stored texts db laws table) (add_row msg.msg_uuid r rest)
          → All (IsSafe table) (msg ∷ msgs)
      parsed (ok row) e rest ih a = ((λ row' e'. a.0), ih a.1)
      parsed (err x) e rest ih a = ((λ row' e'. cc), ih a)

  abbrev pub AfterLease :
      db.World → mqc.World → Str → LeaseResponse → Cycle db.World mqc.World → Type 0
  AfterLease s m topic resp t =
      (t.mq ≡ m)
      ⊎ ((t.mq ≡ (mqc.ack m topic cfg.collector_id resp.lease_id).1)
          × All (IsSafe (rows t.store)) resp.messages)

  persist_if-AfterLease :
      (s : db.World) (m : mqc.World) (topic : Str) (resp : LeaseResponse)
      (batch : List TelemetryRow)
      → ((table : List Args)
          → All (Stored texts db laws table) batch
          → All (IsSafe table) resp.messages)
      → AfterLease s m topic resp
          (persist_if unmarshal mqc (store_persister texts db) cfg s m topic resp.lease_id batch)
  unfolding persist_if
  persist_if-AfterLease s m topic resp [] safe = inl refl
  persist_if-AfterLease s m topic resp (row ∷ batch) safe =
      answered (persist_batch texts db s (row ∷ batch)).0
        (persist_batch-IsPersisted texts db laws s (row ∷ batch))
    where
      s' : db.World
      s' = (persist_batch texts db s (row ∷ batch)).1

      answered :
          (r : Result (ℕ × ℕ))
          → IsPersisted texts db laws s (row ∷ batch) r (rows s')
          → AfterLease s m topic resp
              (ack_if unmarshal mqc (store_persister texts db) cfg s' m topic resp.lease_id r)
      answered (err e) p = unfold ack_if in inl refl
      answered (ok c) p = unfold ack_if in inr (refl, safe (rows s') p.0)

  -- A cycle from the answer to its lease on.
  pub collect_messages-AfterLease :
      (s : db.World) (m : mqc.World) (topic : Str) (resp : LeaseResponse)
      → AfterLease s m topic resp (
          collect_messages unmarshal mqc
            (store_persister texts db)
            cfg
            s
            m
            topic
            resp.lease_id
            resp.messages)
  unfolding collect_messages
  collect_messages-AfterLease s m topic resp = collected resp.messages refl
    where
      collected :
          (msgs : List LeaseMessage)
          → resp.messages ≡ msgs
          → AfterLease s m topic resp (
              collect_messages unmarshal mqc
                (store_persister texts db)
                cfg
                s
                m
                topic
                resp.lease_id
                msgs)
      collected [] e = inl refl
      collected (msg ∷ msgs) e =
          persist_if-AfterLease s m topic resp (parse_rows unmarshal (msg ∷ msgs))
            (λ table a. rw e (parse_rows-IsSafe table (msg ∷ msgs) a))

  -- What holds of the table, and behind every batch that is persisted, holds behind the cycle.
  collect_messages-keeps :
      (Q : List Args → Type 0) (s : db.World) (m : mqc.World) (topic lease_id : Str)
      (msgs : List LeaseMessage)
      → Q (rows s)
      → ((batch : List TelemetryRow) → Q (rows (persist_batch texts db s batch).1))
      → let t =
          collect_messages unmarshal mqc (store_persister texts db) cfg s m topic lease_id msgs in
        Q (rows t.store)
  unfolding collect_messages
  collect_messages-keeps Q s m topic lease_id [] before persisted = before
  collect_messages-keeps Q s m topic lease_id (msg ∷ msgs) before persisted =
      batched (parse_rows unmarshal (msg ∷ msgs))
    where
      answered :
          (s' : db.World) (r : Result (ℕ × ℕ))
          → Q (rows s')
          → Q (
              rows
                (ack_if unmarshal mqc (store_persister texts db) cfg s' m topic lease_id r).store)
      answered s' (err e) g = unfold ack_if in g
      answered s' (ok c) g = unfold ack_if in g

      batched :
          (batch : List TelemetryRow)
          → Q (
              rows
                (persist_if unmarshal mqc
                  (store_persister texts db)
                  cfg
                  s
                  m
                  topic
                  lease_id
                  batch).store)
      batched [] = unfold persist_if in before
      batched (row ∷ batch) =
          unfold persist_if in
          answered _ (persist_batch texts db s (row ∷ batch)).0 (persisted (row ∷ batch))

  pub collect_messages-Gains :
      (s : db.World) (m : mqc.World) (topic lease_id : Str) (msgs : List LeaseMessage)
      → let t =
          collect_messages unmarshal mqc (store_persister texts db) cfg s m topic lease_id msgs in
        Gains (rows s) (rows t.store)
  collect_messages-Gains s m topic lease_id msgs =
      collect_messages-keeps (Gains (rows s)) s m topic lease_id msgs (λ u h. h)
        (persist_batch-Gains texts db laws s)

  pub collect_messages-IsUnique :
      (s : db.World) (m : mqc.World) (topic lease_id : Str) (msgs : List LeaseMessage)
      → IsUnique (rows s)
      → let t =
          collect_messages unmarshal mqc (store_persister texts db) cfg s m topic lease_id msgs in
        IsUnique (rows t.store)
  collect_messages-IsUnique s m topic lease_id msgs h =
      collect_messages-keeps IsUnique s m topic lease_id msgs h
        (λ batch. persisted batch (persist_batch-exact texts db laws s batch))
    where
      persisted :
          (batch : List TelemetryRow)
          → (rows (persist_batch texts db s batch).1 ≡ rows s)
            ⊎ (rows (persist_batch texts db s batch).1 ≡ insert_new texts.parse_uuid (rows s) batch)
          → IsUnique (rows (persist_batch texts db s batch).1)
      persisted batch (inl same) = rw same h
      persisted batch (inr done) = rw done (insert_new-IsUnique texts.parse_uuid (rows s) batch h)

  -- In one cycle, either no ack is sent to the MQ reader, or the lease that it gave is acknowledged
  -- once, and then each of its messages whose payload can be parsed has a row in the telemetry table
  -- under its own UUID.
  pub acks_only_persisted :
      (s : db.World) (m : mqc.World) (topic : Str)
      → let t = process_once unmarshal mqc (store_persister texts db) cfg s m topic in
        let answer = mqc.lease m topic cfg.collector_id cfg.lease_max cfg.lease_seconds in
        (t.mq ≡ answer.1)
        ⊎ ((resp : LeaseResponse) × (answer.0 ≡ ok resp)
            × (t.mq ≡ (mqc.ack answer.1 topic cfg.collector_id resp.lease_id).1)
            × All (IsSafe (rows t.store)) resp.messages)
  unfolding process_once
  acks_only_persisted s m topic =
      leased (mqc.lease m topic cfg.collector_id cfg.lease_max cfg.lease_seconds).0 refl
    where
      m' : mqc.World
      m' = (mqc.lease m topic cfg.collector_id cfg.lease_max cfg.lease_seconds).1

      leased :
          (r : Result LeaseResponse)
          → (mqc.lease m topic cfg.collector_id cfg.lease_max cfg.lease_seconds).0 ≡ r
          → let t = collect_lease unmarshal mqc (store_persister texts db) cfg s m' topic r in
            (t.mq ≡ m')
            ⊎ ((resp : LeaseResponse) × ((mqc.lease m topic cfg.collector_id cfg.lease_max
                    cfg.lease_seconds).0
                  ≡ ok resp)
                × (t.mq ≡ (mqc.ack m' topic cfg.collector_id resp.lease_id).1)
                × All (IsSafe (rows t.store)) resp.messages)
      leased (err e) h = unfold collect_lease in inl refl
      leased (ok resp) h =
          unfold collect_lease in
          elim (collect_messages-AfterLease s m' topic resp) [
            | inl same ↦ inl same
            | inr (sent, safe) ↦ inr (resp, h, sent, safe)
          ]
