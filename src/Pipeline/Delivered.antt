-- ===== src/Pipeline/Delivered.antt =====
-- What the collectors' code acknowledges has been persisted, so that the system loses no message.
use my_queue.Base.{
  ℕ, ◌≤◌, ◌≡◌, ◌⊎◌, inl, inr, true, false, none, some, List, [], ◌∷◌, map, arith, Str, str_eq,
  str_eq→eq, bytes, Result, Assoc, lookup, All, Bool-cases,
}
use my_queue.Reader.Store.{BufMsg}
use my_queue.Reader.Store as Queue
use my_queue.Reader.Database as QueueLaws
use my_queue.Reader.Partition.{LeasedMsg, Loop, Event, LeaseCmd, AckCmd, Status, running, leased}
use my_queue.Reader.Partition as Partition
use my_queue.Reader.Delivery.{held}
use my_queue.Collector.Store.{TelemetryRow, Args, Texts}
use my_queue.Collector.Store as Telemetry
use my_queue.Collector.Table.{Gains}
use my_queue.Collector.Unique.{IsUnique}
use my_queue.Collector.Table as TelemetryLaws
use my_queue.Collector.Cycle.{LeaseMessage, LeaseResponse, Config, Cycle, collect_messages}
use my_queue.Collector.Delivered.{
  AfterLease, collect_messages-AfterLease, collect_messages-Gains, collect_messages-IsUnique,
  store_persister,
}
use my_queue.Pipeline.Ledger.{RowIsKnown}
use my_queue.Pipeline.Flow.{received, Persisted, Flow}
use my_queue.Pipeline.NothingLost.{IsSafe, nothing_lost}
use my_queue.Pipeline.System.{outbox, was_sent, collected, System}

module _ (unmarshal : Str → Result TelemetryRow) (texts : Texts) (tele : Telemetry.Db)
    (tele_laws : TelemetryLaws.DbLaws tele) where
  open tele_laws use {rows}

  -- What an acknowledgement that has been sent stands for.
  abbrev IsEarned : Assoc (List LeasedMsg) → List Args → Str → Type 0
  IsEarned given table id =
      (msgs : List LeasedMsg) × (lookup id given ≡ some msgs)
      × All (Persisted unmarshal texts.parse_uuid table) (map received msgs)

  Gains-Persisted :
      (before after : List Args) (msgs : List LeaseMessage)
      → Gains before after
      → All (Persisted unmarshal texts.parse_uuid before) msgs
      → All (Persisted unmarshal texts.parse_uuid after) msgs
  Gains-Persisted before after [] g a = tt
  Gains-Persisted before after (m ∷ msgs) g a = (
    λ row e. let (u, valid, there) = a.0 row e in (u, valid, g u there),
    Gains-Persisted before after msgs g a.1,
  )

  Gains-IsEarned :
      (given : Assoc (List LeasedMsg)) (before after : List Args) (sent : List Str)
      → Gains before after
      → All (IsEarned given before) sent
      → All (IsEarned given after) sent
  Gains-IsEarned given before after [] g a = tt
  Gains-IsEarned given before after (id ∷ sent) g a =
      let (msgs, there, safe) = a.0 in
      (
        (msgs, there, Gains-Persisted before after (map received msgs) g safe),
        Gains-IsEarned given before after sent g a.1,
      )

  -- A new lease ID leaves the others.
  cons-IsEarned :
      (given : Assoc (List LeasedMsg)) (uuid : Str) (msgs : List LeasedMsg) (table : List Args)
      (sent : List Str)
      → lookup uuid given ≡ none
      → All (IsEarned given table) sent
      → All (IsEarned ((uuid, msgs) ∷ given) table) sent
  unfolding lookup
  cons-IsEarned given uuid msgs table [] f a = tt
  cons-IsEarned given uuid msgs table (id ∷ sent) f a =
      (other a.0 (Bool-cases (str_eq uuid id)), cons-IsEarned given uuid msgs table sent f a.1)
    where
      other :
          IsEarned given table id
          → (str_eq uuid id ≡ true) ⊎ (str_eq uuid id ≡ false)
          → IsEarned ((uuid, msgs) ∷ given) table id
      other (ms, there, safe) (inl e) = cc (str_eq→eq uuid id e, there, f)
      other (ms, there, safe) (inr e) = (ms, rw e there, safe)

  sent-IsEarned :
      (given : Assoc (List LeasedMsg)) (table : List Args) (id : Str) (sent : List Str)
      → was_sent id sent ≡ true
      → All (IsEarned given table) sent
      → IsEarned given table id
  sent-IsEarned given table id [] h a = cc
  sent-IsEarned given table id (j ∷ sent) h a =
      found (Bool-cases (str_eq j id)) (sent-IsEarned given table id sent)
    where
      found :
          (str_eq j id ≡ true) ⊎ (str_eq j id ≡ false)
          → (was_sent id sent ≡ true → All (IsEarned given table) sent → IsEarned given table id)
          → IsEarned given table id
      found (inl e) ih = rw (← str_eq→eq j id e) a.0
      found (inr e) ih = ih (ground (arith, h, e)) a.1

  -- A collector sends an acknowledgement only once it has earned it.
  collected-IsEarned :
      (collector : Config) (t : tele.World) (given : Assoc (List LeasedMsg)) (sent : List Str)
      (uuid : Str) (msgs : List LeasedMsg)
      → lookup uuid given ≡ some msgs
      → All (IsEarned given (rows t)) sent
      → let c = collected unmarshal texts tele collector t sent uuid msgs in
        All (IsEarned given (rows c.0)) c.1
  collected-IsEarned collector t given sent uuid msgs there a =
      after
        (collect_messages unmarshal outbox (store_persister texts tele) collector t sent
          (bytes "telemetry") uuid (map received msgs))
        (collect_messages-AfterLease unmarshal texts tele tele_laws outbox collector t sent
          (bytes "telemetry") resp)
        (Gains-IsEarned given (rows t) _ sent gained a)
    where
      resp : LeaseResponse
      resp = record { lease_id = uuid; messages = map received msgs }

      gained : Gains (rows t) (rows (collected unmarshal texts tele collector t sent uuid msgs).0)
      gained =
          collect_messages-Gains unmarshal texts tele tele_laws outbox collector t sent
            (bytes "telemetry") uuid (map received msgs)

      after :
          (c : Cycle tele.World (List Str))
          → AfterLease unmarshal texts tele tele_laws outbox collector t sent
              (bytes "telemetry")
              resp
              c
          → All (IsEarned given (rows c.store)) sent
          → All (IsEarned given (rows c.store)) c.mq
      after c (inl same) kept = rw same kept
      after c (inr (one, safe)) kept = rw one ((msgs, there, safe), kept)

  module _ (db : Queue.Db) (laws : QueueLaws.DbLaws db) (cfg : Partition.Config) where
    System-IsEarned :
        {w₀ : db.World} {t₀ : tele.World} {w : db.World} {t : tele.World} {s : Loop}
        {acked : List ℕ} {st : Status} {given : Assoc (List LeasedMsg)} {sent : List Str}
        → System unmarshal texts tele db laws cfg w₀ t₀ w s acked st t given sent
        → All (IsEarned given (rows t)) sent
    System-IsEarned System.begins = tt
    System-IsEarned (System.leases {s = s} {t = t} {given = given} {sent = sent} f cmd uuid now h) =
        cons-IsEarned given uuid _ (rows t) sent h (System-IsEarned f)
    System-IsEarned
          (System.collects {t = t} {given = given} {sent = sent} f collector uuid msgs h) =
        collected-IsEarned collector t given sent uuid msgs h (System-IsEarned f)
    System-IsEarned (System.acks f cmd h) = System-IsEarned f
    System-IsEarned (System.turns f e h) = System-IsEarned f
    System-IsEarned (System.publishes f g) = System-IsEarned f

    -- The system is an implementation of the flow.
    System-Flow :
        {w₀ : db.World} {t₀ : tele.World} {w : db.World} {t : tele.World} {s : Loop}
        {acked : List ℕ} {st : Status} {given : Assoc (List LeasedMsg)} {sent : List Str}
        → System unmarshal texts tele db laws cfg w₀ t₀ w s acked st t given sent
        → Flow unmarshal texts.parse_uuid db laws cfg w₀ w s acked st (rows t) given
    System-Flow System.begins = Flow.begins
    System-Flow (System.leases f cmd uuid now h) = Flow.leases (System-Flow f) cmd uuid now h
    System-Flow (System.collects {t = t} {sent = sent} f collector uuid msgs h) =
        Flow.persists (System-Flow f) (
          collect_messages-Gains unmarshal texts tele tele_laws outbox collector t sent
            (bytes "telemetry") uuid (map received msgs))
    System-Flow (System.acks {t = t} {given = given} {sent = sent} f cmd h) =
        let (msgs, there, safe) =
          sent-IsEarned given (rows t) cmd.lease_id sent h (System-IsEarned f) in
        Flow.acks (System-Flow f) cmd msgs there safe
    System-Flow (System.turns f e h) = Flow.turns (System-Flow f) e h
    System-Flow (System.publishes f g) = Flow.publishes (System-Flow f) g

    -- The telemetry table holds no two rows with one message UUID, if it held none when the reader
    -- started: however often leases lapse and messages are delivered again, acks come late, and
    -- collectors work on the same lease, a message is stored once at most.
    pub stores_once :
        {w₀ : db.World} {t₀ : tele.World} {w : db.World} {t : tele.World} {s : Loop}
        {acked : List ℕ} {st : Status} {given : Assoc (List LeasedMsg)} {sent : List Str}
        → IsUnique (rows t₀)
        → System unmarshal texts tele db laws cfg w₀ t₀ w s acked st t given sent
        → IsUnique (rows t)
    stores_once u System.begins = u
    stores_once u (System.leases f cmd uuid now h) = stores_once u f
    stores_once u (System.collects {t = t} {sent = sent} f collector uuid msgs h) =
        collect_messages-IsUnique unmarshal texts tele tele_laws outbox collector t sent
          (bytes "telemetry") uuid (map received msgs) (stores_once u f)
    stores_once u (System.acks f cmd h) = stores_once u f
    stores_once u (System.turns f e h) = stores_once u f
    stores_once u (System.publishes f g) = stores_once u f

    -- No message is lost on its way from the queue to the telemetry table. A reader handles its events;
    -- collectors with whatever configurations run their code on the answers to its leases, at any
    -- time, any number of times; their acks come late, again or never; leases expire, statements
    -- fail, writers publish, all in whatever order. A row that was in the queue when the reader
    -- started is still there, or its message, if its payload can be parsed, has a row in the
    -- telemetry table under its own UUID. This is so if an ID names the same message for ever,
    -- lease IDs are not repeated, and nobody else deletes from either table.
    pub loses_nothing :
        (msg_of : ℕ → BufMsg)
        → (known : (w : db.World) → All (RowIsKnown msg_of) (laws.rows w))
        → {w₀ : db.World} {t₀ : tele.World} {w : db.World} {t : tele.World} {s : Loop}
          {acked : List ℕ} {st : Status} {given : Assoc (List LeasedMsg)} {sent : List Str} (i : ℕ)
        → System unmarshal texts tele db laws cfg w₀ t₀ w s acked st t given sent
        → (held db laws cfg i w₀ ≤ held db laws cfg i w)
          ⊎ IsSafe unmarshal texts.parse_uuid db laws cfg msg_of known (rows t) i
    loses_nothing msg_of known i f =
        nothing_lost unmarshal texts.parse_uuid db laws cfg msg_of known i (System-Flow f)
