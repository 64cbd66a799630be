-- ===== src/Reader/Execution.antt =====
-- The executions of a partition: turns of its loop, and changes of the table by others in between.
use my_queue.Base.{ℕ, ◌≤◌, ◌≡◌, ap, List, [], ◌∷◌, ◌++◌, Option, none, some, lookup, count}
use my_queue.Reader.Store.{Db}
use my_queue.Reader.Database.{row_ids, DbLaws}
use my_queue.Reader.Partition.{
  ServedBatch, Config, Loop, Event, Status, lease, ack, util, drain, expire, cancel, running,
  returned, panicked, Turn, handle, start,
}

abbrev pub batch_ids : Option ServedBatch → List ℕ
batch_ids none = []
batch_ids (some sb) = sb.ids

-- The messages that an event acknowledges: those of an ack for a lease that is outstanding.
unfoldable pub acked_by : Loop → Event → List ℕ
acked_by s (ack cmd) = batch_ids (lookup cmd.lease_id s.served)
acked_by s (lease cmd uuid now) = []
acked_by s util = []
acked_by s (drain d) = []
acked_by s (expire now) = []
acked_by s cancel = []

module _ (db : Db) (laws : DbLaws db) (cfg : Config) where
  open laws use {rows}

  -- The only service that deletes from the range is its reader: others insert.
  abbrev pub Grows : db.World → db.World → Type 0
  Grows w w' = (i : ℕ) → count i (row_ids (rows w)) ≤ count i (row_ids (rows w'))

  -- What a partition that started on the world `w₀` has come to: the world, the variables, the
  -- messages acknowledged so far, and whether the loop goes on.
  pub data Reach (w₀ : db.World) : db.World → Loop → List ℕ → Status → Type 0 where
    begin : Reach w₀ (start db cfg w₀).0 (start db cfg w₀).1 [] running
    turn :
        {w : db.World} {s : Loop} {acked : List ℕ}
        → Reach w₀ w s acked running
        → (e : Event)
        → Reach w₀
            (handle db cfg w s e).world
            (handle db cfg w s e).loop
            (acked ++ acked_by s e)
            (handle db cfg w s e).status
    others :
        {w w' : db.World} {s : Loop} {acked : List ℕ} {st : Status}
        → Reach w₀ w s acked st
        → Grows w w'
        → Reach w₀ w' s acked st

-- What follows a turn: the rest of the events, if the loop goes on.
abbrev pub go_on : {W : Type 0} → Status → Turn W → Turn W → Turn W
go_on running t rest = record rest { outputs = t.outputs ++ rest.outputs }
go_on returned t rest = t
go_on panicked t rest = t

module _ (db : Db) (cfg : Config) where
  -- A sequence of events with nothing in between: the loop stops at the first turn that ends it.
  unfoldable pub run : db.World → Loop → List Event → Turn db.World
  run w s [] = record { world = w; loop = s; outputs = []; status = running }
  run w s (e ∷ es) =
      let t = handle db cfg w s e in let rest = run t.world t.loop es in go_on t.status t rest

  pub run-cons :
      (w : db.World) (s : Loop) (e : Event) (es : List Event)
      → let t = handle db cfg w s e in
        t.status ≡ running → run w s (e ∷ es) ≡ go_on running t (run t.world t.loop es)
  unfolding run
  run-cons w s e es h =
      let t = handle db cfg w s e in ap (λ st. go_on st t (run t.world t.loop es)) h
