-- ===== src/Reader/Partition.antt =====
-- internal/mqreader/partition.go: the owner goroutine of a partition. `Loop` holds the variables of
-- Run, an `Event` is what its select receives, and `handle` is one turn of the loop. The clock and
-- the generator of lease IDs are read through the event.
use my_queue.Base.{
  ℕ, zero, suc, ◌-◌, Bool, true, false, not, ◌&&◌, Option, none, some, List, [], ◌∷◌, ◌++◌, map, ℤ,
  pos, negsuc, sub_ℕ, ltb_ℤ, scale, int64, leb, Str, Result, ok, err, Assoc, lookup, delete, insert,
  length, take, drop, keep, contains, min, if◌then◌else◌,
}
use my_queue.Reader.Store.{BufMsg, ids_of, Db, fetch_batch, delete_by_ids}

pub record LeasedMsg : Type 0 where
  pub msg_uuid : Str
  pub payload : Str

pub record LeaseResult : Type 0 where
  pub lease_id : Str
  pub messages : List LeasedMsg
  pub err : Option Str

pub record AckResult : Type 0 where
  pub acked : ℕ
  pub err : Option Str

pub record LeaseCmd : Type 0 where
  pub topic : Str
  pub consumer_id : Str
  pub max : ℤ
  pub lease_seconds : ℤ

pub record AckCmd : Type 0 where
  pub topic : Str
  pub consumer_id : Str
  pub lease_id : Str

-- Instants are nanoseconds of the monotonic clock; a timeout is a time.Duration, an int64.
pub record ServedBatch : Type 0 where
  pub ids : List ℕ
  pub served_at : ℕ
  pub timeout : ℤ

-- The fields of Partition that Run reads.
pub record Config : Type 0 where
  pub part_start : ℤ
  pub part_end : ℤ
  pub batch_size : ℤ

-- The variables of Run; `drain_done` names the channel that a Drain call waits on.
pub record Loop : Type 0 where
  pub buffer : List BufMsg
  pub served : Assoc ServedBatch
  pub done_ids : List ℕ
  pub draining : Bool
  pub drain_done : Option ℕ

pub data Event : Type 0 where
  lease : LeaseCmd → Str → ℕ → Event
  ack : AckCmd → Event
  util : Event
  drain : ℕ → Event
  expire : ℕ → Event
  cancel : Event

-- A utilization is the ratio of two numbers, which the source rounds to a float64.
pub data Output : Type 0 where
  lease_reply : LeaseResult → Output
  ack_reply : AckResult → Output
  util_reply : ℕ → ℕ → Output
  closed : ℕ → Output

pub data Status : Type 0 where
  running returned panicked : Status

pub record Turn (W : Type 0) : Type 0 where
  pub world : W
  pub loop : Loop
  pub outputs : List Output
  pub status : Status

abbrev pub is_nil {ℓ} : {A : Type ℓ} → List A → Bool
is_nil [] = true
is_nil (x ∷ xs) = false

abbrev pub empty_loop : Loop
empty_loop = record { buffer = []; served = []; done_ids = []; draining = false; drain_done = none }

-- now.Sub(servedAt), which saturates.
unfoldable pub elapsed : ℕ → ℕ → ℤ
elapsed now at =
    if leb at now
    then pos (min (now - at) 9223372036854775807)
    else if leb (at - now) 9223372036854775808
    then sub_ℕ now at
    else negsuc 9223372036854775807

-- time.Duration(leaseSeconds) * time.Second
unfoldable pub timeout_of : ℤ → ℤ
timeout_of lease_seconds = int64 (scale lease_seconds 1000000000)

abbrev pub is_expired : ℕ → ServedBatch → Bool
is_expired now sb = ltb_ℤ sb.timeout (elapsed now sb.served_at)

-- n := cmd.max, cut to len(buffer)
unfoldable pub clip : ℤ → ℕ → ℤ
clip max len = if ltb_ℤ (pos len) max then pos len else max

-- The loop of the ticker's case.
unfoldable pub drop_expired : ℕ → Assoc ServedBatch → Assoc ServedBatch
drop_expired now [] = []
drop_expired now ((k, sb) ∷ m) =
    let rest = drop_expired now m in if is_expired now sb then rest else (k, sb) ∷ rest

unfoldable pub served_ids : Assoc ServedBatch → List ℕ
served_ids [] = []
served_ids ((k, sb) ∷ m) = sb.ids ++ served_ids m

abbrev no_messages : Str → Output
no_messages uuid = lease_reply (record { lease_id = uuid; messages = []; err = none })

abbrev pub leased : BufMsg → LeasedMsg
leased m = record { msg_uuid = m.msg_uuid; payload = m.payload }

module _ {W : Type 0} where
  -- Slicing off `n` messages; a negative bound panics.
  unfoldable pub pop : W → Loop → LeaseCmd → Str → ℕ → ℤ → Turn W
  pop w s cmd uuid now (pos zero) = record {
    world = w;
    loop = s;
    outputs = no_messages uuid ∷ [];
    status = running;
  }
  pop w s cmd uuid now (pos (suc k)) = record {
    world = w;
    loop = record s {
      buffer = drop (suc k) s.buffer;
      served =
          insert uuid
            (record {
              ids = ids_of (take (suc k) s.buffer);
              served_at = now;
              timeout = timeout_of cmd.lease_seconds;
            })
            s.served;
    };
    outputs =
        lease_reply
          (record { lease_id = uuid; messages = map leased (take (suc k) s.buffer); err = none })
        ∷ [];
    status = running;
  }
  pop w s cmd uuid now (negsuc k) = record { world = w; loop = s; outputs = []; status = panicked }

  -- close(drainDone); closing a nil channel panics.
  unfoldable pub close_done : W → Loop → List Output → Option ℕ → Turn W
  close_done w s outs (some d) = record {
    world = w;
    loop = s;
    outputs = outs ++ closed d ∷ [];
    status = returned;
  }
  close_done w s outs none = record { world = w; loop = s; outputs = outs; status = panicked }

module _ (db : Db) (cfg : Config) where
  -- Deletes the done rows. The list is cleared also when the database refuses.
  unfoldable pub flush_deletes : db.World → Loop → db.World × Loop
  flush_deletes w s =
      if is_nil s.done_ids
      then (w, s)
      else ((delete_by_ids db w s.done_ids).1, record s { done_ids = [] })

  unfoldable pub load : db.World → Loop → Result (List BufMsg) → db.World × Loop
  load w s (err e) = (w, s)
  load w s (ok msgs) = (
    w,
    record s { buffer = s.buffer ++ keep (λ m. not (contains m.id (served_ids s.served))) msgs },
  )

  unfoldable pub refill : db.World → Loop → db.World × Loop
  unfolding load
  refill w s =
      let (w', s') = flush_deletes w s in
      let (r, w'') = fetch_batch db w' cfg.part_start cfg.part_end cfg.batch_size in load w'' s' r

  -- flushDone, and the return after it.
  unfoldable pub flush_done : db.World → Loop → List Output → Turn db.World
  unfolding close_done
  flush_done w s outs = let (w', s') = flush_deletes w s in close_done w' s' outs s'.drain_done

  -- The end of a turn that returns once a drain finds nothing outstanding.
  unfoldable pub settle : db.World → Loop → List Output → Turn db.World
  settle w s outs =
      if s.draining && is_nil s.served
      then flush_done w s outs
      else record { world = w; loop = s; outputs = outs; status = running }

  -- An idle partition is refilled before it serves.
  unfoldable pub refill_if_idle : db.World → Loop → db.World × Loop
  refill_if_idle w s = if is_nil s.buffer && is_nil s.served then refill w s else (w, s)

  unfoldable pub on_lease : db.World → Loop → LeaseCmd → Str → ℕ → Turn db.World
  on_lease w s cmd uuid now =
      let (w', s') = refill_if_idle w s in
      if s.draining
      then record { world = w; loop = s; outputs = no_messages uuid ∷ []; status = running }
      else pop w' s' cmd uuid now (clip cmd.max (length s'.buffer))

  -- A batch that completes its load is deleted at once.
  unfoldable pub complete : db.World → Loop → db.World × Loop
  complete w s = if is_nil s.buffer && is_nil s.served then flush_deletes w s else (w, s)

  unfoldable pub on_ack : db.World → Loop → Str → Option ServedBatch → Turn db.World
  unfolding complete
  on_ack w s lease_id none = record {
    world = w;
    loop = s;
    outputs = ack_reply (record { acked = 0; err = none }) ∷ [];
    status = running;
  }
  on_ack w s lease_id (some sb) =
      let s₁ = record s { done_ids = s.done_ids ++ sb.ids; served = delete lease_id s.served } in
      let (w', s') = complete w s₁ in
      settle w' s' (ack_reply (record { acked = length sb.ids; err = none }) ∷ [])

  unfoldable pub on_util : db.World → Loop → Turn db.World
  on_util w s = record {
    world = w;
    loop = s;
    outputs =
        elim cfg.batch_size [
          | pos zero ↦ util_reply 0 1
          | pos (suc n) ↦ util_reply (length s.buffer) (suc n)
          | negsuc n ↦ util_reply 0 1
        ]
        ∷ [];
    status = running;
  }

  unfoldable pub handle : db.World → Loop → Event → Turn db.World
  unfolding on_util
  handle w s (lease cmd uuid now) = on_lease w s cmd uuid now
  handle w s (ack cmd) = on_ack w s cmd.lease_id (lookup cmd.lease_id s.served)
  handle w s util = on_util w s
  handle w s (drain d) =
      settle w (record s { draining = true; drain_done = some d; buffer = [] }) []
  handle w s (expire now) = settle w (record s { served = drop_expired now s.served }) []
  handle w s cancel = record { world = w; loop = s; outputs = []; status = returned }

  -- The loop's first state: the initial fill.
  unfoldable pub start : db.World → db.World × Loop
  start w = refill w empty_loop
