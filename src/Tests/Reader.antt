-- ===== src/Tests/Reader.antt =====
-- The reader's theorems, on a table of two rows.
use my_queue.Base.{
  ℕ, ◌+◌, ◌≤◌, ◌≡◌, ◌≢◌, refl, inl, Bool, true, none, some, List, [], ◌∷◌, ◌++◌, map, arith, pos,
  bytes, lookup, length, count, All, delete,
}
use my_queue.Reader.Store.{ids_of, fetch_batch, collect, scan_rows}
use my_queue.Reader.Partition.{
  Config, Loop, LeaseCmd, LeaseResult, Event, Turn, lease, drain, expire, returned, lease_reply,
  running, util, leased, empty_loop, served_ids, on_lease, refill, pop, clip, refill_if_idle,
  elapsed, timeout_of, flush_deletes, handle, start,
}
use my_queue.Reader.Execution.{Reach, begin, turn, acked_by, run}
use my_queue.Reader.Reached.{exclusive, turns_end_well}
use my_queue.Reader.Signal.{last_drain}
use my_queue.Reader.Draining.{EndsWell}
use my_queue.Reader.Delivery.{held}
use my_queue.Reader.Reload.{serves_oldest}
use my_queue.Reader.Ending.{IsLapsed, drain_returns}
use my_queue.Reader.Stop.{Moment, IsTick, IsDrainedOrKept, stop, acked_at_stop, stops_safely}
use my_queue.Reader.Metrics.{IsRatio, util_replies, buffer_utilization, buffer_utilization-IsRatio}
use my_queue.Reader.Order.{delivered, fifo}
use my_queue.Reader.Expiry.{lease_lifetime, lease_overflow}
use my_queue.Reader.Http.{LeaseRequest, Wait, arrived, cancelled}
use my_queue.Tests.Rows.{first, second, test_db, test_laws}

abbrev both_rows : Bool × Bool
both_rows = (true, true)

abbrev test_config : Config
test_config = record { part_start = pos 0; part_end = pos 127; batch_size = pos 10 }

abbrev request : ℕ → ℕ → LeaseCmd
request max seconds = record {
  topic = bytes "telemetry";
  consumer_id = bytes "c1";
  max = pos max;
  lease_seconds = pos seconds;
}

-- The partition after its initial fill.
abbrev filled : (Bool × Bool) × Loop
filled = start test_db test_config both_rows

abbrev lease_one : Event
lease_one = lease (request 1 30) (bytes "lease-1") 5

abbrev one_leased : Turn (Bool × Bool)
one_leased = handle test_db test_config filled.0 filled.1 lease_one

one_leased-Reach :
    Reach test_db test_laws test_config both_rows one_leased.world one_leased.loop
      ([] ++ acked_by filled.1 lease_one)
      one_leased.status
one_leased-Reach = turn begin lease_one

exclusive_example :
    ((i : ℕ)
      → count i (ids_of one_leased.loop.buffer)
          + count i (served_ids one_leased.loop.served)
          + count i one_leased.loop.done_ids
        ≤ 1)
    × (length one_leased.loop.buffer ≤ 10)
exclusive_example = exclusive test_db test_laws test_config one_leased-Reach

-- A loop with one message ready, and one with none.
abbrev ready : Loop
ready = record empty_loop { buffer = first ∷ second ∷ [] }

serves_oldest_example :
    (handle test_db test_config both_rows empty_loop lease_one).outputs
    ≡ lease_reply (record { lease_id = bytes "lease-1"; messages = leased first ∷ []; err = none })
      ∷ []
unfolding flush_deletes test_laws
serves_oldest_example =
    serves_oldest test_db test_laws test_config both_rows empty_loop (request 1 30)
      (bytes "lease-1") 5 0 10 (first ∷ second ∷ []) refl refl refl refl refl
      (unfold fetch_batch flush_deletes collect scan_rows in refl) (λ e. cc)

fifo_example :
    delivered (run test_db test_config both_rows ready (lease_one ∷ [])).outputs
      ++ map leased (run test_db test_config both_rows ready (lease_one ∷ [])).loop.buffer
    ≡ leased first ∷ leased second ∷ []
fifo_example =
    fifo test_db test_config both_rows ready (lease_one ∷ []) (refl, inl (λ e. cc)) ((0, refl), tt)

lease_lifetime_example :
    let s = (handle test_db test_config both_rows ready lease_one).loop in
    lookup
      (bytes "lease-1")
      (handle test_db test_config both_rows s (expire 30000000006)).loop.served
    ≡ none
lease_lifetime_example =
    lease_lifetime test_db test_config both_rows both_rows ready (request 1 30) (bytes "lease-1") 5
      30000000006 0 30 refl (λ e. cc) refl refl (omega arith) (omega arith)

lease_overflow_example :
    let s =
      (handle test_db test_config both_rows ready
        (lease (request 1 9223372037) (bytes "lease-1") 5)).loop in
    lookup (bytes "lease-1") (handle test_db test_config both_rows s (expire 6)).loop.served ≡ none
lease_overflow_example =
    lease_overflow test_db test_config both_rows both_rows ready (request 1 9223372037)
      (bytes "lease-1") 5 6 0 9223372037 refl (λ e. cc) refl refl (omega arith) (omega arith)
      (omega arith)

abbrev valid_request : LeaseRequest
valid_request = record {
  topic = b't' ∷ [];
  consumer_id = b'c' ∷ [];
  max = pos 5;
  lease_seconds = pos 30;
}

-- The partition is slow, and the context of the handler ends first.
abbrev slow : LeaseCmd → Wait (Unit {0}) × Wait LeaseResult
slow cmd = (arrived tt, cancelled (bytes "context canceled"))

-- The lease of one message is outstanding for 30 seconds.
one_leased-running :
    Reach test_db test_laws test_config both_rows one_leased.world one_leased.loop
      ([] ++ acked_by filled.1 lease_one)
      running
unfolding handle on_lease start refill fetch_batch collect scan_rows flush_deletes pop clip
    refill_if_idle served_ids
one_leased-running = one_leased-Reach

turns_end_well_example :
    let c = last_drain test_db test_laws test_config (turn one_leased-running (drain 7)) in
    EndsWell c (handle test_db test_config one_leased.world one_leased.loop (drain 7))
    × (c ≢ none
        → (handle test_db test_config one_leased.world one_leased.loop (drain 7)).loop.draining
          ≡ true)
turns_end_well_example =
    turns_end_well test_db test_laws test_config (drain 7) one_leased-running tt (λ e. cc)

one_leased-IsLapsed : All (IsLapsed 30000000006) one_leased.loop.served
unfolding handle on_lease start refill fetch_batch collect scan_rows flush_deletes pop clip
    refill_if_idle served_ids elapsed timeout_of delete
one_leased-IsLapsed = (refl, tt)

drain_returns_example :
    (run test_db test_config one_leased.world one_leased.loop
      (drain 1 ∷ (lease_one ∷ [] ++ expire 30000000006 ∷ []))).status
    ≡ returned
drain_returns_example =
    drain_returns test_db test_laws test_config 30000000006 1 (lease_one ∷ []) one_leased-running
      one_leased-IsLapsed ((omega arith, (λ e. cc)), tt)

-- Nobody acknowledges the lease: it lapses at the second tick behind the drain.
abbrev two_ticks : List (Moment (Bool × Bool))
two_ticks = ((λ w. w), expire 6) ∷ ((λ w. w), expire 30000000006) ∷ []

stops_safely_example :
    let t = stop test_db test_config one_leased.world one_leased.loop (arrived tt) 1 two_ticks in
    (t.status ≡ returned)
    × ((i : ℕ)
        → count i (
            ([] ++ acked_by filled.1 lease_one)
            ++ acked_at_stop test_db test_config one_leased.world one_leased.loop
                (arrived tt)
                1
                two_ticks)
          ≡ 0
        → held test_db test_laws test_config i both_rows
          ≤ held test_db test_laws test_config i t.world)
    × (All (λ (m : Moment (Bool × Bool)). IsTick m.1) two_ticks
        → IsDrainedOrKept test_db test_laws test_config (some 1) one_leased.world one_leased.loop t)
stops_safely_example =
    stops_safely test_db test_laws test_config (arrived tt) 1 two_ticks one_leased-running
      (((λ w i. omega arith), tt, (λ e. cc)), (((λ w i. omega arith), tt, (λ e. cc)), tt))

buffer_utilization-IsRatio_example : IsRatio (
    buffer_utilization (arrived tt) (
      util_replies
        (handle test_db test_config one_leased.world one_leased.loop util).outputs
        (cancelled (bytes "context canceled"))))
buffer_utilization-IsRatio_example =
    buffer_utilization-IsRatio test_db test_laws test_config (arrived tt) (bytes "context canceled")
      one_leased-running
