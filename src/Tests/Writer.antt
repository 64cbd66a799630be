-- ===== src/Tests/Writer.antt =====
-- The writer's theorems, on a table in memory.
use my_queue.Base.{
  ℕ, ◌+◌, ◌≤◌, ◌≡◌, refl, ◌⊎◌, inl, Bool, true, false, List, [], ◌∷◌, ◌++◌, arith, pos, Str, str_eq,
  bytes, ok, length, count, All, if◌then◌else◌,
}
use my_queue.Writer.Http.{
  PublishRequest, check_publish, check_msgs, AllIngested, check_publish-AllIngested,
}
use my_queue.Base.{◌≢◌, ◌%◌}
use my_queue.Writer.Hash.{sum32, partition_for}
use my_queue.Writer.Share.{distribute, accepted_of, duplicates_of, distribute_sum}
use my_queue.Writer.Store.{IngestMsg, Scan, Db, inserted, no_rows, publish}
use my_queue.Writer.Buffer.{
  PublishItem, Pending, Event, received, closed, empty_pending, flush_with_retry, handle,
}
use my_queue.Writer.Run.{arrived, run, run_answers_all}
use my_queue.Writer.Service.{
  State, initial, turned, on_event, Service, starts, accepts, sends, takes, stops, closes, ends,
  closing, ended,
}
use my_queue.Writer.Answered.{answers_all_sent}
use my_queue.Writer.Durable.{IsBacked}
use my_queue.Writer.Acknowledged.{acknowledged_is_stored}
use my_queue.Writer.Metrics.{buffer_utilization, buffer_utilization_bounds}
use my_queue.Writer.Replies.{channels, replied}
use my_queue.Writer.Bounded.{IsCounted, handle-IsCounted}
use my_queue.Writer.Rows.{Row, has_key, insert_rows, DbLaws}
use my_queue.Writer.Atomic.{AllOrNothing, publish-AllOrNothing}
use my_queue.Writer.Retries.{flush_inserts_once}

-- The committed rows, and those that the transaction sees.
abbrev Tables : Type 0
Tables = List Row × List Row

abbrev insert_scan : Bool → Scan
insert_scan b = if b then no_rows else inserted

abbrev insert_seen : Bool → List Row → Row → List Row
insert_seen b rows r = if b then rows else rows ++ r ∷ []

abbrev test_db : Db
test_db = record {
  World = Tables;
  begin = λ w. (ok tt, (w.0, w.0));
  prepare = λ w. (ok tt, w);
  insert = λ w t m. (
    insert_scan (has_key t m.uuid w.1),
    (w.0, insert_seen (has_key t m.uuid w.1) w.1 (record { topic = t; msg = m })),
  );
  commit = λ w. (ok tt, (w.1, w.1));
  rollback = λ w. (w.0, w.0);
}

new_key :
    (b : Bool) (rows : List Row) (r : Row)
    → insert_scan b ≡ inserted
    → (b ≡ false) × (insert_seen b rows r ≡ rows ++ r ∷ [])
new_key true rows r e = cc
new_key false rows r e = (refl, refl)

old_key :
    (b : Bool) (rows : List Row) (r : Row)
    → insert_scan b ≡ no_rows
    → (b ≡ true) × (insert_seen b rows r ≡ rows)
old_key true rows r e = (refl, refl)
old_key false rows r e = cc

test_laws : DbLaws test_db
test_laws = record {
  rows = λ w. w.0;
  seen = λ w. w.1;
  begin-rows = λ w. refl;
  begin-seen = λ w. refl;
  prepare-rows = λ w. refl;
  prepare-seen = λ w. refl;
  insert-rows = λ w t m. refl;
  insert-inserted = λ w t m e. new_key (has_key t m.uuid w.1) w.1 _ e;
  insert-no_rows = λ w t m e. old_key (has_key t m.uuid w.1) w.1 _ e;
  commit-ok = λ w u e. refl;
  commit-err = λ w e h. inl cc;
  rollback-rows = λ w. refl;
}

abbrev message : IngestMsg
message = record { uuid = bytes "u1"; gpu_id = bytes "GPU-0"; payload = bytes "{}"; partition = 3 }

abbrev telemetry : Str
telemetry = bytes "telemetry"

abbrev no_rows_yet : Tables
no_rows_yet = ([], [])

distribute_sum_example :
    let replies = distribute (2 ∷ 1 ∷ []) (ok (2, 1)) in
    (length replies ≡ 2) × (accepted_of replies ≡ 2) × (duplicates_of replies ≡ 1)
distribute_sum_example = distribute_sum 2 (1 ∷ []) 2 1

abbrev item : PublishItem
item = record { topic = telemetry; msgs = message ∷ []; reply = 7 }

abbrev one_pending : Pending
one_pending = record { items = item ∷ []; msg_count = 1 }

abbrev two_events : List (Event × List Str)
two_events = (received item, telemetry ∷ []) ∷ (closed, telemetry ∷ []) ∷ []

run_answers_all_example :
    let t = run test_db (pos 2) no_rows_yet empty_pending two_events in
    (t.returned ≡ true)
    × (t.pending.items ≡ [])
    × ((c : ℕ) → count c (replied t.replies) ≡ count c (channels (arrived two_events)))
run_answers_all_example =
    run_answers_all test_db (pos 2) no_rows_yet two_events
      (unfold handle str_eq in ((refl, tt), ((refl, tt), tt))) refl

abbrev one_sent : State Tables
one_sent = record (initial no_rows_yet) { channel = item ∷ []; sent = item ∷ [] }

abbrev one_taken : State Tables
one_taken = turned one_sent [] (on_event test_db (pos 2) one_sent (received item) (telemetry ∷ []))

abbrev stopped : State Tables
stopped = record one_taken { phase = closing; clean = true }

abbrev all_done : State Tables
all_done = record (turned stopped [] (on_event test_db (pos 2) stopped closed (telemetry ∷ []))) {
  phase = ended;
}

one_request : Service test_db (pos 2) no_rows_yet all_done
unfolding handle str_eq
one_request =
    ends
      (closes
        (stops
          (takes (sends (accepts starts item refl) [] [] item refl refl (omega arith)) item []
            (telemetry ∷ []) refl (λ e. cc) (refl, tt))
          refl)
        true refl (λ e. refl))
      (telemetry ∷ []) refl refl (refl, tt)

answers_all_sent_example :
    ((c : ℕ) → count c (replied all_done.replies) ≡ count c (channels (item ∷ [])))
    × (all_done.clean ≡ true → all_done.panics ≡ 0)
answers_all_sent_example = answers_all_sent test_db (pos 2) one_request refl

acknowledged_is_stored_example :
    All (IsBacked (test_laws.rows all_done.world) (item ∷ [])) all_done.replies
acknowledged_is_stored_example = acknowledged_is_stored test_db test_laws (pos 2) one_request

buffer_utilization_bounds_example :
    (buffer_utilization one_sent.channel).0 ≤ (buffer_utilization one_sent.channel).1
buffer_utilization_bounds_example =
    buffer_utilization_bounds test_db (pos 2) {w₀ = no_rows_yet}
      (sends (accepts starts item refl) [] [] item refl refl (omega arith))

handle-IsCounted_example :
    IsCounted
      (pos 2)
      (handle test_db (pos 2) no_rows_yet one_pending (received item) (telemetry ∷ [])).pending
handle-IsCounted_example =
    handle-IsCounted test_db (pos 2) no_rows_yet one_pending (received item) (telemetry ∷ [])
      (omega arith) (record { counts = refl; below = omega arith })

publish-AllOrNothing_example :
    let answer = publish test_db no_rows_yet telemetry (message ∷ message ∷ []) in
    AllOrNothing test_db test_laws no_rows_yet telemetry
      (message ∷ message ∷ [])
      answer.0
      answer.1.0
unfolding test_laws
publish-AllOrNothing_example =
    publish-AllOrNothing test_db test_laws no_rows_yet telemetry (message ∷ message ∷ [])

flush_inserts_once_example :
    let answer = flush_with_retry test_db no_rows_yet telemetry (message ∷ []) in
    ((c : ℕ × ℕ)
      → answer.0 ≡ ok c
      → (answer.1.0 ≡ insert_rows telemetry [] (message ∷ [])) × (c.0 + c.1 ≡ 1))
    × ((answer.1.0 ≡ []) ⊎ (answer.1.0 ≡ insert_rows telemetry [] (message ∷ [])))
unfolding test_laws
flush_inserts_once_example =
    flush_inserts_once test_db test_laws no_rows_yet telemetry (message ∷ [])

abbrev test_request : PublishRequest
test_request = record { topic = telemetry; messages = bytes "GPU-0" ∷ [] }

abbrev test_uuid : ℕ → Str
test_uuid i = bytes "u1"

-- The one message is decoded to itself; its partition among 128 is computed.
abbrev test_ingested : IngestMsg
test_ingested = record {
  uuid = bytes "u1";
  gpu_id = bytes "GPU-0";
  payload = bytes "GPU-0";
  partition = sum32 (bytes "GPU-0") % 128;
}

check_publish-AllIngested_example :
    (telemetry ≢ [])
    × (test_request.messages ≢ [])
    × AllIngested (pos 128) ok test_uuid 0 test_request.messages (test_ingested ∷ [])
check_publish-AllIngested_example =
    check_publish-AllIngested (pos 128) ok test_uuid test_request (test_ingested ∷ [])
      (unfold check_publish check_msgs partition_for in refl)
