-- ===== src/Tests/Pipeline.antt =====
-- The whole pipeline, with a queue of two rows, of which a collector leases and persists one.
use my_queue.Base.{
  arith, ◌≡◌, ℕ, ◌≤◌, refl, ◌⊎◌, Bool, true, false, List, [], ◌∷◌, ◌++◌, pos, Str, bytes, Result,
  ok, All, Assoc, lookup, str_eq, ◌==◌, if◌then◌else◌,
}
use my_queue.Reader.Store.{BufMsg, fetch_batch, collect, scan_rows}
use my_queue.Reader.Delivery.{held}
use my_queue.Reader.Partition.{
  Config, handle, start, lease, ack, leased, LeasedMsg, Loop, Turn, LeaseCmd, AckCmd, on_lease,
  refill, flush_deletes, pop, clip, refill_if_idle, served_ids,
}
use my_queue.Collector.Store.{TelemetryRow, Args, args_of}
use my_queue.Collector.Table.{has_uuid}
use my_queue.Reader.Execution.{acked_by}
use my_queue.Pipeline.Ledger.{RowIsKnown, reply_of}
use my_queue.Pipeline.NothingLost.{IsSafe}
use my_queue.Config.{load_mq_writer, load_mq_reader}
use my_queue.Writer.Hash.{partition_for}
use my_queue.Controller.Coverage.{Within}
use my_queue.Controller.Settings.{read_settings}
use my_queue.Base.{some, none}
use my_queue.Pipeline.Defaults.{defaults_agree}
use my_queue.Pipeline.System.{System, begins, leases, collects, acks, collected}
use my_queue.Pipeline.Delivered.{loses_nothing, stores_once}
use my_queue.Collector.Unique.{IsUnique, count_uuid}
use my_queue.Tests.Collector as Telemetry
use my_queue.Collector.Cycle.{collect_messages, parse_rows, persist_if, ack_if}
use my_queue.Collector.Store.{persist_batch, insert_all, insert_one}
use my_queue.Collector.HttpClient.{LeaseRequest, AckRequest}
use my_queue.Collector.HttpClient
use my_queue.Tests.Wire.{text}
use my_queue.Tests.Rows.{first, second, test_db, test_laws}

abbrev test_config : Config
test_config = record { part_start = pos 0; part_end = pos 127; batch_size = pos 10 }

abbrev both_rows : Bool × Bool
both_rows = (true, true)

abbrev message_of : ℕ → BufMsg
message_of n = if n == 1 then first else second

rows-known : (w : Bool × Bool) → All (RowIsKnown message_of) (test_laws.rows w)
unfolding test_laws
rows-known (true, true) = (refl, (refl, tt))
rows-known (true, false) = (refl, tt)
rows-known (false, true) = (refl, tt)
rows-known (false, false) = tt

-- Each payload is the GPU ID of a row without anything else.
abbrev parsed : Str → TelemetryRow
parsed payload = record {
  uuid = [];
  msg_uuid = [];
  gpu_id = payload;
  metric_name = [];
  timestamp = pos 0;
  device = [];
  model_name = [];
  hostname = [];
  container = [];
  pod = [];
  namespace = [];
  value = 0;
  labels_raw = [];
}

abbrev test_unmarshal : Str → Result TelemetryRow
test_unmarshal payload = ok (parsed payload)

abbrev one_row : List Args
one_row = args_of (parsed (bytes "{}")) (bytes "u1") ∷ []

abbrev lease_one : LeaseCmd
lease_one = record {
  topic = bytes "telemetry";
  consumer_id = bytes "c1";
  max = pos 1;
  lease_seconds = pos 30;
}

abbrev ack_one : AckCmd
ack_one = record { topic = bytes "telemetry"; consumer_id = bytes "c1"; lease_id = bytes "lease-1" }

abbrev filled : (Bool × Bool) × Loop
filled = start test_db test_config both_rows

abbrev one_leased : Turn (Bool × Bool)
one_leased = handle test_db test_config filled.0 filled.1 (lease lease_one (bytes "lease-1") 5)

abbrev one_acked : Turn (Bool × Bool)
one_acked = handle test_db test_config one_leased.world one_leased.loop (ack ack_one)

abbrev given_one : Assoc (List LeasedMsg)
given_one = (bytes "lease-1", reply_of one_leased.outputs) ∷ []

abbrev one_collected : Telemetry.Tables × List Str
one_collected =
    collected test_unmarshal Telemetry.test_texts Telemetry.test_db Telemetry.test_config
      Telemetry.no_telemetry [] (bytes "lease-1") (leased first ∷ [])

leased-System :
    System test_unmarshal Telemetry.test_texts Telemetry.test_db test_db test_laws test_config
      both_rows Telemetry.no_telemetry one_leased.world one_leased.loop
      ([] ++ acked_by filled.1 (lease lease_one (bytes "lease-1") 5))
      one_leased.status
      Telemetry.no_telemetry
      given_one
      []
leased-System = leases begins lease_one (bytes "lease-1") 5 (unfold lookup in refl)

acked-System :
    System test_unmarshal Telemetry.test_texts Telemetry.test_db test_db test_laws test_config
      both_rows Telemetry.no_telemetry one_acked.world one_acked.loop
      (([] ++ acked_by filled.1 (lease lease_one (bytes "lease-1") 5))
        ++ acked_by one_leased.loop (ack ack_one))
      one_acked.status
      one_collected.0
      given_one
      one_collected.1
unfolding handle on_lease start refill fetch_batch collect scan_rows flush_deletes pop clip
    refill_if_idle served_ids str_eq collect_messages parse_rows persist_if persist_batch ack_if
    insert_all insert_one has_uuid
acked-System =
    acks
      (collects leased-System Telemetry.test_config (bytes "lease-1") (leased first ∷ [])
        (unfold lookup in refl))
      ack_one refl

loses_nothing_example :
    (held test_db test_laws test_config 1 both_rows
      ≤ held test_db test_laws test_config 1 one_acked.world)
    ⊎ IsSafe test_unmarshal ok test_db test_laws test_config message_of rows-known
        (Telemetry.test_laws.rows one_collected.0)
        1
loses_nothing_example =
    loses_nothing test_unmarshal Telemetry.test_texts Telemetry.test_db Telemetry.test_laws test_db
      test_laws test_config message_of rows-known 1 acked-System

none_twice : IsUnique []
unfolding count_uuid
none_twice u = omega arith

stores_once_example : IsUnique (Telemetry.test_laws.rows one_collected.0)
unfolding Telemetry.test_laws
stores_once_example =
    stores_once test_unmarshal Telemetry.test_texts Telemetry.test_db Telemetry.test_laws test_db
      test_laws test_config none_twice acked-System

defaults_agree_example :
    let writer = load_mq_writer (λ key. []) (λ s. none) in
    let reader = load_mq_reader (λ key. []) (λ s. none) in
    ((p : ℕ) × (partition_for (bytes "GPU-0") writer.partition_count ≡ some p)
      × Within (reader.partition_start, reader.partition_end) p)
    × ((read_settings (λ key. []) (ok (bytes "host"))).total_partitions ≡ writer.partition_count)
defaults_agree_example =
    defaults_agree (λ key. []) (λ key. []) (λ key. []) (λ s. none) (bytes "GPU-0")
      (ok (bytes "host")) refl refl refl refl

abbrev lease_five : LeaseRequest
lease_five = record {
  topic = bytes "t";
  consumer_id = bytes "c";
  max = pos 5;
  lease_seconds = pos 30;
}

abbrev lease_body : Str
lease_body = 0 ∷ text (bytes "t") (text (bytes "c") (0 ∷ 5 ∷ 0 ∷ 30 ∷ []))

abbrev ack_l : AckRequest
ack_l = record { topic = bytes "t"; consumer_id = bytes "c"; lease_id = bytes "l" }

abbrev ack_body : Str
ack_body = 1 ∷ text (bytes "t") (text (bytes "c") (text (bytes "l") []))
