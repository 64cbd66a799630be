-- ===== src/Lib.antt =====
-- my_queue: a message queue over PostgreSQL, and the telemetry pipeline that runs on it.
--
-- The program is a set of services. The writer (cmd/mqwriter, internal/mqwriter) accepts messages
-- over HTTP, gives each a UUID and a partition, gathers them in a buffer and inserts them into the
-- table queue_messages. Each reader (cmd/mqreader, internal/mqreader) owns a range of partitions:
-- one goroutine keeps a buffer of rows, leases them to consumers, takes their acknowledgements and
-- deletes acknowledged rows. The partition controller (cmd/partition-controller) divides the
-- partitions among the reader pods, in a ConfigMap that the readers load at their start. The
-- collector (internal/collector) leases messages, stores them in the telemetry table and
-- acknowledges them. The API gateway (internal/apigw) reads that table; the streamer
-- (internal/streamer) feeds the writer.
--
-- Which file models what:
-- - Base: what the modules share. Base/Tests has the Boolean tests of numbers, Base/Lists lists
--   with lengths in native numbers, Base/Int Go's signed integers, Base/Strings strings as bytes,
--   Base/Results Go's pairs of a value and an error, Base/Decimal decimal numerals (fmt's %d and
--   strconv.Atoi), Base/Maps maps with string keys.
-- - Reader: internal/mqreader. Reader/Store is store.go and queries.go (FetchBatch is
--   fetch_batch, DeleteByIDs is delete_by_ids); Reader/Partition is partition.go (the variables
--   of Run are the record Loop, what its select receives is an Event, one turn is handle);
--   Reader/Http is handler.go, with Partition.Lease and Partition.Ack. Reader/Database states the
--   behaviour of the two SQL statements; Reader/Execution has the executions, in which others may
--   insert rows between two turns. Reader/Stop is the shutdown in main of cmd/mqreader/main.go,
--   with Drain, and Reader/Metrics is BufferUtilization with its endpoint. Exclusive, Signal,
--   Draining, Ending, Delivery, Reached, Leasing, Expiry, Order, Reload and Endpoint are named for
--   what they prove, Served has lemmas on the map of leases.
-- - Writer: internal/mqwriter. Writer/Hash is PartitionFor, Writer/Store is Store.Publish,
--   Writer/Share is distributeResults, Writer/Buffer is WriteBuffer.Run with flushWithRetry,
--   Writer/Run is whole executions of Run. Writer/Service is the process: handlers in Submit, the
--   channel, Run, and the shutdown in main of cmd/mqwriter/main.go, in any interleaving.
--   Writer/Http is the Publish handler with Submit, Writer/Metrics the metrics endpoints.
--   Writer/Rows states the behaviour of the database; Atomic and Retries say what follows for
--   Publish and its repetition, Replies and Bounded are about the buffer, Answered,
--   Durable and Acknowledged about what the replies promise.
-- - Controller: Controller/Ranges is computePartitionsYAML, Controller/Reconcile is reconcile,
--   Controller/Watch is run with its UpdateFunc, and Controller/Settings is what main reads of
--   the environment, of cmd/partition-controller/main.go; Controller/Load is loadPartitionRange
--   of cmd/mqreader/main.go; Controller/Coverage is about the ranges, Controller/Assigned about
--   what a pod loads.
-- - Collector: internal/collector. Collector/Store is store.go, Collector/Cycle is processOnce
--   and Run of collector.go, and Collector/HttpClient its httpMQClient; Collector/Table states
--   the behaviour of the database and has the reference for the inserts; Persisted, Unique and
--   Delivered are named for what they prove.
-- - Client: Client.Do of internal/httpx/client.go; Client/Get is NewClient and Get, Client/Sender
--   is how the streamer and the collector use it.
-- - Gateway: internal/apigw. Gateway itself is parseTimeWindow, Gateway/Store is store.go and
--   queries.go, Gateway/Handler is the two endpoints of handler.go; Gateway/Table states the
--   behaviour of the queries, and Gateway/Answers is about what the endpoints answer.
-- - Streamer: internal/streamer. Streamer/Rows is ReadCSV and the records of WriteCSV, of csv.go,
--   and Streamer/File is WriteCSV on a file system; Streamer/Spaces, CsvReader and CsvWriter are
--   what csv.go uses of strings, unicode and encoding/csv. Streamer/Loop is readLoop, and
--   Streamer/Publish is sender, publishMessage, Run and Healthy, of streamer.go, with the sender
--   behind the reader. CsvRoundTrip, CsvBreaks, RoundTrip, Rewrite, Written, Cycle and Posted
--   are named for what they prove.
-- - Pipeline: the services together. Pipeline/Flow has the executions of the reader and the
--   collectors over both tables, Ledger and Traced relate the leases of a reader to the messages
--   handed out for them, and NothingLost is about those executions. In Pipeline/System the
--   collectors run their own code, collect_messages of Collector/Cycle, and what they send to
--   acknowledge waits in the network; Pipeline/Delivered shows that it is such a flow, and what
--   follows for it. Pipeline/Wire is the collector's HTTP client and the reader's handlers at the
--   two ends of a connection, with the tagged fields of their JSON in Pipeline/Fields;
--   Pipeline/Defaults is about the configurations of all three.
-- - Database: internal/db.
-- - Process: Process/Probes is the health probes of the mains in cmd, with HealthResponse of
--   internal/models; Process/Servers is the servers that they set up, with their routes.
-- - Config: internal/config/config.go.
-- - Tests: instances of the parameters in memory, and the theorems at small inputs.
--
-- What is not code of this repository is a parameter: the databases (a type of worlds, with one
-- function for each statement, and records named DbLaws for the documented behaviour of
-- PostgreSQL), the Kubernetes API, the HTTP client, the file system, JSON and YAML, the printing
-- and parsing of instants and floats, uuid.New, uuid.Parse, the clocks and the outcomes of waits.
-- Statements may fail at any time, and an error of a commit or of a deletion leaves it open whether
-- it took effect. A repeated HTTP request counts as the one that it has been cloned from, although
-- net/http finds its body consumed.
--
-- Integers are unbounded, save where the source can overflow: the timeout of a lease, the
-- difference of two instants, the delay between two attempts, the hash, and the conversion to
-- uint32 are written with their wrap-around. Counts are lengths of slices, so they stay small.
-- Loops are structural recursion; the digits of a number are printed with a fuel of one more than
-- the number, which has more steps than it has digits, and the retries of a flush count down from
-- three.
--
-- Not modelled: the interleaving of the streamer's two goroutines, which share nothing but the channel
-- of rows; log lines, but for what Connect logs of its DSN; time zones, since an instant of a CSV
-- file is kept in UTC; the structs of internal/models that no code uses; the rest of the main
-- functions, which set up signals and goroutines, and hand servers and routes to net/http and chi;
-- leader election and informers, which are calls of libraries that start run and call its
-- handler; docs/swagger, which is generated.
pub mod Base
pub mod Reader
pub mod Writer
pub mod Controller
pub mod Collector
pub mod Client
pub mod Gateway
pub mod Config
pub mod Streamer
pub mod Pipeline
pub mod Database
pub mod Process
pub mod Tests
