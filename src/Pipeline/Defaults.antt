-- ===== src/Pipeline/Defaults.antt =====
-- The configurations of the services fit together. Each service has an environment of its own.
use my_queue.Base.{
  ℕ, ◌≡◌, refl, ◌++◌, Option, some, [], arith, Str, bytes, Result, ℤ, decimal_ℤ, str_eq,
}
use my_queue.Config.{
  get_env, get_env_int, addr, load_mq_writer, load_mq_reader, load_streamer, load_collector,
  load_base,
}
use my_queue.Writer.Hash.{partition_for, partition_for-bounds}
use my_queue.Controller.Coverage.{Within}
use my_queue.Controller.Settings.{read_settings}
use my_queue.Process.Servers.{
  Server, get, post, healthz, publish, lease, ack, registered, mqwriter_server, mqreader_server,
}

-- Where the environments do not set the number of partitions and the range, the writer puts every
-- message into the range that a lone reader serves, and the controller divides as many
-- partitions as the writer fills.
pub defaults_agree :
    (writer_env reader_env controller_env : Str → Str) (parse_duration : Str → Option ℤ)
    (gpu_id : Str) (hostname : Result Str)
    → writer_env (bytes "MQ_PARTITION_COUNT") ≡ []
    → controller_env (bytes "TOTAL_PARTITIONS") ≡ []
    → reader_env (bytes "READER_PARTITION_START") ≡ []
    → reader_env (bytes "READER_PARTITION_END") ≡ []
    → let writer = load_mq_writer writer_env parse_duration in
      let reader = load_mq_reader reader_env parse_duration in
      ((p : ℕ) × (partition_for gpu_id writer.partition_count ≡ some p)
        × Within (reader.partition_start, reader.partition_end) p)
      × ((read_settings controller_env hostname).total_partitions ≡ writer.partition_count)
unfolding load_mq_writer load_mq_reader read_settings get_env_int
defaults_agree writer_env reader_env controller_env parse_duration gpu_id hostname count total first
      last =
    rw (count, total, first, last)
      (let (p, e, h) = partition_for-bounds gpu_id 256 (omega arith) (omega arith) in
        ((p, e, ground (arith, h)), refl))

-- The server of a URL without a path, on this host.
abbrev local_url : Server → Str
local_url server = bytes "http://localhost" ++ server.addr

-- Where the environments do not set a port and the URL of the queue, the URL that the streamer posts to
-- leads to the writer's server on the same host, and there to Publish, and the URLs of the
-- collector lead to the reader's, and there to Lease and Ack; both find the health probe.
pub clients_reach_servers :
    (writer_env reader_env streamer_env collector_env : Str → Str) (parse_duration : Str → Option ℤ)
    (hostname : Str)
    → writer_env (bytes "PORT") ≡ []
    → reader_env (bytes "PORT") ≡ []
    → streamer_env (bytes "MQ_BASE_URL") ≡ []
    → collector_env (bytes "MQ_BASE_URL") ≡ []
    → let writer = mqwriter_server (load_mq_writer writer_env parse_duration) in
      let reader = mqreader_server (load_mq_reader reader_env parse_duration) in
      ((load_streamer streamer_env).mq_base_url ≡ local_url writer)
      × ((load_collector collector_env hostname).mq_base_url ≡ local_url reader)
      × (registered post (bytes "/v1/publish") writer.routes ≡ some publish)
      × (registered get (bytes "/healthz") writer.routes ≡ some healthz)
      × (registered post (bytes "/v1/lease") reader.routes ≡ some lease)
      × (registered post (bytes "/v1/ack") reader.routes ≡ some ack)
      × (registered get (bytes "/healthz") reader.routes ≡ some healthz)
unfolding load_mq_writer load_mq_reader load_streamer load_collector get_env_int get_env load_base
    mqwriter_server mqreader_server registered addr decimal_ℤ str_eq
clients_reach_servers writer_env reader_env streamer_env collector_env parse_duration hostname wport
      rport surl curl =
    rw (wport, rport, surl, curl) (refl, refl, refl, refl, refl, refl, refl)
