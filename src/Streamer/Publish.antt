-- ===== src/Streamer/Publish.antt =====
-- The sender of internal/streamer/streamer.go, which publishes the rows over HTTP, and Run, which puts
-- the parts together. Encoding and decoding JSON, and building a request, are parameters.
use my_queue.Base.{
  ℕ, Option, none, some, List, [], ◌∷◌, ◌++◌, ℤ, Str, bytes, decimal, Result, ok, err, ◌==◌,
  if◌then◌else◌,
}
use my_queue.Client.{Response, do_request}
use my_queue.Client.Sender.{Sender}
use my_queue.Streamer.Rows.{TelemetryRow, Codec, ReadResult, loaded, refused, read_csv}
use my_queue.Streamer.File.{Fs}
use my_queue.Streamer.Loop.{Tick, read_loop, start_loop}

pub record TelemetryPayload : Type 0 where
  pub timestamp : ℤ
  pub metric_name : Str
  pub gpu_id : Str
  pub device : Str
  pub uuid : Str
  pub model_name : Str
  pub hostname : Str
  pub container : Str
  pub pod : Str
  pub namespace : Str
  pub value : ℕ
  pub labels_raw : Str

pub record MqPublishRequest : Type 0 where
  pub topic : Str
  pub messages : List Str

pub record MqPublishResponse : Type 0 where
  pub accepted : ℕ
  pub duplicates : ℕ

pub record Json : Type 0 where
  pub marshal_payload : TelemetryPayload → Result Str
  pub marshal_request : MqPublishRequest → Result Str
  -- The body of a response; `none` has been closed.
  pub decode : Option Str → Result MqPublishResponse

-- The last line that is logged, or a panic: a response of nil.
pub data Outcome : Type 0 where
  row_failed request_failed create_failed publish_failed : Str → Outcome
  bad_status : ℕ → Outcome
  bad_response : Str → Outcome
  published : MqPublishResponse → Outcome
  panicked : Outcome

abbrev pub payload_of : TelemetryRow → TelemetryPayload
payload_of row = record {
  timestamp = row.timestamp;
  metric_name = row.metric_name;
  gpu_id = row.gpu_id;
  device = row.device;
  uuid = row.uuid;
  model_name = row.model_name;
  hostname = row.hostname;
  container = row.container;
  pod = row.pod;
  namespace = row.namespace;
  value = row.value;
  labels_raw = row.labels_raw;
}

abbrev pub request_of : Str → MqPublishRequest
request_of row_json = record { topic = bytes "telemetry"; messages = row_json ∷ [] }

module _ (json : Json) (sender : Sender) (max_retries : ℤ) where
  abbrev pub decoded : Result MqPublishResponse → Outcome
  decoded (ok r) = published r
  decoded (err e) = bad_response e

  abbrev pub outcome_of : Result (Option Response) → Outcome
  outcome_of (err e) = publish_failed e
  outcome_of (ok none) = panicked
  outcome_of (ok (some r)) =
      if r.status_code == 200 then decoded (json.decode r.body) else bad_status r.status_code

  unfoldable pub send_request : Result (Unit {0}) → sender.http.World → Outcome × sender.http.World
  send_request (err e) w = (create_failed e, w)
  send_request (ok u) w = let (r, w') = do_request sender.http max_retries w in (outcome_of r, w')

  unfoldable pub send_body : Str → Result Str → sender.http.World → Outcome × sender.http.World
  unfolding send_request
  send_body url (err e) w = (request_failed e, w)
  send_body url (ok body) w = let (r, w') = sender.new_request w url body in send_request r w'

  unfoldable pub send_row : Str → Result Str → sender.http.World → Outcome × sender.http.World
  unfolding send_body
  send_row url (err e) w = (row_failed e, w)
  send_row url (ok row_json) w = send_body url (json.marshal_request (request_of row_json)) w

  unfoldable pub publish_message :
      Str → TelemetryRow → sender.http.World → Outcome × sender.http.World
  unfolding send_row
  publish_message url row w = send_row url (json.marshal_payload (payload_of row)) w

  -- A panic ends the program.
  abbrev pub go_on : {W : Type 0} → Outcome → W → List Outcome × W → List Outcome × W
  go_on panicked w rest = (panicked ∷ [], w)
  go_on (row_failed e) w rest = (row_failed e ∷ rest.0, rest.1)
  go_on (request_failed e) w rest = (request_failed e ∷ rest.0, rest.1)
  go_on (create_failed e) w rest = (create_failed e ∷ rest.0, rest.1)
  go_on (publish_failed e) w rest = (publish_failed e ∷ rest.0, rest.1)
  go_on (bad_status n) w rest = (bad_status n ∷ rest.0, rest.1)
  go_on (bad_response e) w rest = (bad_response e ∷ rest.0, rest.1)
  go_on (published r) w rest = (published r ∷ rest.0, rest.1)

  -- The rows from the channel, each published before the next is received; a failed one is dropped.
  unfoldable pub send_rows :
      Str → List TelemetryRow → sender.http.World → List Outcome × sender.http.World
  send_rows url [] w = ([], w)
  send_rows url (row ∷ rows) w =
      let (outcome, w') = publish_message url row w in
      let rest = send_rows url rows w' in go_on outcome w' rest

  module _ (fs : Fs) (codec : Codec) where
    -- Run: the reader and the sender share nothing but the channel, so the sender is run on all that
    -- the reader has sent, and their interleaving is left out. `file` is what opening the file gives.
    abbrev pub streamed :
        fs.World
        → sender.http.World
        → Str
        → Str
        → List Tick
        → ReadResult
        → List Outcome × (fs.World × sender.http.World)
    streamed w h path mq_base_url ticks (refused e) = ([], (w, h))
    streamed w h path mq_base_url ticks (loaded rows) =
        let (s, sent) = read_loop fs codec path (start_loop w rows) ticks in
        let (outcomes, h') = send_rows (mq_base_url ++ bytes "/v1/publish") sent h in
        (outcomes, (s.world, h'))

    unfoldable pub run :
        fs.World
        → sender.http.World
        → Result Str
        → Str
        → Str
        → List Tick
        → List Outcome × (fs.World × sender.http.World)
    run w h file path mq_base_url ticks = streamed w h path mq_base_url ticks (read_csv codec file)

-- Healthy, given the answer to GET /healthz; `none` is no error.
unfoldable pub healthy : Result Response → Option Str
healthy (err e) = some (bytes "mq healthz: " ++ e)
healthy (ok r) =
    if r.status_code == 200
    then none
    else some (bytes "mq healthz: status " ++ decimal r.status_code)
