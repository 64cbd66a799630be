-- ===== src/Process/Servers.antt =====
-- What the mains of cmd set up from their configurations: the HTTP server with its routes, if the database
-- can be reached, and otherwise nothing but the exit status.
use my_queue.Base.{
  ℕ, ◌&&◌, Bool, true, false, Option, none, some, List, [], ◌∷◌, ◌++◌, Str, str_eq, bytes, Result,
  ok, err, if◌then◌else◌,
}
use my_queue.Config.{Base, MqWriter, MqReader, Streamer, Collector, Apigw, addr}
use my_queue.Database.{Connected}

pub data Method : Type 0 where
  get post : Method

-- The handlers.
pub data Endpoint : Type 0 where
  healthz readyz publish buffer_metrics prometheus_metrics lease ack list_gpus get_telemetry
        swagger :
      Endpoint

pub record Route : Type 0 where
  pub method : Method
  pub pattern : Str
  pub endpoint : Endpoint

-- Times in seconds; `request_timeout` is that of the router's Timeout.
pub record Server : Type 0 where
  pub addr : Str
  pub routes : List Route
  pub request_timeout : ℕ
  pub read_timeout : ℕ
  pub write_timeout : ℕ
  pub idle_timeout : ℕ

abbrev pub on_get : Str → Endpoint → Route
on_get pattern endpoint = record { method = get; pattern = pattern; endpoint = endpoint }

abbrev pub on_post : Str → Endpoint → Route
on_post pattern endpoint = record { method = post; pattern = pattern; endpoint = endpoint }

-- r.Route
abbrev pub below : Str → List Route → List Route
below prefix [] = []
below prefix (r ∷ routes) = record r { pattern = prefix ++ r.pattern } ∷ below prefix routes

abbrev pub probes : List Route
probes = on_get (bytes "/healthz") healthz ∷ on_get (bytes "/readyz") readyz ∷ []

-- The server of every service but the streamer.
abbrev pub server_on : Base → List Route → Server
server_on base routes = record {
  addr = addr base;
  routes = routes;
  request_timeout = 30;
  read_timeout = 10;
  write_timeout = 30;
  idle_timeout = 60;
}

unfoldable pub mqwriter_server : MqWriter → Server
mqwriter_server cfg = server_on cfg.base (
    probes
    ++ on_post (bytes "/v1/publish") publish
      ∷ on_get (bytes "/metrics/buffer") buffer_metrics
      ∷ on_get (bytes "/metrics") prometheus_metrics
      ∷ [])

unfoldable pub mqreader_server : MqReader → Server
mqreader_server cfg = server_on cfg.base (
    probes
    ++ below (bytes "/v1") (on_post (bytes "/lease") lease ∷ on_post (bytes "/ack") ack ∷ [])
    ++ on_get (bytes "/metrics") prometheus_metrics ∷ [])

unfoldable pub collector_server : Collector → Server
collector_server cfg = server_on cfg.base probes

unfoldable pub apigw_server : Apigw → Server
apigw_server cfg = server_on cfg.base (
    probes
    ++ on_get (bytes "/api/v1/gpus") list_gpus
      ∷ on_get (bytes "/api/v1/gpus/{id}/telemetry") get_telemetry
      ∷ on_get (bytes "/swagger/*") swagger
      ∷ [])

unfoldable pub streamer_server : Streamer → Server
streamer_server cfg = record {
  addr = addr cfg.base;
  routes = probes;
  request_timeout = 10;
  read_timeout = 5;
  write_timeout = 10;
  idle_timeout = 30;
}

-- How a main that needs the database starts.
pub data Start : Type 0 where
  exits : ℕ → Start
  serves : Server → Start

unfoldable pub start_up : {P : Type 0} → Server → Result (Connected P) → Start
start_up server (err e) = exits 1
start_up server (ok connected) = serves server

abbrev same_method : Method → Method → Bool
same_method get get = true
same_method get post = false
same_method post get = false
same_method post post = true

-- The handler that is registered for a method and a pattern; a pattern without a parameter or a star
-- stands for itself.
unfoldable pub registered : Method → Str → List Route → Option Endpoint
registered m pattern [] = none
registered m pattern (r ∷ routes) =
    let rest = registered m pattern routes in
    if same_method m r.method && str_eq r.pattern pattern then some r.endpoint else rest
