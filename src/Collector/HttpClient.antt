-- ===== src/Collector/HttpClient.antt =====
-- httpMQClient of internal/collector/collector.go, the client of the reader's HTTP interface. Encoding
-- and decoding JSON are parameters.
use my_queue.Base.{
  Option, none, some, ◌++◌, ℤ, Str, bytes, decimal, Result, ok, err, wrap, ◌==◌, if◌then◌else◌,
}
use my_queue.Client.{Response, do_request}
use my_queue.Client.Sender.{Sender}
use my_queue.Collector.Cycle.{LeaseResponse, AckResponse}

pub record LeaseRequest : Type 0 where
  pub topic : Str
  pub consumer_id : Str
  pub max : ℤ
  pub lease_seconds : ℤ

pub record AckRequest : Type 0 where
  pub topic : Str
  pub consumer_id : Str
  pub lease_id : Str

-- The body of a response; `none` has been closed.
pub record Json : Type 0 where
  pub marshal_lease : LeaseRequest → Result Str
  pub marshal_ack : AckRequest → Result Str
  pub decode_lease : Option Str → Result LeaseResponse
  pub decode_ack : Option Str → Result AckResponse

module _ (json : Json) (sender : Sender) (max_retries : ℤ) (base : Str) where
  -- What a method returns, or `none`: a panic on a nil response. `what` names the method in errors.
  abbrev pub Answer : Type 0 → Type 0
  Answer A = Option (Result A) × sender.http.World

  abbrev pub read_answer :
      {A : Type 0} → Str → (Option Str → Result A) → Result (Option Response) → Option (Result A)
  read_answer what decode (err e) = some (err (what ++ (bytes " HTTP call: " ++ e)))
  read_answer what decode (ok none) = none
  read_answer what decode (ok (some resp)) =
      if resp.status_code == 200
      then some (wrap (bytes "decode " ++ (what ++ bytes " response: ")) (decode resp.body))
      else some (err (what ++ (bytes ": status " ++ decimal resp.status_code)))

  abbrev pub send_request :
      {A : Type 0}
      → Str
      → (Option Str → Result A)
      → Result (Unit {0}) × sender.http.World
      → Answer A
  send_request what decode (err e, w) = (some (err (bytes "new request: " ++ e)), w)
  send_request what decode (ok u, w) =
      let (r, w') = do_request sender.http max_retries w in (read_answer what decode r, w')

  abbrev pub post :
      {A : Type 0} → Str → Str → (Option Str → Result A) → sender.http.World → Result Str → Answer A
  post what url decode w (err e) =
      (some (err (bytes "marshal " ++ (what ++ (bytes " request: " ++ e)))), w)
  post what url decode w (ok body) = send_request what decode (sender.new_request w url body)

  unfoldable pub lease : sender.http.World → Str → Str → ℤ → ℤ → Answer LeaseResponse
  lease w topic consumer_id max lease_seconds =
      post (bytes "lease") (base ++ bytes "/v1/lease") json.decode_lease w (
        json.marshal_lease (record {
          topic = topic;
          consumer_id = consumer_id;
          max = max;
          lease_seconds = lease_seconds;
        }))

  unfoldable pub ack : sender.http.World → Str → Str → Str → Answer AckResponse
  ack w topic consumer_id lease_id =
      post (bytes "ack") (base ++ bytes "/v1/ack") json.decode_ack w (
        json.marshal_ack (record { topic = topic; consumer_id = consumer_id; lease_id = lease_id }))

-- Healthy, given the answer to GET /healthz; `none` is no error.
unfoldable pub healthy : Result Response → Option Str
healthy (err e) = some (bytes "mq healthz: " ++ e)
healthy (ok r) =
    if r.status_code == 200
    then none
    else some (bytes "mq healthz: status " ++ decimal r.status_code)
