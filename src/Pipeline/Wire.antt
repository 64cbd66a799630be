-- ===== src/Pipeline/Wire.antt =====
-- The collector's HTTP client (internal/collector/collector.go) and the reader's handlers
-- (internal/mqreader/handler.go) at the two ends of a connection.
use my_queue.Base.{ℕ, ◌≡◌, ◌≢◌, Option, none, Str, Assoc, Result, ok, ◌>>=◌}
use my_queue.Client.Sender.{Sender, SenderLaws, IsSent}
use my_queue.Collector.HttpClient.{LeaseRequest, AckRequest, Json}
use my_queue.Pipeline.Fields.{Value, lease_object, ack_object, lease_from, ack_from}
use my_queue.Reader.Http

-- encoding/json. It writes a struct as the object of its fields, and reads the object back. This is so of
-- texts that are valid UTF-8: others lose bytes in it.
pub record JsonLaws (json : Json) : Type 1 where
  pub IsUtf8 : Str → Type 0
  pub object_of : Str → Result (Assoc Value)
  pub mismatch : Str → Str
  pub object-marshal_lease :
      (req : LeaseRequest) (body : Str)
      → IsUtf8 req.topic
      → IsUtf8 req.consumer_id
      → json.marshal_lease req ≡ ok body
      → object_of body ≡ ok (lease_object req)
  pub object-marshal_ack :
      (req : AckRequest) (body : Str)
      → IsUtf8 req.topic
      → IsUtf8 req.consumer_id
      → IsUtf8 req.lease_id
      → json.marshal_ack req ≡ ok body
      → object_of body ≡ ok (ack_object req)

module _ (json : Json) (wire : JsonLaws json) (sender : Sender) (laws : SenderLaws sender)
    (max_retries : ℕ) (base : Str) where
  open wire use {IsUtf8, object_of, mismatch, object-marshal_lease, object-marshal_ack}

  -- What the reader's handlers decode a body to.
  abbrev pub decode_lease : Str → Result Http.LeaseRequest
  decode_lease body = object_of body >>= lease_from mismatch

  abbrev pub decode_ack : Str → Result Http.AckRequest
  decode_ack body = object_of body >>= ack_from mismatch

  -- A method does not panic, and hands over one request, and clones of it at most `max_retries` times.
  abbrev pub IsAsked :
      {A : Type 0} → sender.http.World → Str → Str → Option (Result A) × sender.http.World → Type 0
  IsAsked w url body t = (t.0 ≢ none) × IsSent sender laws max_retries (url, body) w t.1
