-- ===== src/Pipeline/Fields.antt =====
-- The JSON objects of the requests between the collector and the reader: the fields of leaseRequest and
-- ackRequest of internal/collector/collector.go, and of LeaseRequest and AckRequest of
-- internal/mqreader/handler.go, under the tags of each. The text of an object is encoding/json's.
use my_queue.Base.{
  ◌≡◌, refl, Option, none, some, [], ◌∷◌, ℤ, pos, Str, bytes, Assoc, lookup, str_eq, Result, ok,
  err, ◌>>=◌,
}
use my_queue.Collector.HttpClient.{LeaseRequest, AckRequest}
use my_queue.Reader.Http

pub data Value : Type 0 where
  text : Str → Value
  number : ℤ → Value

-- What the collector writes.
unfoldable pub lease_object : LeaseRequest → Assoc Value
lease_object req =
    (bytes "topic", text req.topic)
    ∷ (bytes "consumer_id", text req.consumer_id)
    ∷ (bytes "max", number req.max)
    ∷ (bytes "lease_seconds", number req.lease_seconds)
    ∷ []

unfoldable pub ack_object : AckRequest → Assoc Value
ack_object req =
    (bytes "topic", text req.topic)
    ∷ (bytes "consumer_id", text req.consumer_id)
    ∷ (bytes "lease_id", text req.lease_id)
    ∷ []

-- The decoder leaves a field without a value at zero, and reports a value of another type.
abbrev text_of : Str → Option Value → Result Str
text_of mismatch none = ok []
text_of mismatch (some (text s)) = ok s
text_of mismatch (some (number n)) = err mismatch

abbrev number_of : Str → Option Value → Result ℤ
number_of mismatch none = ok (pos 0)
number_of mismatch (some (text s)) = err mismatch
number_of mismatch (some (number n)) = ok n

-- What the reader reads, given the decoder's error on a value of another type than its key's.
unfoldable pub lease_from : (Str → Str) → Assoc Value → Result Http.LeaseRequest
lease_from mismatch o = text_of (mismatch (bytes "topic")) (lookup (bytes "topic") o) >>= λ topic.
    text_of (mismatch (bytes "consumer_id")) (lookup (bytes "consumer_id") o) >>= λ consumer_id.
    number_of (mismatch (bytes "max")) (lookup (bytes "max") o) >>= λ max.
    number_of (mismatch (bytes "lease_seconds")) (lookup (bytes "lease_seconds") o) >>= λ seconds.
    ok (record { topic = topic; consumer_id = consumer_id; max = max; lease_seconds = seconds })

unfoldable pub ack_from : (Str → Str) → Assoc Value → Result Http.AckRequest
ack_from mismatch o = text_of (mismatch (bytes "topic")) (lookup (bytes "topic") o) >>= λ topic.
    text_of (mismatch (bytes "consumer_id")) (lookup (bytes "consumer_id") o) >>= λ consumer_id.
    text_of (mismatch (bytes "lease_id")) (lookup (bytes "lease_id") o) >>= λ lease_id.
    ok (record { topic = topic; consumer_id = consumer_id; lease_id = lease_id })

-- The same request, as the reader has it.
abbrev pub lease_received : LeaseRequest → Http.LeaseRequest
lease_received req = record {
  topic = req.topic;
  consumer_id = req.consumer_id;
  max = req.max;
  lease_seconds = req.lease_seconds;
}

abbrev pub ack_received : AckRequest → Http.AckRequest
ack_received req = record {
  topic = req.topic;
  consumer_id = req.consumer_id;
  lease_id = req.lease_id;
}

pub lease_from-lease_object :
    (mismatch : Str → Str) (req : LeaseRequest)
    → lease_from mismatch (lease_object req) ≡ ok (lease_received req)
unfolding lease_from lease_object lookup str_eq
lease_from-lease_object mismatch req = refl

pub ack_from-ack_object :
    (mismatch : Str → Str) (req : AckRequest)
    → ack_from mismatch (ack_object req) ≡ ok (ack_received req)
unfolding ack_from ack_object lookup str_eq
ack_from-ack_object mismatch req = refl
