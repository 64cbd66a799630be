-- ===== src/Reader/Endpoint.antt =====
-- POST /v1/lease as a whole: Handler.Lease of internal/mqreader/handler.go.
use my_queue.Base.{◌≡◌, ◌≢◌, none, Result, ok, err}
use my_queue.Reader.Partition.{LeaseResult}
use my_queue.Reader.Http.{LeaseRequest, Response, lease_response, IsValidLease}

-- The answer to a valid request: what the partition has leased, or its error.
abbrev pub IsLeaseAnswer : LeaseResult → Response → Type 0
IsLeaseAnswer r resp =
    (r.err ≡ none → resp ≡ record { status = 200; body = lease_response r.lease_id r.messages })
    × (r.err ≢ none → resp.status ≡ 500)

-- The body is a request that meets the conditions of the endpoint.
abbrev pub IsAcceptable : Result LeaseRequest → Type 0
IsAcceptable body = (req : LeaseRequest) × (body ≡ ok req) × IsValidLease req
