-- ===== src/Reader/Http.antt =====
-- internal/mqreader/handler.go, and the calls of Partition that its endpoints make. A request is
-- what the JSON decoder makes of its body; a reply is a status code and a body.
use my_queue.Base.{
  ℕ, ◌≡◌, ◌≢◌, refl, ◌⊎◌, inl, inr, none, some, Option, List, [], ◌∷◌, ◌++◌, arith, ℤ, pos, leb_ℤ,
  Str, bytes, is_empty, Result, ok, err, if◌then◌else◌, Bool-cases, ◌<ℤ◌,
}
use my_queue.Reader.Partition.{LeaseCmd, AckCmd, LeaseResult, AckResult, LeasedMsg}

pub record LeaseRequest : Type 0 where
  pub topic : Str
  pub consumer_id : Str
  pub max : ℤ
  pub lease_seconds : ℤ

pub record AckRequest : Type 0 where
  pub topic : Str
  pub consumer_id : Str
  pub lease_id : Str

pub data Body : Type 0 where
  error_response : Str → Body
  lease_response : Str → List LeasedMsg → Body
  ack_response : ℕ → Body

pub record Response : Type 0 where
  pub status : ℕ
  pub body : Body

abbrev write_err : ℕ → Str → Response
write_err status msg = record { status = status; body = error_response msg }

-- The outcome of a select between a channel operation and ctx.Done().
pub data Wait (A : Type 0) : Type 0 where
  arrived : A → Wait A
  cancelled : Str → Wait A

-- Partition.Lease: the send of the command, then the reply.
unfoldable pub partition_lease : Wait (Unit {0}) → Wait LeaseResult → LeaseResult
partition_lease (cancelled e) reply = record { lease_id = []; messages = []; err = some e }
partition_lease (arrived u) (arrived res) = res
partition_lease (arrived u) (cancelled e) = record { lease_id = []; messages = []; err = some e }

unfoldable pub partition_ack : Wait (Unit {0}) → Wait AckResult → AckResult
partition_ack (cancelled e) reply = record { acked = 0; err = some e }
partition_ack (arrived u) (arrived res) = res
partition_ack (arrived u) (cancelled e) = record { acked = 0; err = some e }

pub lease_command : LeaseRequest → LeaseCmd
lease_command req = record {
  topic = req.topic;
  consumer_id = req.consumer_id;
  max = req.max;
  lease_seconds = req.lease_seconds;
}

pub ack_command : AckRequest → AckCmd
ack_command req = record {
  topic = req.topic;
  consumer_id = req.consumer_id;
  lease_id = req.lease_id;
}

-- The checks of the Lease endpoint: the command that it sends, or the refusal.
unfoldable pub check_lease : Result LeaseRequest → Response ⊎ LeaseCmd
unfolding lease_command
check_lease (err e) = inl (write_err 400 (bytes "invalid JSON: " ++ e))
check_lease (ok req) =
    if is_empty req.topic
    then inl (write_err 400 (bytes "topic is required"))
    else if is_empty req.consumer_id
    then inl (write_err 400 (bytes "consumer_id is required"))
    else if leb_ℤ req.max (pos 0)
    then inl (write_err 400 (bytes "max must be > 0"))
    else if leb_ℤ req.lease_seconds (pos 0)
    then inl (write_err 400 (bytes "lease_seconds must be > 0"))
    else inr (lease_command req)

unfoldable pub lease_answer : Option Str → LeaseResult → Response
lease_answer (some e) r = write_err 500 (bytes "lease failed")
lease_answer none r = record { status = 200; body = lease_response r.lease_id r.messages }

-- POST /v1/lease, given how the partition answers a command.
unfoldable pub lease_endpoint :
    Result LeaseRequest → (LeaseCmd → Wait (Unit {0}) × Wait LeaseResult) → Response
unfolding lease_answer
lease_endpoint body ask = elim (check_lease body) [
  | inl refusal ↦ refusal
  | inr cmd ↦
      let (sent, reply) = ask cmd in let r = partition_lease sent reply in lease_answer r.err r
]

unfoldable pub check_ack : Result AckRequest → Response ⊎ AckCmd
unfolding ack_command
check_ack (err e) = inl (write_err 400 (bytes "invalid JSON: " ++ e))
check_ack (ok req) =
    if is_empty req.topic
    then inl (write_err 400 (bytes "topic is required"))
    else if is_empty req.consumer_id
    then inl (write_err 400 (bytes "consumer_id is required"))
    else if is_empty req.lease_id
    then inl (write_err 400 (bytes "lease_id is required"))
    else inr (ack_command req)

ack_answer : Option Str → AckResult → Response
ack_answer (some e) r = write_err 500 (bytes "ack failed")
ack_answer none r = record { status = 200; body = ack_response r.acked }

unfoldable pub ack_endpoint :
    Result AckRequest → (AckCmd → Wait (Unit {0}) × Wait AckResult) → Response
unfolding ack_answer
ack_endpoint body ask = elim (check_ack body) [
  | inl refusal ↦ refusal
  | inr cmd ↦ let (sent, reply) = ask cmd in let r = partition_ack sent reply in ack_answer r.err r
]

abbrev pub IsValidLease : LeaseRequest → Type 0
IsValidLease req =
    (req.topic ≢ []) × (req.consumer_id ≢ []) × (pos 0 <ℤ req.max) × (pos 0 <ℤ req.lease_seconds)

-- A lease request is sent to the partition, with its own fields, exactly when neither of its texts
-- is empty and both of its numbers are positive. Any other request is refused with status 400.
pub check_lease_exact :
    (req : LeaseRequest)
    → (IsValidLease req → check_lease (ok req) ≡ inr (lease_command req))
      × (¬ IsValidLease req → (r : Response) × (check_lease (ok req) ≡ inl r) × (r.status ≡ 400))
check_lease_exact req = (
  accepted req.topic req.consumer_id req.max req.lease_seconds,
  refused req.topic req.consumer_id req.max req.lease_seconds,
)
  where
    accepted :
        (t c : Str) (m n : ℤ)
        → IsValidLease (record { topic = t; consumer_id = c; max = m; lease_seconds = n })
        → check_lease (ok (record { topic = t; consumer_id = c; max = m; lease_seconds = n }))
          ≡ inr (lease_command (record { topic = t; consumer_id = c; max = m; lease_seconds = n }))
    accepted [] c m n (a, b, d, e) = absurd (a refl)
    accepted (x ∷ t) [] m n (a, b, d, e) = absurd (b refl)
    accepted (x ∷ t) (y ∷ c) m n (a, b, d, e) = unfold check_lease in ground arith

    refused :
        (t c : Str) (m n : ℤ)
        → ¬ IsValidLease (record { topic = t; consumer_id = c; max = m; lease_seconds = n })
        → (r : Response) × (check_lease
              (ok (record { topic = t; consumer_id = c; max = m; lease_seconds = n }))
            ≡ inl r)
          × (r.status ≡ 400)
    refused [] c m n h =
        (write_err 400 (bytes "topic is required"), unfold check_lease in refl, refl)
    refused (x ∷ t) [] m n h =
        (write_err 400 (bytes "consumer_id is required"), unfold check_lease in refl, refl)
    refused (x ∷ t) (y ∷ c) m n h = elim (Bool-cases (leb_ℤ m (pos 0))) [
      | inl e ↦ (write_err 400 (bytes "max must be > 0"), unfold check_lease in rw e, refl)
      | inr e ↦ elim (Bool-cases (leb_ℤ n (pos 0))) [
        | inl f ↦ (
          write_err 400 (bytes "lease_seconds must be > 0"),
          unfold check_lease in rw (e, f),
          refl,
        )
        | inr f ↦ absurd (h ((λ z. cc), (λ z. cc), ground arith, ground arith))
      ]
    ]

-- Whatever the body, a command that the endpoint sends asks for a positive number of messages, so
-- that the partition never slices off a negative number, and for a positive number of seconds.
pub check_lease-positive :
    (body : Result LeaseRequest) (cmd : LeaseCmd)
    → check_lease body ≡ inr cmd
    → (pos 0 <ℤ cmd.max) × (pos 0 <ℤ cmd.lease_seconds)
unfolding check_lease
check_lease-positive (err e) cmd h = cc
check_lease-positive (ok req) cmd h = ground arith
