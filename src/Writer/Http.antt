-- ===== src/Writer/Http.antt =====
-- internal/mqwriter/handler.go: the Publish endpoint, and Submit of buffer.go, which it calls. What
-- the JSON decoder makes of the body and of each message, and the UUIDs that are drawn, are
-- arguments.
use my_queue.Base.{
  ℕ, ◌+◌, ◌≡◌, ◌≢◌, refl, ap, Option, none, some, List, [], ◌∷◌, ◌++◌, ℤ, Str, bytes, is_empty,
  decimal, Result, ok, err, if◌then◌else◌,
}
use my_queue.Writer.Hash.{partition_for}
use my_queue.Writer.Share.{PublishResult}
use my_queue.Writer.Store.{IngestMsg}

pub record PublishRequest : Type 0 where
  pub topic : Str
  pub messages : List Str

pub data Body : Type 0 where
  publish_response : ℕ → ℕ → Body
  error_response : Str → Body

pub record Response : Type 0 where
  pub status : ℕ
  pub body : Body

abbrev pub write_err : ℕ → Str → Response
write_err status message = record { status = status; body = error_response message }

-- What the checks end in. A division by zero in PartitionFor panics.
pub data Checked : Type 0 where
  refused : Response → Checked
  panicked : Checked
  accepted : List IngestMsg → Checked

abbrev add_msg : IngestMsg → Checked → Checked
add_msg m (refused r) = refused r
add_msg m panicked = panicked
add_msg m (accepted msgs) = accepted (m ∷ msgs)

abbrev at_index : ℕ → Str → Response
at_index i message = write_err 400 (bytes "messages[" ++ (decimal i ++ (bytes "]: " ++ message)))

-- The message with a partition, and those after it.
abbrev with_partition : Str → Str → Str → Option ℕ → Checked → Checked
with_partition uuid gpu_id raw none rest = panicked
with_partition uuid gpu_id raw (some p) rest =
    add_msg (record { uuid = uuid; gpu_id = gpu_id; payload = raw; partition = p }) rest

-- One round of the loop: the gpu_id of a message, and the messages after it.
abbrev check_msg : ℤ → Str → ℕ → Str → Result Str → Checked → Checked
check_msg total uuid i raw (err e) rest = refused (at_index i e)
check_msg total uuid i raw (ok []) rest = refused (at_index i (bytes "gpu_id is required"))
check_msg total uuid i raw (ok (c ∷ cs)) rest =
    with_partition uuid (c ∷ cs) raw (partition_for (c ∷ cs) total) rest

-- Submit: the send to the buffer, and the wait for its reply; either may be cut off by the context.
pub submit : Result (Unit {0}) → Result PublishResult → PublishResult
submit (err e) reply = record { accepted = 0; duplicates = 0; err = some e }
submit (ok u) (err e) = record { accepted = 0; duplicates = 0; err = some e }
submit (ok u) (ok res) = res

abbrev publish_answer : Option Str → PublishResult → Response
publish_answer (some e) r = write_err 500 (bytes "publish failed")
publish_answer none r = record { status = 200; body = publish_response r.accepted r.duplicates }

abbrev msgs_of : Checked → List IngestMsg
msgs_of (refused r) = []
msgs_of panicked = []
msgs_of (accepted msgs) = msgs

module _ (total : ℤ) (gpu_id_of : Str → Result Str) (new_uuid : ℕ → Str) where
  -- The loop over the messages from index `i` on.
  unfoldable pub check_msgs : ℕ → List Str → Checked
  check_msgs i [] = accepted []
  check_msgs i (raw ∷ raws) =
      check_msg total (new_uuid i) i raw (gpu_id_of raw) (check_msgs (i + 1) raws)

  abbrev check_list : List Str → Checked
  check_list [] = refused (write_err 400 (bytes "messages must not be empty"))
  check_list (raw ∷ raws) = check_msgs 0 (raw ∷ raws)

  unfoldable pub check_publish : Result PublishRequest → Checked
  check_publish (err e) = refused (write_err 400 (bytes "invalid JSON: " ++ e))
  check_publish (ok req) =
      if is_empty req.topic
      then refused (write_err 400 (bytes "topic is required"))
      else check_list req.messages

  abbrev after_checks : (List IngestMsg → PublishResult) → Checked → Option Response
  after_checks send (refused r) = some r
  after_checks send panicked = none
  after_checks send (accepted msgs) = some (publish_answer (send msgs).err (send msgs))

  -- POST /v1/publish, given how the buffer answers; `none` is a panic.
  pub publish_endpoint :
      Result PublishRequest
      → (List IngestMsg → Result (Unit {0}) × Result PublishResult)
      → Option Response
  publish_endpoint body ask =
      after_checks (λ msgs. let (sent, reply) = ask msgs in submit sent reply) (check_publish body)

  -- The message made of a raw one: its own payload, its gpu_id, and that gpu_id's partition.
  pub record IsIngested (i : ℕ) (raw : Str) (m : IngestMsg) : Type 0 where
    pub decoded : gpu_id_of raw ≡ ok m.gpu_id
    pub identified : m.gpu_id ≢ []
    pub placed : partition_for m.gpu_id total ≡ some m.partition
    pub raw_payload : m.payload ≡ raw
    pub keyed : m.uuid ≡ new_uuid i

  -- The same of lists, message by message.
  abbrev pub AllIngested : ℕ → List Str → List IngestMsg → Type 0
  AllIngested i [] [] = Unit
  AllIngested i [] (m ∷ ms) = ⊥
  AllIngested i (raw ∷ raws) [] = ⊥
  AllIngested i (raw ∷ raws) (m ∷ ms) = IsIngested i raw m × AllIngested (i + 1) raws ms

  check_msg-AllIngested :
      (i : ℕ) (raw : Str) (raws : List Str) (r : Result Str) (rest : Checked) (out : List IngestMsg)
      → gpu_id_of raw ≡ r
      → ((ms : List IngestMsg) → rest ≡ accepted ms → AllIngested (i + 1) raws ms)
      → check_msg total (new_uuid i) i raw r rest ≡ accepted out
      → AllIngested i (raw ∷ raws) out
  check_msg-AllIngested i raw raws (err e) rest out d ih h = cc
  check_msg-AllIngested i raw raws (ok []) rest out d ih h = cc
  check_msg-AllIngested i raw raws (ok (c ∷ cs)) rest out d ih h =
      placed (partition_for (c ∷ cs) total) refl rest ih out h
    where
      placed :
          (p : Option ℕ)
          → partition_for (c ∷ cs) total ≡ p
          → (rest : Checked)
          → ((ms : List IngestMsg) → rest ≡ accepted ms → AllIngested (i + 1) raws ms)
          → (out : List IngestMsg) → with_partition (new_uuid i) (c ∷ cs) raw p rest ≡ accepted out
          → AllIngested i (raw ∷ raws) out
      placed none e rest ih out h = cc
      placed (some p) e (refused r) ih out h = cc
      placed (some p) e panicked ih out h = cc
      placed (some p) e (accepted ms) ih out h = rw (← ap msgs_of h) (
        record { decoded = d; identified = λ n. cc; placed = e; raw_payload = refl; keyed = refl },
        ih ms refl,
      )

  check_msgs-AllIngested :
      (i : ℕ) (raws : List Str) (msgs : List IngestMsg)
      → check_msgs i raws ≡ accepted msgs
      → AllIngested i raws msgs
  unfolding check_msgs
  check_msgs-AllIngested i [] [] h = tt
  check_msgs-AllIngested i [] (m ∷ ms) h = cc
  check_msgs-AllIngested i (raw ∷ raws) msgs h =
      check_msg-AllIngested i raw raws (gpu_id_of raw) (check_msgs (i + 1) raws) msgs refl
        (check_msgs-AllIngested (i + 1) raws) h

  -- What the endpoint hands to the buffer: a request with a topic and at least one message gives one
  -- message for each, in order, that carries the raw message unchanged, a UUID of its own draw,
  -- its gpu_id, which is not empty, and the partition of that gpu_id.
  pub check_publish-AllIngested :
      (req : PublishRequest) (msgs : List IngestMsg)
      → check_publish (ok req) ≡ accepted msgs
      → (req.topic ≢ []) × (req.messages ≢ []) × AllIngested 0 req.messages msgs
  unfolding check_publish
  check_publish-AllIngested req msgs h = checked req.topic req.messages h
    where
      checked :
          (topic : Str) (raws : List Str)
          → (if is_empty topic
              then refused (write_err 400 (bytes "topic is required"))
              else check_list raws)
            ≡ accepted msgs
          → (topic ≢ []) × (raws ≢ []) × AllIngested 0 raws msgs
      checked [] raws h = cc
      checked (c ∷ cs) [] h = cc
      checked (c ∷ cs) (raw ∷ raws) h =
          ((λ e. cc), (λ e. cc), check_msgs-AllIngested 0 (raw ∷ raws) msgs h)
