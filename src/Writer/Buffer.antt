-- ===== src/Writer/Buffer.antt =====
-- internal/mqwriter/buffer.go: the flusher. `Pending` holds the variables of Run, an `Event` is
-- what its select receives. The order in which a flush goes through the topics is that of a Go
-- map, so it is an argument.
use my_queue.Base.{
  ℕ, zero, suc, ◌+◌, Bool, true, false, Option, none, some, List, [], ◌∷◌, ◌++◌, map, ℤ, pos, leb_ℤ,
  Str, Result, ok, err, Assoc, lookup, insert, length, if◌then◌else◌,
}
use my_queue.Writer.Store.{IngestMsg, Db, publish}
use my_queue.Writer.Share.{PublishResult, distribute}

-- `reply` names the channel that the request waits on.
pub record PublishItem : Type 0 where
  pub topic : Str
  pub msgs : List IngestMsg
  pub reply : ℕ

pub record Pending : Type 0 where
  pub items : List PublishItem
  pub msg_count : ℕ

pub data Event : Type 0 where
  received : PublishItem → Event
  closed : Event
  timer : Event

pub record Turn (W : Type 0) : Type 0 where
  pub world : W
  pub pending : Pending
  pub replies : List (ℕ × PublishResult)
  pub returned : Bool

abbrev pub empty_pending : Pending
empty_pending = record { items = []; msg_count = 0 }

abbrev pub or_nil {ℓ} : {A : Type ℓ} → Option (List A) → List A
or_nil none = []
or_nil (some xs) = xs

-- grouped[topic] = append(grouped[topic], item)
unfoldable pub group : Assoc (List PublishItem) → List PublishItem → Assoc (List PublishItem)
group grouped [] = grouped
group grouped (it ∷ items) =
    group (insert it.topic (or_nil (lookup it.topic grouped) ++ it ∷ []) grouped) items

abbrev pub all_msgs : List PublishItem → List IngestMsg
all_msgs [] = []
all_msgs (it ∷ items) = it.msgs ++ all_msgs items

abbrev pub is_nil {ℓ} : {A : Type ℓ} → List A → Bool
is_nil [] = true
is_nil (x ∷ xs) = false

-- Each result goes to the channel of its item.
abbrev pub address : List PublishItem → List PublishResult → List (ℕ × PublishResult)
address [] rs = []
address (it ∷ items) [] = []
address (it ∷ items) (r ∷ rs) = (it.reply, r) ∷ address items rs

abbrev pub lengths : List PublishItem → List ℕ
lengths = map (λ it. length it.msgs)

abbrev pub add_item : Pending → PublishItem → Pending
add_item p it = record { items = p.items ++ it ∷ []; msg_count = p.msg_count + length it.msgs }

abbrev pub error_of : Result (ℕ × ℕ) → Str
error_of (ok counts) = []
error_of (err e) = e

abbrev pub first_success :
    {W : Type 0} → Result (ℕ × ℕ) → W → Result (ℕ × ℕ) × W → Result (ℕ × ℕ) × W
first_success (ok counts) w again = (ok counts, w)
first_success (err e) w again = again

module _ (db : Db) where
  -- The attempts that are left; `last` is the error of the one before.
  unfoldable pub retry : ℕ → db.World → Str → List IngestMsg → Str → Result (ℕ × ℕ) × db.World
  retry zero w topic msgs last = (err last, w)
  retry (suc attempts) w topic msgs last =
      let (r, w') = publish db w topic msgs in
      let again = retry attempts w' topic msgs (error_of r) in first_success r w' again

  abbrev max_retries : ℕ
  max_retries = 3

  -- The waits between the attempts change nothing of this state.
  unfoldable pub flush_with_retry : db.World → Str → List IngestMsg → Result (ℕ × ℕ) × db.World
  unfolding retry
  flush_with_retry w topic msgs = retry max_retries w topic msgs []

  -- One round of the loop over the groups, for each topic in turn.
  unfoldable pub flush_groups :
      db.World → Assoc (List PublishItem) → List Str → List (ℕ × PublishResult) × db.World
  flush_groups w grouped [] = ([], w)
  flush_groups w grouped (topic ∷ topics) =
      let items = or_nil (lookup topic grouped) in
      let (r, w') = flush_with_retry w topic (all_msgs items) in
      let (replies, w'') = flush_groups w' grouped topics in
      (address items (distribute (lengths items) r) ++ replies, w'')

  -- doFlush; resetting the timer changes nothing of this state.
  unfoldable pub do_flush : db.World → Pending → List Str → Bool → Turn db.World
  do_flush w p order over =
      let (replies, w') = flush_groups w (group [] p.items) order in
      if is_nil p.items
      then record { world = w; pending = p; replies = []; returned = over }
      else record { world = w'; pending = empty_pending; replies = replies; returned = over }

  -- One turn of Run, for a buffer of `max_size` messages.
  unfoldable pub handle : ℤ → db.World → Pending → Event → List Str → Turn db.World
  handle max_size w p (received it) order =
      if leb_ℤ max_size (pos (add_item p it).msg_count)
      then do_flush w (add_item p it) order false
      else record { world = w; pending = add_item p it; replies = []; returned = false }
  handle max_size w p closed order = do_flush w p order true
  handle max_size w p timer order = do_flush w p order false
