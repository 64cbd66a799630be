-- ===== src/Writer/Durable.antt =====
-- What a request is told has been stored is in the table.
use my_queue.Base.{
  ℕ, ◌+◌, ◌≡◌, refl, inl, inr, Bool, true, false, none, some, List, [], ◌∷◌, ◌++◌, map, Str, str_eq,
  str_eq→eq, Result, ok, err, Assoc, lookup, length, keep, All, Any, All-append, All-weaken,
  Any-weaken, if◌then◌else◌,
}
use my_queue.Writer.Store.{IngestMsg, Db}
use my_queue.Writer.Share.{PublishResult, distribute}
use my_queue.Writer.Buffer.{
  PublishItem, Pending, or_nil, all_msgs, address, lengths, flush_with_retry, flush_groups,
  do_flush,
}
use my_queue.Writer.Rows.{
  Row, has_key, insert_rows, has_key-insert_rows, HasAll, insert_rows-HasAll, DbLaws,
}
use my_queue.Writer.Retries.{flush_inserts_once}
use my_queue.Writer.Replies.{of_topic, group-lookup}

-- A table only gains rows.
abbrev pub Gains : List Row → List Row → Type 0
Gains before after = (t u : Str) → has_key t u before ≡ true → has_key t u after ≡ true

abbrev pub IsStored : List Row → PublishItem → Type 0
IsStored rows it = HasAll it.topic rows it.msgs

-- If the reply reports no error, then a request that waits on its channel is stored.
abbrev pub IsBacked : List Row → List PublishItem → ℕ × PublishResult → Type 0
IsBacked rows items reply =
    reply.1.err ≡ none → Any (λ it. (it.reply ≡ reply.0) × IsStored rows it) items

Gains-IsStored :
    (before after : List Row)
    → Gains before after
    → (it : PublishItem) → IsStored before it
    → IsStored after it
Gains-IsStored before after g it h =
    All-weaken (λ m. has_key it.topic m.uuid before ≡ true)
      (λ m. has_key it.topic m.uuid after ≡ true) it.msgs (λ m k. g it.topic m.uuid k) h

pub Gains-IsBacked :
    (before after : List Row) (items : List PublishItem) (replies : List (ℕ × PublishResult))
    → Gains before after
    → All (IsBacked before items) replies
    → All (IsBacked after items) replies
Gains-IsBacked before after items replies g a =
    All-weaken (IsBacked before items) (IsBacked after items) replies
      (λ reply h e.
        Any-weaken (λ it. (it.reply ≡ reply.0) × IsStored before it)
          (λ it. (it.reply ≡ reply.0) × IsStored after it) items
          (λ it k. (k.0, Gains-IsStored before after g it k.1)) (h e))
      a

-- Each reply goes to one of the items.
address-Any :
    (Q : PublishItem → Type 0) (items : List PublishItem) (rs : List PublishResult)
    → All Q items
    → All (λ reply. Any (λ it. (it.reply ≡ reply.0) × Q it) items) (address items rs)
address-Any Q [] rs a = tt
address-Any Q (it ∷ items) [] a = tt
address-Any Q (it ∷ items) (r ∷ rs) a = (
  inl (refl, a.0),
  All-weaken (λ reply. Any (λ i. (i.reply ≡ reply.0) × Q i) items)
      (λ reply. Any (λ i. (i.reply ≡ reply.0) × Q i) (it ∷ items)) (address items rs)
      (λ reply h. inr h) (address-Any Q items rs a.1),
)

-- After a failed flush, every reply reports its error.
address-err :
    (e : Str) (items : List PublishItem) (ns : List ℕ)
    → All
        (λ (reply : ℕ × PublishResult). reply.1.err ≡ some e)
        (address items (map (λ n. record { accepted = 0; duplicates = 0; err = some e }) ns))
address-err e [] ns = tt
address-err e (it ∷ items) [] = tt
address-err e (it ∷ items) (n ∷ ns) = (refl, address-err e items ns)

Any-keep :
    (P : PublishItem → Type 0) (f : PublishItem → Bool) (items : List PublishItem)
    → Any P (keep f items)
    → Any P items
Any-keep P f [] h = h
Any-keep P f (it ∷ items) h = kept (f it) h (Any-keep P f items)
  where
    kept :
        (b : Bool)
        → Any P (if b then it ∷ keep f items else keep f items)
        → (Any P (keep f items) → Any P items)
        → Any P (it ∷ items)
    kept true (inl here) ih = inl here
    kept true (inr there) ih = inr (ih there)
    kept false there ih = inr (ih there)

HasAll-append :
    (t : Str) (rows : List Row) (xs ys : List IngestMsg)
    → HasAll t rows (xs ++ ys)
    → HasAll t rows xs × HasAll t rows ys
HasAll-append t rows [] ys h = (tt, h)
HasAll-append t rows (x ∷ xs) ys h = let (a, b) = HasAll-append t rows xs ys h.1 in ((h.0, a), b)

-- The items of a topic are stored once all their messages are.
of_topic-IsStored :
    (t : Str) (rows : List Row) (items : List PublishItem)
    → HasAll t rows (all_msgs (of_topic t items))
    → All (IsStored rows) (of_topic t items)
of_topic-IsStored t rows [] h = tt
of_topic-IsStored t rows (it ∷ items) h =
    kept (str_eq it.topic t) refl h (of_topic-IsStored t rows items)
  where
    kept :
        (b : Bool)
        → str_eq it.topic t ≡ b
        → HasAll t rows (all_msgs (if b then it ∷ of_topic t items else of_topic t items))
        → (HasAll t rows (all_msgs (of_topic t items)) → All (IsStored rows) (of_topic t items))
        → All (IsStored rows) (if b then it ∷ of_topic t items else of_topic t items)
    kept true e h ih =
        let (mine, others) = HasAll-append t rows it.msgs (all_msgs (of_topic t items)) h in
        (rw (str_eq→eq it.topic t e) mine, ih others)
    kept false e h ih = ih h

module _ (db : Db) (laws : DbLaws db) where
  open laws use {rows}

  flush-Gains :
      (w : db.World) (t : Str) (ms : List IngestMsg)
      → Gains (rows w) (rows (flush_with_retry db w t ms).1)
  flush-Gains w t ms = elim ((flush_inserts_once db laws w t ms).1) [
    | inl same ↦ rw same (λ s u h. h)
    | inr done ↦ rw done (λ s u h. has_key-insert_rows s u t (rows w) ms h)
  ]

  -- The replies of one group are backed by the table behind its flush.
  replies-IsBacked :
      (w : db.World) (t : Str) (items : List PublishItem)
      → let batch = of_topic t items in
        let answer = flush_with_retry db w t (all_msgs batch) in
        All (IsBacked (rows answer.1) items) (address batch (distribute (lengths batch) answer.0))
  replies-IsBacked w t items =
      answered (flush_with_retry db w t (all_msgs (of_topic t items))).0
        (flush_inserts_once db laws w t (all_msgs (of_topic t items))).0
    where
      batch : List PublishItem
      batch = of_topic t items

      after : List Row
      after = rows (flush_with_retry db w t (all_msgs batch)).1

      answered :
          (r : Result (ℕ × ℕ))
          → ((c : ℕ × ℕ)
              → r ≡ ok c
              → (after ≡ insert_rows t (rows w) (all_msgs batch))
                × (c.0 + c.1 ≡ length (all_msgs batch)))
          → All (IsBacked after items) (address batch (distribute (lengths batch) r))
      answered (err e) h =
          unfold distribute in
          All-weaken (λ (reply : ℕ × PublishResult). reply.1.err ≡ some e) (IsBacked after items) _
            (λ reply failed fine. cc) (address-err e batch (lengths batch))
      answered (ok c) h =
          All-weaken (λ reply. Any (λ it. (it.reply ≡ reply.0) × IsStored after it) batch)
            (IsBacked after items) _
            (λ reply found fine.
              Any-keep (λ it. (it.reply ≡ reply.0) × IsStored after it) _ items found)
            (address-Any (IsStored after) batch (distribute (lengths batch) (ok c)) (
              of_topic-IsStored t after items
                (rw ((h c refl).0) (insert_rows-HasAll t (rows w) (all_msgs batch)))))

  flush_groups-IsBacked :
      (w : db.World) (g : Assoc (List PublishItem)) (ts : List Str) (items : List PublishItem)
      → ((t : Str) → or_nil (lookup t g) ≡ of_topic t items)
      → let (replies, w') = flush_groups db w g ts in
        Gains (rows w) (rows w') × All (IsBacked (rows w') items) replies
  unfolding flush_groups
  flush_groups-IsBacked w g [] items h = ((λ s u k. k), tt)
  flush_groups-IsBacked w g (t ∷ ts) items h = rw (h t) (
      let answer = flush_with_retry db w t (all_msgs (of_topic t items)) in
      let (gains, backed) = flush_groups-IsBacked answer.1 g ts items h in
      (
        λ s u k. gains s u (flush-Gains w t (all_msgs (of_topic t items)) s u k),
        All-append _ _ _
            (Gains-IsBacked (rows answer.1) _ items _ gains (replies-IsBacked w t items)) backed,
      ))

  -- No request is told a success that the table does not back: in a flush, if the reply to a channel
  -- reports no error, then a request of the flush that waits on this channel has all its messages
  -- in the table, under their topic, whatever became of the other topics. And the table keeps
  -- every row that it held.
  pub do_flush-IsBacked :
      (w : db.World) (p : Pending) (order : List Str) (over : Bool)
      → let t = do_flush db w p order over in
        Gains (rows w) (rows t.world) × All (IsBacked (rows t.world) p.items) t.replies
  unfolding lookup
  do_flush-IsBacked w p order over = split p.items refl
    where
      split :
          (items : List PublishItem)
          → p.items ≡ items
          → let t = do_flush db w p order over in
            Gains (rows w) (rows t.world) × All (IsBacked (rows t.world) items) t.replies
      split [] e = unfold do_flush in rw e ((λ s u k. k), tt)
      split (it ∷ items) e =
          unfold do_flush in
          rw e (flush_groups-IsBacked w _ order (it ∷ items) (λ t. group-lookup t [] (it ∷ items)))
