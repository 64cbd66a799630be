-- ===== src/Writer/Acknowledged.antt =====
-- What the writer's process has told its clients is in the table.
use my_queue.Base.{
  ◌≡◌, refl, sym, inl, inr, true, false, List, [], ◌∷◌, ◌++◌, ℤ, pos, leb_ℤ, Str, All, Any,
  All-append, All-weaken, Any-append_left, Any-append_right, Bool-cases,
}
use my_queue.Writer.Store.{Db}
use my_queue.Writer.Buffer.{
  PublishItem, Pending, Event, Turn, received, closed, timer, add_item, do_flush, handle,
}
use my_queue.Writer.Rows.{DbLaws}
use my_queue.Writer.Share.{PublishResult}
use my_queue.Base.{Bool, ℕ}
use mathlib.Core.Path.{subst}
use my_queue.Writer.Run.{taken}
use my_queue.Writer.Durable.{Gains, IsBacked, Gains-IsBacked, do_flush-IsBacked}
use my_queue.Writer.Service.{
  State, turned, on_event, Service, starts, accepts, sends, fails, gives_up, takes, ticks, stops,
  closes, ends,
}

-- What holds of one of the first items holds of one of the others.
abbrev Sub : List PublishItem → List PublishItem → Type 1
Sub xs ys = (P : PublishItem → Type 0) → Any P xs → Any P ys

Sub-append : (xs ys zs : List PublishItem) → Sub xs zs → Sub ys zs → Sub (xs ++ ys) zs
Sub-append [] ys zs f g P h = g P h
Sub-append (x ∷ xs) ys zs f g P (inl h) = f P (inl h)
Sub-append (x ∷ xs) ys zs f g P (inr h) = Sub-append xs ys zs (λ Q k. f Q (inr k)) g P h

module _ (db : Db) (laws : DbLaws db) (max_size : ℤ) where
  open laws use {rows}

  -- What a turn of Run does with the items in hand.
  record Backs (w : db.World) (items : List PublishItem) (t : Turn db.World) : Type 1 where
    gains : Gains (rows w) (rows t.world)
    backed : All (IsBacked (rows t.world) items) t.replies
    kept : Sub t.pending.items items

  do_flush-kept :
      (w : db.World) (p : Pending) (order : List Str) (over : Bool)
      → Sub (do_flush db w p order over).pending.items p.items
  do_flush-kept w p order over = split p.items refl
    where
      split :
          (items : List PublishItem)
          → p.items ≡ items
          → Sub (do_flush db w p order over).pending.items p.items
      split [] e = unfold do_flush in rw e (λ P h. h)
      split (it ∷ items) e = unfold do_flush in rw e (λ P h. absurd h)

  flush-Backs :
      (w : db.World) (p : Pending) (order : List Str) (over : Bool)
      → Backs w p.items (do_flush db w p order over)
  flush-Backs w p order over =
      let (gains, backed) = do_flush-IsBacked db laws w p order over in
      record { gains = gains; backed = backed; kept = do_flush-kept w p order over }

  handle-Backs :
      (w : db.World) (p : Pending) (e : Event) (order : List Str)
      → Backs w (taken p e).items (handle db max_size w p e order)
  unfolding handle
  handle-Backs w p (received it) order =
      elim (Bool-cases (leb_ℤ max_size (pos (add_item p it).msg_count))) [
        | inl e ↦ rw e (flush-Backs w (add_item p it) order false)
        | inr e ↦ rw e (record { gains = λ t u h. h; backed = tt; kept = λ P h. h })
      ]
  handle-Backs w p closed order = flush-Backs w p order true
  handle-Backs w p timer order = flush-Backs w p order false

  -- The replies so far are backed, and what is still in hand has been sent.
  record IsHonest (s : State db.World) : Type 1 where
    backed : All (IsBacked (rows s.world) s.sent) s.replies
    pending_sent : Sub s.pending.items s.sent
    channel_sent : Sub s.channel s.sent

  more-IsBacked :
      (w : db.World) (items more : List PublishItem) (replies : List (ℕ × PublishResult))
      → Sub items more
      → All (IsBacked (rows w) items) replies
      → All (IsBacked (rows w) more) replies
  more-IsBacked w items more replies sub a =
      All-weaken (IsBacked (rows w) items) (IsBacked (rows w) more) replies
        (λ reply h e. sub _ (h e)) a

  turned-IsHonest :
      (s : State db.World) (e : Event) (rest : List PublishItem) (order : List Str)
      → IsHonest s
      → Sub (taken s.pending e).items s.sent
      → Sub rest s.sent
      → IsHonest (turned s rest (on_event db max_size s e order))
  turned-IsHonest s e rest order v hand left =
      let b = handle-Backs s.world s.pending e order in
      record {
        backed =
            All-append _ _ _ (Gains-IsBacked (rows s.world) _ s.sent s.replies b.gains v.backed)
              (more-IsBacked _ (taken s.pending e).items s.sent _ hand b.backed);
        pending_sent = λ P h. hand P (b.kept P h);
        channel_sent = left;
      }

  Service-IsHonest : {w₀ : db.World} {s : State db.World} → Service db max_size w₀ s → IsHonest s
  Service-IsHonest starts = record { backed = tt; pending_sent = λ P h. h; channel_sent = λ P h. h }
  Service-IsHonest (accepts x it e) =
      let v = Service-IsHonest x in
      record { backed = v.backed; pending_sent = v.pending_sent; channel_sent = v.channel_sent }
  Service-IsHonest (sends {s = s} x before after it e usable n) =
      let v = Service-IsHonest x in
      record {
        backed =
            more-IsBacked s.world s.sent (s.sent ++ it ∷ []) s.replies
              (λ P h. Any-append_left P s.sent (it ∷ []) h) v.backed;
        pending_sent = λ P h. Any-append_left P s.sent (it ∷ []) (v.pending_sent P h);
        channel_sent =
            Sub-append s.channel (it ∷ []) (s.sent ++ it ∷ [])
              (λ P h. Any-append_left P s.sent (it ∷ []) (v.channel_sent P h))
              (λ P h. Any-append_right P s.sent (it ∷ []) h);
      }
  Service-IsHonest (fails x before after it e shut) =
      let v = Service-IsHonest x in
      record { backed = v.backed; pending_sent = v.pending_sent; channel_sent = v.channel_sent }
  Service-IsHonest (gives_up x before after it e) =
      let v = Service-IsHonest x in
      record { backed = v.backed; pending_sent = v.pending_sent; channel_sent = v.channel_sent }
  Service-IsHonest (takes {s = s} x it rest order e on h) =
      let v = Service-IsHonest x in
      let queue : Sub (it ∷ rest) s.sent =
        λ P k. v.channel_sent P (subst (λ xs. Any P xs) (sym e) k) in
      turned-IsHonest s (received it) rest order v
        (Sub-append s.pending.items (it ∷ []) s.sent v.pending_sent
          (λ P k. queue P (elim k [ inl here ↦ inl here | inr there ↦ absurd there ])))
        (λ P k. queue P (inr k))
  Service-IsHonest (ticks {s = s} x order on h) =
      let v = Service-IsHonest x in
      turned-IsHonest s timer s.channel order v v.pending_sent v.channel_sent
  Service-IsHonest (stops x e) =
      let v = Service-IsHonest x in
      record { backed = v.backed; pending_sent = v.pending_sent; channel_sent = v.channel_sent }
  Service-IsHonest (closes x clean e idle) =
      let v = Service-IsHonest x in
      record { backed = v.backed; pending_sent = v.pending_sent; channel_sent = v.channel_sent }
  Service-IsHonest (ends {s = s} x order e empty h) =
      let v = Service-IsHonest x in
      let t = turned-IsHonest s closed [] order v v.pending_sent (λ P k. absurd k) in
      record { backed = t.backed; pending_sent = t.pending_sent; channel_sent = t.channel_sent }

  -- In every execution of the writer's process, whatever fails and in whatever order its goroutines go
  -- on: if the reply to a channel reports no error, then a request that waits on this channel has
  -- all its messages in the table, under their topic. As long as the process is the only one that
  -- changes the table, they stay there.
  pub acknowledged_is_stored :
      {w₀ : db.World} {s : State db.World}
      → Service db max_size w₀ s
      → All (IsBacked (rows s.world) s.sent) s.replies
  acknowledged_is_stored x = (Service-IsHonest x).backed
