-- ===== src/Writer/Bounded.antt =====
-- The write buffer counts what it holds, and flushes before it outgrows its size.
use my_queue.Base.{
  ◌+◌, ◌≡◌, refl, ap, ◌∙◌, Bool, true, false, List, [], ◌∷◌, ◌++◌, arith, ℤ, pos, leb_ℤ, Str,
  length, sum, Bool-cases, inl, inr, ◌<ℤ◌,
}
use my_queue.Writer.Store.{Db}
use my_queue.Writer.Buffer.{
  PublishItem, Pending, Event, received, closed, timer, lengths, do_flush, add_item, handle,
}

pub record IsCounted (max_size : ℤ) (p : Pending) : Type 0 where
  pub counts : p.msg_count ≡ sum (lengths p.items)
  pub below : pos p.msg_count <ℤ max_size

sum-lengths-snoc :
    (items : List PublishItem) (it : PublishItem)
    → sum (lengths (items ++ it ∷ [])) ≡ sum (lengths items) + length it.msgs
sum-lengths-snoc [] it = omega arith
sum-lengths-snoc (i ∷ items) it = omega (arith, sum-lengths-snoc items it)

module _ (db : Db) (max_size : ℤ) where
  do_flush-IsCounted :
      (w : db.World) (p : Pending) (order : List Str) (over : Bool)
      → pos 0 <ℤ max_size
      → p.msg_count ≡ sum (lengths p.items)
      → IsCounted max_size (do_flush db w p order over).pending
  do_flush-IsCounted w p order over h counts = split p.items refl
    where
      split :
          (items : List PublishItem)
          → p.items ≡ items
          → IsCounted max_size (do_flush db w p order over).pending
      split [] e =
          unfold do_flush in
          rw e (record {
            counts = counts ∙ ap (λ xs. sum (lengths xs)) e;
            below = omega (arith, h, counts, ap (λ (xs : List PublishItem). sum (lengths xs)) e);
          })
      split (it ∷ items) e = unfold do_flush in rw e (record { counts = refl; below = h })

  -- Each turn keeps it so that the counter is the number of messages held and is below the
  -- configured size, if that is positive: a flush comes no later than the request that reaches it.
  pub handle-IsCounted :
      (w : db.World) (p : Pending) (e : Event) (order : List Str)
      → pos 0 <ℤ max_size
      → IsCounted max_size p
      → IsCounted max_size (handle db max_size w p e order).pending
  unfolding handle
  handle-IsCounted w p (received it) order h v =
      elim (Bool-cases (leb_ℤ max_size (pos (add_item p it).msg_count))) [
        | inl e ↦ rw e (do_flush-IsCounted w (add_item p it) order false h counted)
        | inr e ↦ rw e (record { counts = counted; below = ground arith })
      ]
    where
      counted : (add_item p it).msg_count ≡ sum (lengths (add_item p it).items)
      counted = omega (arith, v.counts, sum-lengths-snoc p.items it)
  handle-IsCounted w p closed order h v = do_flush-IsCounted w p order true h v.counts
  handle-IsCounted w p timer order h v = do_flush-IsCounted w p order false h v.counts
