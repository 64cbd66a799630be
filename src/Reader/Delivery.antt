-- ===== src/Reader/Delivery.antt =====
-- A message leaves the database only after an acknowledgement of a lease that held it.
use my_queue.Base.{
  ℕ, zero, suc, ◌+◌, ◌≤◌, ◌≡◌, refl, ap, ◌∙◌, inl, inr, true, ◌&&◌, Option, none, some, List, [],
  ◌∷◌, ◌++◌, arith, ℤ, pos, negsuc, Str, Result, ok, err, delete, length, count, count-append,
  Bool-cases, contains→count,
}
use my_queue.Reader.Store.{BufMsg, Db, delete_by_ids}
use my_queue.Reader.Database.{row_ids, DbLaws, fetch-rows, delete-rows, count-without}
use my_queue.Reader.Partition.{
  ServedBatch, Config, Loop, LeaseCmd, Output, ack_reply, drop_expired, Event, Status, lease, ack,
  util, drain, expire, cancel, is_nil, pop, flush_deletes, load, refill, close_done, flush_done,
  settle, complete, on_util, refill_if_idle, on_lease, on_ack, handle, start, empty_loop,
}
use my_queue.Reader.Execution.{batch_ids, acked_by, Reach, begin, turn, others}
use my_queue.Reader.Exclusive.{flush_deletes-loop, refill-loop}

module _ (db : Db) (laws : DbLaws db) (cfg : Config) where
  open laws use {rows}

  -- How often the table holds the row with ID `i`.
  abbrev pub held : ℕ → db.World → ℕ
  held i w = count i (row_ids (rows w))

  held-delete :
      (w : db.World) (ids : List ℕ) (i : ℕ)
      → count i ids ≡ 0
      → held i (delete_by_ids db w ids).1 ≡ held i w
  held-delete w ids i h = elim (delete-rows db laws w ids) [
    | inl e ↦ rw e
    | inr e ↦ rw e (ground (arith, count-without ids (rows w) i, contains→count i ids))
  ]

  held-flush :
      (w : db.World) (s : Loop) (i : ℕ)
      → count i s.done_ids ≡ 0
      → held i (flush_deletes db cfg w s).0 ≡ held i w
  unfolding flush_deletes
  held-flush w s i h = elim (Bool-cases (is_nil s.done_ids)) [
    | inl e ↦ rw e
    | inr e ↦ rw e (held-delete w s.done_ids i h)
  ]

  held-refill :
      (w : db.World) (s : Loop) (i : ℕ)
      → count i s.done_ids ≡ 0
      → held i (refill db cfg w s).0 ≡ held i w
  unfolding refill
  held-refill w s i h =
      loaded _ _ _
      ∙ ap (λ rs. count i (row_ids rs)) (fetch-rows db laws _ _ _ _)
      ∙ held-flush w s i h
    where
      loaded :
          (w : db.World) (s : Loop) (r : Result (List BufMsg))
          → held i (load db cfg w s r).0 ≡ held i w
      loaded w s (ok msgs) = unfold load in refl
      loaded w s (err e) = unfold load in refl

  held-settle :
      (w : db.World) (s : Loop) (outs : List Output) (i : ℕ)
      → count i s.done_ids ≡ 0
      → held i (settle db cfg w s outs).world ≡ held i w
  unfolding settle flush_done
  held-settle w s outs i h = elim (Bool-cases (s.draining && is_nil s.served)) [
    | inl e ↦ rw e (closing _ _ _ ∙ held-flush w s i h)
    | inr e ↦ rw e
  ]
    where
      closing :
          (w : db.World) (s : Loop) (d : Option ℕ) → held i (close_done w s outs d).world ≡ held i w
      closing w s none = unfold close_done in refl
      closing w s (some d) = unfold close_done in refl

  held-pop :
      (w : db.World) (s : Loop) (cmd : LeaseCmd) (uuid : Str) (now i : ℕ) (n : ℤ)
      → held i (pop w s cmd uuid now n).world ≡ held i w
  unfolding pop
  held-pop w s cmd uuid now i (pos zero) = refl
  held-pop w s cmd uuid now i (pos (suc k)) = refl
  held-pop w s cmd uuid now i (negsuc k) = refl

  held-lease :
      (w : db.World) (s : Loop) (cmd : LeaseCmd) (uuid : Str) (now i : ℕ)
      → count i s.done_ids ≡ 0
      → held i (on_lease db cfg w s cmd uuid now).world ≡ held i w
  unfolding on_lease refill_if_idle
  held-lease w s cmd uuid now i h = elim (Bool-cases s.draining) [
    | inl e ↦ simp e
    | inr e ↦ simp e (held-pop _ _ cmd uuid now i _ ∙ idle)
  ]
    where
      idle : held i (refill_if_idle db cfg w s).0 ≡ held i w
      idle = elim (Bool-cases (is_nil s.buffer && is_nil s.served)) [
        | inl e ↦ rw e (held-refill w s i h)
        | inr e ↦ rw e
      ]

  held-ack :
      (w : db.World) (s : Loop) (id : Str) (o : Option ServedBatch) (i : ℕ)
      → count i s.done_ids ≡ 0
      → count i (batch_ids o) ≡ 0
      → held i (on_ack db cfg w s id o).world ≡ held i w
  unfolding on_ack complete
  held-ack w s id none i h k = refl
  held-ack w s id (some sb) i h k =
      elim (Bool-cases (is_nil s.buffer && is_nil (delete id s.served))) [
        | inl e ↦
            rw e (held-settle _ _ _ i (rw flush_deletes-loop refl) ∙ held-flush w s₁ i none_done)
        | inr e ↦ rw e (held-settle w s₁ _ i none_done)
      ]
    where
      s₁ : Loop
      s₁ = record s { done_ids = s.done_ids ++ sb.ids; served = delete id s.served }

      none_done : count i s₁.done_ids ≡ 0
      none_done = omega (arith, count-append i s.done_ids sb.ids)

  -- A turn leaves alone each row whose message is neither done nor acknowledged by it.
  pub held-handle :
      (w : db.World) (s : Loop) (e : Event) (i : ℕ)
      → count i s.done_ids ≡ 0
      → count i (acked_by s e) ≡ 0
      → held i (handle db cfg w s e).world ≡ held i w
  unfolding handle on_util acked_by
  held-handle w s (lease cmd uuid now) i h k = held-lease w s cmd uuid now i h
  held-handle w s (ack cmd) i h k = held-ack w s cmd.lease_id _ i h k
  held-handle w s util i h k = refl
  held-handle w s (drain d) i h k = held-settle w _ [] i h
  held-handle w s (expire now) i h k = held-settle w _ [] i h
  held-handle w s cancel i h k = refl

  done-settle :
      (w : db.World) (s : Loop) (outs : List Output) (i : ℕ)
      → count i (settle db cfg w s outs).loop.done_ids ≤ count i s.done_ids
  unfolding settle flush_done
  done-settle w s outs i = elim (Bool-cases (s.draining && is_nil s.served)) [
    | inl e ↦ rw e (rw flush_deletes-loop (closing _ s s.drain_done))
    | inr e ↦ rw e (omega arith)
  ]
    where
      closing :
          (w : db.World) (t : Loop) (d : Option ℕ)
          → count i (close_done w (record t { done_ids = [] }) outs d).loop.done_ids
            ≤ count i s.done_ids
      closing w t none = unfold close_done in omega arith
      closing w t (some d) = unfold close_done in omega arith

  done-lease :
      (w : db.World) (s : Loop) (cmd : LeaseCmd) (uuid : Str) (now i : ℕ)
      → count i (on_lease db cfg w s cmd uuid now).loop.done_ids ≤ count i s.done_ids
  unfolding on_lease refill_if_idle
  done-lease w s cmd uuid now i = elim (Bool-cases s.draining) [
    | inl e ↦ simp e (omega arith)
    | inr e ↦ simp e (popped _ _ _ idle)
  ]
    where
      idle : count i (refill_if_idle db cfg w s).1.done_ids ≤ count i s.done_ids
      idle = elim (Bool-cases (is_nil s.buffer && is_nil s.served)) [
        | inl e ↦ rw (e, refill-loop) (omega arith)
        | inr e ↦ rw e (omega arith)
      ]

      popped :
          (w : db.World) (t : Loop) (n : ℤ)
          → count i t.done_ids ≤ count i s.done_ids
          → count i (pop w t cmd uuid now n).loop.done_ids ≤ count i s.done_ids
      popped w t (pos zero) h = unfold pop in h
      popped w t (pos (suc k)) h = unfold pop in h
      popped w t (negsuc k) h = unfold pop in h

  done-ack :
      (w : db.World) (s : Loop) (id : Str) (o : Option ServedBatch) (i : ℕ)
      → count i (on_ack db cfg w s id o).loop.done_ids ≤ count i s.done_ids + count i (batch_ids o)
  unfolding on_ack complete
  done-ack w s id none i = omega arith
  done-ack w s id (some sb) i = elim (Bool-cases (is_nil s.buffer && is_nil (delete id s.served))) [
    | inl e ↦ rw e (
        omega (
          arith,
          done-settle (flush_deletes db cfg w s₁).0 (flush_deletes db cfg w s₁).1 outs i,
          ap (λ (t : Loop). count i t.done_ids) (flush_deletes-loop db cfg w s₁),
        ))
    | inr e ↦ rw e (omega (arith, done-settle w s₁ outs i, count-append i s.done_ids sb.ids))
  ]
    where
      s₁ : Loop
      s₁ = record s { done_ids = s.done_ids ++ sb.ids; served = delete id s.served }

      outs : List Output
      outs = ack_reply (record { acked = length sb.ids; err = none }) ∷ []

  -- Done are, at most, the messages that were done before and those now acknowledged.
  pub done-handle :
      (w : db.World) (s : Loop) (e : Event) (i : ℕ)
      → count i (handle db cfg w s e).loop.done_ids ≤ count i s.done_ids + count i (acked_by s e)
  unfolding handle on_util acked_by
  done-handle w s (lease cmd uuid now) i = omega (arith, done-lease w s cmd uuid now i)
  done-handle w s (ack cmd) i = done-ack w s cmd.lease_id _ i
  done-handle w s util i = omega arith
  done-handle w s (drain d) i =
      omega
        (arith, done-settle w (record s { draining = true; drain_done = some d; buffer = [] }) [] i)
  done-handle w s (expire now) i =
      omega (arith, done-settle w (record s { served = drop_expired now s.served }) [] i)
  done-handle w s cancel i = omega arith

  done-Reach :
      {w₀ w : db.World} {s : Loop} {acked : List ℕ} {st : Status} (i : ℕ)
      → Reach db laws cfg w₀ w s acked st
      → count i s.done_ids ≤ count i acked
  done-Reach i begin = unfold start in rw refill-loop (omega arith)
  done-Reach i (turn {w = w} {s = s} {acked = acked} r e) =
      omega (arith, done-handle w s e i, done-Reach i r, count-append i acked (acked_by s e))
  done-Reach i (others r g) = done-Reach i r

  -- If others only insert rows, then whatever else happens, a row that was in the database at the
  -- start is there until a lease that held its message is acknowledged.
  pub held-Reach :
      {w₀ w : db.World} {s : Loop} {acked : List ℕ} {st : Status} (i : ℕ)
      → Reach db laws cfg w₀ w s acked st
      → count i acked ≡ 0
      → held i w₀ ≤ held i w
  held-Reach {w₀} i begin h = unfold start in omega (arith, held-refill w₀ empty_loop i refl)
  held-Reach i (turn {w = w} {s = s} {acked = acked} r e) h = omega (
    arith,
    held-Reach i r,
    done-Reach i r,
    held-handle w s e i,
    count-append i acked (acked_by s e),
  )
  held-Reach i (others r g) h = omega (arith, held-Reach i r h, g i)
