-- ===== src/Reader/Signal.antt =====
-- The channel on which the loop signals the end of a drain: that of the latest Drain.
use my_queue.Base.{
  ℕ, zero, suc, ◌≡◌, ◌≢◌, refl, ap, ◌∙◌, inl, inr, true, ◌&&◌, Option, none, some, List, [], ◌++◌,
  ℤ, pos, negsuc, Bool, Str, delete, Bool-cases,
}
use my_queue.Reader.Store.{Db}
use my_queue.Reader.Database.{DbLaws}
use my_queue.Reader.Partition.{
  ServedBatch, Config, Loop, LeaseCmd, Output, Event, lease, ack, util, drain, expire, cancel,
  is_nil, pop, close_done, flush_deletes, flush_done, settle, complete, on_util, refill_if_idle,
  on_lease, on_ack, handle, start, Status,
}
use my_queue.Reader.Exclusive.{flush_deletes-loop, refill-loop}
use my_queue.Reader.Execution.{Reach, begin, turn, others}

-- The channel that a Drain brings along, and otherwise the one that is there.
abbrev pub asked : Option ℕ → Event → Option ℕ
asked c (drain d) = some d
asked c (lease cmd uuid now) = c
asked c (ack cmd) = c
asked c util = c
asked c (expire now) = c
asked c cancel = c

-- Likewise whether there has been a Drain.
abbrev flagged : Bool → Event → Bool
flagged b (drain d) = true
flagged b (lease cmd uuid now) = b
flagged b (ack cmd) = b
flagged b util = b
flagged b (expire now) = b
flagged b cancel = b

-- The variables of a loop that say what is to be signalled.
abbrev Signals : Option ℕ → Bool → Loop → Type 0
Signals c b s = (s.drain_done ≡ c) × (s.draining ≡ b)

module _ (db : Db) (cfg : Config) where
  flush-Signals :
      (w : db.World) (s : Loop) → Signals s.drain_done s.draining (flush_deletes db cfg w s).1
  flush-Signals w s = rw flush_deletes-loop (refl, refl)

  settle-Signals :
      (w : db.World) (s : Loop) (outs : List Output)
      → Signals s.drain_done s.draining (settle db cfg w s outs).loop
  unfolding settle flush_done
  settle-Signals w s outs = elim (Bool-cases (s.draining && is_nil s.served)) [
    | inl e ↦ rw e (
        closing _ (flush_deletes db cfg w s).1 (flush_deletes db cfg w s).1.drain_done
          (flush-Signals w s))
    | inr e ↦ rw e (refl, refl)
  ]
    where
      closing :
          (w' : db.World) (s' : Loop) (d : Option ℕ)
          → Signals s.drain_done s.draining s'
          → Signals s.drain_done s.draining (close_done w' s' outs d).loop
      closing w' s' none h = unfold close_done in h
      closing w' s' (some d) h = unfold close_done in h

  pop-Signals :
      (w : db.World) (s : Loop) (cmd : LeaseCmd) (uuid : Str) (now : ℕ) (n : ℤ)
      → Signals s.drain_done s.draining (pop w s cmd uuid now n).loop
  unfolding pop
  pop-Signals w s cmd uuid now (pos zero) = (refl, refl)
  pop-Signals w s cmd uuid now (pos (suc k)) = (refl, refl)
  pop-Signals w s cmd uuid now (negsuc k) = (refl, refl)

  refill_if_idle-Signals :
      (w : db.World) (s : Loop) → Signals s.drain_done s.draining (refill_if_idle db cfg w s).1
  unfolding refill_if_idle
  refill_if_idle-Signals w s = elim (Bool-cases (is_nil s.buffer && is_nil s.served)) [
    | inl e ↦ rw e (
      ap (λ (t : Loop). t.drain_done) (refill-loop db cfg w s),
      ap (λ (t : Loop). t.draining) (refill-loop db cfg w s),
    )
    | inr e ↦ rw e (refl, refl)
  ]

  on_lease-Signals :
      (w : db.World) (s : Loop) (cmd : LeaseCmd) (uuid : Str) (now : ℕ)
      → Signals s.drain_done s.draining (on_lease db cfg w s cmd uuid now).loop
  unfolding on_lease
  on_lease-Signals w s cmd uuid now = elim (Bool-cases s.draining) [
    | inl e ↦ simp e (refl, refl)
    | inr e ↦
        let (kept, flag) = refill_if_idle-Signals w s in
        let (kept', flag') = pop-Signals _ _ cmd uuid now _ in
        simp e (kept' ∙ kept, flag' ∙ flag ∙ e)
  ]

  on_ack-Signals :
      (w : db.World) (s : Loop) (id : Str) (o : Option ServedBatch)
      → Signals s.drain_done s.draining (on_ack db cfg w s id o).loop
  unfolding on_ack complete
  on_ack-Signals w s id none = (refl, refl)
  on_ack-Signals w s id (some sb) =
      elim (Bool-cases (is_nil s.buffer && is_nil (delete id s.served))) [
        | inl e ↦
            let s₁ = record s { served = delete id s.served; done_ids = s.done_ids ++ sb.ids } in
            let (kept, flag) = flush-Signals w s₁ in
            let (kept', flag') = settle-Signals _ (flush_deletes db cfg w s₁).1 _ in
            rw e (kept' ∙ kept, flag' ∙ flag)
        | inr e ↦ rw e (settle-Signals w _ _)
      ]

  pub handle-Signals :
      (w : db.World) (s : Loop) (e : Event)
      → Signals (asked s.drain_done e) (flagged s.draining e) (handle db cfg w s e).loop
  unfolding handle on_util
  handle-Signals w s (lease cmd uuid now) = on_lease-Signals w s cmd uuid now
  handle-Signals w s (ack cmd) = on_ack-Signals w s cmd.lease_id _
  handle-Signals w s util = (refl, refl)
  handle-Signals w s (drain d) = settle-Signals w _ []
  handle-Signals w s (expire now) = settle-Signals w _ []
  handle-Signals w s cancel = (refl, refl)

module _ (db : Db) (laws : DbLaws db) (cfg : Config) where
  -- The channel of the latest Drain of an execution.
  unfoldable pub last_drain :
      {w₀ w : db.World} {s : Loop} {acked : List ℕ} {st : Status}
      → Reach db laws cfg w₀ w s acked st
      → Option ℕ
  last_drain begin = none
  last_drain (turn r e) = asked (last_drain r) e
  last_drain (others r g) = last_drain r

  -- The loop keeps that channel, and drains if there is one.
  pub last_drain_kept :
      {w₀ w : db.World} {s : Loop} {acked : List ℕ} {st : Status}
      (r : Reach db laws cfg w₀ w s acked st)
      → (s.drain_done ≡ last_drain r) × (last_drain r ≢ none → s.draining ≡ true)
  unfolding last_drain start
  last_drain_kept begin = rw refill-loop (refl, λ h. absurd (h refl))
  last_drain_kept (turn {w = w} {s = s} r e) =
      let (kept, flag) = handle-Signals db cfg w s e in
      let (kept', flag') = last_drain_kept r in
      (kept ∙ ap (λ c. asked c e) kept', λ h. flag ∙ still e flag' h)
    where
      still :
          {c : Option ℕ} {b : Bool} (e : Event)
          → (c ≢ none → b ≡ true)
          → asked c e ≢ none
          → flagged b e ≡ true
      still (lease cmd uuid now) f h = f h
      still (ack cmd) f h = f h
      still util f h = f h
      still (drain d) f h = refl
      still (expire now) f h = f h
      still cancel f h = f h
  last_drain_kept (others r g) = last_drain_kept r
