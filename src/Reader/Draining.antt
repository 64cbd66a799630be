-- ===== src/Reader/Draining.antt =====
-- The end of the loop: Drain, what stops it, and what it leaves behind.
use my_queue.Base.{
  ℕ, zero, suc, ◌≡◌, ◌≢◌, refl, sym, ap, ◌∙◌, ◌⊎◌, inl, inr, true, false, ◌&&◌, Option, none, some,
  List, [], ◌∷◌, ◌++◌, arith, ℤ, pos, negsuc, ◌≤ℤ◌, Str, delete, Bool-cases,
}
use mathlib.Core.Bool.{false≢true}
use my_queue.Reader.Store.{Db}
use my_queue.Reader.Partition.{
  ServedBatch, Config, Loop, LeaseCmd, Output, Event, Turn, lease, ack, util, drain, expire, cancel,
  running, returned, closed, is_nil, pop, clip, close_done, flush_deletes, flush_done, settle,
  complete, on_util, refill_if_idle, on_lease, on_ack, handle,
}
use my_queue.Reader.Signal.{asked}
use my_queue.Reader.Exclusive.{Inv, flush_deletes-loop, refill-loop, is_nil-eq}

-- What holds of a turn that ended the loop by a finished drain, which is signalled on the channel `c`.
pub record IsDrained {W : Type 0} (c : Option ℕ) (t : Turn W) : Type 0 where
  pub none_served : t.loop.served ≡ []
  pub none_done : t.loop.done_ids ≡ []
  pub signalled :
      (d : ℕ) × (outs : List Output) × (c ≡ some d) × (t.outputs ≡ outs ++ closed d ∷ [])

-- A drain in progress waits for somebody.
abbrev pub Waits : Loop → Type 0
Waits s = s.draining ≡ true → s.served ≢ []

-- How a turn may end: going on, with a drain waiting for somebody, or drained.
abbrev pub EndsWell : {W : Type 0} → Option ℕ → Turn W → Type 0
EndsWell c t = ((t.status ≡ running) × Waits t.loop) ⊎ ((t.status ≡ returned) × IsDrained c t)

clip_nonneg : (max : ℤ) (len : ℕ) → pos 0 ≤ℤ max → pos 0 ≤ℤ clip max len
unfolding clip
clip_nonneg max len h = ground arith

-- The bound of a lease command is not negative. The HTTP handler sends positive ones only.
abbrev pub IsSane : Event → Type 0
IsSane (lease cmd uuid now) = pos 0 ≤ℤ cmd.max
IsSane (ack cmd) = Unit
IsSane util = Unit
IsSane (drain d) = Unit
IsSane (expire now) = Unit
IsSane cancel = Unit

module _ (db : Db) (cfg : Config) where
  refill_if_idle-draining :
      (w : db.World) (s : Loop) → (refill_if_idle db cfg w s).1.draining ≡ s.draining
  unfolding refill_if_idle
  refill_if_idle-draining w s = elim (Bool-cases (is_nil s.buffer && is_nil s.served)) [
    | inl e ↦ rw e (ap (λ (t : Loop). t.draining) (refill-loop db cfg w s))
    | inr e ↦ rw e
  ]

  settle-EndsWell :
      (w : db.World) (s : Loop) (outs : List Output)
      → (s.draining ≡ true → s.drain_done ≢ none)
      → EndsWell s.drain_done (settle db cfg w s outs)
  unfolding settle flush_done
  settle-EndsWell w s outs await = elim (Bool-cases (s.draining && is_nil s.served)) [
    | inl e ↦
        rw (e, flush_deletes-loop)
          (closing s.drain_done (await (ground arith)) (is_nil-eq s.served (ground arith)))
    | inr e ↦ rw e (inl (refl, λ g n. busy g n e))
  ]
    where
      closing :
          (d : Option ℕ)
          → d ≢ none
          → s.served ≡ []
          → EndsWell d (close_done (flush_deletes db cfg w s).0 (record s { done_ids = [] }) outs d)
      closing none h n = absurd (h refl)
      closing (some d) h n =
          unfold close_done in
          inr
            (refl, record { none_served = n; none_done = refl; signalled = (d, outs, refl, refl) })

      busy : s.draining ≡ true → s.served ≡ [] → (s.draining && is_nil s.served) ≡ false → ⊥
      busy g n e = ground arith

  pop-running :
      {W : Type 0} (w : W) (s : Loop) (cmd : LeaseCmd) (uuid : Str) (now len : ℕ)
      → pos 0 ≤ℤ cmd.max
      → (pop w s cmd uuid now (clip cmd.max len)).status ≡ running
  pop-running {W} w s cmd uuid now len h = served_all (clip cmd.max len) (clip_nonneg cmd.max len h)
    where
      served_all : (n : ℤ) → pos 0 ≤ℤ n → (pop w s cmd uuid now n).status ≡ running
      served_all (pos zero) h = unfold pop in refl
      served_all (pos (suc k)) h = unfold pop in refl
      served_all (negsuc k) h = absurd (omega arith)

  pop-draining :
      {W : Type 0} (w : W) (s : Loop) (cmd : LeaseCmd) (uuid : Str) (now : ℕ) (n : ℤ)
      → (pop w s cmd uuid now n).loop.draining ≡ s.draining
  unfolding pop
  pop-draining w s cmd uuid now (pos zero) = refl
  pop-draining w s cmd uuid now (pos (suc k)) = refl
  pop-draining w s cmd uuid now (negsuc k) = refl

  on_lease-EndsWell :
      (w : db.World) (s : Loop) (cmd : LeaseCmd) (uuid : Str) (now : ℕ)
      → pos 0 ≤ℤ cmd.max
      → Waits s
      → EndsWell s.drain_done (on_lease db cfg w s cmd uuid now)
  unfolding on_lease
  on_lease-EndsWell w s cmd uuid now h wait = elim (Bool-cases s.draining) [
    | inl e ↦ simp e (inl (refl, λ g. wait e))
    | inr e ↦ simp e (
        inl (
          pop-running _ _ cmd uuid now _ h,
          λ g n. false≢true (
              sym e
              ∙ sym (refill_if_idle-draining w s)
              ∙ sym (pop-draining _ _ cmd uuid now _)
              ∙ g),
        ))
  ]

  on_ack-EndsWell :
      (w : db.World) (s : Loop) (id : Str) (o : Option ServedBatch)
      → (s.draining ≡ true → s.drain_done ≢ none)
      → Waits s
      → EndsWell s.drain_done (on_ack db cfg w s id o)
  unfolding on_ack complete
  on_ack-EndsWell w s id none await wait = inl (refl, wait)
  on_ack-EndsWell w s id (some sb) await wait =
      elim (Bool-cases (is_nil s.buffer && is_nil (delete id s.served))) [
        | inl e ↦ rw (e, flush_deletes-loop) (settle-EndsWell _ _ _ await)
        | inr e ↦ rw e (settle-EndsWell w _ _ await)
      ]

  pub handle-EndsWell :
      (w : db.World) (s : Loop) (e : Event)
      → Inv cfg s
      → Waits s
      → IsSane e
      → e ≢ cancel
      → EndsWell (asked s.drain_done e) (handle db cfg w s e)
  unfolding handle on_util
  handle-EndsWell w s (lease cmd uuid now) v wait h n = on_lease-EndsWell w s cmd uuid now h wait
  handle-EndsWell w s (ack cmd) v wait h n = on_ack-EndsWell w s cmd.lease_id _ v.awaited wait
  handle-EndsWell w s util v wait h n = inl (refl, wait)
  handle-EndsWell w s (drain d) v wait h n = settle-EndsWell w _ [] (λ g e. cc)
  handle-EndsWell w s (expire now) v wait h n = settle-EndsWell w _ [] v.awaited
  handle-EndsWell w s cancel v wait h n = absurd (n refl)

  on_lease-Waits :
      (w : db.World) (s : Loop) (cmd : LeaseCmd) (uuid : Str) (now : ℕ)
      → Waits s
      → Waits (on_lease db cfg w s cmd uuid now).loop
  unfolding on_lease
  on_lease-Waits w s cmd uuid now wait = elim (Bool-cases s.draining) [
    | inl e ↦ simp e (λ g. wait e)
    | inr e ↦ simp e (λ g n.
        false≢true
          (sym e ∙ sym (refill_if_idle-draining w s) ∙ sym (pop-draining _ _ cmd uuid now _) ∙ g))
  ]

  running-Waits :
      (c : Option ℕ) (t : Turn db.World) → EndsWell c t → t.status ≡ running → Waits t.loop
  running-Waits c t (inl (_, h)) e = h
  running-Waits c t (inr (r, _)) e = cc

  -- A loop that goes on waits for somebody, if it drains.
  pub handle-Waits :
      (w : db.World) (s : Loop) (e : Event)
      → Inv cfg s
      → Waits s
      → (handle db cfg w s e).status ≡ running
      → Waits (handle db cfg w s e).loop
  handle-Waits w s (lease cmd uuid now) v wait r =
      unfold handle in on_lease-Waits w s cmd uuid now wait
  handle-Waits w s (ack cmd) v wait r =
      running-Waits _ _ (handle-EndsWell w s (ack cmd) v wait tt (λ e. cc)) r
  handle-Waits w s util v wait r =
      running-Waits _ _ (handle-EndsWell w s util v wait tt (λ e. cc)) r
  handle-Waits w s (drain d) v wait r =
      running-Waits _ _ (handle-EndsWell w s (drain d) v wait tt (λ e. cc)) r
  handle-Waits w s (expire now) v wait r =
      running-Waits _ _ (handle-EndsWell w s (expire now) v wait tt (λ e. cc)) r
  handle-Waits w s cancel v wait r = unfold handle in wait
