-- ===== src/Reader/Stop.antt =====
-- cmd/mqreader/main.go, behind the Shutdown of its server: Drain of internal/mqreader/partition.go, under
-- its context of 30 seconds, and the cancel of the partition. After a Shutdown without an error the
-- partition receives nothing else but its ticks; after one that has failed, endpoints still run.
use mathlib.Core.List.{append_assoc, append-nil}
use mathlib.Core.Path.{subst}
use my_queue.Base.{
  ℕ, ◌≤◌, ◌≡◌, ◌≢◌, refl, sym, ap, ◌∙◌, ◌⊎◌, inl, inr, true, ◌&&◌, Option, none, some, List, [],
  ◌∷◌, ◌++◌, arith, count, All, Bool-cases,
}
use my_queue.Reader.Store.{Db}
use my_queue.Reader.Database.{DbLaws}
use my_queue.Reader.Partition.{
  Config, Loop, Event, Output, Status, Turn, lease, ack, util, drain, expire, cancel, running,
  returned, panicked, is_nil, drop_expired, close_done, flush_deletes, flush_done, settle, handle,
}
use my_queue.Reader.Execution.{Reach, turn, others, Grows, acked_by, go_on}
use my_queue.Reader.Delivery.{held, held-Reach}
use my_queue.Reader.Draining.{IsDrained, EndsWell, IsSane, handle-EndsWell}
use my_queue.Reader.Signal.{asked, handle-Signals}
use my_queue.Reader.Reached.{Reach-Inv, Reach-Waits}
use my_queue.Reader.Http.{Wait, arrived, cancelled}

-- An event that the loop receives, behind what others have done to the table.
abbrev pub Moment : Type 0 → Type 0
Moment W = (W → W) × Event

-- Drain: what the loop receives of it, if anything. The wait for its end receives nothing.
unfoldable pub drain_moments : {W : Type 0} → Wait (Unit {0}) → ℕ → List (Moment W)
drain_moments (arrived u) d = ((λ w. w), drain d) ∷ []
drain_moments (cancelled e) d = []

-- What is acknowledged later, if the loop goes on.
abbrev pub later : Status → List ℕ → List ℕ
later running ids = ids
later returned ids = []
later panicked ids = []

module _ (db : Db) (cfg : Config) where
  -- The loop meets these moments, and then its cancelled context.
  unfoldable pub run_among : db.World → Loop → List (Moment db.World) → Turn db.World
  run_among w s [] = handle db cfg w s cancel
  run_among w s ((act, e) ∷ ms) =
      let t = handle db cfg (act w) s e in
      let rest = run_among t.world t.loop ms in go_on t.status t rest

  -- The rest of main: Drain, what else the loop receives until Drain returns, and the cancel.
  unfoldable pub stop :
      db.World → Loop → Wait (Unit {0}) → ℕ → List (Moment db.World) → Turn db.World
  stop w s sent d ms = run_among w s (drain_moments sent d ++ ms)

  -- What is acknowledged meanwhile.
  unfoldable pub acked_among : db.World → Loop → List (Moment db.World) → List ℕ
  acked_among w s [] = []
  acked_among w s ((act, e) ∷ ms) =
      let t = handle db cfg (act w) s e in
      let rest = acked_among t.world t.loop ms in acked_by s e ++ later t.status rest

  unfoldable pub acked_at_stop :
      db.World → Loop → Wait (Unit {0}) → ℕ → List (Moment db.World) → List ℕ
  acked_at_stop w s sent d ms = acked_among w s (drain_moments sent d ++ ms)

  -- A turn that goes on has changed nothing but the variables.
  abbrev IsIdle : db.World → Loop → Turn db.World → Type 0
  IsIdle w s t = t.status ≡ running → (t.world ≡ w) × (t.loop.done_ids ≡ s.done_ids)

  settle-IsIdle :
      (w : db.World) (s : Loop) (outs : List Output) → IsIdle w s (settle db cfg w s outs)
  unfolding settle flush_done
  settle-IsIdle w s outs = elim (Bool-cases (s.draining && is_nil s.served)) [
    | inl e ↦ rw e (closing (flush_deletes db cfg w s).0 (flush_deletes db cfg w s).1 _)
    | inr e ↦ rw e (λ h. (refl, refl))
  ]
    where
      closing : (w' : db.World) (s' : Loop) (d : Option ℕ) → IsIdle w s (close_done w' s' outs d)
      closing w' s' none = unfold close_done in λ h. cc
      closing w' s' (some d) = unfold close_done in λ h. cc

abbrev pub IsTick : Event → Type 0
IsTick (expire now) = Unit
IsTick (lease cmd uuid now) = ⊥
IsTick (ack cmd) = ⊥
IsTick util = ⊥
IsTick (drain d) = ⊥
IsTick cancel = ⊥

-- The channel on which the end of the drain is signalled.
abbrev pub channel : Wait (Unit {0}) → ℕ → Loop → Option ℕ
channel (cancelled e) d s = s.drain_done
channel (arrived u) d s = some d

module _ (db : Db) (laws : DbLaws db) (cfg : Config) where
  -- Others have only inserted rows; the event is any but a cancelled context, with no negative bound.
  abbrev pub IsOrderly : Moment db.World → Type 0
  IsOrderly m = ((w : db.World) → Grows db laws cfg w (m.0 w)) × IsSane m.1 × (m.1 ≢ cancel)

  -- Returned, in a state of an execution.
  abbrev Ended : db.World → List ℕ → Turn db.World → Type 0
  Ended w₀ acked t = (t.status ≡ returned) × Reach db laws cfg w₀ t.world t.loop acked t.status

  step-Ended :
      (w₀ : db.World) (acked now after : List ℕ) (c : Option ℕ) (t rest : Turn db.World)
      → EndsWell c t
      → Reach db laws cfg w₀ t.world t.loop (acked ++ now) t.status
      → (t.status ≡ running → Ended w₀ ((acked ++ now) ++ after) rest)
      → Ended w₀ (acked ++ (now ++ later t.status after)) (go_on t.status t rest)
  step-Ended w₀ acked now after c t rest (inl (still, waits)) r next =
      simp still (subst (λ ids. Ended w₀ ids rest) (append_assoc acked now after) (next still))
  step-Ended w₀ acked now after c t rest (inr (over, drained)) r next = simp over (
    refl,
    subst (λ ids. Reach db laws cfg w₀ t.world t.loop ids returned)
        (ap (λ ids. acked ++ ids) (sym (append-nil now)))
        (subst (Reach db laws cfg w₀ t.world t.loop (acked ++ now)) over r),
  )

  turn-EndsWell :
      {w₀ w : db.World} {s : Loop} {acked : List ℕ} (e : Event)
      → Reach db laws cfg w₀ w s acked running
      → IsSane e
      → e ≢ cancel
      → EndsWell (asked s.drain_done e) (handle db cfg w s e)
  turn-EndsWell {w = w} {s = s} e r sane n =
      handle-EndsWell db cfg w s e (Reach-Inv db laws cfg r) (Reach-Waits db laws cfg r refl) sane n

  run_among-Ended :
      (ms : List (Moment db.World)) {w₀ w : db.World} {s : Loop} {acked : List ℕ}
      → Reach db laws cfg w₀ w s acked running
      → All IsOrderly ms
      → Ended w₀ (acked ++ acked_among db cfg w s ms) (run_among db cfg w s ms)
  unfolding run_among acked_among handle acked_by
  run_among-Ended [] r h = (refl, turn r cancel)
  run_among-Ended ((act, e) ∷ ms) {w₀ = w₀} {w = w} {s = s} {acked = acked} r (m, h) =
      let r' : Reach db laws cfg w₀ (act w) s acked running = others r (m.0 w) in
      step-Ended w₀ acked (acked_by s e) _ _ (handle db cfg (act w) s e) _
        (turn-EndsWell e r' m.1 m.2) (turn r' e)
        (λ still.
          run_among-Ended ms {w₀ = w₀} {acked = acked ++ acked_by s e} (rw (← still) (turn r' e)) h)

  -- Drained, or cut off with nothing deleted since.
  abbrev pub IsDrainedOrKept : Option ℕ → db.World → Loop → Turn db.World → Type 0
  IsDrainedOrKept c w s t =
      IsDrained c t
      ⊎ ((t.loop.done_ids ≡ s.done_ids)
          × ((i : ℕ) → held db laws cfg i w ≤ held db laws cfg i t.world))

  step-IsDrainedOrKept :
      (c : Option ℕ) (w w' : db.World) (s : Loop) (t rest : Turn db.World)
      → Grows db laws cfg w w'
      → EndsWell c t
      → IsIdle db cfg w' s t
      → (t.status ≡ running → IsDrainedOrKept c t.world t.loop rest)
      → IsDrainedOrKept c w s (go_on t.status t rest)
  step-IsDrainedOrKept c w w' s t rest g (inr (over, drained)) idle next = simp over (inl drained)
  step-IsDrainedOrKept c w w' s t rest g (inl (still, waits)) idle next =
      simp still (followed (idle still) (next still))
    where
      followed :
          (t.world ≡ w') × (t.loop.done_ids ≡ s.done_ids)
          → IsDrainedOrKept c t.world t.loop rest
          → IsDrainedOrKept c w s (go_on running t rest)
      followed (same, kept) (inr (kept', more)) =
          inr (kept' ∙ kept, λ i. omega (arith, g i, more i, ap (held db laws cfg i) same))
      followed (same, kept) (inl d) =
          let (chan, outs, this, e) = d.signalled in
          inl (record {
            none_served = d.none_served;
            none_done = d.none_done;
            signalled = (
              chan,
              t.outputs ++ outs,
              this,
              ap (◌++◌ t.outputs) e ∙ sym (append_assoc t.outputs outs _),
            );
          })

  ticks-IsDrainedOrKept :
      (c : Option ℕ) (ms : List (Moment db.World)) {w₀ w : db.World} {s : Loop} {acked : List ℕ}
      → Reach db laws cfg w₀ w s acked running
      → s.drain_done ≡ c
      → All IsOrderly ms
      → All (λ (m : Moment db.World). IsTick m.1) ms
      → IsDrainedOrKept c w s (run_among db cfg w s ms)
  unfolding run_among handle
  ticks-IsDrainedOrKept c [] r e h k = inr (refl, λ i. omega arith)
  ticks-IsDrainedOrKept c ((act, expire now) ∷ ms) {w₀ = w₀} {w = w} {s = s} {acked = acked} r e
        (m, h) (tick, k) =
      let r' : Reach db laws cfg w₀ (act w) s acked running = others r (m.0 w) in
      let t = handle db cfg (act w) s (expire now) in
      step-IsDrainedOrKept c w (act w) s t _ (m.0 w)
        (subst (λ c'. EndsWell c' t) e (turn-EndsWell (expire now) r' m.1 m.2))
        (settle-IsIdle db cfg (act w) (record s { served = drop_expired now s.served }) [])
        (λ still.
          ticks-IsDrainedOrKept c ms {w₀ = w₀} {acked = acked ++ acked_by s (expire now)}
            (rw (← still) (turn r' (expire now)))
            ((handle-Signals db cfg (act w) s (expire now)).0 ∙ e) h k)
  ticks-IsDrainedOrKept c ((act, lease cmd uuid now) ∷ ms) r e h (bad, k) = absurd bad
  ticks-IsDrainedOrKept c ((act, ack cmd) ∷ ms) r e h (bad, k) = absurd bad
  ticks-IsDrainedOrKept c ((act, util) ∷ ms) r e h (bad, k) = absurd bad
  ticks-IsDrainedOrKept c ((act, drain d) ∷ ms) r e h (bad, k) = absurd bad
  ticks-IsDrainedOrKept c ((act, cancel) ∷ ms) r e h (bad, k) = absurd bad

  drain-IsDrainedOrKept :
      {w₀ w : db.World} {s : Loop} {acked : List ℕ} (d : ℕ) (ms : List (Moment db.World))
      → Reach db laws cfg w₀ w s acked running
      → All IsOrderly ms
      → All (λ (m : Moment db.World). IsTick m.1) ms
      → IsDrainedOrKept (some d) w s (run_among db cfg w s (((λ v. v), drain d) ∷ ms))
  unfolding run_among handle
  drain-IsDrainedOrKept {w₀ = w₀} {w = w} {s = s} {acked = acked} d ms r h k =
      let t = handle db cfg w s (drain d) in
      step-IsDrainedOrKept (some d) w w s t _ (λ i. omega arith)
        (turn-EndsWell (drain d) r tt (λ e. cc))
        (settle-IsIdle db cfg w (record s { draining = true; drain_done = some d; buffer = [] }) [])
        (λ still.
          ticks-IsDrainedOrKept (some d) ms {w₀ = w₀} {acked = acked ++ acked_by s (drain d)}
            (rw (← still) (turn r (drain d))) (handle-Signals db cfg w s (drain d)).0 h k)

  -- Stopping the reader is safe, from every state that an execution reaches, whatever events the loop
  -- receives until it is cancelled (leases and acknowledgements too, as after a failed Shutdown, but
  -- with no negative bound), and whatever others insert in between. The loop returns, and does not
  -- panic, and a row whose message no lease has acknowledged, before or meanwhile, is still in the
  -- queue. If only ticks arrive, as after a Shutdown without an error, then either the loop has
  -- drained: no lease is outstanding, no acknowledged message is kept for deletion, and the channel
  -- of this Drain is closed (of an earlier one, if this one came too late); or it is cut off, and then
  -- nothing has been deleted since Drain: messages that were acknowledged before, but not deleted,
  -- stay in the queue.
  pub stops_safely :
      {w₀ w : db.World} {s : Loop} {acked : List ℕ} (sent : Wait (Unit {0})) (d : ℕ)
      (ms : List (Moment db.World))
      → Reach db laws cfg w₀ w s acked running
      → All IsOrderly ms
      → let t = stop db cfg w s sent d ms in
        (t.status ≡ returned)
        × ((i : ℕ)
            → count i (acked ++ acked_at_stop db cfg w s sent d ms) ≡ 0
            → held db laws cfg i w₀ ≤ held db laws cfg i t.world)
        × (All (λ (m : Moment db.World). IsTick m.1) ms → IsDrainedOrKept (channel sent d s) w s t)
  unfolding stop acked_at_stop drain_moments
  stops_safely (cancelled e) d ms r h =
      let (over, end) = run_among-Ended ms r h in
      (over, (λ i. held-Reach db laws cfg i end), (λ k. ticks-IsDrainedOrKept _ ms r refl h k))
  stops_safely {w₀ = w₀} {w = w} {s = s} (arrived u) d ms r h =
      let all : All IsOrderly (((λ v. v), drain d) ∷ ms) =
        (((λ v i. omega arith), tt, (λ e. cc)), h) in
      let (over, end) = run_among-Ended (((λ v. v), drain d) ∷ ms) r all in
      (over, (λ i. held-Reach db laws cfg i end), (λ k. drain-IsDrainedOrKept d ms r h k))
