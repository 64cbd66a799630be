-- ===== src/Reader/Ending.antt =====
-- A drain ends: at the latest with the first tick behind the last lease.
use my_queue.Base.{
  ℕ, ◌≡◌, ◌≢◌, refl, inl, inr, true, ◌&&◌, Option, none, some, List, [], ◌∷◌, ◌++◌, Str, Assoc,
  delete, All, Bool-cases,
}
use my_queue.Reader.Store.{Db}
use my_queue.Reader.Database.{DbLaws}
use my_queue.Reader.Partition.{
  ServedBatch, Config, Loop, Event, Output, Turn, lease, ack, util, drain, expire, cancel, running,
  returned, is_nil, is_expired, drop_expired, close_done, flush_deletes, flush_done, settle,
  complete, on_util, on_lease, on_ack, handle,
}
use my_queue.Reader.Served.{All-delete, All-drop_expired}
use my_queue.Reader.Exclusive.{flush_deletes-loop}
use my_queue.Reader.Execution.{Reach, turn, acked_by, go_on, run}
use my_queue.Reader.Draining.{EndsWell, IsSane}
use my_queue.Reader.Reached.{Reach-Inv, turns_end_well}

-- The ticker at the time `now` drops the lease.
abbrev pub IsLapsed : ℕ → Str × ServedBatch → Type 0
IsLapsed now e = is_expired now e.1 ≡ true

-- Any event but a cancelled context, with no negative bound of a lease.
abbrev pub IsCalm : Event → Type 0
IsCalm e = IsSane e × (e ≢ cancel)

-- A drain in progress, whose leases all lapse by a time.
record Ends (now : ℕ) (s : Loop) : Type 0 where
  draining : s.draining ≡ true
  lapsed : All (IsLapsed now) s.served

drop_expired-lapsed :
    (now : ℕ) (m : Assoc ServedBatch) → All (IsLapsed now) m → drop_expired now m ≡ []
unfolding drop_expired
drop_expired-lapsed now [] h = refl
drop_expired-lapsed now ((k, sb) ∷ m) h = rw h.0 (drop_expired-lapsed now m h.1)

module _ (db : Db) (cfg : Config) (now : ℕ) where
  flush-Ends : (w : db.World) (s : Loop) → Ends now s → Ends now (flush_deletes db cfg w s).1
  flush-Ends w s h = rw flush_deletes-loop (record { draining = h.draining; lapsed = h.lapsed })

  settle-Ends :
      (w : db.World) (s : Loop) (outs : List Output)
      → Ends now s
      → Ends now (settle db cfg w s outs).loop
  unfolding settle flush_done
  settle-Ends w s outs h = elim (Bool-cases (s.draining && is_nil s.served)) [
    | inl e ↦ rw e (closing _ (flush_deletes db cfg w s).1 _ (flush-Ends w s h))
    | inr e ↦ rw e h
  ]
    where
      closing :
          (w : db.World) (s' : Loop) (d : Option ℕ)
          → Ends now s'
          → Ends now (close_done w s' outs d).loop
      closing w s' none h = unfold close_done in h
      closing w s' (some d) h = unfold close_done in h

  on_ack-Ends :
      (w : db.World) (s : Loop) (id : Str) (o : Option ServedBatch)
      → Ends now s
      → Ends now (on_ack db cfg w s id o).loop
  unfolding on_ack
  on_ack-Ends w s id none h = h
  on_ack-Ends w s id (some sb) h = settle-Ends _ _ _ (
      completed (record s { served = delete id s.served; done_ids = s.done_ids ++ sb.ids })
        (record { draining = h.draining; lapsed = All-delete (IsLapsed now) id s.served h.lapsed }))
    where
      completed : (s' : Loop) → Ends now s' → Ends now (complete db cfg w s').1
      completed s' h =
          unfold complete in
          elim (Bool-cases (is_nil s'.buffer && is_nil s'.served)) [
            | inl e ↦ rw e (flush-Ends w s' h)
            | inr e ↦ rw e h
          ]

  drain-Ends :
      (w : db.World) (s : Loop) (d : ℕ)
      → All (IsLapsed now) s.served
      → Ends now (handle db cfg w s (drain d)).loop
  unfolding handle
  drain-Ends w s d h = settle-Ends w _ [] (record { draining = refl; lapsed = h })

  handle-Ends :
      (w : db.World) (s : Loop) (e : Event) → Ends now s → Ends now (handle db cfg w s e).loop
  unfolding handle on_util on_lease
  handle-Ends w s (lease cmd uuid t) h = simp h.draining h
  handle-Ends w s (ack cmd) h = on_ack-Ends w s cmd.lease_id _ h
  handle-Ends w s util h = h
  handle-Ends w s (drain d) h = drain-Ends w s d h.lapsed
  handle-Ends w s (expire t) h = settle-Ends w _ [] (record {
    draining = h.draining;
    lapsed = All-drop_expired (IsLapsed now) t s.served h.lapsed;
  })
  handle-Ends w s cancel h = h

  -- The tick that drops the last lease.
  expire-returns :
      (w : db.World) (s : Loop)
      → Ends now s
      → s.drain_done ≢ none
      → (handle db cfg w s (expire now)).status ≡ returned
  unfolding handle settle flush_done
  expire-returns w s h await =
      rw (drop_expired-lapsed now s.served h.lapsed, h.draining, flush_deletes-loop)
        (closing _ _ s.drain_done await)
    where
      closing :
          (w' : db.World) (s' : Loop) (d : Option ℕ)
          → d ≢ none
          → (close_done w' s' [] d).status ≡ returned
      closing w' s' none h = absurd (h refl)
      closing w' s' (some d) h = unfold close_done in refl

module _ (db : Db) (laws : DbLaws db) (cfg : Config) (now : ℕ) where
  over-returns :
      (t rest : Turn db.World) → t.status ≡ returned → (go_on t.status t rest).status ≡ returned
  over-returns t rest over = rw over refl

  -- A turn that goes on, or returns, and what follows it.
  turn-returns :
      (c : Option ℕ) (t rest : Turn db.World)
      → EndsWell c t
      → (t.status ≡ running → rest.status ≡ returned)
      → (go_on t.status t rest).status ≡ returned
  turn-returns c t rest (inl (still, waits)) h = rw still (h still)
  turn-returns c t rest (inr (over, drained)) h = over-returns t rest over

  -- The rest of a run in which a drain is in progress.
  run-returns :
      (es : List Event) {w₀ w : db.World} {s : Loop} {acked : List ℕ}
      → Reach db laws cfg w₀ w s acked running
      → Ends now s
      → All IsCalm es
      → (run db cfg w s (es ++ expire now ∷ [])).status ≡ returned
  unfolding run
  run-returns [] {w = w} {s = s} r h c =
      over-returns (handle db cfg w s (expire now)) _
        (expire-returns db cfg now w s h ((Reach-Inv db laws cfg r).awaited h.draining))
  run-returns (e ∷ es) {w₀ = w₀} {w = w} {s = s} {acked = acked} r h c =
      turn-returns _ (handle db cfg w s e) _ (turns_end_well db laws cfg e r c.0.0 c.0.1).0
        (λ still.
          run-returns es {w₀ = w₀} {acked = acked ++ acked_by s e} (rw (← still) (turn r e))
            (handle-Ends db cfg now w s e h) c.1)

  -- A drain terminates: whatever the clients send after it, the loop returns by the time of the first
  -- tick at which the leases that were outstanding have all lapsed, if the context is not cancelled
  -- and no lease command has a negative bound.
  pub drain_returns :
      {w₀ w : db.World} {s : Loop} {acked : List ℕ} (d : ℕ) (es : List Event)
      → Reach db laws cfg w₀ w s acked running
      → All (IsLapsed now) s.served
      → All IsCalm es
      → (run db cfg w s (drain d ∷ (es ++ expire now ∷ []))).status ≡ returned
  unfolding run
  drain_returns {w₀ = w₀} {w = w} {s = s} {acked = acked} d es r h c =
      turn-returns _ (handle db cfg w s (drain d)) _
        (turns_end_well db laws cfg (drain d) r tt (λ e. cc)).0
        (λ still.
          run-returns es {w₀ = w₀} {acked = acked ++ acked_by s (drain d)}
            (rw (← still) (turn r (drain d))) (drain-Ends db cfg now w s d h) c)
