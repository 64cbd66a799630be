-- ===== src/Reader/Reached.antt =====
-- What holds of a partition in every execution.
use mathlib.Core.Path.{subst}
use my_queue.Base.{ℕ, ◌+◌, ◌≤◌, ◌≡◌, ◌≢◌, refl, true, none, List, pos_part, length, count}
use my_queue.Reader.Store.{Db, ids_of}
use my_queue.Reader.Database.{DbLaws}
use my_queue.Reader.Partition.{
  Config, Loop, Event, Status, running, cancel, served_ids, handle, start,
}
use my_queue.Reader.Exclusive.{Inv, start-Inv, handle-Inv, refill-loop}
use my_queue.Reader.Execution.{Reach, begin, turn, others}
use my_queue.Reader.Signal.{asked, last_drain, last_drain_kept}
use my_queue.Reader.Draining.{EndsWell, Waits, IsSane, handle-Waits, handle-EndsWell}

module _ (db : Db) (laws : DbLaws db) (cfg : Config) where
  pub Reach-Inv :
      {w₀ w : db.World} {s : Loop} {acked : List ℕ} {st : Status}
      → Reach db laws cfg w₀ w s acked st
      → Inv cfg s
  Reach-Inv {w₀} begin = start-Inv db laws cfg w₀
  Reach-Inv (turn {w = w} {s = s} r e) = handle-Inv db laws cfg w s e (Reach-Inv r)
  Reach-Inv (others r g) = Reach-Inv r

  pub Reach-Waits :
      {w₀ w : db.World} {s : Loop} {acked : List ℕ} {st : Status}
      → Reach db laws cfg w₀ w s acked st
      → st ≡ running
      → Waits s
  Reach-Waits {w₀} begin h = unfold start in rw refill-loop (λ g. cc)
  Reach-Waits (turn {w = w} {s = s} r e) h =
      handle-Waits db cfg w s e (Reach-Inv r) (Reach-Waits r refl) h
  Reach-Waits (others r g) h = Reach-Waits r h

  -- In every execution, whatever the clients send, whatever the database answers and whatever other
  -- services insert, no message is held twice: not twice in the buffer, not in two leases, not in a
  -- lease and again in the buffer or among the done messages. The buffer never exceeds the
  -- batch size.
  pub exclusive :
      {w₀ w : db.World} {s : Loop} {acked : List ℕ} {st : Status}
      → Reach db laws cfg w₀ w s acked st
      → ((i : ℕ)
          → count i (ids_of s.buffer) + count i (served_ids s.served) + count i s.done_ids ≤ 1)
        × (length s.buffer ≤ pos_part cfg.batch_size)
  exclusive r = ((Reach-Inv r).once, (Reach-Inv r).bounded)

  -- In every execution, a turn on any event but a cancelled context, with no negative lease bound,
  -- does not panic. It leaves the loop running, and then, if there has been a Drain, the loop drains
  -- and an outstanding lease is left to wait for; or it returns, and then no lease is outstanding, no
  -- deletion is pending, and the channel of the latest Drain of the execution is closed, as the last
  -- thing.
  pub turns_end_well :
      {w₀ w : db.World} {s : Loop} {acked : List ℕ} (e : Event)
      (r : Reach db laws cfg w₀ w s acked running)
      → IsSane e
      → e ≢ cancel
      → let c = last_drain db laws cfg (turn r e) in
        EndsWell c (handle db cfg w s e) × (c ≢ none → (handle db cfg w s e).loop.draining ≡ true)
  unfolding last_drain
  turns_end_well {w = w} {s = s} e r h n = (
    subst (λ c. EndsWell (asked c e) (handle db cfg w s e)) (last_drain_kept db laws cfg r).0
        (handle-EndsWell db cfg w s e (Reach-Inv r) (Reach-Waits r refl) h n),
    (last_drain_kept db laws cfg (turn r e)).1,
  )
