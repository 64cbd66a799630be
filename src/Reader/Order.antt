-- ===== src/Reader/Order.antt =====
-- The order in which messages are served.
use mathlib.Core.List.{append_assoc, append-nil, map-append}
use my_queue.Base.{
  ℕ, suc, ◌≡◌, ◌≢◌, refl, sym, ap, ◌∙◌, ◌⊎◌, inl, inr, false, List, [], ◌∷◌, ◌++◌, map, pos, Str,
  Assoc, insert, length, take, drop, min, All, take-append-drop,
}
use my_queue.Reader.Store.{BufMsg, Db}
use my_queue.Reader.Partition.{
  ServedBatch, Config, Loop, LeaseCmd, Event, Output, Turn, LeasedMsg, lease, ack, util, drain,
  expire, cancel, lease_reply, ack_reply, util_reply, closed, running, leased, handle,
}
use my_queue.Reader.Leasing.{serving, lease_from_buffer, lease_when_waiting}
use my_queue.Reader.Execution.{run, run-cons}

-- The messages in the replies to lease requests, in order.
pub delivered : List Output → List LeasedMsg
delivered [] = []
delivered (lease_reply r ∷ outs) = r.messages ++ delivered outs
delivered (ack_reply r ∷ outs) = delivered outs
delivered (util_reply n d ∷ outs) = delivered outs
delivered (closed d ∷ outs) = delivered outs

abbrev pub IsLease : Event → Type 0
IsLease (lease cmd uuid now) = (k : ℕ) × (cmd.max ≡ pos (suc k))
IsLease (ack cmd) = ⊥
IsLease util = ⊥
IsLease (drain d) = ⊥
IsLease (expire now) = ⊥
IsLease cancel = ⊥

-- The partition has messages or waits for leases, and does not drain.
abbrev pub IsBusy : Loop → Type 0
IsBusy s = (s.draining ≡ false) × ((s.buffer ≢ []) ⊎ ((s.buffer ≡ []) × (s.served ≢ [])))

record Serves {W : Type 0} (s : Loop) (t : Turn W) : Type 0 where
  going : t.status ≡ running
  busy : IsBusy t.loop
  shared : delivered t.outputs ++ map leased t.loop.buffer ≡ map leased s.buffer

insert-ne-nil : (k : Str) (v : ServedBatch) (m : Assoc ServedBatch) → insert k v m ≢ []
insert-ne-nil k v m e = cc

IsBusy-of : (s : Loop) → s.draining ≡ false → s.served ≢ [] → IsBusy s
IsBusy-of s g n = (g, split s.buffer refl)
  where
    split : (b : List BufMsg) → s.buffer ≡ b → (s.buffer ≢ []) ⊎ ((s.buffer ≡ []) × (s.served ≢ []))
    split [] e = inr (e, n)
    split (m ∷ ms) e = inl (λ z. cc)

module _ (db : Db) (cfg : Config) where
  serves :
      (w : db.World) (s : Loop) (cmd : LeaseCmd) (uuid : Str) (now k : ℕ)
      → cmd.max ≡ pos (suc k)
      → IsBusy s
      → Serves s (handle db cfg w s (lease cmd uuid now))
  unfolding delivered
  serves w s cmd uuid now k m (g, inl b) =
      rw (lease_from_buffer db cfg w s cmd uuid now k g b m) (record {
        going = refl;
        busy =
            IsBusy-of (serving w s cmd uuid now (min (suc k) (length s.buffer))).loop g
              (insert-ne-nil uuid _ s.served);
        shared =
            ap (λ ms. ms ++ map leased (drop (min (suc k) (length s.buffer)) s.buffer))
              (append-nil (map leased (take (min (suc k) (length s.buffer)) s.buffer)))
            ∙ sym (
                map-append leased (take (min (suc k) (length s.buffer)) s.buffer)
                  (drop (min (suc k) (length s.buffer)) s.buffer))
            ∙ ap (map leased) (take-append-drop (min (suc k) (length s.buffer)) s.buffer);
      })
  serves w s cmd uuid now k m (g, inr (b, n)) =
      rw (lease_when_waiting db cfg w s cmd uuid now k g b n m)
        (record { going = refl; busy = (g, inr (b, n)); shared = refl })

  delivered-append : (xs ys : List Output) → delivered (xs ++ ys) ≡ delivered xs ++ delivered ys
  unfolding delivered
  delivered-append [] ys = refl
  delivered-append (lease_reply r ∷ xs) ys =
      ap (◌++◌ r.messages) (delivered-append xs ys)
      ∙ sym (append_assoc r.messages (delivered xs) (delivered ys))
  delivered-append (ack_reply r ∷ xs) ys = delivered-append xs ys
  delivered-append (util_reply n d ∷ xs) ys = delivered-append xs ys
  delivered-append (closed d ∷ xs) ys = delivered-append xs ys

  -- However many lease requests arrive in a row, each with a positive bound, the messages that they
  -- are answered with, in the order of the answers, followed by those still in the buffer, are the
  -- messages that were in the buffer: first in, first out, none skipped and none served twice. The
  -- partition has messages or outstanding leases at the start, and does not drain.
  pub fifo :
      (w : db.World) (s : Loop) (es : List Event)
      → IsBusy s
      → All IsLease es
      → delivered (run db cfg w s es).outputs ++ map leased (run db cfg w s es).loop.buffer
        ≡ map leased s.buffer
  fifo w s [] busy a = unfold run delivered in refl
  fifo w s (lease cmd uuid now ∷ es) busy a =
      let (k, m) = a.0 in
      let first = serves w s cmd uuid now k m busy in
      let t = handle db cfg w s (lease cmd uuid now) in
      let rest = run db cfg t.world t.loop es in
      rw (run-cons db cfg w s (lease cmd uuid now) es first.going) (
        rw (delivered-append t.outputs rest.outputs) (
          append_assoc (delivered t.outputs) (delivered rest.outputs) (map leased rest.loop.buffer)
          ∙ ap (◌++◌ (delivered t.outputs)) (fifo t.world t.loop es first.busy a.1)
          ∙ first.shared))
  fifo w s (ack cmd ∷ es) busy a = absurd a.0
  fifo w s (util ∷ es) busy a = absurd a.0
  fifo w s (drain d ∷ es) busy a = absurd a.0
  fifo w s (expire now ∷ es) busy a = absurd a.0
  fifo w s (cancel ∷ es) busy a = absurd a.0
