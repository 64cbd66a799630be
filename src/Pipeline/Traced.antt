-- ===== src/Pipeline/Traced.antt =====
-- Every turn of a reader keeps its ledger true.
use my_queue.Base.{
  ℕ, zero, suc, ◌≡◌, refl, sym, ap, not, ◌&&◌, Option, none, some, List, [], ◌∷◌, map, ℤ, pos,
  negsuc, Str, str_eq_self, Result, ok, err, Assoc, lookup, take, All, contains, Bool-cases, inl,
  inr,
}
use my_queue.Reader.Store.{BufMsg, ids_of, Db, fetch_batch}
use my_queue.Reader.Database.{DbLaws, fetch-select}
use my_queue.Reader.Partition.{
  LeasedMsg, ServedBatch, Config, Loop, Event, Output, LeaseCmd, lease, ack, util, drain, expire,
  cancel, is_nil, empty_loop, leased, pop, close_done, flush_deletes, load, refill, flush_done,
  settle, refill_if_idle, complete, on_lease, on_ack, on_util, handle, start, served_ids,
}
use my_queue.Reader.Exclusive.{flush_deletes-loop}
use my_queue.Reader.Served.{All-delete, All-drop_expired}
use my_queue.Pipeline.Ledger.{
  IsEntered, reply_of, IsKnown, RowIsKnown, Traced, All-append, All-take, All-drop, All-keep,
  select-IsKnown, map-ids_of, cons-IsEntered,
}

-- Every event but a lease.
abbrev pub IsQuiet : Event → Type 0
IsQuiet (lease cmd uuid now) = ⊥
IsQuiet (ack cmd) = Unit
IsQuiet util = Unit
IsQuiet (drain d) = Unit
IsQuiet (expire now) = Unit
IsQuiet cancel = Unit

module _ (db : Db) (laws : DbLaws db) (cfg : Config) (msg_of : ℕ → BufMsg)
    (known : (w : db.World) → All (RowIsKnown msg_of) (laws.rows w)) where
  flush-Traced :
      (w : db.World) (s : Loop) (given : Assoc (List LeasedMsg))
      → Traced msg_of s given
      → Traced msg_of (flush_deletes db cfg w s).1 given
  flush-Traced w s given t = rw flush_deletes-loop (record { ready = t.ready; entered = t.entered })

  refill-Traced :
      (w : db.World) (s : Loop) (given : Assoc (List LeasedMsg))
      → Traced msg_of s given
      → Traced msg_of (refill db cfg w s).1 given
  unfolding refill
  refill-Traced w s given t =
      loaded _ (flush_deletes db cfg w s).1 (flush-Traced w s given t)
        (fetch_batch db (flush_deletes db cfg w s).0 cfg.part_start cfg.part_end cfg.batch_size).0
        refl
    where
      loaded :
          (w' : db.World) (s' : Loop)
          → Traced msg_of s' given
          → (r : Result (List BufMsg))
          → (fetch_batch db
              (flush_deletes db cfg w s).0
              cfg.part_start
              cfg.part_end
              cfg.batch_size).0
            ≡ r
          → Traced msg_of (load db cfg w' s' r).1 given
      loaded w' s' t (err e) h = unfold load in t
      loaded w' s' t (ok msgs) h =
          let (k, limit, sel) =
            fetch-select db laws (flush_deletes db cfg w s).0 cfg.part_start cfg.part_end
              cfg.batch_size h in
          unfold load in
          record {
            ready = All-append (IsKnown msg_of) s'.buffer _ t.ready (
                All-keep (IsKnown msg_of) (λ m. not (contains m.id (served_ids s'.served))) msgs
                  (rw sel (
                    select-IsKnown msg_of cfg.part_start cfg.part_end k _
                      (known (flush_deletes db cfg w s).0))));
            entered = t.entered;
          }

  pub start-Traced : (w : db.World) → Traced msg_of (start db cfg w).1 []
  unfolding start
  start-Traced w = refill-Traced w empty_loop [] (record { ready = tt; entered = tt })

  settle-Traced :
      (w : db.World) (s : Loop) (outs : List Output) (given : Assoc (List LeasedMsg))
      → Traced msg_of s given
      → Traced msg_of (settle db cfg w s outs).loop given
  unfolding settle flush_done
  settle-Traced w s outs given t = elim (Bool-cases (s.draining && is_nil s.served)) [
    | inl e ↦ rw e (closing _ (flush_deletes db cfg w s).1 _ (flush-Traced w s given t))
    | inr e ↦ rw e t
  ]
    where
      closing :
          (w : db.World) (s' : Loop) (d : Option ℕ)
          → Traced msg_of s' given
          → Traced msg_of (close_done w s' outs d).loop given
      closing w s' none t = unfold close_done in t
      closing w s' (some d) t = unfold close_done in t

  complete-Traced :
      (w : db.World) (s : Loop) (given : Assoc (List LeasedMsg))
      → Traced msg_of s given
      → Traced msg_of (complete db cfg w s).1 given
  unfolding complete
  complete-Traced w s given t = elim (Bool-cases (is_nil s.buffer && is_nil s.served)) [
    | inl e ↦ rw e (flush-Traced w s given t)
    | inr e ↦ rw e t
  ]

  on_ack-Traced :
      (w : db.World) (s : Loop) (id : Str) (o : Option ServedBatch) (given : Assoc (List LeasedMsg))
      → Traced msg_of s given
      → Traced msg_of (on_ack db cfg w s id o).loop given
  unfolding on_ack
  on_ack-Traced w s id none given t = t
  on_ack-Traced w s id (some sb) given t = settle-Traced _ _ _ given (
      complete-Traced w _ given (record {
        ready = t.ready;
        entered = All-delete (IsEntered msg_of given) id s.served t.entered;
      }))

  -- A turn that is no lease.
  pub quiet-Traced :
      (w : db.World) (s : Loop) (e : Event) (given : Assoc (List LeasedMsg))
      → IsQuiet e
      → Traced msg_of s given
      → Traced msg_of (handle db cfg w s e).loop given
  unfolding handle on_util
  quiet-Traced w s (lease cmd uuid now) given q t = absurd q
  quiet-Traced w s (ack cmd) given q t = on_ack-Traced w s cmd.lease_id _ given t
  quiet-Traced w s util given q t = t
  quiet-Traced w s (drain d) given q t =
      settle-Traced w _ [] given (record { ready = tt; entered = t.entered })
  quiet-Traced w s (expire now) given q t = settle-Traced w _ [] given (record {
    ready = t.ready;
    entered = All-drop_expired (IsEntered msg_of given) now s.served t.entered;
  })
  quiet-Traced w s cancel given q t = t

  entered-Traced :
      (s : Loop) (given : Assoc (List LeasedMsg)) (uuid : Str) (msgs : List LeasedMsg)
      → lookup uuid given ≡ none
      → Traced msg_of s given
      → Traced msg_of s ((uuid, msgs) ∷ given)
  entered-Traced s given uuid msgs f t = record {
    ready = t.ready;
    entered = cons-IsEntered msg_of given uuid msgs s.served f t.entered;
  }

  pop-Traced :
      (w : db.World) (s : Loop) (cmd : LeaseCmd) (uuid : Str) (now : ℕ) (n : ℤ)
      (given : Assoc (List LeasedMsg))
      → lookup uuid given ≡ none
      → Traced msg_of s given
      → Traced msg_of
          (pop w s cmd uuid now n).loop
          ((uuid, reply_of (pop w s cmd uuid now n).outputs) ∷ given)
  unfolding pop
  pop-Traced w s cmd uuid now (pos zero) given f t = entered-Traced s given uuid [] f t
  pop-Traced w s cmd uuid now (negsuc k) given f t = entered-Traced s given uuid [] f t
  pop-Traced w s cmd uuid now (pos (suc k)) given f t = record {
    ready = All-drop (IsKnown msg_of) (suc k) s.buffer t.ready;
    entered = (
      entry,
      All-delete (IsEntered msg_of _) uuid s.served
          (cons-IsEntered msg_of given uuid _ s.served f t.entered),
    );
  }
    where
      entry :
          lookup uuid ((uuid, map leased (take (suc k) s.buffer)) ∷ given)
          ≡ some (map leased (map msg_of (ids_of (take (suc k) s.buffer))))
      entry =
          unfold lookup in
          rw (str_eq_self uuid) (
            ap (λ (ms : List BufMsg). some (map leased ms))
              (sym (
                map-ids_of msg_of (take (suc k) s.buffer)
                  (All-take (IsKnown msg_of) (suc k) s.buffer t.ready))))

  -- A lease under a new ID, entered with what it is answered.
  pub lease-Traced :
      (w : db.World) (s : Loop) (cmd : LeaseCmd) (uuid : Str) (now : ℕ)
      (given : Assoc (List LeasedMsg))
      → lookup uuid given ≡ none
      → Traced msg_of s given
      → let t = handle db cfg w s (lease cmd uuid now) in
        Traced msg_of t.loop ((uuid, reply_of t.outputs) ∷ given)
  unfolding handle on_lease
  lease-Traced w s cmd uuid now given f t = elim (Bool-cases s.draining) [
    | inl e ↦ simp e (entered-Traced s given uuid [] f t)
    | inr e ↦ simp e (pop-Traced _ _ cmd uuid now _ given f idle)
  ]
    where
      idle : Traced msg_of (refill_if_idle db cfg w s).1 given
      idle =
          unfold refill_if_idle in
          elim (Bool-cases (is_nil s.buffer && is_nil s.served)) [
            | inl e ↦ rw e (refill-Traced w s given t)
            | inr e ↦ rw e t
          ]
