-- ===== src/Reader/Exclusive.antt =====
-- A message is in one place at a time: ready, leased to one consumer, or done.
use my_queue.Base.{
  ℕ, zero, suc, ◌+◌, ◌≤◌, ◌≡◌, ◌≢◌, refl, ap, ◌∙◌, inl, inr, Bool, true, false, not, ◌&&◌, Option,
  none, some, List, [], ◌∷◌, ◌++◌, arith, ℤ, pos, negsuc, pos_part, Str, Result, ok, err, lookup,
  delete, length, take, keep, contains, count, length-drop, length-keep, count-append, Bool-cases,
}
use my_queue.Reader.Store.{BufMsg, ids_of, Db, fetch_batch}
use my_queue.Reader.Database.{DbLaws, fetch-once, fetch-bounded}
use my_queue.Reader.Partition.{
  ServedBatch, Config, Loop, LeaseCmd, Output, Event, lease, ack, util, drain, expire, cancel,
  is_nil, empty_loop, served_ids, pop, flush_deletes, load, refill, close_done, flush_done, settle,
  complete, on_util, refill_if_idle, on_lease, on_ack, handle, start,
}
use my_queue.Reader.Served.{count-delete, count-delete-le, count-drop_expired, count-pop}

-- How often the loop holds the message with ID `i`.
abbrev pub occurs : ℕ → Loop → ℕ
occurs i s = count i (ids_of s.buffer) + count i (served_ids s.served) + count i s.done_ids

pub record Inv (cfg : Config) (s : Loop) : Type 0 where
  pub once : (i : ℕ) → occurs i s ≤ 1
  pub bounded : length s.buffer ≤ pos_part cfg.batch_size
  pub emptied : s.draining ≡ true → s.buffer ≡ []
  pub awaited : s.draining ≡ true → s.drain_done ≢ none

empty-Inv : (cfg : Config) → Inv cfg empty_loop
unfolding served_ids
empty-Inv cfg = record {
  once = λ i. omega arith;
  bounded = omega arith;
  emptied = λ e. cc;
  awaited = λ e. cc;
}

count-keep-le :
    (p : BufMsg → Bool) (i : ℕ) (ms : List BufMsg)
    → count i (ids_of (keep p ms)) ≤ count i (ids_of ms)
count-keep-le p i [] = omega arith
count-keep-le p i (m ∷ ms) = ground (arith, count-keep-le p i ms)

pub is_nil-eq {ℓ} : {A : Type ℓ} (xs : List A) → is_nil xs ≡ true → xs ≡ []
is_nil-eq [] h = refl
is_nil-eq (x ∷ xs) h = cc

-- Flushing changes nothing of the loop but the list of done messages, which it empties.
pub flush_deletes-loop :
    (db : Db) (cfg : Config) (w : db.World) (s : Loop)
    → (flush_deletes db cfg w s).1 ≡ record s { done_ids = [] }
unfolding flush_deletes
flush_deletes-loop db cfg w s = elim (Bool-cases (is_nil s.done_ids)) [
  | inl e ↦ rw e (λ i. record s { done_ids = is_nil-eq s.done_ids e i })
  | inr e ↦ rw e
]

-- Refilling changes the buffer too, and nothing else.
pub refill-loop :
    (db : Db) (cfg : Config) (w : db.World) (s : Loop)
    → (refill db cfg w s).1 ≡ record s { done_ids = []; buffer = (refill db cfg w s).1.buffer }
unfolding refill
refill-loop db cfg w s =
    loaded _ (flush_deletes db cfg w s).1 _
    ∙ ap (λ (t : Loop). record t { buffer = (refill db cfg w s).1.buffer })
        (flush_deletes-loop db cfg w s)
  where
    loaded :
        (w : db.World) (s : Loop) (r : Result (List BufMsg))
        → (load db cfg w s r).1 ≡ record s { buffer = (load db cfg w s r).1.buffer }
    loaded w s (ok msgs) = unfold load in refl
    loaded w s (err e) = unfold load in refl

flushed-Inv : {cfg : Config} (s : Loop) → Inv cfg s → Inv cfg (record s { done_ids = [] })
flushed-Inv s v = record {
  once = λ i. omega (arith, v.once i);
  bounded = v.bounded;
  emptied = v.emptied;
  awaited = v.awaited;
}

module _ (db : Db) (cfg : Config) (w : db.World) (s : Loop) where
  -- Loading a fresh batch into a loop that holds nothing.
  load-Inv :
      (r : Result (List BufMsg))
      → s.buffer ≡ []
      → s.served ≡ []
      → s.done_ids ≡ []
      → s.draining ≡ false
      → ((msgs : List BufMsg) (i : ℕ) → r ≡ ok msgs → count i (ids_of msgs) ≤ 1)
      → ((msgs : List BufMsg) → r ≡ ok msgs → length msgs ≤ pos_part cfg.batch_size)
      → Inv cfg (load db cfg w s r).1
  unfolding load served_ids
  load-Inv (err e) b m d g once bound = record {
    once = λ i. rw (b, m, d) (omega arith);
    bounded = rw b (omega arith);
    emptied = λ e. cc;
    awaited = λ e. cc;
  }
  load-Inv (ok msgs) b m d g once bound = record {
    once = λ i. rw (b, m, d) (omega (arith, count-keep-le (λ m. true) i msgs, once msgs i refl));
    bounded = rw b (
        omega (
          arith,
          length-keep (λ (m : BufMsg). not (contains m.id (served_ids s.served))) msgs,
          bound msgs refl,
        ));
    emptied = λ e. cc;
    awaited = λ e. cc;
  }

module _ (db : Db) (laws : DbLaws db) (cfg : Config) where
  pub refill-Inv :
      (w : db.World) (s : Loop)
      → s.buffer ≡ []
      → s.served ≡ []
      → s.draining ≡ false
      → Inv cfg (refill db cfg w s).1
  unfolding refill
  refill-Inv w s b m g =
      load-Inv db cfg _ (flush_deletes db cfg w s).1 (fetched w').0 (rw flush_deletes-loop b)
        (rw flush_deletes-loop m) (rw flush_deletes-loop refl) (rw flush_deletes-loop g)
        (λ msgs i e. fetch-once db laws w' _ _ _ msgs i e)
        (λ msgs e. fetch-bounded db laws w' _ _ _ msgs e)
    where
      w' : db.World
      w' = (flush_deletes db cfg w s).0

      fetched : db.World → Result (List BufMsg) × db.World
      fetched w = fetch_batch db w cfg.part_start cfg.part_end cfg.batch_size

  pub start-Inv : (w : db.World) → Inv cfg (start db cfg w).1
  unfolding start
  start-Inv w = refill-Inv w empty_loop refl refl refl

  pop-Inv :
      (w : db.World) (s : Loop) (cmd : LeaseCmd) (uuid : Str) (now : ℕ) (n : ℤ)
      → Inv cfg s
      → s.draining ≡ false
      → Inv cfg (pop w s cmd uuid now n).loop
  unfolding pop served_ids
  pop-Inv w s cmd uuid now (pos zero) v g = v
  pop-Inv w s cmd uuid now (pos (suc k)) v g = record {
    once = λ i. omega (
      arith,
      v.once i,
      count-pop i (suc k) s.buffer,
      count-delete-le i uuid s.served,
      count-append i (ids_of (take (suc k) s.buffer)) (served_ids (delete uuid s.served)),
    );
    bounded = omega (arith, v.bounded, length-drop (suc k) s.buffer);
    emptied = λ e. cc;
    awaited = λ e. cc;
  }
  pop-Inv w s cmd uuid now (negsuc k) v g = v

  flush_done-Inv :
      (w : db.World) (s : Loop) (outs : List Output)
      → Inv cfg s
      → Inv cfg (flush_done db cfg w s outs).loop
  unfolding flush_done
  flush_done-Inv w s outs v = rw flush_deletes-loop (closing s.drain_done)
    where
      closing :
          (d : Option ℕ)
          → Inv cfg
              (close_done (flush_deletes db cfg w s).0 (record s { done_ids = [] }) outs d).loop
      closing none = unfold close_done in flushed-Inv s v
      closing (some d) = unfold close_done in flushed-Inv s v

  settle-Inv :
      (w : db.World) (s : Loop) (outs : List Output)
      → Inv cfg s
      → Inv cfg (settle db cfg w s outs).loop
  unfolding settle
  settle-Inv w s outs v = elim (Bool-cases (s.draining && is_nil s.served)) [
    | inl e ↦ rw e (flush_done-Inv w s outs v)
    | inr e ↦ rw e v
  ]

  refill_if_idle-Inv :
      (w : db.World) (s : Loop)
      → Inv cfg s
      → s.draining ≡ false
      → Inv cfg (refill_if_idle db cfg w s).1 × ((refill_if_idle db cfg w s).1.draining ≡ false)
  unfolding refill_if_idle
  refill_if_idle-Inv w s v g = elim (Bool-cases (is_nil s.buffer && is_nil s.served)) [
    | inl e ↦ rw e (
      refill-Inv w s (is_nil-eq s.buffer (ground arith)) (is_nil-eq s.served (ground arith)) g,
      ap (λ (t : Loop). t.draining) (refill-loop db cfg w s) ∙ g,
    )
    | inr e ↦ rw e (v, g)
  ]

  on_lease-Inv :
      (w : db.World) (s : Loop) (cmd : LeaseCmd) (uuid : Str) (now : ℕ)
      → Inv cfg s
      → Inv cfg (on_lease db cfg w s cmd uuid now).loop
  unfolding on_lease
  on_lease-Inv w s cmd uuid now v = elim (Bool-cases s.draining) [
    | inl e ↦ simp e v
    | inr e ↦ let (v', g) = refill_if_idle-Inv w s v e in simp e (pop-Inv _ _ cmd uuid now _ v' g)
  ]

  acked-Inv :
      (s : Loop) (id : Str) (sb : ServedBatch)
      → lookup id s.served ≡ some sb
      → Inv cfg s
      → Inv cfg (record s { done_ids = s.done_ids ++ sb.ids; served = delete id s.served })
  acked-Inv s id sb e v = record {
    once = λ i.
        omega (arith, v.once i, count-append i s.done_ids sb.ids, count-delete i id s.served sb e);
    bounded = v.bounded;
    emptied = v.emptied;
    awaited = v.awaited;
  }

  complete-Inv : (w : db.World) (s : Loop) → Inv cfg s → Inv cfg (complete db cfg w s).1
  unfolding complete
  complete-Inv w s v = elim (Bool-cases (is_nil s.buffer && is_nil s.served)) [
    | inl e ↦ rw (e, flush_deletes-loop) (flushed-Inv s v)
    | inr e ↦ rw e v
  ]

  on_ack-Inv :
      (w : db.World) (s : Loop) (id : Str) (o : Option ServedBatch)
      → lookup id s.served ≡ o
      → Inv cfg s
      → Inv cfg (on_ack db cfg w s id o).loop
  unfolding on_ack
  on_ack-Inv w s id none e v = v
  on_ack-Inv w s id (some sb) e v = settle-Inv _ _ _ (complete-Inv w _ (acked-Inv s id sb e v))

  -- Every event keeps the invariant: among other things, no message is at once ready and leased,
  -- leased twice, or leased and done; the buffer stays within the batch size.
  pub handle-Inv :
      (w : db.World) (s : Loop) (e : Event) → Inv cfg s → Inv cfg (handle db cfg w s e).loop
  unfolding handle on_util
  handle-Inv w s (lease cmd uuid now) v = on_lease-Inv w s cmd uuid now v
  handle-Inv w s (ack cmd) v = on_ack-Inv w s cmd.lease_id _ refl v
  handle-Inv w s util v = v
  handle-Inv w s (drain d) v = settle-Inv w _ [] (record {
    once = λ i. omega (arith, v.once i);
    bounded = omega arith;
    emptied = λ e. refl;
    awaited = λ e. λ n. cc;
  })
  handle-Inv w s (expire now) v = settle-Inv w _ [] (record {
    once = λ i. omega (arith, v.once i, count-drop_expired i now s.served);
    bounded = v.bounded;
    emptied = v.emptied;
    awaited = v.awaited;
  })
  handle-Inv w s cancel v = v
