-- ===== src/Reader/Reload.antt =====
-- What an idle partition serves: the oldest rows of its range.
use my_queue.Base.{
  ℕ, suc, ◌≡◌, ◌≢◌, refl, sym, ap, ◌∙◌, false, not, none, List, [], ◌∷◌, map, ℤ, pos, pos-injective,
  Str, Result, ok, length, take, min, keep, contains,
}
use my_queue.Reader.Store.{BufMsg, Db, fetch_batch}
use my_queue.Reader.Database.{DbLaws, select, fetch-select}
use my_queue.Reader.Partition.{
  Config, Loop, LeaseCmd, Turn, lease, lease_reply, leased, served_ids, flush_deletes, load, refill,
  handle,
}
use my_queue.Reader.Exclusive.{flush_deletes-loop}
use my_queue.Reader.Leasing.{lease_when_idle}

keep_all : (ms : List BufMsg) → keep (λ m. not (contains m.id [])) ms ≡ ms
keep_all [] = refl
keep_all (m ∷ ms) = ap (◌∷◌ m) (keep_all ms)

module _ (db : Db) (laws : DbLaws db) (cfg : Config) where
  open laws use {rows}

  load-empty :
      (w : db.World) (s : Loop) (r : Result (List BufMsg)) (msgs : List BufMsg)
      → s.buffer ≡ []
      → s.served ≡ []
      → r ≡ ok msgs
      → (load db cfg w s r).1.buffer ≡ msgs
  load-empty w s r msgs b n e = rw e (unfold load served_ids in rw (b, n) (keep_all msgs))

  -- An idle partition (no message buffered, no lease outstanding, not draining) that loads
  -- successfully, and finds something, answers a lease of at most k + 1 messages with the oldest
  -- rows of its range that are in the table once the done messages have been given to the database:
  -- as many as were asked for, or as there are up to the batch size `n`, in the order of their IDs.
  pub serves_oldest :
      (w : db.World) (s : Loop) (cmd : LeaseCmd) (uuid : Str) (now k n : ℕ) (msgs : List BufMsg)
      → s.draining ≡ false
      → s.buffer ≡ []
      → s.served ≡ []
      → cmd.max ≡ pos (suc k)
      → cfg.batch_size ≡ pos n
      → (fetch_batch db (flush_deletes db cfg w s).0 cfg.part_start cfg.part_end cfg.batch_size).0
        ≡ ok msgs
      → msgs ≢ []
      → let oldest = select cfg.part_start cfg.part_end n (rows (flush_deletes db cfg w s).0) in
        (handle db cfg w s (lease cmd uuid now)).outputs
        ≡ lease_reply (record {
          lease_id = uuid;
          messages = map leased (take (min (suc k) (length oldest)) oldest);
          err = none;
        })
          ∷ []
  serves_oldest w s cmd uuid now k n msgs g b m bound size fetched some_left =
      ap (λ (t : Turn db.World). t.outputs)
        (lease_when_idle db cfg w s cmd uuid now k g b m bound (λ e. some_left (sym filled ∙ e)))
      ∙ ap
          (λ (ms : List BufMsg).
            lease_reply (record {
              lease_id = uuid;
              messages = map leased (take (min (suc k) (length ms)) ms);
              err = none;
            })
            ∷ [])
          (filled ∙ selected cfg.batch_size size fetched)
    where
      w' : db.World
      w' = (flush_deletes db cfg w s).0

      filled : (refill db cfg w s).1.buffer ≡ msgs
      filled =
          unfold refill in
          load-empty _ (flush_deletes db cfg w s).1 _ msgs (rw flush_deletes-loop b)
            (rw flush_deletes-loop m) fetched

      selected :
          (z : ℤ)
          → z ≡ pos n
          → (fetch_batch db w' cfg.part_start cfg.part_end z).0 ≡ ok msgs
          → msgs ≡ select cfg.part_start cfg.part_end n (rows w')
      selected z e h =
          let (j, limit, sel) = fetch-select db laws w' cfg.part_start cfg.part_end z h in
          sel
          ∙ ap (λ i. select cfg.part_start cfg.part_end i (rows w')) (pos-injective (sym limit ∙ e))
