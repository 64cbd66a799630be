-- ===== src/Reader/Leasing.antt =====
-- What one lease request does, branch by branch.
use my_queue.Base.{
  ℕ, zero, suc, ◌<◌, ◌≡◌, ◌≢◌, refl, ap, ◌∙◌, true, false, ◌&&◌, none, List, [], ◌∷◌, map, arith,
  pos, Str, insert, length, take, drop, min,
}
use my_queue.Reader.Store.{ids_of, Db}
use my_queue.Reader.Partition.{
  ServedBatch, Config, Loop, LeaseCmd, Turn, lease, lease_reply, running, is_nil, timeout_of,
  leased, pop, clip, refill, refill_if_idle, on_lease, handle,
}

-- The batch that a lease of `n` messages hands out.
abbrev pub batch_of : Loop → LeaseCmd → ℕ → ℕ → ServedBatch
batch_of s cmd now n = record {
  ids = ids_of (take n s.buffer);
  served_at = now;
  timeout = timeout_of cmd.lease_seconds;
}

-- The turn of a lease that takes `n` messages off a buffer.
abbrev pub serving : {W : Type 0} → W → Loop → LeaseCmd → Str → ℕ → ℕ → Turn W
serving w s cmd uuid now n = record {
  world = w;
  loop = record s {
    buffer = drop n s.buffer;
    served = insert uuid (batch_of s cmd now n) s.served;
  };
  outputs =
      lease_reply (record { lease_id = uuid; messages = map leased (take n s.buffer); err = none })
      ∷ [];
  status = running;
}

clip_pos : (k len : ℕ) → clip (pos k) len ≡ pos (min k len)
unfolding clip
clip_pos k len = ground arith

pop-serving :
    {W : Type 0} (w : W) (s : Loop) (cmd : LeaseCmd) (uuid : Str) (now n : ℕ)
    → 0 < n
    → pop w s cmd uuid now (pos n) ≡ serving w s cmd uuid now n
unfolding pop
pop-serving w s cmd uuid now zero h = absurd (omega arith)
pop-serving w s cmd uuid now (suc n) h = refl

is_nil-ne {ℓ} : {A : Type ℓ} (xs : List A) → xs ≢ [] → (is_nil xs ≡ false) × (0 < length xs)
is_nil-ne [] h = absurd (h refl)
is_nil-ne (x ∷ xs) h = (refl, omega arith)

module _ (db : Db) (cfg : Config) where
  on_lease-open :
      (w : db.World) (s : Loop) (cmd : LeaseCmd) (uuid : Str) (now : ℕ)
      → s.draining ≡ false
      → on_lease db cfg w s cmd uuid now
        ≡ pop
            (refill_if_idle db cfg w s).0
            (refill_if_idle db cfg w s).1
            cmd
            uuid
            now
            (clip cmd.max (length (refill_if_idle db cfg w s).1.buffer))
  unfolding on_lease
  on_lease-open w s cmd uuid now g = simp g

  pop-clip :
      (w : db.World) (s : Loop) (cmd : LeaseCmd) (uuid : Str) (now k : ℕ)
      → s.buffer ≢ []
      → cmd.max ≡ pos (suc k)
      → pop w s cmd uuid now (clip cmd.max (length s.buffer))
        ≡ serving w s cmd uuid now (min (suc k) (length s.buffer))
  pop-clip w s cmd uuid now k b m =
      let (_, some_left) = is_nil-ne s.buffer b in
      ap (pop w s cmd uuid now)
        (ap (λ z. clip z (length s.buffer)) m ∙ clip_pos (suc k) (length s.buffer))
      ∙ pop-serving w s cmd uuid now (min (suc k) (length s.buffer)) (omega arith)

  refill_if_idle-busy :
      (w : db.World) (s : Loop) → s.buffer ≢ [] → refill_if_idle db cfg w s ≡ (w, s)
  unfolding refill_if_idle
  refill_if_idle-busy w s b = rw (is_nil-ne s.buffer b).0

  refill_if_idle-idle :
      (w : db.World) (s : Loop)
      → s.buffer ≡ []
      → s.served ≡ []
      → refill_if_idle db cfg w s ≡ refill db cfg w s
  unfolding refill_if_idle
  refill_if_idle-idle w s b n =
      let idle : (is_nil s.buffer && is_nil s.served) ≡ true = rw (b, n) in rw idle

  -- A loop that has messages serves from its buffer as it stands.
  pub lease_from_buffer :
      (w : db.World) (s : Loop) (cmd : LeaseCmd) (uuid : Str) (now k : ℕ)
      → s.draining ≡ false
      → s.buffer ≢ []
      → cmd.max ≡ pos (suc k)
      → handle db cfg w s (lease cmd uuid now)
        ≡ serving w s cmd uuid now (min (suc k) (length s.buffer))
  unfolding handle
  lease_from_buffer w s cmd uuid now k g b m =
      on_lease-open w s cmd uuid now g
      ∙ rw (refill_if_idle-busy w s b) (pop-clip w s cmd uuid now k b m)

  -- Once a partition drains, a lease is answered with no message, and changes nothing.
  pub lease_while_draining :
      (w : db.World) (s : Loop) (cmd : LeaseCmd) (uuid : Str) (now : ℕ)
      → s.draining ≡ true
      → handle db cfg w s (lease cmd uuid now) ≡ record {
        world = w;
        loop = s;
        outputs = lease_reply (record { lease_id = uuid; messages = []; err = none }) ∷ [];
        status = running;
      }
  unfolding handle on_lease
  lease_while_draining w s cmd uuid now g = simp g

  -- An idle partition serves what it has just loaded.
  pub lease_when_idle :
      (w : db.World) (s : Loop) (cmd : LeaseCmd) (uuid : Str) (now k : ℕ)
      → s.draining ≡ false
      → s.buffer ≡ []
      → s.served ≡ []
      → cmd.max ≡ pos (suc k)
      → (refill db cfg w s).1.buffer ≢ []
      → handle db cfg w s (lease cmd uuid now)
        ≡ serving
            (refill db cfg w s).0
            (refill db cfg w s).1
            cmd
            uuid
            now
            (min (suc k) (length (refill db cfg w s).1.buffer))
  unfolding handle
  lease_when_idle w s cmd uuid now k g b n m h =
      on_lease-open w s cmd uuid now g
      ∙ rw (refill_if_idle-idle w s b n) (pop-clip _ (refill db cfg w s).1 cmd uuid now k h m)

  -- While leases are outstanding, an empty buffer is not refilled.
  pub lease_when_waiting :
      (w : db.World) (s : Loop) (cmd : LeaseCmd) (uuid : Str) (now k : ℕ)
      → s.draining ≡ false
      → s.buffer ≡ []
      → s.served ≢ []
      → cmd.max ≡ pos (suc k)
      → handle db cfg w s (lease cmd uuid now) ≡ record {
        world = w;
        loop = s;
        outputs = lease_reply (record { lease_id = uuid; messages = []; err = none }) ∷ [];
        status = running;
      }
  unfolding handle
  lease_when_waiting w s cmd uuid now k g b n m =
      on_lease-open w s cmd uuid now g
      ∙ rw waiting (
          ap (pop w s cmd uuid now)
            (ap (λ z. clip z (length s.buffer)) m ∙ clip_pos (suc k) (length s.buffer) ∙ nothing)
          ∙ unfold pop in refl)
    where
      waiting : refill_if_idle db cfg w s ≡ (w, s)
      waiting =
          unfold refill_if_idle in
          let busy : (is_nil s.buffer && is_nil s.served) ≡ false =
            rw (b, (is_nil-ne s.served n).0) in
          rw busy

      nothing : pos (min (suc k) (length s.buffer)) ≡ pos 0
      nothing = ap pos (omega (arith, ap length b))
