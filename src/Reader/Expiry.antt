-- ===== src/Reader/Expiry.antt =====
-- How long a lease lasts.
use my_queue.Base.{
  ℕ, suc, ◌+◌, ◌-◌, ◌*◌, ◌≤◌, ◌<◌, ◌≡◌, ◌≢◌, refl, ap, ◌∙◌, true, false, none, some, List, [], ◌∷◌,
  arith, ℤ, pos, negsuc, ltb, Str, Assoc, lookup, delete, insert, length, min, take, lt→ltb, inl,
  inr, Bool-cases, if◌then◌else◌, lookup-delete_self, str_eq_self,
}
use my_queue.Reader.Store.{Db, ids_of}
use my_queue.Reader.Partition.{
  ServedBatch, Config, Loop, LeaseCmd, AckCmd, Output, Turn, lease, ack, expire, ack_reply, running,
  is_expired, drop_expired, timeout_of, elapsed, settle, on_ack, handle,
}
use my_queue.Reader.Leasing.{batch_of, serving, lease_from_buffer}

timeout_exact : (n : ℕ) → n ≤ 9223372036 → timeout_of (pos n) ≡ pos (n * 1000000000)
unfolding timeout_of
timeout_exact n h = ground arith

-- From 9223372037 seconds on the product passes 2^63, and wraps to a negative timeout.
timeout_wraps :
    (n : ℕ)
    → 9223372036 < n
    → n ≤ 18446744073
    → timeout_of (pos n) ≡ negsuc (18446744073709551616 - n * 1000000000 - 1)
unfolding timeout_of
timeout_wraps n h k = ground arith

lookup-drop_expired-none :
    (k : Str) (now : ℕ) (m : Assoc ServedBatch)
    → lookup k m ≡ none
    → lookup k (drop_expired now m) ≡ none
unfolding lookup drop_expired
lookup-drop_expired-none k now [] h = refl
lookup-drop_expired-none k now ((j, sb) ∷ m) h = ground (arith, lookup-drop_expired-none k now m)

-- The ticker keeps or drops a fresh entry by its own age alone.
lookup-drop_expired :
    (k : Str) (now : ℕ) (sb : ServedBatch) (m : Assoc ServedBatch)
    → lookup k (drop_expired now (insert k sb m)) ≡ (if is_expired now sb then none else some sb)
unfolding drop_expired lookup
lookup-drop_expired k now sb m = elim (Bool-cases (is_expired now sb)) [
  | inl e ↦ rw e (lookup-drop_expired-none k now (delete k m) (lookup-delete_self k m))
  | inr e ↦ rw (e, str_eq_self)
]

is_expired-exact :
    (now at n : ℕ) (ids : List ℕ)
    → at ≤ now
    → n ≤ 9223372036
    → is_expired now (record { ids = ids; served_at = at; timeout = timeout_of (pos n) })
      ≡ ltb (n * 1000000000) (now - at)
unfolding elapsed
is_expired-exact now at n ids h k = rw (timeout_exact n k) (ground arith)

is_expired-wraps :
    (now at n : ℕ) (ids : List ℕ)
    → at ≤ now
    → 9223372036 < n
    → n ≤ 18446744073
    → is_expired now (record { ids = ids; served_at = at; timeout = timeout_of (pos n) }) ≡ true
unfolding elapsed
is_expired-wraps now at n ids h k l = rw (timeout_wraps n k l) (ground arith)

module _ (db : Db) (cfg : Config) where
  settle-open :
      (w : db.World) (s : Loop) (outs : List Output)
      → s.draining ≡ false
      → settle db cfg w s outs ≡ record { world = w; loop = s; outputs = outs; status = running }
  unfolding settle
  settle-open w s outs g = simp g

  expire-open :
      (w : db.World) (s : Loop) (now : ℕ)
      → s.draining ≡ false
      → handle db cfg w s (expire now) ≡ record {
        world = w;
        loop = record s { served = drop_expired now s.served };
        outputs = [];
        status = running;
      }
  unfolding handle
  expire-open w s now g = settle-open w (record s { served = drop_expired now s.served }) [] g

  pub ack-missing :
      (w : db.World) (s : Loop) (cmd : AckCmd)
      → lookup cmd.lease_id s.served ≡ none
      → handle db cfg w s (ack cmd) ≡ record {
        world = w;
        loop = s;
        outputs = ack_reply (record { acked = 0; err = none }) ∷ [];
        status = running;
      }
  unfolding handle on_ack
  ack-missing w s cmd e = ap (on_ack db cfg w s cmd.lease_id) e

  -- The entry of a lease after one tick.
  entry_after :
      (w w' : db.World) (s : Loop) (cmd : LeaseCmd) (uuid : Str) (at now k : ℕ)
      → s.draining ≡ false
      → s.buffer ≢ []
      → cmd.max ≡ pos (suc k)
      → let s₁ = (handle db cfg w s (lease cmd uuid at)).loop in
        let sb = batch_of s cmd at (min (suc k) (length s.buffer)) in
        lookup uuid (handle db cfg w' s₁ (expire now)).loop.served
        ≡ (if is_expired now sb then none else some sb)
  entry_after w w' s cmd uuid at now k g b m =
      rw (lease_from_buffer db cfg w s cmd uuid at k g b m) ticked
    where
      sb : ServedBatch
      sb = batch_of s cmd at (min (suc k) (length s.buffer))

      ticked :
          lookup uuid
            (handle db cfg w'
              (serving w s cmd uuid at (min (suc k) (length s.buffer))).loop
              (expire now)).loop.served
          ≡ (if is_expired now sb then none else some sb)
      ticked =
          ap (λ (t : Turn db.World). lookup uuid t.loop.served)
            (expire-open w' (serving w s cmd uuid at (min (suc k) (length s.buffer))).loop now g)
          ∙ lookup-drop_expired uuid now sb s.served

  -- A lease of n seconds, n at most 9223372036, and of a positive number of messages, given by a
  -- partition that has messages and does not drain, is kept by a tick up to n seconds after it was
  -- given, and dropped by a later one.
  pub lease_lifetime :
      (w w' : db.World) (s : Loop) (cmd : LeaseCmd) (uuid : Str) (at now k n : ℕ)
      → s.draining ≡ false
      → s.buffer ≢ []
      → cmd.max ≡ pos (suc k)
      → cmd.lease_seconds ≡ pos n
      → n ≤ 9223372036
      → at ≤ now
      → let s₁ = (handle db cfg w s (lease cmd uuid at)).loop in
        lookup uuid (handle db cfg w' s₁ (expire now)).loop.served ≡ (
          if ltb (n * 1000000000) (now - at)
          then none
          else some (batch_of s cmd at (min (suc k) (length s.buffer))))
  lease_lifetime w w' s cmd uuid at now k n g b m secs small later =
      entry_after w w' s cmd uuid at now k g b m
      ∙ ap (λ c. if c then none else some (batch_of s cmd at (min (suc k) (length s.buffer))))
          (expired cmd.lease_seconds secs)
    where
      ids : List ℕ
      ids = ids_of (take (min (suc k) (length s.buffer)) s.buffer)

      expired :
          (z : ℤ)
          → z ≡ pos n
          → is_expired now (record { ids = ids; served_at = at; timeout = timeout_of z })
            ≡ ltb (n * 1000000000) (now - at)
      expired z e = rw e (is_expired-exact now at n ids later small)

  -- A lease of more than 9223372036 and at most 18446744073 seconds, and of a positive number of
  -- messages, given by a partition that has messages and does not drain, is dropped by the next
  -- tick, however soon it comes.
  pub lease_overflow :
      (w w' : db.World) (s : Loop) (cmd : LeaseCmd) (uuid : Str) (at now k n : ℕ)
      → s.draining ≡ false
      → s.buffer ≢ []
      → cmd.max ≡ pos (suc k)
      → cmd.lease_seconds ≡ pos n
      → 9223372036 < n
      → n ≤ 18446744073
      → at ≤ now
      → let s₁ = (handle db cfg w s (lease cmd uuid at)).loop in
        lookup uuid (handle db cfg w' s₁ (expire now)).loop.served ≡ none
  lease_overflow w w' s cmd uuid at now k n g b m secs big small later =
      entry_after w w' s cmd uuid at now k g b m
      ∙ ap (λ c. if c then none else some (batch_of s cmd at (min (suc k) (length s.buffer))))
          (expired cmd.lease_seconds secs)
    where
      ids : List ℕ
      ids = ids_of (take (min (suc k) (length s.buffer)) s.buffer)

      expired :
          (z : ℤ)
          → z ≡ pos n
          → is_expired now (record { ids = ids; served_at = at; timeout = timeout_of z }) ≡ true
      expired z e = rw e (is_expired-wraps now at n ids later big small)

  -- An acknowledgement that comes after a lease (of at most 9223372036 seconds and of a positive
  -- number of messages, given by a partition that has messages and does not drain) was dropped by a
  -- tick past its time acknowledges nothing and changes nothing: the rows stay, to be served again.
  pub late_ack :
      (w w' w'' : db.World) (s : Loop) (cmd : LeaseCmd) (uuid topic consumer : Str) (at now k n : ℕ)
      → s.draining ≡ false
      → s.buffer ≢ []
      → cmd.max ≡ pos (suc k)
      → cmd.lease_seconds ≡ pos n
      → n ≤ 9223372036
      → at + n * 1000000000 < now
      → let s₁ = (handle db cfg w s (lease cmd uuid at)).loop in
        let s₂ = (handle db cfg w' s₁ (expire now)).loop in
        handle db cfg w'' s₂
          (ack (record { topic = topic; consumer_id = consumer; lease_id = uuid }))
        ≡ record {
          world = w'';
          loop = s₂;
          outputs = ack_reply (record { acked = 0; err = none }) ∷ [];
          status = running;
        }
  late_ack w w' w'' s cmd uuid topic consumer at now k n g b m secs small later =
      ack-missing w'' _ (record { topic = topic; consumer_id = consumer; lease_id = uuid }) gone
    where
      gone :
          lookup uuid
            (handle db cfg w' (handle db cfg w s (lease cmd uuid at)).loop (expire now)).loop.served
          ≡ none
      gone =
          lease_lifetime w w' s cmd uuid at now k n g b m secs small (omega arith)
          ∙ rw (lt→ltb (n * 1000000000) (now - at) (omega arith))
