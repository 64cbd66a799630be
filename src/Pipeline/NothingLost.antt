-- ===== src/Pipeline/NothingLost.antt =====
-- From the queue to the telemetry table, no message is lost.
use my_queue.Base.{
  ℕ, zero, suc, ◌<◌, ◌≤◌, ◌≡◌, refl, ◌⊎◌, inl, inr, true, false, Option, none, some, List, [], ◌∷◌,
  ◌++◌, map, arith, Str, Result, Assoc, lookup, All, count, count-append, ◌==◌, Bool-cases,
}
use my_queue.Reader.Store.{BufMsg, Db}
use my_queue.Reader.Database.{DbLaws}
use my_queue.Reader.Partition.{
  LeasedMsg, ServedBatch, Config, Loop, Event, AckCmd, lease, ack, util, drain, expire, cancel,
  Status, leased,
}
use my_queue.Reader.Execution.{acked_by, batch_ids}
use my_queue.Reader.Delivery.{held, held-Reach}
use my_queue.Collector.Store.{TelemetryRow, Args}
use my_queue.Pipeline.Ledger.{RowIsKnown, Traced, lookup-IsEntered}
use my_queue.Pipeline.Traced.{IsQuiet, start-Traced, quiet-Traced, lease-Traced}
use my_queue.Pipeline.Flow.{
  received, IsInternal, Persisted, Flow, begins, leases, acks, turns, publishes, persists,
  Flow-Reach,
}
use my_queue.Collector.Table.{Gains}

IsInternal-IsQuiet : (e : Event) → IsInternal e → IsQuiet e
IsInternal-IsQuiet (lease cmd uuid now) h = h
IsInternal-IsQuiet (ack cmd) h = absurd h
IsInternal-IsQuiet util h = h
IsInternal-IsQuiet (drain d) h = h
IsInternal-IsQuiet (expire now) h = h
IsInternal-IsQuiet cancel h = h

acked_by-IsInternal : (s : Loop) (e : Event) → IsInternal e → acked_by s e ≡ []
unfolding acked_by
acked_by-IsInternal s (lease cmd uuid now) h = refl
acked_by-IsInternal s (ack cmd) h = absurd h
acked_by-IsInternal s util h = refl
acked_by-IsInternal s (drain d) h = refl
acked_by-IsInternal s (expire now) h = refl
acked_by-IsInternal s cancel h = refl

-- What holds of all messages of a list of IDs holds of each.
each-id :
    (P : LeasedMsg → Type 0) (msg_of : ℕ → BufMsg) (ids : List ℕ) (i : ℕ)
    → All P (map leased (map msg_of ids))
    → 0 < count i ids
    → P (leased (msg_of i))
each-id P msg_of [] i a h = absurd (omega arith)
each-id P msg_of (j ∷ ids) i a h = found (Bool-cases (j == i)) (each-id P msg_of ids i a.1)
  where
    found :
        ((j == i) ≡ true) ⊎ ((j == i) ≡ false)
        → (0 < count i ids → P (leased (msg_of i)))
        → P (leased (msg_of i))
    found (inl e) ih = let same : j ≡ i = ground arith in rw (← same) a.0
    found (inr e) ih = ih (ground (arith, h))

All-map :
    {A B : Type 0} (P : B → Type 0) (f : A → B) (xs : List A)
    → All P (map f xs)
    → All (λ a. P (f a)) xs
All-map P f [] a = tt
All-map P f (x ∷ xs) a = (a.0, All-map P f xs a.1)

module _ (unmarshal : Str → Result TelemetryRow) (parse_uuid : Str → Result Str) (db : Db)
    (laws : DbLaws db) (cfg : Config) (msg_of : ℕ → BufMsg)
    (known : (w : db.World) → All (RowIsKnown msg_of) (laws.rows w)) where
  -- The message with an ID, as a collector receives it, is persisted, if it can be parsed.
  abbrev pub IsSafe : List Args → ℕ → Type 0
  IsSafe table i = Persisted unmarshal parse_uuid table (received (leased (msg_of i)))

  AllSafe : List Args → List ℕ → Type 0
  AllSafe table ids = (i : ℕ) → 0 < count i ids → IsSafe table i

  safe-append :
      (table : List Args) (xs ys : List ℕ)
      → AllSafe table xs
      → AllSafe table ys
      → AllSafe table (xs ++ ys)
  unfolding AllSafe
  safe-append table xs ys a b i h = split (count i xs) refl
    where
      split : (n : ℕ) → count i xs ≡ n → IsSafe table i
      split zero e = b i (omega (arith, h, e, count-append i xs ys))
      split (suc n) e = a i (omega (arith, e))

  -- The messages of a batch that is acknowledged are those of the answer to its lease.
  safe-ack :
      (table : List Args) (s : Loop) (given : Assoc (List LeasedMsg)) (cmd : AckCmd)
      (msgs : List LeasedMsg)
      → Traced msg_of s given
      → lookup cmd.lease_id given ≡ some msgs
      → All (Persisted unmarshal parse_uuid table) (map received msgs)
      → AllSafe table (acked_by s (ack cmd))
  unfolding AllSafe acked_by
  safe-ack table s given cmd msgs t e p = batch (lookup cmd.lease_id s.served) refl
    where
      batch :
          (o : Option ServedBatch)
          → lookup cmd.lease_id s.served ≡ o
          → (i : ℕ) → 0 < count i (batch_ids o)
          → IsSafe table i
      batch none x i h = absurd (omega arith)
      batch (some sb) x i h =
          let entry = lookup-IsEntered msg_of given cmd.lease_id s.served sb t.entered x in
          let same : msgs ≡ map leased (map msg_of sb.ids) = cc in
          each-id (λ m. Persisted unmarshal parse_uuid table (received m)) msg_of sb.ids i
            (rw (← same) (All-map (Persisted unmarshal parse_uuid table) received msgs p)) h

  Flow-Traced :
      {w₀ w : db.World} {s : Loop} {acked : List ℕ} {st : Status} {table : List Args}
      {given : Assoc (List LeasedMsg)}
      → Flow unmarshal parse_uuid db laws cfg w₀ w s acked st table given
      → Traced msg_of s given
  Flow-Traced {w₀} begins = start-Traced db laws cfg msg_of known w₀
  Flow-Traced (leases {w = w} {s = s} {given = given} f cmd uuid now h) =
      lease-Traced db laws cfg msg_of known w s cmd uuid now given h (Flow-Traced f)
  Flow-Traced (acks {w = w} {s = s} {given = given} f cmd msgs h p) =
      quiet-Traced db laws cfg msg_of known w s (ack cmd) given tt (Flow-Traced f)
  Flow-Traced (turns {w = w} {s = s} {given = given} f e h) =
      quiet-Traced db laws cfg msg_of known w s e given (IsInternal-IsQuiet e h) (Flow-Traced f)
  Flow-Traced (publishes f g) = Flow-Traced f
  Flow-Traced (persists f g) = Flow-Traced f

  Flow-AllSafe :
      {w₀ w : db.World} {s : Loop} {acked : List ℕ} {st : Status} {table : List Args}
      {given : Assoc (List LeasedMsg)}
      → Flow unmarshal parse_uuid db laws cfg w₀ w s acked st table given
      → AllSafe table acked
  Flow-AllSafe begins = unfold AllSafe in λ i h. absurd (omega (arith, h))
  Flow-AllSafe (leases {s = s} {acked = acked} {table = table} f cmd uuid now h) =
      safe-append table acked (acked_by s (lease cmd uuid now)) (Flow-AllSafe f)
        (unfold AllSafe acked_by in λ i k. absurd (omega (arith, k)))
  Flow-AllSafe (acks {s = s} {acked = acked} {table = table} {given = given} f cmd msgs h p) =
      safe-append table acked (acked_by s (ack cmd)) (Flow-AllSafe f)
        (safe-ack table s given cmd msgs (Flow-Traced f) h p)
  Flow-AllSafe (turns {s = s} {acked = acked} {table = table} f e h) =
      safe-append table acked (acked_by s e) (Flow-AllSafe f)
        (rw (acked_by-IsInternal s e h) (unfold AllSafe in λ i k. absurd (omega (arith, k))))
  Flow-AllSafe (publishes f g) = Flow-AllSafe f
  Flow-AllSafe (persists {acked = acked} {table = table} {table' = table'} f g) =
      grown acked table table' g (Flow-AllSafe f)
    where
      grown :
          (ids : List ℕ) (before after : List Args)
          → Gains before after
          → AllSafe before ids
          → AllSafe after ids
      grown ids before after g a =
          unfold AllSafe in
          λ i h row e. let (u, valid, there) = a i h row e in (u, valid, g u there)

  -- No message is lost between the two tables. Whatever a reader, any number of collectors, and writers
  -- do in whatever order, leases expiring, acks coming late, statements failing: a row that was in the
  -- queue when the reader started is still there, or its message, if its payload can be parsed, has
  -- a row in the telemetry table under its own UUID. This is so if an ID names the same message for
  -- ever, lease IDs are not repeated, a collector acknowledges only a lease that it was given and
  -- whose messages it has persisted, and nobody else deletes from either table.
  pub nothing_lost :
      {w₀ w : db.World} {s : Loop} {acked : List ℕ} {st : Status} {table : List Args}
      {given : Assoc (List LeasedMsg)} (i : ℕ)
      → Flow unmarshal parse_uuid db laws cfg w₀ w s acked st table given
      → (held db laws cfg i w₀ ≤ held db laws cfg i w) ⊎ IsSafe table i
  unfolding AllSafe
  nothing_lost {w₀ = w₀} {w = w} {acked = acked} {table = table} i f = split (count i acked) refl
    where
      split :
          (n : ℕ)
          → count i acked ≡ n
          → (held db laws cfg i w₀ ≤ held db laws cfg i w) ⊎ IsSafe table i
      split zero e =
          inl (held-Reach db laws cfg i (Flow-Reach unmarshal parse_uuid db laws cfg f) e)
      split (suc n) e = inr (Flow-AllSafe f i (omega (arith, e)))
