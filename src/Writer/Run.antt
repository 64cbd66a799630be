-- ===== src/Writer/Run.antt =====
-- internal/mqwriter/buffer.go: executions of Run, from NewWriteBuffer to the return that Close
-- brings about.
use my_queue.Base.{
  ℕ, ◌+◌, ◌≡◌, refl, ap, ◌∙◌, Bool, true, false, List, [], ◌∷◌, ◌++◌, arith, ℤ, pos, leb_ℤ, Str,
  count, count-append, if◌then◌else◌, Bool-cases, inl, inr,
}
use my_queue.Writer.Store.{Db}
use my_queue.Writer.Buffer.{
  PublishItem, Pending, Event, received, closed, timer, Turn, empty_pending, add_item, do_flush,
  handle,
}
use my_queue.Writer.Replies.{channels, replied, Covers, map-append', do_flush-replies}

-- What a turn of Run has in hand, before it may flush.
abbrev pub taken : Pending → Event → Pending
taken p (received it) = add_item p it
taken p closed = p
taken p timer = p

abbrev pub is_closed : Event → Bool
is_closed (received it) = false
is_closed closed = true
is_closed timer = false

-- The requests that come in before the channel is closed.
abbrev pub arrived : List (Event × List Str) → List PublishItem
arrived [] = []
arrived (e ∷ es) =
    let rest = arrived es in if is_closed e.0 then [] else (taken empty_pending e.0).items ++ rest

abbrev pub closes : List (Event × List Str) → Bool
closes [] = false
closes (e ∷ es) = let rest = closes es in if is_closed e.0 then true else rest

pub count-channels :
    (c : ℕ) (xs ys : List PublishItem)
    → count c (channels (xs ++ ys)) ≡ count c (channels xs) + count c (channels ys)
count-channels c [] ys = omega arith
count-channels c (x ∷ xs) ys = ground (arith, count-channels c xs ys)

module _ (db : Db) (max_size : ℤ) where
  abbrev followed_by : Turn db.World → Turn db.World → Turn db.World
  followed_by t rest = record {
    world = rest.world;
    pending = rest.pending;
    replies = t.replies ++ rest.replies;
    returned = rest.returned;
  }

  -- Run, on what its select receives; each event comes with the order in which a flush then goes
  -- through the topics.
  unfoldable pub run : db.World → Pending → List (Event × List Str) → Turn db.World
  run w p [] = record { world = w; pending = p; replies = []; returned = false }
  run w p (e ∷ es) =
      let t = handle db max_size w p e.0 e.1 in
      let rest = run t.world t.pending es in if t.returned then t else followed_by t rest

  -- Each turn's order goes through the topics of the items in hand, each once.
  abbrev pub IsOrdered : db.World → Pending → List (Event × List Str) → Type 0
  IsOrdered w p [] = Unit
  IsOrdered w p (e ∷ es) =
      let t = handle db max_size w p e.0 e.1 in
      Covers e.1 (taken p e.0).items × IsOrdered t.world t.pending es

  -- A turn keeps or replies to what it has in hand, and returns if the channel is closed.
  pub record Settles (c : ℕ) (p : Pending) (e : Event) (t : Turn db.World) : Type 0 where
    pub kept :
        count c (replied t.replies) + count c (channels t.pending.items)
        ≡ count c (channels (taken p e).items)
    pub returns : t.returned ≡ is_closed e
    pub empties : is_closed e ≡ true → t.pending.items ≡ []

  do_flush-returned :
      (w : db.World) (p : Pending) (order : List Str) (over : Bool)
      → (do_flush db w p order over).returned ≡ over
  unfolding do_flush
  do_flush-returned w p order over = ground arith

  flush-Settles :
      (w : db.World) (p : Pending) (e : Event) (order : List Str) (c : ℕ)
      → Covers order (taken p e).items
      → Settles c p e (do_flush db w (taken p e) order (is_closed e))
  flush-Settles w p e order c h =
      let (all, none_left) = do_flush-replies db w (taken p e) order (is_closed e) c h in
      record {
        kept = omega (arith, all, ap (λ (xs : List PublishItem). count c (channels xs)) none_left);
        returns = do_flush-returned w (taken p e) order (is_closed e);
        empties = λ x. none_left;
      }

  pub handle-Settles :
      (w : db.World) (p : Pending) (e : Event) (order : List Str) (c : ℕ)
      → Covers order (taken p e).items
      → Settles c p e (handle db max_size w p e order)
  unfolding handle
  handle-Settles w p (received it) order c h =
      elim (Bool-cases (leb_ℤ max_size (pos (add_item p it).msg_count))) [
        | inl e ↦ rw e (flush-Settles w p (received it) order c h)
        | inr e ↦ rw e (record { kept = omega arith; returns = refl; empties = λ x. cc })
      ]
  handle-Settles w p closed order c h = flush-Settles w p closed order c h
  handle-Settles w p timer order c h = flush-Settles w p timer order c h

  -- What a run of Run makes of the items that it holds and of those that come in.
  record Answers (c : ℕ) (p : Pending) (es : List (Event × List Str)) (t : Turn db.World)
      : Type 0 where
    total :
        count c (replied t.replies) + count c (channels t.pending.items)
        ≡ count c (channels p.items) + count c (channels (arrived es))
    ends : t.returned ≡ closes es
    clears : closes es ≡ true → t.pending.items ≡ []

  count-taken :
      (c : ℕ) (p : Pending) (e : Event)
      → count c (channels (taken p e).items)
        ≡ count c (channels p.items) + count c (channels (taken empty_pending e).items)
  count-taken c p (received it) = count-channels c p.items (it ∷ [])
  count-taken c p closed = omega arith
  count-taken c p timer = omega arith

  closed-taken :
      (c : ℕ) (p : Pending) (e : Event)
      → is_closed e ≡ true
      → count c (channels (taken p e).items) ≡ count c (channels p.items)
  closed-taken c p (received it) h = cc
  closed-taken c p closed h = refl
  closed-taken c p timer h = cc

  run-Answers :
      (w : db.World) (p : Pending) (es : List (Event × List Str)) (c : ℕ)
      → IsOrdered w p es
      → Answers c p es (run w p es)
  unfolding run
  run-Answers w p [] c h = record { total = omega arith; ends = refl; clears = λ x. cc }
  run-Answers w p (e ∷ es) c h = step (is_closed e.0) refl _ (handle-Settles w p e.0 e.1 c h.0) _ (
      run-Answers (handle db max_size w p e.0 e.1).world (handle db max_size w p e.0 e.1).pending es
        c h.1)
    where
      step :
          (b : Bool)
          → is_closed e.0 ≡ b
          → (t : Turn db.World) → Settles c p e.0 t
          → (rest : Turn db.World) → Answers c t.pending es rest
          → Answers c p (e ∷ es) (if t.returned then t else followed_by t rest)
      step true x t k rest a =
          rw (k.returns, x)
            (record {
              total = rw x (omega (arith, k.kept, closed-taken c p e.0 x));
              ends = rw x refl;
              clears = λ y. k.empties x;
            })
      step false x t k rest a =
          rw (k.returns, x)
            (record {
              total = rw x (
                  omega (
                    arith,
                    k.kept,
                    count-taken c p e.0,
                    a.total,
                    ap (count c) (map-append' t.replies rest.replies),
                    count-append c (replied t.replies) (replied rest.replies),
                    count-channels c (taken empty_pending e.0).items (arrived es),
                  ));
              ends = rw x a.ends;
              clears = rw x a.clears;
            })

  -- When the buffer's channel is closed, Run returns, and by then has replied to each request that
  -- came in, once: a channel gets as many replies as requests wait on it, whichever way the
  -- database answered, and nothing is left pending. Each flush goes through the topics of the
  -- items in hand, each once.
  pub run_answers_all :
      (w : db.World) (es : List (Event × List Str))
      → IsOrdered w empty_pending es
      → closes es ≡ true
      → let t = run w empty_pending es in
        (t.returned ≡ true)
        × (t.pending.items ≡ [])
        × ((c : ℕ) → count c (replied t.replies) ≡ count c (channels (arrived es)))
  run_answers_all w es h closing = (
    a.ends ∙ closing,
    a.clears closing,
    λ c. omega (
      arith,
      (run-Answers w empty_pending es c h).total,
      ap (λ (xs : List PublishItem). count c (channels xs)) (a.clears closing),
    ),
  )
    where
      a : Answers 0 empty_pending es (run w empty_pending es)
      a = run-Answers w empty_pending es 0 h
