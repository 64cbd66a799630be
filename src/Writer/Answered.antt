-- ===== src/Writer/Answered.antt =====
-- What becomes of the requests that reach the writer's process.
use my_queue.Base.{
  ℕ, ◌+◌, ◌≡◌, ◌≢◌, refl, sym, ap, ◌∙◌, true, false, List, [], ◌∷◌, ◌++◌, arith, ℤ, Str, count,
  count-append,
}
use my_queue.Writer.Store.{Db}
use my_queue.Writer.Buffer.{PublishItem, Event, received, closed, timer}
use my_queue.Writer.Replies.{channels, replied, Covers, map-append'}
use my_queue.Writer.Service.{
  State, ended, is_open, turned, on_event, Service, starts, accepts, sends, fails, gives_up, takes,
  ticks, stops, closes, ends,
}
use my_queue.Writer.Run.{taken, handle-Settles, count-channels}

module _ (db : Db) (max_size : ℤ) where
  -- What is known of a state: no reply is lost or made up, nothing is left at the end, and nothing
  -- panics before the channel is closed, or behind a Shutdown that has returned without an error.
  record Sound (c : ℕ) (s : State db.World) : Type 0 where
    total :
        count c (replied s.replies)
          + count c (channels s.pending.items)
          + count c (channels s.channel)
        ≡ count c (channels s.sent)
    over : s.phase ≡ ended → (s.pending.items ≡ []) × (s.channel ≡ [])
    calm : is_open s.phase ≡ true → s.panics ≡ 0
    quiet : is_open s.phase ≡ false → s.clean ≡ true → (s.active ≡ []) × (s.panics ≡ 0)

  turned-total :
      (c : ℕ) (s : State db.World) (e : Event) (rest : List PublishItem) (order : List Str)
      → Covers order (taken s.pending e).items
      → count c (channels (taken s.pending e).items) + count c (channels rest)
        ≡ count c (channels s.pending.items) + count c (channels s.channel)
      → let s' = turned s rest (on_event db max_size s e order) in
        count c (replied s'.replies)
          + count c (channels s'.pending.items)
          + count c (channels s'.channel)
        ≡ count c (replied s.replies)
          + count c (channels s.pending.items)
          + count c (channels s.channel)
  turned-total c s e rest order h same =
      let t = on_event db max_size s e order in
      let k = handle-Settles db max_size s.world s.pending e order c h in
      omega (
        arith,
        same,
        k.kept,
        ap (count c) (map-append' s.replies t.replies),
        count-append c (replied s.replies) (replied t.replies),
      )

  not_nil : (before after : List PublishItem) (it : PublishItem) → [] ≢ before ++ it ∷ after
  not_nil [] after it e = cc
  not_nil (x ∷ before) after it e = cc

  Service-Sound :
      (c : ℕ) {w₀ : db.World} {s : State db.World} → Service db max_size w₀ s → Sound c s
  Service-Sound c starts = record {
    total = refl;
    over = λ e. cc;
    calm = λ e. refl;
    quiet = λ e f. cc;
  }
  Service-Sound c (accepts {s = s} x it e) =
      let v = Service-Sound c x in
      record { total = v.total; over = v.over; calm = v.calm; quiet = λ f g. cc }
  Service-Sound c (sends {s = s} x before after it e usable n) =
      let v = Service-Sound c x in
      record {
        total = omega (
          arith,
          v.total,
          count-channels c s.channel (it ∷ []),
          count-channels c s.sent (it ∷ []),
        );
        over = λ f. cc;
        calm = v.calm;
        quiet = λ f g. cc;
      }
  Service-Sound c (fails {s = s} x before after it e shut) =
      let v = Service-Sound c x in
      record {
        total = v.total;
        over = v.over;
        calm = λ f. cc;
        quiet = λ f g. absurd (not_nil before after it (sym (v.quiet f g).0 ∙ e));
      }
  Service-Sound c (gives_up {s = s} x before after it e) =
      let v = Service-Sound c x in
      record {
        total = v.total;
        over = v.over;
        calm = v.calm;
        quiet = λ f g. absurd (not_nil before after it (sym (v.quiet f g).0 ∙ e));
      }
  Service-Sound c (takes {s = s} x it rest order e on h) =
      let v = Service-Sound c x in
      record {
        total =
            turned-total c s (received it) rest order h (
              omega (
                arith,
                ap (λ (xs : List PublishItem). count c (channels xs)) e,
                count-channels c s.pending.items (it ∷ []),
                count-channels c (it ∷ []) rest,
              ))
            ∙ v.total;
        over = λ f. absurd (on f);
        calm = v.calm;
        quiet = v.quiet;
      }
  Service-Sound c (ticks {s = s} x order on h) =
      let v = Service-Sound c x in
      record {
        total = turned-total c s timer s.channel order h refl ∙ v.total;
        over = λ f. absurd (on f);
        calm = v.calm;
        quiet = v.quiet;
      }
  Service-Sound c (stops {s = s} x e) =
      let v = Service-Sound c x in
      record { total = v.total; over = λ f. cc; calm = λ f. v.calm (rw e refl); quiet = λ f g. cc }
  Service-Sound c (closes {s = s} x clean e none) =
      let v = Service-Sound c x in
      record {
        total = v.total;
        over = λ f. cc;
        calm = λ f. cc;
        quiet = λ f g. (none g, v.calm (rw e refl));
      }
  Service-Sound c (ends {s = s} x order e empty h) =
      let v = Service-Sound c x in
      record {
        total = turned-total c s closed [] order h (rw empty refl) ∙ v.total;
        over = λ f.
            ((handle-Settles db max_size s.world s.pending closed order c h).empties refl, refl);
        calm = λ f. cc;
        quiet = λ f. v.quiet (rw e refl);
      }

  -- When main of the writer returns, each request that a handler had sent to the buffer has been
  -- replied to, once: a channel gets as many replies as requests wait on it. And if Shutdown
  -- returned without an error, no handler has ever sent to the closed channel. This is so in every
  -- order in which handlers, Run, its timer and main go on, whichever way the database answers.
  -- Each flush goes through the topics of the items in hand, each once.
  pub answers_all_sent :
      {w₀ : db.World} {s : State db.World}
      → Service db max_size w₀ s
      → s.phase ≡ ended
      → ((c : ℕ) → count c (replied s.replies) ≡ count c (channels s.sent))
        × (s.clean ≡ true → s.panics ≡ 0)
  answers_all_sent {s = s} x e = (
    λ c.
        let v = Service-Sound c x in
        omega (
          arith,
          v.total,
          ap (λ (xs : List PublishItem). count c (channels xs)) (v.over e).0,
          ap (λ (xs : List PublishItem). count c (channels xs)) (v.over e).1,
        ),
    λ clean. ((Service-Sound 0 x).quiet (rw e refl) clean).1,
  )
