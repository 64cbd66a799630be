-- ===== src/Writer/Service.antt =====
-- cmd/mqwriter/main.go with internal/mqwriter/buffer.go: the HTTP handlers that call Submit, the
-- goroutine of Run, and main, which stops them in turn. `replies`, `sent` and `panics` record what has
-- happened.
use my_queue.Base.{ℕ, suc, ◌<◌, ◌≡◌, ◌≢◌, Bool, true, false, List, [], ◌∷◌, ◌++◌, ℤ, Str, length}
use my_queue.Writer.Store.{Db}
use my_queue.Writer.Buffer.{
  PublishItem, Pending, Event, received, closed, timer, Turn, empty_pending, handle,
}
use my_queue.Writer.Share.{PublishResult}
use my_queue.Writer.Replies.{Covers}
use my_queue.Writer.Run.{taken}

-- Where main stands: in its select, in srv.Shutdown, waiting for bufDone, or past it.
pub data Phase : Type 0 where
  serving : Phase
  stopping : Phase
  closing : Phase
  ended : Phase

-- The channel of the buffer takes requests.
abbrev pub is_open : Phase → Bool
is_open serving = true
is_open stopping = true
is_open closing = false
is_open ended = false

pub record State (W : Type 0) : Type 0 where
  pub phase : Phase
  -- The handlers before the send of Submit, by what they are going to send.
  pub active : List PublishItem
  pub channel : List PublishItem
  pub world : W
  pub pending : Pending
  pub replies : List (ℕ × PublishResult)
  pub sent : List PublishItem
  -- Sends on the closed channel; the router's Recoverer catches the panic.
  pub panics : ℕ
  -- Shutdown returned without an error.
  pub clean : Bool

-- make(chan publishItem, 256)
abbrev pub channel_size : ℕ
channel_size = 256

abbrev pub initial : {W : Type 0} → W → State W
initial w = record {
  phase = serving;
  active = [];
  channel = [];
  world = w;
  pending = empty_pending;
  replies = [];
  sent = [];
  panics = 0;
  clean = false;
}

-- After a turn of Run that leaves a channel.
abbrev pub turned : {W : Type 0} → State W → List PublishItem → Turn W → State W
turned s channel t = record s {
  channel = channel;
  world = t.world;
  pending = t.pending;
  replies = s.replies ++ t.replies;
}

module _ (db : Db) (max_size : ℤ) where
  -- Run's turn on an event.
  abbrev pub on_event : State db.World → Event → List Str → Turn db.World
  on_event s e order = handle db max_size s.world s.pending e order

  -- What the process can come to, in whatever order its goroutines run.
  pub data Service (w₀ : db.World) : State db.World → Type 0 where
    starts : Service w₀ (initial w₀)
    -- A request comes in, as long as the server accepts any, and reaches Submit.
    accepts :
        {s : State db.World}
        → Service w₀ s
        → (it : PublishItem) → s.phase ≡ serving
        → Service w₀ (record s { active = it ∷ s.active })
    sends :
        {s : State db.World}
        → Service w₀ s
        → (before after : List PublishItem) (it : PublishItem) → s.active ≡ before ++ it ∷ after
        → is_open s.phase ≡ true
        → length s.channel < channel_size
        → Service w₀ (record s {
          active = before ++ after;
          channel = s.channel ++ it ∷ [];
          sent = s.sent ++ it ∷ [];
        })
    -- A send on the closed channel.
    fails :
        {s : State db.World}
        → Service w₀ s
        → (before after : List PublishItem) (it : PublishItem) → s.active ≡ before ++ it ∷ after
        → is_open s.phase ≡ false
        → Service w₀ (record s { active = before ++ after; panics = suc s.panics })
    -- The context of a request is done before its send.
    gives_up :
        {s : State db.World}
        → Service w₀ s
        → (before after : List PublishItem) (it : PublishItem) → s.active ≡ before ++ it ∷ after
        → Service w₀ (record s { active = before ++ after })
    takes :
        {s : State db.World}
        → Service w₀ s
        → (it : PublishItem) (rest : List PublishItem) (order : List Str) → s.channel ≡ it ∷ rest
        → s.phase ≢ ended
        → Covers order (taken s.pending (received it)).items
        → Service w₀ (turned s rest (on_event s (received it) order))
    ticks :
        {s : State db.World}
        → Service w₀ s
        → (order : List Str) → s.phase ≢ ended
        → Covers order s.pending.items
        → Service w₀ (turned s s.channel (on_event s timer order))
    -- A signal, or the end of the server.
    stops :
        {s : State db.World}
        → Service w₀ s
        → s.phase ≡ serving
        → Service w₀ (record s { phase = stopping })
    -- Shutdown returns, without an error once no handler runs, and main closes the buffer.
    closes :
        {s : State db.World}
        → Service w₀ s
        → (clean : Bool) → s.phase ≡ stopping
        → (clean ≡ true → s.active ≡ [])
        → Service w₀ (record s { phase = closing; clean = clean })
    -- Run finds the channel closed and empty, and returns; main goes on behind bufDone.
    ends :
        {s : State db.World}
        → Service w₀ s
        → (order : List Str) → s.phase ≡ closing
        → s.channel ≡ []
        → Covers order s.pending.items
        → Service w₀ (record (turned s [] (on_event s closed order)) { phase = ended })
