-- ===== src/Streamer/Cycle.antt =====
-- What the streamer sends.
use mathlib.Core.List.{append-nil}
use native.Mathlib.Nat.{mod-add-mod, mod_self, mod-eq_of_lt, mod-lt}
use my_queue.Base.{
  ℕ, zero, suc, ◌+◌, ◌%◌, ◌<◌, ◌≡◌, refl, sym, ap, ◌∙◌, Bool, true, false, List, [], ◌∷◌, ◌++◌, map,
  arith, ℤ, pos, Str, length, length-map, ◌==◌, if◌then◌else◌, Bool-cases, inl, inr,
}
use my_queue.Streamer.Rows.{TelemetryRow, Codec}
use my_queue.Streamer.File.{Fs}
use my_queue.Streamer.Loop.{
  Tick, Loop, at_time, stamp, row_at, next_index, loop_turn, go_on, read_loop, start_loop,
}

-- The times of the rounds whose row is sent: up to the first round in which the context ends.
abbrev pub add_now : Bool → Bool → ℤ → List ℤ → List ℤ
add_now false slept now nows = []
add_now true false now nows = now ∷ []
add_now true true now nows = now ∷ nows

pub sent_times : List Tick → List ℤ
sent_times [] = []
sent_times (tick ∷ ticks) = add_now tick.sent tick.slept tick.now (sent_times ticks)

-- The rows in turn from round `k` on, each with the time of its round.
pub in_turn : List TelemetryRow → ℕ → List ℤ → List TelemetryRow
in_turn rows k [] = []
in_turn rows k (now ∷ nows) =
    map (at_time now) (row_at (k % length rows) rows) ++ in_turn rows (k + 1) nows

next_index-mod : (k n : ℕ) → 0 < n → next_index (k % n) n ≡ (k + 1) % n
unfolding next_index
next_index-mod k n h = elim (Bool-cases (k % n + 1 == n)) [
  | inl e ↦
      rw (e, ← mod-add-mod k n 1)
        (let full : k % n + 1 ≡ n = ground arith in rw (full, mod_self) refl)
  | inr e ↦ rw (e, ← mod-add-mod k n 1) (sym (mod-eq_of_lt (ground (arith, mod-lt k h))))
]

-- Stamping changes times only.
abbrev timeless : List TelemetryRow → List TelemetryRow
timeless = map (at_time (pos 0))

timeless-stamp :
    (i : ℕ) (now : ℤ) (rows : List TelemetryRow) → timeless (stamp i now rows) ≡ timeless rows
unfolding stamp
timeless-stamp i now [] = refl
timeless-stamp zero now (row ∷ rows) = refl
timeless-stamp (suc i) now (row ∷ rows) = ap (◌∷◌ (at_time (pos 0) row)) (timeless-stamp i now rows)

length-stamp :
    (i : ℕ) (now : ℤ) (rows : List TelemetryRow) → length (stamp i now rows) ≡ length rows
unfolding stamp
length-stamp i now [] = refl
length-stamp zero now (row ∷ rows) = refl
length-stamp (suc i) now (row ∷ rows) = ap suc (length-stamp i now rows)

row_at-stamp :
    (i : ℕ) (now : ℤ) (rows : List TelemetryRow)
    → row_at i (stamp i now rows) ≡ map (at_time now) (row_at i rows)
unfolding stamp row_at
row_at-stamp i now [] = refl
row_at-stamp zero now (row ∷ rows) = refl
row_at-stamp (suc i) now (row ∷ rows) = row_at-stamp i now rows

-- A row with a new time is the same for two lists that differ in times only.
row_at-timeless :
    (i : ℕ) (now : ℤ) (rows : List TelemetryRow)
    → map (at_time now) (row_at i (timeless rows)) ≡ map (at_time now) (row_at i rows)
unfolding row_at
row_at-timeless i now [] = refl
row_at-timeless zero now (row ∷ rows) = refl
row_at-timeless (suc i) now (row ∷ rows) = row_at-timeless i now rows

row_at-same :
    (i : ℕ) (now : ℤ) (rows rows' : List TelemetryRow)
    → timeless rows ≡ timeless rows'
    → map (at_time now) (row_at i rows) ≡ map (at_time now) (row_at i rows')
row_at-same i now rows rows' e =
    sym (row_at-timeless i now rows)
    ∙ ap (λ rs. map (at_time now) (row_at i rs)) e
    ∙ row_at-timeless i now rows'

length-timeless :
    (rows rows' : List TelemetryRow) → timeless rows ≡ timeless rows' → length rows ≡ length rows'
length-timeless rows rows' e =
    sym (length-map (at_time (pos 0)) rows)
    ∙ ap (λ (rs : List TelemetryRow). length rs) e
    ∙ length-map (at_time (pos 0)) rows'

module _ (fs : Fs) (codec : Codec) (path : Str) where
  read_loop-in_turn :
      (ticks : List Tick) (s : Loop fs.World) (rows : List TelemetryRow) (k : ℕ)
      → 0 < length rows
      → s.index ≡ k % length rows
      → timeless s.rows ≡ timeless rows
      → (read_loop fs codec path s ticks).1 ≡ in_turn rows k (sent_times ticks)
  unfolding read_loop sent_times in_turn loop_turn
  read_loop-in_turn [] s rows k h i same = refl
  read_loop-in_turn (tick ∷ ticks) s rows k h i same = ended tick.sent tick.slept _ _ _ (
      read_loop-in_turn ticks (loop_turn fs codec path s tick).loop rows (k + 1) h (wrapped)
        (timeless-stamp s.index tick.now s.rows ∙ same))
    where
      row : List TelemetryRow
      row = map (at_time tick.now) (row_at (k % length rows) rows)

      wrapped : next_index s.index (length (stamp s.index tick.now s.rows)) ≡ (k + 1) % length rows
      wrapped =
          ap (next_index s.index)
            (length-stamp s.index tick.now s.rows ∙ length-timeless s.rows rows same)
          ∙ ap (λ j. next_index j (length rows)) i
          ∙ next_index-mod k (length rows) h

      first : row_at s.index (stamp s.index tick.now s.rows) ≡ row
      first =
          row_at-stamp s.index tick.now s.rows
          ∙ row_at-same s.index tick.now s.rows rows same
          ∙ ap (λ j. map (at_time tick.now) (row_at j rows)) i

      ended :
          (sent slept : Bool) (t : Loop fs.World) (rest : Loop fs.World × List TelemetryRow)
          (nows : List ℤ)
          → rest.1 ≡ in_turn rows (k + 1) nows
          → (go_on fs codec path
              (if sent then slept else false)
              (record {
                loop = t;
                out = if sent then row_at s.index (stamp s.index tick.now s.rows) else [];
                going = if sent then slept else false;
              })
              rest).1
            ≡ in_turn rows k (add_now sent slept tick.now nows)
      ended false slept t rest nows e = refl
      ended true false t rest nows e = first ∙ sym (append-nil row)
      ended true true t rest nows e =
          ap (◌++◌ (row_at s.index (stamp s.index tick.now s.rows))) e
          ∙ ap (λ r. r ++ in_turn rows (k + 1) nows) first

  -- The streamer sends its rows in turn, over and over: the k-th row that it sends, from 0 on, is row
  -- k modulo the number of rows, changed in nothing but its time, which is that of the round. It
  -- sends one in every round up to the first in which the context ends. This holds whether the file
  -- can be written or not.
  pub sends_in_turn :
      (w : fs.World) (row : TelemetryRow) (rows : List TelemetryRow) (ticks : List Tick)
      → (read_loop fs codec path (start_loop w (row ∷ rows)) ticks).1
        ≡ in_turn (row ∷ rows) 0 (sent_times ticks)
  sends_in_turn w row rows ticks =
      read_loop-in_turn ticks (start_loop w (row ∷ rows)) (row ∷ rows) 0 (omega arith)
        (sym (mod-eq_of_lt (omega arith))) refl
