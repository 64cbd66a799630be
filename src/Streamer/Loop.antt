-- ===== src/Streamer/Loop.antt =====
-- readLoop of internal/streamer/streamer.go: the rows are stamped, saved and sent one by one, over and
-- over. The clock and the outcomes of the two selects are read from a tick.
use my_queue.Base.{
  ℕ, zero, suc, ◌+◌, Bool, true, false, List, [], ◌∷◌, ◌++◌, ℤ, Str, Result, ok, err, length, ◌==◌,
  if◌then◌else◌,
}
use my_queue.Streamer.Rows.{TelemetryRow, Codec}
use my_queue.Streamer.File.{Fs, write_csv}

-- One round of the inner loop: the time, whether the row was sent before the context ended, and
-- whether the interval passed before the context ended.
pub record Tick : Type 0 where
  pub now : ℤ
  pub sent : Bool
  pub slept : Bool

pub record Loop (W : Type 0) : Type 0 where
  pub world : W
  pub rows : List TelemetryRow
  pub disk_writable : Bool
  pub index : ℕ

pub record Turn (W : Type 0) : Type 0 where
  pub loop : Loop W
  pub out : List TelemetryRow
  pub going : Bool

abbrev pub at_time : ℤ → TelemetryRow → TelemetryRow
at_time now row = record row { timestamp = now }

-- rows[i].Timestamp = now
unfoldable pub stamp : ℕ → ℤ → List TelemetryRow → List TelemetryRow
stamp i now [] = []
stamp zero now (row ∷ rows) = at_time now row ∷ rows
stamp (suc i) now (row ∷ rows) = row ∷ stamp i now rows

-- rows[i], as a list of one; none behind the end, where the source does not look.
unfoldable pub row_at : ℕ → List TelemetryRow → List TelemetryRow
row_at i [] = []
row_at zero (row ∷ rows) = row ∷ []
row_at (suc i) (row ∷ rows) = row_at i rows

-- The index of the next round: the outer loop starts again behind the last row.
unfoldable pub next_index : ℕ → ℕ → ℕ
next_index i len = if i + 1 == len then 0 else i + 1

module _ (fs : Fs) (codec : Codec) (path : Str) where
  abbrev after_write : Result (Unit {0}) → Bool
  after_write (ok u) = true
  after_write (err e) = false

  -- The best-effort write: after a failed one there is no other.
  unfoldable pub save : fs.World → Bool → List TelemetryRow → fs.World × Bool
  save w false rows = (w, false)
  save w true rows = let (r, w') = write_csv fs codec w path rows in (w', after_write r)

  unfoldable pub loop_turn : Loop fs.World → Tick → Turn fs.World
  loop_turn s tick =
      let rows = stamp s.index tick.now s.rows in
      let (w, writable) = save s.world s.disk_writable rows in
      record {
        loop = record {
          world = w;
          rows = rows;
          disk_writable = writable;
          index = next_index s.index (length rows);
        };
        out = if tick.sent then row_at s.index rows else [];
        going = if tick.sent then tick.slept else false;
      }

  abbrev pub go_on :
      Bool → Turn fs.World → Loop fs.World × List TelemetryRow → Loop fs.World × List TelemetryRow
  go_on true t rest = (rest.0, t.out ++ rest.1)
  go_on false t rest = (t.loop, t.out)

  -- The loop and what it sends, for as many ticks as there are, or until it returns.
  unfoldable pub read_loop : Loop fs.World → List Tick → Loop fs.World × List TelemetryRow
  read_loop s [] = (s, [])
  read_loop s (tick ∷ ticks) =
      let t = loop_turn s tick in let rest = read_loop t.loop ticks in go_on t.going t rest

abbrev pub start_loop : {W : Type 0} → W → List TelemetryRow → Loop W
start_loop w rows = record { world = w; rows = rows; disk_writable = true; index = 0 }
