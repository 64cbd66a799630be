-- ===== src/Tests/Streamer.antt =====
-- The streamer's CSV files, by example, and its theorems on a file of two rows.
use my_queue.Base.{
  ◌≡◌, ◌≢◌, refl, sym, ap, ◌∙◌, true, false, Option, none, some, List, [], ◌∷◌, ◌++◌, arith, pos,
  Str, str_eq, str_eq→eq, str_eq_self, bytes, ok, err, Bool-cases, inl, inr, if◌then◌else◌,
}
use my_queue.Streamer.CsvReader.{
  bare_quote, quote, eof, failed, next, read_records, drop_cr, run, step, step_field, step_text,
  step_bare,
}
use my_queue.Streamer.Spaces.{space_len, space_len_back}
use my_queue.Streamer.Rows.{TelemetryRow, loaded, read_csv, csv_text}
use my_queue.Streamer.RoundTrip.{IsPlain, IsStorable, read_csv-csv_text}
use my_queue.Streamer.File.{Fs, write_csv}
use my_queue.Streamer.Rewrite.{FsLaws, IsReplaced, write_csv-IsReplaced}
use my_queue.Streamer.Written.{IsWritable, write_csv_writes}
use my_queue.Streamer.Loop.{Tick}
use my_queue.Streamer.Publish.{Json}
use my_queue.Streamer.Publish
use my_queue.Tests.Codec.{test_codec, test_codec_laws}

three_records :
    read_records (bytes "a, b ,\"c,\"\"d\"\r\n\n\"x\ny\",\n  \n")
    ≡ next
        (bytes "a" ∷ bytes "b " ∷ bytes "c,\"d" ∷ [])
        (next (bytes "x\ny" ∷ [] ∷ []) (next ([] ∷ []) eof))
unfolding read_records drop_cr run step step_field step_text step_bare space_len
three_records = refl

stray_quote : read_records (bytes "a\"b\n") ≡ failed bare_quote
unfolding read_records drop_cr run step step_field step_text step_bare space_len
stray_quote = refl

open_quote : read_records (bytes "\"ab\n") ≡ failed quote
unfolding read_records drop_cr run step step_field step_text step_bare space_len
open_quote = refl

abbrev test_row : TelemetryRow
test_row = record {
  timestamp = pos 5;
  metric_name = bytes "temp";
  gpu_id = bytes "0";
  device = [];
  uuid = bytes "GPU-1";
  model_name = [];
  hostname = [];
  container = [];
  pod = [];
  namespace = [];
  value = 3;
  labels_raw = bytes "a=\"b\",c";
}

nil-IsPlain : IsPlain []
unfolding space_len space_len_back
nil-IsPlain = ((refl, refl), tt)

test_row-IsStorable : IsStorable test_row
unfolding space_len space_len_back
test_row-IsStorable = record {
  timestamp = (omega arith, omega arith);
  metric_name = ((refl, refl), ((λ e. cc), ((λ e. cc), ((λ e. cc), ((λ e. cc), tt)))));
  gpu_id = ((refl, refl), ((λ e. cc), tt));
  device = nil-IsPlain;
  uuid = ((refl, refl), ((λ e. cc), ((λ e. cc), ((λ e. cc), ((λ e. cc), ((λ e. cc), tt))))));
  model_name = nil-IsPlain;
  hostname = nil-IsPlain;
  container = nil-IsPlain;
  pod = nil-IsPlain;
  namespace = nil-IsPlain;
  value = (omega arith, (λ e. cc));
  labels_raw = (
    (refl, refl),
    ((λ e. cc), ((λ e. cc), ((λ e. cc), ((λ e. cc), ((λ e. cc), ((λ e. cc), ((λ e. cc), tt))))))),
  );
}

read_csv-csv_text_example :
    read_csv test_codec (ok (csv_text test_codec (test_row ∷ []))) ≡ loaded (test_row ∷ [])
read_csv-csv_text_example =
    read_csv-csv_text test_codec test_codec_laws test_row [] (test_row-IsStorable, tt)

-- Files in memory.
abbrev Files : Type 0
Files = Str → Option Str

abbrev with_file : Str → Option Str → Files → Files
with_file p o w q = if str_eq p q then o else w q

abbrev longer : Option Str → Str → Option Str
longer none b = none
longer (some s) b = some (s ++ b)

abbrev test_fs : Fs
test_fs = record {
  World = Files;
  create = λ w p. (ok tt, with_file p (some []) w);
  append = λ w p b. (ok tt, with_file p (longer (w p) b) w);
  flush = λ w p. (ok tt, w);
  close = λ w p. (ok tt, w);
  remove = λ w p. with_file p none w;
  rename = λ w p q. (ok tt, with_file q (w p) (with_file p none w));
}

with_file-same : (p : Str) (o : Option Str) (w : Files) → with_file p o w p ≡ o
with_file-same p o w = rw (str_eq_self p) refl

with_file-other : (p q : Str) (o : Option Str) (w : Files) → q ≢ p → with_file p o w q ≡ w q
with_file-other p q o w n = elim (Bool-cases (str_eq p q)) [
  | inl e ↦ absurd (n (sym (str_eq→eq p q e)))
  | inr e ↦ rw e refl
]

never-err : {u : Unit {0}} {e : Str} → ok u ≡ err e → ⊥
never-err h = cc

abbrev test_fs_laws : FsLaws test_fs
test_fs_laws = record {
  content = λ w p. w p;
  create-other = λ w p q n. with_file-other p q (some []) w n;
  create-ok = λ w p u e. with_file-same p (some []) w;
  append-other = λ w p b q n. with_file-other p q (longer (w p) b) w n;
  append-ok = λ w p b s u h e. with_file-same p (longer (w p) b) w ∙ ap (λ o. longer o b) h;
  flush-other = λ w p q n. refl;
  flush-ok = λ w p u e. refl;
  close-other = λ w p q n. refl;
  close-ok = λ w p u e. refl;
  remove-other = λ w p q n. with_file-other p q none w n;
  rename-ok = λ w p q u e. with_file-same q (w p) (with_file p none w);
  rename-err = λ w p q e h. absurd (never-err h);
}

-- No file.
abbrev no_files : Files
no_files p = none

write_csv-IsReplaced_example :
    IsReplaced test_fs test_fs_laws test_codec
      (bytes "a.csv")
      none
      (csv_text test_codec (test_row ∷ []))
      (write_csv test_fs test_codec no_files (bytes "a.csv") (test_row ∷ []))
write_csv-IsReplaced_example =
    write_csv-IsReplaced test_fs test_fs_laws test_codec no_files (bytes "a.csv") (test_row ∷ [])

abbrev test_ticks : List Tick
test_ticks =
    record { now = pos 7; sent = true; slept = true }
    ∷ record { now = pos 8; sent = true; slept = false }
    ∷ []

abbrev joined : List Str → Str
joined [] = []
joined (m ∷ ms) = m ++ joined ms

-- A payload is encoded as its metric, a request as its messages.
abbrev test_json : Json
test_json = record {
  marshal_payload = λ p. ok p.metric_name;
  marshal_request = λ r. ok (joined r.messages);
  decode = λ body. ok (record { accepted = 1; duplicates = 0 });
}

test_fs-IsWritable : IsWritable test_fs
test_fs-IsWritable = record {
  creates = λ w p. refl;
  appends = λ w p b. refl;
  flushes = λ w p. refl;
  closes = λ w p. refl;
  renames = λ w p q. refl;
}

write_csv_writes_example :
    let t = write_csv test_fs test_codec no_files (bytes "a.csv") (test_row ∷ []) in
    (t.0 ≡ ok tt) × (t.1 (bytes "a.csv") ≡ some (csv_text test_codec (test_row ∷ [])))
write_csv_writes_example =
    write_csv_writes test_fs test_fs_laws test_codec test_fs-IsWritable no_files (bytes "a.csv")
      (test_row ∷ [])
