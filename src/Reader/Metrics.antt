-- ===== src/Reader/Metrics.antt =====
-- internal/mqreader: BufferUtilization of partition.go, and the PrometheusMetrics endpoint of
-- handler.go. A utilization is a ratio; the text of a float64 is a parameter.
use my_queue.Base.{
  ℕ, zero, suc, ◌<◌, ◌≤◌, List, [], ◌∷◌, ◌++◌, arith, ℤ, pos, negsuc, pos_part, length, Str, bytes,
}
use my_queue.Reader.Store.{Db}
use my_queue.Reader.Database.{DbLaws}
use my_queue.Reader.Partition.{Config, Loop, Output, util, util_reply, running, handle, on_util}
use my_queue.Reader.Execution.{Reach}
use my_queue.Reader.Reached.{exclusive}
use my_queue.Reader.Http.{Wait, arrived, cancelled}

-- The send of the reply channel to the partition, and the wait for what it replies.
unfoldable pub buffer_utilization : Wait (Unit {0}) → Wait (ℕ × ℕ) → ℕ × ℕ
buffer_utilization (cancelled e) reply = (0, 1)
buffer_utilization (arrived u) (cancelled e) = (0, 1)
buffer_utilization (arrived u) (arrived v) = v

-- What the partition puts into the channel.
abbrev pub util_replies : List Output → Wait (ℕ × ℕ) → Wait (ℕ × ℕ)
util_replies [] reply = reply
util_replies (util_reply n d ∷ outs) reply = arrived (n, d)
util_replies (o ∷ outs) reply = util_replies outs reply

unfoldable pub prometheus_metrics : (ℕ × ℕ → Str) → ℕ × ℕ → Str
prometheus_metrics format_float utilization =
    bytes "# HELP mqreader_buffer_utilization Ratio of buffered messages to batch size (0.0-1.0)\n"
    ++ (bytes "# TYPE mqreader_buffer_utilization gauge\n"
        ++ (bytes "mqreader_buffer_utilization " ++ (format_float utilization ++ bytes "\n")))

-- A number of 0.0 to 1.0.
abbrev pub IsRatio : ℕ × ℕ → Type 0
IsRatio u = (0 < u.1) × (u.0 ≤ u.1)

module _ (db : Db) (laws : DbLaws db) (cfg : Config) where
  -- The metric of the reader is a ratio of 0.0 to 1.0, as its help text says, in every execution,
  -- whatever the batch size, and also if the request is cut off before the partition answers it.
  pub buffer_utilization-IsRatio :
      {w₀ w : db.World} {s : Loop} {acked : List ℕ} (sent : Wait (Unit {0})) (e : Str)
      → Reach db laws cfg w₀ w s acked running
      → IsRatio
          (buffer_utilization sent (util_replies (handle db cfg w s util).outputs (cancelled e)))
  unfolding buffer_utilization handle on_util
  buffer_utilization-IsRatio (cancelled x) e r = (omega arith, omega arith)
  buffer_utilization-IsRatio {s = s} (arrived u) e r =
      sized cfg.batch_size (exclusive db laws cfg r).1
    where
      sized :
          (n : ℤ)
          → length s.buffer ≤ pos_part n
          → IsRatio (
              buffer_utilization (arrived u) (
                util_replies
                  (elim n [
                    | pos zero ↦ util_reply 0 1
                    | pos (suc n) ↦ util_reply (length s.buffer) (suc n)
                    | negsuc n ↦ util_reply 0 1
                  ]
                    ∷ [])
                  (cancelled e)))
      sized (pos zero) h = (omega arith, omega arith)
      sized (pos (suc n)) h = (omega arith, h)
      sized (negsuc n) h = (omega arith, omega arith)
