-- ===== src/Writer/Metrics.antt =====
-- internal/mqwriter: BufferUtilization of buffer.go, and the MetricsHandler and PrometheusMetrics
-- endpoints of handler.go. A utilization is a ratio; the texts of a float64 are parameters.
use my_queue.Base.{
  ℕ, ◌≤◌, ap, List, [], ◌∷◌, ◌++◌, arith, ℤ, length, length-append, Str, bytes, Assoc,
}
use my_queue.Writer.Store.{Db}
use my_queue.Writer.Buffer.{PublishItem}
use my_queue.Writer.Service.{
  channel_size, State, Service, starts, accepts, sends, fails, gives_up, takes, ticks, stops,
  closes, ends,
}

-- What waits in the channel, to what it can hold.
unfoldable pub buffer_utilization : List PublishItem → ℕ × ℕ
buffer_utilization channel = (length channel, channel_size)

-- The map that is encoded as JSON.
unfoldable pub metrics_handler : List PublishItem → Assoc (ℕ × ℕ)
unfolding buffer_utilization
metrics_handler channel = (bytes "buffer_utilization", buffer_utilization channel) ∷ []

unfoldable pub prometheus_metrics : (ℕ × ℕ → Str) → List PublishItem → Str
unfolding buffer_utilization
prometheus_metrics format_float channel =
    bytes "# HELP mqwriter_buffer_utilization Ratio of pending items in write buffer (0.0-1.0)\n"
    ++ (bytes "# TYPE mqwriter_buffer_utilization gauge\n"
        ++ (bytes "mqwriter_buffer_utilization "
            ++ (format_float (buffer_utilization channel) ++ bytes "\n")))

module _ (db : Db) (max_size : ℤ) where
  -- In every execution, the buffer's utilization is a ratio of 0.0 to 1.0, as the help text of the
  -- metric says: the channel never holds more requests than it has room for.
  pub buffer_utilization_bounds :
      {w₀ : db.World} {s : State db.World}
      → Service db max_size w₀ s
      → (buffer_utilization s.channel).0 ≤ (buffer_utilization s.channel).1
  unfolding buffer_utilization
  buffer_utilization_bounds starts = omega arith
  buffer_utilization_bounds (accepts x it e) = buffer_utilization_bounds x
  buffer_utilization_bounds (sends {s = s} x before after it e usable n) =
      omega (arith, n, length-append s.channel (it ∷ []))
  buffer_utilization_bounds (fails x before after it e shut) = buffer_utilization_bounds x
  buffer_utilization_bounds (gives_up x before after it e) = buffer_utilization_bounds x
  buffer_utilization_bounds (takes x it rest order e on h) =
      omega (arith, buffer_utilization_bounds x, ap (λ (xs : List PublishItem). length xs) e)
  buffer_utilization_bounds (ticks x order on h) = buffer_utilization_bounds x
  buffer_utilization_bounds (stops x e) = buffer_utilization_bounds x
  buffer_utilization_bounds (closes x clean e none) = buffer_utilization_bounds x
  buffer_utilization_bounds (ends x order e empty h) = omega arith
