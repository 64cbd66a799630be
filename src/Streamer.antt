-- ===== src/Streamer.antt =====
-- internal/streamer: telemetry rows that are read from a CSV file and published one by one.
pub mod Spaces
pub mod CsvReader
-- pub mod Writer
pub mod CsvWriter
pub mod CsvRoundTrip
pub mod CsvBreaks
pub mod Rows
pub mod RoundTrip
pub mod File
pub mod Rewrite
pub mod Written
pub mod Loop
pub mod Cycle
pub mod Publish
pub mod Posted
