-- ===== src/Writer.antt =====
-- The write side of the queue: internal/mqwriter and cmd/mqwriter.
pub mod Hash
pub mod Share
pub mod Store
pub mod Buffer
pub mod Replies
pub mod Run
pub mod Durable
pub mod Service
pub mod Answered
pub mod Acknowledged
pub mod Metrics
pub mod Bounded
pub mod Rows
pub mod Atomic
pub mod Retries
pub mod Http
