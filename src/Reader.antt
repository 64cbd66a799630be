-- ===== src/Reader.antt =====
-- The read side of the queue: internal/mqreader and cmd/mqreader.
pub mod Store
pub mod Partition
pub mod Database
pub mod Served
pub mod Exclusive
pub mod Execution
pub mod Delivery
pub mod Signal
pub mod Draining
pub mod Reached
pub mod Ending
pub mod Stop
pub mod Metrics
pub mod Leasing
pub mod Expiry
pub mod Order
pub mod Reload
pub mod Http
pub mod Endpoint
