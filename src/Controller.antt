-- ===== src/Controller.antt =====
-- The partition controller, and how the readers take up what it writes: cmd/partition-controller
-- and cmd/mqreader.
pub mod Ranges
pub mod Coverage
pub mod Assigned
pub mod Load
pub mod Reconcile
pub mod Watch
pub mod Settings
