-- ===== src/Pipeline.antt =====
-- The services together: a reader, the collectors that it serves, and the two tables.
pub mod Ledger
pub mod Traced
pub mod Flow
pub mod NothingLost
pub mod System
pub mod Fields
pub mod Wire
pub mod Delivered
pub mod Defaults
