-- ===== src/Process.antt =====
-- What the processes of cmd have in common: their probes and their life.
pub mod Probes
pub mod Servers
