-- ===== src/Tests.antt =====
-- Databases in memory that have the documented behaviour, and the theorems on small inputs.
mod Rows
mod Reader
mod Writer
mod Controller
mod Collector
mod Client
mod Gateway
mod Codec
mod Streamer
mod Wire
mod Yaml
mod Pipeline
mod Process
mod Database
