-- ===== src/Engine.antt =====
-- engine/engine.go: the store over a write-ahead log, memtables and sorted tables.
pub mod State
pub mod Layers
pub mod Write
pub mod Flush
pub mod Open
pub mod Invariant
pub mod Steps
pub mod Runs
pub mod Discovery
pub mod Replayed
pub mod Snapshot
pub mod Hazards
pub mod Stale
pub mod OnDisk
pub mod Recovery
