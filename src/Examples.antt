-- ===== src/Examples.antt =====
-- The theorems at concrete inputs, and tests of the definitions.
mod Nodes
mod Consensus
mod Logs
mod Codecs
mod Storage
mod Memtables
mod Engines
mod Snapshots
mod Tables
mod Stale
