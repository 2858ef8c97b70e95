-- ===== src/Raft/Storage.antt =====
-- raft/storage.go and raft/node.go: what a node keeps on disk.
pub mod Records
pub mod Recover
pub mod Save
pub mod Items
pub mod Crash
pub mod Compact
