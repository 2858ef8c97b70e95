-- ===== src/Memtable.antt =====
-- memtable/: the sorted buffer of recent writes.
pub mod SkipList
pub mod Entries
pub mod Refine
pub mod Grown
pub mod Put
pub mod Table
pub mod Iterator
