-- ===== src/SsTable.antt =====
-- sstable/: the format of a table, and the cache of blocks.
pub mod Varint
pub mod Block
pub mod Cache
pub mod Bloom
