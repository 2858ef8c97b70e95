-- ===== src/Wal.antt =====
-- The write-ahead log, wal/: records and their framing, replay after a crash, and appending.
pub mod Checksum
pub mod Record
pub mod Replay
pub mod Append
