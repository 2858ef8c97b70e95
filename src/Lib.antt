-- ===== src/Lib.antt =====
-- A verification library for the key-value store: a log-structured storage engine that is replicated
-- by Raft. The server proposes each write to the consensus state machine (raft/); the node persists
-- its state in a write-ahead log (wal/) before it sends its messages (transport/); a committed entry
-- is applied to the engine (engine/), which keeps recent writes in a memtable (memtable/) with a log
-- of their own and flushes them to sorted tables (sstable/).
--
-- What models what:
--
--   Prelude          shared types, tests on ℕ, lists over the native ℕ, and the results of fallible code
--   Bytes            the little-endian integers of encoding/binary, and slices of byte slices
--   Wal.Checksum     hash/crc32 with the Castagnoli table, bit by bit
--   Wal.Record       wal/record.go: Record, encode, decodePayload
--   Wal.Replay       wal/replay.go: replayFrom, truncateAndReturn, io.ReadFull on a source with faults
--   Wal.Append       wal/wal.go: Open, Append, AppendBatch, Sync, Close, on a file that may fail
--   Transport.Codec  transport/codec.go: encodeMessage, decodeMessage
--   Transport.Framing     transport/codec.go: writeFramed, readFramed
--   Transport.Connection  transport/transport.go: the critical section of Send, the loop of handleConn
--   Server.Command   server/command.go: encodeCommand, decodeCommand
--   Bytes.Order      bytes.Compare and bytes.Equal
--   SortSearch       sort.Search
--   Memtable.SkipList   memtable/skiplist.go: put, get, randomLevel
--   Memtable.Entries    memtable/iterator.go: entrySnapshot
--   Memtable.Table      memtable/memtable.go: New, Put, Delete, Get, Len
--   Memtable.Iterator   memtable/iterator.go: NewIterator, SeekToFirst, Seek, Valid, Next, Key to SeqNum
--   Engine.State     engine/engine.go: Engine and its interfaces, Get, Stats, Close
--   Engine.Write     engine/engine.go: ApplyBatch, Put, Delete, startFlushLocked
--   Engine.Flush     engine/engine.go: Flush, runFlush, writeSSTableFromMemtable
--   Engine.Open      engine/engine.go: Open, discoverSSTables, discoverWALs, readRestoreMarker
--   Engine.Snapshot  engine/engine.go: Snapshot, RestoreSnapshot, decodeSnapshotEntries,
--                    writeRestoreMarkerAtomically
--   SsTable.Varint   AppendUvarint and Uvarint of encoding/binary
--   SsTable.Block    sstable/block.go, and the loop over the entries of a block
--   SsTable.Bloom    sstable/bloom.go
--   SsTable.Cache    sstable/cache.go
--   Raft.Types       raft/message.go
--   Raft.State       raft/raft.go: Config.validate, New, restoreState, Status, Ready, Advance
--   Raft.Log         raft/raft.go: logPos, termAt, Entries, CreateSnapshot
--   Raft.Replication raft/raft.go: send, sendAppendEntries, sendInstallSnapshot, sendHeartbeats,
--                    maybeAdvanceCommitIndex, ProposeBatch
--   Raft.Election    raft/raft.go: becomeFollower to becomeLeader, the votes and the pre-votes
--   Raft.ReadIndex   raft/raft.go: RequestReadIndex, ackReadIndex
--   Raft.Append      raft/raft.go: handleAppendEntries, handleInstallSnapshot and their responses
--   Raft.Step        raft/raft.go: Tick, Step
--   Raft.Storage.Records  raft/storage.go: the payloads of the four kinds of records
--   Raft.Storage.Recover  raft/storage.go: the loop of OpenStorage over the records
--   Raft.Storage.Save     raft/storage.go: SaveHardState, SaveEntries, SaveSnapshot, Close, OpenStorage
--   Raft.Node             raft/node.go: OpenNode, Persist
--
-- The other modules under these are proofs; Examples holds concrete runs.
--
-- A method on *Raft is a function on the record Raft. A panic, an error and a result are the three
-- outcomes of a handler (Outcome); `stuck` marks fuel that has run out. A uint64 is an ℕ whose sums
-- and differences wrap at 2 ^ 64; the counters of type int, which count ticks, peers and bytes, are
-- plain ℕ. A byte slice is a list of ℕ, and an encoder cuts what it writes to the width of its field.
--
-- The nodes of a skip list stand at numbered addresses, 0 for nil and 1 for the head. The steps of an
-- engine are its critical sections: a write, the start of a flush, the installation of its table, and
-- the removal of an old log. A run (Engine.Runs) puts these in any order that the lock and the wait for
-- a flush allow, except that it removes the oldest log first and that its flushes succeed. The code
-- forces neither; what it does then is in Engine.Stale and Engine.Hazards. A call that waits for a
-- flush is the step that it takes afterwards.
--
-- Fuel: the replay loop of a file gets one round for each byte, and one more; a round reads a header
-- of eight bytes at least. The scan of the commit rule gets as many rounds as there are entries above
-- the commit index, which is the bound of its loop. The loop that reads a connection gets a round for
-- each byte, and one more; a frame has four bytes at least.
--
-- A search in a skip list, on one level, and the copy for an iterator get a step for each node that
-- was ever made, and visit each at most once. The binary search gets a round for each index. The loop
-- that evicts blocks gets a round for each block, and those that decode a block, an index or a snapshot one
-- for each byte, and one more.
--
-- Parameters: the random generator of a node is the stream of its draws. A file that is read back is
-- its bytes, together with the point after which reads fail, if they do, and whether a truncation
-- succeeds. A file that is written to is its bytes, together with the point after which writes fail,
-- and whether Sync and Close succeed. How the temporary file of a compaction opens, is renamed and
-- opens again is a parameter of SaveSnapshot. A connection is a stream of bytes.
-- The numbers of bits and hashes that the formulas of a Bloom filter give over floating-point numbers
-- are the record Sizing.
-- The files of a directory are their numbers with how each table opens and the
-- bytes of each log. A table of the engine is the interface sstableReader: what Get returns for each
-- key; a table that is written is the interface sstableWriter. The order in which Go walks the keys of
-- a map is a function on lists, and how the files of a restore turn out is the record NewFiles.
--
-- Not modelled: the writer and the reader of the tables, the rest of the server, the
-- transport's tables of connections and its sockets, the HTTP interface, the command line, and the
-- benchmarks.
pub mod Prelude
pub mod Bytes
pub mod SortSearch
pub mod SsTable
pub mod Wal
pub mod Memtable
pub mod Engine
pub mod Raft
pub mod Server
pub mod Transport
mod Examples
