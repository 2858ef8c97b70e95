-- ===== src/Wal/Replay.antt =====
-- wal/replay.go: reading a log file back after a crash.
pub mod Rounds
pub mod TornTail
use key_value_store.Prelude.{
  ℕ, zero, suc, ◌+◌, ◌-◌, List, [], ◌∷◌, ◌++◌, Bool, true, false, ◌&&◌, Option, none, some, length,
  take, drop, leb, ltb, ◌==◌, if◌then◌else◌, Outcome, ok, err, panic, stuck, io_error, ◌>>=◌,
}
use key_value_store.Bytes.{read_le}
use key_value_store.Wal.Checksum.{checksum}
use key_value_store.Wal.Record.{Record, header_size, decode_payload}

-- replaySource: the bytes not read yet, after how many of them a Read fails (if one does), and
-- whether Truncate succeeds.
pub record Source : Type 0 where
  pub unread : List ℕ
  pub fault : Option ℕ
  pub truncates : Bool

-- How io.ReadFull ends: its buffer full, io.EOF, io.ErrUnexpectedEOF, or another error.
pub data ReadEnd : Type 0 where
  full eof unexpected_eof failed : ReadEnd

read_clean : ℕ → Source → List ℕ × ReadEnd × Source
read_clean n s =
    if leb n (length s.unread)
    then (take n s.unread, full, record s { unread = drop n s.unread })
    else (s.unread, if length s.unread == 0 then eof else unexpected_eof, record s { unread = [] })

read_faulty : ℕ → ℕ → Source → List ℕ × ReadEnd × Source
read_faulty k n s =
    if ltb k n && leb k (length s.unread)
    then (take k s.unread, failed, record s { unread = drop k s.unread; fault = some 0 })
    else read_clean n (record s { fault = some (k - n) })

-- io.ReadFull into a buffer of n bytes: what was read, and how it ended.
unfoldable pub read_full : ℕ → Source → List ℕ × ReadEnd × Source
unfolding read_clean read_faulty
read_full n s = elim s.fault [ none ↦ read_clean n s | some k ↦ read_faulty k n s ]

-- RecoveryStats.
pub record RecoveryStats : Type 0 where
  pub records_recovered : ℕ
  pub torn_write_truncated : Bool
  pub bytes_truncated : ℕ  -- int64

-- The records, the statistics, and the size that the file is left with.
pub record Recovery : Type 0 where
  pub records : List Record
  pub stats : RecoveryStats
  pub size : ℕ

unfoldable pub truncate_and_return : Source → List Record → ℕ → ℕ → Outcome Recovery
truncate_and_return f records valid_offset file_size =
    let truncated = file_size - valid_offset in
    if f.truncates
    then ok (record {
      records = records;
      stats = record {
        records_recovered = length records;
        torn_write_truncated = ltb 0 truncated;
        bytes_truncated = truncated;
      };
      size = valid_offset;
    })
    else err io_error

-- The clean end of the file: nothing is truncated.
unfoldable pub clean_end : List Record → ℕ → Outcome Recovery
clean_end records file_size = ok (record {
  records = records;
  stats = record {
    records_recovered = length records;
    torn_write_truncated = false;
    bytes_truncated = 0;
  };
  size = file_size;
})

-- One round of the loop: it ends the replay, or has read a record of so many payload bytes.
pub data Round : Type 0 where
  return : Outcome Recovery → Round
  continue : Record → ℕ → Source → Round

accept : Source → List Record → ℕ → ℕ → ℕ → Outcome Record → Round
accept f records offset file_size len (ok rec) = continue rec len f
accept f records offset file_size len (err e) =
    return (truncate_and_return f records offset file_size)
accept f records offset file_size len panic = return panic
accept f records offset file_size len stuck = return stuck

-- After a payload was read. A short read and a failed one are treated alike.
read_payload : ℕ → ℕ → List Record → ℕ → ℕ → List ℕ × ReadEnd × Source → Round
read_payload crc len records offset file_size (bytes, full, f) =
    if checksum bytes == crc
    then accept f records offset file_size len (decode_payload bytes)
    else return (truncate_and_return f records offset file_size)
read_payload crc len records offset file_size (bytes, _, f) =
    return (truncate_and_return f records offset file_size)

-- The sanity bound: `length > fileSize - offset - headerSize`, over the integers.
read_body : Source → List Record → ℕ → ℕ → ℕ → ℕ → Round
read_body f records offset file_size crc len =
    if ltb file_size (offset + header_size + len)
    then return (truncate_and_return f records offset file_size)
    else read_payload crc len records offset file_size (read_full len f)

-- `header[0:4]` and `header[4:8]`.
abbrev pub parse_header : List ℕ → Outcome (ℕ × ℕ)
parse_header bytes = do (crc, rest) ← read_le 4 bytes; (len, rest) ← read_le 4 rest; ok (crc, len)

with_header : Source → List Record → ℕ → ℕ → Outcome (ℕ × ℕ) → Round
with_header f records offset file_size (ok (crc, len)) =
    read_body f records offset file_size crc len
with_header f records offset file_size (err e) = return (err e)
with_header f records offset file_size panic = return panic
with_header f records offset file_size stuck = return stuck

read_header : List Record → ℕ → ℕ → List ℕ × ReadEnd × Source → Round
read_header records offset file_size (bytes, full, f) =
    with_header f records offset file_size (parse_header bytes)
read_header records offset file_size (bytes, eof, f) = return (clean_end records file_size)
read_header records offset file_size (bytes, unexpected_eof, f) =
    return (truncate_and_return f records offset file_size)
read_header records offset file_size (bytes, failed, f) =
    if ltb 0 (length bytes) && ltb (length bytes) header_size
    then return (truncate_and_return f records offset file_size)
    else return (err io_error)

unfoldable pub replay_round : Source → List Record → ℕ → ℕ → Round
unfolding read_header with_header read_body read_payload accept
replay_round f records offset file_size =
    read_header records offset file_size (read_full header_size f)

-- The `for` loop of replayFrom. Each round reads a header at least.
unfoldable pub replay_loop : ℕ → Source → List Record → ℕ → ℕ → Outcome Recovery
replay_loop zero f records offset file_size = stuck
replay_loop (suc fuel) f records offset file_size = elim (replay_round f records offset file_size) [
  | return r ↦ r
  | continue rec len f' ↦
      replay_loop fuel f' (records ++ (rec ∷ [])) (offset + header_size + len) file_size
]

-- replayFrom(f, fileSize), where the size is that of the file. A byte for each round is enough.
unfoldable pub replay_from : Source → Outcome Recovery
replay_from f = replay_loop (suc (length f.unread)) f [] 0 (length f.unread)

-- Replay(path) of a file that is there: its bytes, with no fault.
abbrev pub source : List ℕ → Source
source bytes = record { unread = bytes; fault = none; truncates = true }
