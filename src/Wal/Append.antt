-- ===== src/Wal/Append.antt =====
-- wal/wal.go: appending to a log file. The lock makes every method one step.
pub mod Cut
pub mod Crash
pub mod Closing
use key_value_store.Prelude.{
  ℕ, ◌-◌, List, [], ◌∷◌, ◌++◌, Bool, true, false, Option, none, some, length, take, drop, ltb, max,
  if◌then◌else◌, Outcome, ok, err, panic, stuck, closed_log, io_error,
}
use key_value_store.Wal.Record.{Record, encode}

-- walFile: its bytes, how many of them are on the disk for certain, after how many more bytes a
-- Write fails (if one does), and whether Sync and Close succeed.
pub record File : Type 0 where
  pub bytes : List ℕ
  pub synced : ℕ
  pub fault : Option ℕ
  pub syncs : Bool
  pub closes : Bool

-- `broken` is the error that a bufio.Writer keeps once a write of its buffer has failed.
pub record Wal : Type 0 where
  pub file : File
  pub buffer : List ℕ
  pub broken : Bool
  pub sync_on_write : Bool
  pub closed : Bool
  pub last_seq : ℕ

-- Open, of a file that could be opened.
unfoldable pub open_wal : File → Bool → Wal
open_wal f sync_on_write = record {
  file = f;
  buffer = [];
  broken = false;
  sync_on_write = sync_on_write;
  closed = false;
  last_seq = 0;
}

-- `if err := ...; err != nil { return err }`, and what follows it.
abbrev pub and_then {ℓ} :
    {S : Type ℓ} → S × Outcome (Unit {0}) → (S → S × Outcome (Unit {0})) → S × Outcome (Unit {0})
and_then (w, ok _) rest = rest w
and_then (w, err e) rest = (w, err e)
and_then (w, panic) rest = (w, panic)
and_then (w, stuck) rest = (w, stuck)

-- The loop of AppendBatch. A buffer that fills up is written out early in Go, the bytes and their
-- order being those of the flush that ends the batch.
unfoldable pub write_records : List Record → Wal → Wal × Outcome (Unit {0})
write_records [] w = (w, ok tt)
write_records (r ∷ rs) w =
    let rest = write_records rs (record w {
      buffer = w.buffer ++ encode r;
      last_seq = if ltb w.last_seq r.seq_num then r.seq_num else w.last_seq;
    }) in
    if w.broken then (w, err io_error) else rest

-- The buffer goes to the file. A write that fails has written a part.
unfoldable pub write_buffer : Option ℕ → Wal → Wal × Outcome (Unit {0})
write_buffer none w =
    (record w { file = record w.file { bytes = w.file.bytes ++ w.buffer }; buffer = [] }, ok tt)
write_buffer (some k) w =
    if ltb k (length w.buffer)
    then (
      record w {
        file = record w.file { bytes = w.file.bytes ++ take k w.buffer; fault = some 0 };
        buffer = drop k w.buffer;
        broken = true;
      },
      err io_error,
    )
    else (
      record w {
        file = record w.file {
          bytes = w.file.bytes ++ w.buffer;
          fault = some (k - length w.buffer);
        };
        buffer = [];
      },
      ok tt,
    )

-- `w.writer.Flush()`.
unfoldable pub flush : Wal → Wal × Outcome (Unit {0})
flush w = if w.broken then (w, err io_error) else write_buffer w.file.fault w

-- `w.file.Sync()`.
unfoldable pub sync_file : Wal → Wal × Outcome (Unit {0})
sync_file w =
    if w.file.syncs
    then (record w { file = record w.file { synced = length w.file.bytes } }, ok tt)
    else (w, err io_error)

unfoldable pub append_batch : List Record → Wal → Wal × Outcome (Unit {0})
append_batch [] w = (w, ok tt)
append_batch (r ∷ rs) w =
    if w.closed
    then (w, err closed_log)
    else and_then (write_records (r ∷ rs) w)
        (λ w. and_then (flush w) (λ w. if w.sync_on_write then sync_file w else (w, ok tt)))

unfoldable pub append : Record → Wal → Wal × Outcome (Unit {0})
append r w = append_batch (r ∷ []) w

unfoldable pub sync : Wal → Wal × Outcome (Unit {0})
sync w = if w.closed then (w, ok tt) else and_then (flush w) sync_file

unfoldable pub close_file : Wal → Wal × Outcome (Unit {0})
close_file w = (w, if w.file.closes then ok tt else err io_error)

-- The file is closed after an error too, which leaves the error as it is.
unfoldable pub close : Wal → Wal × Outcome (Unit {0})
close w =
    if w.closed
    then (w, ok tt)
    else and_then (flush (record w { closed = true })) (λ w. and_then (sync_file w) close_file)
