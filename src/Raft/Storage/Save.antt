-- ===== src/Raft/Storage/Save.antt =====
-- raft/storage.go: a storage log that is open, and what is saved to it.
use key_value_store.Prelude.{
  ℕ, List, [], ◌∷◌, map, Bool, true, Option, none, some, take, if◌then◌else◌, Outcome, ok, err,
  io_error, ◌>>=◌, panic, stuck,
}
use key_value_store.Wal.Record.{Record, record_put}
use key_value_store.Wal.Replay.{source, replay_from}
use key_value_store.Wal.Append.{File, Wal, open_wal, append_batch, close, and_then}
use key_value_store.Raft.Types.{LogEntry, HardState, Snapshot}
use key_value_store.Raft.State.{add64}
use key_value_store.Raft.Storage.Records.{
  encode_record, encode_hard_state, encode_log_entry, encode_truncate_from, encode_snapshot_payload,
  record_hard_state, record_log_entry, record_truncate_from, record_snapshot,
}
use key_value_store.Raft.Storage.Recover.{Persisted, nothing, recover, max_seq, sentinel_of}

-- PersistentStorage, and the file at its path where that is no longer the one that it appends to.
pub record Storage : Type 0 where
  pub wal : Wal
  pub seq : ℕ
  pub replaced : Option File

-- The file at the storage's path.
abbrev pub placed : Option File → File → File
placed none f = f
placed (some g) f = g

abbrev pub file_at : Storage → File
file_at s = placed s.replaced s.wal.file

-- The values of the records.
abbrev pub state_value : HardState → List ℕ
state_value hs = encode_record record_hard_state (encode_hard_state hs)

abbrev pub entry_value : LogEntry → List ℕ
entry_value e = encode_record record_log_entry (encode_log_entry e)

abbrev pub truncate_value : ℕ → List ℕ
truncate_value first = encode_record record_truncate_from (encode_truncate_from first)

abbrev pub snapshot_value : Snapshot → List ℕ
snapshot_value s = encode_record record_snapshot (encode_snapshot_payload s)

-- Records with the sequence numbers after n, and the last of these (nextSeq).
unfoldable pub numbered : ℕ → List (List ℕ) → List Record
numbered n [] = []
numbered n (v ∷ vs) =
    record { type = record_put; seq_num = add64 n 1; key = []; value = v } ∷ numbered (add64 n 1) vs

unfoldable pub next_seq : ℕ → List (List ℕ) → ℕ
next_seq n [] = n
next_seq n (v ∷ vs) = next_seq (add64 n 1) vs

-- The records are written in one batch; the sequence numbers are used up whether or not that fails.
unfoldable pub save : List (List ℕ) → Storage → Storage × Outcome (Unit {0})
save vs s =
    let (w, o) = append_batch (numbered s.seq vs) s.wal in
    (record s { wal = w; seq = next_seq s.seq vs }, o)

unfoldable pub save_hard_state : HardState → Storage → Storage × Outcome (Unit {0})
save_hard_state hs s = save (state_value hs ∷ []) s

unfoldable pub save_entries : ℕ → List LogEntry → Storage → Storage × Outcome (Unit {0})
save_entries first [] s = (s, ok tt)
save_entries first (e ∷ es) s = save (truncate_value first ∷ map entry_value (e ∷ es)) s

-- How the file operations of one SaveSnapshot go: opening the temporary file (an old one that could
-- not be removed still has its bytes), renaming it, and opening the log again.
pub record Compaction : Type 0 where
  pub temporary : Outcome File
  pub renames : Bool
  pub reopens : Bool

-- The file that replaces the log, closed, or an error.
unfoldable pub write_compacted :
    HardState → Snapshot → List LogEntry → File → Wal × Outcome (Unit {0})
write_compacted hs snap surviving f =
    and_then (append_batch (numbered 0 (state_value hs ∷ [])) (open_wal f true)) (λ w.
      and_then (append_batch (numbered 1 (snapshot_value snap ∷ [])) w)
        (λ w. and_then (append_batch (numbered 2 (map entry_value surviving)) w) close))

-- From the rename on: the old file is closed, and the new one opened in its place.
unfoldable pub reopen :
    Bool → ℕ → File → Storage → Wal × Outcome (Unit {0}) → Storage × Outcome (Unit {0})
reopen reopens seq f s (old, ok _) =
    if reopens
    then (record { wal = open_wal f true; seq = seq; replaced = none }, ok tt)
    else (record s { wal = old; replaced = some f }, err io_error)
reopen reopens seq f s (old, err e) = (record s { wal = old; replaced = some f }, err e)
reopen reopens seq f s (old, panic) = (record s { wal = old; replaced = some f }, panic)
reopen reopens seq f s (old, stuck) = (record s { wal = old; replaced = some f }, stuck)

unfoldable pub install_compacted :
    Compaction → ℕ → Wal × Outcome (Unit {0}) → Storage → Storage × Outcome (Unit {0})
unfolding reopen
install_compacted c seq (w, ok _) s =
    if c.renames then reopen c.reopens seq w.file s (close s.wal) else (s, err io_error)
install_compacted c seq (w, err e) s = (s, err e)
install_compacted c seq (w, panic) s = (s, panic)
install_compacted c seq (w, stuck) s = (s, stuck)

-- With the temporary file.
unfoldable pub compact_into :
    Outcome File
    → Compaction
    → HardState
    → Snapshot
    → List LogEntry
    → Storage
    → Storage × Outcome (Unit {0})
compact_into (ok f) c hs snap surviving s =
    install_compacted c (next_seq 2 (map entry_value surviving))
      (write_compacted hs snap surviving f) s
compact_into (err e) c hs snap surviving s = (s, err e)
compact_into panic c hs snap surviving s = (s, panic)
compact_into stuck c hs snap surviving s = (s, stuck)

unfoldable pub save_snapshot :
    Compaction → HardState → Snapshot → List LogEntry → Storage → Storage × Outcome (Unit {0})
unfolding compact_into
save_snapshot c hs snap surviving s = compact_into c.temporary c hs snap surviving s

-- Close.
unfoldable pub close_storage : Storage → Storage × Outcome (Unit {0})
close_storage s = let (w, o) = close s.wal in (record s { wal = w }, o)

-- OpenStorage of a file that can be opened. The replay cuts off a torn tail.
unfoldable pub open_storage : File → Outcome (Storage × Persisted × List LogEntry)
open_storage f = do
  r ← replay_from (source f.bytes)
  p ← recover r.records nothing
  ok (
    record {
      wal = open_wal (record f { bytes = take r.size f.bytes }) true;
      seq = max_seq 0 r.records;
      replaced = none;
    },
    p,
    sentinel_of p.snapshot ∷ p.log,
  )
