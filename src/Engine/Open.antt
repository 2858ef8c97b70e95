-- ===== src/Engine/Open.antt =====
-- engine/engine.go: Open, discoverSSTables, discoverWALs and readRestoreMarker.
use mathlib.Core.List.{reverse}
use key_value_store.Prelude.{
  ℕ, ◌+◌, ◌%◌, ◌^◌, List, [], ◌∷◌, map, Bool, false, Option, none, some, ltb, leb, max,
  if◌then◌else◌, ◌==◌, Outcome, ok, err, ◌>>=◌, ◌>>◌, malformed_marker,
}
use key_value_store.Wal.Record.{Record, record_put, record_delete}
use key_value_store.Wal.Replay.{Source, replay_from}
use key_value_store.Wal.Append.{Wal, append_batch}
use key_value_store.Memtable.Entries.{EntrySnapshot}
use key_value_store.Memtable.Table
use key_value_store.Memtable.Table.{Memtable, new_memtable}
use key_value_store.Memtable.Iterator.{new_iterator, visit_all}
use key_value_store.Engine.State.{Engine, Reader, TableEntry}
use key_value_store.Engine.Write.{default_threshold}

-- The files of a directory whose names have the two patterns, by the numbers in their names: how
-- each table opens, and the bytes of each log.
pub record Directory : Type 0 where
  pub marker : Option (Option ℕ)  -- the restore marker, if there is one, as strconv.Atoi reads it
  pub tables : List (ℕ × Outcome Reader)
  pub wals : List (ℕ × Source)

unfoldable pub read_restore_marker : Option (Option ℕ) → Outcome ℕ
read_restore_marker none = ok 0
read_restore_marker (some none) = err malformed_marker
read_restore_marker (some (some n)) = ok n

module _ {A : Type 0} where
  -- Files below the marker are superseded.
  unfoldable pub not_superseded : ℕ → List (ℕ × A) → List (ℕ × A)
  not_superseded lowest [] = []
  not_superseded lowest ((n, x) ∷ files) =
      let rest = not_superseded lowest files in if ltb n lowest then rest else (n, x) ∷ rest

  -- sort.Ints.
  unfoldable pub insert_file : ℕ × A → List (ℕ × A) → List (ℕ × A)
  insert_file f [] = f ∷ []
  insert_file f (g ∷ files) =
      let rest = insert_file f files in if leb f.0 g.0 then f ∷ (g ∷ files) else g ∷ rest

  unfoldable pub sort_files : List (ℕ × A) → List (ℕ × A)
  sort_files [] = []
  sort_files (f ∷ files) = insert_file f (sort_files files)

  -- The number after the last.
  unfoldable pub next_number : List (ℕ × A) → ℕ
  next_number [] = 0
  next_number ((n, x) ∷ []) = n + 1
  next_number (f ∷ (g ∷ files)) = next_number (g ∷ files)

-- The tables are opened in order, and the highest sequence number noted.
unfoldable pub open_tables : List (ℕ × Outcome Reader) → Outcome (List TableEntry × ℕ)
open_tables [] = ok ([], 0)
open_tables ((n, opened) ∷ files) = do
  reader ← opened
  (tables, highest) ← open_tables files
  ok (record { number = n; reader = reader } ∷ tables, max reader.max_seq highest)

-- discoverSSTables: the tables with the newest first, the next number, the highest sequence number.
unfoldable pub discover_sstables : List (ℕ × Outcome Reader) → ℕ → Outcome (List TableEntry × ℕ × ℕ)
discover_sstables files lowest = do
  let found = sort_files (not_superseded lowest files)
  (tables, highest) ← open_tables (reverse found)
  ok (tables, next_number found, highest)

-- discoverWALs: the logs with the oldest first, and the next number.
unfoldable pub discover_wals : List (ℕ × Source) → ℕ → List (ℕ × Source) × ℕ
discover_wals files lowest =
    let found = sort_files (not_superseded lowest files) in (found, next_number found)

unfoldable pub replay_record : Record → Memtable → Memtable
replay_record r m =
    if r.type == record_delete
    then Table.delete r.key r.seq_num m
    else Table.put r.key r.value r.seq_num m

unfoldable pub replay_records : List Record → Memtable × ℕ → Memtable × ℕ
replay_records [] (m, highest) = (m, highest)
replay_records (r ∷ rs) (m, highest) =
    replay_records rs (replay_record r m, if ltb highest r.seq_num then r.seq_num else highest)

unfoldable pub replay_wals : List (ℕ × Source) → Memtable × ℕ → Outcome (Memtable × ℕ)
replay_wals [] s = ok s
replay_wals ((n, bytes) ∷ files) s = do
  recovered ← replay_from bytes
  replay_wals files (replay_records recovered.records s)

-- The record that an entry is logged as again.
abbrev pub relogged : EntrySnapshot → Record
relogged e = record {
  type = if e.deleted then record_delete else record_put;
  seq_num = e.seq;
  key = e.key;
  value = e.value;
}

unfoldable pub relog : Memtable → Wal → Wal × Outcome (Unit {0})
relog m w =
    if ltb 0 (Table.len m)
    then append_batch (map relogged (visit_all (new_iterator m))) w
    else (w, ok tt)

-- The old logs are removed in order, up to the first that cannot be.
unfoldable pub remove_wals : (ℕ → Outcome (Unit {0})) → List (ℕ × Source) → Outcome (Unit {0})
remove_wals remove [] = ok tt
remove_wals remove ((n, bytes) ∷ files) = remove n >> remove_wals remove files

-- Open, with the log that it opens, the draws of its memtable, and how the old logs are removed.
unfoldable pub open_engine :
    ℕ → Directory → Outcome Wal → (ℕ → Bool) → (ℕ → Outcome (Unit {0})) → Outcome Engine
open_engine threshold dir opened rnd remove = do
  lowest ← read_restore_marker dir.marker
  (tables, next_flush_seq, from_tables) ← discover_sstables dir.tables lowest
  let wals = discover_wals dir.wals lowest
  (m, from_wals) ← replay_wals wals.0 (new_memtable rnd, 0)
  log ← opened
  let logged = relog m log
  logged.1
  remove_wals remove wals.0
  ok (record {
    threshold = default_threshold threshold;
    w = record { number = wals.1; log = logged.0 };
    mem = m;
    immutable = none;
    flush = none;
    removing = [];
    flush_err = false;
    sstables = tables;
    next_seq = (max from_tables from_wals + 1) % 2 ^ 64;
    next_flush_seq = next_flush_seq;
    next_wal_seq = wals.1 + 1;
    closed = false;
  })
