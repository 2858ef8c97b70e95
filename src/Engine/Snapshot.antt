-- ===== src/Engine/Snapshot.antt =====
-- engine/engine.go: Snapshot, its format, RestoreSnapshot and writeRestoreMarkerAtomically.
pub mod Format
pub mod Keys
pub mod Transfer
use key_value_store.Prelude.{
  ℕ, zero, suc, ◌+◌, List, [], ◌∷◌, ◌++◌, map, Bool, true, false, ◌||◌, Option, none, some, length,
  ltb, max, if◌then◌else◌, Outcome, ok, err, panic, stuck, ◌>>=◌, ◌>>◌, closed_engine,
  flush_running, malformed_snapshot,
}
use key_value_store.Bytes.{block, read_block}
use key_value_store.Bytes.Order.{less, same}
use key_value_store.Wal.Append.{Wal, and_then}
use key_value_store.Memtable.Entries.{EntrySnapshot}
use key_value_store.Memtable.Table.{Memtable, new_memtable}
use key_value_store.Memtable.Iterator.{new_iterator, visit_all}
use key_value_store.Engine.State.{Engine, Reader, TableEntry, get}
use key_value_store.Engine.Flush.{TableWriter, add_entries}

pub record SnapshotEntry : Type 0 where
  pub key : List ℕ
  pub value : List ℕ

unfoldable pub write_len_prefixed : List ℕ → List ℕ
write_len_prefixed bs = block bs

-- The keys of a Go map from strings: each of them once.
unfoldable pub contains_key : List ℕ → List (List ℕ) → Bool
contains_key key [] = false
contains_key key (k ∷ ks) = same k key || contains_key key ks

unfoldable pub add_key : List ℕ → List (List ℕ) → List (List ℕ)
add_key key ks = if contains_key key ks then ks else key ∷ ks

unfoldable pub add_keys : List (List ℕ) → List (List ℕ) → List (List ℕ)
add_keys [] ks = ks
add_keys (key ∷ more) ks = add_keys more (add_key key ks)

abbrev pub key_of : EntrySnapshot → List ℕ
key_of e = e.key

-- `collectKeys(m.NewIterator())`.
unfoldable pub memtable_keys : Memtable → List (List ℕ)
memtable_keys m = map key_of (visit_all (new_iterator m))

unfoldable pub frozen_keys : Option Memtable → List (List ℕ)
frozen_keys none = []
frozen_keys (some m) = memtable_keys m

-- The tables' keys. A reader that cannot be walked is an error.
unfoldable pub table_keys : List TableEntry → List (List ℕ) → Outcome (List (List ℕ))
table_keys [] ks = ok ks
table_keys (t ∷ ts) ks = elim t.reader.keys [
  | none ↦ err malformed_snapshot
  | some more ↦ table_keys ts (add_keys more ks)
]

unfoldable pub collect_keys : Engine → Outcome (List (List ℕ))
collect_keys e =
    table_keys e.sstables (add_keys (frozen_keys e.immutable) (add_keys (memtable_keys e.mem) []))

-- The buffer, once the keys have been looked up in an order. Keys with no value are left out.
unfoldable pub write_live : Engine → List (List ℕ) → Outcome (List ℕ)
write_live e [] = ok []
write_live e (key ∷ ks) = do
  found ← get key e
  rest ← write_live e ks
  ok (elim found [
    | none ↦ rest
    | some value ↦ write_len_prefixed key ++ (write_len_prefixed value ++ rest)
  ])

-- Snapshot, with the order in which Go walks the map of keys.
unfoldable pub snapshot : (List (List ℕ) → List (List ℕ)) → Engine → Outcome (List ℕ)
snapshot order e =
    if e.closed then err closed_engine else do ks ← collect_keys e; write_live e (order ks)

unfoldable pub read_len_prefixed : List ℕ → Outcome (List ℕ × List ℕ)
read_len_prefixed rest =
    if ltb (length rest) 4 then err malformed_snapshot else read_block malformed_snapshot rest

-- The loop of decodeSnapshotEntries. Each entry takes bytes.
unfoldable pub decode_entries : ℕ → List ℕ → Outcome (List SnapshotEntry)
decode_entries zero rest = stuck
decode_entries (suc fuel) [] = ok []
decode_entries (suc fuel) (b ∷ bs) = do
  (key, rest) ← read_len_prefixed (b ∷ bs)
  (value, rest) ← read_len_prefixed rest
  entries ← decode_entries fuel rest
  ok (record { key = key; value = value } ∷ entries)

unfoldable pub decode_snapshot_entries : List ℕ → Outcome (List SnapshotEntry)
decode_snapshot_entries bytes = decode_entries (suc (length bytes)) bytes

-- sort.Slice by the keys. It leaves open the order of entries with the same key, which a table refuses.
unfoldable pub insert_sorted : SnapshotEntry → List SnapshotEntry → List SnapshotEntry
insert_sorted e [] = e ∷ []
insert_sorted e (f ∷ fs) =
    let rest = insert_sorted e fs in if less f.key e.key then f ∷ rest else e ∷ (f ∷ fs)

unfoldable pub sort_entries : List SnapshotEntry → List SnapshotEntry
sort_entries [] = []
sort_entries (e ∷ es) = insert_sorted e (sort_entries es)

-- The entries as they are added to the table, with sequence numbers from a number on.
unfoldable pub numbered_entries : ℕ → List SnapshotEntry → List EntrySnapshot
numbered_entries n [] = []
numbered_entries n (e ∷ es) =
    record { key = e.key; value = e.value; deleted = false; seq = n } ∷ numbered_entries (n + 1) es

-- How the calls on the temporary file of the marker end.
pub record MarkerFile : Type 0 where
  pub created : Outcome (Unit {0})
  pub written : Outcome (Unit {0})
  pub synced : Outcome (Unit {0})
  pub closed : Outcome (Unit {0})
  pub renamed : Outcome (Unit {0})

-- writeRestoreMarkerAtomically: the rename is the point from which the marker is there.
unfoldable pub write_restore_marker : MarkerFile → Outcome (Unit {0})
write_restore_marker f = f.created >> f.written >> f.synced >> f.closed >> f.renamed

-- After the commit point.
unfoldable pub restored : Reader → Wal → (ℕ → Bool) → Engine → Engine
restored reader log rnd e =
    let new_seq = max e.next_flush_seq e.next_wal_seq in
    record e {
      sstables = record { number = new_seq; reader = reader } ∷ [];
      w = record { number = new_seq; log = log };
      mem = new_memtable rnd;
      next_flush_seq = new_seq + 1;
      next_wal_seq = new_seq + 1;
      flush_err = false;
    }

-- How the files that RestoreSnapshot makes turn out.
pub record NewFiles (W : Type 0) : Type 0 where
  pub created : Outcome W
  pub opened_table : Outcome Reader
  pub opened_log : Outcome Wal
  pub marker : MarkerFile

module _ {W : Type 0} (writer : TableWriter W) (files : NewFiles W) where
  -- The table and the log are made, and the marker is written.
  unfoldable pub prepare : List ℕ → Outcome (Reader × Wal)
  prepare bytes = do
    entries ← decode_snapshot_entries bytes
    sw ← files.created
    let added = add_entries writer (numbered_entries 1 (sort_entries entries)) sw
    (and_then added writer.finish).1
    reader ← files.opened_table
    log ← files.opened_log
    write_restore_marker files.marker
    ok (reader, log)

  abbrev commit : (ℕ → Bool) → Engine → Outcome (Reader × Wal) → Engine × Outcome (Unit {0})
  commit rnd e (ok (reader, log)) = (restored reader log rnd e, ok tt)
  commit rnd e (err x) = (e, err x)
  commit rnd e panic = (e, panic)
  commit rnd e stuck = (e, stuck)

  abbrev with_immutable :
      Option Memtable → Engine → Engine × Outcome (Unit {0}) → Engine × Outcome (Unit {0})
  with_immutable none e done = done
  with_immutable (some m) e done = (e, err flush_running)

  unfoldable pub restore_snapshot : List ℕ → (ℕ → Bool) → Engine → Engine × Outcome (Unit {0})
  restore_snapshot bytes rnd e =
      if e.closed
      then (e, err closed_engine)
      else with_immutable e.immutable e (commit rnd e (prepare bytes))
