-- ===== src/Examples/Snapshots.antt =====
-- Examples of the theorems on snapshots of the engine.
use mathlib.Core.Option
use mathlib.Core.Path.{subst}
use key_value_store.Memtable.Table.{new_memtable}
use key_value_store.Memtable.Table.Laws.{new_memtable-Holds}
use key_value_store.Memtable.Table.History.{insert_all}
use key_value_store.Memtable.Iterator.{
  new_iterator, copy_out, visit_all, visit, seek_to_first, valid, next, current,
}
use key_value_store.Wal.Append.{
  and_then, append_batch, flush, write_records, write_buffer, sync_file,
}
use key_value_store.Engine.Write.{
  number_ops, seq_after, apply_op, apply_ops, start_flush, appended, write_batch,
}
use key_value_store.Engine.Layers.{write_of}
use key_value_store.Engine.Invariant.{apply_ops-MadeFrom}
use key_value_store.Engine.Snapshot.{memtable_keys}
use key_value_store.Engine.Snapshot.Keys.{get-absent}
use key_value_store.Prelude.{
  ℕ, ◌<◌, ◌^◌, length, ◌≡◌, refl, sym, ap, ◌∙◌, map, List, [], ◌∷◌, ◌++◌, true, false, none, some,
  arith, ok, Outcome,
}
use key_value_store.Bytes.{block, le, read_block, read_le, slice}
use key_value_store.Bytes.Order.{less, same}
use key_value_store.Memtable.Entries.{EntrySnapshot, find_entry}
use key_value_store.Memtable.Table.Laws.{view}
use key_value_store.Memtable.Table
use key_value_store.Memtable.SkipList
use key_value_store.Engine.State.{Reader, get}
use key_value_store.Engine.Flush.{TableWriter, add_entries, finish_flush, install}
use key_value_store.Engine.Write.{apply_batch}
use key_value_store.Engine.Invariant.{latest}
use key_value_store.Engine.Runs.{fresh}
use key_value_store.Engine.Snapshot.{
  insert_sorted, sort_entries, numbered_entries, prepare, decode_entries, read_len_prefixed,
  SnapshotEntry, write_restore_marker, write_len_prefixed, contains_key, snapshot,
  decode_snapshot_entries, NewFiles, restore_snapshot,
}
use key_value_store.Engine.Snapshot.Format.{encode_entries, decode_snapshot_entries-encode_entries}
use key_value_store.Engine.Snapshot.Keys.{Walks}
use key_value_store.Engine.Snapshot.Transfer.{
  find_value, table_entries, snapshot_lem, restore_snapshot_reads,
}
use key_value_store.Examples.Engines.{
  first_flush, new_log, low, e0, e3, first_ops, second_ops, first_table, run3,
}

-- Two records, the second of an empty value.
abbrev es : List SnapshotEntry
es = record { key = 98 ∷ []; value = 2 ∷ [] } ∷ (record { key = 97 ∷ []; value = [] } ∷ [])

decode_snapshot_entries-encode_entries_example : decode_snapshot_entries (encode_entries es) ≡ ok es
unfolding encode_entries write_len_prefixed block le
decode_snapshot_entries-encode_entries_example =
    decode_snapshot_entries-encode_entries es (omega arith)

first_keys : memtable_keys first_flush.frozen ≡ (97 ∷ []) ∷ []
unfolding memtable_keys new_iterator copy_out visit_all visit seek_to_first valid next current
    number_ops apply_ops apply_op Table.put new_memtable SkipList.put SkipList.walk SkipList.descend
    SkipList.insert_node SkipList.link SkipList.random_level SkipList.climb SkipList.entry_size
    SkipList.new_skip_list less same
first_keys = refl

tables3 : e3.sstables ≡ record { number = 0; reader = first_table } ∷ []
unfolding fresh apply_batch write_batch appended start_flush finish_flush install append_batch flush
    write_records write_buffer sync_file number_ops seq_after apply_ops apply_op Table.put
    Table.delete new_memtable SkipList.put SkipList.walk SkipList.descend SkipList.insert_node
    SkipList.overwrite SkipList.link SkipList.random_level SkipList.climb SkipList.entry_size
    SkipList.new_skip_list less same
tables3 = refl

first_absent :
    (key : List ℕ)
    → contains_key key ((97 ∷ []) ∷ []) ≡ false
    → ok (Table.get key first_flush.frozen) ≡ ok none
unfolding insert_all
first_absent key h = ap ok (
    get-absent key first_flush.frozen (insert_all (map write_of (number_ops 1 first_ops)) [])
      (apply_ops-MadeFrom 1 first_ops (new_memtable low) [] (new_memtable-Holds low))
      (ap (contains_key key) first_keys ∙ h))

walks3 : Walks e3.sstables
walks3 = subst (λ ts. Walks ts) (sym tables3) (((97 ∷ []) ∷ [], refl, first_absent), tt)

snapshot_lem_example :
    (es : List SnapshotEntry) × (snapshot (λ ks. ks) e3 ≡ ok (encode_entries es))
    × ((key : List ℕ) → find_value key es ≡ latest key (first_ops ++ second_ops) none)
snapshot_lem_example =
    snapshot_lem e3 (first_ops ++ second_ops) (λ ks. ks) run3 walks3 (λ key ks. refl)

-- A writer that takes every entry.
abbrev lister : TableWriter (List EntrySnapshot)
lister = record { add = λ e es. (es ++ e ∷ [], ok tt); finish = λ es. (es, ok tt) }

abbrev restored_table : Reader
restored_table = record {
  get = λ key. ok (Option.map view (find_entry key (table_entries es)));
  closes = true;
  max_seq = 2;
  keys = some ((97 ∷ []) ∷ (98 ∷ []) ∷ []);
}

abbrev files : Outcome (Unit {0}) → NewFiles (List EntrySnapshot)
files renamed = record {
  created = ok [];
  opened_table = ok restored_table;
  opened_log = ok new_log;
  marker = record {
    created = ok tt;
    written = ok tt;
    synced = ok tt;
    closed = ok tt;
    renamed = renamed;
  };
}

restore_run :
    (length (encode_entries es) < 2 ^ 32)
    × (e0.closed ≡ false)
    × (e0.immutable ≡ none)
    × ((and_then (add_entries lister (table_entries es) []) lister.finish).1 ≡ ok tt)
    × (write_restore_marker (files (ok tt)).marker ≡ ok tt)
unfolding write_restore_marker encode_entries write_len_prefixed block le fresh add_entries
    sort_entries insert_sorted less numbered_entries restore_snapshot prepare
    decode_snapshot_entries decode_entries read_len_prefixed read_block read_le slice
restore_run = (omega arith, refl, refl, refl, refl)

restore_snapshot_reads_example :
    let (e', result) = restore_snapshot lister (files (ok tt)) (encode_entries es) low e0 in
    (result ≡ ok tt) × (get (97 ∷ []) e' ≡ ok (find_value (97 ∷ []) es))
restore_snapshot_reads_example =
    restore_snapshot_reads lister (files (ok tt)) e0 es low [] restored_table new_log (97 ∷ [])
      restore_run.0 restore_run.1 restore_run.2 refl restore_run.3 refl (λ key. refl) refl
      restore_run.4
