-- ===== src/Examples/Stale.antt =====
-- Example of a log that outlives a newer one.
use key_value_store.Prelude.{
  ◌≡◌, refl, sym, [], ◌∷◌, ◌++◌, map, true, false, none, some, ok, arith, append-nil,
}
use key_value_store.Bytes.Order.{less, same}
use key_value_store.Wal.Append.{append_batch, flush, write_records, write_buffer, sync_file}
use key_value_store.Memtable.SkipList
use key_value_store.Memtable.Table
use key_value_store.Memtable.Table.{new_memtable}
use key_value_store.Memtable.Table.History.{last_write}
use key_value_store.Memtable.Entries.{EntrySnapshot}
use key_value_store.Engine.State.{Engine, Flush, Reader, get}
use key_value_store.Engine.Write.{
  number_ops, seq_after, apply_op, apply_ops, start_flush, appended, write_batch, apply_batch,
}
use key_value_store.Engine.Flush.{install, finish_flush, remove_wal}
use key_value_store.Engine.Open.{open_engine}
use key_value_store.Engine.Layers.{write_of}
use key_value_store.Engine.Invariant.{latest, LogHas}
use key_value_store.Engine.Runs.{fresh, Run, installs}
use key_value_store.Engine.OnDisk.{on_disk}
use key_value_store.Engine.Stale.{remove_wal_stale}
use key_value_store.Examples.Engines.{
  new_log, low, e3, first_ops, second_ops, first_flush, run3, new_log-Accepts,
}

abbrev second_flush : Flush
second_flush = record {
  frozen = apply_ops 2 second_ops (new_memtable low);
  frozen_wal = record { number = 1; log = (append_batch (number_ops 2 second_ops) new_log).0 };
  flush_seq = 1;
}

abbrev second_table : Reader
second_table = record {
  get = λ key. ok (Table.get key second_flush.frozen);
  closes = true;
  max_seq = 3;
  keys = some ((97 ∷ []) ∷ (98 ∷ []) ∷ []);
}

-- The second table is installed too; neither log has been removed.
abbrev e4 : Engine
e4 = finish_flush second_flush (ok tt) (ok second_table) e3

-- What the first log says of the key that the second batch has deleted.
abbrev first_entry : EntrySnapshot
first_entry = record { key = 97 ∷ []; value = 1 ∷ []; deleted = false; seq = 1 }

steps_run :
    (e3.flush ≡ some second_flush)
    × (e4.flush ≡ none)
    × (e4.removing ≡ second_flush.frozen_wal ∷ first_flush.frozen_wal ∷ [])
    × (Table.get (97 ∷ []) e4.mem ≡ none)
    × (last_write (97 ∷ []) (map write_of (number_ops 1 first_ops)) none ≡ some first_entry)
unfolding fresh apply_batch write_batch appended start_flush finish_flush install append_batch flush
    write_records write_buffer sync_file number_ops seq_after apply_ops apply_op Table.put Table.get
    Table.delete new_memtable SkipList.put SkipList.get SkipList.walk SkipList.descend
    SkipList.insert_node SkipList.overwrite SkipList.link SkipList.random_level SkipList.climb
    SkipList.entry_size SkipList.new_skip_list less same last_write write_of
steps_run = (refl, refl, refl, refl, refl)

first_log-LogHas : LogHas first_flush.frozen_wal.log (number_ops 1 first_ops)
unfolding append_batch flush write_records write_buffer sync_file number_ops
first_log-LogHas = record {
  clean = record { buffer = refl; broken = refl; closed = refl };
  bytes = sym (append-nil _);
  fits = (omega arith, tt);
}

run4 : Run e4 (first_ops ++ second_ops)
run4 = installs second_flush second_table run3 steps_run.0 (λ key. refl)

-- The key was deleted, and is back.
remove_wal_stale_example :
    let e5 = remove_wal second_flush.frozen_wal (first_flush.frozen_wal ∷ []) (ok tt) e4 in
    (get (97 ∷ []) e5 ≡ ok (latest (97 ∷ []) (first_ops ++ second_ops) none))
    × (e6 : Engine) × (open_engine 50 (on_disk e5) (ok new_log) low (λ i. ok tt) ≡ ok e6)
    × (get (97 ∷ []) e6 ≡ ok (some (1 ∷ [])))
remove_wal_stale_example =
    remove_wal_stale e4 (first_ops ++ second_ops) second_flush.frozen_wal first_flush.frozen_wal
      (number_ops 1 first_ops) first_entry (97 ∷ []) 50 new_log low (λ i. ok tt) run4 steps_run.1
      steps_run.2 first_log-LogHas steps_run.4 steps_run.3 new_log-Accepts (λ i. refl)

-- The value of the last operation on it is none.
key_deleted : latest (97 ∷ []) (first_ops ++ second_ops) none ≡ none
unfolding latest same
key_deleted = refl
