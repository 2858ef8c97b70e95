-- ===== src/Examples/Engines.antt =====
-- Examples of the engine's theorems.
use mathlib.Core.Path.{subst}
use key_value_store.Prelude.{
  ℕ, ◌≡◌, ◌<◌, refl, List, [], ◌∷◌, ◌++◌, Bool, true, false, none, some, All, arith, ok, err,
  io_error, short_read, ok-injective,
}
use key_value_store.Wal.Record.RoundTrip.{Fits}
use key_value_store.Wal.Append.{Wal, append_batch, flush, write_records, write_buffer, sync_file}
use key_value_store.Wal.Append.Crash.{write_records-buffer}
use key_value_store.Bytes.Order.{less, same}
use key_value_store.Memtable.SkipList
use key_value_store.Memtable.Table
use key_value_store.Memtable.Table.{Memtable, new_memtable}
use key_value_store.Engine.State.{Engine, Flush, Reader, get, get_tables}
use key_value_store.Engine.Write.{
  BatchOp, number_ops, seq_after, apply_op, apply_ops, start_flush, appended, write_batch,
  apply_batch,
}
use key_value_store.Engine.Flush.{install, finish_flush}
use key_value_store.Engine.Open.{read_restore_marker, open_engine}
use key_value_store.Engine.Invariant.{latest, LogHas}
use key_value_store.Engine.Steps.{OpensEmpty}
use key_value_store.Engine.Runs.{fresh, Run, opened, wrote, installs, Run-reads}
use key_value_store.Engine.Recovery.{Accepts}
use key_value_store.Engine.Hazards.{finish_flush_hides, open_engine_fails}

-- A log file that is new, and does not fail.
abbrev pub new_log : Wal
new_log = record {
  file = record { bytes = []; synced = 0; fault = none; syncs = true; closes = true };
  buffer = [];
  broken = false;
  sync_on_write = true;
  closed = false;
  last_seq = 0;
}

new_log-LogHas : LogHas new_log []
new_log-LogHas = record {
  clean = record { buffer = refl; broken = refl; closed = refl };
  bytes = refl;
  fits = tt;
}

new_log-OpensEmpty : OpensEmpty (ok new_log)
new_log-OpensEmpty log e = subst (λ t. LogHas t []) (ok-injective e) new_log-LogHas

abbrev pub low : ℕ → Bool
low i = false

abbrev pub first_ops : List BatchOp
first_ops = record { key = 97 ∷ []; value = 1 ∷ []; deleted = false } ∷ []

-- A batch that deletes the key and writes another.
abbrev pub second_ops : List BatchOp
second_ops =
    record { key = 97 ∷ []; value = []; deleted = true }
    ∷ (record { key = 98 ∷ []; value = 2 ∷ []; deleted = false } ∷ [])

-- A first write fills the memtable, so that a flush starts.
abbrev pub e0 : Engine
e0 = fresh 50 new_log low

abbrev e1 : Engine
e1 = (apply_batch false first_ops (ok new_log) low e0).0

abbrev pub first_flush : Flush
first_flush = record {
  frozen = apply_ops 1 first_ops (new_memtable low);
  frozen_wal = record { number = 0; log = (append_batch (number_ops 1 first_ops) new_log).0 };
  flush_seq = 0;
}

-- A table that holds what the frozen memtable does.
abbrev pub first_table : Reader
first_table = record {
  get = λ key. ok (Table.get key first_flush.frozen);
  closes = true;
  max_seq = 1;
  keys = some ((97 ∷ []) ∷ []);
}

-- The table is installed, and a second batch starts a second flush.
abbrev pub e2 : Engine
e2 = finish_flush first_flush (ok tt) (ok first_table) e1

abbrev pub e3 : Engine
e3 = (apply_batch true second_ops (ok new_log) low e2).0

-- What the steps check of their engines.
pub steps_run :
    ((apply_batch false first_ops (ok new_log) low e0).1 ≡ ok tt)
    × (e1.flush ≡ some first_flush)
    × (e2.immutable ≡ none)
    × ((apply_batch true second_ops (ok new_log) low e2).1 ≡ ok tt)
    × (e0.next_seq ≡ 1)
    × (e2.next_seq ≡ 2)
    × (e3.next_seq ≡ 4)
    × (e0.immutable ≡ none)
unfolding fresh apply_batch write_batch appended start_flush finish_flush install append_batch flush
    write_records write_buffer sync_file number_ops seq_after apply_ops apply_op Table.put
    Table.delete new_memtable SkipList.put SkipList.walk SkipList.descend SkipList.insert_node
    SkipList.overwrite SkipList.link SkipList.random_level SkipList.climb SkipList.entry_size
    SkipList.new_skip_list less same
steps_run = (refl, refl, refl, refl, refl, refl, refl, refl)

batch-Fits :
    (n seq : ℕ)
    → seq ≡ n
    → n < 8
    → All Fits (number_ops seq first_ops) × All Fits (number_ops seq second_ops)
unfolding number_ops
batch-Fits n seq e h = ((omega arith, tt), (omega arith, (omega arith, tt)))

pub new_log-Accepts : Accepts new_log
unfolding append_batch flush write_buffer sync_file
new_log-Accepts [] = refl
new_log-Accepts (r ∷ rs) = rw (write_records-buffer (r ∷ rs) new_log refl) refl

no_marker : read_restore_marker none ≡ ok 0
unfolding read_restore_marker
no_marker = refl

hides_run :
    (e1.closed ≡ false)
    × (e1.immutable ≡ some first_flush.frozen)
    × (Table.get (97 ∷ []) first_flush.frozen ≡ some (1 ∷ [], 1, false))
    × (Table.get (97 ∷ []) e1.mem ≡ none)
    × (get_tables (97 ∷ []) e1.sstables ≡ ok none)
unfolding fresh apply_batch write_batch appended start_flush append_batch flush write_records
    write_buffer sync_file number_ops seq_after apply_ops apply_op Table.put Table.get new_memtable
    SkipList.put SkipList.get SkipList.walk SkipList.descend SkipList.insert_node SkipList.link
    SkipList.random_level SkipList.climb SkipList.entry_size SkipList.new_skip_list less same
    get_tables
hides_run = (refl, refl, refl, refl, refl)

run1 : Run e1 first_ops
run1 =
    wrote false first_ops (ok new_log) low (opened 50 new_log low new_log-LogHas) steps_run.7
      new_log-OpensEmpty (batch-Fits 1 e0.next_seq steps_run.4 (omega arith)).0 steps_run.0

pub run3 : Run e3 (first_ops ++ second_ops)
run3 =
    wrote true second_ops (ok new_log) low
      (installs first_flush first_table run1 steps_run.1 (λ key. refl)) steps_run.2
      new_log-OpensEmpty (batch-Fits 2 e2.next_seq steps_run.5 (omega arith)).1 steps_run.3

Run-reads_example : get (98 ∷ []) e3 ≡ ok (latest (98 ∷ []) (first_ops ++ second_ops) none)
Run-reads_example = Run-reads e3 (first_ops ++ second_ops) (98 ∷ []) run3

-- The frozen memtable of the first flush has the key, whose value is lost when its table fails.
finish_flush_hides_example :
    (get (97 ∷ []) e1 ≡ ok (some (1 ∷ [])))
    × (get (97 ∷ []) (finish_flush first_flush (err io_error) (ok first_table) e1) ≡ ok none)
finish_flush_hides_example =
    finish_flush_hides e1 first_flush io_error (ok first_table) (97 ∷ []) (1 ∷ []) 1 hides_run.0
      hides_run.1 hides_run.2 hides_run.3 hides_run.4

open_engine_fails_example : ¬ (
    (e : Engine) × (open_engine 50
        (record { marker = none; tables = (0, err short_read) ∷ []; wals = [] })
        (ok new_log)
        low
        (λ i. ok tt)
      ≡ ok e))
open_engine_fails_example =
    open_engine_fails 50 (record { marker = none; tables = (0, err short_read) ∷ []; wals = [] })
      (ok new_log) low (λ i. ok tt) 0 0 short_read [] [] no_marker (omega arith) refl
