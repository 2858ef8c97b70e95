-- ===== src/Engine/Runs.antt =====
-- engine/engine.go: whole runs of an engine, from an empty directory on.
use key_value_store.Prelude.{
  ℕ, ◌≡◌, refl, List, [], ◌∷◌, ◌++◌, Bool, false, none, some, All, Outcome, ok, arith,
}
use key_value_store.Wal.Record.RoundTrip.{Fits}
use key_value_store.Wal.Append.{Wal}
use key_value_store.Memtable.Table
use key_value_store.Memtable.Table.{new_memtable}
use key_value_store.Memtable.Table.Laws.{new_memtable-Holds}
use key_value_store.Memtable.Table.History.{insert_all, last_write}
use key_value_store.Engine.State.{Engine, WalHandle, Flush, Reader, get}
use key_value_store.Engine.Write.{BatchOp, number_ops, apply_batch}
use key_value_store.Engine.Flush.{finish_flush, remove_wal, flush_begin}
use key_value_store.Engine.Layers.{seen}
use key_value_store.Engine.Invariant.{latest, LogHas, Serves, get-Serves}
use key_value_store.Engine.Steps.{
  OpensEmpty, apply_batch-Serves, flush_begin-Serves, finish_flush-Serves, remove_wal-Serves,
}

-- What Open returns for an empty directory.
unfoldable pub fresh : ℕ → Wal → (ℕ → Bool) → Engine
fresh threshold log rnd = record {
  threshold = threshold;
  w = record { number = 0; log = log };
  mem = new_memtable rnd;
  immutable = none;
  flush = none;
  removing = [];
  flush_err = false;
  sstables = [];
  next_seq = 1;
  next_flush_seq = 0;
  next_wal_seq = 1;
  closed = false;
}

-- Runs, with the operations of the batches that have returned no error. A write, and a Flush, take
-- their step where no flush is running. The goroutine of a flush takes its steps at any time: it
-- installs the table that it has written, and then closes and removes the old log, in the order in
-- which the logs were frozen. The code does not force that order: each goroutine removes its log
-- after it has let the next flush start.
pub data Run : Engine → List BatchOp → Type 0 where
  opened :
      (threshold : ℕ) (log : Wal) (rnd : ℕ → Bool)
      → LogHas log []
      → Run (fresh threshold log rnd) []
  wrote :
      {e : Engine} {ops : List BatchOp} (waited : Bool) (new : List BatchOp)
      (next_log : Outcome Wal) (rnd : ℕ → Bool)
      → Run e ops
      → e.immutable ≡ none
      → OpensEmpty next_log
      → All Fits (number_ops e.next_seq new)
      → (apply_batch waited new next_log rnd e).1 ≡ ok tt
      → Run (apply_batch waited new next_log rnd e).0 (ops ++ new)
  flushes :
      {e : Engine} {ops : List BatchOp} (next_log : Outcome Wal) (rnd : ℕ → Bool)
      → Run e ops
      → e.immutable ≡ none
      → OpensEmpty next_log
      → Run (flush_begin next_log rnd e).0 ops
  installs :
      {e : Engine} {ops : List BatchOp} (f : Flush) (r : Reader)
      → Run e ops
      → e.flush ≡ some f
      → ((key : List ℕ) → r.get key ≡ ok (Table.get key f.frozen))
      → Run (finish_flush f (ok tt) (ok r) e) ops
  removes :
      {e : Engine} {ops : List BatchOp} (h : WalHandle) (others : List WalHandle)
      (removed : Outcome (Unit {0}))
      → Run e ops
      → e.removing ≡ others ++ h ∷ []
      → Run (remove_wal h others removed e) ops

pub Run-Serves : {e : Engine} {ops : List BatchOp} → Run e ops → Serves e ops
unfolding fresh seen latest insert_all last_write
Run-Serves (opened threshold log rnd empty) = record {
  current = [];
  frozen = [];
  tables = [];
  log = empty;
  mem = new_memtable-Holds rnd;
  frozen_by = refl;
  read = refl;
  logs = tt;
  history = λ key. refl;
  open_now = refl;
  wal_numbers = (omega arith, tt);
  table_numbers = tt;
}
Run-Serves (wrote {e} {ops} waited new next_log rnd run idle empty fits fine) =
    apply_batch-Serves e ops (Run-Serves run) waited new next_log rnd idle empty fits fine
Run-Serves (flushes {e} {ops} next_log rnd run idle empty) =
    flush_begin-Serves e ops (Run-Serves run) next_log rnd idle empty
Run-Serves (installs {e} {ops} f r run running reads) =
    finish_flush-Serves f r e ops running reads (Run-Serves run)
Run-Serves (removes {e} {ops} h others removed run oldest) =
    remove_wal-Serves h others removed e ops oldest (Run-Serves run)

-- At every point of a run, with flushes in the background that succeed and whose logs are removed in
-- order, Get returns for each key the value of the last operation on it, and nothing where that is a
-- deletion or where there is none.
pub Run-reads :
    (e : Engine) (ops : List BatchOp) (key : List ℕ)
    → Run e ops
    → get key e ≡ ok (latest key ops none)
Run-reads e ops key run = get-Serves e ops key (Run-Serves run)
