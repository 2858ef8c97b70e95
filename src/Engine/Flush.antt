-- ===== src/Engine/Flush.antt =====
-- engine/engine.go: Flush, runFlush and writeSSTableFromMemtable.
use key_value_store.Prelude.{
  ℕ, List, [], ◌∷◌, Bool, true, none, ◌==◌, if◌then◌else◌, Outcome, ok, err, ◌>>=◌, closed_engine,
  flush_failed,
}
use key_value_store.Wal.Append.{Wal, and_then, close}
use key_value_store.Memtable.Table
use key_value_store.Memtable.Table.{Memtable}
use key_value_store.Memtable.Entries.{EntrySnapshot}
use key_value_store.Memtable.Iterator.{new_iterator, visit_all}
use key_value_store.Engine.State.{Engine, WalHandle, Flush, Reader}
use key_value_store.Engine.Write.{start_flush}

-- sstableWriter: a table that is being written, of some type W.
pub record TableWriter (W : Type 0) : Type 0 where
  pub add : EntrySnapshot → W → W × Outcome (Unit {0})
  pub finish : W → W × Outcome (Unit {0})

module _ {W : Type 0} (writer : TableWriter W) where
  unfoldable pub add_entries : List EntrySnapshot → W → W × Outcome (Unit {0})
  add_entries [] sw = (sw, ok tt)
  add_entries (e ∷ es) sw = and_then (writer.add e sw) (add_entries es)

  -- writeSSTableFromMemtable, with the writer that was created.
  unfoldable pub write_sstable : Memtable → Outcome W → Outcome (Unit {0})
  write_sstable m created = do
    sw ← created
    (and_then (add_entries (visit_all (new_iterator m)) sw) writer.finish).1

-- A flush that fails is remembered, and its memtable let go.
unfoldable pub fail_flush : Engine → Engine
fail_flush e = record e { flush_err = true; immutable = none; flush = none }

-- The new table comes first.
unfoldable pub install : Flush → Reader → Engine → Engine
install f reader e = record e {
  sstables = record { number = f.flush_seq; reader = reader } ∷ e.sstables;
  immutable = none;
  flush = none;
  removing = f.frozen_wal ∷ e.removing;
}

-- runFlush, to where the table is installed: the table was written, and opened.
unfoldable pub finish_flush : Flush → Outcome (Unit {0}) → Outcome Reader → Engine → Engine
finish_flush f (ok _) (ok reader) e = install f reader e
finish_flush f (ok _) _ e = fail_flush e
finish_flush f _ opened e = fail_flush e

-- The rest of runFlush: the old log is closed and removed, if that succeeds.
unfoldable pub remove_wal : WalHandle → List WalHandle → Outcome (Unit {0}) → Engine → Engine
remove_wal old others removed e =
    let gone = (close old.log).1 >>= λ _. removed in
    record e { removing = others; flush_err = elim gone [ ok _ ↦ e.flush_err | _ ↦ true ] }

-- Flush, to where it waits for the flush that it has started.
unfoldable pub flush_begin : Outcome Wal → (ℕ → Bool) → Engine → Engine × Outcome (Unit {0})
flush_begin opened rnd e =
    if e.closed
    then (e, err closed_engine)
    else if e.flush_err
    then (e, err flush_failed)
    else if Table.len e.mem == 0
    then (e, ok tt)
    else start_flush opened rnd e

-- What Flush returns after that wait.
unfoldable pub flush_end : Engine → Outcome (Unit {0})
flush_end e = if e.flush_err then err flush_failed else ok tt
