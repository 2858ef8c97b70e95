-- ===== src/Engine/Recovery.antt =====
-- engine/engine.go: Open after a crash, where the old logs were removed in order.
use key_value_store.Prelude.{
  ℕ, ◌+◌, ◌%◌, ◌^◌, ◌≡◌, refl, ap, ◌∙◌, inl, inr, List, [], ◌∷◌, ◌++◌, Bool, false, Option, none,
  some, ltb, max, Bool-cases, Outcome, ok,
}
use key_value_store.Wal.Record.{Record}
use key_value_store.Wal.Replay.{Source}
use key_value_store.Wal.Append.{Wal, append_batch}
use key_value_store.Memtable.Table
use key_value_store.Memtable.Table.{Memtable, new_memtable}
use key_value_store.Memtable.Table.History.{Write, last_write}
use key_value_store.Engine.State.{Engine, Flush, TableEntry, get, get_memtable, or_else}
use key_value_store.Engine.Write.{default_threshold}
use key_value_store.Engine.Open.{
  Directory, read_restore_marker, discover_sstables, discover_wals, relog, remove_wals, replay_wals,
  open_engine,
}
use key_value_store.Engine.Layers.{
  seen, value_of, MadeFrom, get-MadeFrom, seen-cons, get_tables-seen, TablesRead,
}
use key_value_store.Engine.Invariant.{Descending, pending}

-- A log to which every batch can be appended.
abbrev pub Accepts : Wal → Type 0
Accepts log = (rs : List Record) → (append_batch rs log).1 ≡ ok tt

-- Old logs that can all be removed.
abbrev pub RemovesAll : (ℕ → Outcome (Unit {0})) → Type 0
RemovesAll remove = (n : ℕ) → remove n ≡ ok tt

relog_ok : (m : Memtable) (log : Wal) → Accepts log → (relog m log).1 ≡ ok tt
unfolding relog
relog_ok m log accepts = elim (Bool-cases (ltb 0 (Table.len m))) [
  | inl e ↦ rw e (accepts _)
  | inr e ↦ rw e refl
]

remove_wals_ok :
    (remove : ℕ → Outcome (Unit {0})) (files : List (ℕ × Source))
    → RemovesAll remove
    → remove_wals remove files ≡ ok tt
unfolding remove_wals
remove_wals_ok remove [] h = refl
remove_wals_ok remove ((n, bytes) ∷ files) h = rw (h n) (remove_wals_ok remove files h)

pub Descending-pending :
    (f : Option Flush) (ns : List ℕ) (bound : ℕ)
    → Descending bound (pending f ++ ns)
    → (b : ℕ) × Descending b ns
Descending-pending none ns bound d = (bound, d)
Descending-pending (some f) ns bound d = (f.flush_seq, d.1)

-- An engine whose memtable was made from logs, over tables, and that has just been opened.
pub reads_opened :
    (e : Engine) (ws : List Write) (tables : List (List Write)) (key : List ℕ)
    → e.closed ≡ false
    → e.immutable ≡ none
    → MadeFrom e.mem ws
    → TablesRead e.sstables tables
    → get key e ≡ ok (value_of (last_write key ws (seen key tables)))
unfolding get get_memtable seen
reads_opened e ws tables key open_now idle made read =
    simp (open_now, idle)
      (ap (λ r. or_else (Table.get key e.mem) r) (get_tables-seen key e.sstables tables read)
        ∙ ap (λ o. or_else o (ok (value_of (seen key tables)))) (get-MadeFrom e.mem ws key made)
        ∙ seen-cons key ws tables)

-- What Open returns of the tables and the memtable that it has found.
pub record OpensTo (o : Outcome Engine) (m : Memtable) (ts : List TableEntry) : Type 0 where
  pub engine : Engine
  pub result : o ≡ ok engine
  pub open_now : engine.closed ≡ false
  pub idle : engine.immutable ≡ none
  pub mem : engine.mem ≡ m
  pub sstables : engine.sstables ≡ ts

pub open_found :
    (threshold : ℕ) (dir : Directory) (log : Wal) (rnd : ℕ → Bool) (remove : ℕ → Outcome (Unit {0}))
    (ts : List TableEntry) (next highest : ℕ) (m : Memtable) (h : ℕ)
    → Accepts log
    → RemovesAll remove
    → dir.marker ≡ none
    → discover_sstables dir.tables 0 ≡ ok (ts, next, highest)
    → replay_wals (discover_wals dir.wals 0).0 (new_memtable rnd, 0) ≡ ok (m, h)
    → OpensTo (open_engine threshold dir (ok log) rnd remove) m ts
unfolding open_engine read_restore_marker
open_found threshold dir log rnd remove ts next highest m h accepts removes marker found replayed =
    let wals = discover_wals dir.wals 0 in
    record {
      engine = record {
        threshold = default_threshold threshold;
        w = record { number = wals.1; log = (relog m log).0 };
        mem = m;
        immutable = none;
        flush = none;
        removing = [];
        flush_err = false;
        sstables = ts;
        next_seq = (max highest h + 1) % 2 ^ 64;
        next_flush_seq = next;
        next_wal_seq = wals.1 + 1;
        closed = false;
      };
      result =
          simp
            (marker, found, replayed, relog_ok m log accepts, remove_wals_ok remove wals.0 removes);
      open_now = refl;
      idle = refl;
      mem = refl;
      sstables = refl;
    }

-- With this log in place of its own.
abbrev pub with_log : Engine → Wal → Engine
with_log e log = record e { w = record e.w { log = log } }
