-- ===== src/Engine/State.antt =====
-- engine/engine.go: the state of an Engine, and Get, Stats and Close. The lock makes each critical
-- section one step.
use key_value_store.Prelude.{
  ℕ, List, [], ◌∷◌, Bool, true, false, ◌&&◌, Option, none, some, length, if◌then◌else◌, Outcome, ok,
  err, ◌>>=◌, closed_engine, io_error,
}
use key_value_store.Wal.Append.{Wal, close}
use key_value_store.Memtable.Table
use key_value_store.Memtable.Table.{Memtable}

-- A hit: the value, the sequence number and the mark of a deletion.
abbrev pub Hit : Type 0
Hit = List ℕ × ℕ × Bool

-- sstableReader: what the engine uses of a table that is open. `keys` is there if it is a
-- *sstable.Reader, which can be walked, and lists the keys that a walk finds.
pub record Reader : Type 0 where
  pub get : List ℕ → Outcome (Option Hit)
  pub closes : Bool
  pub max_seq : ℕ  -- uint64
  pub keys : Option (List (List ℕ))

-- sstableEntry. A path is the number in it.
pub record TableEntry : Type 0 where
  pub number : ℕ
  pub reader : Reader

-- walHandle, with the number in its path.
pub record WalHandle : Type 0 where
  pub number : ℕ
  pub log : Wal

-- What the goroutine of a flush was started with.
pub record Flush : Type 0 where
  pub frozen : Memtable
  pub frozen_wal : WalHandle
  pub flush_seq : ℕ

-- `flush` is what the goroutine that is writing a table works on; `removing` are the logs of those
-- that have installed theirs, and have the log left to close and remove.
pub record Engine : Type 0 where
  pub threshold : ℕ  -- opts.MemtableSizeThreshold
  pub w : WalHandle
  pub mem : Memtable
  pub immutable : Option Memtable
  pub flush : Option Flush
  pub removing : List WalHandle
  pub flush_err : Bool
  pub sstables : List TableEntry
  pub next_seq : ℕ  -- uint64
  pub next_flush_seq : ℕ
  pub next_wal_seq : ℕ
  pub closed : Bool

-- A tombstone means that the key is deleted.
abbrev pub answer : Hit → Option (List ℕ)
answer (value, seq, deleted) = if deleted then none else some value

-- The first table that has the key decides.
unfoldable pub get_tables : List ℕ → List TableEntry → Outcome (Option (List ℕ))
get_tables key [] = ok none
get_tables key (t ∷ ts) =
    let rest = get_tables key ts in
    t.reader.get key >>= λ hit. elim hit [ none ↦ rest | some h ↦ ok (answer h) ]

unfoldable pub get_memtable : List ℕ → Option Memtable → Option Hit
get_memtable key none = none
get_memtable key (some m) = Table.get key m

abbrev pub or_else : Option Hit → Outcome (Option (List ℕ)) → Outcome (Option (List ℕ))
or_else none rest = rest
or_else (some h) rest = ok (answer h)

unfoldable pub get : List ℕ → Engine → Outcome (Option (List ℕ))
unfolding get_memtable
get key e =
    if e.closed
    then err closed_engine
    else or_else (Table.get key e.mem)
        (or_else (get_memtable key e.immutable) (get_tables key e.sstables))

pub record Stats : Type 0 where
  pub memtable_size : ℕ
  pub memtable_entries : ℕ
  pub num_sstables : ℕ
  pub flush_in_progress : Bool

abbrev is_some : Option Memtable → Bool
is_some none = false
is_some (some m) = true

unfoldable pub stats : Engine → Stats
stats e = record {
  memtable_size = e.mem.approx_size;
  memtable_entries = Table.len e.mem;
  num_sstables = length e.sstables;
  flush_in_progress = is_some e.immutable;
}

all_close : List TableEntry → Bool
all_close [] = true
all_close (t ∷ ts) = t.reader.closes && all_close ts

abbrev close_result : Outcome (Unit {0}) → Bool → Outcome (Unit {0})
close_result (ok _) closes = if closes then ok tt else err io_error
close_result o closes = o

-- The part of Close after the wait for a flush. Every file is closed, and the first error returned.
close_files : Engine → Engine × Outcome (Unit {0})
unfolding all_close
close_files e =
    let (log, o) = close e.w.log in
    (record e { w = record e.w { log = log } }, close_result o (all_close e.sstables))

-- Close, with no flush running.
unfoldable pub close_engine : Engine → Engine × Outcome (Unit {0})
unfolding close_files
close_engine e = if e.closed then (e, ok tt) else close_files (record e { closed = true })
