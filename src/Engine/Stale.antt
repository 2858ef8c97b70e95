-- ===== src/Engine/Stale.antt =====
-- engine/engine.go: a log that outlives a newer one is replayed over the newer table.
use mathlib.Core.Path.{subst}
use mathlib.Core.List.{reverse, map-append}
use mathlib.Core.Option
use key_value_store.Prelude.{
  ℕ, ◌≡◌, refl, sym, ap, ◌∙◌, List, [], ◌∷◌, ◌++◌, map, Bool, Option, none, some, Outcome, ok,
  arith,
}
use key_value_store.Wal.Record.{Record}
use key_value_store.Wal.Append.{Wal}
use key_value_store.Memtable.Entries.{EntrySnapshot}
use key_value_store.Memtable.Table
use key_value_store.Memtable.Table.{new_memtable}
use key_value_store.Memtable.Table.Laws.{new_memtable-Holds, view}
use key_value_store.Memtable.Table.History.{write_all, write_all-Holds, last_write}
use key_value_store.Engine.State.{Engine, WalHandle, Flush, get}
use key_value_store.Engine.Write.{BatchOp}
use key_value_store.Engine.Flush.{remove_wal}
use key_value_store.Engine.Open.{discover_wals, replay_wals, open_engine}
use key_value_store.Engine.Layers.{
  write_of, seen, value_of, MadeFrom, get-MadeFrom, TablesRead, last_write_old, last_write-append,
  or_old,
}
use key_value_store.Engine.Invariant.{
  latest, LogHas, get-Serves, Descending, table_number, frozen_handles, number_of,
}
use key_value_store.Engine.Runs.{Run, Run-Serves}
use key_value_store.Engine.Replayed.{in_order, FilesHave, replay_wals_lem}
use key_value_store.Engine.OnDisk.{wal_file, on_disk, log_file, tables_found, wals_found}
use key_value_store.Engine.Recovery.{
  Accepts, RemovesAll, Descending-pending, open_found, reads_opened,
}

none_of_view : (o : Option EntrySnapshot) → Option.map view o ≡ none → o ≡ none
none_of_view none h = refl
none_of_view (some x) h = cc

-- The logs of an engine whose newest log says nothing of a key.
older_shows :
    (key : List ℕ) (older current : List Record) (x : EntrySnapshot) (old : Option EntrySnapshot)
    → last_write key (map write_of older) none ≡ some x
    → last_write key (map write_of current) none ≡ none
    → last_write key (map write_of (in_order (current ∷ older ∷ []))) old ≡ some x
older_shows key older current x old h k =
    let ws = map write_of older in
    let vs = map write_of current in
    ap (λ l. last_write key l old) (map-append write_of older current)
    ∙ last_write-append key ws vs old
    ∙ last_write_old key vs (last_write key ws old)
    ∙ ap (λ o. or_old o (last_write key ws old)) k
    ∙ last_write_old key ws old
    ∙ ap (λ o. or_old o old) h

-- The numbers of the logs, without the newer of the two that are left.
numbers_left :
    (bound : ℕ) (w newer older : WalHandle) (f : Option Flush) (hs : List WalHandle)
    → f ≡ none
    → hs ≡ newer ∷ older ∷ []
    → Descending bound (map number_of (w ∷ (frozen_handles f ++ hs)))
    → Descending bound (map number_of (w ∷ older ∷ []))
numbers_left bound w newer older f hs idle two d =
    let all : Descending bound (map number_of (w ∷ newer ∷ older ∷ [])) =
      subst (λ hs. Descending bound (map number_of (w ∷ hs))) two
        (subst (λ f. Descending bound (map number_of (w ∷ (frozen_handles f ++ hs)))) idle d) in
    (all.0, (omega (arith, all.1.0, all.1.1.0), tt))

-- Two flushes have installed their tables in a run, no other is running, and the newer of their logs
-- is removed first, which the code allows. A crash before the older log, which holds whole records,
-- is removed brings back what that log says of a key on which the memtable has nothing: until the
-- crash Get returns the value of the last operation on the key, and after Open the value of its last
-- write in the older log. The new log takes what is written to it, and the old logs can be removed.
pub remove_wal_stale :
    (e : Engine) (ops : List BatchOp) (newer older : WalHandle) (rs : List Record)
    (x : EntrySnapshot) (key : List ℕ) (threshold : ℕ) (log : Wal) (rnd : ℕ → Bool)
    (remove : ℕ → Outcome (Unit {0}))
    → Run e ops
    → e.flush ≡ none
    → e.removing ≡ newer ∷ older ∷ []
    → LogHas older.log rs
    → last_write key (map write_of rs) none ≡ some x
    → Table.get key e.mem ≡ none
    → Accepts log
    → RemovesAll remove
    → let e1 = remove_wal newer (older ∷ []) (ok tt) e in
      (get key e1 ≡ ok (latest key ops none))
      × (e2 : Engine) × (open_engine threshold (on_disk e1) (ok log) rnd remove ≡ ok e2)
      × (get key e2 ≡ ok (value_of (some x)))
unfolding remove_wal get on_disk
remove_wal_stale e ops newer older rs x key threshold log rnd remove run idle two has wrote absent
      accepts removes =
    let s = Run-Serves run in
    let numbers =
      numbers_left e.next_wal_seq e.w newer older e.flush e.removing idle two s.wal_numbers in
    let handles = e.w ∷ older ∷ [] in
    let logs = s.current ∷ rs ∷ [] in
    let (bound, numbered) =
      Descending-pending e.flush (map table_number e.sstables) e.next_flush_seq s.table_numbers in
    let (next, highest, found) = tables_found bound e.sstables numbered in
    let have : FilesHave (map wal_file handles) logs =
      (log_file e.w.log s.current s.log, (log_file older.log rs has, refl)) in
    let (h, memtable) = replay_wals_lem (map wal_file handles) logs (new_memtable rnd) 0 have in
    let ws = map write_of (in_order logs) in
    let current_none : last_write key (map write_of s.current) none ≡ none =
      none_of_view _ (sym (get-MadeFrom e.mem (map write_of s.current) key s.mem) ∙ absent) in
    let e1 = remove_wal newer (older ∷ []) (ok tt) e in
    let files : (discover_wals (on_disk e1).wals 0).0 ≡ reverse (map wal_file handles) =
      ap
        (λ f. (discover_wals (reverse (map wal_file (e.w ∷ (frozen_handles f ++ older ∷ [])))) 0).0)
        idle
      ∙ wals_found e.next_wal_seq handles numbers in
    let o =
      open_found threshold (on_disk e1) log rnd remove e.sstables next highest
        (write_all ws (new_memtable rnd)) h accepts removes refl found
        (ap (λ fs. replay_wals fs (new_memtable rnd, 0)) files ∙ memtable) in
    let made : MadeFrom o.engine.mem ws =
      subst (λ m. MadeFrom m ws) (sym o.mem)
        (write_all-Holds ws (new_memtable rnd) [] (new_memtable-Holds rnd)) in
    let read = subst (λ ts. TablesRead ts s.tables) (sym o.sstables) s.read in
    (
      get-Serves e ops key s,
      o.engine,
      o.result,
      reads_opened o.engine ws s.tables key o.open_now o.idle made read
          ∙ ap (λ q. ok (value_of q))
              (older_shows key rs s.current x (seen key s.tables) wrote current_none),
    )
