-- ===== src/Engine/OnDisk.antt =====
-- engine/engine.go: the files that an engine leaves at a crash, as Open discovers them.
use mathlib.Core.Path.{subst}
use mathlib.Core.List.{reverse, reverse-reverse}
use key_value_store.Prelude.{
  ℕ, zero, suc, ◌≡◌, refl, sym, ap, ◌∙◌, List, [], ◌∷◌, ◌++◌, map, Option, none, some, length, take,
  Outcome, ok, append-nil,
}
use key_value_store.Wal.Record.{Record}
use key_value_store.Wal.Replay.{Recovery, Source, source, replay_from}
use key_value_store.Wal.Replay.Rounds.{encode_all}
use key_value_store.Wal.Append.{Wal}
use key_value_store.Wal.Append.Cut.{replay_from-partial}
use key_value_store.Memtable.Table.{Memtable}
use key_value_store.Memtable.Table.History.{Write}
use key_value_store.Engine.State.{Engine, WalHandle, Flush, Reader, TableEntry}
use key_value_store.Engine.Write.{BatchOp, number_ops, after_seq, record_of}
use key_value_store.Engine.Open.{
  Directory, discover_sstables, discover_wals, next_number, sort_files,
}
use key_value_store.Engine.Invariant.{
  LogHas, FrozenBy, LogsOf, Descending, frozen_handles, wal_handles, number_of, table_number,
}
use key_value_store.Engine.Discovery.{
  sort_files_sorted, not_superseded_zero, reverse-Ascending, table_file, open_tables_all,
}
use key_value_store.Engine.Replayed.{FilesHave, FirstOf}

abbrev pub wal_file : WalHandle → ℕ × Source
wal_file h = (h.number, source h.log.file.bytes)

-- The files of an engine, in the order of their numbers, with no restore marker, and no file yet of
-- a table that is being written.
unfoldable pub on_disk : Engine → Directory
on_disk e = record {
  marker = none;
  tables = reverse (map table_file e.sstables);
  wals = reverse (map wal_file (wal_handles e));
}

pub log_file :
    (w : Wal) (rs : List Record)
    → LogHas w rs
    → (s : Recovery) × (replay_from (source w.file.bytes) ≡ ok s) × (s.records ≡ rs)
log_file w rs h =
    let (s, replayed, records) = replay_from-partial rs [] 0 h.fits tt in
    (
      s,
      ap (λ b. replay_from (source b)) (h.bytes ∙ sym (append-nil (encode_all rs))) ∙ replayed,
      records ∙ append-nil rs,
    )

pub removed_logs :
    (hs : List WalHandle) (tables : List (List Write))
    → LogsOf hs tables
    → (logs : List (List Record)) × FilesHave (map wal_file hs) logs × FirstOf logs tables
removed_logs [] tables l = ([], refl, tt)
removed_logs (h ∷ hs) [] l = absurd l
removed_logs (h ∷ hs) (ws ∷ tables) ((rs, has, made), l) =
    let (logs, files, first) = removed_logs hs tables l in
    (rs ∷ logs, (log_file h.log rs has, files), (made, first))

pub frozen_logs :
    (m : Option Memtable) (f : Option Flush) (frozen : List (List Record))
    → FrozenBy m f frozen
    → FilesHave (map wal_file (frozen_handles f)) frozen
frozen_logs none none frozen h = h
frozen_logs none (some f) frozen h = absurd h
frozen_logs (some m) none frozen h = absurd h
frozen_logs (some m) (some f) frozen (rs, same_m, log, made, one) =
    rw one (log_file f.frozen_wal.log rs log, refl)

pub FilesHave-append :
    (fs gs : List (ℕ × Source)) (logs logs' : List (List Record))
    → FilesHave fs logs
    → FilesHave gs logs'
    → FilesHave (fs ++ gs) (logs ++ logs')
FilesHave-append [] gs logs logs' h k = rw h k
FilesHave-append (f ∷ fs) gs [] logs' h k = absurd h
FilesHave-append (f ∷ fs) gs (rs ∷ logs) logs' h k = (h.0, FilesHave-append fs gs logs logs' h.1 k)

pub take-number_ops :
    (n seq : ℕ) (ops : List BatchOp) → take n (number_ops seq ops) ≡ number_ops seq (take n ops)
unfolding number_ops
take-number_ops zero seq ops = refl
take-number_ops (suc n) seq [] = refl
take-number_ops (suc n) seq (op ∷ ops) =
    ap (λ t. record_of seq op ∷ t) (take-number_ops n (after_seq seq) ops)

pub length-number_ops : (seq : ℕ) (ops : List BatchOp) → length (number_ops seq ops) ≡ length ops
unfolding number_ops
length-number_ops seq [] = refl
length-number_ops seq (op ∷ ops) = ap suc (length-number_ops (after_seq seq) ops)

map-numbers :
    (hs : List WalHandle) → map (λ (f : ℕ × Source). f.0) (map wal_file hs) ≡ map number_of hs
map-numbers [] = refl
map-numbers (h ∷ hs) = ap (λ t. h.number ∷ t) (map-numbers hs)

map-table_numbers :
    (ts : List TableEntry)
    → map (λ (f : ℕ × Outcome Reader). f.0) (map table_file ts) ≡ map table_number ts
map-table_numbers [] = refl
map-table_numbers (t ∷ ts) = ap (λ l. t.number ∷ l) (map-table_numbers ts)

-- Tables are found again, the newest first.
pub tables_found :
    (bound : ℕ) (ts : List TableEntry)
    → Descending bound (map table_number ts)
    → (next : ℕ) × (n : ℕ) × (discover_sstables (reverse (map table_file ts)) 0 ≡ ok (ts, next, n))
unfolding discover_sstables
tables_found bound ts d =
    let files = map table_file ts in
    let (n, opened) = open_tables_all ts in
    let up =
      reverse-Ascending bound files
        (subst (λ l. Descending bound l) (sym (map-table_numbers ts)) d) in
    (
      next_number (reverse files),
      n,
      rw
          (
            not_superseded_zero (reverse files),
            sort_files_sorted (reverse files) up,
            reverse-reverse files,
            opened,
          )
          refl,
    )

pub wals_found :
    (bound : ℕ) (hs : List WalHandle)
    → Descending bound (map number_of hs)
    → (discover_wals (reverse (map wal_file hs)) 0).0 ≡ reverse (map wal_file hs)
unfolding discover_wals
wals_found bound hs d =
    let files = map wal_file hs in
    let up =
      reverse-Ascending bound files (subst (λ l. Descending bound l) (sym (map-numbers hs)) d) in
    ap sort_files (not_superseded_zero (reverse files)) ∙ sort_files_sorted (reverse files) up
