-- ===== src/Engine/Snapshot/Transfer.antt =====
-- engine/engine.go: what Snapshot holds, and what RestoreSnapshot makes of it.
use mathlib.Core.Option
use key_value_store.Prelude.{
  ℕ, ◌+◌, ◌<◌, ◌^◌, ◌≡◌, refl, sym, ap, ◌∙◌, inl, inr, List, [], ◌∷◌, ◌++◌, Bool, true, false, ◌||◌,
  Option, none, some, arith, length, if◌then◌else◌, Bool-cases, Outcome, ok, ok-injective,
}
use key_value_store.Bytes.Order.{less, same, eq_of_same, same_refl, less_ne}
use key_value_store.Wal.Append.{Wal, and_then}
use key_value_store.Memtable.Entries.{EntrySnapshot, find_entry}
use key_value_store.Memtable.Table
use key_value_store.Memtable.Table.{Memtable, new_memtable}
use key_value_store.Memtable.Table.Laws.{get-Holds, view, new_memtable-Holds}
use key_value_store.Engine.State.{
  Engine, Reader, Hit, answer, or_else, get, get_tables, get_memtable,
}
use key_value_store.Engine.Write.{BatchOp}
use key_value_store.Engine.Flush.{TableWriter, add_entries}
use key_value_store.Engine.Layers.{value_of}
use key_value_store.Engine.Invariant.{latest, get-Serves}
use key_value_store.Engine.Runs.{Run, Run-Serves}
use key_value_store.Engine.Snapshot.{
  SnapshotEntry, write_len_prefixed, contains_key, write_live, snapshot, insert_sorted,
  sort_entries, numbered_entries, restored, write_restore_marker, NewFiles, prepare,
  restore_snapshot,
}
use key_value_store.Engine.Snapshot.Format.{encode_entries, decode_snapshot_entries-encode_entries}
use key_value_store.Engine.Snapshot.Keys.{Walks, collect_keys_lem}

-- The value of a key in a snapshot.
unfoldable pub find_value : List ℕ → List SnapshotEntry → Option (List ℕ)
find_value key [] = none
find_value key (e ∷ es) =
    let rest = find_value key es in if same e.key key then some e.value else rest

module _ (value : List ℕ → Option (List ℕ)) where
  -- The keys that have a value, each with it.
  live_entries : List (List ℕ) → List SnapshotEntry
  live_entries [] = []
  live_entries (key ∷ ks) =
      let rest = live_entries ks in
      elim (value key) [ none ↦ rest | some v ↦ record { key = key; value = v } ∷ rest ]

  write_live_lem :
      (e : Engine) (ks : List (List ℕ))
      → ((key : List ℕ) → get key e ≡ ok (value key))
      → write_live e ks ≡ ok (encode_entries (live_entries ks))
  unfolding write_live live_entries encode_entries
  write_live_lem e [] h = refl
  write_live_lem e (key ∷ ks) h =
      rw (h key, write_live_lem e ks h) (each (value key) (live_entries ks))
    where
      each :
          (found : Option (List ℕ)) (rest : List SnapshotEntry)
          → ok (elim found [
            | none ↦ encode_entries rest
            | some v ↦ write_len_prefixed key ++ (write_len_prefixed v ++ encode_entries rest)
          ])
            ≡ ok (
                encode_entries
                  (elim found [ none ↦ rest | some v ↦ record { key = key; value = v } ∷ rest ]))
      each none rest = refl
      each (some v) rest = refl

  find_value-live_entries :
      (key : List ℕ) (ks : List (List ℕ))
      → find_value key (live_entries ks) ≡ (if contains_key key ks then value key else none)
  unfolding find_value live_entries contains_key
  find_value-live_entries key [] = refl
  find_value-live_entries key (k ∷ ks) =
      each (value k) refl (live_entries ks) (find_value-live_entries key ks)
    where
      each :
          (found : Option (List ℕ))
          → value k ≡ found
          → (rest : List SnapshotEntry)
          → find_value key rest ≡ (if contains_key key ks then value key else none)
          → find_value key
              (elim found [ none ↦ rest | some v ↦ record { key = k; value = v } ∷ rest ])
            ≡ (if same k key || contains_key key ks then value key else none)
      each none e rest ih = elim (Bool-cases (same k key)) [
        | inl x ↦
            rw x (ih ∙ none_if (contains_key key ks) (sym (ap value (eq_of_same k key x)) ∙ e))
        | inr x ↦ rw x ih
      ]
        where
          none_if : (b : Bool) → value key ≡ none → (if b then value key else none) ≡ value key
          none_if true h = refl
          none_if false h = sym h
      each (some v) e rest ih = elim (Bool-cases (same k key)) [
        | inl x ↦ rw x (sym (sym (ap value (eq_of_same k key x)) ∙ e))
        | inr x ↦ rw x ih
      ]

-- Snapshot returns the records of entries in which each key has the value of the last operation on
-- it, and none where that is a deletion or where there is none, at every point of a run whose
-- tables can be walked, and in whatever order Go walks the map of keys.
pub snapshot_lem :
    (e : Engine) (ops : List BatchOp) (order : List (List ℕ) → List (List ℕ))
    → Run e ops
    → Walks e.sstables
    → ((key : List ℕ) (ks : List (List ℕ)) → contains_key key (order ks) ≡ contains_key key ks)
    → (es : List SnapshotEntry) × (snapshot order e ≡ ok (encode_entries es))
      × ((key : List ℕ) → find_value key es ≡ latest key ops none)
unfolding snapshot
snapshot_lem e ops order run walks keeps =
    let s = Run-Serves run in
    let value = λ (key : List ℕ). latest key ops none in
    let (all, gathered, absent) = collect_keys_lem e ops s walks in
    let reads = λ (key : List ℕ). get-Serves e ops key s in
    (
      live_entries value (order all),
      simp (s.open_now, gathered, write_live_lem value e (order all) reads),
      λ key.
          find_value-live_entries value key (order all)
          ∙ rw (keeps key all) (elim (Bool-cases (contains_key key all)) [
            | inl x ↦ rw x refl
            | inr x ↦ rw x (ok-injective (sym (absent key x) ∙ reads key))
          ]),
    )

find_value-insert_sorted :
    (key : List ℕ) (e : SnapshotEntry) (es : List SnapshotEntry)
    → find_value key (insert_sorted e es)
      ≡ (if same e.key key then some e.value else find_value key es)
unfolding find_value insert_sorted
find_value-insert_sorted key e [] = refl
find_value-insert_sorted key e (f ∷ fs) = elim (Bool-cases (less f.key e.key)) [
  | inl lt ↦ rw lt (
      rw (find_value-insert_sorted key e fs) (
        ground (
          arith,
          less_ne f.key e.key lt,
          eq_of_same f.key key,
          eq_of_same e.key key,
          same_refl key,
        )))
  | inr ge ↦ rw ge refl
]

find_value-sort_entries :
    (key : List ℕ) (es : List SnapshotEntry) → find_value key (sort_entries es) ≡ find_value key es
unfolding find_value sort_entries
find_value-sort_entries key [] = refl
find_value-sort_entries key (e ∷ es) =
    find_value-insert_sorted key e (sort_entries es)
    ∙ ap (λ o. if same e.key key then some e.value else o) (find_value-sort_entries key es)

value_of-numbered_entries :
    (key : List ℕ) (n : ℕ) (es : List SnapshotEntry)
    → value_of (find_entry key (numbered_entries n es)) ≡ find_value key es
unfolding find_entry numbered_entries find_value
value_of-numbered_entries key n [] = refl
value_of-numbered_entries key n (e ∷ es) = elim (Bool-cases (same e.key key)) [
  | inl x ↦ rw x refl
  | inr x ↦ rw x (value_of-numbered_entries key (n + 1) es)
]

-- The entries that go into the table of a snapshot.
abbrev pub table_entries : List SnapshotEntry → List EntrySnapshot
table_entries es = numbered_entries 1 (sort_entries es)

-- A table that was made from entries, and opened.
abbrev pub Finds : Reader → List EntrySnapshot → Type 0
Finds r es = (key : List ℕ) → r.get key ≡ ok (Option.map view (find_entry key es))

get_restored :
    (reader : Reader) (log : Wal) (rnd : ℕ → Bool) (e : Engine) (es : List SnapshotEntry)
    (key : List ℕ)
    → Finds reader (table_entries es)
    → e.closed ≡ false
    → e.immutable ≡ none
    → get key (restored reader log rnd e) ≡ ok (find_value key es)
unfolding get get_memtable get_tables restored find_entry
get_restored reader log rnd e es key finds open_now idle =
    let empty : Table.get key (new_memtable rnd) ≡ none =
      get-Holds (new_memtable rnd) [] key (new_memtable-Holds rnd) in
    simp (open_now, idle, finds key)
      (ap (λ o. or_else o (from_hit (Option.map view (find_entry key (table_entries es))))) empty
        ∙ of_entry (find_entry key (table_entries es))
        ∙ ap ok
            (value_of-numbered_entries key 1 (sort_entries es) ∙ find_value-sort_entries key es))
  where
    from_hit : Option Hit → Outcome (Option (List ℕ))
    from_hit o = elim o [ none ↦ ok none | some h ↦ ok (answer h) ]

    of_entry :
        (o : Option EntrySnapshot)
        → or_else none (elim (Option.map view o) [ none ↦ ok none | some h ↦ ok (answer h) ])
          ≡ ok (value_of o)
    of_entry none = refl
    of_entry (some x) = refl

module _ {W : Type 0} (writer : TableWriter W) (files : NewFiles W) where
  -- A snapshot shorter than 2 ^ 32 bytes, restored to an engine that is open and has no flush
  -- running: where the new table is created, written and opened, and finds the entries that were
  -- added to it, the new log is opened and the marker is written, RestoreSnapshot returns no error,
  -- and Get then returns for each key what the snapshot holds for it, nothing being left of what the
  -- engine held.
  pub restore_snapshot_reads :
      (e : Engine) (es : List SnapshotEntry) (rnd : ℕ → Bool) (sw : W) (reader : Reader) (log : Wal)
      (key : List ℕ)
      → length (encode_entries es) < 2 ^ 32
      → e.closed ≡ false
      → e.immutable ≡ none
      → files.created ≡ ok sw
      → (and_then (add_entries writer (table_entries es) sw) writer.finish).1 ≡ ok tt
      → files.opened_table ≡ ok reader
      → Finds reader (table_entries es)
      → files.opened_log ≡ ok log
      → write_restore_marker files.marker ≡ ok tt
      → let (e', result) = restore_snapshot writer files (encode_entries es) rnd e in
        (result ≡ ok tt) × (get key e' ≡ ok (find_value key es))
  unfolding restore_snapshot prepare
  restore_snapshot_reads e es rnd sw reader log key fits open_now idle made written opened finds
        logged marked =
      let read = decode_snapshot_entries-encode_entries es fits in
      simp (open_now, idle, read, made, written, opened, logged, marked)
        (refl, get_restored reader log rnd e es key finds open_now idle)
