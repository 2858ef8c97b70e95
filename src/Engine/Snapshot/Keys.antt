-- ===== src/Engine/Snapshot/Keys.antt =====
-- engine/engine.go: the keys that Snapshot gathers are all that Get can find.
use mathlib.Core.Option
use mathlib.Core.Path.{subst}
use key_value_store.Prelude.{
  ℕ, ◌≡◌, refl, sym, ap, ◌∙◌, inl, inr, List, [], ◌∷◌, map, false, ◌||◌, Option, none, some, arith,
  Bool-cases, ok,
}
use key_value_store.Bytes.Order.{same, eq_of_same}
use key_value_store.Memtable.Entries.{EntrySnapshot, find_entry}
use key_value_store.Memtable.Table
use key_value_store.Memtable.Table.{Memtable}
use key_value_store.Memtable.Table.Laws.{Holds, get-Holds, view}
use key_value_store.Memtable.Iterator.Laws.{visit_all_lem}
use key_value_store.Wal.Record.{Record}
use key_value_store.Memtable.Table.History.{insert_all}
use key_value_store.Engine.Write.{BatchOp}
use key_value_store.Engine.Layers.{write_of, MadeFrom}
use key_value_store.Engine.Invariant.{Serves, FrozenBy}
use key_value_store.Engine.State.{Flush, Engine, TableEntry, get, get_tables, get_memtable, or_else}
use key_value_store.Engine.Snapshot.{
  contains_key, add_key, add_keys, key_of, memtable_keys, frozen_keys, table_keys, collect_keys,
}

contains_key-add_key :
    (key k : List ℕ) (ks : List (List ℕ))
    → contains_key key (add_key k ks) ≡ (same k key || contains_key key ks)
unfolding contains_key add_key
contains_key-add_key key k ks = elim (Bool-cases (contains_key k ks)) [
  | inl e ↦ rw e (ground (arith, eq_of_same k key, e))
  | inr e ↦ rw e refl
]

pub contains_key-add_keys :
    (key : List ℕ) (more ks : List (List ℕ))
    → contains_key key (add_keys more ks) ≡ (contains_key key more || contains_key key ks)
unfolding contains_key add_keys
contains_key-add_keys key [] ks = refl
contains_key-add_keys key (k ∷ more) ks =
    rw (contains_key-add_keys key more (add_key k ks), contains_key-add_key key k ks) (ground arith)

find_entry-absent :
    (key : List ℕ) (es : List EntrySnapshot)
    → contains_key key (map key_of es) ≡ false
    → find_entry key es ≡ none
unfolding contains_key find_entry
find_entry-absent key [] h = refl
find_entry-absent key (e ∷ es) h = elim (Bool-cases (same e.key key)) [
  | inl x ↦ cc (h, ap (λ b. b || contains_key key (map key_of es)) x)
  | inr x ↦ rw x (find_entry-absent key es (ground arith))
]

-- A key that an iterator does not visit is not in the memtable.
pub get-absent :
    (key : List ℕ) (m : Memtable) (es : List EntrySnapshot)
    → Holds m es
    → contains_key key (memtable_keys m) ≡ false
    → Table.get key m ≡ none
unfolding memtable_keys
get-absent key m es h out =
    get-Holds m es key h
    ∙ ap (λ o. Option.map view o)
        (find_entry-absent key es
          (sym (ap (λ t. contains_key key (map key_of t)) (visit_all_lem m es h)) ∙ out))

get_memtable-absent :
    (key : List ℕ) (m : Option Memtable) (f : Option Flush) (frozen : List (List Record))
    → FrozenBy m f frozen
    → contains_key key (frozen_keys m) ≡ false
    → get_memtable key m ≡ none
unfolding get_memtable frozen_keys
get_memtable-absent key none f frozen h out = refl
get_memtable-absent key (some m) none frozen h out = absurd h
get_memtable-absent key (some m) (some f) frozen (rs, same_m, log, made, e) out =
    get-absent key m (insert_all (map write_of rs) [])
      (subst (λ t. MadeFrom t (map write_of rs)) (sym same_m) made) out

-- The tables can be walked, and a walk passes every key that Get finds.
abbrev pub Walks : List TableEntry → Type 0
Walks [] = Unit {0}
Walks (t ∷ ts) =
    ((ks : List (List ℕ)) × (t.reader.keys ≡ some ks)
      × ((key : List ℕ) → contains_key key ks ≡ false → t.reader.get key ≡ ok none))
    × Walks ts

abbrev Gathers : List (List ℕ) → List TableEntry → List (List ℕ) → Type 0
Gathers ks ts all =
    (key : List ℕ)
    → contains_key key all ≡ false
    → (contains_key key ks ≡ false) × (get_tables key ts ≡ ok none)

table_keys_lem :
    (ts : List TableEntry) (ks : List (List ℕ))
    → Walks ts
    → (all : List (List ℕ)) × (table_keys ts ks ≡ ok all) × Gathers ks ts all
unfolding table_keys get_tables
table_keys_lem [] ks h = (ks, refl, λ key out. (out, refl))
table_keys_lem (t ∷ ts) ks ((more, walked, finds), h) =
    let (all, gathered, rest) = table_keys_lem ts (add_keys more ks) h in
    (
      all,
      rw walked gathered,
      λ key out.
          let (before, later) = rest key out in
          let both : (contains_key key more || contains_key key ks) ≡ false =
            sym (contains_key-add_keys key more ks) ∙ before in
          (ground arith, rw (finds key (ground arith)) later),
    )

-- The keys that are gathered are all that Get finds.
pub collect_keys_lem :
    (e : Engine) (ops : List BatchOp)
    → Serves e ops
    → Walks e.sstables
    → (all : List (List ℕ)) × (collect_keys e ≡ ok all)
      × ((key : List ℕ) → contains_key key all ≡ false → get key e ≡ ok none)
unfolding collect_keys get contains_key
collect_keys_lem e ops s h =
    let front = add_keys (memtable_keys e.mem) [] in
    let (all, gathered, rest) =
      table_keys_lem e.sstables (add_keys (frozen_keys e.immutable) front) h in
    (
      all,
      gathered,
      λ key out.
          let (before, later) = rest key out in
          let both : (contains_key key (frozen_keys e.immutable)
                || (contains_key key (memtable_keys e.mem) || false))
              ≡ false =
            sym (
              contains_key-add_keys key (frozen_keys e.immutable) front
              ∙ ap (λ b. contains_key key (frozen_keys e.immutable) || b)
                  (contains_key-add_keys key (memtable_keys e.mem) []))
            ∙ before in
          let in_mem =
            get-absent key e.mem (insert_all (map write_of s.current) []) s.mem (ground arith) in
          let in_frozen =
            get_memtable-absent key e.immutable e.flush s.frozen s.frozen_by (ground arith) in
          simp s.open_now (
            ap (λ o. or_else o (or_else (get_memtable key e.immutable) (get_tables key e.sstables)))
              in_mem
            ∙ ap (λ o. or_else o (get_tables key e.sstables)) in_frozen
            ∙ later),
    )
