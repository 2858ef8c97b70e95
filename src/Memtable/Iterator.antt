-- ===== src/Memtable/Iterator.antt =====
-- memtable/iterator.go: the iterator over a copy of a memtable's entries.
pub mod Laws
use key_value_store.Prelude.{
  ℕ, zero, suc, ◌+◌, List, [], ◌∷◌, Bool, true, false, not, Option, none, some, length, get_elem?,
  ltb, ◌==◌, if◌then◌else◌, Outcome, ok, panic,
}
use key_value_store.Bytes.Order.{less}
use key_value_store.SortSearch.{sort_search}
use key_value_store.Memtable.SkipList.{SkipList, head, nil}
use key_value_store.Memtable.Entries.{EntrySnapshot}
use key_value_store.Memtable.Refine.{entry_at}
use key_value_store.Memtable.Table.{Memtable}

-- `idx` is none before the first use, where the code has -1.
pub record Iterator : Type 0 where
  pub entries : List EntrySnapshot
  pub idx : Option ℕ

-- The loop of NewIterator, from a node on. It visits each node once at most.
unfoldable pub copy_out : ℕ → SkipList → ℕ → List EntrySnapshot
unfolding entry_at
copy_out zero s n = []
copy_out (suc fuel) s n =
    let rest = entry_at s n ∷ copy_out fuel s (s.forward 0 n) in if n == nil then [] else rest

unfoldable pub new_iterator : Memtable → Iterator
new_iterator m = record {
  entries = copy_out m.list.next_node m.list (m.list.forward 0 head);
  idx = none;
}

unfoldable pub seek_to_first : Iterator → Iterator
seek_to_first it = record it { idx = some 0 }

-- `bytes.Compare(it.entries[i].key, target) >= 0`. The search asks for indices in range only.
unfoldable pub not_below : List EntrySnapshot → List ℕ → ℕ → Bool
not_below es target i = elim (get_elem? es i) [ none ↦ true | some e ↦ not (less e.key target) ]

unfoldable pub seek : List ℕ → Iterator → Iterator
seek target it = record it {
  idx = some (sort_search (length it.entries) (not_below it.entries target));
}

abbrev valid_at : ℕ → Option ℕ → Bool
valid_at n none = false
valid_at n (some i) = ltb i n

unfoldable pub valid : Iterator → Bool
valid it = valid_at (length it.entries) it.idx

abbrev next_at : ℕ → Option ℕ → Option ℕ
next_at n none = some 0
next_at n (some i) = if ltb i n then some (i + 1) else some i

unfoldable pub next : Iterator → Iterator
next it = record it { idx = next_at (length it.entries) it.idx }

abbrev entry_or_panic : Option EntrySnapshot → Outcome EntrySnapshot
entry_or_panic none = panic
entry_or_panic (some e) = ok e

abbrev current_at : List EntrySnapshot → Option ℕ → Outcome EntrySnapshot
current_at es none = panic
current_at es (some i) = entry_or_panic (get_elem? es i)

-- `it.entries[it.idx]`, whose fields Key, Value, Deleted and SeqNum return.
unfoldable pub current : Iterator → Outcome EntrySnapshot
current it = current_at it.entries it.idx

-- `for it.SeekToFirst(); it.Valid(); it.Next()`: the entries that the loop visits.
unfoldable pub visit : ℕ → Iterator → List EntrySnapshot
unfolding valid next current
visit zero it = []
visit (suc fuel) it =
    let rest = visit fuel (next it) in
    if valid it then elim (current it) [ ok e ↦ e ∷ rest | _ ↦ [] ] else []

unfoldable pub visit_all : Iterator → List EntrySnapshot
unfolding visit seek_to_first
visit_all it = visit (length it.entries) (seek_to_first it)
