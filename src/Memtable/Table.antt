-- ===== src/Memtable/Table.antt =====
-- memtable/memtable.go: Memtable. The lock makes every method one step.
pub mod Laws
pub mod History
use mathlib.Core.Option
use key_value_store.Prelude.{ℕ, ◌+◌, ◌-◌, List, [], Bool, true, false, Option}
use key_value_store.Memtable.SkipList.{SkipList, new_skip_list}
use key_value_store.Memtable.SkipList

pub record Memtable : Type 0 where
  pub list : SkipList
  pub approx_size : ℕ  -- int64

-- New, with the draws of the random generator.
unfoldable pub new_memtable : (ℕ → Bool) → Memtable
new_memtable rnd = record { list = new_skip_list rnd; approx_size = 0 }

-- `m.approxSize += m.list.put(...)`.
abbrev pub put_in : Memtable → SkipList.Sized → Memtable
put_in m (list, added, replaced) = record {
  list = list;
  approx_size = m.approx_size + added - replaced;
}

unfoldable pub put : List ℕ → List ℕ → ℕ → Memtable → Memtable
put key value seq m = put_in m (SkipList.put key value seq false m.list)

unfoldable pub delete : List ℕ → ℕ → Memtable → Memtable
delete key seq m = put_in m (SkipList.put key [] seq true m.list)

-- The value, the sequence number and the mark of a deletion, if the key is found.
unfoldable pub get : List ℕ → Memtable → Option (List ℕ × ℕ × Bool)
get key m =
    Option.map (λ n. (m.list.value n, m.list.seq n, m.list.deleted n)) (SkipList.get key m.list)

unfoldable pub len : Memtable → ℕ
len m = m.list.length
