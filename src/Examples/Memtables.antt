-- ===== src/Examples/Memtables.antt =====
-- Examples of the memtable's theorems, and runs of it.
use mathlib.Core.Option
use key_value_store.Prelude.{
  ℕ, ◌≡◌, ◌≤◌, refl, List, [], ◌∷◌, Bool, true, false, ◌||◌, none, some, All, length, take, drop,
  ◌==◌,
}
use key_value_store.Bytes.Order.{less, same}
use key_value_store.Memtable.SkipList.{random_level}
use key_value_store.Memtable.SkipList
use key_value_store.Memtable.Entries.{EntrySnapshot, IsSorted, find_entry, total_size}
use key_value_store.Memtable.Table.{Memtable, new_memtable, get, len}
use key_value_store.Memtable.Table
use key_value_store.Memtable.Table.Laws.{Holds, new_memtable-Holds, view}
use key_value_store.Memtable.Table.History.{
  Write, put_key, delete_key, write_one, write_all, insert_all, last_write, write_all-Holds,
  write_all_reads,
}
use key_value_store.Memtable.Iterator.{new_iterator, visit_all, seek}
use key_value_store.Memtable.Iterator.Laws.{visit_all_lem, seek_lem}

-- Draws that give the levels 2, 1, 3 and then 1.
abbrev draws : ℕ → Bool
draws i = (i == 0) || ((i == 3) || (i == 4))

-- Three keys, the first of which is written again and the second deleted.
abbrev calls : List Write
calls =
    put_key (98 ∷ []) (1 ∷ []) 1
    ∷ (put_key (97 ∷ []) (2 ∷ []) 2
        ∷ (put_key (99 ∷ 99 ∷ []) (3 ∷ []) 3
            ∷ (put_key (98 ∷ []) (4 ∷ 4 ∷ []) 4 ∷ (delete_key (97 ∷ []) 5 ∷ []))))

abbrev filled : Memtable
filled = write_all calls (new_memtable draws)

filled-Holds : Holds filled (insert_all calls [])
filled-Holds = write_all-Holds calls (new_memtable draws) [] (new_memtable-Holds draws)

write_all_reads_example :
    ((key : List ℕ) → get key filled ≡ Option.map view (last_write key calls none))
    × ((es : List EntrySnapshot) × IsSorted es
        × ((key : List ℕ) → find_entry key es ≡ last_write key calls none)
        × (len filled ≡ length es)
        × (filled.approx_size ≡ total_size es))
write_all_reads_example = write_all_reads draws calls

visit_all_lem_example : visit_all (new_iterator filled) ≡ insert_all calls []
visit_all_lem_example = visit_all_lem filled (insert_all calls []) filled-Holds

seek_lem_example :
    (i : ℕ) × ((seek (98 ∷ 0 ∷ []) (new_iterator filled)).idx ≡ some i)
    × (i ≤ length (insert_all calls []))
    × All (λ e. less e.key (98 ∷ 0 ∷ []) ≡ true) (take i (insert_all calls []))
    × All (λ e. less e.key (98 ∷ 0 ∷ []) ≡ false) (drop i (insert_all calls []))
seek_lem_example = seek_lem filled (insert_all calls []) (98 ∷ 0 ∷ []) filled-Holds

-- The second key, of level 1, has gone in front of the first, and the deleted one is there still.
filled_runs : get (97 ∷ []) filled ≡ some ([], 5, true)
unfolding get write_all write_one new_memtable Table.put Table.delete SkipList.put SkipList.get
    SkipList.walk SkipList.descend SkipList.insert_node SkipList.overwrite SkipList.link
    SkipList.random_level SkipList.climb SkipList.entry_size SkipList.new_skip_list less same
filled_runs = refl

filled_value : get (98 ∷ []) filled ≡ some (4 ∷ 4 ∷ [], 4, false)
unfolding get write_all write_one new_memtable Table.put Table.delete SkipList.put SkipList.get
    SkipList.walk SkipList.descend SkipList.insert_node SkipList.overwrite SkipList.link
    SkipList.random_level SkipList.climb SkipList.entry_size SkipList.new_skip_list less same
filled_value = refl

filled_height : filled.list.height ≡ 3
unfolding write_all write_one new_memtable Table.put Table.delete SkipList.put SkipList.walk
    SkipList.descend SkipList.insert_node SkipList.overwrite SkipList.link SkipList.random_level
    SkipList.climb SkipList.entry_size SkipList.new_skip_list less same
filled_height = refl
