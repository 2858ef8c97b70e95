-- ===== src/Memtable/Table/History.antt =====
-- memtable/memtable.go: a memtable after a sequence of Put and Delete.
use mathlib.Core.Option
use key_value_store.Prelude.{
  ℕ, ◌≡◌, refl, ap, ◌∙◌, List, [], ◌∷◌, Bool, true, false, Option, none, some, length,
  if◌then◌else◌,
}
use key_value_store.Bytes.Order.{same}
use key_value_store.Memtable.Entries.{
  EntrySnapshot, insert_entry, find_entry, find_entry-insert_entry, total_size, IsSorted,
}
use key_value_store.Memtable.Table.{Memtable, new_memtable, put, delete, get, len}
use key_value_store.Memtable.Table.Laws.{
  Holds, Holds-len, Holds-IsSorted, new_memtable-Holds, put-Holds, delete-Holds, get-Holds, view,
}

-- A call of Put or of Delete.
pub data Write : Type 0 where
  put_key : List ℕ → List ℕ → ℕ → Write
  delete_key : List ℕ → ℕ → Write

unfoldable pub write_one : Write → Memtable → Memtable
write_one (put_key key value seq) m = put key value seq m
write_one (delete_key key seq) m = delete key seq m

unfoldable pub write_all : List Write → Memtable → Memtable
write_all [] m = m
write_all (w ∷ ws) m = write_all ws (write_one w m)

-- The entry that a call leaves.
abbrev pub entry_of : Write → EntrySnapshot
entry_of (put_key key value seq) = record { key = key; value = value; deleted = false; seq = seq }
entry_of (delete_key key seq) = record { key = key; value = []; deleted = true; seq = seq }

unfoldable pub insert_all : List Write → List EntrySnapshot → List EntrySnapshot
insert_all [] es = es
insert_all (w ∷ ws) es = insert_all ws (insert_entry (entry_of w) es)

-- The last call for a key, or else what there was before.
unfoldable pub last_write : List ℕ → List Write → Option EntrySnapshot → Option EntrySnapshot
last_write key [] old = old
last_write key (w ∷ ws) old =
    last_write key ws (if same (entry_of w).key key then some (entry_of w) else old)

write_one-Holds :
    (w : Write) (m : Memtable) (es : List EntrySnapshot)
    → Holds m es
    → Holds (write_one w m) (insert_entry (entry_of w) es)
unfolding write_one
write_one-Holds (put_key key value seq) m es h = put-Holds m es h key value seq
write_one-Holds (delete_key key seq) m es h = delete-Holds m es h key seq

pub write_all-Holds :
    (ws : List Write) (m : Memtable) (es : List EntrySnapshot)
    → Holds m es
    → Holds (write_all ws m) (insert_all ws es)
unfolding write_all insert_all
write_all-Holds [] m es h = h
write_all-Holds (w ∷ ws) m es h =
    write_all-Holds ws (write_one w m) (insert_entry (entry_of w) es) (write_one-Holds w m es h)

pub find_entry-insert_all :
    (key : List ℕ) (ws : List Write) (es : List EntrySnapshot)
    → find_entry key (insert_all ws es) ≡ last_write key ws (find_entry key es)
unfolding insert_all last_write
find_entry-insert_all key [] es = refl
find_entry-insert_all key (w ∷ ws) es =
    find_entry-insert_all key ws (insert_entry (entry_of w) es)
    ∙ ap (λ o. last_write key ws o) (find_entry-insert_entry key (entry_of w) es)

-- After any sequence of Put and Delete, and whatever the levels that were drawn: Get gives the last
-- write of each key. There is a list of entries, sorted by strictly increasing keys, that holds the
-- last write of each key and nothing else; its length is Len, and its size is ApproxSize.
pub write_all_reads :
    (rnd : ℕ → Bool) (ws : List Write)
    → let m = write_all ws (new_memtable rnd) in
      ((key : List ℕ) → get key m ≡ Option.map view (last_write key ws none))
      × ((es : List EntrySnapshot) × IsSorted es
          × ((key : List ℕ) → find_entry key es ≡ last_write key ws none)
          × (len m ≡ length es)
          × (m.approx_size ≡ total_size es))
unfolding find_entry
write_all_reads rnd ws =
    let m = write_all ws (new_memtable rnd) in
    let es = insert_all ws [] in
    let h = write_all-Holds ws (new_memtable rnd) [] (new_memtable-Holds rnd) in
    (
      λ key. get-Holds m es key h ∙ ap (λ o. Option.map view o) (find_entry-insert_all key ws []),
      (es, Holds-IsSorted m es h, λ key. find_entry-insert_all key ws [], Holds-len m es h, h.size),
    )
