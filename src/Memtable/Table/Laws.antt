-- ===== src/Memtable/Table/Laws.antt =====
-- memtable/memtable.go against the list of entries that a memtable holds.
use mathlib.Core.Path.{subst}
use mathlib.Core.Option
use key_value_store.Prelude.{
  ℕ, suc, ◌≡◌, refl, sym, ap, ◌∙◌, List, [], ◌∷◌, Bool, true, false, Option, none, some, All, arith,
  map, length,
}
use key_value_store.Bytes.Order.{less}
use key_value_store.Memtable.SkipList.{SkipList, head, new_skip_list, Sized}
use key_value_store.Memtable.SkipList
use key_value_store.Memtable.SkipList.Search.{Increasing}
use key_value_store.Memtable.Entries.{
  EntrySnapshot, insert_entry, find_entry, total_size, IsSorted, total_size-insert_entry,
}
use key_value_store.Memtable.Refine.{entry_at, Represents, get_lem}
use key_value_store.Memtable.Put.{IsPut, put_lem}
use key_value_store.Memtable.Table.{Memtable, new_memtable, put_in, put, delete, get, len}

-- A memtable holds these entries, and its size is theirs.
pub record Holds (m : Memtable) (es : List EntrySnapshot) : Type 0 where
  pub represents : Represents m.list es
  pub size : m.approx_size ≡ total_size es

pub new_memtable-Holds : (rnd : ℕ → Bool) → Holds (new_memtable rnd) []
unfolding new_memtable new_skip_list total_size SkipList.Chains.at_level
new_memtable-Holds rnd = record {
  represents = record {
    order = [];
    shows = record { chains = λ i. refl; nodes = tt; increasing = tt; count = refl; fresh = refl };
    content = refl;
  };
  size = refl;
}

Increasing-IsSorted :
    (s : SkipList) (order : List ℕ) → Increasing s.key order → IsSorted (map (entry_at s) order)
unfolding entry_at
Increasing-IsSorted s [] h = tt
Increasing-IsSorted s (a ∷ order) h = (later order h.0, Increasing-IsSorted s order h.1)
  where
    later :
        (xs : List ℕ)
        → All (λ b. less (s.key a) (s.key b) ≡ true) xs
        → All (λ f. less (s.key a) f.key ≡ true) (map (entry_at s) xs)
    later [] k = tt
    later (x ∷ xs) k = (k.0, later xs k.1)

length-map : (s : SkipList) (xs : List ℕ) → length (map (entry_at s) xs) ≡ length xs
length-map s [] = refl
length-map s (x ∷ xs) = ap suc (length-map s xs)

module _ (m : Memtable) (es : List EntrySnapshot) (h : Holds m es) where
  pub Holds-IsSorted : IsSorted es
  Holds-IsSorted =
      subst (λ t. IsSorted t) h.represents.content
        (Increasing-IsSorted m.list h.represents.order h.represents.shows.increasing)

  -- The count is the number of keys.
  pub Holds-len : len m ≡ length es
  unfolding len
  Holds-len =
      h.represents.shows.count
      ∙ sym (length-map m.list h.represents.order)
      ∙ ap (λ (t : List EntrySnapshot). length t) h.represents.content

  put_in-Holds :
      (e : EntrySnapshot) (r : Sized) → IsPut e es r → Holds (put_in m r) (insert_entry e es)
  put_in-Holds e (list, added, replaced) p = record {
    represents = p.represents;
    size = omega (arith, p.added, p.replaced, h.size, total_size-insert_entry e es Holds-IsSorted);
  }

  pub put-Holds :
      (key value : List ℕ) (seq : ℕ)
      → Holds
          (put key value seq m)
          (insert_entry (record { key = key; value = value; deleted = false; seq = seq }) es)
  unfolding put
  put-Holds key value seq =
      put_in-Holds (record { key = key; value = value; deleted = false; seq = seq })
        (SkipList.put key value seq false m.list)
        (put_lem m.list key value seq false es h.represents)

  pub delete-Holds :
      (key : List ℕ) (seq : ℕ)
      → Holds
          (delete key seq m)
          (insert_entry (record { key = key; value = []; deleted = true; seq = seq }) es)
  unfolding delete
  delete-Holds key seq =
      put_in-Holds (record { key = key; value = []; deleted = true; seq = seq })
        (SkipList.put key [] seq true m.list) (put_lem m.list key [] seq true es h.represents)

-- What Get returns of an entry.
abbrev pub view : EntrySnapshot → List ℕ × ℕ × Bool
view e = (e.value, e.seq, e.deleted)

view_at :
    (s : SkipList) (o : Option ℕ)
    → Option.map (λ n. (s.value n, s.seq n, s.deleted n)) o
      ≡ Option.map view (Option.map (entry_at s) o)
unfolding entry_at
view_at s none = refl
view_at s (some n) = refl

pub get-Holds :
    (m : Memtable) (es : List EntrySnapshot) (key : List ℕ)
    → Holds m es
    → get key m ≡ Option.map view (find_entry key es)
unfolding get
get-Holds m es key h =
    view_at m.list (SkipList.get key m.list)
    ∙ ap (λ o. Option.map view o) (get_lem m.list key es h.represents)
