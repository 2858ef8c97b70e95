-- ===== src/Memtable/Entries.antt =====
-- memtable/iterator.go: entrySnapshot. What a memtable promises: a list of entries in key order,
-- with one for each key.
use key_value_store.Prelude.{
  ℕ, ◌+◌, ◌≡◌, refl, ap, inl, inr, List, [], ◌∷◌, ◌++◌, Bool, true, false, Option, none, some, All,
  All_mono, arith, if◌then◌else◌, Bool-cases,
}
use key_value_store.Bytes.Order.{less, same, eq_of_same, less_ne, same_refl}
use key_value_store.Memtable.SkipList.{entry_size}

pub record EntrySnapshot : Type 0 where
  pub key : List ℕ
  pub value : List ℕ
  pub deleted : Bool
  pub seq : ℕ  -- uint64

-- An entry replaces the one for its key, or stands before the first greater key.
unfoldable pub insert_entry : EntrySnapshot → List EntrySnapshot → List EntrySnapshot
insert_entry e [] = e ∷ []
insert_entry e (f ∷ fs) =
    let rest = insert_entry e fs in
    if same f.key e.key then e ∷ fs else if less f.key e.key then f ∷ rest else e ∷ (f ∷ fs)

unfoldable pub find_entry : List ℕ → List EntrySnapshot → Option EntrySnapshot
find_entry key [] = none
find_entry key (e ∷ es) = let rest = find_entry key es in if same e.key key then some e else rest

unfoldable pub size_of : EntrySnapshot → ℕ
unfolding entry_size
size_of e = entry_size e.key e.value

unfoldable pub total_size : List EntrySnapshot → ℕ
total_size [] = 0
total_size (e ∷ es) = size_of e + total_size es

unfoldable pub size_found : Option EntrySnapshot → ℕ
size_found none = 0
size_found (some e) = size_of e

-- The keys, in strictly increasing order.
abbrev pub IsSorted : List EntrySnapshot → Type 0
IsSorted [] = Unit {0}
IsSorted (e ∷ es) = All (λ f. less e.key f.key ≡ true) es × IsSorted es

pub find_entry-insert_entry :
    (key : List ℕ) (e : EntrySnapshot) (es : List EntrySnapshot)
    → find_entry key (insert_entry e es) ≡ (if same e.key key then some e else find_entry key es)
unfolding find_entry insert_entry
find_entry-insert_entry key e [] = refl
find_entry-insert_entry key e (f ∷ fs) = elim (Bool-cases (same f.key e.key)) [
  | inl h ↦ rw h (ground (arith, eq_of_same f.key e.key h))
  | inr h ↦ rw h (elim (Bool-cases (less f.key e.key)) [
    | inl lt ↦ rw lt (later key e f fs h (find_entry-insert_entry key e fs))
    | inr ge ↦ rw ge refl
  ])
]
  where
    later :
        (key : List ℕ) (e f : EntrySnapshot) (fs : List EntrySnapshot)
        → same f.key e.key ≡ false
        → find_entry key (insert_entry e fs)
          ≡ (if same e.key key then some e else find_entry key fs)
        → (if same f.key key then some f else find_entry key (insert_entry e fs)) ≡ (
            if same e.key key
            then some e
            else (if same f.key key then some f else find_entry key fs))
    later key e f fs h ih =
        ground (arith, ih, eq_of_same f.key key, eq_of_same e.key key, same_refl key, h)

-- Entries below a key are passed by.
module _ (e : EntrySnapshot) where
  pub insert_entry-append :
      (es fs : List EntrySnapshot)
      → All (λ f. less f.key e.key ≡ true) es
      → insert_entry e (es ++ fs) ≡ es ++ insert_entry e fs
  unfolding insert_entry
  insert_entry-append [] fs h = refl
  insert_entry-append (f ∷ es) fs h =
      rw (less_ne f.key e.key h.0, h.0) (ap (λ t. f ∷ t) (insert_entry-append es fs h.1))

module _ (key : List ℕ) where
  pub find_entry-append :
      (es fs : List EntrySnapshot)
      → All (λ f. less f.key key ≡ true) es
      → find_entry key (es ++ fs) ≡ find_entry key fs
  unfolding find_entry
  find_entry-append [] fs h = refl
  find_entry-append (f ∷ es) fs h = rw (less_ne f.key key h.0) (find_entry-append es fs h.1)

  pub find_entry-none :
      (es : List EntrySnapshot) → All (λ f. same f.key key ≡ false) es → find_entry key es ≡ none
  unfolding find_entry
  find_entry-none [] h = refl
  find_entry-none (f ∷ es) h = rw h.0 (find_entry-none es h.1)

greater :
    (k f g : List ℕ) → less f k ≡ false → same f k ≡ false → less f g ≡ true → same g k ≡ false
greater k f g h d lt = elim (Bool-cases (same g k)) [
  | inl e ↦ absurd (cc (eq_of_same g k e))
  | inr e ↦ e
]

-- The entry that a key had is replaced in the total.
pub total_size-insert_entry :
    (e : EntrySnapshot) (es : List EntrySnapshot)
    → IsSorted es
    → total_size (insert_entry e es) + size_found (find_entry e.key es) ≡ total_size es + size_of e
unfolding total_size insert_entry find_entry size_found
total_size-insert_entry e [] h = omega arith
total_size-insert_entry e (f ∷ fs) h = elim (Bool-cases (same f.key e.key)) [
  | inl d ↦ rw d (omega arith)
  | inr d ↦ rw d (elim (Bool-cases (less f.key e.key)) [
    | inl lt ↦ rw lt (omega (arith, total_size-insert_entry e fs h.1))
    | inr ge ↦
        let absent = find_entry-none e.key fs (
          All_mono (λ g. less f.key g.key ≡ true) (λ g. same g.key e.key ≡ false) fs
            (λ g. greater e.key f.key g.key ge d) h.0) in
        rw (ge, absent) (omega arith)
  ])
]
