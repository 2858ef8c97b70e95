-- ===== src/Memtable/Iterator/Laws.antt =====
-- memtable/iterator.go: the iterator visits the entries of a memtable in order, and seeks.
use mathlib.Core.Path.{subst}
use key_value_store.Prelude.{
  ℕ, zero, suc, ◌+◌, ◌≤◌, ◌<◌, ◌≡◌, refl, ap, ◌∙◌, inl, inr, List, [], ◌∷◌, ◌++◌, true, false, not,
  some, All, All_mono, arith, map, length, length-append, get_elem?, take, drop, Bool-cases, ltb,
  ◌==◌, append_assoc,
}
use key_value_store.Bytes.Order.{less, less_trans}
use key_value_store.SortSearch.{sort_search, IsRising, sort_search_lem}
use key_value_store.Memtable.SkipList.{SkipList, head}
use key_value_store.Memtable.SkipList.Chains.{Chain, at_level_all}
use key_value_store.Memtable.SkipList.Search.{IsNode}
use key_value_store.Memtable.Entries.{EntrySnapshot, IsSorted}
use key_value_store.Memtable.Refine.{entry_at}
use key_value_store.Memtable.Table.{Memtable}
use key_value_store.Memtable.Table.Laws.{Holds, Holds-IsSorted}
use key_value_store.Memtable.Iterator.{
  Iterator, copy_out, new_iterator, seek, not_below, visit, visit_all, seek_to_first, valid, next,
  current,
}

copy_out_lem :
    (s : SkipList) (fuel a : ℕ) (xs : List ℕ)
    → Chain (s.forward 0) a xs
    → All (λ x. head < x) xs
    → length xs < fuel
    → copy_out fuel s (s.forward 0 a) ≡ map (entry_at s) xs
unfolding copy_out
copy_out_lem s zero a xs c n f = absurd (omega arith)
copy_out_lem s (suc fuel) a [] c n f = rw c refl
copy_out_lem s (suc fuel) a (x ∷ xs) c n f =
    let not_nil : (x == 0) ≡ false = ground (arith, n.0) in
    rw (c.0, not_nil, copy_out_lem s fuel x xs c.1 n.1 (omega arith)) refl

-- The copy holds the entries of the memtable.
pub new_iterator_lem :
    (m : Memtable) (es : List EntrySnapshot) → Holds m es → (new_iterator m).entries ≡ es
unfolding new_iterator
new_iterator_lem m es h =
    let r = h.represents in
    let tall =
      All_mono (IsNode m.list) (λ a. 0 < m.list.levels a) r.order (λ a k. k.2) r.shows.nodes in
    copy_out_lem m.list m.list.next_node head r.order
      (subst (λ t. Chain (m.list.forward 0) head t) (at_level_all m.list.levels 0 r.order tall)
        (r.shows.chains 0))
      (All_mono (IsNode m.list) (λ a. head < a) r.order (λ a k. k.0) r.shows.nodes)
      (omega (arith, r.shows.fresh))
    ∙ r.content

get_elem?-append :
    (P Q : List EntrySnapshot) (q : EntrySnapshot) → get_elem? (P ++ q ∷ Q) (length P) ≡ some q
get_elem?-append [] Q q = refl
get_elem?-append (p ∷ P) Q q = get_elem?-append P Q q

abbrev at : List EntrySnapshot → ℕ → Iterator
at es i = record { entries = es; idx = some i }

in_range :
    (P Q : List EntrySnapshot) (q : EntrySnapshot) → ltb (length P) (length (P ++ q ∷ Q)) ≡ true
in_range P Q q = ground (arith, length-append P (q ∷ Q))

next_lem :
    (P Q : List EntrySnapshot) (q : EntrySnapshot)
    → next (at (P ++ q ∷ Q) (length P)) ≡ at ((P ++ q ∷ []) ++ Q) (length (P ++ q ∷ []))
unfolding next
next_lem P Q q =
    let step : length P + 1 ≡ length (P ++ q ∷ []) = omega (arith, length-append P (q ∷ [])) in
    rw (in_range P Q q, step, append_assoc P (q ∷ []) Q) refl

visit_lem :
    (fuel : ℕ) (P Q : List EntrySnapshot)
    → length Q ≤ fuel
    → visit fuel (at (P ++ Q) (length P)) ≡ Q
unfolding visit valid current
visit_lem zero P [] f = refl
visit_lem zero P (q ∷ Q) f = absurd (omega arith)
visit_lem (suc fuel) P [] f =
    let stop : ltb (length P) (length (P ++ [])) ≡ false = ground (arith, length-append P []) in
    rw stop refl
visit_lem (suc fuel) P (q ∷ Q) f =
    rw (in_range P Q q, get_elem?-append P Q q)
      (ap (λ t. q ∷ t)
        (ap (visit fuel) (next_lem P Q q) ∙ visit_lem fuel (P ++ q ∷ []) Q (omega arith)))

-- The loop `for it.SeekToFirst(); it.Valid(); it.Next()` visits every entry, in order.
pub visit_all_lem :
    (m : Memtable) (es : List EntrySnapshot) → Holds m es → visit_all (new_iterator m) ≡ es
unfolding visit_all seek_to_first
visit_all_lem m es h =
    visit_lem (length (new_iterator m).entries) [] (new_iterator m).entries (omega arith)
    ∙ new_iterator_lem m es h

module _ (target : List ℕ) where
  abbrev Low : EntrySnapshot → Type 0
  Low e = less e.key target ≡ true

  abbrev High : EntrySnapshot → Type 0
  High e = less e.key target ≡ false

  above_all :
      (e : EntrySnapshot) (es : List EntrySnapshot)
      → High e
      → All (λ f. less e.key f.key ≡ true) es
      → All High es
  above_all e es h lt =
      All_mono (λ f. less e.key f.key ≡ true) High es
        (λ f k. elim (Bool-cases (less f.key target)) [
          | inl x ↦ cc (less_trans e.key f.key target k x, h)
          | inr x ↦ x
        ])
        lt

  not_below_all : (es : List EntrySnapshot) (i : ℕ) → All High es → not_below es target i ≡ true
  unfolding not_below
  not_below_all [] i h = refl
  not_below_all (e ∷ es) zero h = rw h.0 refl
  not_below_all (e ∷ es) (suc i) h = not_below_all es i h.1

  rising : (es : List EntrySnapshot) → IsSorted es → IsRising (not_below es target)
  unfolding not_below
  rising [] s i j le t = refl
  rising (e ∷ es) s zero j le t = not_below_all (e ∷ es) j (high e es s t)
    where
      high :
          (e : EntrySnapshot) (es : List EntrySnapshot)
          → IsSorted (e ∷ es)
          → not (less e.key target) ≡ true
          → All High (e ∷ es)
      high e es s t = let h : High e = ground arith in (h, above_all e es h s.0)
  rising (e ∷ es) s (suc i) zero le t = absurd (omega arith)
  rising (e ∷ es) s (suc i) (suc j) le t = rising es s.1 i j (omega arith) t

  test-High : (e : EntrySnapshot) → not (less e.key target) ≡ true → High e
  test-High e t = ground arith

  test-Low : (e : EntrySnapshot) → not (less e.key target) ≡ false → Low e
  test-Low e t = ground arith

  from_all :
      (es : List EntrySnapshot)
      → ((k : ℕ) → k < length es → not_below es target k ≡ true)
      → All High es
  unfolding not_below
  from_all [] l = tt
  from_all (e ∷ es) l =
      (test-High e (l 0 (omega arith)), from_all es (λ k h. l (suc k) (omega arith)))

  split_at :
      (r : ℕ) (es : List EntrySnapshot)
      → ((k : ℕ) → k < r → not_below es target k ≡ false)
      → ((k : ℕ) → r ≤ k → k < length es → not_below es target k ≡ true)
      → All Low (take r es) × All High (drop r es)
  unfolding not_below
  split_at zero es lo hi = (tt, from_all es (λ k h. hi k (omega arith) h))
  split_at (suc r) [] lo hi = (tt, tt)
  split_at (suc r) (e ∷ es) lo hi =
      let (below, above) =
        split_at r es (λ k h. lo (suc k) (omega arith))
          (λ k h l. hi (suc k) (omega arith) (omega arith)) in
      ((test-Low e (lo 0 (omega arith)), below), above)

-- Seek: the entries before the position that it sets have keys below the target, and those from it
-- on have keys that are not, so that it stands at the least key that is not below the target, or
-- at the end where there is none.
pub seek_lem :
    (m : Memtable) (es : List EntrySnapshot) (target : List ℕ)
    → Holds m es
    → (i : ℕ) × ((seek target (new_iterator m)).idx ≡ some i)
      × (i ≤ length es)
      × All (λ e. less e.key target ≡ true) (take i es)
      × All (λ e. less e.key target ≡ false) (drop i es)
unfolding seek
seek_lem m es target h =
    let i = sort_search (length es) (not_below es target) in
    let least =
      sort_search_lem (length es) (not_below es target)
        (rising target es (Holds-IsSorted m es h)) in
    let (below, above) = split_at target i es least.before least.from in
    (i, rw (new_iterator_lem m es h) refl, least.within, below, above)
