-- ===== src/Memtable/Put.antt =====
-- memtable/skiplist.go against the list of entries that it stands for: put.
use mathlib.Core.Path.{subst}
use key_value_store.Prelude.{
  ℕ, ◌<◌, ◌≡◌, refl, sym, ap, ◌∙◌, inl, inr, List, [], ◌∷◌, ◌++◌, Bool, true, false, All, All-right,
  All_mono, map, if◌then◌else◌, Bool-cases,
}
use key_value_store.Bytes.Order.{less, same, eq_of_same, less_asymm, same_of_ne, less_irrefl}
use key_value_store.Memtable.SkipList.{
  SkipList, head, holds, search_path, put, overwrite, insert_node, random_level, Sized,
}
use key_value_store.Memtable.SkipList.Chains.{last, at_level}
use key_value_store.Memtable.SkipList.Search.{Increasing, IsNode, Shows, Below, Above}
use key_value_store.Memtable.SkipList.Insert.{Increasing-right}
use key_value_store.Memtable.Entries.{
  EntrySnapshot, insert_entry, find_entry, size_of, size_found, find_entry-append, find_entry-none,
  insert_entry-append,
}
use key_value_store.Memtable.Refine.{
  entry_at, Represents, split, first, first_lem, holds_lem, Below-entries, absent-entries, behind,
}
use key_value_store.Memtable.Grown.{
  over-Shows, over_content, grown-Shows, grown_content, random_level_pos,
}

-- The list, the size that is added and the size that is replaced, after an entry was put.
pub record IsPut (e : EntrySnapshot) (es : List EntrySnapshot) (r : Sized) : Type 0 where
  pub represents : Represents r.0 (insert_entry e es)
  pub added : r.1 ≡ size_of e
  pub replaced : r.2 ≡ size_found (find_entry e.key es)

-- An entry stands before the entries above its key.
insert_front :
    (s : SkipList) (e : EntrySnapshot) (B : List ℕ)
    → All (λ b. less e.key (s.key b) ≡ true) B
    → insert_entry e (map (entry_at s) B) ≡ e ∷ map (entry_at s) B
unfolding insert_entry entry_at
insert_front s e [] h = refl
insert_front s e (b ∷ B) h =
    let differs : same (s.key b) e.key ≡ false =
      same_of_ne (s.key b) e.key
        (λ d. cc (h.0, ap (λ t. less t (s.key b)) d, less_irrefl (s.key b))) in
    rw (differs, less_asymm e.key (s.key b) h.0) refl

module _ (s : SkipList) (key value : List ℕ) (seq : ℕ) (deleted : Bool) (A : List ℕ)
    (below : All (Below s key) A) where
  abbrev entry : EntrySnapshot
  entry = record { key = key; value = value; deleted = deleted; seq = seq }

  abbrev content : List ℕ → List EntrySnapshot
  content B = map (entry_at s) A ++ map (entry_at s) B

  passed :
      (B : List ℕ)
      → insert_entry entry (content B)
        ≡ map (entry_at s) A ++ insert_entry entry (map (entry_at s) B)
  passed B =
      insert_entry-append entry (map (entry_at s) A) (map (entry_at s) B)
        (Below-entries s key [] A below)

  found : (B : List ℕ) → find_entry key (content B) ≡ find_entry key (map (entry_at s) B)
  found B =
      find_entry-append key (map (entry_at s) A) (map (entry_at s) B)
        (Below-entries s key [] A below)

  over-IsPut :
      (b : ℕ) (B : List ℕ)
      → Shows s (A ++ b ∷ B)
      → same (s.key b) key ≡ true
      → IsPut entry (content (b ∷ B)) (overwrite b value seq deleted s)
  unfolding overwrite size_of size_found insert_entry find_entry entry_at
  over-IsPut b B shows e = record {
    represents = record {
      order = A ++ b ∷ B;
      shows = over-Shows s A B b shows value seq deleted;
      content =
          over_content s A B b shows value seq deleted
          ∙ sym (passed (b ∷ B) ∙ rw (e, eq_of_same (s.key b) key e) refl);
    };
    added = rw (eq_of_same (s.key b) key e) refl;
    replaced = rw (found (b ∷ B), e) refl;
  }

  module _ (update : ℕ → ℕ)
      (noted : (j : ℕ) → j < s.height → update j ≡ last head (at_level s.levels j A)) where
    grown-IsPut :
        (B : List ℕ)
        → Shows s (A ++ B)
        → All (λ b. less key (s.key b) ≡ true) B
        → IsPut entry (content B) (insert_node update key value seq deleted (random_level s.rnd) s)
    unfolding insert_node size_of size_found
    grown-IsPut B shows above =
        let (level, rnd) = random_level s.rnd in
        let pos = random_level_pos s.rnd in
        record {
          represents = record {
            order = A ++ s.next_node ∷ B;
            shows =
                grown-Shows s A B shows key value seq deleted update level rnd pos below above
                  noted;
            content =
                grown_content s A B shows key value seq deleted update level rnd pos below above
                  noted
                ∙ sym (passed B ∙ ap (λ t. map (entry_at s) A ++ t) (insert_front s entry B above));
          };
          added = refl;
          replaced = sym (
              ap size_found (
                found B
                ∙ find_entry-none key (map (entry_at s) B) (absent-entries s key [] B above)));
        }

    either-IsPut :
        (B : List ℕ)
        → Shows s (A ++ B)
        → All (λ b. head < b) B
        → All (Above s key) B
        → Increasing s.key B
        → IsPut entry (content B) (
            if holds s key (first B)
            then overwrite (first B) value seq deleted s
            else insert_node update key value seq deleted (random_level s.rnd) s)
    unfolding first
    either-IsPut [] shows n above inc = grown-IsPut [] shows tt
    either-IsPut (b ∷ B) shows n above inc =
        rw (holds_lem s key b n.0) (elim (Bool-cases (same (s.key b) key)) [
          | inl e ↦ rw e (over-IsPut b B shows e)
          | inr e ↦ rw e (grown-IsPut (b ∷ B) shows (behind s key [] b B above.0 inc e))
        ])

-- An insertion into the skip list is one into the ordered list of entries.
pub put_lem :
    (s : SkipList) (key value : List ℕ) (seq : ℕ) (deleted : Bool) (es : List EntrySnapshot)
    → Represents s es
    → IsPut
        (record { key = key; value = value; deleted = deleted; seq = seq })
        es
        (put key value seq deleted s)
unfolding put
put_lem s key value seq deleted es r =
    let sp = split s key es r in
    let e : EntrySnapshot = record { key = key; value = value; deleted = deleted; seq = seq } in
    let u = (search_path s key).1 in
    let at : s.forward 0 (search_path s key).0 ≡ first sp.B =
      ap (λ t. s.forward 0 t) sp.ends ∙ first_lem (s.forward 0) (last head sp.A) sp.B sp.next in
    subst
      (λ x. IsPut e es (
        if holds s key x
        then overwrite x value seq deleted s
        else insert_node u key value seq deleted (random_level s.rnd) s))
      (sym at)
      (subst
        (λ t. IsPut e t (
          if holds s key (first sp.B)
          then overwrite (first sp.B) value seq deleted s
          else insert_node u key value seq deleted (random_level s.rnd) s))
        sp.content
        (either-IsPut s key value seq deleted sp.A sp.below u sp.noted sp.B sp.shows
          (All_mono (IsNode s) (λ b. head < b) sp.B (λ b h. h.0)
            (All-right (IsNode s) sp.A sp.B sp.shows.nodes))
          sp.above (Increasing-right s.key sp.A sp.B sp.shows.increasing)))
