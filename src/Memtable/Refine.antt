-- ===== src/Memtable/Refine.antt =====
-- memtable/skiplist.go against the list of entries that it stands for: get and put.
use mathlib.Core.Path.{subst}
use mathlib.Core.Option
use mathlib.Core.List.{map-append}
use key_value_store.Prelude.{
  ℕ, ◌<◌, ◌≡◌, refl, sym, ap, ◌∙◌, inl, inr, List, [], ◌∷◌, ◌++◌, true, false, none, some, All,
  All-left, All-right, All_mono, arith, map, if◌then◌else◌, Bool-cases,
}
use key_value_store.Bytes.Order.{
  less, same, less_irrefl, less_total, less_trans, same_of_ne, same_refl,
}
use key_value_store.Memtable.SkipList.{SkipList, head, nil, holds, search_path, get}
use key_value_store.Memtable.SkipList.Chains.{Chain, last, at_level_all, Chain-right}
use key_value_store.Memtable.SkipList.Search.{
  Increasing, IsNode, Shows, before, after, before-after, before_below, after_above, Below, Above,
  search_path_lem, goal,
}
use key_value_store.Memtable.SkipList.Insert.{Increasing-right}
use key_value_store.Memtable.Entries.{EntrySnapshot, find_entry, find_entry-append, find_entry-none}

unfoldable pub entry_at : SkipList → ℕ → EntrySnapshot
entry_at s a = record { key = s.key a; value = s.value a; deleted = s.deleted a; seq = s.seq a }

-- A skip list stands for the entries of its nodes in order.
pub record Represents (s : SkipList) (es : List EntrySnapshot) : Type 0 where
  pub order : List ℕ
  pub shows : Shows s order
  pub content : map (entry_at s) order ≡ es

-- The nodes below the key and the others, with what a search for the key finds between them.
pub record Split (s : SkipList) (key : List ℕ) (es : List EntrySnapshot) : Type 0 where
  pub A : List ℕ
  pub B : List ℕ
  pub shows : Shows s (A ++ B)
  pub below : All (Below s key) A
  pub above : All (Above s key) B
  pub content : map (entry_at s) A ++ map (entry_at s) B ≡ es
  pub ends : (search_path s key).0 ≡ last head A
  pub noted : (j : ℕ) → j < s.height → (search_path s key).1 j ≡ goal s key A B shows below above j
  pub next : Chain (s.forward 0) (last head A) B

module _ (s : SkipList) (key : List ℕ) (es : List EntrySnapshot) where
  pub split : Represents s es → Split s key es
  split r =
      let A = before s.key key r.order in
      let B = after s.key key r.order in
      let whole : r.order ≡ A ++ B = sym (before-after s.key key r.order) in
      let shows : Shows s (A ++ B) = subst (λ t. Shows s t) whole r.shows in
      let below = before_below s.key key r.order in
      let above = after_above s.key key r.order r.shows.increasing in
      let path = search_path_lem s key A B shows below above in
      let tall : All (λ a. 0 < s.levels a) (A ++ B) =
        All_mono (IsNode s) (λ a. 0 < s.levels a) (A ++ B) (λ a h. h.2) shows.nodes in
      record {
        A = A;
        B = B;
        shows = shows;
        below = below;
        above = above;
        content =
            sym (map-append (entry_at s) A B)
            ∙ ap (λ t. map (entry_at s) t) (sym whole)
            ∙ r.content;
        ends =
            path.0
            ∙ ap (λ t. last head t)
                (at_level_all s.levels 0 A (All-left (λ a. 0 < s.levels a) A B tall));
        noted = path.1;
        next = Chain-right (s.forward 0) head A B (
            subst (λ t. Chain (s.forward 0) head t) (at_level_all s.levels 0 (A ++ B) tall)
              (shows.chains 0));
      }

  -- Entries of nodes.
  pub Below-entries :
      (A : List ℕ) → All (Below s key) A → All (λ f. less f.key key ≡ true) (map (entry_at s) A)
  unfolding entry_at
  Below-entries [] h = tt
  Below-entries (a ∷ A) h = (h.0, Below-entries A h.1)

  -- A node above the key, and not at it, is not at the key, and neither are those behind it.
  pub absent-entries :
      (B : List ℕ)
      → All (λ b. less key (s.key b) ≡ true) B
      → All (λ f. same f.key key ≡ false) (map (entry_at s) B)
  unfolding entry_at
  absent-entries [] h = tt
  absent-entries (b ∷ B) h = (
    same_of_ne (s.key b) key (λ e. cc (h.0, ap (λ t. less t (s.key b)) e, less_irrefl (s.key b))),
    absent-entries B h.1,
  )

  pub behind :
      (b : ℕ) (B : List ℕ)
      → less (s.key b) key ≡ false
      → Increasing s.key (b ∷ B)
      → same (s.key b) key ≡ false
      → All (λ c. less key (s.key c) ≡ true) (b ∷ B)
  behind b B h inc d =
      let first : less key (s.key b) ≡ true = elim (Bool-cases (less key (s.key b))) [
        | inl e ↦ e
        | inr e ↦ cc (less_total (s.key b) key h e, d, same_refl key)
      ] in
      (
        first,
        All_mono (λ c. less (s.key b) (s.key c) ≡ true) (λ c. less key (s.key c) ≡ true) B
            (λ c. less_trans key (s.key b) (s.key c) first) inc.0,
      )

-- Where a search ends, the next node.
unfoldable pub first : List ℕ → ℕ
first [] = nil
first (b ∷ B) = b

pub first_lem : (next : ℕ → ℕ) (a : ℕ) (B : List ℕ) → Chain next a B → next a ≡ first B
unfolding first
first_lem next a [] h = h
first_lem next a (b ∷ B) h = h.0

module _ (s : SkipList) (key : List ℕ) where
  pub holds_lem : (b : ℕ) → head < b → holds s key b ≡ same (s.key b) key
  holds_lem b h = ground arith

  get_case :
      (B : List ℕ)
      → All (λ b. head < b) B
      → All (Above s key) B
      → Increasing s.key B
      → Option.map (entry_at s) (if holds s key (first B) then some (first B) else none)
        ≡ find_entry key (map (entry_at s) B)
  unfolding first find_entry entry_at
  get_case [] n hi inc = refl
  get_case (b ∷ B) n hi inc = rw (holds_lem b n.0) (elim (Bool-cases (same (s.key b) key)) [
    | inl e ↦ rw e refl
    | inr e ↦ rw e (
        sym (
          find_entry-none key (map (entry_at s) B)
            (absent-entries s key [] B (behind s key [] b B hi.0 inc e).1)))
  ])

-- A search finds the entry for the key, if there is one.
pub get_lem :
    (s : SkipList) (key : List ℕ) (es : List EntrySnapshot)
    → Represents s es
    → Option.map (entry_at s) (get key s) ≡ find_entry key es
unfolding get
get_lem s key es r =
    let sp = split s key es r in
    let at : s.forward 0 (search_path s key).0 ≡ first sp.B =
      ap (λ t. s.forward 0 t) sp.ends ∙ first_lem (s.forward 0) (last head sp.A) sp.B sp.next in
    ap (λ x. Option.map (entry_at s) (if holds s key x then some x else none)) at
    ∙ get_case s key sp.B
        (All_mono (IsNode s) (λ b. head < b) sp.B (λ b h. h.0)
          (All-right (IsNode s) sp.A sp.B sp.shows.nodes))
        sp.above (Increasing-right s.key sp.A sp.B sp.shows.increasing)
    ∙ sym (
        find_entry-append key (map (entry_at s) sp.A) (map (entry_at s) sp.B)
          (Below-entries s key es sp.A sp.below))
    ∙ ap (λ t. find_entry key t) sp.content
