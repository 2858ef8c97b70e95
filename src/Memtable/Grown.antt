-- ===== src/Memtable/Grown.antt =====
-- memtable/skiplist.go: what a skip list shows once put has replaced a value or added a node.
use mathlib.Core.Path.{subst}
use mathlib.Core.List.{map-append}
use key_value_store.Prelude.{
  ℕ, ◌+◌, ◌≤◌, ◌<◌, ◌≡◌, ◌≢◌, refl, sym, ap, ◌∙◌, inl, inr, List, [], ◌∷◌, ◌++◌, Bool, true, All,
  All-append, All-left, All-right, All_mono, All_both, arith, ltb, leb, max, map, length-append,
  if◌then◌else◌, Bool-cases, leb→le,
}
use key_value_store.Bytes.Order.{less}
use key_value_store.Memtable.SkipList.{SkipList, head, write, link, widen, random_level}
use key_value_store.Memtable.SkipList.Chains.{
  Chain, last, at_level, at_level_none, at_level-append, Distinct, All-at_level,
}
use key_value_store.Memtable.SkipList.Search.{Increasing, IsNode, Shows, Below}
use key_value_store.Memtable.SkipList.Insert.{
  write_ne, write_self, linked, link_lem, Chain-linked, at_level_frame, Increasing-frame,
  Increasing-insert, Increasing-at_level, Increasing-Distinct, Distinct-middle,
}
use key_value_store.Memtable.Refine.{entry_at}

content_frame :
    (s t : SkipList) (xs : List ℕ)
    → All (λ a. entry_at t a ≡ entry_at s a) xs
    → map (entry_at t) xs ≡ map (entry_at s) xs
content_frame s t [] h = refl
content_frame s t (x ∷ xs) h = rw (h.0, content_frame s t xs h.1) refl

module _ (s : SkipList) (A B : List ℕ) (b : ℕ) (shows : Shows s (A ++ b ∷ B)) (value : List ℕ)
    (seq : ℕ) (deleted : Bool) where
  -- The list after the value of b was replaced.
  abbrev pub over : SkipList
  over = record s {
    value = write s.value b value;
    deleted = write s.deleted b deleted;
    seq = write s.seq b seq;
  }

  pub over-Shows : Shows over (A ++ b ∷ B)
  over-Shows = record {
    chains = shows.chains;
    nodes = shows.nodes;
    increasing = shows.increasing;
    count = shows.count;
    fresh = shows.fresh;
  }

  over_at : (a : ℕ) → b ≢ a → entry_at over a ≡ entry_at s a
  unfolding entry_at
  over_at a h = ground arith

  pub over_content :
      map (entry_at over) (A ++ b ∷ B)
      ≡ map (entry_at s) A
        ++ (record { key = s.key b; value = value; deleted = deleted; seq = seq }
            ∷ map (entry_at s) B)
  unfolding entry_at
  over_content =
      let apart = Distinct-middle b A B (Increasing-Distinct s.key (A ++ b ∷ B) shows.increasing) in
      let same_at = λ (xs : List ℕ) (h : All (λ x. b ≢ x) xs).
        content_frame s over xs
          (All_mono (λ x. b ≢ x) (λ a. entry_at over a ≡ entry_at s a) xs over_at h) in
      map-append (entry_at over) A (b ∷ B)
      ∙ rw (same_at A apart.0, same_at B apart.1)
          (ap (λ e. map (entry_at s) A ++ e ∷ map (entry_at s) B) (ground arith))

pub random_level_pos : (rnd : ℕ → Bool) → 0 < (random_level rnd).0
unfolding random_level
random_level_pos rnd = omega arith

module _ (s : SkipList) (A B : List ℕ) (shows : Shows s (A ++ B)) (key value : List ℕ) (seq : ℕ)
    (deleted : Bool) (update : ℕ → ℕ) (level : ℕ) (rnd : ℕ → Bool) (pos : 0 < level)
    (below : All (Below s key) A) (above : All (λ b. less key (s.key b) ≡ true) B)
    (noted : (j : ℕ) → j < s.height → update j ≡ last head (at_level s.levels j A)) where
  abbrev pub n : ℕ
  n = s.next_node

  -- The list after a node was added.
  abbrev pub grown : SkipList
  grown = record {
    key = write s.key n key;
    value = write s.value n value;
    deleted = write s.deleted n deleted;
    seq = write s.seq n seq;
    levels = write s.levels n level;
    forward = link level n (widen s.height level update) s.forward;
    height = max s.height level;
    length = s.length + 1;
    next_node = s.next_node + 1;
    rnd = rnd;
  }

  old : All (λ a. n ≢ a) (A ++ B)
  old = All_mono (IsNode s) (λ a. n ≢ a) (A ++ B) (λ a h e. omega (arith, h.1)) shows.nodes

  grown_at : (a : ℕ) → n ≢ a → entry_at grown a ≡ entry_at s a
  unfolding entry_at
  grown_at a h = ground arith

  grown_level :
      (i : ℕ)
      → ltb i level ≡ true
      → widen s.height level update i ≡ last head (at_level s.levels i A)
  grown_level i h = elim (Bool-cases (leb s.height i)) [
    | inl e ↦
        let short =
          All_mono (IsNode s) (λ a. s.levels a ≤ i) A
            (λ a k. omega (arith, k.3, leb→le s.height i e))
            (All-left (IsNode s) A B shows.nodes) in
        rw (e, h, at_level_none s.levels i A short) refl
    | inr e ↦ rw e (noted i (ground arith))
  ]

  -- The nodes of a level, without the new one and with it.
  level_old :
      (i : ℕ) → at_level s.levels i (A ++ B) ≡ at_level s.levels i A ++ at_level s.levels i B
  level_old i = at_level-append s.levels i A B

  level_new :
      (i : ℕ)
      → at_level grown.levels i (A ++ n ∷ B)
        ≡ at_level s.levels i A
          ++ (if ltb i level then n ∷ at_level s.levels i B else at_level s.levels i B)
  unfolding at_level
  level_new i =
      let same_at = λ (xs : List ℕ) (h : All (λ x. n ≢ x) xs).
        at_level_frame s.levels grown.levels i xs (
          All_mono (λ x. n ≢ x) (λ x. grown.levels x ≡ s.levels x) xs
            (λ x d. write_ne s.levels n x level (λ e. d (sym e))) h) in
      at_level-append grown.levels i A (n ∷ B)
      ∙ rw
          (
            same_at A (All-left (λ x. n ≢ x) A B old),
            same_at B (All-right (λ x. n ≢ x) A B old),
            write_self s.levels n level,
          )
          refl

  level_Distinct : (i : ℕ) → Distinct (head ∷ at_level s.levels i (A ++ B))
  level_Distinct i = (
    All-at_level (λ x. head ≢ x) s.levels i (A ++ B)
        (All_mono (IsNode s) (λ x. head ≢ x) (A ++ B) (λ a h e. omega (arith, h.0)) shows.nodes),
    Increasing-Distinct s.key (at_level s.levels i (A ++ B))
        (Increasing-at_level s.key s.levels i (A ++ B) shows.increasing),
  )

  grown_chain : (i : ℕ) → Chain (grown.forward i) head (at_level grown.levels i (A ++ n ∷ B))
  grown_chain i =
      let C = at_level s.levels i A in
      let D = at_level s.levels i B in
      let u = widen s.height level update in
      let chain : Chain (s.forward i) head (C ++ D) =
        subst (λ t. Chain (s.forward i) head t) (level_old i) (shows.chains i) in
      let step = link_lem level n u s.forward i in
      elim (Bool-cases (ltb i level)) [
        | inl e ↦
            let apart : All (λ x. n ≢ x) (C ++ D) =
              subst (λ t. All (λ x. n ≢ x) t) (level_old i)
                (All-at_level (λ x. n ≢ x) s.levels i (A ++ B) old) in
            let free : n ≢ head = λ h. omega (arith, h, shows.fresh) in
            let put_in : Chain (linked (s.forward i) n (last head C)) head (C ++ n ∷ D) =
              Chain-linked (s.forward i) n head C D chain
                (subst (λ t. Distinct (head ∷ t)) (level_old i) (level_Distinct i)) free apart in
            rw (level_new i, step, grown_level i e, e) put_in
        | inr e ↦ rw (level_new i, step, e) chain
      ]

  grown_Increasing : Increasing grown.key (A ++ n ∷ B)
  grown_Increasing =
      let kept : All (λ x. grown.key x ≡ s.key x) (A ++ B) =
        All_mono (λ x. n ≢ x) (λ x. grown.key x ≡ s.key x) (A ++ B)
          (λ x d. write_ne s.key n x key (λ e. d (sym e))) old in
      let here : grown.key n ≡ key = write_self s.key n key in
      Increasing-insert grown.key n A B
        (Increasing-frame s.key grown.key (A ++ B) kept shows.increasing)
        (All_both (λ x. grown.key x ≡ s.key x) (Below s key)
          (λ a. less (grown.key a) (grown.key n) ≡ true) A (λ a e h. rw (e, here) h)
          (All-left (λ x. grown.key x ≡ s.key x) A B kept) below)
        (All_both (λ x. grown.key x ≡ s.key x) (λ b. less key (s.key b) ≡ true)
          (λ b. less (grown.key n) (grown.key b) ≡ true) B (λ b e h. rw (e, here) h)
          (All-right (λ x. grown.key x ≡ s.key x) A B kept) above)

  grown-IsNode : (a : ℕ) → IsNode s a → IsNode grown a
  grown-IsNode a h = ground (arith, h.0, h.1, h.2, h.3)

  grown_nodes : All (IsNode grown) (A ++ n ∷ B)
  grown_nodes =
      let kept = All_mono (IsNode s) (IsNode grown) (A ++ B) grown-IsNode shows.nodes in
      let here : IsNode grown n = ground (arith, shows.fresh, pos) in
      All-append (IsNode grown) A (n ∷ B) (All-left (IsNode grown) A B kept)
        (here, All-right (IsNode grown) A B kept)

  pub grown-Shows : Shows grown (A ++ n ∷ B)
  grown-Shows = record {
    chains = grown_chain;
    nodes = grown_nodes;
    increasing = grown_Increasing;
    count = omega (arith, shows.count, length-append A B, length-append A (n ∷ B));
    fresh = omega (arith, shows.fresh, length-append A B, length-append A (n ∷ B));
  }

  pub grown_content :
      map (entry_at grown) (A ++ n ∷ B)
      ≡ map (entry_at s) A
        ++ (record { key = key; value = value; deleted = deleted; seq = seq } ∷ map (entry_at s) B)
  unfolding entry_at
  grown_content =
      let same_at = λ (xs : List ℕ) (h : All (λ x. n ≢ x) xs).
        content_frame s grown xs
          (All_mono (λ x. n ≢ x) (λ a. entry_at grown a ≡ entry_at s a) xs grown_at h) in
      map-append (entry_at grown) A (n ∷ B)
      ∙ rw (same_at A (All-left (λ x. n ≢ x) A B old), same_at B (All-right (λ x. n ≢ x) A B old))
          (ap (λ e. map (entry_at s) A ++ e ∷ map (entry_at s) B) (ground arith))
