-- ===== src/Memtable/SkipList/Search.antt =====
-- memtable/skiplist.go: what a skip list holds, and where a search ends.
use mathlib.Core.Path.{subst}
use key_value_store.Prelude.{
  ℕ, zero, suc, ◌+◌, ◌≤◌, ◌<◌, ◌≡◌, refl, sym, ap, ◌∙◌, inl, inr, List, [], ◌∷◌, ◌++◌, true, false,
  All, All-left, All-right, All_mono, arith, length, length-append, if◌then◌else◌, Bool-cases,
  append_assoc, ◌==◌,
}
use key_value_store.Bytes.Order.{less, less_trans}
use key_value_store.Memtable.SkipList.{SkipList, head, walk, descend, search_path, write}
use key_value_store.Memtable.SkipList.Chains.{
  Chain, last, at_level, at_level-append, at_level-Front, at_level_none, length-at_level,
  last-append, Chain-right, All-at_level,
}

-- The keys of nodes, in strictly increasing order.
abbrev pub Increasing : (ℕ → List ℕ) → List ℕ → Type 0
Increasing key [] = Unit {0}
Increasing key (x ∷ xs) = All (λ y. less (key x) (key y) ≡ true) xs × Increasing key xs

-- The nodes below a key, and the others.
unfoldable pub before : (ℕ → List ℕ) → List ℕ → List ℕ → List ℕ
before key k [] = []
before key k (x ∷ xs) = let rest = before key k xs in if less (key x) k then x ∷ rest else []

unfoldable pub after : (ℕ → List ℕ) → List ℕ → List ℕ → List ℕ
after key k [] = []
after key k (x ∷ xs) = let rest = after key k xs in if less (key x) k then rest else x ∷ xs

module _ (key : ℕ → List ℕ) (k : List ℕ) where
  pub before-after : (xs : List ℕ) → before key k xs ++ after key k xs ≡ xs
  unfolding before after
  before-after [] = refl
  before-after (x ∷ xs) = ground (arith, before-after xs)

  pub before_below : (xs : List ℕ) → All (λ a. less (key a) k ≡ true) (before key k xs)
  unfolding before
  before_below [] = tt
  before_below (x ∷ xs) = elim (Bool-cases (less (key x) k)) [
    | inl e ↦ rw e (e, before_below xs)
    | inr e ↦ rw e tt
  ]

  not_below :
      (x y : ℕ) → less (key x) k ≡ false → less (key x) (key y) ≡ true → less (key y) k ≡ false
  not_below x y h lt = elim (Bool-cases (less (key y) k)) [
    | inl e ↦ absurd (cc (less_trans (key x) (key y) k lt e))
    | inr e ↦ e
  ]

  pub after_above :
      (xs : List ℕ) → Increasing key xs → All (λ a. less (key a) k ≡ false) (after key k xs)
  unfolding after
  after_above [] h = tt
  after_above (x ∷ xs) h = elim (Bool-cases (less (key x) k)) [
    | inl e ↦ rw e (after_above xs h.1)
    | inr e ↦ rw e (
      e,
      All_mono (λ y. less (key x) (key y) ≡ true) (λ y. less (key y) k ≡ false) xs
          (λ y. not_below x y e) h.0,
    )
  ]

abbrev pub IsNode : SkipList → ℕ → Type 0
IsNode s a = (head < a) × (a < s.next_node) × (0 < s.levels a) × (s.levels a ≤ s.height)

-- The list holds these nodes, in this order.
pub record Shows (s : SkipList) (order : List ℕ) : Type 0 where
  pub chains : (i : ℕ) → Chain (s.forward i) head (at_level s.levels i order)
  pub nodes : All (IsNode s) order
  pub increasing : Increasing s.key order
  pub count : s.length ≡ length order
  pub fresh : s.next_node ≡ length order + 2

module _ (s : SkipList) (key : List ℕ) where
  abbrev pub Below : ℕ → Type 0
  Below a = less (s.key a) key ≡ true

  abbrev pub Above : ℕ → Type 0
  Above a = less (s.key a) key ≡ false

  pub walk_lem :
      (fuel i x : ℕ) (A B : List ℕ)
      → Chain (s.forward i) x (A ++ B)
      → All (λ a. head < a) A
      → All Below A
      → All Above B
      → length A < fuel
      → walk fuel s key i x ≡ last x A
  unfolding walk
  walk_lem zero i x A B c n lo hi f = absurd (omega arith)
  walk_lem (suc fuel) i x [] [] c n lo hi f = rw c refl
  walk_lem (suc fuel) i x [] (b ∷ bs) c n lo hi f = ground (arith, c.0, hi.0)
  walk_lem (suc fuel) i x (a ∷ xs) B c n lo hi f =
      ground (arith, c.0, lo.0, n.0, walk_lem fuel i a xs B c.1 n.1 lo.1 hi (omega arith))

  -- The places of `update` that are not searched any more keep their nodes.
  descend_keeps : (n x : ℕ) (u : ℕ → ℕ) (j : ℕ) → n ≤ j → (descend n s key x u).1 j ≡ u j
  unfolding descend
  descend_keeps zero x u j h = refl
  descend_keeps (suc n) x u j h =
      descend_keeps n (walk s.next_node s key n x) (write u n (walk s.next_node s key n x)) j
        (omega arith)
      ∙ ground arith

  module _ (A B : List ℕ) (shows : Shows s (A ++ B)) (lo : All Below A) (hi : All Above B) where
    -- On level i the search ends at the last node of the level below the key.
    abbrev pub goal : ℕ → ℕ
    goal i = last head (at_level s.levels i A)

    walk-goal : (i : ℕ) → walk s.next_node s key i (goal (suc i)) ≡ goal i
    walk-goal i =
        let (P, Q, split, ends) = at_level-Front s.levels i A in
        let chain : Chain (s.forward i) head (P ++ (Q ++ at_level s.levels i B)) =
          subst (λ t. Chain (s.forward i) head t)
            (at_level-append s.levels i A B
              ∙ ap (λ t. t ++ at_level s.levels i B) split
              ∙ append_assoc P Q (at_level s.levels i B))
            (shows.chains i) in
        let level : All (λ a. head < a) (P ++ Q) =
          subst (λ t. All (λ a. head < a) t) split
            (All-at_level (λ a. head < a) s.levels i A
              (All_mono (IsNode s) (λ a. head < a) A (λ a h. h.0)
                (All-left (IsNode s) A B shows.nodes))) in
        let low : All Below (P ++ Q) =
          subst (λ t. All Below t) split (All-at_level Below s.levels i A lo) in
        let fuel : length Q < s.next_node = omega (
          arith,
          shows.fresh,
          length-append A B,
          length-at_level s.levels i A,
          ap (λ (t : List ℕ). length t) split,
          length-append P Q,
        ) in
        rw (ends head) (
          walk_lem s.next_node i (last head P) Q (at_level s.levels i B)
            (Chain-right (s.forward i) head P (Q ++ at_level s.levels i B) chain)
            (All-right (λ a. head < a) P Q level) (All-right Below P Q low)
            (All-at_level Above s.levels i B hi) fuel
          ∙ sym (last-append head P Q)
          ∙ ap (λ t. last head t) (sym split))

    abbrev Found : ℕ → ℕ × (ℕ → ℕ) → Type 0
    Found n r = (r.0 ≡ goal 0) × ((j : ℕ) → j < n → r.1 j ≡ goal j)

    descend_lem : (n x : ℕ) (u : ℕ → ℕ) → x ≡ goal n → Found n (descend n s key x u)
    unfolding descend
    descend_lem zero x u e = (e, λ j h. absurd (omega arith))
    descend_lem (suc n) x u e =
        let y = walk s.next_node s key n x in
        let at : y ≡ goal n = ap (λ t. walk s.next_node s key n t) e ∙ walk-goal n in
        let rest = descend_lem n y (write u n y) at in
        (rest.0, λ j h. last_place n j y u h at rest.1)
      where
        last_place :
            (n j y : ℕ) (u : ℕ → ℕ)
            → j < suc n
            → y ≡ goal n
            → ((j : ℕ) → j < n → (descend n s key y (write u n y)).1 j ≡ goal j)
            → (descend n s key y (write u n y)).1 j ≡ goal j
        last_place n j y u h at below = elim (Bool-cases (j == n)) [
          | inl e ↦ ground (arith, descend_keeps n y (write u n y) j)
          | inr e ↦ below j (ground arith)
        ]

    -- The search ends at the last node below the key, and has noted the last one of each level.
    pub search_path_lem :
        ((search_path s key).0 ≡ goal 0)
        × ((j : ℕ) → j < s.height → (search_path s key).1 j ≡ goal j)
    search_path_lem =
        descend_lem s.height head (λ _. 0)
          (sym (
            ap (λ t. last head t)
              (at_level_none s.levels s.height A (
                All_mono (IsNode s) (λ a. s.levels a ≤ s.height) A (λ a h. h.3)
                  (All-left (IsNode s) A B shows.nodes)))))
