-- ===== src/Memtable/SkipList/Chains.antt =====
-- memtable/skiplist.go: the nodes of a skip list in key order, level by level.
use key_value_store.Prelude.{
  ℕ, suc, ◌≤◌, ◌<◌, ◌≡◌, ◌≢◌, refl, ap, ◌∙◌, inl, inr, List, [], ◌∷◌, ◌++◌, true, All, arith,
  length, ltb, if◌then◌else◌, Bool-cases,
}

-- From `a` the pointers lead through the nodes of a list, and then to nil.
abbrev pub Chain : (ℕ → ℕ) → ℕ → List ℕ → Type 0
Chain next a [] = next a ≡ 0
Chain next a (x ∷ xs) = (next a ≡ x) × Chain next x xs

abbrev pub last : ℕ → List ℕ → ℕ
last a [] = a
last a (x ∷ xs) = last x xs

-- The nodes that have a pointer at level i.
unfoldable pub at_level : (ℕ → ℕ) → ℕ → List ℕ → List ℕ
at_level levels i [] = []
at_level levels i (a ∷ xs) =
    let rest = at_level levels i xs in if ltb i (levels a) then a ∷ rest else rest

abbrev pub Distinct : List ℕ → Type 0
Distinct [] = Unit {0}
Distinct (x ∷ xs) = All (λ y. x ≢ y) xs × Distinct xs

module _ (P : ℕ → Type 0) where
  pub All-at_level :
      (levels : ℕ → ℕ) (i : ℕ) (xs : List ℕ) → All P xs → All P (at_level levels i xs)
  unfolding at_level
  All-at_level levels i [] h = tt
  All-at_level levels i (x ∷ xs) h = elim (Bool-cases (ltb i (levels x))) [
    | inl e ↦ rw e (h.0, All-at_level levels i xs h.1)
    | inr e ↦ rw e (All-at_level levels i xs h.1)
  ]

  pub All-last : (x : ℕ) (xs : List ℕ) → P x → All P xs → P (last x xs)
  All-last x [] p h = p
  All-last x (y ∷ ys) p h = All-last y ys h.0 h.1

pub last-append : (a : ℕ) (xs ys : List ℕ) → last a (xs ++ ys) ≡ last (last a xs) ys
last-append a [] ys = refl
last-append a (x ∷ xs) ys = last-append x xs ys

pub at_level-append :
    (levels : ℕ → ℕ) (i : ℕ) (xs ys : List ℕ)
    → at_level levels i (xs ++ ys) ≡ at_level levels i xs ++ at_level levels i ys
unfolding at_level
at_level-append levels i [] ys = refl
at_level-append levels i (x ∷ xs) ys = ground (arith, at_level-append levels i xs ys)

pub length-at_level :
    (levels : ℕ → ℕ) (i : ℕ) (xs : List ℕ) → length (at_level levels i xs) ≤ length xs
unfolding at_level
length-at_level levels i [] = omega arith
length-at_level levels i (x ∷ xs) = ground (arith, length-at_level levels i xs)

pub at_level_all :
    (levels : ℕ → ℕ) (i : ℕ) (xs : List ℕ) → All (λ a. i < levels a) xs → at_level levels i xs ≡ xs
unfolding at_level
at_level_all levels i [] h = refl
at_level_all levels i (x ∷ xs) h = ground (arith, at_level_all levels i xs h.1, h.0)

pub at_level_none :
    (levels : ℕ → ℕ) (i : ℕ) (xs : List ℕ) → All (λ a. levels a ≤ i) xs → at_level levels i xs ≡ []
unfolding at_level
at_level_none levels i [] h = refl
at_level_none levels i (x ∷ xs) h = ground (arith, at_level_none levels i xs h.1, h.0)

-- Of the nodes `xs` of a level: a part in front that ends where the nodes `zs` of the level above do.
abbrev Front : List ℕ → List ℕ → Type 0
Front zs xs = (P : List ℕ) × (Q : List ℕ) × (xs ≡ P ++ Q) × ((a : ℕ) → last a zs ≡ last a P)

Front-cons : (x : ℕ) (zs xs : List ℕ) → Front zs xs → Front zs (x ∷ xs)
Front-cons x [] xs f = ([], x ∷ xs, refl, λ a. refl)
Front-cons x (z ∷ zs) xs (P, Q, split, ends) = (x ∷ P, Q, ap (λ t. x ∷ t) split, λ a. ends x)

Front-both : (x : ℕ) (zs xs : List ℕ) → Front zs xs → Front (x ∷ zs) (x ∷ xs)
Front-both x zs xs (P, Q, split, ends) = (x ∷ P, Q, ap (λ t. x ∷ t) split, λ a. ends x)

pub at_level-Front :
    (levels : ℕ → ℕ) (i : ℕ) (xs : List ℕ)
    → Front (at_level levels (suc i) xs) (at_level levels i xs)
unfolding at_level
at_level-Front levels i [] = ([], [], refl, λ a. refl)
at_level-Front levels i (x ∷ xs) =
    let rest = at_level-Front levels i xs in
    elim (Bool-cases (ltb (suc i) (levels x))) [
      | inl e ↦
          let low : ltb i (levels x) ≡ true = ground arith in
          rw (e, low) (Front-both x (at_level levels (suc i) xs) (at_level levels i xs) rest)
      | inr e ↦ rw e (elim (Bool-cases (ltb i (levels x))) [
        | inl low ↦ rw low (Front-cons x (at_level levels (suc i) xs) (at_level levels i xs) rest)
        | inr high ↦ rw high rest
      ])
    ]

pub Chain-right :
    (next : ℕ → ℕ) (a : ℕ) (xs ys : List ℕ) → Chain next a (xs ++ ys) → Chain next (last a xs) ys
Chain-right next a [] ys h = h
Chain-right next a (x ∷ xs) ys h = Chain-right next x xs ys h.1

-- Pointers that are the same along a chain make the same chain.
pub Chain_frame :
    (f g : ℕ → ℕ) (a b : ℕ) (xs : List ℕ)
    → g b ≡ f a
    → All (λ x. g x ≡ f x) xs
    → Chain f a xs
    → Chain g b xs
Chain_frame f g a b [] e same h = e ∙ h
Chain_frame f g a b (x ∷ xs) e same h = (e ∙ h.0, Chain_frame f g x x xs same.0 same.1 h.1)
