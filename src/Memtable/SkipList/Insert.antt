-- ===== src/Memtable/SkipList/Insert.antt =====
-- memtable/skiplist.go: the chains of the levels, once a node has been linked in.
use key_value_store.Prelude.{
  ℕ, zero, suc, ◌≡◌, ◌≢◌, refl, sym, ap, ◌∙◌, inl, inr, List, [], ◌∷◌, ◌++◌, true, All, All-append,
  All-left, All-right, All_mono, All_both, arith, ltb, if◌then◌else◌, Bool-cases, ◌==◌, ==_refl,
  ==→≡, le→ltb, lt→ltb, if_false,
}
use key_value_store.Bytes.Order.{less, less_irrefl}
use key_value_store.Memtable.SkipList.{write, link}
use key_value_store.Memtable.SkipList.Chains.{
  Chain, last, at_level, Distinct, All-at_level, All-last, Chain_frame,
}
use key_value_store.Memtable.SkipList.Search.{Increasing}

pub write_ne {ℓ} : {A : Type ℓ} (f : ℕ → A) (a b : ℕ) (v : A) → b ≢ a → write f a v b ≡ f b
write_ne f a b v h = ground arith

pub write_self {ℓ} : {A : Type ℓ} (f : ℕ → A) (a : ℕ) (v : A) → write f a v a ≡ v
write_self f a v = rw (==_refl a) refl

-- The pointers of one level, once the node n stands behind the node p.
abbrev pub linked : (ℕ → ℕ) → ℕ → ℕ → ℕ → ℕ
linked f n p = write (write f n (f p)) p n

pub link_lem :
    (L n : ℕ) (u : ℕ → ℕ) (f : ℕ → ℕ → ℕ) (i : ℕ)
    → link L n u f i ≡ (if ltb i L then linked (f i) n (u i) else f i)
unfolding link
link_lem zero n u f i = rw (le→ltb i 0 (omega arith)) refl
link_lem (suc L) n u f i = elim (Bool-cases (i == L)) [
  | inl e ↦
      let same : i ≡ L = ==→≡ i L e in
      let old : link L n u f L ≡ f L =
        link_lem L n u f L ∙ if_false (linked (f L) n (u L)) (f L) (le→ltb L L (omega arith)) in
      rw same (
        write_self (link L n u f) L (linked (link L n u f L) n (u L))
        ∙ ap (λ t. linked t n (u L)) old
        ∙ rw (lt→ltb L (suc L) (omega arith)) refl)
  | inr e ↦
      let ne : i ≢ L = λ h. cc (e, ==_refl L, h) in
      let test : ltb i L ≡ ltb i (suc L) = ground (arith, ne) in
      write_ne (link L n u f) L i (linked (link L n u f L) n (u L)) ne
      ∙ link_lem L n u f i
      ∙ ap (λ b. if b then linked (f i) n (u i) else f i) test
]

module _ (f : ℕ → ℕ) (n : ℕ) where
  linked_other : (p x : ℕ) → x ≢ p → x ≢ n → linked f n p x ≡ f x
  linked_other p x h k = ground arith

  pub Chain-linked :
      (a : ℕ) (C D : List ℕ)
      → Chain f a (C ++ D)
      → Distinct (a ∷ (C ++ D))
      → n ≢ a
      → All (λ x. n ≢ x) (C ++ D)
      → Chain (linked f n (last a C)) a (C ++ n ∷ D)
  Chain-linked a [] D c d na nd = (
    write_self (write f n (f a)) a n,
    Chain_frame f (linked f n a) a n D (write_ne (write f n (f a)) a n n na ∙ write_self f n (f a))
        (All_both (λ y. a ≢ y) (λ y. n ≢ y) (λ y. linked f n a y ≡ f y) D
          (λ y h k. linked_other a y (λ e. h (sym e)) (λ e. k (sym e))) d.0 nd)
        c,
  )
  Chain-linked a (c ∷ cs) D h d na nd = (
    linked_other (last c cs) a (All-last (λ y. a ≢ y) c cs d.0.0 (All-left (λ y. a ≢ y) cs D d.0.1))
          (λ e. na (sym e))
        ∙ h.0,
    Chain-linked c cs D h.1 d.1 nd.0 nd.1,
  )

-- A new node is on the levels below its own.
pub at_level_frame :
    (f g : ℕ → ℕ) (i : ℕ) (xs : List ℕ)
    → All (λ x. g x ≡ f x) xs
    → at_level g i xs ≡ at_level f i xs
unfolding at_level
at_level_frame f g i [] h = refl
at_level_frame f g i (x ∷ xs) h = rw (h.0, at_level_frame f g i xs h.1) refl

pub Increasing-frame :
    (f g : ℕ → List ℕ) (xs : List ℕ) → All (λ x. g x ≡ f x) xs → Increasing f xs → Increasing g xs
Increasing-frame f g [] h k = tt
Increasing-frame f g (x ∷ xs) h k = (
  All_both (λ y. g y ≡ f y) (λ y. less (f x) (f y) ≡ true) (λ y. less (g x) (g y) ≡ true) xs
      (λ y e lt. rw (e, h.0) lt) h.1 k.0,
  Increasing-frame f g xs h.1 k.1,
)

module _ (key : ℕ → List ℕ) where
  pub Increasing-insert :
      (n : ℕ) (A B : List ℕ)
      → Increasing key (A ++ B)
      → All (λ a. less (key a) (key n) ≡ true) A
      → All (λ b. less (key n) (key b) ≡ true) B
      → Increasing key (A ++ n ∷ B)
  Increasing-insert n [] B h lo hi = (hi, h)
  Increasing-insert n (a ∷ xs) B h lo hi = (
    All-append (λ y. less (key a) (key y) ≡ true) xs (n ∷ B)
        (All-left (λ y. less (key a) (key y) ≡ true) xs B h.0)
        (lo.0, All-right (λ y. less (key a) (key y) ≡ true) xs B h.0),
    Increasing-insert n xs B h.1 lo.1 hi,
  )

  pub Increasing-at_level :
      (levels : ℕ → ℕ) (i : ℕ) (xs : List ℕ)
      → Increasing key xs
      → Increasing key (at_level levels i xs)
  unfolding at_level
  Increasing-at_level levels i [] h = tt
  Increasing-at_level levels i (x ∷ xs) h = elim (Bool-cases (ltb i (levels x))) [
    | inl e ↦ rw e (
      All-at_level (λ y. less (key x) (key y) ≡ true) levels i xs h.0,
      Increasing-at_level levels i xs h.1,
    )
    | inr e ↦ rw e (Increasing-at_level levels i xs h.1)
  ]

  less-ne : (x y : ℕ) → less (key x) (key y) ≡ true → x ≢ y
  less-ne x y h e = cc (less_irrefl (key x), ap key e)

  pub Increasing-Distinct : (xs : List ℕ) → Increasing key xs → Distinct xs
  Increasing-Distinct [] h = tt
  Increasing-Distinct (x ∷ xs) h = (
    All_mono (λ y. less (key x) (key y) ≡ true) (λ y. x ≢ y) xs (less-ne x) h.0,
    Increasing-Distinct xs h.1,
  )

  pub Increasing-right : (xs ys : List ℕ) → Increasing key (xs ++ ys) → Increasing key ys
  Increasing-right [] ys h = h
  Increasing-right (x ∷ xs) ys h = Increasing-right xs ys h.1

pub Distinct-middle :
    (n : ℕ) (xs ys : List ℕ) → Distinct (xs ++ n ∷ ys) → All (λ x. n ≢ x) xs × All (λ x. n ≢ x) ys
Distinct-middle n [] ys d = (tt, d.0)
Distinct-middle n (x ∷ xs) ys d =
    let (left, right) = Distinct-middle n xs ys d.1 in
    let apart : x ≢ n = (All-right (λ y. x ≢ y) xs (n ∷ ys) d.0).0 in
    ((λ e. apart (sym e), left), right)
