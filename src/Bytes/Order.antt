-- ===== src/Bytes/Order.antt =====
-- bytes.Compare and bytes.Equal, as memtable/skiplist.go, memtable/iterator.go, the sstable package
-- and engine/engine.go use them: the lexicographic order of byte slices.
use key_value_store.Prelude.{
  ℕ, ◌≡◌, refl, inl, inr, List, [], ◌∷◌, Bool, true, false, ◌&&◌, ◌||◌, arith, ltb, ◌==◌,
  Bool-cases, ◌≢◌,
}

-- `bytes.Compare(a, b) < 0`.
unfoldable pub less : List ℕ → List ℕ → Bool
less [] [] = false
less [] (y ∷ ys) = true
less (x ∷ xs) [] = false
less (x ∷ xs) (y ∷ ys) = ltb x y || ((x == y) && less xs ys)

-- `bytes.Equal(a, b)`, which is `bytes.Compare(a, b) == 0`.
unfoldable pub same : List ℕ → List ℕ → Bool
same [] [] = true
same [] (y ∷ ys) = false
same (x ∷ xs) [] = false
same (x ∷ xs) (y ∷ ys) = (x == y) && same xs ys

pub same_refl : (a : List ℕ) → same a a ≡ true
unfolding same
same_refl [] = refl
same_refl (x ∷ xs) = ground (arith, same_refl xs)

pub eq_of_same : (a b : List ℕ) → same a b ≡ true → a ≡ b
unfolding same
eq_of_same [] [] h = refl
eq_of_same [] (y ∷ ys) h = cc
eq_of_same (x ∷ xs) [] h = cc
eq_of_same (x ∷ xs) (y ∷ ys) h = ground (arith, eq_of_same xs ys)

pub same_of_ne : (a b : List ℕ) → a ≢ b → same a b ≡ false
same_of_ne a b h = elim (Bool-cases (same a b)) [
  | inl e ↦ absurd (h (eq_of_same a b e))
  | inr e ↦ e
]

pub less_irrefl : (a : List ℕ) → less a a ≡ false
unfolding less
less_irrefl [] = refl
less_irrefl (x ∷ xs) = ground (arith, less_irrefl xs)

pub less_trans : (a b c : List ℕ) → less a b ≡ true → less b c ≡ true → less a c ≡ true
unfolding less
less_trans [] [] c h k = cc
less_trans [] (y ∷ ys) [] h k = cc
less_trans [] (y ∷ ys) (z ∷ zs) h k = refl
less_trans (x ∷ xs) [] c h k = cc
less_trans (x ∷ xs) (y ∷ ys) [] h k = cc
less_trans (x ∷ xs) (y ∷ ys) (z ∷ zs) h k = ground (arith, less_trans xs ys zs)

-- Of two keys that are not ordered either way, one is the other.
pub less_total : (a b : List ℕ) → less a b ≡ false → less b a ≡ false → a ≡ b
unfolding less
less_total [] [] h k = refl
less_total [] (y ∷ ys) h k = cc
less_total (x ∷ xs) [] h k = cc
less_total (x ∷ xs) (y ∷ ys) h k = ground (arith, less_total xs ys)

pub less_asymm : (a b : List ℕ) → less a b ≡ true → less b a ≡ false
less_asymm a b h = elim (Bool-cases (less b a)) [
  | inl e ↦ absurd (cc (less_trans a b a h e, less_irrefl a))
  | inr e ↦ e
]

pub less_ne : (a b : List ℕ) → less a b ≡ true → same a b ≡ false
less_ne a b h = elim (Bool-cases (same a b)) [
  | inl e ↦ absurd (cc (eq_of_same a b e, h, less_irrefl a))
  | inr e ↦ e
]

-- What is below a key that is not above another is below that one too.
pub less_of_not_less : (a b c : List ℕ) → less a b ≡ true → less c b ≡ false → less a c ≡ true
less_of_not_less a b c h k = elim (Bool-cases (less b c)) [
  | inl e ↦ less_trans a b c h e
  | inr e ↦ rw (← less_total b c e k) h
]
