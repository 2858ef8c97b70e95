-- ===== src/Raft/LogShape.antt =====
-- Logs whose indices count up by one, and their entries by position.
use mathlib.Core.Path.{ap₂}
use key_value_store.Prelude.{
  ℕ, zero, suc, ◌+◌, ◌≤◌, ◌≡◌, refl, ap, List, [], ◌∷◌, ◌++◌, length, take, drop, arith,
}
use key_value_store.Raft.Types.{LogEntry}
use key_value_store.Raft.State.{last_of}
use key_value_store.Raft.Log.{nth}

-- The indices of the entries go on from i.
abbrev pub Contiguous : ℕ → List LogEntry → Type 0
Contiguous i [] = Unit
Contiguous i (e ∷ es) = (e.index ≡ i + 1) × Contiguous (i + 1) es

pub index-last_of :
    (i : ℕ) (s : LogEntry) (es : List LogEntry)
    → s.index ≡ i
    → Contiguous i es
    → (last_of s es).index ≡ i + length es
unfolding last_of
index-last_of i s [] h c = omega arith
index-last_of i s (e ∷ es) h (p, c) = omega (arith, index-last_of (i + 1) e es p c)

pub Contiguous-take : (i n : ℕ) (es : List LogEntry) → Contiguous i es → Contiguous i (take n es)
Contiguous-take i zero es c = tt
Contiguous-take i (suc n) [] c = tt
Contiguous-take i (suc n) (e ∷ es) (p, c) = (p, Contiguous-take (i + 1) n es c)

pub Contiguous-drop :
    (i j n : ℕ) (es : List LogEntry)
    → j ≡ i + n
    → n ≤ length es
    → Contiguous i es
    → Contiguous j (drop n es)
Contiguous-drop i j zero es e h c = let same : j ≡ i = omega arith in rw same c
Contiguous-drop i j (suc n) [] e h c = absurd (omega arith)
Contiguous-drop i j (suc n) (x ∷ es) e h (p, c) =
    Contiguous-drop (i + 1) j n es (omega arith) (omega arith) c

pub Contiguous-append :
    (i j : ℕ) (xs ys : List LogEntry)
    → j ≡ i + length xs
    → Contiguous i xs
    → Contiguous j ys
    → Contiguous i (xs ++ ys)
Contiguous-append i j [] ys e c d = let same : i ≡ j = omega arith in rw same d
Contiguous-append i j (x ∷ xs) ys e (p, c) d =
    (p, Contiguous-append (i + 1) j xs ys (omega arith) c d)

pub nth-take :
    (s : LogEntry) (n j : ℕ) (es : List LogEntry) → j ≤ n → nth s (take n es) j ≡ nth s es j
unfolding nth
nth-take s n zero es h = refl
nth-take s zero (suc j) es h = absurd (omega arith)
nth-take s (suc n) (suc j) [] h = refl
nth-take s (suc n) (suc j) (e ∷ es) h = nth-take e n j es (omega arith)

pub nth-append :
    (s : LogEntry) (j : ℕ) (xs ys : List LogEntry) → j ≤ length xs → nth s (xs ++ ys) j ≡ nth s xs j
unfolding nth
nth-append s zero xs ys h = refl
nth-append s (suc j) [] ys h = absurd (omega arith)
nth-append s (suc j) (x ∷ xs) ys h = nth-append x j xs ys (omega arith)

pub nth-append_end :
    (s e : LogEntry) (j : ℕ) (xs : List LogEntry)
    → j ≡ length xs
    → nth s (xs ++ (e ∷ [])) (suc j) ≡ e
unfolding nth
nth-append_end s e zero [] h = refl
nth-append_end s e (suc j) [] h = absurd (omega arith)
nth-append_end s e zero (x ∷ xs) h = absurd (omega arith)
nth-append_end s e (suc j) (x ∷ xs) h = nth-append_end x e j xs (omega arith)

pub nth-index :
    (i j : ℕ) (s : LogEntry) (es : List LogEntry)
    → s.index ≡ i
    → Contiguous i es
    → j ≤ length es
    → (nth s es j).index ≡ i + j
unfolding nth
nth-index i zero s es h c le = omega arith
nth-index i (suc j) s [] h c le = absurd (omega arith)
nth-index i (suc j) s (e ∷ es) h (p, c) le =
    omega (arith, nth-index (i + 1) j e es p c (omega arith))

pub take_all : (n : ℕ) (es : List LogEntry) → length es ≤ n → take n es ≡ es
take_all zero [] h = refl
take_all zero (e ∷ es) h = absurd (omega arith)
take_all (suc n) [] h = refl
take_all (suc n) (e ∷ es) h = ap (λ t. e ∷ t) (take_all n es (omega arith))

-- Logs with the same entries by position have the same beginning.
pub take_of-nth :
    (n : ℕ) (s t : LogEntry) (xs ys : List LogEntry)
    → n ≤ length xs
    → n ≤ length ys
    → ((j : ℕ) → j ≤ n → nth s xs j ≡ nth t ys j)
    → take n xs ≡ take n ys
unfolding nth
take_of-nth zero s t xs ys hx hy h = refl
take_of-nth (suc n) s t [] ys hx hy h = absurd (omega arith)
take_of-nth (suc n) s t (x ∷ xs) [] hx hy h = absurd (omega arith)
take_of-nth (suc n) s t (x ∷ xs) (y ∷ ys) hx hy h =
    ap₂ ◌∷◌ (h 1 (omega arith))
      (take_of-nth n x y xs ys (omega arith) (omega arith) (λ j le. h (suc j) (omega arith)))
