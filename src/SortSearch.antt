-- ===== src/SortSearch.antt =====
-- sort.Search of the Go library, which memtable/iterator.go and sstable/reader.go call: the binary
-- search for the least index of a range at which a test holds.
use key_value_store.Prelude.{
  ℕ, zero, suc, ◌+◌, ◌/◌, ◌≤◌, ◌<◌, ◌≡◌, inl, inr, Bool, true, false, arith, ltb, Bool-cases,
  if◌then◌else◌,
}

-- The loop from i to j. The range loses an index in each round.
unfoldable pub search_between : ℕ → ℕ → ℕ → (ℕ → Bool) → ℕ
search_between zero i j f = i
search_between (suc fuel) i j f =
    let h = (i + j) / 2 in
    let low = search_between fuel i h f in
    let high = search_between fuel (h + 1) j f in if ltb i j then if f h then low else high else i

unfoldable pub sort_search : ℕ → (ℕ → Bool) → ℕ
sort_search n f = search_between n 0 n f

-- A test that holds from some index on.
abbrev pub IsRising : (ℕ → Bool) → Type 0
IsRising f = (i j : ℕ) → i ≤ j → f i ≡ true → f j ≡ true

-- The least index at which the test holds, or the length.
pub record IsLeast (n : ℕ) (f : ℕ → Bool) (r : ℕ) : Type 0 where
  pub within : r ≤ n
  pub before : (k : ℕ) → k < r → f k ≡ false
  pub from : (k : ℕ) → r ≤ k → k < n → f k ≡ true

module _ (n : ℕ) (f : ℕ → Bool) (rising : IsRising f) where
  search_between_lem :
      (fuel i j : ℕ)
      → i ≤ j
      → j ≤ n
      → j ≤ i + fuel
      → ((k : ℕ) → k < i → f k ≡ false)
      → ((k : ℕ) → j ≤ k → k < n → f k ≡ true)
      → IsLeast n f (search_between fuel i j f)
  unfolding search_between
  search_between_lem zero i j le within fuel lo hi = record {
    within = omega arith;
    before = lo;
    from = λ k h. hi k (omega arith);
  }
  search_between_lem (suc m) i j le within fuel lo hi = elim (Bool-cases (ltb i j)) [
    | inr e ↦ rw e (record { within = omega arith; before = lo; from = λ k h. hi k (ground arith) })
    | inl e ↦ rw e (elim (Bool-cases (f ((i + j) / 2))) [
      | inl t ↦ rw t (
          search_between_lem m i ((i + j) / 2) (ground arith) (ground arith) (ground arith) lo
            (λ k h _. rising ((i + j) / 2) k h t))
      | inr t ↦ rw t (
          search_between_lem m ((i + j) / 2 + 1) j (ground arith) within (ground arith)
            (λ k h. below ((i + j) / 2) k h t) hi)
    ])
  ]
    where
      below : (h k : ℕ) → k < h + 1 → f h ≡ false → f k ≡ false
      below h k le t = elim (Bool-cases (f k)) [
        | inl e ↦ cc (rising k h (omega arith) e)
        | inr e ↦ e
      ]

  -- The binary search finds the least index, with a round for each index.
  pub sort_search_lem : IsLeast n f (sort_search n f)
  unfolding sort_search
  sort_search_lem =
      search_between_lem n 0 n (omega arith) (omega arith) (omega arith)
        (λ k h. absurd (omega arith)) (λ k h l. absurd (omega arith))
