-- ===== src/Engine/Discovery.antt =====
-- engine/engine.go: the discovery of files at Open, where the files have numbers of their own.
use mathlib.Core.List.{reverse, reverse-cons}
use key_value_store.Prelude.{
  ℕ, ◌≤◌, ◌≡◌, refl, ap, ◌∙◌, List, [], ◌∷◌, ◌++◌, map, All, All-append, All_mono, arith, max,
  le→leb, le→ltb, Outcome, ok,
}
use key_value_store.Engine.State.{Reader, TableEntry}
use key_value_store.Engine.Open.{not_superseded, insert_file, sort_files, open_tables}
use key_value_store.Engine.Invariant.{Descending}

module _ {A : Type 0} where
  abbrev pub Ascending : List (ℕ × A) → Type 0
  Ascending [] = Unit {0}
  Ascending (f ∷ fs) = All (λ g. f.0 ≤ g.0) fs × Ascending fs

  abbrev Before : ℕ × A → ℕ × A → Type 0
  Before f g = f.0 ≤ g.0

  Ascending-snoc :
      (fs : List (ℕ × A)) (f : ℕ × A)
      → Ascending fs
      → All (λ g. g.0 ≤ f.0) fs
      → Ascending (fs ++ f ∷ [])
  Ascending-snoc [] f a h = (tt, tt)
  Ascending-snoc (g ∷ fs) f a h =
      (All-append (Before g) fs (f ∷ []) a.0 (h.0, tt), Ascending-snoc fs f a.1 h.1)

  insert_file_first :
      (f : ℕ × A) (fs : List (ℕ × A)) → All (Before f) fs → insert_file f fs ≡ f ∷ fs
  unfolding insert_file
  insert_file_first f [] h = refl
  insert_file_first f (g ∷ fs) h = rw (le→leb f.0 g.0 h.0) refl

  pub sort_files_sorted : (fs : List (ℕ × A)) → Ascending fs → sort_files fs ≡ fs
  unfolding sort_files
  sort_files_sorted [] a = refl
  sort_files_sorted (f ∷ fs) a =
      ap (insert_file f) (sort_files_sorted fs a.1) ∙ insert_file_first f fs a.0

  pub not_superseded_zero : (fs : List (ℕ × A)) → not_superseded 0 fs ≡ fs
  unfolding not_superseded
  not_superseded_zero [] = refl
  not_superseded_zero ((n, x) ∷ fs) =
      rw (le→ltb n 0 (omega arith)) (ap (λ t. (n, x) ∷ t) (not_superseded_zero fs))

  abbrev number : ℕ × A → ℕ
  number f = f.0

  Descending-below :
      (bound : ℕ) (fs : List (ℕ × A))
      → Descending bound (map number fs)
      → All (λ g. g.0 ≤ bound) (reverse fs)
  Descending-below bound [] d = tt
  Descending-below bound (f ∷ fs) d = rw (reverse-cons f fs) (
      All-append (λ g. g.0 ≤ bound) (reverse fs) (f ∷ [])
        (All_mono (λ g. g.0 ≤ f.0) (λ g. g.0 ≤ bound) (reverse fs) (λ g h. omega (arith, d.0, h))
          (Descending-below f.0 fs d.1))
        (omega (arith, d.0), tt))

  pub reverse-Ascending :
      (bound : ℕ) (fs : List (ℕ × A)) → Descending bound (map number fs) → Ascending (reverse fs)
  reverse-Ascending bound [] d = tt
  reverse-Ascending bound (f ∷ fs) d =
      rw (reverse-cons f fs)
        (Ascending-snoc (reverse fs) f (reverse-Ascending f.0 fs d.1) (Descending-below f.0 fs d.1))

-- A table that is on the disk, and opens again.
abbrev pub table_file : TableEntry → ℕ × Outcome Reader
table_file t = (t.number, ok t.reader)

pub open_tables_all :
    (ts : List TableEntry) → (n : ℕ) × (open_tables (map table_file ts) ≡ ok (ts, n))
unfolding open_tables
open_tables_all [] = (0, refl)
open_tables_all (t ∷ ts) =
    let (n, opened) = open_tables_all ts in (max t.reader.max_seq n, rw opened refl)
