-- ===== src/Engine/Hazards.antt =====
-- engine/engine.go: what Get and Open do after a flush that has failed, or that a crash cut short.
use mathlib.Core.List.{reverse, reverse-cons}
use key_value_store.Prelude.{
  ℕ, ◌≤◌, ◌≡◌, ◌≢◌, ◌⊎◌, refl, sym, ap, ◌∙◌, inl, inr, List, [], ◌∷◌, ◌++◌, Bool, false, none, some,
  leb, ltb, le→ltb, Bool-cases, Error, Outcome, ok, ok-injective, err, panic, stuck, ◌>>=◌,
}
use key_value_store.Wal.Append.{Wal}
use key_value_store.Memtable.Table
use key_value_store.Engine.State.{Engine, Flush, Reader, get, get_tables, get_memtable}
use key_value_store.Engine.Flush.{finish_flush, fail_flush}
use key_value_store.Engine.Open.{
  Directory, read_restore_marker, not_superseded, insert_file, sort_files, open_tables,
  discover_sstables, open_engine,
}

-- A flush is running, the engine is open, and a key is in its frozen memtable only, with a value.
-- Get returns the value. If writing the table fails, Get returns afterwards that there is none,
-- although the write of the value was acknowledged.
pub finish_flush_hides :
    (e : Engine) (f : Flush) (x : Error) (opened : Outcome Reader) (key value : List ℕ) (seq : ℕ)
    → e.closed ≡ false
    → e.immutable ≡ some f.frozen
    → Table.get key f.frozen ≡ some (value, seq, false)
    → Table.get key e.mem ≡ none
    → get_tables key e.sstables ≡ ok none
    → (get key e ≡ ok (some value)) × (get key (finish_flush f (err x) opened e) ≡ ok none)
unfolding get get_memtable finish_flush fail_flush
finish_flush_hides e f x opened key value seq open_now frozen hit miss nowhere =
    (simp (open_now, miss, frozen, hit), simp (open_now, miss, nowhere))

-- A file of a list does not open.
abbrev pub Broken : List (ℕ × Outcome Reader) → Type 0
Broken [] = ⊥
Broken (f ∷ fs) = ((x : Error) × (f.1 ≡ err x)) ⊎ Broken fs

Broken-append : (fs gs : List (ℕ × Outcome Reader)) → Broken gs → Broken (fs ++ gs)
Broken-append [] gs b = b
Broken-append (f ∷ fs) gs b = inr (Broken-append fs gs b)

Broken-left : (fs gs : List (ℕ × Outcome Reader)) → Broken fs → Broken (fs ++ gs)
Broken-left [] gs b = absurd b
Broken-left (f ∷ fs) gs (inl x) = inl x
Broken-left (f ∷ fs) gs (inr b) = inr (Broken-left fs gs b)

Broken-reverse : (fs : List (ℕ × Outcome Reader)) → Broken fs → Broken (reverse fs)
Broken-reverse [] b = absurd b
Broken-reverse (f ∷ fs) (inl x) =
    rw (reverse-cons f fs) (Broken-append (reverse fs) (f ∷ []) (inl x))
Broken-reverse (f ∷ fs) (inr b) =
    rw (reverse-cons f fs) (Broken-left (reverse fs) (f ∷ []) (Broken-reverse fs b))

Broken-insert_file :
    (f : ℕ × Outcome Reader) (fs : List (ℕ × Outcome Reader))
    → Broken (f ∷ fs)
    → Broken (insert_file f fs)
unfolding insert_file
Broken-insert_file f [] b = b
Broken-insert_file f (g ∷ fs) (inl x) = elim (Bool-cases (leb f.0 g.0)) [
  | inl e ↦ rw e (inl x)
  | inr e ↦ rw e (inr (Broken-insert_file f fs (inl x)))
]
Broken-insert_file f (g ∷ fs) (inr (inl x)) = elim (Bool-cases (leb f.0 g.0)) [
  | inl e ↦ rw e (inr (inl x))
  | inr e ↦ rw e (inl x)
]
Broken-insert_file f (g ∷ fs) (inr (inr b)) = elim (Bool-cases (leb f.0 g.0)) [
  | inl e ↦ rw e (inr (inr b))
  | inr e ↦ rw e (inr (Broken-insert_file f fs (inr b)))
]

Broken-sort_files : (fs : List (ℕ × Outcome Reader)) → Broken fs → Broken (sort_files fs)
unfolding sort_files
Broken-sort_files [] b = absurd b
Broken-sort_files (f ∷ fs) (inl x) = Broken-insert_file f (sort_files fs) (inl x)
Broken-sort_files (f ∷ fs) (inr b) =
    Broken-insert_file f (sort_files fs) (inr (Broken-sort_files fs b))

Broken-not_superseded :
    (lowest n : ℕ) (x : Error) (fs gs : List (ℕ × Outcome Reader))
    → lowest ≤ n
    → Broken (not_superseded lowest (fs ++ (n, err x) ∷ gs))
unfolding not_superseded
Broken-not_superseded lowest n x [] gs le = rw (le→ltb n lowest le) (inl (x, refl))
Broken-not_superseded lowest n x ((k, o) ∷ fs) gs le = elim (Bool-cases (ltb k lowest)) [
  | inl e ↦ rw e (Broken-not_superseded lowest n x fs gs le)
  | inr e ↦ rw e (inr (Broken-not_superseded lowest n x fs gs le))
]

-- A chain with a call in it that returns no value returns none.
abbrev Fails {ℓ} : {A : Type ℓ} → Outcome A → Type ℓ
Fails {A = A} o = (a : A) → o ≢ ok a

then-Fails {ℓ κ} :
    {A : Type ℓ} {B : Type κ} (o : Outcome A) (k : A → Outcome B)
    → ((a : A) → o ≡ ok a → Fails (k a))
    → Fails (o >>= k)
then-Fails (ok a) k h = h a refl
then-Fails (err x) k h = λ b e. cc
then-Fails panic k h = λ b e. cc
then-Fails stuck k h = λ b e. cc

open_tables-Fails : (fs : List (ℕ × Outcome Reader)) → Broken fs → Fails (open_tables fs)
unfolding open_tables
open_tables-Fails [] b = absurd b
open_tables-Fails ((n, o) ∷ fs) (inl (x, e)) = then-Fails o _ (λ a h. absurd (cc))
open_tables-Fails ((n, o) ∷ fs) (inr b) =
    then-Fails o _
      (λ a h. then-Fails (open_tables fs) _ (λ r k. absurd (open_tables-Fails fs b r k)))

discover-Fails :
    (lowest n : ℕ) (x : Error) (before after : List (ℕ × Outcome Reader))
    → lowest ≤ n
    → Fails (discover_sstables (before ++ (n, err x) ∷ after) lowest)
unfolding discover_sstables
discover-Fails lowest n x before after le =
    let listed = not_superseded lowest (before ++ (n, err x) ∷ after) in
    let broken = Broken-not_superseded lowest n x before after le in
    let fails =
      open_tables-Fails (reverse (sort_files listed))
        (Broken-reverse (sort_files listed) (Broken-sort_files listed broken)) in
    then-Fails (open_tables (reverse (sort_files listed))) _ (λ r k. absurd (fails r k))

-- A table that the restore marker does not supersede does not open, as one that a crash has cut
-- short. Open then returns no engine, whatever the other files hold.
pub open_engine_fails :
    (threshold : ℕ) (dir : Directory) (opened : Outcome Wal) (rnd : ℕ → Bool)
    (remove : ℕ → Outcome (Unit {0})) (lowest n : ℕ) (x : Error)
    (before after : List (ℕ × Outcome Reader))
    → read_restore_marker dir.marker ≡ ok lowest
    → lowest ≤ n
    → dir.tables ≡ before ++ (n, err x) ∷ after
    → ¬ ((e : Engine) × (open_engine threshold dir opened rnd remove ≡ ok e))
unfolding open_engine
open_engine_fails threshold dir opened rnd remove lowest n x before after marker le listed
      (e, result) =
    let none_found : Fails (discover_sstables dir.tables lowest) = λ r h.
      discover-Fails lowest n x before after le r
        (ap (λ t. discover_sstables t lowest) (sym listed) ∙ h) in
    (then-Fails (read_restore_marker dir.marker) _
      (λ l h. then-Fails (discover_sstables dir.tables l) _ (λ r k.
        absurd
          (none_found r (ap (discover_sstables dir.tables) (ok-injective (sym marker ∙ h)) ∙ k))))
      e result)
