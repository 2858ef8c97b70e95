-- ===== src/Raft/Node/Saves.antt =====
-- raft/node.go: saving the term and the vote, and then the unstable entries.
use mathlib.Core.Path.{subst}
use key_value_store.Prelude.{
  panic, stuck, le→leb, leb→le, ℕ, zero, suc, ◌+◌, ◌-◌, ◌<◌, ◌≤◌, ◌≡◌, ◌^◌, ◌⊎◌, inl, inr, refl,
  sym, ap, ◌∙◌, List, [], ◌∷◌, ◌++◌, map, All, length, take, drop, take-drop, take_whole, arith,
  false, not, ◌||◌, leb, ◌==◌, Bool-cases, lt→ltb, Outcome, ok, err, io_error,
}
use key_value_store.Raft.Types.{LogEntry, HardState}
use key_value_store.Raft.State.{Raft, ready, advance, base, last_log_index}
use key_value_store.Raft.LogShape.{Contiguous}
use key_value_store.Raft.Invariant.{WellFormed, last_log_index_lem}
use key_value_store.Raft.Storage.Records.{FitsState, FitsSnapshot}
use key_value_store.Raft.Storage.Recover.{Persisted, kept_before}
use key_value_store.Raft.Storage.Save.{Storage, save, save_hard_state, save_entries}
use key_value_store.Raft.Storage.Items.{
  Item, state, entry, truncate, value_of, FitsItem, applied_all, map-entry, All-entry,
  applied_all-entries,
}
use key_value_store.Raft.Storage.Crash.{Stores, save_recovers}
use key_value_store.Raft.Node.{and_then, save_state, save_changes}

-- What the node would recover if all of it were saved.
abbrev pub current : Raft → Persisted
current r = record {
  hard_state = record { term = r.current_term; vote = r.voted_for };
  log = r.log;
  snapshot = r.snapshot;
}

-- What is saved is the stable part of the node.
pub record Tracks (r : Raft) (p : Persisted) : Type 0 where
  pub hard_state : p.hard_state ≡ record { term = r.stable_term; vote = r.stable_vote }
  pub log : kept_before r.unstable_index p.log ≡ take (r.unstable_index - (base r + 1)) r.log
  pub complete : (r.unstable_index ≤ last_log_index r) ⊎ (p.log ≡ r.log)
  pub snapshot : p.snapshot ≡ r.snapshot

-- Numbers that are uint64, and entries and a snapshot that a record has room for.
pub record FitsRaft (r : Raft) : Type 0 where
  pub current_term : r.current_term < 2 ^ 64
  pub voted_for : r.voted_for < 2 ^ 64
  pub log : All FitsState r.log
  pub snapshot : FitsSnapshot r.snapshot

kept_before_all :
    (i first : ℕ) (es : List LogEntry)
    → Contiguous i es
    → i + length es < first
    → kept_before first es ≡ es
unfolding kept_before
kept_before_all i first [] c h = refl
kept_before_all i first (e ∷ es) (p, c) h =
    rw (lt→ltb e.index first (omega arith))
      (ap (λ t. e ∷ t) (kept_before_all (i + 1) first es c (omega arith)))

-- The end of a save: the log stores q, or there is an error.
abbrev pub Saved : Storage × Outcome (Unit {0}) → Persisted → Type 0
Saved x q = ((x.1 ≡ ok tt) × Stores x.0 q) ⊎ (x.1 ≡ err io_error)

save-Saved :
    (is : List Item) (s : Storage) (p : Persisted)
    → Stores s p
    → All FitsItem is
    → Saved (save (map value_of is) s) (applied_all is p)
save-Saved is s p h fits =
    let (n, opens, outcome) = save_recovers is s p h fits in
    elim outcome [ inl (fine, all, stores) ↦ inl (fine, stores) | inr failed ↦ inr failed ]

save_entries-Saved :
    (first : ℕ) (e : LogEntry) (es : List LogEntry) (s : Storage) (p : Persisted)
    → Stores s p
    → first < 2 ^ 64
    → All FitsState (e ∷ es)
    → Saved (save_entries first (e ∷ es) s) (record p { log = kept_before first p.log ++ (e ∷ es) })
unfolding save_entries
save_entries-Saved first e es s p h small fits =
    rw
      (
        map-entry (e ∷ es),
        ← (applied_all-entries (e ∷ es) (record p { log = kept_before first p.log })),
      )
      (save-Saved (truncate first ∷ map entry (e ∷ es)) s p h (small, All-entry (e ∷ es) fits))

drop_cons :
    (k : ℕ) (es : List LogEntry)
    → k < length es
    → (x : LogEntry) × (xs : List LogEntry) × (drop k es ≡ x ∷ xs)
drop_cons k [] h = absurd (omega arith)
drop_cons zero (e ∷ es) h = (e, es, refl)
drop_cons (suc k) (e ∷ es) h = drop_cons k es (omega arith)

All-drop : (k : ℕ) (es : List LogEntry) → All FitsState es → All FitsState (drop k es)
All-drop zero es h = h
All-drop (suc k) [] h = tt
All-drop (suc k) (e ∷ es) (f, h) = All-drop k es h

abbrev state_of : ℕ → ℕ → HardState
state_of term vote = record { term = term; vote = vote }

same_state : {a b c d : ℕ} → a ≡ b → c ≡ d → state_of a c ≡ state_of b d
same_state h k = rw (h, k) refl

-- A save after a save.
then-Saved :
    (x : Storage × Outcome (Unit {0})) (rest : Storage → Storage × Outcome (Unit {0}))
    (p q : Persisted)
    → Saved x p
    → ((s : Storage) → Stores s p → Saved (rest s) q)
    → Saved (and_then x rest) q
then-Saved (s, ok _) rest p q (inl (e, h)) k = k s h
then-Saved (s, ok _) rest p q (inr e) k = absurd cc
then-Saved (s, err x) rest p q (inl (e, h)) k = absurd cc
then-Saved (s, err x) rest p q (inr e) k = inr e
then-Saved (s, panic) rest p q (inl (e, h)) k = absurd cc
then-Saved (s, panic) rest p q (inr e) k = inr e
then-Saved (s, stuck) rest p q (inl (e, h)) k = absurd cc
then-Saved (s, stuck) rest p q (inr e) k = inr e

module _ (r : Raft) (w : WellFormed r) (f : FitsRaft r) where
  save_state-Saved :
      (s : Storage) (p : Persisted)
      → Stores s p
      → Tracks r p
      → Saved (save_state (ready r).hard_state s) (record p { hard_state = (current r).hard_state })
  unfolding save_state ready save_hard_state
  save_state-Saved s p h t =
      elim (Bool-cases
        (not (r.current_term == r.stable_term) || not (r.voted_for == r.stable_vote))) [
          | inl e ↦ rw e (
              save-Saved (state (current r).hard_state ∷ []) s p h
                ((f.current_term, f.voted_for), tt))
          | inr e ↦
              let (term, vote) : (r.stable_term ≡ r.current_term) × (r.stable_vote ≡ r.voted_for) =
                ground arith in
              let same : p ≡ record p { hard_state = (current r).hard_state } =
                ap (λ hs. record p { hard_state = hs }) (t.hard_state ∙ same_state term vote) in
              rw e (inl (refl, subst (λ q. Stores s q) same h))
        ]

  first_unstable :
      r.unstable_index ≤ last_log_index r
      → ((ready r).first_unstable_index ≡ r.unstable_index)
        × ((ready r).unstable_entries ≡ drop (r.unstable_index - (base r + 1)) r.log)
  unfolding ready
  first_unstable h =
      let next : r.unstable_index - base r ≡ suc (r.unstable_index - (base r + 1)) =
        omega (arith, w.base_stable) in
      rw (le→leb r.unstable_index (last_log_index r) h, next) (refl, refl)

  none_unstable : leb r.unstable_index (last_log_index r) ≡ false → (ready r).unstable_entries ≡ []
  unfolding ready
  none_unstable e = rw e refl

  save_entries-ready :
      (s : Storage) (p : Persisted) (hs : HardState)
      → Tracks r p
      → Stores s (record p { hard_state = hs })
      → Saved
          (save_entries (ready r).first_unstable_index (ready r).unstable_entries s)
          (record p { hard_state = hs; log = r.log })
  save_entries-ready s p hs t h = elim (Bool-cases (leb r.unstable_index (last_log_index r))) [
    | inl e ↦
        let le = leb→le r.unstable_index (last_log_index r) e in
        let k = r.unstable_index - (base r + 1) in
        let (first, rest) = first_unstable le in
        let (x, xs, cut) =
          drop_cons k r.log (omega (arith, le, last_log_index_lem r w, w.base_stable)) in
        let saved =
          save_entries-Saved r.unstable_index x xs s (record p { hard_state = hs }) h
            (omega (arith, w.stable, w.bounded))
            (subst (All FitsState) cut (All-drop k r.log f.log)) in
        let whole : kept_before r.unstable_index p.log ++ (x ∷ xs) ≡ r.log =
          ap (λ l. kept_before r.unstable_index p.log ++ l) (sym cut)
          ∙ ap (λ l. l ++ drop k r.log) t.log
          ∙ take-drop k r.log in
        rw (first, rest, cut)
          (subst
            (λ l.
              Saved (save_entries r.unstable_index (x ∷ xs) s)
                (record p { hard_state = hs; log = l }))
            whole saved)
    | inr e ↦
        let whole : p.log ≡ r.log = elim t.complete [
          | inl le ↦ absurd (ground arith)
          | inr same ↦ same
        ] in
        unfold save_entries in
        rw (none_unstable e)
          (inl (refl, subst (λ l. Stores s (record p { hard_state = hs; log = l })) whole h))
  ]

  pub save_changes-Saved :
      (s : Storage) (p : Persisted)
      → Stores s p
      → Tracks r p
      → Saved (save_changes (ready r) s) (current r)
  unfolding save_changes
  save_changes-Saved s p h t =
      then-Saved (save_state (ready r).hard_state s) _
        (record p { hard_state = (current r).hard_state }) (current r) (save_state-Saved s p h t)
        (λ s' h'.
          subst
            (λ b.
              Saved (save_entries (ready r).first_unstable_index (ready r).unstable_entries s')
                (record (current r) { snapshot = b }))
            t.snapshot (save_entries-ready s' p (current r).hard_state t h'))

  advanced_index : (advance r).unstable_index ≡ base r + length r.log + 1
  unfolding advance
  advanced_index = ground (arith, last_log_index_lem r w, w.stable, w.bounded)

  pub advance-Tracks : Tracks (advance r) (current r)
  unfolding advance
  advance-Tracks = record {
    hard_state = refl;
    log = rw advanced_index (
        kept_before_all (base r) (base r + length r.log + 1) r.log w.contiguous (omega arith)
        ∙ sym (take_whole (base r + length r.log + 1 - (base r + 1)) r.log (omega arith)));
    complete = inr refl;
    snapshot = refl;
  }
