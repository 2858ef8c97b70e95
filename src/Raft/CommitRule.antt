-- ===== src/Raft/CommitRule.antt =====
-- The leader's commit rule.
use key_value_store.Prelude.{
  ℕ, zero, suc, ◌+◌, ◌-◌, ◌*◌, ◌≤◌, ◌<◌, ◌≡◌, ◌≢◌, refl, ap, List, [], ◌∷◌, All, length, leb,
  leb→le, le→leb, ◌⊎◌, inl, inr, true, false, Bool-cases, arith, ◌==◌, ==→≡,
}
use key_value_store.Raft.State.{Raft, IndexMap, last_log_index}
use key_value_store.Raft.Log.{term_at}
use key_value_store.Raft.Replication.{
  count_matching, committable, commit_scan, maybe_advance_commit_index,
}
use key_value_store.Raft.Calm.{commit_scan_bounds}

-- These stand, at places of their own, among those.
abbrev pub Among : List ℕ → List ℕ → Type 0
Among [] ps = Unit {0}
Among (q ∷ qs) [] = ⊥
Among (q ∷ qs) (p ∷ ps) = ((q ≡ p) × Among qs ps) ⊎ Among (q ∷ qs) ps

-- Peers whose logs are known to match the leader's up to n at least.
abbrev pub Holders : Raft → ℕ → List ℕ → Type 0
Holders r n qs = Among qs r.peers × All (λ q. n ≤ r.match_index q) qs

-- With the leader they are more than half of the cluster.
abbrev pub IsMajority : Raft → List ℕ → Type 0
IsMajority r qs = length r.peers + 1 < 2 * (length qs + 1)

abbrev pub OnMajority : Raft → ℕ → Type 0
OnMajority r n = (qs : List ℕ) × Holders r n qs × IsMajority r qs

module _ (m : IndexMap) (n : ℕ) where
  -- Those that are counted.
  counted :
      (ps : List ℕ)
      → (qs : List ℕ) × Among qs ps × All (λ q. n ≤ m q) qs × (length qs ≡ count_matching m n ps)
  unfolding count_matching
  counted [] = ([], tt, tt, refl)
  counted (p ∷ ps) =
      let (qs, among, hold, same) = counted ps in
      elim (Bool-cases (leb n (m p))) [
        | inl e ↦ (p ∷ qs, inl (refl, among), (leb→le n (m p) e, hold), rw e (ap suc same))
        | inr e ↦ (qs, later p qs ps among, hold, rw e same)
      ]
    where
      later : (p : ℕ) (qs ps : List ℕ) → Among qs ps → Among qs (p ∷ ps)
      later p [] ps h = tt
      later p (q ∷ qs) ps h = inr h

  -- No more can be.
  counts_all :
      (qs ps : List ℕ) → Among qs ps → All (λ q. n ≤ m q) qs → length qs ≤ count_matching m n ps
  unfolding count_matching
  counts_all [] ps among hold = omega arith
  counts_all (q ∷ qs) [] among hold = absurd among
  counts_all (q ∷ qs) (p ∷ ps) (inl (same, among)) hold =
      let known : leb n (m p) ≡ true = le→leb n (m p) (rw (← same) hold.0) in
      rw known (omega (arith, counts_all qs ps among hold.1))
  counts_all (q ∷ qs) (p ∷ ps) (inr among) hold =
      let rest = counts_all (q ∷ qs) ps among hold in ground (arith, rest)

committable-OnMajority :
    (r : Raft) (n : ℕ) → committable r n ≡ true → (term_at r n ≡ r.current_term) × OnMajority r n
unfolding committable
committable-OnMajority r n h =
    let (qs, among, hold, same) = counted r.match_index n r.peers in
    (ground arith, (qs, (among, hold), ground (arith, same)))

not-committable :
    (r : Raft) (n : ℕ) (qs : List ℕ)
    → committable r n ≡ false
    → Holders r n qs
    → (term_at r n ≢ r.current_term) ⊎ (¬ (IsMajority r qs))
unfolding committable
not-committable r n qs h (among, hold) =
    let most = counts_all r.match_index n qs r.peers among hold in ground (arith, most)

abbrev Committed : Raft → ℕ → ℕ → Type 0
Committed r k c =
    (c ≡ r.commit_index)
    ⊎ ((r.commit_index < c)
        × (c ≤ r.commit_index + k)
        × (term_at r c ≡ r.current_term)
        × OnMajority r c)

commit_scan-Committed : (r : Raft) (k : ℕ) → Committed r k (commit_scan r k)
unfolding commit_scan
commit_scan-Committed r zero = inl refl
commit_scan-Committed r (suc k) = elim (Bool-cases (committable r (r.commit_index + suc k))) [
  | inl e ↦
      let c = committable-OnMajority r (r.commit_index + suc k) e in
      rw e (inr (omega arith, omega arith, c.0, c.1))
  | inr e ↦ rw e (ground (arith, commit_scan-Committed r k))
]

==-false : (a b : ℕ) → (a == b) ≡ false → a ≢ b
==-false a b h = ground arith

commit_scan_maximal :
    (r : Raft) (k n : ℕ) → commit_scan r k < n → n ≤ r.commit_index + k → committable r n ≡ false
unfolding commit_scan
commit_scan_maximal r zero n above within = absurd (omega arith)
commit_scan_maximal r (suc k) n above within =
    elim (Bool-cases (committable r (r.commit_index + suc k))) [
      | inl e ↦ let a : r.commit_index + suc k < n = rw e at above in absurd (omega arith)
      | inr e ↦ elim (Bool-cases (n == r.commit_index + suc k)) [
        | inl same ↦ rw (==→≡ n (r.commit_index + suc k) same) e
        | inr other ↦
            commit_scan_maximal r k n (rw e at above)
              (omega (arith, ==-false n (r.commit_index + suc k) other))
      ]
    ]

-- The commit index stays, or it moves up to an entry of the leader's own term, within the log, up to
-- which the logs of peers that with the leader are more than half of the cluster are known to match
-- the leader's.
pub maybe_advance_commit_index_sound :
    (r : Raft)
    → let c = (maybe_advance_commit_index r).commit_index in
      (c ≡ r.commit_index)
      ⊎ ((r.commit_index < c)
          × (c ≤ last_log_index r)
          × (term_at r c ≡ r.current_term)
          × OnMajority r c)
unfolding maybe_advance_commit_index
maybe_advance_commit_index_sound r =
    ground (arith, commit_scan-Committed r (last_log_index r - r.commit_index))

-- Of an entry above the new commit index, the term is not the leader's own, or the peers whose logs
-- are known to match up to it, whichever of them are taken, are not with the leader more than half of
-- the cluster.
pub maybe_advance_commit_index_maximal :
    (r : Raft) (n : ℕ) (qs : List ℕ)
    → (maybe_advance_commit_index r).commit_index < n
    → n ≤ last_log_index r
    → Holders r n qs
    → (term_at r n ≢ r.current_term) ⊎ (¬ (IsMajority r qs))
unfolding maybe_advance_commit_index
maybe_advance_commit_index_maximal r n qs above within hold =
    not-committable r n qs
      (commit_scan_maximal r (last_log_index r - r.commit_index) n above
        (omega (arith, commit_scan_bounds r (last_log_index r - r.commit_index))))
      hold
