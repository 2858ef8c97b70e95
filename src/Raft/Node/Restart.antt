-- ===== src/Raft/Node/Restart.antt =====
-- raft/node.go: OpenNode after a crash.
use key_value_store.Prelude.{
  ℕ, ◌+◌, ◌<◌, ◌≡◌, ◌⊎◌, inl, inr, refl, sym, ap, arith, length, ltb, lt→ltb, none, some,
  if◌then◌else◌, false, ok, >>=-eq-ok, ◌∷◌,
}
use key_value_store.Raft.Types.{zero_snapshot}
use key_value_store.Raft.State.{
  Config, Raft, new, validate, fresh, reset_election_timeout, restore_state, restore_log,
  restore_indices, base,
}
use key_value_store.Raft.Invariant.{WellFormed, last_log_index_lem}
use key_value_store.Raft.Storage.Recover.{sentinel_of}
use key_value_store.Raft.Storage.Save.{Storage, file_at}
use key_value_store.Raft.Storage.Crash.{Opens}
use key_value_store.Raft.Node.{Node, with_snapshot, open_node}
use key_value_store.Raft.Node.Saves.{current}

-- The node that starts again has what the other one had.
pub record Restored (r r' : Raft) : Type 0 where
  pub current_term : r'.current_term ≡ r.current_term
  pub voted_for : r'.voted_for ≡ r.voted_for
  pub sentinel : r'.sentinel ≡ r.sentinel
  pub log : r'.log ≡ r.log
  pub snapshot : r'.snapshot ≡ r.snapshot
  pub commit_index : r'.commit_index ≡ base r
  pub well_formed : WellFormed r'

rebuilt-WellFormed :
    (r r' : Raft)
    → WellFormed r
    → r'.sentinel ≡ r.sentinel
    → r'.log ≡ r.log
    → r'.commit_index ≡ base r
    → r'.unstable_index ≡ base r + length r.log + 1
    → WellFormed r'
rebuilt-WellFormed r r' w s l c u = record {
  contiguous = rw (s, l) w.contiguous;
  base_committed = rw (s, c) (omega arith);
  committed = rw (s, l, c) (omega arith);
  base_stable = rw (s, u) (omega arith);
  stable = rw (s, l, u) (omega arith);
  bounded = rw (s, l) w.bounded;
}

new_node :
    (c : Config) (rnd : ℕ → ℕ) (made : Raft)
    → new c rnd ≡ ok made
    → new c rnd ≡ ok (reset_election_timeout (fresh c rnd))
unfolding new
new_node c rnd made h =
    let (t, valid, same) =
      >>=-eq-ok (validate c) (λ _. ok (reset_election_timeout (fresh c rnd))) h in
    rw valid refl

module _ (c : Config) (rnd : ℕ → ℕ) (r : Raft) (w : WellFormed r)
    (edge : r.sentinel ≡ sentinel_of r.snapshot) where
  -- Before the snapshot's bookkeeping.
  abbrev recovered : Raft
  recovered =
      restore_state (current r).hard_state (sentinel_of r.snapshot ∷ r.log)
        (reset_election_timeout (fresh c rnd))

  recovered_commit : recovered.commit_index ≡ base r
  unfolding restore_state restore_log restore_indices fresh reset_election_timeout
  recovered_commit = rw (← edge) (ground arith)

  recovered_unstable : recovered.unstable_index ≡ base r + length r.log + 1
  unfolding restore_state restore_log restore_indices fresh reset_election_timeout
  recovered_unstable = rw (← edge) (omega (arith, last_log_index_lem r w, w.bounded))

  opened-Restored :
      (0 < r.snapshot.last_included_index) ⊎ (r.snapshot ≡ zero_snapshot)
      → Restored r (with_snapshot r.snapshot recovered)
  unfolding with_snapshot restore_state restore_log restore_indices fresh reset_election_timeout
  opened-Restored (inl lt) = rw (lt→ltb 0 r.snapshot.last_included_index lt) (record {
    current_term = refl;
    voted_for = refl;
    sentinel = sym edge;
    log = refl;
    snapshot = refl;
    commit_index = recovered_commit;
    well_formed = rebuilt-WellFormed r _ w (sym edge) refl recovered_commit recovered_unstable;
  })
  opened-Restored (inr zero) =
      let none_there : ltb 0 r.snapshot.last_included_index ≡ false =
        ap (λ s. ltb 0 s.last_included_index) zero in
      rw none_there (record {
        current_term = refl;
        voted_for = refl;
        sentinel = sym edge;
        log = refl;
        snapshot = sym zero;
        commit_index = recovered_commit;
        well_formed = rebuilt-WellFormed r _ w (sym edge) refl recovered_commit recovered_unstable;
      })

  -- A storage from which a node's term, vote, log and snapshot would be recovered is opened by
  -- OpenNode after a crash: with a valid configuration, the new node has these, with the log behind
  -- the same sentinel, counts what its snapshot covers as committed, and is well formed; the
  -- snapshot is returned, if there is one. The old node was well formed, its sentinel was that of
  -- its snapshot, and a snapshot at index 0 is none at all.
  pub open_node-Restored :
      (s : Storage) (made : Raft)
      → (0 < r.snapshot.last_included_index) ⊎ (r.snapshot ≡ zero_snapshot)
      → new c rnd ≡ ok made
      → Opens s (current r)
      → (n : Node) × (open_node c rnd (file_at s)
          ≡ ok (n, if ltb 0 r.snapshot.last_included_index then some r.snapshot else none))
        × Restored r n.raft
  unfolding open_node
  open_node-Restored s made has valid (storage, found) = (
    record { raft = with_snapshot r.snapshot recovered; storage = storage },
    simp (found, new_node c rnd made valid) refl,
    opened-Restored has,
  )
