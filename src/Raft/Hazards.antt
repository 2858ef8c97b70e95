-- ===== src/Raft/Hazards.antt =====
-- Messages that a follower does not handle as it should.
use native.Mathlib.Nat.{mod-eq_of_lt}
use key_value_store.Prelude.{
  ℕ, ◌+◌, ◌≤◌, ◌<◌, ◌≡◌, ◌≢◌, List, ◌∷◌, arith, panic, ◌==◌, false, sym, le→ltb, lt→ltb, le→leb,
  ==_refl, ◌∙◌,
}
use key_value_store.Raft.Types.{LogEntry, Message}
use key_value_store.Raft.State.{Raft, base, last_log_index, add64, last_of, reset_election_timeout}
use key_value_store.Raft.Election.{become_follower}
use key_value_store.Raft.Log.{term_at}
use key_value_store.Raft.Replication.{send}
use key_value_store.Raft.Append.{
  discard_from, append_one, append_entries, follow, accept_leader, handle_append_entries,
  handle_install_snapshot, receive_snapshot, install,
}
use key_value_store.Raft.Invariant.{WellFormed, last_log_index_lem}
use key_value_store.Raft.Calm.{accept_leader-Calm, WellFormed-Calm}

term_at_before : (r : Raft) (i : ℕ) → i < base r → term_at r i ≡ 0
unfolding term_at
term_at_before r i h = rw (lt→ltb i (base r) h)

append_one_before :
    (idx : ℕ) (e : LogEntry) (r : Raft)
    → WellFormed r
    → idx < base r
    → e.term ≢ 0
    → append_one idx e r ≡ panic
unfolding append_one discard_from
append_one_before idx e r h lt t = rw (
  le→leb idx (last_log_index r) (omega (arith, last_log_index_lem r h)),
  term_at_before r idx lt,
  ne e.term t,
  le→leb idx (base r) (omega arith),
)
  where
    ne : (n : ℕ) → n ≢ 0 → (0 == n) ≡ false
    ne n h = ground arith

module _ (m : Message) (r : Raft) (e : LogEntry) (es : List LogEntry) (h : WellFormed r)
    (fresh : r.current_term ≤ m.term) (before : m.prev_log_index + 1 < base r)
    (none_there : m.prev_log_term ≡ 0) (sent : m.entries ≡ e ∷ es) (real : e.term ≢ 0) where
  append_entries_before :
      (f : Raft)
      → WellFormed f
      → m.prev_log_index + 1 < base f
      → append_entries (add64 m.prev_log_index 1) m.entries f ≡ panic
  unfolding append_entries
  append_entries_before f w lt =
      let step : add64 m.prev_log_index 1 ≡ m.prev_log_index + 1 =
        mod-eq_of_lt (omega (arith, w.bounded)) in
      rw (sent, step, append_one_before (m.prev_log_index + 1) e f w lt real)

  -- An AppendEntries whose term is not old, whose entries begin below a follower's snapshot boundary
  -- (prev_log_index + 1 is less than it), and whose previous term is the 0 that the follower itself
  -- reports for an index that it has compacted away, passes the consistency check of a well-formed
  -- follower and panics at its first entry, if that has a term.
  pub handle_append_entries_panics : handle_append_entries m r ≡ panic
  unfolding handle_append_entries follow
  handle_append_entries_panics =
      let c = accept_leader-Calm m r in
      let f = accept_leader m r in
      let w = WellFormed-Calm r f h c in
      let lt : m.prev_log_index + 1 < base f = rw c.sentinel before in
      let zero_term : term_at f m.prev_log_index ≡ m.prev_log_term =
        term_at_before f m.prev_log_index (omega arith) ∙ sym none_there in
      simp (
        le→ltb m.term r.current_term fresh,
        le→ltb (last_log_index f) m.prev_log_index (omega (arith, last_log_index_lem f w)),
        zero_term,
        ==_refl m.prev_log_term,
        append_entries_before f w lt,
      )

-- A snapshot in a message whose term is not old, that ends below a follower's commit index and above
-- its own snapshot, makes the follower discard entries that it has committed: its log then ends
-- before its commit index.
pub handle_install_snapshot_discards :
    (m : Message) (r : Raft)
    → r.current_term ≤ m.term
    → base r < m.snapshot.last_included_index
    → m.snapshot.last_included_index < r.commit_index
    → let r' = handle_install_snapshot m r in
      (r'.commit_index ≡ r.commit_index) × (last_log_index r' < r'.commit_index)
unfolding handle_install_snapshot receive_snapshot accept_leader become_follower
    reset_election_timeout install send last_of
handle_install_snapshot_discards m r fresh above below = ground arith
