-- ===== src/Raft/Invariant.antt =====
-- The well-formedness of a node.
use key_value_store.Prelude.{ℕ, ◌+◌, ◌-◌, ◌≤◌, ◌<◌, ◌^◌, ◌≡◌, length, arith, refl, le→ltb}
use key_value_store.Raft.Types.{LogEntry}
use key_value_store.Raft.State.{Raft, base, last_log_index}
use key_value_store.Raft.Log.{nth, term_at}
use key_value_store.Raft.LogShape.{Contiguous, index-last_of}
use key_value_store.Raft.Frame.{SameState}

-- The log counts up from its sentinel; the committed index and the unstable index lie within it;
-- and its last index has a successor that is a uint64.
pub record WellFormed (r : Raft) : Type 0 where
  pub contiguous : Contiguous r.sentinel.index r.log
  pub base_committed : base r ≤ r.commit_index
  pub committed : r.commit_index ≤ base r + length r.log
  pub base_stable : base r < r.unstable_index
  pub stable : r.unstable_index ≤ base r + length r.log + 1
  pub bounded : base r + length r.log + 1 < 2 ^ 64

pub last_log_index_lem : (r : Raft) → WellFormed r → last_log_index r ≡ base r + length r.log
last_log_index_lem r h = index-last_of r.sentinel.index r.sentinel r.log refl h.contiguous

-- The entry at an index, for an index that the log covers.
abbrev pub entry_at : Raft → ℕ → LogEntry
entry_at r i = nth r.sentinel r.log (i - base r)

pub term_at_within :
    (r : Raft) (i : ℕ)
    → WellFormed r
    → base r ≤ i
    → i ≤ base r + length r.log
    → term_at r i ≡ (entry_at r i).term
unfolding term_at
term_at_within r i h lo hi =
    rw (last_log_index_lem r h, le→ltb i (base r) lo, le→ltb (base r + length r.log) i hi)

pub WellFormed-SameState :
    (r s : Raft)
    → WellFormed r
    → SameState r s
    → r.commit_index ≤ s.commit_index
    → s.commit_index ≤ base r + length r.log
    → WellFormed s
WellFormed-SameState r s h k lo hi = record {
  contiguous = rw (k.sentinel, k.log) h.contiguous;
  base_committed = rw k.sentinel (omega (arith, h.base_committed));
  committed = rw (k.sentinel, k.log) hi;
  base_stable = rw (k.sentinel, k.unstable_index) h.base_stable;
  stable = rw (k.sentinel, k.log, k.unstable_index) h.stable;
  bounded = rw (k.sentinel, k.log) h.bounded;
}
