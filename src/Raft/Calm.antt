-- ===== src/Raft/Calm.antt =====
-- Handlers that leave the log alone, and may move the commit index up within it.
use key_value_store.Prelude.{
  ℕ, zero, suc, ◌+◌, ◌-◌, ◌≤◌, ◌≡◌, refl, ◌∙◌, ◌⊎◌, inl, inr, Bool-cases, length, arith, ◌==◌,
}
use key_value_store.Raft.Types.{Message, msg_request_vote, msg_pre_vote}
use key_value_store.Raft.State.{
  Raft, last_log_index, add64, add_key, set_at, reset_election_timeout,
}
use key_value_store.Raft.Replication.{
  send, send_heartbeats, commit_scan, committable, maybe_advance_commit_index, commit_if_alone,
  send_append_entries,
}
use key_value_store.Raft.Election.{
  become_follower, become_leader, become_candidate, become_pre_candidate, handle_pre_vote,
  handle_pre_vote_response, handle_request_vote, handle_request_vote_response, lead, stand, poll,
  count_pre_vote, count_vote,
}
use key_value_store.Raft.ReadIndex.{ack_read_index}
use key_value_store.Raft.Append.{
  accept_leader, handle_append_entries_response, handle_install_snapshot_response, acknowledge_read,
  on_success, on_failure, raise_match, back_off, raise_next,
}
use key_value_store.Raft.Step.{tick}
use key_value_store.Raft.Frame.{
  Quiet, send_heartbeats-Quiet, ask_peers-Quiet, send-Quiet, send_append_entries-Quiet,
}
use key_value_store.Raft.Invariant.{WellFormed, last_log_index_lem}

pub record Calm (r s : Raft) : Type 0 where
  pub sentinel : s.sentinel ≡ r.sentinel
  pub log : s.log ≡ r.log
  pub unstable_index : s.unstable_index ≡ r.unstable_index
  pub above : r.commit_index ≤ s.commit_index
  pub within : (s.commit_index ≡ r.commit_index) ⊎ (s.commit_index ≤ last_log_index r)

pub Calm-trans : (r s t : Raft) → Calm r s → Calm s t → Calm r t
Calm-trans r s t h k = record {
  sentinel = k.sentinel ∙ h.sentinel;
  log = k.log ∙ h.log;
  unstable_index = k.unstable_index ∙ h.unstable_index;
  above = omega (arith, h.above, k.above);
  within = ground (arith, h.within, k.within, same);
}
  where
    same : last_log_index s ≡ last_log_index r
    same = rw (h.sentinel, h.log)

pub WellFormed-Calm : (r s : Raft) → WellFormed r → Calm r s → WellFormed s
WellFormed-Calm r s h k = record {
  contiguous = rw (k.sentinel, k.log) h.contiguous;
  base_committed = rw k.sentinel (omega (arith, h.base_committed, k.above));
  committed = rw (k.sentinel, k.log) (omega (arith, h.committed, k.within, last_log_index_lem r h));
  base_stable = rw (k.sentinel, k.unstable_index) h.base_stable;
  stable = rw (k.sentinel, k.log, k.unstable_index) h.stable;
  bounded = rw (k.sentinel, k.log) h.bounded;
}

pub Calm-Quiet : (r s : Raft) → Quiet r s → Calm r s
Calm-Quiet r s q = record {
  sentinel = q.state.sentinel;
  log = q.state.log;
  unstable_index = q.state.unstable_index;
  above = omega (arith, q.commit_index);
  within = inl q.commit_index;
}

pub commit_scan_bounds :
    (r : Raft) (k : ℕ) → (r.commit_index ≤ commit_scan r k) × (commit_scan r k ≤ r.commit_index + k)
unfolding commit_scan
commit_scan_bounds r zero = omega arith
commit_scan_bounds r (suc k) = elim (Bool-cases (committable r (r.commit_index + suc k))) [
  | inl e ↦ rw e (omega arith)
  | inr e ↦ rw e (omega (arith, commit_scan_bounds r k))
]

pub maybe_advance_commit_index-Calm : (r : Raft) → Calm r (maybe_advance_commit_index r)
unfolding maybe_advance_commit_index
maybe_advance_commit_index-Calm r = record {
  sentinel = refl;
  log = refl;
  unstable_index = refl;
  above = (commit_scan_bounds r (last_log_index r - r.commit_index)).0;
  within = ground (arith, commit_scan_bounds r (last_log_index r - r.commit_index));
}

pub Calm-refl : (r : Raft) → Calm r r
Calm-refl r = record {
  sentinel = refl;
  log = refl;
  unstable_index = refl;
  above = omega arith;
  within = inl refl;
}

pub commit_if_alone-Calm : (r : Raft) → Calm r (commit_if_alone r)
unfolding commit_if_alone
commit_if_alone-Calm r = elim (Bool-cases (length r.peers == 0)) [
  | inl e ↦ rw e (maybe_advance_commit_index-Calm r)
  | inr e ↦ rw e (Calm-refl r)
]

pub send-Calm : (m : Message) (r : Raft) → Calm r (send m r)
send-Calm m r = Calm-Quiet r (send m r) (send-Quiet m r)

pub become_follower-Calm : (t : ℕ) (r : Raft) → Calm r (become_follower t r)
unfolding become_follower reset_election_timeout
become_follower-Calm t r = ground arith

pub accept_leader-Calm : (m : Message) (r : Raft) → Calm r (accept_leader m r)
unfolding accept_leader
accept_leader-Calm m r = ground (arith, become_follower-Calm m.term r)

become_leader-Calm : (r : Raft) → Calm r (become_leader r)
unfolding become_leader lead
become_leader-Calm r =
    Calm-trans r (send_heartbeats (lead r)) _
      (ground
        (arith, Calm-Quiet (lead r) (send_heartbeats (lead r)) (send_heartbeats-Quiet (lead r))))
      (commit_if_alone-Calm (send_heartbeats (lead r)))

become_candidate-Calm : (r : Raft) → Calm r (become_candidate r)
unfolding become_candidate stand reset_election_timeout
become_candidate-Calm r = elim (Bool-cases (length r.peers == 0)) [
  | inl e ↦ rw e (ground (arith, become_leader-Calm (stand r)))
  | inr e ↦ rw e (ground (arith, ask_peers-Quiet msg_request_vote (stand r)))
]

become_pre_candidate-Calm : (r : Raft) → Calm r (become_pre_candidate r)
unfolding become_pre_candidate poll reset_election_timeout
become_pre_candidate-Calm r = elim (Bool-cases (length r.peers == 0)) [
  | inl e ↦ rw e (ground (arith, become_candidate-Calm (poll r)))
  | inr e ↦ rw e (ground (arith, ask_peers-Quiet msg_pre_vote (poll r)))
]

pub tick-Calm : (r : Raft) → Calm r (tick r)
unfolding tick
tick-Calm r = ground (
  arith,
  send_heartbeats-Quiet (record r { heartbeat_elapsed = 0 }),
  become_pre_candidate-Calm (record r { election_elapsed = r.election_elapsed + 1 }),
)

pub handle_pre_vote-Calm : (m : Message) (r : Raft) → Calm r (handle_pre_vote m r)
unfolding handle_pre_vote send
handle_pre_vote-Calm m r = ground arith

pub handle_pre_vote_response-Calm : (m : Message) (r : Raft) → Calm r (handle_pre_vote_response m r)
unfolding handle_pre_vote_response count_pre_vote
handle_pre_vote_response-Calm m r = ground (
  arith,
  become_candidate-Calm (record r { pre_votes_received = add_key m.from r.pre_votes_received }),
)

pub handle_request_vote-Calm : (m : Message) (r : Raft) → Calm r (handle_request_vote m r)
unfolding handle_request_vote become_follower reset_election_timeout send
handle_request_vote-Calm m r = ground arith

pub handle_request_vote_response-Calm :
    (m : Message) (r : Raft) → Calm r (handle_request_vote_response m r)
unfolding handle_request_vote_response count_vote
handle_request_vote_response-Calm m r = ground (
  arith,
  become_follower-Calm m.term r,
  become_leader-Calm (record r { votes_received = add_key m.from r.votes_received }),
)

acknowledge_read-Calm : (m : Message) (r : Raft) → Calm r (acknowledge_read m r)
unfolding acknowledge_read ack_read_index
acknowledge_read-Calm m r = ground arith

on_success-Calm : (m : Message) (r : Raft) → Calm r (on_success m r)
unfolding on_success
on_success-Calm m r =
    let r' = record (raise_match m r) {
      next_index = set_at (raise_match m r).next_index m.from (add64 m.match_index 1);
    } in
    Calm-trans r r' (maybe_advance_commit_index r') (unfold raise_match in ground arith)
      (maybe_advance_commit_index-Calm r')

on_failure-Calm : (m : Message) (r : Raft) → Calm r (on_failure m r)
unfolding on_failure
on_failure-Calm m r =
    let ready = record (back_off m r) { sent_index = set_at (back_off m r).sent_index m.from 0 } in
    Calm-trans r ready (send_append_entries m.from 0 ready) (unfold back_off in ground arith) (
      Calm-Quiet ready (send_append_entries m.from 0 ready)
        (send_append_entries-Quiet m.from 0 ready))

pub handle_append_entries_response-Calm :
    (m : Message) (r : Raft) → Calm r (handle_append_entries_response m r)
unfolding handle_append_entries_response
handle_append_entries_response-Calm m r = ground (
  arith,
  become_follower-Calm m.term r,
  Calm-trans r (acknowledge_read m r) _ (acknowledge_read-Calm m r)
      (on_success-Calm m (acknowledge_read m r)),
  Calm-trans r (acknowledge_read m r) _ (acknowledge_read-Calm m r)
      (on_failure-Calm m (acknowledge_read m r)),
)

pub handle_install_snapshot_response-Calm :
    (m : Message) (r : Raft) → Calm r (handle_install_snapshot_response m r)
unfolding handle_install_snapshot_response
handle_install_snapshot_response-Calm m r =
    let r' = raise_next m (raise_match m r) in
    ground (
      arith,
      become_follower-Calm m.term r,
      Calm-trans r r' (maybe_advance_commit_index r')
          (unfold raise_match raise_next in ground arith) (maybe_advance_commit_index-Calm r'),
    )
