-- ===== src/Raft/Votes.antt =====
-- Terms and votes: what a node may do to the two values of its HardState.
use key_value_store.Prelude.{ℕ, ◌+◌, ◌<◌, ◌^◌, ◌≡◌, ◌⊎◌, arith, ok-injective, >>=-eq-ok, ok}
use key_value_store.Raft.Types.{
  Message, MessageType, msg_pre_vote, msg_pre_vote_response, msg_request_vote,
  msg_request_vote_response, msg_append_entries, msg_append_entries_response, msg_install_snapshot,
  msg_install_snapshot_response, msg_other,
}
use key_value_store.Raft.State.{Raft, set_at, add_key, reset_election_timeout}
use key_value_store.Raft.Replication.{
  send, send_heartbeats, maybe_advance_commit_index, send_append_entries,
}
use key_value_store.Raft.Election.{
  become_follower, become_leader, become_candidate, become_pre_candidate, handle_pre_vote,
  handle_pre_vote_response, handle_request_vote, handle_request_vote_response, lead, stand, poll,
  count_pre_vote, count_vote,
}
use key_value_store.Raft.ReadIndex.{ack_read_index}
use key_value_store.Raft.Append.{
  follow_commit, accept_leader, follow, handle_append_entries, handle_append_entries_response,
  handle_install_snapshot, handle_install_snapshot_response, install, receive_snapshot,
  acknowledge_read, on_success, on_failure, raise_match, back_off, raise_next,
}
use key_value_store.Raft.AppendFrame.{append_entries-Kept}
use key_value_store.Raft.Step.{tick, step, dispatch}
use key_value_store.Raft.Frame.{
  SameState, SameState-trans, send_heartbeats-Quiet, commit_if_alone-SameState, ask_peers-Quiet,
  send_append_entries-Quiet,
}

-- From r to r' the term grows, or it stays and so does a vote that was cast in it.
abbrev pub VoteRule : Raft → Raft → Type 0
VoteRule r r' =
    (r.current_term < r'.current_term)
    ⊎ ((r'.current_term ≡ r.current_term) × ((r.voted_for ≡ 0) ⊎ (r'.voted_for ≡ r.voted_for)))

-- The next term is still a uint64.
abbrev pub TermBounded : Raft → Type 0
TermBounded r = r.current_term + 1 < 2 ^ 64

pub VoteRule-SameState : (r s t : Raft) → VoteRule r s → SameState s t → VoteRule r t
VoteRule-SameState r s t h k = ground arith

pub become_follower-VoteRule : (t : ℕ) (r : Raft) → VoteRule r (become_follower t r)
unfolding become_follower reset_election_timeout
become_follower-VoteRule t r = ground arith

handle_request_vote-VoteRule : (m : Message) (r : Raft) → VoteRule r (handle_request_vote m r)
unfolding handle_request_vote become_follower reset_election_timeout send
handle_request_vote-VoteRule m r = ground arith

become_leader-SameState : (r : Raft) → SameState (lead r) (become_leader r)
unfolding become_leader
become_leader-SameState r =
    SameState-trans (lead r) (send_heartbeats (lead r)) _ (send_heartbeats-Quiet (lead r)).state
      (commit_if_alone-SameState (send_heartbeats (lead r)))

pub become_leader-HardState :
    (r : Raft)
    → ((become_leader r).current_term ≡ r.current_term)
      × ((become_leader r).voted_for ≡ r.voted_for)
unfolding lead
become_leader-HardState r =
    ((become_leader-SameState r).current_term, (become_leader-SameState r).voted_for)

-- An election is in the next term, with a vote for the node itself.
pub become_candidate-HardState :
    (r : Raft)
    → TermBounded r
    → ((become_candidate r).current_term ≡ r.current_term + 1)
      × ((become_candidate r).voted_for ≡ r.id)
unfolding become_candidate stand reset_election_timeout
become_candidate-HardState r h =
    ground
      (arith, become_leader-HardState (stand r), (ask_peers-Quiet msg_request_vote (stand r)).state)

become_pre_candidate-VoteRule : (r : Raft) → TermBounded r → VoteRule r (become_pre_candidate r)
unfolding become_pre_candidate poll reset_election_timeout
become_pre_candidate-VoteRule r h =
    ground
      (arith, become_candidate-HardState (poll r), (ask_peers-Quiet msg_pre_vote (poll r)).state)

count_pre_vote-VoteRule : (p : ℕ) (r : Raft) → TermBounded r → VoteRule r (count_pre_vote p r)
unfolding count_pre_vote
count_pre_vote-VoteRule p r h = ground (
  arith,
  become_candidate-HardState (record r { pre_votes_received = add_key p r.pre_votes_received }),
)

handle_pre_vote_response-VoteRule :
    (m : Message) (r : Raft) → TermBounded r → VoteRule r (handle_pre_vote_response m r)
unfolding handle_pre_vote_response
handle_pre_vote_response-VoteRule m r h = ground (arith, count_pre_vote-VoteRule m.from r)

count_vote-VoteRule : (p : ℕ) (r : Raft) → VoteRule r (count_vote p r)
unfolding count_vote
count_vote-VoteRule p r =
    ground
      (arith, become_leader-HardState (record r { votes_received = add_key p r.votes_received }))

handle_request_vote_response-VoteRule :
    (m : Message) (r : Raft) → VoteRule r (handle_request_vote_response m r)
unfolding handle_request_vote_response
handle_request_vote_response-VoteRule m r =
    ground (arith, count_vote-VoteRule m.from r, become_follower-VoteRule m.term r)

follow-SameVotes :
    (m : Message) (r r' : Raft)
    → follow m r ≡ ok r'
    → (r'.current_term ≡ r.current_term) × (r'.voted_for ≡ r.voted_for)
unfolding follow send follow_commit
follow-SameVotes m r r' h = grind (arith, append_entries-Kept, >>=-eq-ok)

accept_leader-VoteRule : (m : Message) (r : Raft) → VoteRule r (accept_leader m r)
unfolding accept_leader
accept_leader-VoteRule m r = ground (arith, become_follower-VoteRule m.term r)

handle_append_entries-VoteRule :
    (m : Message) (r r' : Raft) → handle_append_entries m r ≡ ok r' → VoteRule r r'
unfolding handle_append_entries send
handle_append_entries-VoteRule m r r' h =
    ground (arith, accept_leader-VoteRule m r, follow-SameVotes m (accept_leader m r) r')

acknowledge_read-SameVotes :
    (m : Message) (r : Raft)
    → ((acknowledge_read m r).current_term ≡ r.current_term)
      × ((acknowledge_read m r).voted_for ≡ r.voted_for)
unfolding acknowledge_read ack_read_index
acknowledge_read-SameVotes m r = ground arith

on_success-SameState : (m : Message) (r : Raft) → SameState r (on_success m r)
unfolding on_success raise_match maybe_advance_commit_index
on_success-SameState m r = ground arith

on_failure-SameState : (m : Message) (r : Raft) → SameState r (on_failure m r)
unfolding on_failure
on_failure-SameState m r =
    let ready = record (back_off m r) { sent_index = set_at (back_off m r).sent_index m.from 0 } in
    SameState-trans r ready (send_append_entries m.from 0 ready) (unfold back_off in ground arith)
      (send_append_entries-Quiet m.from 0 ready).state

handle_append_entries_response-VoteRule :
    (m : Message) (r : Raft) → VoteRule r (handle_append_entries_response m r)
unfolding handle_append_entries_response
handle_append_entries_response-VoteRule m r = ground (
  arith,
  become_follower-VoteRule m.term r,
  acknowledge_read-SameVotes m r,
  on_success-SameState m (acknowledge_read m r),
  on_failure-SameState m (acknowledge_read m r),
)

handle_install_snapshot-VoteRule :
    (m : Message) (r : Raft) → VoteRule r (handle_install_snapshot m r)
unfolding handle_install_snapshot receive_snapshot install send
handle_install_snapshot-VoteRule m r = ground (arith, accept_leader-VoteRule m r)

handle_install_snapshot_response-VoteRule :
    (m : Message) (r : Raft) → VoteRule r (handle_install_snapshot_response m r)
unfolding handle_install_snapshot_response raise_match raise_next maybe_advance_commit_index
handle_install_snapshot_response-VoteRule m r = ground (arith, become_follower-VoteRule m.term r)

handle_pre_vote-VoteRule : (m : Message) (r : Raft) → VoteRule r (handle_pre_vote m r)
unfolding handle_pre_vote send
handle_pre_vote-VoteRule m r = ground arith

dispatch-VoteRule :
    (t : MessageType) (m : Message) (r r' : Raft)
    → TermBounded r
    → dispatch t m r ≡ ok r'
    → VoteRule r r'
unfolding dispatch
dispatch-VoteRule msg_pre_vote m r r' b h = rw (← (ok-injective h)) (handle_pre_vote-VoteRule m r)
dispatch-VoteRule msg_pre_vote_response m r r' b h =
    rw (← (ok-injective h)) (handle_pre_vote_response-VoteRule m r b)
dispatch-VoteRule msg_request_vote m r r' b h =
    rw (← (ok-injective h)) (handle_request_vote-VoteRule m r)
dispatch-VoteRule msg_request_vote_response m r r' b h =
    rw (← (ok-injective h)) (handle_request_vote_response-VoteRule m r)
dispatch-VoteRule msg_append_entries m r r' b h = handle_append_entries-VoteRule m r r' h
dispatch-VoteRule msg_append_entries_response m r r' b h =
    rw (← (ok-injective h)) (handle_append_entries_response-VoteRule m r)
dispatch-VoteRule msg_install_snapshot m r r' b h =
    rw (← (ok-injective h)) (handle_install_snapshot-VoteRule m r)
dispatch-VoteRule msg_install_snapshot_response m r r' b h =
    rw (← (ok-injective h)) (handle_install_snapshot_response-VoteRule m r)
dispatch-VoteRule (msg_other n) m r r' b h = rw (← (ok-injective h)) (ground arith)

-- Whatever message a node processes, its term does not fall, and within one term a vote that it has
-- cast stays. The next term is still a uint64.
pub step-VoteRule : (m : Message) (r r' : Raft) → TermBounded r → step m r ≡ ok r' → VoteRule r r'
unfolding step
step-VoteRule m r r' b h = ground (arith, dispatch-VoteRule m.type m r r')

-- So too for a tick of the node's clock.
pub tick-VoteRule : (r : Raft) → TermBounded r → VoteRule r (tick r)
unfolding tick
tick-VoteRule r h = ground (
  arith,
  (send_heartbeats-Quiet (record r { heartbeat_elapsed = 0 })).state,
  become_pre_candidate-VoteRule (record r { election_elapsed = r.election_elapsed + 1 }),
)
