-- ===== src/Examples/Consensus.antt =====
-- Examples of the consensus theorems.
use key_value_store.Prelude.{
  ◌+◌, ◌≤◌, ◌<◌, ◌≡◌, ◌≢◌, refl, ◌⊎◌, List, inl, [], ◌∷◌, true, false, take, length, arith, ok,
  panic,
}
use key_value_store.Raft.Types.{Message, msg_pre_vote_response, msg_request_vote_response}
use key_value_store.Raft.State.{
  Raft, new, validate, valid_peers, fresh, reset_election_timeout, base, last_log_index, last_of,
}
use key_value_store.Raft.Log.{term_at, nth}
use key_value_store.Raft.Replication.{
  send, propose_batch, count_matching, has_majority_count, maybe_advance_commit_index, commit_scan,
  committable, append_message,
}
use key_value_store.Raft.Election.{handle_request_vote, handle_pre_vote, vote_response}
use key_value_store.Raft.Append.{handle_append_entries, handle_install_snapshot}
use key_value_store.Raft.Step.{step, dispatch, tick}
use key_value_store.Raft.LogShape.{Contiguous}
use key_value_store.Raft.Invariant.{WellFormed}
use key_value_store.Raft.Votes.{VoteRule, step-VoteRule}
use key_value_store.Raft.VoteReplies.{
  stamped, votes_yes, Grants, Refuses, handle_request_vote_answers, handle_pre_vote-eq-vote,
}
use key_value_store.Raft.Follower.{Admits, Matched}
use key_value_store.Raft.Preserve.{
  handle_append_entries_safe, handle_append_entries-Matched, step-Safe,
}
use key_value_store.Raft.AppendLoop.{Holds}
use key_value_store.Raft.CommitRule.{
  OnMajority, IsMajority, maybe_advance_commit_index_sound, maybe_advance_commit_index_maximal,
}
use key_value_store.Raft.Leader.{Progress, sent_append, append_round, append_message_covers}
use key_value_store.Raft.Proposals.{SentTo, with_proposals, propose_batch_lem}
use key_value_store.Raft.Hazards.{handle_append_entries_panics, handle_install_snapshot_discards}
use key_value_store.Raft.Reachable.{here, next, ticked, Reach-WellFormed}
use key_value_store.Examples.Nodes.{
  config, entry, lead_node, follow_node, compacted_node, append_request, vote_request, old_append,
  low_snapshot,
}

lead_node-WellFormed : WellFormed lead_node
lead_node-WellFormed = omega arith

follow_node-WellFormed : WellFormed follow_node
follow_node-WellFormed = omega arith

compacted_node-WellFormed : WellFormed compacted_node
compacted_node-WellFormed = omega arith

append_request-Admits : Admits append_request follow_node
append_request-Admits = omega arith

abbrev first_node : Raft
first_node = unfold reset_election_timeout fresh in reset_election_timeout (fresh config (λ _. 0))

Reach-WellFormed_example :
    WellFormed (tick (tick first_node))
    × ((tick first_node).commit_index ≤ (tick (tick first_node)).commit_index)
unfolding new validate valid_peers fresh reset_election_timeout tick
Reach-WellFormed_example =
    let first = next here (ticked first_node (omega arith)) in
    Reach-WellFormed config (λ _. 0) refl first (next here (ticked (tick first_node) (omega arith)))

step-VoteRule_example : VoteRule follow_node (handle_request_vote vote_request follow_node)
unfolding step dispatch
step-VoteRule_example =
    step-VoteRule vote_request follow_node (handle_request_vote vote_request follow_node)
      (omega arith) refl

step-Safe_example :
    (r' : Raft) × (step append_request follow_node ≡ ok r') × WellFormed r' × (1 ≤ r'.commit_index)
step-Safe_example =
    step-Safe append_request follow_node follow_node-WellFormed append_request-Admits

handle_append_entries_safe_example :
    (r' : Raft) × (handle_append_entries append_request follow_node ≡ ok r')
    × WellFormed r'
    × (base r' ≡ 0)
    × (1 ≤ r'.commit_index)
    × (take 1 r'.log ≡ entry 1 1 ∷ [])
handle_append_entries_safe_example =
    handle_append_entries_safe append_request follow_node follow_node-WellFormed
      append_request-Admits

handle_append_entries-Matched_example :
    (r' : Raft) × (handle_append_entries append_request follow_node ≡ ok r')
    × Matched append_request follow_node r'
unfolding last_of term_at nth
handle_append_entries-Matched_example =
    handle_append_entries-Matched append_request follow_node follow_node-WellFormed
      append_request-Admits (omega arith) (omega arith) refl

lead_node-Progress : Progress 3 lead_node
unfolding last_of
lead_node-Progress = omega arith

append_round_example :
    (f' : Raft) × (handle_append_entries (sent_append 3 0 lead_node) follow_node ≡ ok f')
    × Holds 2 (entry 2 2 ∷ entry 2 3 ∷ []) f'
    × (take 1 f'.log ≡ entry 1 1 ∷ [])
    × (f'.commit_index ≡ 1)
unfolding last_of term_at nth
append_round_example =
    append_round 3 0 lead_node follow_node lead_node-WellFormed follow_node-WellFormed
      lead_node-Progress (omega arith) (omega arith) (omega arith) refl (omega arith)

append_message_covers_example :
    let m = append_message 3 0 lead_node in
    (0 ≤ m.prev_log_index)
    × (m.prev_log_index + length m.entries ≡ 3)
    × (m.leader_commit ≤ m.prev_log_index + length m.entries)
    × Contiguous m.prev_log_index m.entries
unfolding last_of
append_message_covers_example =
    append_message_covers 3 0 lead_node lead_node-WellFormed lead_node-Progress

maybe_advance_commit_index_sound_example :
    let c = (maybe_advance_commit_index lead_node).commit_index in
    (c ≡ 1) ⊎ ((1 < c) × (c ≤ 3) × (term_at lead_node c ≡ 2) × OnMajority lead_node c)
unfolding last_of
maybe_advance_commit_index_sound_example = maybe_advance_commit_index_sound lead_node

-- A leader of five nodes: peer 2 holds all of its log, and the others none.
abbrev behind_node : Raft
behind_node = record lead_node { peers = 2 ∷ 3 ∷ 4 ∷ 5 ∷ [] }

maybe_advance_commit_index_maximal_example :
    (term_at behind_node 3 ≢ 2) ⊎ (¬ (IsMajority behind_node (2 ∷ [])))
unfolding maybe_advance_commit_index commit_scan committable has_majority_count count_matching
    last_of term_at nth
maybe_advance_commit_index_maximal_example =
    maybe_advance_commit_index_maximal behind_node 3 (2 ∷ []) (omega arith) (omega arith)
      (inl (refl, tt), (omega arith, tt))

handle_request_vote_answers_example :
    let r' = handle_request_vote vote_request follow_node in
    (r'.msgs
      ≡ stamped r' (
          vote_response msg_request_vote_response vote_request (votes_yes vote_request follow_node))
        ∷ [])
    × (((votes_yes vote_request follow_node ≡ true) × Grants vote_request follow_node r')
        ⊎ ((votes_yes vote_request follow_node ≡ false) × Refuses vote_request follow_node r'))
handle_request_vote_answers_example = handle_request_vote_answers vote_request follow_node

handle_pre_vote-eq-vote_example :
    handle_pre_vote vote_request follow_node
    ≡ send
        (vote_response msg_pre_vote_response vote_request
          (votes_yes (record vote_request { term = 3 }) follow_node))
        follow_node
handle_pre_vote-eq-vote_example = handle_pre_vote-eq-vote vote_request follow_node (omega arith)

propose_batch_lem_example :
    (r' : Raft) × (propose_batch ((7 ∷ []) ∷ (8 ∷ []) ∷ []) lead_node ≡ ok (4 ∷ 5 ∷ [], r'))
    × (r' ≡ record (with_proposals ((7 ∷ []) ∷ (8 ∷ []) ∷ []) lead_node) {
      msgs = r'.msgs;
      sent_index = r'.sent_index;
      commit_index = r'.commit_index;
    })
    × ((ms : List Message) × (r'.msgs ≡ ms) × SentTo 1 2 (2 ∷ 3 ∷ []) ms)
    × ((r'.commit_index ≡ 1) ⊎ (length lead_node.peers ≡ 0))
    × WellFormed r'
    × (1 ≤ r'.commit_index)
unfolding last_of
propose_batch_lem_example =
    propose_batch_lem ((7 ∷ []) ∷ (8 ∷ []) ∷ []) lead_node lead_node-WellFormed refl (omega arith)

handle_append_entries_panics_example : handle_append_entries old_append compacted_node ≡ panic
handle_append_entries_panics_example =
    handle_append_entries_panics old_append compacted_node (entry 2 2) (entry 2 3 ∷ [])
      compacted_node-WellFormed (omega arith) (omega arith) refl refl (omega arith)

handle_install_snapshot_discards_example :
    let r' = handle_install_snapshot low_snapshot compacted_node in
    (r'.commit_index ≡ 7) × (last_log_index r' < r'.commit_index)
handle_install_snapshot_discards_example =
    handle_install_snapshot_discards low_snapshot compacted_node (omega arith) (omega arith)
      (omega arith)
