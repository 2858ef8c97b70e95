-- ===== src/Raft/Election.antt =====
-- raft/raft.go: the transitions between roles, votes and pre-votes.
use key_value_store.Prelude.{
  ℕ, List, [], ◌∷◌, Bool, true, false, ◌&&◌, ◌||◌, ltb, leb, ◌==◌, if◌then◌else◌, length,
}
use key_value_store.Raft.Types.{
  Role, follower, pre_candidate, candidate, leader, Message, MessageType, blank, msg_pre_vote,
  msg_pre_vote_response, msg_request_vote, msg_request_vote_response,
}
use key_value_store.Raft.State.{
  Raft, IndexMap, set_at, add64, add_key, last_log_index, last_log_term, reset_election_timeout,
}
use key_value_store.Raft.Replication.{
  send, for_peers, send_heartbeats, has_majority_count, commit_if_alone,
}

unfoldable pub adopt_term : ℕ → Raft → Raft
adopt_term term r =
    if ltb r.current_term term then record r { current_term = term; voted_for = 0 } else r

-- becomeFollower(term): a newer term is adopted and clears the vote.
unfoldable pub become_follower : ℕ → Raft → Raft
unfolding adopt_term
become_follower term r = reset_election_timeout (record (adopt_term term r) { role = follower })

-- The map that holds one value at each peer.
unfoldable pub all_at : List ℕ → ℕ → IndexMap → IndexMap
all_at [] v m = m
all_at (p ∷ ps) v m = all_at ps v (set_at m p v)

unfoldable pub lead : Raft → Raft
unfolding all_at
lead r = record r {
  role = leader;
  leader_id = r.id;
  next_index = all_at r.peers (add64 (last_log_index r) 1) (λ _. 0);
  match_index = all_at r.peers 0 (λ _. 0);
  sent_index = λ _. 0;
  pending_reads = [];
  heartbeat_elapsed = 0;
}

unfoldable pub become_leader : Raft → Raft
become_leader r = commit_if_alone (send_heartbeats (lead r))

-- The request that asks for a vote or a pre-vote, with the last entry of the log.
abbrev pub vote_message : MessageType → Raft → ℕ → Message
vote_message t r p = record (blank t p) {
  last_log_index = last_log_index r;
  last_log_term = last_log_term r;
}

unfoldable pub ask_peers : MessageType → Raft → Raft
ask_peers t r = for_peers (λ p r'. send (vote_message t r' p) r') r.peers r

unfoldable pub stand : Raft → Raft
stand r = reset_election_timeout (record r {
  current_term = add64 r.current_term 1;
  role = candidate;
  voted_for = r.id;
  leader_id = 0;
  votes_received = r.id ∷ [];
})

unfoldable pub become_candidate : Raft → Raft
become_candidate r =
    if length r.peers == 0 then become_leader (stand r) else ask_peers msg_request_vote (stand r)

unfoldable pub poll : Raft → Raft
poll r =
    reset_election_timeout
      (record r { role = pre_candidate; leader_id = 0; pre_votes_received = r.id ∷ [] })

unfoldable pub become_pre_candidate : Raft → Raft
become_pre_candidate r =
    if length r.peers == 0 then become_candidate (poll r) else ask_peers msg_pre_vote (poll r)

-- The candidate's log is at least as up to date as the voter's.
unfoldable pub log_ok : Message → Raft → Bool
log_ok m r =
    ltb (last_log_term r) m.last_log_term
    || ((m.last_log_term == last_log_term r) && leb (last_log_index r) m.last_log_index)

abbrev pub vote_response : MessageType → Message → Bool → Message
vote_response t m granted = record (blank t m.from) { vote_granted = granted }

unfoldable pub handle_pre_vote : Message → Raft → Raft
handle_pre_vote m r =
    let prospective_term = add64 m.term 1 in
    let can_vote =
      (r.voted_for == 0) || ((r.voted_for == m.from) || ltb r.current_term prospective_term) in
    if ltb prospective_term r.current_term
    then send (vote_response msg_pre_vote_response m false) r
    else send (vote_response msg_pre_vote_response m (can_vote && log_ok m r)) r

abbrev pub is_pre_candidate : Role → Bool
is_pre_candidate pre_candidate = true
is_pre_candidate _ = false

abbrev pub is_candidate : Role → Bool
is_candidate candidate = true
is_candidate _ = false

unfoldable pub count_pre_vote : ℕ → Raft → Raft
count_pre_vote p r =
    let r' = record r { pre_votes_received = add_key p r.pre_votes_received } in
    if has_majority_count r' (length r'.pre_votes_received) then become_candidate r' else r'

unfoldable pub handle_pre_vote_response : Message → Raft → Raft
unfolding count_pre_vote
handle_pre_vote_response m r =
    if is_pre_candidate r.role && m.vote_granted then count_pre_vote m.from r else r

-- The vote of a node whose term is not below the request's.
unfoldable pub grant_vote : Message → Raft → Raft
grant_vote m r =
    let granted = ((r.voted_for == 0) || (r.voted_for == m.from)) && log_ok m r in
    send (vote_response msg_request_vote_response m granted)
      (if granted then reset_election_timeout (record r { voted_for = m.from }) else r)

unfoldable pub vote_in_term : Message → Raft → Raft
unfolding grant_vote
vote_in_term m r =
    if ltb m.term r.current_term
    then send (vote_response msg_request_vote_response m false) r
    else grant_vote m r

unfoldable pub handle_request_vote : Message → Raft → Raft
unfolding vote_in_term
handle_request_vote m r =
    vote_in_term m (if ltb r.current_term m.term then become_follower m.term r else r)

unfoldable pub count_vote : ℕ → Raft → Raft
count_vote p r =
    let r' = record r { votes_received = add_key p r.votes_received } in
    if has_majority_count r' (length r'.votes_received) then become_leader r' else r'

unfoldable pub handle_request_vote_response : Message → Raft → Raft
unfolding count_vote
handle_request_vote_response m r =
    if ltb r.current_term m.term
    then become_follower m.term r
    else if ltb m.term r.current_term
    then r
    else if is_candidate r.role && m.vote_granted
    then count_vote m.from r
    else r
