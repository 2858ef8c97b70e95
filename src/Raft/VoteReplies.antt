-- ===== src/Raft/VoteReplies.antt =====
-- What a vote or a pre-vote response says.
use key_value_store.Prelude.{
  ◌+◌, ◌≤◌, ◌<◌, ◌^◌, ◌≡◌, ◌≢◌, ◌⊎◌, [], ◌∷◌, ◌++◌, Bool, true, false, arith, ltb, ◌==◌, ◌&&◌, ◌||◌,
  if◌then◌else◌,
}
use key_value_store.Raft.Types.{Message, msg_request_vote_response, msg_pre_vote_response}
use key_value_store.Raft.State.{Raft, reset_election_timeout, last_log_index, last_log_term}
use key_value_store.Raft.Replication.{send}
use key_value_store.Raft.Election.{
  become_follower, log_ok, vote_response, handle_pre_vote, handle_request_vote,
}

-- The order of the Raft paper on the last entries of two logs.
abbrev pub UpToDate : Message → Raft → Type 0
UpToDate m r =
    (last_log_term r < m.last_log_term)
    ⊎ ((m.last_log_term ≡ last_log_term r) × (last_log_index r ≤ m.last_log_index))

-- The response that a node sends in its term.
abbrev pub stamped : Raft → Message → Message
stamped r m = record m { from = r.id; term = r.current_term }

-- The answer that `handle_request_vote` sends.
abbrev pub votes_yes : Message → Raft → Bool
votes_yes m r =
    let r' = if ltb r.current_term m.term then become_follower m.term r else r in
    if ltb m.term r'.current_term
    then false
    else ((r'.voted_for == 0) || (r'.voted_for == m.from)) && log_ok m r'

abbrev pub IsBehind : Message → Raft → Type 0
IsBehind m r =
    (m.last_log_term < last_log_term r)
    ⊎ ((m.last_log_term ≡ last_log_term r) × (m.last_log_index < last_log_index r))

-- The node's vote in the request's term is its to give to the candidate, or it is not.
abbrev pub IsFree : Message → Raft → Type 0
IsFree m r =
    (r.current_term < m.term)
    ⊎ ((r.current_term ≡ m.term) × ((r.voted_for ≡ 0) ⊎ (r.voted_for ≡ m.from)))

abbrev pub IsTaken : Message → Raft → Type 0
IsTaken m r =
    (m.term < r.current_term)
    ⊎ ((m.term ≡ r.current_term) × (r.voted_for ≢ 0) × (r.voted_for ≢ m.from))

pub record Grants (m : Message) (r r' : Raft) : Type 0 where
  pub free : IsFree m r
  pub up_to_date : UpToDate m r
  pub term : r'.current_term ≡ m.term
  pub vote : r'.voted_for ≡ m.from

pub record Refuses (m : Message) (r r' : Raft) : Type 0 where
  pub reason : IsTaken m r ⊎ IsBehind m r
  pub vote :
      ((r'.current_term ≡ r.current_term) × (r'.voted_for ≡ r.voted_for))
      ⊎ ((r.current_term < r'.current_term) × (r'.voted_for ≡ 0))

-- A request for a vote gets one response, in the node's new term. Either it grants the vote: no
-- other node has the vote of the request's term, the candidate's log is up to date, and the vote is
-- recorded in that term. Or it refuses: the term is old, the vote is another node's, or the
-- candidate's log is behind; then the vote is as it was, or cleared in a newer term.
pub handle_request_vote_answers :
    (m : Message) (r : Raft)
    → let r' = handle_request_vote m r in
      (r'.msgs
        ≡ r.msgs ++ (stamped r' (vote_response msg_request_vote_response m (votes_yes m r)) ∷ []))
      × (((votes_yes m r ≡ true) × Grants m r r') ⊎ ((votes_yes m r ≡ false) × Refuses m r r'))
unfolding handle_request_vote become_follower reset_election_timeout send log_ok
handle_request_vote_answers m r = ground arith

-- A pre-vote is answered as the vote at the next term would be, where that is below 2 ^ 64.
pub handle_pre_vote-eq-vote :
    (m : Message) (r : Raft)
    → m.term + 1 < 2 ^ 64
    → handle_pre_vote m r
      ≡ send
          (vote_response msg_pre_vote_response m (votes_yes (record m { term = m.term + 1 }) r))
          r
unfolding handle_pre_vote become_follower reset_election_timeout log_ok
handle_pre_vote-eq-vote m r h = ground arith
