-- ===== src/Examples/Nodes.antt =====
-- The nodes and messages that the examples share: a leader of three nodes, and a follower of it.
use key_value_store.Prelude.{ℕ, [], ◌∷◌, none, ◌==◌, if◌then◌else◌}
use key_value_store.Raft.Types.{
  leader, follower, LogEntry, Message, blank, zero_entry, zero_snapshot, msg_request_vote,
  msg_append_entries, msg_install_snapshot,
}
use key_value_store.Raft.State.{Raft, Config}

abbrev pub entry : ℕ → ℕ → LogEntry
entry t i = record { term = t; index = i; payload = i ∷ [] }

abbrev pub config : Config
config = record { id = 1; peers = 2 ∷ 3 ∷ []; election_tick = 10; heartbeat_tick = 2 }

-- It leads in term 2, has three entries and has committed the first; peer 2 holds all three.
abbrev pub lead_node : Raft
lead_node = record {
  id = 1;
  peers = 2 ∷ 3 ∷ [];
  role = leader;
  current_term = 2;
  voted_for = 1;
  leader_id = 1;
  sentinel = zero_entry;
  log = entry 1 1 ∷ entry 2 2 ∷ entry 2 3 ∷ [];
  snapshot = zero_snapshot;
  pending_snapshot_to_apply = none;
  commit_index = 1;
  last_applied = 0;
  stable_term = 2;
  stable_vote = 1;
  unstable_index = 3;
  stable_snapshot_index = 0;
  next_index = λ p. if p == 2 then 4 else 2;
  match_index = λ p. if p == 2 then 3 else 0;
  sent_index = λ _. 0;
  votes_received = 1 ∷ 2 ∷ [];
  pre_votes_received = [];
  pending_reads = [];
  read_states = [];
  election_tick = 10;
  heartbeat_tick = 2;
  election_elapsed = 0;
  heartbeat_elapsed = 0;
  randomized_election_timeout = 10;
  rnd = λ _. 0;
  msgs = [];
}

-- It holds a conflicting entry at index 2.
abbrev pub follow_node : Raft
follow_node = record lead_node {
  id = 3;
  peers = 1 ∷ 2 ∷ [];
  role = follower;
  current_term = 1;
  voted_for = 0;
  leader_id = 0;
  log = entry 1 1 ∷ entry 1 2 ∷ [];
  next_index = λ _. 0;
  match_index = λ _. 0;
}

-- It has a snapshot up to index 5, and has committed two entries behind it.
abbrev pub compacted_node : Raft
compacted_node = record follow_node {
  sentinel = entry 1 5;
  log = entry 1 6 ∷ entry 1 7 ∷ [];
  commit_index = 7;
  unstable_index = 8;
}

abbrev pub append_request : Message
append_request = record (blank msg_append_entries 3) {
  from = 1;
  term = 2;
  prev_log_index = 1;
  prev_log_term = 1;
  entries = entry 2 2 ∷ entry 2 3 ∷ [];
  leader_commit = 2;
}

abbrev pub vote_request : Message
vote_request = record (blank msg_request_vote 3) {
  from = 2;
  term = 2;
  last_log_index = 3;
  last_log_term = 2;
}

abbrev pub old_append : Message
old_append = record append_request { prev_log_index = 0; prev_log_term = 0 }

abbrev pub low_snapshot : Message
low_snapshot = record (blank msg_install_snapshot 3) {
  from = 1;
  term = 2;
  snapshot = record { last_included_index = 6; last_included_term = 1; payload = [] };
}
