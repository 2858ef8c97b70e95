-- ===== src/Raft/Step.antt =====
-- raft/raft.go: Tick and Step, the two ways in which a node is driven.
use key_value_store.Prelude.{◌+◌, leb, ◌==◌, if◌then◌else◌, Outcome, ok}
use key_value_store.Raft.Types.{
  Message, MessageType, msg_pre_vote, msg_pre_vote_response, msg_request_vote,
  msg_request_vote_response, msg_append_entries, msg_append_entries_response, msg_install_snapshot,
  msg_install_snapshot_response, msg_other,
}
use key_value_store.Raft.State.{Raft}
use key_value_store.Raft.Replication.{is_leader, send_heartbeats}
use key_value_store.Raft.Election.{
  become_pre_candidate, handle_pre_vote, handle_pre_vote_response, handle_request_vote,
  handle_request_vote_response,
}
use key_value_store.Raft.Append.{
  handle_append_entries, handle_append_entries_response, handle_install_snapshot,
  handle_install_snapshot_response,
}

unfoldable pub tick_leader : Raft → Raft
tick_leader r =
    let elapsed = r.heartbeat_elapsed + 1 in
    if leb r.heartbeat_tick elapsed
    then send_heartbeats (record r { heartbeat_elapsed = 0 })
    else record r { heartbeat_elapsed = elapsed }

unfoldable pub tick_other : Raft → Raft
tick_other r =
    let r' = record r { election_elapsed = r.election_elapsed + 1 } in
    if leb r.randomized_election_timeout r'.election_elapsed then become_pre_candidate r' else r'

unfoldable pub tick : Raft → Raft
unfolding tick_leader tick_other
tick r = if is_leader r.role then tick_leader r else tick_other r

unfoldable pub dispatch : MessageType → Message → Raft → Outcome Raft
dispatch msg_pre_vote m r = ok (handle_pre_vote m r)
dispatch msg_pre_vote_response m r = ok (handle_pre_vote_response m r)
dispatch msg_request_vote m r = ok (handle_request_vote m r)
dispatch msg_request_vote_response m r = ok (handle_request_vote_response m r)
dispatch msg_append_entries m r = handle_append_entries m r
dispatch msg_append_entries_response m r = ok (handle_append_entries_response m r)
dispatch msg_install_snapshot m r = ok (handle_install_snapshot m r)
dispatch msg_install_snapshot_response m r = ok (handle_install_snapshot_response m r)
dispatch (msg_other n) m r = ok r

-- A message for another node is ignored.
unfoldable pub step : Message → Raft → Outcome Raft
unfolding dispatch
step m r = if m.to == r.id then dispatch m.type m r else ok r
