-- ===== src/Raft/Append.antt =====
-- raft/raft.go: handling AppendEntries, InstallSnapshot and their responses.
use key_value_store.Prelude.{
  ℕ, ◌-◌, List, [], ◌∷◌, ◌++◌, true, not, ◌&&◌, some, ltb, leb, ◌==◌, if◌then◌else◌, length, take,
  min, Outcome, ok, panic, ◌>>=◌,
}
use key_value_store.Raft.Types.{
  LogEntry, Message, blank, msg_append_entries_response, msg_install_snapshot_response,
}
use key_value_store.Raft.State.{Raft, set_at, add64, sub64, last_log_index, base}
use key_value_store.Raft.Log.{term_at, log_pos}
use key_value_store.Raft.Replication.{
  is_leader, send, send_append_entries, maybe_advance_commit_index,
}
use key_value_store.Raft.Election.{become_follower}
use key_value_store.Raft.ReadIndex.{ack_read_index}

-- `r.log = r.log[:r.logPos(idx)]`, and what follows it. Before the sentinel the bound is negative,
-- which panics; at the sentinel the log is left empty, and reading its last entry next panics.
unfoldable pub discard_from : ℕ → Raft → Outcome Raft
discard_from idx r =
    if leb idx (base r)
    then panic
    else ok (record r {
      log = take (log_pos r idx - 1) r.log;
      unstable_index = if ltb idx r.unstable_index then idx else r.unstable_index;
    })

unfoldable pub push : ℕ → LogEntry → Raft → Raft
push idx e r = if ltb (last_log_index r) idx then record r { log = r.log ++ (e ∷ []) } else r

-- One round of the loop over the entries, at the index that the entry is to have.
unfoldable pub append_one : ℕ → LogEntry → Raft → Outcome Raft
unfolding push
append_one idx e r =
    if leb idx (last_log_index r) && not (term_at r idx == e.term)
    then (do r' ← discard_from idx r; ok (push idx e r'))
    else ok (push idx e r)

unfoldable pub append_entries : ℕ → List LogEntry → Raft → Outcome Raft
append_entries idx [] r = ok r
append_entries idx (e ∷ es) r = do r' ← append_one idx e r; append_entries (add64 idx 1) es r'

unfoldable pub follow_commit : ℕ → Raft → Raft
follow_commit leader_commit r =
    if ltb r.commit_index leader_commit
    then record r { commit_index = min leader_commit (last_log_index r) }
    else r

abbrev pub append_reply : Message → Message
append_reply m = record (blank msg_append_entries_response m.from) { read_context = m.read_context }

-- The `switch`, at a node that follows the sender.
unfoldable pub follow : Message → Raft → Outcome Raft
follow m r =
    if ltb (last_log_index r) m.prev_log_index
    then ok (send (append_reply m) r)
    else if not (term_at r m.prev_log_index == m.prev_log_term)
    then ok (send (append_reply m) r)
    else do
      r' ← append_entries (add64 m.prev_log_index 1) m.entries r
      ok (
          send
            (record (append_reply m) {
              success = true;
              match_index = add64 m.prev_log_index (length m.entries);
            })
            (follow_commit m.leader_commit r'))

-- The sender of a message at a term that is not old is the leader.
unfoldable pub accept_leader : Message → Raft → Raft
accept_leader m r = record (become_follower m.term r) { leader_id = m.from }

unfoldable pub handle_append_entries : Message → Raft → Outcome Raft
handle_append_entries m r =
    if ltb m.term r.current_term
    then ok (send (blank msg_append_entries_response m.from) r)
    else follow m (accept_leader m r)

unfoldable pub raise_match : Message → Raft → Raft
raise_match m r =
    if ltb (r.match_index m.from) m.match_index
    then record r { match_index = set_at r.match_index m.from m.match_index }
    else r

unfoldable pub on_success : Message → Raft → Raft
on_success m r =
    let r' = raise_match m r in
    maybe_advance_commit_index
      (record r' { next_index = set_at r'.next_index m.from (add64 m.match_index 1) })

unfoldable pub back_off : Message → Raft → Raft
back_off m r =
    if ltb 1 (r.next_index m.from)
    then record r { next_index = set_at r.next_index m.from (sub64 (r.next_index m.from) 1) }
    else r

unfoldable pub on_failure : Message → Raft → Raft
on_failure m r =
    let r' = back_off m r in
    send_append_entries m.from 0 (record r' { sent_index = set_at r'.sent_index m.from 0 })

unfoldable pub acknowledge_read : Message → Raft → Raft
acknowledge_read m r = if m.read_context == 0 then r else ack_read_index m.read_context m.from r

unfoldable pub handle_append_entries_response : Message → Raft → Raft
handle_append_entries_response m r =
    if ltb r.current_term m.term
    then become_follower m.term r
    else if ltb m.term r.current_term
    then r
    else if is_leader r.role
    then (if m.success
        then on_success m (acknowledge_read m r)
        else on_failure m (acknowledge_read m r))
    else r

abbrev pub snapshot_reply : Message → ℕ → Message
snapshot_reply m i = record (blank msg_install_snapshot_response m.from) { match_index = i }

unfoldable pub install : Message → Raft → Raft
install m r = record r {
  sentinel = record {
    term = m.snapshot.last_included_term;
    index = m.snapshot.last_included_index;
    payload = [];
  };
  log = [];
  commit_index =
      if ltb r.commit_index m.snapshot.last_included_index
      then m.snapshot.last_included_index
      else r.commit_index;
  unstable_index = add64 m.snapshot.last_included_index 1;
  snapshot = m.snapshot;
  pending_snapshot_to_apply = some m.snapshot;
}

unfoldable pub receive_snapshot : Message → Raft → Raft
receive_snapshot m r =
    if leb m.snapshot.last_included_index (base r)
    then send (snapshot_reply m (base r)) r
    else send (snapshot_reply m m.snapshot.last_included_index) (install m r)

unfoldable pub handle_install_snapshot : Message → Raft → Raft
handle_install_snapshot m r =
    if ltb m.term r.current_term
    then send (snapshot_reply m (base r)) r
    else receive_snapshot m (accept_leader m r)

unfoldable pub raise_next : Message → Raft → Raft
raise_next m r =
    if ltb (r.next_index m.from) (add64 m.match_index 1)
    then record r { next_index = set_at r.next_index m.from (add64 m.match_index 1) }
    else r

unfoldable pub handle_install_snapshot_response : Message → Raft → Raft
handle_install_snapshot_response m r =
    if ltb r.current_term m.term
    then become_follower m.term r
    else if ltb m.term r.current_term
    then r
    else if is_leader r.role
    then maybe_advance_commit_index (raise_next m (raise_match m r))
    else r
