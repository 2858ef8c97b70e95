-- ===== src/Raft/ReadIndex.antt =====
-- raft/raft.go: the ReadIndex protocol.
use key_value_store.Prelude.{
  ℕ, List, [], ◌∷◌, ◌++◌, Option, none, some, ◌==◌, if◌then◌else◌, length, Outcome, ok, err,
  not_leader,
}
use key_value_store.Raft.State.{Raft, PendingRead, add_key}
use key_value_store.Raft.Replication.{is_leader, has_majority_count, for_peers, send_append_entries}

abbrev pub Reads : Type 0
Reads = List (ℕ × PendingRead)

unfoldable pub find_read : ℕ → Reads → Option PendingRead
find_read ctx [] = none
find_read ctx ((c, p) ∷ rs) = if c == ctx then some p else find_read ctx rs

-- `delete(pendingReads, ctx)`.
unfoldable pub drop_read : ℕ → Reads → Reads
drop_read ctx [] = []
drop_read ctx ((c, p) ∷ rs) =
    let rest = drop_read ctx rs in if c == ctx then rest else (c, p) ∷ rest

-- `pendingReads[ctx] = p`.
unfoldable pub put_read : ℕ → PendingRead → Reads → Reads
put_read ctx p rs = (ctx, p) ∷ drop_read ctx rs

unfoldable pub confirm_read : ℕ → PendingRead → Raft → Raft
confirm_read ctx p r = record r {
  read_states = r.read_states ++ (record { index = p.index; context = ctx } ∷ []);
  pending_reads = drop_read ctx r.pending_reads;
}

-- Either the read is confirmed, or the peers are asked.
unfoldable pub track_read : ℕ → PendingRead → Raft → Raft
track_read ctx p r =
    if has_majority_count r (length p.acked)
    then confirm_read ctx p r
    else for_peers (λ q. send_append_entries q ctx) r.peers r

unfoldable pub request_read_index : ℕ → Raft → Outcome Raft
unfolding confirm_read track_read
request_read_index ctx r =
    let p : PendingRead = record { index = r.commit_index; acked = r.id ∷ [] } in
    if is_leader r.role
    then ok (track_read ctx p (record r { pending_reads = put_read ctx p r.pending_reads }))
    else err not_leader

unfoldable pub ack_pending : ℕ → ℕ → Option PendingRead → Raft → Raft
ack_pending ctx peer none r = r
ack_pending ctx peer (some p) r =
    let p' = record p { acked = add_key peer p.acked } in
    let r' = record r { pending_reads = put_read ctx p' r.pending_reads } in
    if has_majority_count r' (length p'.acked) then confirm_read ctx p' r' else r'

unfoldable pub ack_read_index : ℕ → ℕ → Raft → Raft
unfolding confirm_read ack_pending
ack_read_index ctx peer r = ack_pending ctx peer (find_read ctx r.pending_reads) r
