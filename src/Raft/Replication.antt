-- ===== src/Raft/Replication.antt =====
-- raft/raft.go: sending, the leader's replication, its commit rule, and proposals.
use key_value_store.Prelude.{
  ℕ, zero, suc, ◌+◌, ◌-◌, ◌/◌, List, [], ◌∷◌, ◌++◌, Bool, true, false, ◌&&◌, ltb, leb, ◌==◌,
  if◌then◌else◌, length, Outcome, ok, err, not_leader,
}
use key_value_store.Raft.Types.{
  Role, leader, Message, blank, msg_append_entries, msg_install_snapshot,
}
use key_value_store.Raft.State.{Raft, IndexMap, set_at, add64, sub64, last_log_index, base}
use key_value_store.Raft.Log.{term_at, entries}

-- send(m): every message carries the sender and its term.
unfoldable pub send : Message → Raft → Raft
send m r = record r { msgs = r.msgs ++ (record m { from = r.id; term = r.current_term } ∷ []) }

abbrev pub is_leader : Role → Bool
is_leader leader = true
is_leader _ = false

abbrev pub cluster_size : Raft → ℕ
cluster_size r = length r.peers + 1

unfoldable pub has_majority_count : Raft → ℕ → Bool
has_majority_count r n = leb (cluster_size r / 2 + 1) n

unfoldable pub send_install_snapshot : ℕ → Raft → Raft
send_install_snapshot peer r =
    send (record (blank msg_install_snapshot peer) { snapshot = r.snapshot }) r

abbrev pub prev_index : ℕ → Raft → ℕ
prev_index peer r =
    let acknowledged = sub64 (r.next_index peer) 1 in
    if ltb acknowledged (r.sent_index peer) then r.sent_index peer else acknowledged

unfoldable pub mark_sent : ℕ → Raft → Raft
mark_sent peer r =
    if ltb (r.sent_index peer) (last_log_index r)
    then record r { sent_index = set_at r.sent_index peer (last_log_index r) }
    else r

-- The AppendEntries that goes to a peer whose log the sender's log still covers.
unfoldable pub append_message : ℕ → ℕ → Raft → Message
append_message peer read_context r = record (blank msg_append_entries peer) {
  prev_log_index = prev_index peer r;
  prev_log_term = term_at r (prev_index peer r);
  entries = entries r (prev_index peer r) (last_log_index r);
  leader_commit = r.commit_index;
  read_context = read_context;
}

unfoldable pub send_append_entries : ℕ → ℕ → Raft → Raft
unfolding send_install_snapshot mark_sent
send_append_entries peer read_context r =
    if ltb (sub64 (r.next_index peer) 1) (base r)
    then send_install_snapshot peer r
    else mark_sent peer (send (append_message peer read_context r) r)

-- `for _, p := range r.peers`.
unfoldable pub for_peers : (ℕ → Raft → Raft) → List ℕ → Raft → Raft
for_peers body [] r = r
for_peers body (p ∷ ps) r = for_peers body ps (body p r)

unfoldable pub send_heartbeats : Raft → Raft
send_heartbeats r = for_peers (λ p. send_append_entries p 0) r.peers r

-- How many peers are known to hold the entry at n.
unfoldable pub count_matching : IndexMap → ℕ → List ℕ → ℕ
count_matching m n [] = 0
count_matching m n (p ∷ ps) =
    if leb n (m p) then suc (count_matching m n ps) else count_matching m n ps

unfoldable pub committable : Raft → ℕ → Bool
unfolding count_matching has_majority_count
committable r n =
    (term_at r n == r.current_term)
    && has_majority_count r (1 + count_matching r.match_index n r.peers)

-- `for n := lastLogIndex; n > commitIndex; n--`, with the rounds that are left.
unfoldable pub commit_scan : Raft → ℕ → ℕ
commit_scan r zero = r.commit_index
commit_scan r (suc k) =
    let below = commit_scan r k in
    if committable r (r.commit_index + suc k) then r.commit_index + suc k else below

unfoldable pub maybe_advance_commit_index : Raft → Raft
maybe_advance_commit_index r = record r {
  commit_index = commit_scan r (last_log_index r - r.commit_index);
}

unfoldable pub commit_if_alone : Raft → Raft
unfolding maybe_advance_commit_index
commit_if_alone r = if length r.peers == 0 then maybe_advance_commit_index r else r

-- The loop of ProposeBatch: the indices that it hands out, and the node after it.
unfoldable pub append_all : List (List ℕ) → Raft → List ℕ × Raft
append_all [] r = ([], r)
append_all (d ∷ ds) r =
    let i = add64 (last_log_index r) 1 in
    let rest = append_all ds (record r {
      log = r.log ++ (record { term = r.current_term; index = i; payload = d } ∷ []);
    }) in
    (i ∷ rest.0, rest.1)

-- With an error nothing is appended and nothing sent.
unfoldable pub propose_batch : List (List ℕ) → Raft → Outcome (List ℕ × Raft)
propose_batch datas r =
    if is_leader r.role
    then (let (indices, r') = append_all datas r in
        ok (indices, commit_if_alone (send_heartbeats r')))
    else err not_leader
