-- ===== src/Raft/Frame.antt =====
-- What sending leaves alone: all of a node's state but its outbox and `sent_index`.
use key_value_store.Prelude.{
  ℕ, ◌≡◌, refl, ◌∙◌, List, [], ◌∷◌, Bool-cases, inl, inr, ltb, ◌==◌, length, arith,
}
use key_value_store.Raft.Types.{Message, MessageType}
use key_value_store.Raft.State.{Raft, base, sub64}
use key_value_store.Raft.Replication.{
  send, send_append_entries, append_message, for_peers, send_heartbeats, commit_if_alone,
}
use key_value_store.Raft.Election.{ask_peers}

-- The state that only the handlers change.
pub record SameState (r r' : Raft) : Type 0 where
  pub id : r'.id ≡ r.id
  pub peers : r'.peers ≡ r.peers
  pub role : r'.role ≡ r.role
  pub current_term : r'.current_term ≡ r.current_term
  pub voted_for : r'.voted_for ≡ r.voted_for
  pub leader_id : r'.leader_id ≡ r.leader_id
  pub sentinel : r'.sentinel ≡ r.sentinel
  pub log : r'.log ≡ r.log
  pub snapshot : r'.snapshot ≡ r.snapshot
  pub unstable_index : r'.unstable_index ≡ r.unstable_index

pub record Quiet (r r' : Raft) : Type 0 where
  pub state : SameState r r'
  pub commit_index : r'.commit_index ≡ r.commit_index
  pub match_index : r'.match_index ≡ r.match_index
  pub next_index : r'.next_index ≡ r.next_index
  pub pending_reads : r'.pending_reads ≡ r.pending_reads
  pub read_states : r'.read_states ≡ r.read_states

pub SameState-refl : (r : Raft) → SameState r r
SameState-refl r = record {
  id = refl;
  peers = refl;
  role = refl;
  current_term = refl;
  voted_for = refl;
  leader_id = refl;
  sentinel = refl;
  log = refl;
  snapshot = refl;
  unstable_index = refl;
}

pub SameState-trans : (r s t : Raft) → SameState r s → SameState s t → SameState r t
SameState-trans r s t h k = record {
  id = k.id ∙ h.id;
  peers = k.peers ∙ h.peers;
  role = k.role ∙ h.role;
  current_term = k.current_term ∙ h.current_term;
  voted_for = k.voted_for ∙ h.voted_for;
  leader_id = k.leader_id ∙ h.leader_id;
  sentinel = k.sentinel ∙ h.sentinel;
  log = k.log ∙ h.log;
  snapshot = k.snapshot ∙ h.snapshot;
  unstable_index = k.unstable_index ∙ h.unstable_index;
}

pub Quiet-refl : (r : Raft) → Quiet r r
Quiet-refl r = record {
  state = SameState-refl r;
  commit_index = refl;
  match_index = refl;
  next_index = refl;
  pending_reads = refl;
  read_states = refl;
}

pub Quiet-trans : (r s t : Raft) → Quiet r s → Quiet s t → Quiet r t
Quiet-trans r s t h k = record {
  state = SameState-trans r s t h.state k.state;
  commit_index = k.commit_index ∙ h.commit_index;
  match_index = k.match_index ∙ h.match_index;
  next_index = k.next_index ∙ h.next_index;
  pending_reads = k.pending_reads ∙ h.pending_reads;
  read_states = k.read_states ∙ h.read_states;
}

pub send-Quiet : (m : Message) (r : Raft) → Quiet r (send m r)
unfolding send
send-Quiet m r = record {
  state = record {
    id = refl;
    peers = refl;
    role = refl;
    current_term = refl;
    voted_for = refl;
    leader_id = refl;
    sentinel = refl;
    log = refl;
    snapshot = refl;
    unstable_index = refl;
  };
  commit_index = refl;
  match_index = refl;
  next_index = refl;
  pending_reads = refl;
  read_states = refl;
}

pub send_append_entries-Quiet : (peer ctx : ℕ) (r : Raft) → Quiet r (send_append_entries peer ctx r)
unfolding send_append_entries
send_append_entries-Quiet peer ctx r =
    elim (Bool-cases (ltb (sub64 (r.next_index peer) 1) (base r))) [
      | inl e ↦ rw e (send-Quiet _ r)
      | inr e ↦ rw e (ground (arith, send-Quiet (append_message peer ctx r) r))
    ]

pub for_peers-Quiet :
    (body : ℕ → Raft → Raft) (quiet : (p : ℕ) (r : Raft) → Quiet r (body p r)) (ps : List ℕ)
    (r : Raft)
    → Quiet r (for_peers body ps r)
unfolding for_peers
for_peers-Quiet body quiet [] r = Quiet-refl r
for_peers-Quiet body quiet (p ∷ ps) r =
    Quiet-trans r (body p r) (for_peers body ps (body p r)) (quiet p r)
      (for_peers-Quiet body quiet ps (body p r))

pub send_heartbeats-Quiet : (r : Raft) → Quiet r (send_heartbeats r)
unfolding send_heartbeats
send_heartbeats-Quiet r =
    for_peers-Quiet (λ p. send_append_entries p 0) (λ p r'. send_append_entries-Quiet p 0 r')
      r.peers r

pub ask_peers-Quiet : (t : MessageType) (r : Raft) → Quiet r (ask_peers t r)
unfolding ask_peers
ask_peers-Quiet t r = for_peers-Quiet _ (λ p r'. send-Quiet _ r') r.peers r

pub commit_if_alone-SameState : (r : Raft) → SameState r (commit_if_alone r)
unfolding commit_if_alone
commit_if_alone-SameState r = elim (Bool-cases (length r.peers == 0)) [
  | inl e ↦ rw e (record {
    id = refl;
    peers = refl;
    role = refl;
    current_term = refl;
    voted_for = refl;
    leader_id = refl;
    sentinel = refl;
    log = refl;
    snapshot = refl;
    unstable_index = refl;
  })
  | inr e ↦ rw e (SameState-refl r)
]
