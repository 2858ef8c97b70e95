-- ===== src/Raft/AppendFrame.antt =====
-- What the follower's loop over the entries leaves alone: all but the log and its unstable index.
use key_value_store.Prelude.{ℕ, ◌≡◌, refl, ◌∙◌, List, [], ◌∷◌, arith, ok, >>=-eq-ok}
use key_value_store.Raft.Types.{LogEntry}
use key_value_store.Raft.State.{Raft, add64}
use key_value_store.Raft.Append.{discard_from, append_one, append_entries}

pub record Kept (r r' : Raft) : Type 0 where
  pub id : r'.id ≡ r.id
  pub peers : r'.peers ≡ r.peers
  pub role : r'.role ≡ r.role
  pub current_term : r'.current_term ≡ r.current_term
  pub voted_for : r'.voted_for ≡ r.voted_for
  pub leader_id : r'.leader_id ≡ r.leader_id
  pub sentinel : r'.sentinel ≡ r.sentinel
  pub snapshot : r'.snapshot ≡ r.snapshot
  pub commit_index : r'.commit_index ≡ r.commit_index
  pub msgs : r'.msgs ≡ r.msgs

Kept-refl : (r : Raft) → Kept r r
Kept-refl r = record {
  id = refl;
  peers = refl;
  role = refl;
  current_term = refl;
  voted_for = refl;
  leader_id = refl;
  sentinel = refl;
  snapshot = refl;
  commit_index = refl;
  msgs = refl;
}

Kept-trans : (r s t : Raft) → Kept r s → Kept s t → Kept r t
Kept-trans r s t h k = record {
  id = k.id ∙ h.id;
  peers = k.peers ∙ h.peers;
  role = k.role ∙ h.role;
  current_term = k.current_term ∙ h.current_term;
  voted_for = k.voted_for ∙ h.voted_for;
  leader_id = k.leader_id ∙ h.leader_id;
  sentinel = k.sentinel ∙ h.sentinel;
  snapshot = k.snapshot ∙ h.snapshot;
  commit_index = k.commit_index ∙ h.commit_index;
  msgs = k.msgs ∙ h.msgs;
}

pub append_one-Kept :
    (idx : ℕ) (e : LogEntry) (r r' : Raft) → append_one idx e r ≡ ok r' → Kept r r'
unfolding append_one discard_from
append_one-Kept idx e r r' h = ground arith

pub append_entries-Kept :
    (idx : ℕ) (es : List LogEntry) (r r' : Raft) → append_entries idx es r ≡ ok r' → Kept r r'
unfolding append_entries
append_entries-Kept idx [] r r' h = ground arith
append_entries-Kept idx (e ∷ es) r r' h =
    let (s, first, rest) =
      >>=-eq-ok (append_one idx e r) (λ s. append_entries (add64 idx 1) es s) h in
    Kept-trans r s r' (append_one-Kept idx e r s first)
      (append_entries-Kept (add64 idx 1) es s r' rest)
