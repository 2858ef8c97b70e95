-- ===== src/Raft/Preserve.antt =====
-- Every way to drive a node keeps it well formed and its commit index from falling.
use key_value_store.Prelude.{
  ℕ, ◌+◌, ◌-◌, ◌≤◌, ◌<◌, ◌^◌, ◌≡◌, refl, ap, ◌∙◌, ◌⊎◌, inl, inr, Bool-cases, arith, ltb, leb, ◌==◌,
  take, le→ltb, ok,
}
use key_value_store.Raft.Types.{
  LogEntry, Message, MessageType, msg_pre_vote, msg_pre_vote_response, msg_request_vote,
  msg_request_vote_response, msg_append_entries, msg_append_entries_response, blank,
  msg_install_snapshot, msg_install_snapshot_response, msg_other,
}
use key_value_store.Raft.State.{Raft, base, last_log_index, reset_election_timeout}
use key_value_store.Raft.Log.{term_at}
use key_value_store.Raft.Replication.{send}
use key_value_store.Raft.Election.{become_follower}
use key_value_store.Raft.Append.{
  accept_leader, handle_append_entries, handle_install_snapshot, receive_snapshot, install,
  snapshot_reply,
}
use key_value_store.Raft.Step.{step, dispatch}
use key_value_store.Raft.Invariant.{WellFormed}
use key_value_store.Raft.Calm.{
  Calm, WellFormed-Calm, send-Calm, accept_leader-Calm, handle_pre_vote-Calm,
  handle_pre_vote_response-Calm, handle_request_vote-Calm, handle_request_vote_response-Calm,
  handle_append_entries_response-Calm, handle_install_snapshot_response-Calm,
}
use key_value_store.Raft.Follower.{
  Admits, Follows, Follows-Calm, Follows-trans, Matched, Agrees-moved, follow_lem, follow-Matched,
  committed_prefix,
}

-- A snapshot is old news, or it reaches the commit index.
abbrev pub AdmitsSnapshot : Message → Raft → Type 0
AdmitsSnapshot m r =
    (m.snapshot.last_included_index ≤ base r)
    ⊎ ((r.commit_index ≤ m.snapshot.last_included_index)
        × (m.snapshot.last_included_index + 1 < 2 ^ 64))

-- What a message is to meet, by its type.
abbrev pub Admissible : MessageType → Message → Raft → Type 0
Admissible msg_append_entries m r = Admits m r
Admissible msg_install_snapshot m r = AdmitsSnapshot m r
Admissible _ m r = Unit

abbrev pub Safe : Raft → Raft → Type 0
Safe r r' = WellFormed r' × (r.commit_index ≤ r'.commit_index)

pub Safe-Calm : (r s : Raft) → WellFormed r → Calm r s → Safe r s
Safe-Calm r s h k = (WellFormed-Calm r s h k, k.above)

Admits-moved :
    (m : Message) (r s : Raft)
    → s.sentinel ≡ r.sentinel
    → s.log ≡ r.log
    → s.commit_index ≡ r.commit_index
    → Admits m r
    → Admits m s
Admits-moved m r s p q c a = record {
  covered = rw p a.covered;
  numbered = a.numbered;
  room = a.room;
  agrees = Agrees-moved (m.prev_log_index + 1) m.entries r s p q c a.agrees;
}

msgs-accept_leader : (m : Message) (r : Raft) → (accept_leader m r).msgs ≡ r.msgs
unfolding accept_leader become_follower reset_election_timeout
msgs-accept_leader m r = ground arith

commit-accept_leader : (m : Message) (r : Raft) → (accept_leader m r).commit_index ≡ r.commit_index
unfolding accept_leader become_follower reset_election_timeout
commit-accept_leader m r = ground arith

term_at_moved :
    (i : ℕ) (r s : Raft) → s.sentinel ≡ r.sentinel → s.log ≡ r.log → term_at s i ≡ term_at r i
unfolding term_at
term_at_moved i r s p q = rw (p, q)

Matched-moved :
    (m : Message) (r s t : Raft)
    → s.sentinel ≡ r.sentinel
    → s.log ≡ r.log
    → s.commit_index ≡ r.commit_index
    → s.msgs ≡ r.msgs
    → Matched m s t
    → Matched m r t
Matched-moved m r s t p q c o f = record {
  holds = f.holds;
  boundary = f.boundary ∙ ap (λ (x : LogEntry). x.index) p;
  below = rw (p, q) at f.below;
  reaches = f.reaches;
  commit = omega (arith, f.commit, c);
  reply = rw o at f.reply;
}

module _ (m : Message) (r : Raft) (h : WellFormed r) (a : Admits m r) where
  follower-WellFormed : WellFormed (accept_leader m r)
  follower-WellFormed = WellFormed-Calm r (accept_leader m r) h (accept_leader-Calm m r)

  follower-Admits : Admits m (accept_leader m r)
  follower-Admits =
      let c = accept_leader-Calm m r in
      Admits-moved m r (accept_leader m r) c.sentinel c.log (commit-accept_leader m r) a

  pub handle_append_entries_lem : (r' : Raft) × (handle_append_entries m r ≡ ok r') × Follows m r r'
  unfolding handle_append_entries
  handle_append_entries_lem = elim (Bool-cases (ltb m.term r.current_term)) [
    | inl e ↦ (
      send (blank msg_append_entries_response m.from) r,
      rw e,
      Follows-Calm m r _ h (send-Calm _ r),
    )
    | inr e ↦
        let (s, res, f) = follow_lem m (accept_leader m r) follower-WellFormed follower-Admits in
        (
          s,
          rw e res,
          Follows-trans m r (accept_leader m r) s (Follows-Calm m r _ h (accept_leader-Calm m r)) f,
        )
  ]

  -- An AppendEntries that numbers its entries, starts at or after the follower's snapshot and
  -- contradicts no committed entry never panics. It keeps the node well formed, its snapshot
  -- boundary, and every entry that it has committed; its commit index does not fall.
  pub handle_append_entries_safe :
      (r' : Raft) × (handle_append_entries m r ≡ ok r')
      × WellFormed r'
      × (base r' ≡ base r)
      × (r.commit_index ≤ r'.commit_index)
      × (take (r.commit_index - base r) r'.log ≡ take (r.commit_index - base r) r.log)
  handle_append_entries_safe =
      let (r', res, f) = handle_append_entries_lem in
      (r', res, f.well_formed, f.base, f.commit, committed_prefix m r r' h f)

  -- Such an AppendEntries, if its term is not old and the follower holds its previous entry,
  -- succeeds: the log then holds the terms of the message's entries, what it held up to the previous
  -- index, and reaches the last of them; the commit index is the leader's as far as the log goes, if
  -- that is above the follower's; and a success reply with the last index is sent.
  pub handle_append_entries-Matched :
      r.current_term ≤ m.term
      → m.prev_log_index ≤ last_log_index r
      → term_at r m.prev_log_index ≡ m.prev_log_term
      → (r' : Raft) × (handle_append_entries m r ≡ ok r') × Matched m r r'
  unfolding handle_append_entries
  handle_append_entries-Matched fresh within same =
      let c = accept_leader-Calm m r in
      let (s, res, f) =
        follow-Matched m (accept_leader m r) follower-WellFormed follower-Admits
          (rw (c.sentinel, c.log) within)
          (term_at_moved m.prev_log_index r (accept_leader m r) c.sentinel c.log ∙ same) in
      (
        s,
        rw (le→ltb m.term r.current_term fresh) res,
        Matched-moved m r (accept_leader m r) s c.sentinel c.log (commit-accept_leader m r)
            (msgs-accept_leader m r) f,
      )

install-WellFormed :
    (m : Message) (r : Raft)
    → r.commit_index ≤ m.snapshot.last_included_index
    → m.snapshot.last_included_index + 1 < 2 ^ 64
    → Safe r (install m r)
unfolding install
install-WellFormed m r le room = (
  record {
    contiguous = tt;
    base_committed = ground arith;
    committed = ground arith;
    base_stable = ground arith;
    stable = ground arith;
    bounded = omega arith;
  },
  ground arith,
)

pub Safe-trans : (r s t : Raft) → Safe r s → Safe s t → Safe r t
Safe-trans r s t h k = (k.0, omega (arith, h.1, k.1))

receive_snapshot-Safe :
    (m : Message) (r : Raft) → WellFormed r → AdmitsSnapshot m r → Safe r (receive_snapshot m r)
unfolding receive_snapshot
receive_snapshot-Safe m r h a = elim (Bool-cases (leb m.snapshot.last_included_index (base r))) [
  | inl e ↦ rw e (Safe-Calm r _ h (send-Calm (snapshot_reply m (base r)) r))
  | inr e ↦ rw e (
      let i = install-WellFormed m r (ground arith) (ground arith) in
      Safe-trans r (install m r)
        (send (snapshot_reply m m.snapshot.last_included_index) (install m r)) i
        (Safe-Calm (install m r) _ i.0
          (send-Calm (snapshot_reply m m.snapshot.last_included_index) (install m r))))
]

handle_install_snapshot-Safe :
    (m : Message) (r : Raft)
    → WellFormed r
    → AdmitsSnapshot m r
    → Safe r (handle_install_snapshot m r)
unfolding handle_install_snapshot
handle_install_snapshot-Safe m r h a = elim (Bool-cases (ltb m.term r.current_term)) [
  | inl e ↦ rw e (Safe-Calm r _ h (send-Calm (snapshot_reply m (base r)) r))
  | inr e ↦ rw e (
      let c = accept_leader-Calm m r in
      let first = Safe-Calm r (accept_leader m r) h c in
      Safe-trans r (accept_leader m r) _ first (
        receive_snapshot-Safe m (accept_leader m r) first.0
          (rw (c.sentinel, commit-accept_leader m r) a)))
]

dispatch-Safe :
    (t : MessageType) (m : Message) (r : Raft)
    → WellFormed r
    → Admissible t m r
    → (r' : Raft) × (dispatch t m r ≡ ok r') × Safe r r'
unfolding dispatch
dispatch-Safe msg_pre_vote m r h a = (_, refl, Safe-Calm r _ h (handle_pre_vote-Calm m r))
dispatch-Safe msg_pre_vote_response m r h a =
    (_, refl, Safe-Calm r _ h (handle_pre_vote_response-Calm m r))
dispatch-Safe msg_request_vote m r h a = (_, refl, Safe-Calm r _ h (handle_request_vote-Calm m r))
dispatch-Safe msg_request_vote_response m r h a =
    (_, refl, Safe-Calm r _ h (handle_request_vote_response-Calm m r))
dispatch-Safe msg_append_entries m r h a =
    let (s, res, f) = handle_append_entries_lem m r h a in (s, res, (f.well_formed, f.commit))
dispatch-Safe msg_append_entries_response m r h a =
    (_, refl, Safe-Calm r _ h (handle_append_entries_response-Calm m r))
dispatch-Safe msg_install_snapshot m r h a = (_, refl, handle_install_snapshot-Safe m r h a)
dispatch-Safe msg_install_snapshot_response m r h a =
    (_, refl, Safe-Calm r _ h (handle_install_snapshot_response-Calm m r))
dispatch-Safe (msg_other n) m r h a = (_, refl, (h, omega arith))

-- Every admissible message is handled without a panic or an error, and leaves the node well formed
-- with a commit index that has not fallen.
pub step-Safe :
    (m : Message) (r : Raft)
    → WellFormed r
    → Admissible m.type m r
    → (r' : Raft) × (step m r ≡ ok r') × WellFormed r' × (r.commit_index ≤ r'.commit_index)
unfolding step
step-Safe m r h a = elim (Bool-cases (m.to == r.id)) [
  | inl e ↦ let (r', res, s) = dispatch-Safe m.type m r h a in (r', rw e res, s.0, s.1)
  | inr e ↦ (r, rw e, h, omega arith)
]
