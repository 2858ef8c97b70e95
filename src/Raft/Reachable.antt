-- ===== src/Raft/Reachable.antt =====
-- A node from its construction on: every state that its driver can bring it to.
use mathlib.Core.Path.{subst}
use key_value_store.Prelude.{
  ℕ, ◌+◌, ◌-◌, ◌≤◌, ◌<◌, ◌^◌, ◌≡◌, ap, sym, ◌∙◌, ok-injective, >>=-eq-ok, List, length, false, err,
  not_leader, length-drop, Bool-cases, inl, inr, ltb, leb, arith, ok,
}
use key_value_store.Raft.Types.{Message}
use key_value_store.Raft.State.{
  Config, Raft, PendingRead, validate, fresh, reset_election_timeout, base, last_log_index, new,
  advance,
}
use key_value_store.Raft.Log.{create_snapshot, compact, term_at}
use key_value_store.Raft.LogShape.{Contiguous-drop}
use key_value_store.Raft.Replication.{
  propose_batch, has_majority_count, is_leader, send_append_entries,
}
use key_value_store.Raft.ReadIndex.{request_read_index, put_read, confirm_read, track_read}
use key_value_store.Raft.Step.{tick, step}
use key_value_store.Raft.Frame.{for_peers-Quiet, send_append_entries-Quiet}
use key_value_store.Raft.Invariant.{WellFormed, last_log_index_lem}
use key_value_store.Raft.Calm.{Calm, Calm-Quiet, WellFormed-Calm, tick-Calm}
use key_value_store.Raft.Votes.{TermBounded}
use key_value_store.Raft.Preserve.{Admissible, step-Safe}
use key_value_store.Raft.Proposals.{propose_batch_lem}

fresh-WellFormed : (c : Config) (rnd : ℕ → ℕ) → WellFormed (reset_election_timeout (fresh c rnd))
unfolding fresh reset_election_timeout
fresh-WellFormed c rnd = record {
  contiguous = tt;
  base_committed = omega arith;
  committed = omega arith;
  base_stable = omega arith;
  stable = omega arith;
  bounded = omega arith;
}

new-WellFormed : (c : Config) (rnd : ℕ → ℕ) (r : Raft) → new c rnd ≡ ok r → WellFormed r
unfolding new fresh reset_election_timeout
new-WellFormed c rnd r h =
    let (t, valid, made) =
      >>=-eq-ok (validate c) (λ _. ok (reset_election_timeout (fresh c rnd))) h in
    rw (← (ok-injective made)) (fresh-WellFormed c rnd)

compact-WellFormed :
    (r : Raft) (i t : ℕ) (payload : List ℕ)
    → WellFormed r
    → i ≤ r.commit_index
    → base r < i
    → WellFormed (compact r i payload t)
unfolding compact
compact-WellFormed r i t payload h le lt = record {
  contiguous =
      Contiguous-drop r.sentinel.index i (i - base r) r.log (omega arith)
        (omega (arith, h.committed)) h.contiguous;
  base_committed = le;
  committed = omega (arith, h.committed, length-drop (i - base r) r.log);
  base_stable = ground arith;
  stable = ground (arith, h, length-drop (i - base r) r.log);
  bounded = omega (arith, h.bounded, h.committed, length-drop (i - base r) r.log);
}

create_snapshot-inv :
    (r r' : Raft) (i : ℕ) (payload : List ℕ)
    → create_snapshot r i payload ≡ ok r'
    → (i ≤ r.commit_index) × (base r < i) × (r' ≡ compact r i payload (term_at r i))
unfolding create_snapshot
create_snapshot-inv r r' i payload e = elim (Bool-cases (ltb r.commit_index i)) [
  | inl x ↦ cc (rw x at e)
  | inr x ↦ elim (Bool-cases (leb i (base r))) [
    | inl y ↦ cc (rw (x, y) at e)
    | inr y ↦ elim (Bool-cases (ltb (length r.log) (i - base r))) [
      | inl z ↦ cc (rw (x, y, z) at e)
      | inr z ↦ (ground arith, ground arith, sym (ok-injective (rw (x, y, z) at e)))
    ]
  ]
]

create_snapshot-WellFormed :
    (r r' : Raft) (i : ℕ) (payload : List ℕ)
    → WellFormed r
    → create_snapshot r i payload ≡ ok r'
    → WellFormed r'
create_snapshot-WellFormed r r' i payload h e =
    let (le, lt, made) = create_snapshot-inv r r' i payload e in
    rw made (compact-WellFormed r i (term_at r i) payload h le lt)

advance-WellFormed : (r : Raft) → WellFormed r → WellFormed (advance r)
unfolding advance
advance-WellFormed r h = record {
  contiguous = h.contiguous;
  base_committed = h.base_committed;
  committed = h.committed;
  base_stable = ground (arith, last_log_index_lem r h);
  stable = ground (arith, last_log_index_lem r h);
  bounded = h.bounded;
}

track_read-Calm :
    (ctx : ℕ) (p : PendingRead) (r : Raft)
    → Calm r (track_read ctx p (record r { pending_reads = put_read ctx p r.pending_reads }))
unfolding track_read
track_read-Calm ctx p r =
    let s = record r { pending_reads = put_read ctx p r.pending_reads } in
    elim (Bool-cases (has_majority_count s (length p.acked))) [
      | inl e ↦ rw e (unfold confirm_read in ground arith)
      | inr e ↦ rw e (
          ground (
            arith,
            Calm-Quiet s _ (
                for_peers-Quiet (λ q. send_append_entries q ctx)
                  (λ q r'. send_append_entries-Quiet q ctx r') s.peers s),
          ))
    ]

request_read_index-Calm : (ctx : ℕ) (r r' : Raft) → request_read_index ctx r ≡ ok r' → Calm r r'
unfolding request_read_index
request_read_index-Calm ctx r r' h = elim (Bool-cases (is_leader r.role)) [
  | inl e ↦ rw (← (ok-injective (rw e at h))) (track_read-Calm ctx _ r)
  | inr e ↦ cc (rw e at h)
]

-- What the driver of a node does with it.
pub data Driven : Raft → Raft → Type 0 where
  ticked : (r : Raft) → TermBounded r → Driven r (tick r)
  stepped :
      (m : Message) (r r' : Raft)
      → TermBounded r
      → Admissible m.type m r
      → step m r ≡ ok r'
      → Driven r r'
  proposed :
      (ds : List (List ℕ)) (is : List ℕ) (r r' : Raft)
      → last_log_index r + length ds + 1 < 2 ^ 64
      → propose_batch ds r ≡ ok (is, r')
      → Driven r r'
  compacted :
      (i : ℕ) (payload : List ℕ) (r r' : Raft) → create_snapshot r i payload ≡ ok r' → Driven r r'
  read : (ctx : ℕ) (r r' : Raft) → request_read_index ctx r ≡ ok r' → Driven r r'
  advanced : (r : Raft) → Driven r (advance r)

pub data Reach (r : Raft) : Raft → Type 0 where
  here : Reach r r
  next : {s t : Raft} → Reach r s → Driven s t → Reach r t

propose_batch_refused :
    (ds : List (List ℕ)) (r : Raft) → is_leader r.role ≡ false → propose_batch ds r ≡ err not_leader
unfolding propose_batch
propose_batch_refused ds r l = rw l

propose_batch-WellFormed :
    (ds : List (List ℕ)) (is : List ℕ) (r r' : Raft)
    → WellFormed r
    → last_log_index r + length ds + 1 < 2 ^ 64
    → propose_batch ds r ≡ ok (is, r')
    → WellFormed r' × (r.commit_index ≤ r'.commit_index)
propose_batch-WellFormed ds is r r' h room e = elim (Bool-cases (is_leader r.role)) [
  | inl l ↦
      let (s, res, same, sent, moved, w, c) = propose_batch_lem ds r h l room in
      let q : s ≡ r' = ap (λ (x : List ℕ × Raft). x.1) (ok-injective (sym res ∙ e)) in
      (subst WellFormed q w, subst (λ (x : Raft). r.commit_index ≤ x.commit_index) q c)
  | inr l ↦ cc (propose_batch_refused ds r l)
]

Driven-WellFormed :
    {r s : Raft} → Driven r s → WellFormed r → WellFormed s × (r.commit_index ≤ s.commit_index)
Driven-WellFormed (ticked r b) h = (WellFormed-Calm r (tick r) h (tick-Calm r), (tick-Calm r).above)
Driven-WellFormed (stepped m r r' b a e) h =
    let (s, res, w, c) = step-Safe m r h a in
    let q : s ≡ r' = ok-injective (sym res ∙ e) in
    (subst WellFormed q w, subst (λ (x : Raft). r.commit_index ≤ x.commit_index) q c)
Driven-WellFormed (proposed ds is r r' room e) h = propose_batch-WellFormed ds is r r' h room e
Driven-WellFormed (compacted i payload r r' e) h = (
  create_snapshot-WellFormed r r' i payload h e,
  unfold compact in rw ((create_snapshot-inv r r' i payload e).2) (omega arith),
)
Driven-WellFormed (read ctx r r' e) h =
    let c = request_read_index-Calm ctx r r' e in (WellFormed-Calm r r' h c, c.above)
Driven-WellFormed (advanced r) h = (advance-WellFormed r h, unfold advance in omega arith)

Reach-preserves :
    {s t : Raft} → Reach s t → WellFormed s → WellFormed t × (s.commit_index ≤ t.commit_index)
Reach-preserves here h = (h, omega arith)
Reach-preserves (next run d) h =
    let (w, up) = Reach-preserves run h in
    let (w', up') = Driven-WellFormed d w in (w', omega (arith, up, up'))

-- Whatever its driver does with a new node, for as long as the messages that it processes are
-- admissible and its terms and indices stay below 2 ^ 64: the node is well formed, and its commit
-- index never falls from one state that it reaches to a later one.
pub Reach-WellFormed :
    (c : Config) (rnd : ℕ → ℕ) {r s t : Raft}
    → new c rnd ≡ ok r
    → Reach r s
    → Reach s t
    → WellFormed t × (s.commit_index ≤ t.commit_index)
Reach-WellFormed c rnd {r} made before after =
    Reach-preserves after (Reach-preserves before (new-WellFormed c rnd r made)).0
