-- ===== src/Raft/Proposals.antt =====
-- What a leader does with a batch of proposals.
use mathlib.Core.Path.{subst}
use native.Mathlib.Nat.{mod-eq_of_lt}
use key_value_store.Prelude.{
  ℕ, ◌+◌, ◌≤◌, ◌<◌, ◌^◌, ◌≡◌, refl, List, [], ◌∷◌, ◌++◌, length, length-append, append_assoc,
  append-nil, arith, ok, true, ap, ◌⊎◌, ◌==◌, ==→≡, ◌∙◌, sym, ltb, Bool-cases, inl, inr,
}
use key_value_store.Raft.Types.{LogEntry, Message}
use key_value_store.Raft.State.{Raft, base, last_log_index, add64, sub64}
use key_value_store.Raft.LogShape.{Contiguous, Contiguous-append}
use key_value_store.Raft.Replication.{
  send, send_append_entries, send_install_snapshot, mark_sent, append_message, for_peers,
  append_all, propose_batch, is_leader, send_heartbeats, maybe_advance_commit_index,
  commit_if_alone,
}
use key_value_store.Raft.Frame.{send_append_entries-Quiet, send_heartbeats-Quiet}
use key_value_store.Raft.Invariant.{WellFormed, last_log_index_lem}
use key_value_store.Raft.Calm.{Calm, WellFormed-Calm, Calm-trans, Calm-Quiet, commit_if_alone-Calm}

-- The entries for the proposals, numbered from the one after p, and their numbers.
abbrev pub proposed : ℕ → ℕ → List (List ℕ) → List LogEntry
proposed t p [] = []
proposed t p (d ∷ ds) = record { term = t; index = p + 1; payload = d } ∷ proposed t (p + 1) ds

abbrev pub numbers : ℕ → List (List ℕ) → List ℕ
numbers p [] = []
numbers p (d ∷ ds) = (p + 1) ∷ numbers (p + 1) ds

Contiguous-proposed : (t p : ℕ) (ds : List (List ℕ)) → Contiguous p (proposed t p ds)
Contiguous-proposed t p [] = tt
Contiguous-proposed t p (d ∷ ds) = (refl, Contiguous-proposed t (p + 1) ds)

length-proposed : (t p : ℕ) (ds : List (List ℕ)) → length (proposed t p ds) ≡ length ds
length-proposed t p [] = refl
length-proposed t p (d ∷ ds) = omega (arith, length-proposed t (p + 1) ds)

grown-WellFormed :
    (r : Raft) (es : List LogEntry)
    → WellFormed r
    → Contiguous (base r + length r.log) es
    → base r + length r.log + length es + 1 < 2 ^ 64
    → WellFormed (record r { log = r.log ++ es })
grown-WellFormed r es h c room = record {
  contiguous =
      Contiguous-append r.sentinel.index (base r + length r.log) r.log es refl h.contiguous c;
  base_committed = h.base_committed;
  committed = omega (arith, h.committed, length-append r.log es);
  base_stable = h.base_stable;
  stable = omega (arith, h.stable, length-append r.log es);
  bounded = omega (arith, length-append r.log es);
}

pub append_all_lem :
    (ds : List (List ℕ)) (p : ℕ) (r : Raft)
    → WellFormed r
    → p ≡ base r + length r.log
    → p + length ds + 1 < 2 ^ 64
    → append_all ds r ≡ (numbers p ds, record r { log = r.log ++ proposed r.current_term p ds })
unfolding append_all
append_all_lem [] p r h e room = rw append-nil
append_all_lem (d ∷ ds) p r h e room = rw (next) (
    let s : Raft = record r { log = r.log ++ (entry ∷ []) } in
    let k : WellFormed s = grown-WellFormed r (entry ∷ []) h (omega arith, tt) (omega arith) in
    rw (
      append_all_lem ds (p + 1) s k (omega (arith, length-append r.log (entry ∷ []))) (omega arith),
      append_assoc,
    ))
  where
    next : add64 (last_log_index r) 1 ≡ p + 1
    next = rw (last_log_index_lem r h, ← e) (mod-eq_of_lt (omega arith))

    entry : LogEntry
    entry = record { term = r.current_term; index = p + 1; payload = d }

-- The node whose log holds the proposals.
abbrev pub with_proposals : List (List ℕ) → Raft → Raft
with_proposals ds r = record r { log = r.log ++ proposed r.current_term (last_log_index r) ds }

-- Messages that a node sends, one to each of these peers, with its own number and term.
abbrev pub SentTo : ℕ → ℕ → List ℕ → List Message → Type 0
SentTo id term [] ms = ms ≡ []
SentTo id term (p ∷ ps) [] = ⊥
SentTo id term (p ∷ ps) (m ∷ ms) =
    ((m.to ≡ p) × (m.from ≡ id) × (m.term ≡ term)) × SentTo id term ps ms

-- One node is the other, but for its outbox and what it has sent of its log.
abbrev Sends : Raft → Raft → Type 0
Sends r r' = r' ≡ record r { msgs = r'.msgs; sent_index = r'.sent_index }

send_append_entries-Sends :
    (p ctx : ℕ) (r : Raft)
    → let r' = send_append_entries p ctx r in
      Sends r r'
      × (m : Message) × (r'.msgs ≡ r.msgs ++ m ∷ [])
      × (m.to ≡ p)
      × (m.from ≡ r.id)
      × (m.term ≡ r.current_term)
unfolding send_append_entries send_install_snapshot mark_sent send append_message
send_append_entries-Sends p ctx r = elim (Bool-cases (ltb (sub64 (r.next_index p) 1) (base r))) [
  | inl e ↦ rw e (refl, _, refl, refl, refl, refl)
  | inr e ↦ elim (Bool-cases (ltb (r.sent_index p) (last_log_index r))) [
    | inl x ↦ rw (e, x) (refl, _, refl, refl, refl, refl)
    | inr x ↦ rw (e, x) (refl, _, refl, refl, refl, refl)
  ]
]

sent_as :
    {i j t u : ℕ} (ps : List ℕ) (ms : List Message)
    → i ≡ j
    → t ≡ u
    → SentTo i t ps ms
    → SentTo j u ps ms
sent_as {j = j} {t = t} ps ms same_id same_term h =
    subst (λ u. SentTo j u ps ms) same_term (subst (λ i. SentTo i t ps ms) same_id h)

moved_as :
    (c : ℕ) {d d' : ℕ} {ps qs : List ℕ}
    → d ≡ d'
    → ps ≡ qs
    → (c ≡ d) ⊎ (length ps ≡ 0)
    → (c ≡ d') ⊎ (length qs ≡ 0)
moved_as c e same (inl h) = inl (h ∙ e)
moved_as c e same (inr h) = inr (ap (λ (l : List ℕ). length l) (sym same) ∙ h)

for_peers-Sends :
    (ps : List ℕ) (r : Raft)
    → let r' = for_peers (λ p. send_append_entries p 0) ps r in
      Sends r r' × (ms : List Message) × (r'.msgs ≡ r.msgs ++ ms) × SentTo r.id r.current_term ps ms
unfolding for_peers
for_peers-Sends [] r = (refl, [], sym (append-nil r.msgs), refl)
for_peers-Sends (p ∷ ps) r =
    let s = send_append_entries p 0 r in
    let r' = for_peers (λ p. send_append_entries p 0) ps s in
    let same = (send_append_entries-Quiet p 0 r).state in
    let (first, m, out, to, from, term) = send_append_entries-Sends p 0 r in
    let (rest, ms, outs, sent) = for_peers-Sends ps s in
    (
      rest ∙ ap (λ (t : Raft). record t { msgs = r'.msgs; sent_index = r'.sent_index }) first,
      m ∷ ms,
      outs ∙ ap (λ l. l ++ ms) out ∙ append_assoc r.msgs (m ∷ []) ms,
      ((to, from, term), sent_as ps ms same.id same.current_term sent),
    )

-- A node that stays as it was, but for its commit index, which moves only where it has no peers.
abbrev Alone : Raft → Raft → Type 0
Alone r r' =
    (r' ≡ record r { commit_index = r'.commit_index })
    × ((r'.commit_index ≡ r.commit_index) ⊎ (length r.peers ≡ 0))

commit_if_alone-Alone : (r : Raft) → Alone r (commit_if_alone r)
unfolding commit_if_alone maybe_advance_commit_index
commit_if_alone-Alone r = elim (Bool-cases (length r.peers == 0)) [
  | inl e ↦ rw e (refl, inr (==→≡ (length r.peers) 0 e))
  | inr e ↦ rw e (refl, inl refl)
]

sent_then_alone :
    (r s t : Raft)
    → Sends r s
    → t ≡ record s { commit_index = t.commit_index }
    → t ≡ record r { msgs = t.msgs; sent_index = t.sent_index; commit_index = t.commit_index }
sent_then_alone r s t sends alone =
    alone
    ∙ ap (λ (x : Raft). record x { commit_index = t.commit_index }) sends
    ∙ ap (λ l. record r { msgs = l; sent_index = s.sent_index; commit_index = t.commit_index })
        (sym (ap (λ (x : Raft). x.msgs) alone))
    ∙ ap (λ i. record r { msgs = t.msgs; sent_index = i; commit_index = t.commit_index })
        (sym (ap (λ (x : Raft). x.sent_index) alone))

-- A well-formed leader gives consecutive indices to the proposals, appends them in order as entries of
-- its term, and sends one message to each peer, in order, behind what was in its outbox. Its commit
-- index moves, and then up, only if it has no peers. Nothing else of it changes but the marks of how
-- much of its log was sent. There is room for the indices below 2 ^ 64.
pub propose_batch_lem :
    (ds : List (List ℕ)) (r : Raft)
    → WellFormed r
    → is_leader r.role ≡ true
    → last_log_index r + length ds + 1 < 2 ^ 64
    → (r' : Raft) × (propose_batch ds r ≡ ok (numbers (last_log_index r) ds, r'))
      × (r' ≡ record (with_proposals ds r) {
        msgs = r'.msgs;
        sent_index = r'.sent_index;
        commit_index = r'.commit_index;
      })
      × ((ms : List Message) × (r'.msgs ≡ r.msgs ++ ms) × SentTo r.id r.current_term r.peers ms)
      × ((r'.commit_index ≡ r.commit_index) ⊎ (length r.peers ≡ 0))
      × WellFormed r'
      × (r.commit_index ≤ r'.commit_index)
unfolding propose_batch send_heartbeats
propose_batch_lem ds r h l room =
    let s = with_proposals ds r in
    let last = last_log_index_lem r h in
    let k : WellFormed s =
      grown-WellFormed r (proposed r.current_term (last_log_index r) ds) h
        (rw (← last) (Contiguous-proposed r.current_term (last_log_index r) ds))
        (omega (arith, length-proposed r.current_term (last_log_index r) ds, last)) in
    let c : Calm s (commit_if_alone (send_heartbeats s)) =
      Calm-trans s (send_heartbeats s) _ (Calm-Quiet s _ (send_heartbeats-Quiet s))
        (commit_if_alone-Calm (send_heartbeats s)) in
    let quiet = send_heartbeats-Quiet s in
    let (sends, ms, out, sent) = for_peers-Sends s.peers s in
    let (alone, moved) = commit_if_alone-Alone (send_heartbeats s) in
    (
      commit_if_alone (send_heartbeats s),
      rw (l, append_all_lem ds (last_log_index r) r h last room),
      sent_then_alone s (send_heartbeats s) _ sends alone,
      (ms, ap (λ (x : Raft). x.msgs) alone ∙ out, sent),
      moved_as _ quiet.commit_index quiet.state.peers moved,
      WellFormed-Calm s _ k c,
      c.above,
    )
