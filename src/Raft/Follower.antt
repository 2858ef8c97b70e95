-- ===== src/Raft/Follower.antt =====
-- The follower's side of replication, at a well-formed node.
use native.Mathlib.Nat.{mod-eq_of_lt}
use key_value_store.Prelude.{
  ℕ, ◌+◌, ◌-◌, ◌≤◌, ◌<◌, ◌^◌, ◌≡◌, refl, ap, ◌∙◌, inl, inr, List, [], ◌∷◌, ◌++◌, Bool-cases, length,
  arith, ltb, le→ltb, ◌==◌, not, ok, true, min, max, take, ==_refl,
}
use key_value_store.Raft.Types.{LogEntry, Message}
use key_value_store.Raft.State.{Raft, base, last_log_index, add64}
use key_value_store.Raft.Log.{nth, term_at}
use key_value_store.Raft.LogShape.{Contiguous, take_of-nth}
use key_value_store.Raft.Replication.{send}
use key_value_store.Raft.Append.{follow_commit, append_reply, follow}
use key_value_store.Raft.Invariant.{WellFormed, last_log_index_lem, entry_at}
use key_value_store.Raft.AppendFrame.{Kept, append_entries-Kept}
use key_value_store.Raft.AppendLoop.{Agrees, Holds, AppendedAll, append_entries_lem}
use key_value_store.Raft.Calm.{Calm, Calm-trans, WellFormed-Calm, send-Calm}

-- What an AppendEntries is to meet: its entries are numbered from its previous index on, which the
-- follower has not compacted away, and it does not contradict a committed entry.
pub record Admits (m : Message) (r : Raft) : Type 0 where
  pub covered : base r ≤ m.prev_log_index
  pub numbered : Contiguous m.prev_log_index m.entries
  pub room : m.prev_log_index + 1 + length m.entries < 2 ^ 64
  pub agrees : Agrees (m.prev_log_index + 1) m.entries r

follow_commit-Calm :
    (c : ℕ) (r : Raft) → r.commit_index ≤ last_log_index r → Calm r (follow_commit c r)
unfolding follow_commit
follow_commit-Calm c r h = ground arith

pub Agrees-moved :
    (idx : ℕ) (es : List LogEntry) (r s : Raft)
    → s.sentinel ≡ r.sentinel
    → s.log ≡ r.log
    → s.commit_index ≡ r.commit_index
    → Agrees idx es r
    → Agrees idx es s
Agrees-moved idx [] r s p q c a = tt
Agrees-moved idx (e ∷ es) r s p q c (a, as_) =
    (rw (p, q, c) a, Agrees-moved (idx + 1) es r s p q c as_)

-- A follower's answer to an AppendEntries that it takes.
pub record Follows (m : Message) (r r' : Raft) : Type 0 where
  pub well_formed : WellFormed r'
  pub base : base r' ≡ base r
  pub commit : r.commit_index ≤ r'.commit_index
  pub committed : (j : ℕ) → j ≤ r.commit_index → entry_at r' j ≡ entry_at r j

pub Follows-Calm : (m : Message) (r s : Raft) → WellFormed r → Calm r s → Follows m r s
Follows-Calm m r s h k = record {
  well_formed = WellFormed-Calm r s h k;
  base = ap (λ (x : LogEntry). x.index) k.sentinel;
  commit = k.above;
  committed = λ j _. rw (k.sentinel, k.log);
}

pub Follows-trans : (m : Message) (r s t : Raft) → Follows m r s → Follows m s t → Follows m r t
Follows-trans m r s t h k = record {
  well_formed = k.well_formed;
  base = k.base ∙ h.base;
  commit = omega (arith, h.commit, k.commit);
  committed = λ j le. k.committed j (omega (arith, h.commit)) ∙ h.committed j le;
}

module _ (m : Message) (r : Raft) (h : WellFormed r) (a : Admits m r) where
  follow_append :
      m.prev_log_index ≤ last_log_index r
      → (r' : Raft) × AppendedAll (m.prev_log_index + 1) m.entries r r'
  follow_append within =
      append_entries_lem m.entries m.prev_log_index (m.prev_log_index + 1) r h refl a.covered
        (omega (arith, last_log_index_lem r h)) a.numbered a.room a.agrees

  Follows-AppendedAll :
      (s : Raft) → AppendedAll (m.prev_log_index + 1) m.entries r s → Follows m r s
  Follows-AppendedAll s b =
      let k = append_entries-Kept (m.prev_log_index + 1) m.entries r s b.result in
      record {
        well_formed = b.well_formed;
        base = ap (λ (x : LogEntry). x.index) k.sentinel;
        commit = omega (arith, k.commit_index);
        committed = b.committed;
      }

  pub follow_lem : (r' : Raft) × (follow m r ≡ ok r') × Follows m r r'
  unfolding follow
  follow_lem = elim (Bool-cases (ltb (last_log_index r) m.prev_log_index)) [
    | inl e ↦ (send (append_reply m) r, rw e, Follows-Calm m r _ h (send-Calm (append_reply m) r))
    | inr e ↦ elim (Bool-cases (not (term_at r m.prev_log_index == m.prev_log_term))) [
      | inl e' ↦
          (send (append_reply m) r, rw (e, e'), Follows-Calm m r _ h (send-Calm (append_reply m) r))
      | inr e' ↦
          let (s, b) = follow_append (ground arith) in
          let step : add64 m.prev_log_index 1 ≡ m.prev_log_index + 1 =
            mod-eq_of_lt (omega (arith, a.room)) in
          let t = follow_commit m.leader_commit s in
          (
            send
                (record (append_reply m) {
                  success = true;
                  match_index = add64 m.prev_log_index (length m.entries);
                })
                t,
            rw (e, e', step, b.result),
            Follows-trans m r s _ (Follows-AppendedAll s b) (
                Follows-Calm m s _ b.well_formed (
                  Calm-trans s t _
                    (follow_commit-Calm m.leader_commit s
                      (omega (arith, b.well_formed, last_log_index_lem s b.well_formed)))
                    (send-Calm _ t))),
          )
    ]
  ]

abbrev pub success_reply : Message → Message
success_reply m = record (append_reply m) {
  success = true;
  match_index = m.prev_log_index + length m.entries;
}

-- What a follower is left with after an AppendEntries whose previous entry it holds.
pub record Matched (m : Message) (r r' : Raft) : Type 0 where
  pub holds : Holds (m.prev_log_index + 1) m.entries r'
  pub boundary : base r' ≡ base r
  pub below : take (m.prev_log_index - base r) r'.log ≡ take (m.prev_log_index - base r) r.log
  pub reaches : m.prev_log_index + length m.entries ≤ last_log_index r'
  pub commit : r'.commit_index ≡ max r.commit_index (min m.leader_commit (last_log_index r'))
  pub reply :
      r'.msgs ≡ r.msgs ++ (record (success_reply m) { from = r'.id; term = r'.current_term } ∷ [])

Holds-moved :
    (idx : ℕ) (es : List LogEntry) (r s : Raft)
    → s.sentinel ≡ r.sentinel
    → s.log ≡ r.log
    → Holds idx es r
    → Holds idx es s
Holds-moved idx [] r s p q h = tt
Holds-moved idx (e ∷ es) r s p q (h, hs) = (rw (p, q) h, Holds-moved (idx + 1) es r s p q hs)

commit-follow_commit :
    (c : ℕ) (r : Raft)
    → r.commit_index ≤ last_log_index r
    → (follow_commit c r).commit_index ≡ max r.commit_index (min c (last_log_index r))
unfolding follow_commit
commit-follow_commit c r h = ground arith

follow_commit_frame :
    (c : ℕ) (r : Raft)
    → ((follow_commit c r).msgs ≡ r.msgs)
      × ((follow_commit c r).id ≡ r.id)
      × ((follow_commit c r).current_term ≡ r.current_term)
unfolding follow_commit
follow_commit_frame c r = ground arith

module _ (m : Message) (r : Raft) (h : WellFormed r) (a : Admits m r) (s : Raft)
    (b : AppendedAll (m.prev_log_index + 1) m.entries r s)
    (within : m.prev_log_index ≤ last_log_index r) where
  done : Raft
  done = send (success_reply m) (follow_commit m.leader_commit s)

  last_ok : s.commit_index ≤ last_log_index s
  last_ok = omega (arith, b.well_formed, last_log_index_lem s b.well_formed)

  done-Calm : Calm s done
  unfolding done
  done-Calm =
      Calm-trans s (follow_commit m.leader_commit s) done
        (follow_commit-Calm m.leader_commit s last_ok)
        (send-Calm (success_reply m) (follow_commit m.leader_commit s))

  last-done : last_log_index done ≡ last_log_index s
  last-done = rw (done-Calm.sentinel, done-Calm.log)

  kept : Kept r s
  kept = append_entries-Kept (m.prev_log_index + 1) m.entries r s b.result

  done_base : base done ≡ base r
  done_base = ap (λ (x : LogEntry). x.index) (done-Calm.sentinel ∙ kept.sentinel)

  prefix : take (m.prev_log_index - base r) s.log ≡ take (m.prev_log_index - base r) r.log
  prefix =
      take_of-nth (m.prev_log_index - base r) s.sentinel r.sentinel s.log r.log
        (omega (arith, b.reaches, ap (λ (x : LogEntry). x.index) kept.sentinel))
        (omega (arith, within, last_log_index_lem r h)) (λ j le. shifted j le)
    where
      shifted :
          (j : ℕ) → j ≤ m.prev_log_index - base r → nth s.sentinel s.log j ≡ nth r.sentinel r.log j
      shifted j le =
          let e : j + base r - base r ≡ j = omega arith in
          let e' : j + base r - base s ≡ j =
            omega (arith, ap (λ (x : LogEntry). x.index) kept.sentinel) in
          rw (e, e') at (b.below (j + base r) (omega (arith, a.covered)))

  done-Matched : Matched m r done
  done-Matched =
      let k = append_entries-Kept (m.prev_log_index + 1) m.entries r s b.result in
      record {
        holds =
            Holds-moved (m.prev_log_index + 1) m.entries s done done-Calm.sentinel done-Calm.log
              b.holds;
        boundary = done_base;
        below = rw (done-Calm.log) prefix;
        reaches = omega (arith, last-done, b.reaches, last_log_index_lem s b.well_formed);
        commit = rw (last-done) (
            unfold done send in
            ground (arith, commit-follow_commit m.leader_commit s last_ok, k.commit_index));
        reply = unfold done send in ground (arith, follow_commit_frame m.leader_commit s, k.msgs);
      }

module _ (m : Message) (r : Raft) (h : WellFormed r) (a : Admits m r)
    (within : m.prev_log_index ≤ last_log_index r)
    (same : term_at r m.prev_log_index ≡ m.prev_log_term) where
  pub follow-Matched : (r' : Raft) × (follow m r ≡ ok r') × Matched m r r'
  unfolding follow done
  follow-Matched =
      let (s, b) = follow_append m r h a within in
      let step : add64 m.prev_log_index 1 ≡ m.prev_log_index + 1 =
        mod-eq_of_lt (omega (arith, a.room)) in
      let total : add64 m.prev_log_index (length m.entries) ≡ m.prev_log_index + length m.entries =
        mod-eq_of_lt (omega (arith, a.room)) in
      (
        done m r h a s b within,
        rw (
          le→ltb (last_log_index r) m.prev_log_index within,
          same,
          ==_refl m.prev_log_term,
          step,
          b.result,
          total,
        ),
        done-Matched m r h a s b within,
      )

-- The committed entries of a follower stay where they are.
pub committed_prefix :
    (m : Message) (r r' : Raft)
    → WellFormed r
    → Follows m r r'
    → take (r.commit_index - base r) r'.log ≡ take (r.commit_index - base r) r.log
committed_prefix m r r' h f =
    take_of-nth (r.commit_index - base r) r'.sentinel r.sentinel r'.log r.log
      (omega (arith, f.commit, f.base, f.well_formed)) (omega (arith, h.committed))
      (λ j le. shifted j le)
  where
    shifted :
        (j : ℕ) → j ≤ r.commit_index - base r → nth r'.sentinel r'.log j ≡ nth r.sentinel r.log j
    shifted j le =
        let e : j + base r - base r ≡ j = omega arith in
        let e' : j + base r - base r' ≡ j = omega (arith, f.base) in
        rw (e, e') at (f.committed (j + base r) (omega (arith, h.base_committed)))
