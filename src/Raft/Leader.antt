-- ===== src/Raft/Leader.antt =====
-- The leader's side of replication: what an AppendEntries carries, and its round to a follower.
use key_value_store.Prelude.{
  ℕ, ◌+◌, ◌-◌, ◌≤◌, ◌<◌, ◌≡◌, refl, length, length-drop, drop_all, leb→le, drop, take, arith, ok,
  le→ltb, max, Bool-cases, inl, inr, leb,
}
use key_value_store.Raft.Types.{Message}
use key_value_store.Raft.State.{Raft, base, last_log_index}
use key_value_store.Raft.Log.{term_at, entries}
use key_value_store.Raft.LogShape.{Contiguous, Contiguous-drop, take_all}
use key_value_store.Raft.Replication.{append_message, prev_index}
use key_value_store.Raft.Append.{handle_append_entries}
use key_value_store.Raft.Invariant.{WellFormed, last_log_index_lem}
use key_value_store.Raft.AppendLoop.{Agrees, Holds}
use key_value_store.Raft.Follower.{Admits, Matched}
use key_value_store.Raft.Preserve.{handle_append_entries-Matched}

-- What the log holds after an index that it covers.
pub entries_after :
    (r : Raft) (p : ℕ)
    → WellFormed r
    → base r ≤ p
    → p ≤ last_log_index r
    → entries r p (last_log_index r) ≡ drop (p - base r) r.log
unfolding entries
entries_after r p h lo hi =
    rw (le→ltb (last_log_index r) (last_log_index r) (omega arith), le→ltb p (base r) lo)
      (elim (Bool-cases (leb (last_log_index r) p)) [
        | inl e ↦ rw (
          e,
          drop_all (p - base r) r.log
              (omega (arith, last_log_index_lem r h, leb→le (last_log_index r) p e)),
        )
        | inr e ↦ rw e (
            take_all (last_log_index r - base r - (p - base r)) (drop (p - base r) r.log)
              (omega (arith, last_log_index_lem r h, length-drop (p - base r) r.log)))
      ])

-- A leader's progress for a peer whose next entry its log still holds.
pub record Progress (peer : ℕ) (r : Raft) : Type 0 where
  pub next_above : base r < r.next_index peer
  pub next_within : r.next_index peer ≤ last_log_index r + 1
  pub sent_within : r.sent_index peer ≤ last_log_index r

module _ (peer ctx : ℕ) (r : Raft) (h : WellFormed r) (g : Progress peer r) where
  prev_bounds : (base r ≤ prev_index peer r) × (prev_index peer r ≤ last_log_index r)
  prev_bounds = ground (arith, g, h.bounded, last_log_index_lem r h)

  sent_entries : (append_message peer ctx r).entries ≡ drop (prev_index peer r - base r) r.log
  unfolding append_message
  sent_entries = entries_after r (prev_index peer r) h prev_bounds.0 prev_bounds.1

  -- An AppendEntries starts within the leader's log and reaches its end, so that the commit index
  -- that it carries is at most the index of its last entry; its entries are numbered from its
  -- previous index on. The peer is owed entries that the leader still holds.
  pub append_message_covers :
      let m = append_message peer ctx r in
      (base r ≤ m.prev_log_index)
      × (m.prev_log_index + length m.entries ≡ last_log_index r)
      × (m.leader_commit ≤ m.prev_log_index + length m.entries)
      × Contiguous m.prev_log_index m.entries
  unfolding append_message
  append_message_covers = (
    prev_bounds.0,
    total,
    omega (arith, total, h.committed, last_log_index_lem r h),
    rw sent_entries numbered,
  )
    where
      total : prev_index peer r + length (append_message peer ctx r).entries ≡ last_log_index r
      total = rw sent_entries (
          omega (
            arith,
            prev_bounds,
            last_log_index_lem r h,
            length-drop (prev_index peer r - base r) r.log,
          ))

      numbered : Contiguous (prev_index peer r) (drop (prev_index peer r - base r) r.log)
      numbered =
          Contiguous-drop r.sentinel.index (prev_index peer r) (prev_index peer r - base r) r.log
            (omega (arith, prev_bounds)) (omega (arith, prev_bounds, last_log_index_lem r h))
            h.contiguous

-- The AppendEntries as it leaves the leader.
abbrev pub sent_append : ℕ → ℕ → Raft → Message
sent_append peer ctx l = record (append_message peer ctx l) { from = l.id; term = l.current_term }

-- A leader's AppendEntries to a follower of no newer term that holds its previous entry: the
-- follower then holds the terms of all the leader's entries after that one, what it held up to
-- there, and the higher of the two commit indices. The leader still holds what it owes the
-- follower, the follower has not compacted its previous entry away, and no committed entry of the
-- follower is contradicted.
pub append_round :
    (peer ctx : ℕ) (l f : Raft)
    → WellFormed l
    → WellFormed f
    → Progress peer l
    → f.current_term ≤ l.current_term
    → base f ≤ prev_index peer l
    → prev_index peer l ≤ last_log_index f
    → term_at f (prev_index peer l) ≡ term_at l (prev_index peer l)
    → Agrees (prev_index peer l + 1) (drop (prev_index peer l - base l) l.log) f
    → (f' : Raft) × (handle_append_entries (sent_append peer ctx l) f ≡ ok f')
      × Holds (prev_index peer l + 1) (drop (prev_index peer l - base l) l.log) f'
      × (take (prev_index peer l - base f) f'.log ≡ take (prev_index peer l - base f) f.log)
      × (f'.commit_index ≡ max f.commit_index l.commit_index)
append_round peer ctx l f hl hf g fresh covered within same agree =
    let m = sent_append peer ctx l in
    let (f', res, q) =
      handle_append_entries-Matched m f hf a (unfold append_message in fresh)
        (unfold append_message in within) (unfold append_message in same) in
    (
      f',
      res,
      rw (sent_entries peer ctx l hl g) at (moved f' q.holds),
      unfold append_message in q.below,
      commit f' q,
    )
  where
    agree_sent : Agrees (prev_index peer l + 1) (append_message peer ctx l).entries f
    agree_sent = rw (sent_entries peer ctx l hl g) agree

    a : Admits (sent_append peer ctx l) f
    a = record {
      covered = unfold append_message in covered;
      numbered = (append_message_covers peer ctx l hl g).3;
      room =
          omega
            (arith, (append_message_covers peer ctx l hl g).1, hl.bounded, last_log_index_lem l hl);
      agrees = unfold append_message in agree_sent;
    }

    moved :
        (f' : Raft)
        → Holds ((sent_append peer ctx l).prev_log_index + 1) (sent_append peer ctx l).entries f'
        → Holds (prev_index peer l + 1) (append_message peer ctx l).entries f'
    moved f' q = unfold append_message in q

    commit :
        (f' : Raft)
        → Matched (sent_append peer ctx l) f f'
        → f'.commit_index ≡ max f.commit_index l.commit_index
    commit f' q =
        let lc : (append_message peer ctx l).leader_commit ≡ l.commit_index =
          unfold append_message in refl in
        omega (
          arith,
          lc,
          q.commit,
          q.reaches,
          (append_message_covers peer ctx l hl g).1,
          hl.committed,
          last_log_index_lem l hl,
        )
