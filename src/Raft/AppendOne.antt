-- ===== src/Raft/AppendOne.antt =====
-- One round of the follower's loop over the entries, at a well-formed node.
use key_value_store.Prelude.{
  ℕ, suc, ◌+◌, ◌-◌, ◌≤◌, ◌<◌, ◌^◌, ◌≡◌, refl, sym, ◌⊎◌, ◌∙◌, ap, [], ◌∷◌, ◌++◌, length, take, arith,
  inl, inr, true, false, Bool-cases, leb, ltb, not, ◌&&◌, ◌==◌, if◌then◌else◌, ok, length-append,
  length-take, le→ltb, lt→ltb, lt→leb, leb→le,
}
use key_value_store.Raft.Types.{LogEntry}
use key_value_store.Raft.State.{Raft, base, last_log_index}
use key_value_store.Raft.Log.{nth, term_at}
use key_value_store.Raft.LogShape.{
  index-last_of, Contiguous-take, Contiguous-append, nth-take, nth-append, nth-append_end, take_all,
}
use key_value_store.Raft.Invariant.{WellFormed, last_log_index_lem, entry_at, term_at_within}
use key_value_store.Raft.Append.{discard_from, push, append_one}

-- The node whose log holds `e` at idx, and ends there.
abbrev cut_and_push : ℕ → LogEntry → Raft → Raft
cut_and_push idx e r = record r {
  log = take (idx - base r - 1) r.log ++ (e ∷ []);
  unstable_index = if ltb idx r.unstable_index then idx else r.unstable_index;
}

leb→gt : (a b : ℕ) → leb a b ≡ false → b < a
leb→gt a b h = ground arith

push_past :
    (idx : ℕ) (e : LogEntry) (r : Raft)
    → last_log_index r < idx
    → push idx e r ≡ record r { log = r.log ++ (e ∷ []) }
unfolding push
push_past idx e r h = rw (lt→ltb (last_log_index r) idx h)

module _ (idx : ℕ) (e : LogEntry) (r : Raft) (h : WellFormed r) (after : base r < idx)
    (near : idx ≤ base r + length r.log + 1) where
  last_is : last_log_index r ≡ base r + length r.log
  last_is = last_log_index_lem r h

  cut_length : length (take (idx - base r - 1) r.log) ≡ idx - base r - 1
  cut_length = length-take (idx - base r - 1) r.log (omega arith)

  -- The entry is there, or the log is cut and the entry pushed.
  append_one_same :
      (leb idx (last_log_index r) && not (term_at r idx == e.term)) ≡ false
      → leb idx (last_log_index r) ≡ true
      → append_one idx e r ≡ ok r
  unfolding append_one push
  append_one_same t within =
      rw t (rw (le→ltb (last_log_index r) idx (leb→le idx (last_log_index r) within)))

  append_one_end :
      leb idx (last_log_index r) ≡ false → append_one idx e r ≡ ok (cut_and_push idx e r)
  unfolding append_one
  append_one_end past =
      rw (past, push_past idx e r (leb→gt idx (last_log_index r) past))
        (cc (
          take_all (idx - base r - 1) r.log
              (omega (arith, leb→gt idx (last_log_index r) past, last_is)),
          le→ltb idx r.unstable_index
              (omega (arith, leb→gt idx (last_log_index r) past, last_is, h.stable)),
        ))

  cut_last :
      last_log_index (record r {
        log = take (idx - base r - 1) r.log;
        unstable_index = if ltb idx r.unstable_index then idx else r.unstable_index;
      })
      < idx
  cut_last = omega (
    arith,
    index-last_of r.sentinel.index r.sentinel (take (idx - base r - 1) r.log) refl
        (Contiguous-take r.sentinel.index (idx - base r - 1) r.log h.contiguous),
    cut_length,
  )

  append_one_conflict :
      (leb idx (last_log_index r) && not (term_at r idx == e.term)) ≡ true
      → append_one idx e r ≡ ok (cut_and_push idx e r)
  unfolding append_one discard_from
  append_one_conflict t = rw (t, lt→leb idx (base r) after) (ap ok (push_past idx e _ cut_last))

  module _ (numbered : e.index ≡ idx) (fresh : r.commit_index < idx) (room : idx + 1 < 2 ^ 64) where
    cut_log_length : length (take (idx - base r - 1) r.log ++ (e ∷ [])) ≡ idx - base r
    cut_log_length =
        omega (arith, length-append (take (idx - base r - 1) r.log) (e ∷ []), cut_length)

    cut_and_push-WellFormed : WellFormed (cut_and_push idx e r)
    cut_and_push-WellFormed = record {
      contiguous =
          Contiguous-append r.sentinel.index (idx - 1) (take (idx - base r - 1) r.log) (e ∷ [])
            (omega (arith, cut_length))
            (Contiguous-take r.sentinel.index (idx - base r - 1) r.log h.contiguous)
            (omega arith, tt);
      base_committed = h.base_committed;
      committed = omega (arith, cut_log_length);
      base_stable = ground arith;
      stable = ground (arith, cut_log_length);
      bounded = omega (arith, cut_log_length);
    }

-- What one round leaves: a well-formed node that holds the entry's term at its index, with the log
-- below it as it was, and the committed entries too.
pub record Appended (idx : ℕ) (e : LogEntry) (r r' : Raft) : Type 0 where
  pub result : append_one idx e r ≡ ok r'
  pub well_formed : WellFormed r'
  pub reaches : idx ≤ base r' + length r'.log
  pub holds : (entry_at r' idx).term ≡ e.term
  pub below : (j : ℕ) → j < idx → entry_at r' j ≡ entry_at r j
  pub committed : (j : ℕ) → j ≤ r.commit_index → entry_at r' j ≡ entry_at r j

-- Over the committed entries the leader's entry has the term that the log holds.
abbrev pub AgreesAt : ℕ → LogEntry → Raft → Type 0
AgreesAt idx e r = (r.commit_index < idx) ⊎ ((entry_at r idx).term ≡ e.term)

module _ (idx : ℕ) (e : LogEntry) (r : Raft) (h : WellFormed r) (after : base r < idx)
    (near : idx ≤ base r + length r.log + 1) (numbered : e.index ≡ idx)
    (room : idx + 1 < 2 ^ 64) where
  Appended-same :
      (leb idx (last_log_index r) && not (term_at r idx == e.term)) ≡ false
      → leb idx (last_log_index r) ≡ true
      → Appended idx e r r
  Appended-same t within = record {
    result = append_one_same idx e r h after near t within;
    well_formed = h;
    reaches = omega (arith, leb→le idx (last_log_index r) within, last_is idx e r h after near);
    holds =
        sym (
          term_at_within r idx h (omega arith)
            (omega (arith, leb→le idx (last_log_index r) within, last_is idx e r h after near)))
        ∙ ground arith;
    below = λ j lt. refl;
    committed = λ j le. refl;
  }

  cut_below : (j : ℕ) → j < idx → entry_at (cut_and_push idx e r) j ≡ entry_at r j
  cut_below j lt =
      nth-append r.sentinel (j - base r) (take (idx - base r - 1) r.log) (e ∷ [])
        (omega (arith, cut_length idx e r h after near))
      ∙ nth-take r.sentinel (idx - base r - 1) (j - base r) r.log (omega arith)

  cut_holds : entry_at (cut_and_push idx e r) idx ≡ e
  cut_holds =
      let pos : idx - base r ≡ suc (idx - base r - 1) = omega arith in
      ap (nth r.sentinel (take (idx - base r - 1) r.log ++ (e ∷ []))) pos
      ∙ nth-append_end r.sentinel e (idx - base r - 1) (take (idx - base r - 1) r.log)
          (sym (cut_length idx e r h after near))

  Appended-cut :
      append_one idx e r ≡ ok (cut_and_push idx e r)
      → r.commit_index < idx
      → Appended idx e r (cut_and_push idx e r)
  Appended-cut res fresh = record {
    result = res;
    well_formed = cut_and_push-WellFormed idx e r h after near numbered fresh room;
    reaches = omega (arith, cut_log_length idx e r h after near numbered fresh room);
    holds = ap (λ (x : LogEntry). x.term) cut_holds;
    below = cut_below;
    committed = λ j le. cut_below j (omega arith);
  }

  pub append_one_lem : AgreesAt idx e r → (r' : Raft) × Appended idx e r r'
  append_one_lem agree = elim (Bool-cases (leb idx (last_log_index r))) [
    | inr past ↦ (
      cut_and_push idx e r,
      Appended-cut (append_one_end idx e r h after near past) (
          omega
            (arith, leb→gt idx (last_log_index r) past, last_is idx e r h after near, h.committed)),
    )
    | inl within ↦ elim (Bool-cases (leb idx (last_log_index r) && not (term_at r idx == e.term))) [
      | inl t ↦ (
        cut_and_push idx e r,
        Appended-cut (append_one_conflict idx e r h after near t) (
            ground (
              arith,
              term_at_within r idx h (omega arith) (
                  omega
                    (arith, leb→le idx (last_log_index r) within, last_is idx e r h after near)),
            )),
      )
      | inr t ↦ (r, Appended-same t within)
    ]
  ]
