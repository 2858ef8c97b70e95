-- ===== src/Raft/AppendLoop.antt =====
-- The follower's loop over the entries of one message, at a well-formed node.
use native.Mathlib.Nat.{mod-eq_of_lt}
use key_value_store.Prelude.{
  ℕ, ◌+◌, ◌≤◌, ◌<◌, ◌^◌, ◌≡◌, refl, sym, ap, ltb, ltb→lt, Bool-cases, ◌∙◌, List, [], ◌∷◌, length,
  arith, inl, inr, ok,
}
use key_value_store.Raft.Types.{LogEntry}
use key_value_store.Raft.State.{Raft, base, add64}
use key_value_store.Raft.LogShape.{Contiguous}
use key_value_store.Raft.Invariant.{WellFormed, entry_at}
use key_value_store.Raft.Append.{append_entries}
use key_value_store.Raft.AppendFrame.{append_one-Kept}
use key_value_store.Raft.AppendOne.{AgreesAt, append_one_lem}

-- The entries, from an index on, have the terms of the committed entries that the log holds there.
abbrev pub Agrees : ℕ → List LogEntry → Raft → Type 0
Agrees idx [] r = Unit
Agrees idx (e ∷ es) r = AgreesAt idx e r × Agrees (idx + 1) es r

-- The log holds the terms of the entries, from an index on.
abbrev pub Holds : ℕ → List LogEntry → Raft → Type 0
Holds idx [] r = Unit
Holds idx (e ∷ es) r = ((entry_at r idx).term ≡ e.term) × Holds (idx + 1) es r

pub record AppendedAll (idx : ℕ) (es : List LogEntry) (r r' : Raft) : Type 0 where
  pub result : append_entries idx es r ≡ ok r'
  pub well_formed : WellFormed r'
  pub reaches : idx + length es ≤ base r' + length r'.log + 1
  pub holds : Holds idx es r'
  pub below : (j : ℕ) → j < idx → entry_at r' j ≡ entry_at r j
  pub committed : (j : ℕ) → j ≤ r.commit_index → entry_at r' j ≡ entry_at r j

AgreesAt-carried :
    (idx : ℕ) (e : LogEntry) (r s : Raft)
    → r.commit_index ≡ s.commit_index
    → ((j : ℕ) → j ≤ r.commit_index → entry_at s j ≡ entry_at r j)
    → AgreesAt idx e r
    → AgreesAt idx e s
AgreesAt-carried idx e r s c h (inl past) = inl (omega arith)
AgreesAt-carried idx e r s c h (inr same) = elim (Bool-cases (ltb r.commit_index idx)) [
  | inl lt ↦ inl (omega (arith, ltb→lt r.commit_index idx lt))
  | inr ge ↦ inr (ap (λ (x : LogEntry). x.term) (h idx (ground arith)) ∙ same)
]

Agrees-carried :
    (idx : ℕ) (es : List LogEntry) (r s : Raft)
    → r.commit_index ≡ s.commit_index
    → ((j : ℕ) → j ≤ r.commit_index → entry_at s j ≡ entry_at r j)
    → Agrees idx es r
    → Agrees idx es s
Agrees-carried idx [] r s c h a = tt
Agrees-carried idx (e ∷ es) r s c h (a, as_) =
    (AgreesAt-carried idx e r s c h a, Agrees-carried (idx + 1) es r s c h as_)

pub append_entries_lem :
    (es : List LogEntry) (p idx : ℕ) (r : Raft)
    → WellFormed r
    → idx ≡ p + 1
    → base r ≤ p
    → p ≤ base r + length r.log
    → Contiguous p es
    → idx + length es < 2 ^ 64
    → Agrees idx es r
    → (r' : Raft) × AppendedAll idx es r r'
unfolding append_entries
append_entries_lem [] p idx r h next after near c room agree = (
  r,
  record {
    result = refl;
    well_formed = h;
    reaches = omega arith;
    holds = tt;
    below = λ j _. refl;
    committed = λ j _. refl;
  },
)
append_entries_lem (e ∷ es) p idx r h next after near (numbered, c) room (agree, agrees) =
    let (s, a) =
      append_one_lem idx e r h (omega arith) (omega arith) (omega arith) (omega arith) agree in
    let k = append_one-Kept idx e r s a.result in
    let same_base : base s ≡ base r = ap (λ (x : LogEntry). x.index) k.sentinel in
    let (r', b) =
      append_entries_lem es (p + 1) (idx + 1) s a.well_formed (omega arith)
        (omega (arith, a.well_formed)) (omega (arith, a.reaches)) c (omega arith)
        (Agrees-carried (idx + 1) es r s (sym k.commit_index) a.committed agrees) in
    let step : add64 idx 1 ≡ idx + 1 = mod-eq_of_lt (omega arith) in
    (
      r',
      record {
        result = rw (a.result, step) b.result;
        well_formed = b.well_formed;
        reaches = omega (arith, b.reaches);
        holds = (ap (λ (x : LogEntry). x.term) (b.below idx (omega arith)) ∙ a.holds, b.holds);
        below = λ j lt. b.below j (omega arith) ∙ a.below j lt;
        committed = λ j le. b.committed j (omega (arith, k.commit_index)) ∙ a.committed j le;
      },
    )
