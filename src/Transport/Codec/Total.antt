-- ===== src/Transport/Codec/Total.antt =====
-- transport/codec.go: decoding any bytes, also those that a faulty or malicious peer sends.
use key_value_store.Prelude.{
  ℕ, zero, suc, ◌+◌, ◌/◌, ◌%◌, ◌≤◌, ◌<◌, ◌^◌, ◌≡◌, ◌⊎◌, inl, inr, refl, List, [], ◌∷◌, length,
  length-drop, ltb, arith, Bool-cases, Outcome, ok, err, panic, stuck, malformed_message, ◌>>=◌,
}
use key_value_store.Bytes.{slice_fits, read_le, read_byte, sized, read_block}
use key_value_store.Raft.Types.{Message}
use key_value_store.Transport.Codec.{
  decode_entry, decode_entries, decode_counted, decode_snapshot, decode_tail, decode_message,
}

-- A result of which P holds, or the error of a malformed message.
abbrev Yields {ℓ} : {A : Type ℓ} → (A → Type 0) → Outcome A → Type 0
Yields P (ok a) = P a
Yields P (err e) = e ≡ malformed_message
Yields P panic = ⊥
Yields P stuck = ⊥

abbrev pub Answers {ℓ} : {A : Type ℓ} → Outcome A → Type ℓ
Answers {A} o = ((a : A) × (o ≡ ok a)) ⊎ (o ≡ err malformed_message)

Answers-Yields {ℓ} : {A : Type ℓ} (P : A → Type 0) (o : Outcome A) → Yields P o → Answers o
Answers-Yields P (ok a) h = inl (a, refl)
Answers-Yields P (err e) h = inr (rw h refl)
Answers-Yields P panic h = absurd h
Answers-Yields P stuck h = absurd h

-- A step of a `do` block.
Yields->>= {ℓ κ} :
    {A : Type ℓ} {B : Type κ} {P : A → Type 0} (Q : B → Type 0) (o : Outcome A) (f : A → Outcome B)
    → Yields P o
    → ((a : A) → P a → Yields Q (f a))
    → Yields Q (o >>= f)
Yields->>= Q (ok a) f h k = k a h
Yields->>= Q (err e) f h k = h
Yields->>= Q panic f h k = absurd h
Yields->>= Q stuck f h k = absurd h

Yields-weaken {ℓ} :
    {A : Type ℓ} {P : A → Type 0} (Q : A → Type 0) (o : Outcome A)
    → Yields P o
    → ((a : A) → P a → Q a)
    → Yields Q o
Yields-weaken Q (ok a) h k = k a h
Yields-weaken Q (err e) h k = h
Yields-weaken Q panic h k = absurd h
Yields-weaken Q stuck h k = absurd h

-- What is left after so many bytes were read, and after that many at least.
abbrev Leaves {ℓ} : {A : Type ℓ} → ℕ → List ℕ → A × List ℕ → Type 0
Leaves n bs x = length x.1 + n ≡ length bs

abbrev LeavesUpTo {ℓ} : {A : Type ℓ} → ℕ → List ℕ → A × List ℕ → Type 0
LeavesUpTo n bs x = length x.1 + n ≤ length bs

read_le-Yields : (w : ℕ) (bs : List ℕ) → w ≤ length bs → Yields (Leaves w bs) (read_le w bs)
unfolding read_le
read_le-Yields w bs h = rw (slice_fits w bs h) (omega (arith, h, length-drop w bs))

read_byte-Yields : (bs : List ℕ) → 1 ≤ length bs → Yields (Leaves 1 bs) (read_byte bs)
unfolding read_byte
read_byte-Yields [] h = absurd (omega arith)
read_byte-Yields (b ∷ bs) h = omega arith

sized-Yields :
    (n : ℕ) (bs : List ℕ)
    → length bs < 2 ^ 32
    → Yields (LeavesUpTo 0 bs) (sized malformed_message n bs)
unfolding sized
sized-Yields n bs h = elim (Bool-cases (ltb (length bs % 2 ^ 32) n)) [
  | inl e ↦ rw e refl
  | inr e ↦ rw e (rw (slice_fits n bs (ground arith)) (omega (arith, length-drop n bs)))
]

read_block-Yields :
    (bs : List ℕ)
    → 4 ≤ length bs
    → length bs < 2 ^ 32
    → Yields (LeavesUpTo 4 bs) (read_block malformed_message bs)
unfolding read_block
read_block-Yields bs h small = Yields->>= _ (read_le 4 bs) _ (read_le-Yields 4 bs h) (λ x left.
    Yields-weaken _ (sized malformed_message x.0 x.1) (sized-Yields x.0 x.1 (omega (arith, left)))
      (λ y up. omega (arith, up, left)))

decode_entry-Yields :
    (bs : List ℕ) → length bs < 2 ^ 32 → Yields (LeavesUpTo 20 bs) (decode_entry bs)
unfolding decode_entry
decode_entry-Yields bs small = elim (Bool-cases (ltb (length bs) 20)) [
  | inl e ↦ rw e refl
  | inr e ↦ rw e (
      Yields->>= _ (read_le 8 bs) _ (read_le-Yields 8 bs (ground arith)) (λ x l.
        Yields->>= _ (read_le 8 x.1) _ (read_le-Yields 8 x.1 (ground arith)) (λ y m.
          Yields->>= _ (read_block malformed_message y.1) _
            (read_block-Yields y.1 (ground arith) (omega (arith, l, m)))
            (λ z up. omega (arith, l, m, up)))))
]

decode_entries-Yields :
    (n : ℕ) (bs : List ℕ) → length bs < 2 ^ 32 → Yields (LeavesUpTo 0 bs) (decode_entries n bs)
unfolding decode_entries
decode_entries-Yields zero bs small = omega arith
decode_entries-Yields (suc n) bs small =
    Yields->>= _ (decode_entry bs) _ (decode_entry-Yields bs small) (λ x l.
      Yields->>= _ (decode_entries n x.1) _ (decode_entries-Yields n x.1 (omega (arith, l)))
        (λ y m. omega (arith, l, m)))

decode_counted-Yields :
    (n : ℕ) (bs : List ℕ) → length bs < 2 ^ 32 → Yields (LeavesUpTo 0 bs) (decode_counted n bs)
unfolding decode_counted
decode_counted-Yields n bs small = elim (Bool-cases (ltb (length bs % 2 ^ 32 / 20) n)) [
  | inl e ↦ rw e refl
  | inr e ↦ rw e (decode_entries-Yields n bs small)
]

decode_snapshot-Yields :
    (bs : List ℕ) → length bs < 2 ^ 32 → Yields (λ _. Unit) (decode_snapshot bs)
unfolding decode_snapshot
decode_snapshot-Yields bs small = elim (Bool-cases (ltb (length bs) 20)) [
  | inl e ↦ rw e refl
  | inr e ↦ rw e (
      Yields->>= _ (read_le 8 bs) _ (read_le-Yields 8 bs (ground arith)) (λ x l.
        Yields->>= _ (read_le 8 x.1) _ (read_le-Yields 8 x.1 (ground arith)) (λ y m.
          Yields->>= _ (read_block malformed_message y.1) _
            (read_block-Yields y.1 (ground arith) (omega (arith, l, m))) (λ z up. tt))))
]

decode_tail-Yields :
    (m : Message) (bs : List ℕ) → length bs < 2 ^ 32 → Yields (λ _. Unit) (decode_tail m bs)
unfolding decode_tail
decode_tail-Yields m bs small = elim (Bool-cases (ltb (length bs) 25)) [
  | inl e ↦ rw e refl
  | inr e ↦ rw e (
      Yields->>= _ (read_le 8 bs) _ (read_le-Yields 8 bs (ground arith)) (λ a h.
        Yields->>= _ (read_byte a.1) _ (read_byte-Yields a.1 (ground arith)) (λ b i.
          Yields->>= _ (read_le 8 b.1) _ (read_le-Yields 8 b.1 (ground arith)) (λ c j.
            Yields->>= _ (read_le 8 c.1) _ (read_le-Yields 8 c.1 (ground arith)) (λ d k.
              Yields->>= _ (decode_snapshot d.1) _
                (decode_snapshot-Yields d.1 (omega (arith, h, i, j, k))) (λ s _. tt))))))
]

decode_message-Yields : (bs : List ℕ) → length bs < 2 ^ 32 → Yields (λ _. Unit) (decode_message bs)
unfolding decode_message
decode_message-Yields bs small = elim (Bool-cases (ltb (length bs) 107)) [
  | inl e ↦ rw e refl
  | inr e ↦ rw e (
      Yields->>= _ (read_byte bs) _ (read_byte-Yields bs (ground arith)) (λ a h1.
        Yields->>= _ (read_le 8 a.1) _ (read_le-Yields 8 a.1 (ground arith)) (λ b h2.
          Yields->>= _ (read_le 8 b.1) _ (read_le-Yields 8 b.1 (ground arith)) (λ c h3.
            Yields->>= _ (read_le 8 c.1) _ (read_le-Yields 8 c.1 (ground arith)) (λ d h4.
              Yields->>= _ (read_le 8 d.1) _ (read_le-Yields 8 d.1 (ground arith)) (λ f h5.
                Yields->>= _ (read_le 8 f.1) _ (read_le-Yields 8 f.1 (ground arith)) (λ g h6.
                  Yields->>= _ (read_byte g.1) _ (read_byte-Yields g.1 (ground arith)) (λ i h7.
                    Yields->>= _ (read_le 8 i.1) _ (read_le-Yields 8 i.1 (ground arith)) (λ j h8.
                      Yields->>= _ (read_le 8 j.1) _ (read_le-Yields 8 j.1 (ground arith)) (λ k h9.
                        Yields->>= _ (read_le 4 k.1) _ (read_le-Yields 4 k.1 (ground arith))
                          (λ n h10.
                            Yields->>= _ (decode_counted n.0 n.1) _
                              (decode_counted-Yields n.0 n.1 (ground arith))
                              (λ es h11. decode_tail-Yields _ es.1 (ground arith)))))))))))))
]

-- Whatever bytes arrive, fewer than 2 ^ 32 of them, decoding returns a message or the error of a
-- malformed message. It never panics.
pub decode_message-Answers : (bs : List ℕ) → length bs < 2 ^ 32 → Answers (decode_message bs)
decode_message-Answers bs small =
    Answers-Yields (λ _. Unit) (decode_message bs) (decode_message-Yields bs small)
