-- ===== src/SsTable/Bloom/Bits.antt =====
-- sstable/bloom.go: a bit that is set stays set, whatever other bits are.
use Prim.Native.Nat.{bit_and, bit_or}
use key_value_store.Prelude.{
  false, if◌then◌else◌, ◌≤◌, Bool-cases, inl, inr, ℕ, zero, suc, ◌+◌, ◌/◌, ◌%◌, ◌^◌, ◌<◌, ◌≡◌, refl,
  sym, ap, ◌∙◌, List, [], ◌∷◌, Bool, true, not, ◌&&◌, ◌||◌, ◌==◌, All, arith, length, ltb, ok,
  ok-injective, ◌>>=◌,
}
use key_value_store.SsTable.Bloom.{or_byte, byte_at, set_bit, test_bit, set_bits, test_bits}

-- A test of the numbers from a start on, for a count of them.
passes : (ℕ → Bool) → ℕ → ℕ → Bool
passes test start zero = true
passes test start (suc count) = if test start then passes test (start + 1) count else false

-- Those that were tested pass.
module _ (test : ℕ → Bool) where
  passes_lem :
      (start count v : ℕ)
      → start ≤ v
      → v < start + count
      → passes test start count ≡ true
      → test v ≡ true
  unfolding passes
  passes_lem start zero v low high h = absurd (omega arith)
  passes_lem start (suc count) v low high h = elim (Bool-cases (test start)) [
    | inl e ↦ elim (Bool-cases (start == v)) [
      | inl here ↦ rw (Equal start v here) at e
      | inr away ↦ passes_lem (start + 1) count v (ground arith) (omega arith) (sym (rw e refl) ∙ h)
    ]
    | inr e ↦ absurd (cc (h, e))
  ]
    where
      Equal : (a b : ℕ) → (a == b) ≡ true → a ≡ b
      Equal a b e = ground arith

abbrev has : ℕ → ℕ → Bool
has b i = not (bit_and b (2 ^ i) == 0)

-- A byte with a bit added: it is a byte, has that bit, and has the bits that it had.
abbrev byte_test : ℕ → ℕ → ℕ → Bool
byte_test b i j = let c = bit_or b (2 ^ i) in ltb c 256 && (has c i && (not (has b j) || has c j))

byte_table : passes (λ b. passes (λ i. passes (byte_test b i) 0 8) 0 8) 0 256 ≡ true
unfolding passes
byte_table = refl

byte_lem : (b i j : ℕ) → b < 256 → i < 8 → j < 8 → byte_test b i j ≡ true
byte_lem b i j hb hi hj =
    let of_byte =
      passes_lem (λ b. passes (λ i. passes (byte_test b i) 0 8) 0 8) 0 256 b (omega arith) hb
        byte_table in
    let of_bit = passes_lem (λ i. passes (byte_test b i) 0 8) 0 8 i (omega arith) hi of_byte in
    passes_lem (byte_test b i) 0 8 j (omega arith) hj of_bit

abbrev pub Bytes : List ℕ → Type 0
Bytes bits = All (λ b. b < 256) bits

-- The bit of a position is set.
abbrev pub IsOn : ℕ → List ℕ → Type 0
IsOn idx bits = test_bit idx bits ≡ ok true

-- A bit of a byte at an index.
abbrev HasAt : ℕ → ℕ → List ℕ → Type 0
HasAt i j bits = (byte_at i bits >>= λ b. ok (has b j)) ≡ ok true

-- What setting a bit does to the bytes.
abbrev Sets : ℕ → ℕ → List ℕ → List ℕ → Type 0
Sets i j bits bits' =
    (length bits' ≡ length bits)
    × Bytes bits'
    × HasAt i j bits'
    × ((n k : ℕ) → k < 8 → HasAt n k bits → HasAt n k bits')

has_before : (b i j : ℕ) → byte_test b i j ≡ true → has b j ≡ true → has (bit_or b (2 ^ i)) j ≡ true
has_before b i j t h = ground (arith, t, h)

or_byte_lem :
    (i j : ℕ) (bits : List ℕ)
    → i < length bits
    → j < 8
    → Bytes bits
    → (bits' : List ℕ) × (or_byte i (2 ^ j) bits ≡ ok bits') × Sets i j bits bits'
unfolding or_byte byte_at
or_byte_lem i j [] h k bytes = absurd (omega arith)
or_byte_lem zero j (b ∷ bs) h k bytes =
    let own = byte_lem b j j bytes.0 k k in
    let is_byte : bit_or b (2 ^ j) < 256 = ground (arith, own) in
    let set : has (bit_or b (2 ^ j)) j ≡ true = ground (arith, own) in
    (bit_or b (2 ^ j) ∷ bs, refl, (refl, (is_byte, bytes.1), ap ok set, λ n. kept n))
  where
    kept : (n k' : ℕ) → k' < 8 → HasAt n k' (b ∷ bs) → HasAt n k' (bit_or b (2 ^ j) ∷ bs)
    kept zero k' l at = ap ok (has_before b j k' (byte_lem b j k' bytes.0 k l) (ok-injective at))
    kept (suc n) k' l at = at
or_byte_lem (suc i) j (b ∷ bs) h k bytes =
    let (bs', e, (same, bytes', set, kept)) = or_byte_lem i j bs (omega arith) k bytes.1 in
    (b ∷ bs', rw e refl, (ap suc same, (bytes.0, bytes'), set, later bs' kept))
  where
    later :
        (bs' : List ℕ)
        → ((n k : ℕ) → k < 8 → HasAt n k bs → HasAt n k bs')
        → (n k : ℕ) → k < 8
        → HasAt n k (b ∷ bs)
        → HasAt n k (b ∷ bs')
    later bs' kept zero k l at = at
    later bs' kept (suc n) k l at = kept n k l at

-- Setting the bit of a position that is in range.
pub set_bit_lem :
    (idx : ℕ) (bits : List ℕ)
    → idx / 8 < length bits
    → Bytes bits
    → (bits' : List ℕ) × (set_bit idx bits ≡ ok bits')
      × (length bits' ≡ length bits)
      × Bytes bits'
      × IsOn idx bits'
      × ((n : ℕ) → IsOn n bits → IsOn n bits')
unfolding set_bit test_bit
set_bit_lem idx bits h bytes =
    let (bits', e, (same, bytes', set, kept)) =
      or_byte_lem (idx / 8) (idx % 8) bits h (omega arith) bytes in
    (bits', e, same, bytes', set, λ n at. kept (n / 8) (n % 8) (omega arith) at)

module _ (probe : ℕ → ℕ) where
  -- The probes that are left, from a number on, are set.
  abbrev pub AllOn : ℕ → ℕ → List ℕ → Type 0
  AllOn zero i bits = Unit {0}
  AllOn (suc left) i bits = IsOn (probe i) bits × AllOn left (i + 1) bits

  pub AllOn-mono :
      (left i : ℕ) (bits bits' : List ℕ)
      → ((n : ℕ) → IsOn n bits → IsOn n bits')
      → AllOn left i bits
      → AllOn left i bits'
  AllOn-mono zero i bits bits' f h = tt
  AllOn-mono (suc left) i bits bits' f h =
      (f (probe i) h.0, AllOn-mono left (i + 1) bits bits' f h.1)

  pub test_bits_lem :
      (left i : ℕ) (bits : List ℕ) → AllOn left i bits → test_bits probe left i bits ≡ ok true
  unfolding test_bits
  test_bits_lem zero i bits h = refl
  test_bits_lem (suc left) i bits h = rw h.0 (test_bits_lem left (i + 1) bits h.1)

  pub set_bits_lem :
      (m : ℕ) (left i : ℕ) (bits : List ℕ)
      → ((i : ℕ) → probe i < m)
      → (m + 7) / 8 ≡ length bits
      → Bytes bits
      → (bits' : List ℕ) × (set_bits probe left i bits ≡ ok bits')
        × (length bits' ≡ length bits)
        × Bytes bits'
        × AllOn left i bits'
        × ((n : ℕ) → IsOn n bits → IsOn n bits')
  unfolding set_bits
  set_bits_lem m zero i bits low h bytes = (bits, refl, refl, bytes, tt, λ n at. at)
  set_bits_lem m (suc left) i bits low h bytes =
      let (bits1, e1, same1, bytes1, set1, kept1) =
        set_bit_lem (probe i) bits (omega (arith, low i, h)) bytes in
      let (bits2, e2, same2, bytes2, set2, kept2) =
        set_bits_lem m left (i + 1) bits1 low (h ∙ sym same1) bytes1 in
      (
        bits2,
        rw e1 e2,
        same2 ∙ same1,
        bytes2,
        (kept2 (probe i) set1, set2),
        λ n at. kept2 n (kept1 n at),
      )
