-- ===== src/SsTable/Bloom.antt =====
-- sstable/bloom.go: the Bloom filter of a table.
pub mod Bits
pub mod Laws
use Prim.Native.Nat.{bit_and, bit_or, bit_xor}
use key_value_store.Prelude.{
  ℕ, zero, suc, ◌+◌, ◌*◌, ◌/◌, ◌%◌, ◌^◌, List, [], ◌∷◌, ◌++◌, Bool, true, false, not, ◌==◌, length,
  ltb, max, min, if◌then◌else◌, Outcome, ok, err, panic, ◌>>=◌, corrupt_bloom,
}
use key_value_store.Bytes.{le, read_le}

pub record BloomFilter : Type 0 where
  pub m : ℕ  -- uint64
  pub k : ℕ
  pub bits : List ℕ

-- What the formulas over floating-point numbers give, before they are cut to their ranges: the
-- number of bits for some keys, and of hashes for some bits and keys.
pub record Sizing : Type 0 where
  pub bits_for : ℕ → ℕ
  pub hashes_for : ℕ → ℕ → ℕ

unfoldable pub bloom_params : Sizing → ℕ → ℕ × ℕ
bloom_params s zero = (0, 0)
bloom_params s (suc n) =
    let m = max 8 (s.bits_for (suc n)) in (m, min 30 (max 1 (s.hashes_for m (suc n))))

unfoldable pub zeros : ℕ → List ℕ
zeros zero = []
zeros (suc n) = 0 ∷ zeros n

unfoldable pub new_bloom_filter : Sizing → ℕ → BloomFilter
new_bloom_filter s n =
    let (m, k) = bloom_params s n in record { m = m; k = k; bits = zeros ((m + 7) % 2 ^ 64 / 8) }

-- hash/fnv's New64a, Write and Sum64.
unfoldable pub fnv64a : ℕ → List ℕ → ℕ
fnv64a h [] = h
fnv64a h (b ∷ bs) = fnv64a (bit_xor h b * 1099511628211 % 2 ^ 64) bs

unfoldable pub splitmix64 : ℕ → ℕ
splitmix64 v =
    let a = (v + 0x9E3779B97F4A7C15) % 2 ^ 64 in
    let b = bit_xor a (a / 2 ^ 30) * 0xBF58476D1CE4E5B9 % 2 ^ 64 in
    let c = bit_xor b (b / 2 ^ 27) * 0x94D049BB133111EB % 2 ^ 64 in bit_xor c (c / 2 ^ 31)

unfoldable pub bloom_hashes : List ℕ → ℕ × ℕ
bloom_hashes key = let h = fnv64a 14695981039346656037 key in (h, splitmix64 h)

-- The position of a probe.
unfoldable pub probe : List ℕ → ℕ → ℕ → ℕ
probe key m i = let (h1, h2) = bloom_hashes key in (h1 + i * h2 % 2 ^ 64) % 2 ^ 64 % m

-- `bits[i] |= v`, and `bits[i]`. An index past the end panics.
unfoldable pub or_byte : ℕ → ℕ → List ℕ → Outcome (List ℕ)
or_byte i v [] = panic
or_byte zero v (b ∷ bs) = ok (bit_or b v ∷ bs)
or_byte (suc i) v (b ∷ bs) = do rest ← or_byte i v bs; ok (b ∷ rest)

unfoldable pub byte_at : ℕ → List ℕ → Outcome ℕ
byte_at i [] = panic
byte_at zero (b ∷ bs) = ok b
byte_at (suc i) (b ∷ bs) = byte_at i bs

unfoldable pub set_bit : ℕ → List ℕ → Outcome (List ℕ)
set_bit idx bits = or_byte (idx / 8) (2 ^ (idx % 8)) bits

unfoldable pub test_bit : ℕ → List ℕ → Outcome Bool
test_bit idx bits = do b ← byte_at (idx / 8) bits; ok (not (bit_and b (2 ^ (idx % 8)) == 0))

-- The loops over the probes that are left, from a number on.
unfoldable pub set_bits : (ℕ → ℕ) → ℕ → ℕ → List ℕ → Outcome (List ℕ)
set_bits probe zero i bits = ok bits
set_bits probe (suc left) i bits = do
  bits ← set_bit (probe i) bits
  set_bits probe left (i + 1) bits

unfoldable pub test_bits : (ℕ → ℕ) → ℕ → ℕ → List ℕ → Outcome Bool
test_bits probe zero i bits = ok true
test_bits probe (suc left) i bits =
    let rest = test_bits probe left (i + 1) bits in
    test_bit (probe i) bits >>= λ found. if found then rest else ok false

unfoldable pub add : List ℕ → BloomFilter → Outcome BloomFilter
add key f =
    if f.m == 0
    then ok f
    else do bits ← set_bits (probe key f.m) f.k 0 f.bits; ok (record f { bits = bits })

unfoldable pub may_contain : List ℕ → BloomFilter → Outcome Bool
may_contain key f = if f.m == 0 then ok true else test_bits (probe key f.m) f.k 0 f.bits

unfoldable pub encode : BloomFilter → List ℕ
encode f = le 4 f.k ++ (le 8 f.m ++ f.bits)

abbrev pub checked : ℕ → ℕ → List ℕ → Outcome BloomFilter
checked k m bits =
    if length bits == (m + 7) % 2 ^ 64 / 8
    then ok (record { m = m; k = k; bits = bits })
    else err corrupt_bloom

unfoldable pub decode_bloom_filter : List ℕ → Outcome BloomFilter
decode_bloom_filter bytes =
    if ltb (length bytes) 12
    then err corrupt_bloom
    else do (k, rest) ← read_le 4 bytes; (m, bits) ← read_le 8 rest; checked k m bits
