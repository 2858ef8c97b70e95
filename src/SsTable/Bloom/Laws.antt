-- ===== src/SsTable/Bloom/Laws.antt =====
-- sstable/bloom.go: a filter may contain every key that was added to it.
use native.Mathlib.Nat.{mod-lt}
use key_value_store.Prelude.{
  ℕ, zero, suc, ◌+◌, ◌/◌, ◌%◌, ◌^◌, ◌<◌, ◌≡◌, refl, sym, ap, ◌∙◌, List, [], ◌∷◌, ◌++◌, true, false,
  ◌==◌, All, All_mono, arith, length, length-append, ltb, le→ltb, max, Outcome, ok, ◌>>=◌,
}
use key_value_store.Bytes.{le, read_le, slice, read_le-le, length-le}
use key_value_store.SsTable.Bloom.{
  BloomFilter, Sizing, bloom_params, zeros, new_bloom_filter, probe, add, may_contain, encode,
  decode_bloom_filter,
}
use key_value_store.SsTable.Bloom.Bits.{Bytes, AllOn, AllOn-mono, test_bits_lem, set_bits_lem}

-- `for _, k := range w.keys { bf.add(k) }`, of the writer of a table.
unfoldable pub add_all : List (List ℕ) → BloomFilter → Outcome BloomFilter
add_all [] f = ok f
add_all (key ∷ keys) f = do f ← add key f; add_all keys f

-- A filter that has bits, as many as its number of bits needs.
pub record WellFormed (f : BloomFilter) : Type 0 where
  pub some_bits : 0 < f.m
  pub in_range : f.m + 7 < 2 ^ 64
  pub few_hashes : f.k < 2 ^ 32
  pub sized : (f.m + 7) / 8 ≡ length f.bits
  pub bytes : Bytes f.bits

abbrev Has : BloomFilter → List ℕ → Type 0
Has f key = AllOn (probe key f.m) f.k 0 f.bits

probe-lt : (key : List ℕ) (m i : ℕ) → 0 < m → probe key m i < m
unfolding probe
probe-lt key m i h = mod-lt _ h

may_contain_lem :
    (f : BloomFilter) (key : List ℕ) → WellFormed f → Has f key → may_contain key f ≡ ok true
unfolding may_contain
may_contain_lem f key wf h =
    let on : (f.m == 0) ≡ false = ground (arith, wf.some_bits) in
    rw on (test_bits_lem (probe key f.m) f.k 0 f.bits h)

-- A key is added, and what was there stays.
add_lem :
    (f : BloomFilter) (key : List ℕ)
    → WellFormed f
    → (f' : BloomFilter) × (add key f ≡ ok f')
      × WellFormed f'
      × Has f' key
      × ((k : List ℕ) → Has f k → Has f' k)
unfolding add
add_lem f key wf =
    let on : (f.m == 0) ≡ false = ground (arith, wf.some_bits) in
    let (bits, e, same, bytes, set, kept) =
      set_bits_lem (probe key f.m) f.m f.k 0 f.bits (λ i. probe-lt key f.m i wf.some_bits) wf.sized
        wf.bytes in
    (
      record f { bits = bits },
      rw (on, e) refl,
      record {
        some_bits = wf.some_bits;
        in_range = wf.in_range;
        few_hashes = wf.few_hashes;
        sized = wf.sized ∙ sym same;
        bytes = bytes;
      },
      set,
      λ k h. AllOn-mono (probe k f.m) f.k 0 f.bits bits kept h,
    )

add_all_lem :
    (keys : List (List ℕ)) (f : BloomFilter)
    → WellFormed f
    → (f' : BloomFilter) × (add_all keys f ≡ ok f')
      × WellFormed f'
      × All (Has f') keys
      × ((k : List ℕ) → Has f k → Has f' k)
unfolding add_all
add_all_lem [] f wf = (f, refl, wf, tt, λ k h. h)
add_all_lem (key ∷ keys) f wf =
    let (f1, e1, wf1, has1, kept1) = add_lem f key wf in
    let (f2, e2, wf2, has2, kept2) = add_all_lem keys f1 wf1 in
    (f2, rw e1 e2, wf2, (kept2 key has1, has2), λ k h. kept2 k (kept1 k h))

length-zeros : (n : ℕ) → length (zeros n) ≡ n
unfolding zeros
length-zeros zero = refl
length-zeros (suc n) = ap suc (length-zeros n)

Bytes-zeros : (n : ℕ) → Bytes (zeros n)
unfolding zeros
Bytes-zeros zero = tt
Bytes-zeros (suc n) = (omega arith, Bytes-zeros n)

new_bloom_filter-WellFormed :
    (s : Sizing) (n : ℕ) → 0 < n → s.bits_for n + 15 < 2 ^ 64 → WellFormed (new_bloom_filter s n)
unfolding new_bloom_filter bloom_params
new_bloom_filter-WellFormed s zero h r = absurd (omega arith)
new_bloom_filter-WellFormed s (suc n) h r =
    let m = max 8 (s.bits_for (suc n)) in
    let bytes = (m + 7) % 2 ^ 64 / 8 in
    record {
      some_bits = omega arith;
      in_range = omega (arith, r);
      few_hashes = omega arith;
      sized = omega (arith, length-zeros bytes, r);
      bytes = Bytes-zeros bytes;
    }

-- A filter is read back as it was written.
decode_bloom_filter-encode :
    (f : BloomFilter) → WellFormed f → decode_bloom_filter (encode f) ≡ ok f
unfolding decode_bloom_filter encode
decode_bloom_filter-encode f wf =
    let bytes = le 4 f.k ++ (le 8 f.m ++ f.bits) in
    let enough : ltb (length bytes) 12 ≡ false = le→ltb (length bytes) 12 (
      omega (
        arith,
        length-append (le 4 f.k) (le 8 f.m ++ f.bits),
        length-append (le 8 f.m) f.bits,
        length-le 4 f.k,
        length-le 8 f.m,
      )) in
    let k : f.k % 256 ^ 4 ≡ f.k = omega (arith, wf.few_hashes) in
    let m : f.m % 256 ^ 8 ≡ f.m = omega (arith, wf.in_range) in
    let sized : (length f.bits == (f.m + 7) % 2 ^ 64 / 8) ≡ true =
      ground (arith, wf.sized, wf.in_range) in
    rw enough
      (simp (read_le-le 4 f.k (le 8 f.m ++ f.bits), k, read_le-le 8 f.m f.bits, m, sized) refl)

-- The filter of no keys has no bits.
empty_lem :
    (s : Sizing) → decode_bloom_filter (encode (new_bloom_filter s 0)) ≡ ok (new_bloom_filter s 0)
unfolding decode_bloom_filter encode new_bloom_filter bloom_params zeros le read_le slice
empty_lem s = refl

-- The filter of a table, which is made from all its keys: it is made without a panic, is read back as
-- it was written, and may contain each of the keys, where the number of bits that is asked for is
-- below 2 ^ 64 - 15.
pub may_contain-add_all :
    (s : Sizing) (keys : List (List ℕ))
    → s.bits_for (length keys) + 15 < 2 ^ 64
    → (f : BloomFilter) × (add_all keys (new_bloom_filter s (length keys)) ≡ ok f)
      × (decode_bloom_filter (encode f) ≡ ok f)
      × All (λ key. may_contain key f ≡ ok true) keys
unfolding add_all
may_contain-add_all s [] r = (new_bloom_filter s 0, refl, empty_lem s, tt)
may_contain-add_all s (key ∷ keys) r =
    let start = new_bloom_filter s (length (key ∷ keys)) in
    let (f, e, wf, has, kept) =
      add_all_lem (key ∷ keys) start
        (new_bloom_filter-WellFormed s (length (key ∷ keys)) (omega arith) r) in
    (
      f,
      e,
      decode_bloom_filter-encode f wf,
      All_mono (Has f) (λ key. may_contain key f ≡ ok true) (key ∷ keys)
          (λ k h. may_contain_lem f k wf h) has,
    )
