-- ===== src/Examples/Tables.antt =====
-- Examples of the theorems on the tables and the cache of blocks.
use mathlib.Core.Path.{subst}
use key_value_store.Prelude.{
  ok-injective, sym, ◌∙◌, ℕ, ◌*◌, ◌>>=◌, All, ◌≡◌, ◌⊎◌, refl, List, [], ◌∷◌, true, false, none,
  some, arith, length, suc, ok, if◌then◌else◌,
}
use key_value_store.SsTable.Block.{DecodedEntry, decode_block}
use key_value_store.SsTable.Block.RoundTrip.{encode_block, decode_block-encode_block}
use key_value_store.SsTable.Bloom.{
  BloomFilter, Sizing, bloom_params, zeros, new_bloom_filter, fnv64a, splitmix64, bloom_hashes,
  probe, or_byte, byte_at, set_bit, test_bit, set_bits, test_bits, add, may_contain, encode,
  decode_bloom_filter,
}
use key_value_store.SsTable.Bloom.Laws.{add_all, may_contain-add_all}
use key_value_store.SsTable.Cache.{
  CacheKey, same_key, BlockCache, new_block_cache, get, put, find_item, push_front, evict,
  add_block,
}
use key_value_store.SsTable.Cache.Laws.{WellFormed}
use key_value_store.SsTable.Cache.Behaviour.{put-WellFormed, put-get, new_block_cache-WellFormed}

-- A value, and the tombstone of another key, with a number that takes two groups.
abbrev entries : List DecodedEntry
entries =
    record { key = 97 ∷ []; value = 1 ∷ 2 ∷ []; seq = 300; deleted = false }
    ∷ (record { key = 98 ∷ []; value = []; seq = 5; deleted = true } ∷ [])

decode_block-encode_block_example :
    decode_block (suc (length (encode_block entries))) (encode_block entries) ≡ ok entries
decode_block-encode_block_example =
    decode_block-encode_block entries
      ((omega arith, omega arith, omega arith), ((omega arith, omega arith, omega arith), tt))

abbrev at : ℕ → CacheKey
at offset = record { file = 1; offset = offset }

abbrev empty : BlockCache
empty = new_block_cache 4

-- One block of three bytes.
abbrev one_block : BlockCache
one_block = record {
  max_bytes = 4;
  cur_bytes = 3;
  ll = record { id = 0; entry = record { key = at 0; bytes = 7 ∷ 8 ∷ 9 ∷ [] } } ∷ [];
  items = (at 0, 0) ∷ [];
  next_id = 1;
}

one_block-put : put (at 0) (7 ∷ 8 ∷ 9 ∷ []) empty ≡ ok one_block
unfolding put new_block_cache find_item add_block evict push_front
one_block-put = refl

one_block-WellFormed : WellFormed one_block
one_block-WellFormed =
    let (c, ended, wf) =
      put-WellFormed empty (at 0) (7 ∷ 8 ∷ 9 ∷ []) (new_block_cache-WellFormed 4) in
    subst (λ c. WellFormed c) (ok-injective (sym ended ∙ one_block-put)) wf

put-WellFormed_example :
    (c : BlockCache) × (put (at 10) (1 ∷ 2 ∷ []) one_block ≡ ok c) × WellFormed c
put-WellFormed_example = put-WellFormed one_block (at 10) (1 ∷ 2 ∷ []) one_block-WellFormed

absent : (get (at 10) one_block).1 ≡ none
unfolding get find_item same_key
absent = refl

-- The block that was there is evicted, since both do not fit.
put-get_example :
    (c : BlockCache) × (put (at 10) (1 ∷ 2 ∷ []) one_block ≡ ok c)
    × ((get (at 10) c).1 ≡ some (1 ∷ 2 ∷ []))
    × ((k : CacheKey)
        → ((get k c).1 ≡ none)
          ⊎ ((get k c).1 ≡ (if same_key (at 10) k then some (1 ∷ 2 ∷ []) else (get k one_block).1)))
put-get_example =
    put-get one_block (at 10) (1 ∷ 2 ∷ []) one_block-WellFormed (omega arith) (omega arith) absent

-- Ten bits for a key, and seven hashes.
abbrev sizing : Sizing
sizing = record { bits_for = λ n. 10 * n; hashes_for = λ m n. 7 }

abbrev keys : List (List ℕ)
keys = (97 ∷ []) ∷ (98 ∷ 99 ∷ []) ∷ []

may_contain-add_all_example :
    (f : BloomFilter) × (add_all keys (new_bloom_filter sizing 2) ≡ ok f)
    × (decode_bloom_filter (encode f) ≡ ok f)
    × All (λ key. may_contain key f ≡ ok true) keys
may_contain-add_all_example = may_contain-add_all sizing keys (omega arith)

-- The filter of one key rules another out.
ruled_out : (do f ← add (97 ∷ []) (new_bloom_filter sizing 1); may_contain (98 ∷ []) f) ≡ ok false
unfolding add may_contain new_bloom_filter bloom_params zeros set_bits set_bit test_bits test_bit
    or_byte byte_at probe bloom_hashes fnv64a splitmix64
ruled_out = refl
