-- ===== src/Engine/Snapshot/Format.antt =====
-- engine/engine.go: the format of a snapshot is read back as it was written.
use key_value_store.Prelude.{
  ℕ, zero, suc, ◌+◌, ◌<◌, ◌^◌, ◌≡◌, refl, ◌∙◌, List, [], ◌∷◌, ◌++◌, arith, length, length-append,
  le→ltb, ok, ◌>>=◌, malformed_snapshot,
}
use key_value_store.Bytes.{block, length-block, read_block-block}
use key_value_store.Engine.Snapshot.{
  SnapshotEntry, write_len_prefixed, read_len_prefixed, decode_entries, decode_snapshot_entries,
}

-- The records of a snapshot.
unfoldable pub encode_entries : List SnapshotEntry → List ℕ
encode_entries [] = []
encode_entries (e ∷ es) =
    write_len_prefixed e.key ++ (write_len_prefixed e.value ++ encode_entries es)

read-write_len_prefixed :
    (bs rest : List ℕ)
    → length bs + length rest < 2 ^ 32
    → read_len_prefixed (write_len_prefixed bs ++ rest) ≡ ok (bs, rest)
unfolding read_len_prefixed write_len_prefixed
read-write_len_prefixed bs rest h =
    rw
      (le→ltb (length (block bs ++ rest)) 4
        (omega (arith, length-append (block bs) rest, length-block bs)))
      (read_block-block malformed_snapshot bs rest h)

length-write_len_prefixed : (bs : List ℕ) → length (write_len_prefixed bs) ≡ 4 + length bs
unfolding write_len_prefixed
length-write_len_prefixed bs = length-block bs

pub length-encode_entries :
    (e : SnapshotEntry) (es : List SnapshotEntry)
    → length (encode_entries (e ∷ es))
      ≡ (4 + length e.key) + ((4 + length e.value) + length (encode_entries es))
unfolding encode_entries
length-encode_entries e es = simp (length-append, length-write_len_prefixed)

-- A round of the loop, where bytes are left.
decode_round :
    (fuel : ℕ) (bytes : List ℕ)
    → 0 < length bytes
    → decode_entries (suc fuel) bytes ≡ (
        read_len_prefixed bytes >>= λ k. read_len_prefixed k.1 >>= λ v.
        decode_entries fuel v.1 >>= λ es. ok (record { key = k.0; value = v.0 } ∷ es))
unfolding decode_entries
decode_round fuel [] h = absurd (omega arith)
decode_round fuel (b ∷ bs) h = refl

decode_entries-encode_entries :
    (fuel : ℕ) (es : List SnapshotEntry)
    → length (encode_entries es) < fuel
    → length (encode_entries es) < 2 ^ 32
    → decode_entries fuel (encode_entries es) ≡ ok es
unfolding decode_entries
decode_entries-encode_entries zero es f h = absurd (omega arith)
decode_entries-encode_entries (suc fuel) [] f h = unfold encode_entries in refl
decode_entries-encode_entries (suc fuel) (e ∷ es) f h =
    let total = length-encode_entries e es in
    let tail = write_len_prefixed e.value ++ encode_entries es in
    let tail_length : length tail ≡ (4 + length e.value) + length (encode_entries es) = omega (
      arith,
      length-append (write_len_prefixed e.value) (encode_entries es),
      length-write_len_prefixed e.value,
    ) in
    let first : read_len_prefixed (encode_entries (e ∷ es)) ≡ ok (e.key, tail) =
      unfold encode_entries in
      read-write_len_prefixed e.key tail (omega (arith, h, total, tail_length)) in
    decode_round fuel (encode_entries (e ∷ es)) (omega (arith, total))
    ∙ rw
        (
          first,
          read-write_len_prefixed e.value (encode_entries es) (omega (arith, h, total)),
          decode_entries-encode_entries fuel es (omega (arith, f, total)) (omega (arith, h, total)),
        )
        refl

-- The entries of a snapshot are read back, in order, where it is shorter than 2 ^ 32 bytes.
pub decode_snapshot_entries-encode_entries :
    (es : List SnapshotEntry)
    → length (encode_entries es) < 2 ^ 32
    → decode_snapshot_entries (encode_entries es) ≡ ok es
unfolding decode_snapshot_entries
decode_snapshot_entries-encode_entries es h =
    decode_entries-encode_entries (suc (length (encode_entries es))) es (omega arith) h
