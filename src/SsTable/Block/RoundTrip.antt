-- ===== src/SsTable/Block/RoundTrip.antt =====
-- sstable/block.go: entries and indexes are read back as they were written.
use key_value_store.Prelude.{
  ℕ, zero, suc, ◌≤◌, ◌<◌, ◌^◌, ◌%◌, ◌≡◌, refl, ap, ◌∙◌, List, [], ◌∷◌, ◌++◌, All, arith, length,
  length-append, append_assoc, le→ltb, if◌then◌else◌, Bool, true, false, ok, ◌>>=◌, Error,
  corrupt_entry, corrupt_index, ◌==◌,
}
use key_value_store.Bytes.{le, read_le-le, slice-append, length-le}
use key_value_store.SsTable.Varint.{groups, uvarint, read_uvarint-uvarint}
use key_value_store.SsTable.Block.{
  entry_put, entry_delete, DecodedEntry, encode_entry, decode_entry, decode_block, read_number,
  or_error, read_bytes, read_type, IndexEntry, encode_index, decode_index, decode_entries,
  read_extent,
}

-- The fields fit their widths.
abbrev pub EntryFits : DecodedEntry → Type 0
EntryFits e = (length e.key < 2 ^ 64) × (e.seq < 2 ^ 64) × (length e.value < 2 ^ 64)

read_number-uvarint :
    (e : Error) (x : ℕ) (rest : List ℕ)
    → x < 2 ^ 64
    → read_number e (uvarint x ++ rest) ≡ ok (x, rest)
unfolding read_number
read_number-uvarint e x rest h = ap (or_error e) (read_uvarint-uvarint x rest h)

read_bytes-append :
    (e : Error) (bs rest : List ℕ) → read_bytes e (length bs) (bs ++ rest) ≡ ok (bs, rest)
unfolding read_bytes
read_bytes-append e bs rest =
    rw (le→ltb (length (bs ++ rest)) (length bs) (omega (arith, length-append bs rest)))
      (slice-append bs rest)

type_lem : (d : Bool) → ((if d then entry_delete else entry_put) == entry_delete) ≡ d
type_lem true = refl
type_lem false = refl

-- An entry is read back, and what follows it left, where its lengths and its sequence number are
-- below 2 ^ 64.
pub decode_entry-encode_entry :
    (key value : List ℕ) (seq : ℕ) (deleted : Bool) (rest : List ℕ)
    → let e : DecodedEntry = record { key = key; value = value; seq = seq; deleted = deleted } in
      EntryFits e → decode_entry (encode_entry e ++ rest) ≡ ok (e, rest)
unfolding decode_entry encode_entry read_type
decode_entry-encode_entry key value seq deleted rest (k, s, v) =
    let type = if deleted then entry_delete else entry_put in
    let tail = uvarint (length value) ++ (value ++ rest) in
    let after = uvarint seq ++ tail in
    simp (append_assoc) (
      simp
        (
          read_number-uvarint corrupt_entry (length key) (key ++ type ∷ after) k,
          read_bytes-append corrupt_entry key (type ∷ after),
          read_number-uvarint corrupt_entry seq tail s,
          read_number-uvarint corrupt_entry (length value) (value ++ rest) v,
          read_bytes-append corrupt_entry value rest,
        )
        (ap (λ d. ok (record { key = key; value = value; seq = seq; deleted = d }, rest))
          (type_lem deleted)))

-- A number takes a byte at least.
length-groups : (more x : ℕ) → 0 < length (groups more x)
unfolding groups
length-groups zero x = omega arith
length-groups (suc more) x = ground arith

length-uvarint : (x : ℕ) (rest : List ℕ) → length rest < length (uvarint x ++ rest)
unfolding uvarint
length-uvarint x rest = omega (arith, length-append (uvarint x) rest, length-groups 9 x)

-- The bytes of a block.
unfoldable pub encode_block : List DecodedEntry → List ℕ
encode_block [] = []
encode_block (e ∷ es) = encode_entry e ++ encode_block es

length-encode_block :
    (e : DecodedEntry) (es : List DecodedEntry)
    → length (encode_block es) < length (encode_block (e ∷ es))
unfolding encode_block encode_entry
length-encode_block e es = omega (
  arith,
  length-append (encode_entry e) (encode_block es),
  length-uvarint (length e.key) (
      e.key
      ++ ((if e.deleted then entry_delete else entry_put)
          ∷ (uvarint e.seq ++ (uvarint (length e.value) ++ e.value)))),
)

block_round :
    (fuel : ℕ) (bytes : List ℕ)
    → 0 < length bytes
    → decode_block (suc fuel) bytes
      ≡ (decode_entry bytes >>= λ x. decode_block fuel x.1 >>= λ es. ok (x.0 ∷ es))
unfolding decode_block
block_round fuel [] h = absurd (omega arith)
block_round fuel (b ∷ bs) h = refl

decode_block-within :
    (fuel : ℕ) (es : List DecodedEntry)
    → length (encode_block es) < fuel
    → All EntryFits es
    → decode_block fuel (encode_block es) ≡ ok es
unfolding decode_block
decode_block-within zero es f h = absurd (omega arith)
decode_block-within (suc fuel) [] f h = unfold encode_block in refl
decode_block-within (suc fuel) (e ∷ es) f h =
    let shorter = length-encode_block e es in
    let first : decode_entry (encode_block (e ∷ es)) ≡ ok (e, encode_block es) =
      unfold encode_block in
      decode_entry-encode_entry e.key e.value e.seq e.deleted (encode_block es) h.0 in
    block_round fuel (encode_block (e ∷ es)) (omega (arith, shorter))
    ∙ rw (first, decode_block-within fuel es (omega (arith, f, shorter)) h.1) refl

-- The entries of a block are read back, in order, where they fit their widths: as many rounds as the
-- block has bytes, and one more, are enough.
pub decode_block-encode_block :
    (es : List DecodedEntry)
    → All EntryFits es
    → decode_block (suc (length (encode_block es))) (encode_block es) ≡ ok es
decode_block-encode_block es h =
    decode_block-within (suc (length (encode_block es))) es (omega arith) h

-- The numbers of an entry of an index fit.
abbrev pub IndexFits : IndexEntry → Type 0
IndexFits e = (length e.last_key < 2 ^ 64) × (e.offset < 2 ^ 64) × (e.length < 2 ^ 64)

read_extent-le :
    (offset len : ℕ) (rest : List ℕ)
    → offset < 2 ^ 64
    → len < 2 ^ 64
    → read_extent (le 8 offset ++ (le 8 len ++ rest)) ≡ ok (offset, len, rest)
unfolding read_extent
read_extent-le offset len rest h k =
    let tail = le 8 len ++ rest in
    let enough : 16 ≤ length (le 8 offset ++ tail) = omega (
      arith,
      length-append (le 8 offset) tail,
      length-append (le 8 len) rest,
      length-le 8 offset,
      length-le 8 len,
    ) in
    rw (le→ltb (length (le 8 offset ++ tail)) 16 enough)
      (simp (read_le-le 8 offset tail, read_le-le 8 len rest, whole offset h, whole len k))
  where
    whole : (v : ℕ) → v < 2 ^ 64 → v % 256 ^ 8 ≡ v
    whole v h = omega (arith, h)

length-encode_index :
    (e : IndexEntry) (es : List IndexEntry)
    → length (encode_index es) < length (encode_index (e ∷ es))
unfolding encode_index
length-encode_index e es =
    let last = le 8 e.length ++ encode_index es in
    let tail = le 8 e.offset ++ last in
    omega (
      arith,
      length-uvarint (length e.last_key) (e.last_key ++ tail),
      length-append e.last_key tail,
      length-append (le 8 e.offset) last,
      length-append (le 8 e.length) (encode_index es),
    )

index_round :
    (fuel : ℕ) (bytes : List ℕ)
    → 0 < length bytes
    → decode_entries (suc fuel) bytes ≡ (
        read_number corrupt_index bytes >>= λ n. read_bytes corrupt_index n.0 n.1 >>= λ k.
        read_extent k.1 >>= λ x. decode_entries fuel x.2 >>= λ es.
        ok (record { last_key = k.0; offset = x.0; length = x.1 } ∷ es))
unfolding decode_entries
index_round fuel [] h = absurd (omega arith)
index_round fuel (b ∷ bs) h = refl

decode_entries-encode_index :
    (fuel : ℕ) (es : List IndexEntry)
    → length (encode_index es) < fuel
    → All IndexFits es
    → decode_entries fuel (encode_index es) ≡ ok es
unfolding decode_entries
decode_entries-encode_index zero es f h = absurd (omega arith)
decode_entries-encode_index (suc fuel) [] f h = unfold encode_index in refl
decode_entries-encode_index (suc fuel) (e ∷ es) f ((k, o, l), h) =
    let shorter = length-encode_index e es in
    let last = le 8 e.length ++ encode_index es in
    let tail = le 8 e.offset ++ last in
    let first : read_number corrupt_index (encode_index (e ∷ es))
        ≡ ok (length e.last_key, e.last_key ++ tail) =
      unfold encode_index in
      read_number-uvarint corrupt_index (length e.last_key) (e.last_key ++ tail) k in
    index_round fuel (encode_index (e ∷ es)) (omega (arith, shorter))
    ∙ rw
        (
          first,
          read_bytes-append corrupt_index e.last_key tail,
          read_extent-le e.offset e.length (encode_index es) o l,
          decode_entries-encode_index fuel es (omega (arith, f, shorter)) h,
        )
        refl

-- The index of a table is read back, in order, where the numbers in it are below 2 ^ 64.
pub decode_index-encode_index :
    (es : List IndexEntry) → All IndexFits es → decode_index (encode_index es) ≡ ok es
unfolding decode_index
decode_index-encode_index es h =
    decode_entries-encode_index (suc (length (encode_index es))) es (omega arith) h
