-- ===== src/SsTable/Block.antt =====
-- sstable/block.go: entryType, decodedEntry, encodeEntry, decodeEntry, indexEntry, encodeIndex and
-- decodeIndex.
pub mod RoundTrip
use key_value_store.Prelude.{
  ℕ, zero, suc, List, [], ◌∷◌, ◌++◌, Bool, true, false, ◌==◌, Option, none, some, length, ltb,
  if◌then◌else◌, Error, Outcome, ok, err, stuck, ◌>>=◌, corrupt_entry, corrupt_index,
}
use key_value_store.Bytes.{le, read_le, read_byte, slice}
use key_value_store.SsTable.Varint.{uvarint, read_uvarint}

-- entryPut and entryDelete.
abbrev pub entry_put : ℕ
entry_put = 0

abbrev pub entry_delete : ℕ
entry_delete = 1

pub record DecodedEntry : Type 0 where
  pub key : List ℕ
  pub value : List ℕ
  pub seq : ℕ  -- uint64
  pub deleted : Bool

unfoldable pub encode_entry : DecodedEntry → List ℕ
encode_entry e =
    uvarint (length e.key)
    ++ (e.key
        ++ ((if e.deleted then entry_delete else entry_put)
            ∷ (uvarint e.seq ++ (uvarint (length e.value) ++ e.value))))

-- A number, or an error where there is none.
abbrev pub or_error : Error → Option (ℕ × List ℕ) → Outcome (ℕ × List ℕ)
or_error e none = err e
or_error e (some found) = ok found

unfoldable pub read_number : Error → List ℕ → Outcome (ℕ × List ℕ)
read_number e bs = or_error e (read_uvarint bs)

-- As many bytes as a number says, or an error where there are fewer.
unfoldable pub read_bytes : Error → ℕ → List ℕ → Outcome (List ℕ × List ℕ)
read_bytes e n rest = if ltb (length rest) n then err e else slice n rest

-- The byte at an offset, or an error at the end.
unfoldable pub read_type : List ℕ → Outcome (ℕ × List ℕ)
read_type [] = err corrupt_entry
read_type (b ∷ bs) = ok (b, bs)

-- The entry at the start, and what follows it. In the code an offset stands for what follows.
unfoldable pub decode_entry : List ℕ → Outcome (DecodedEntry × List ℕ)
decode_entry bytes = do
  (key_len, rest) ← read_number corrupt_entry bytes
  (key, rest) ← read_bytes corrupt_entry key_len rest
  (type, rest) ← read_type rest
  (seq, rest) ← read_number corrupt_entry rest
  (val_len, rest) ← read_number corrupt_entry rest
  (value, rest) ← read_bytes corrupt_entry val_len rest
  ok (record { key = key; value = value; seq = seq; deleted = type == entry_delete }, rest)

-- The loop over the entries of a block, which Reader.Get and Iterator.loadBlock have. An entry
-- takes bytes.
unfoldable pub decode_block : ℕ → List ℕ → Outcome (List DecodedEntry)
decode_block zero bytes = stuck
decode_block (suc fuel) [] = ok []
decode_block (suc fuel) (b ∷ bs) = do
  (e, rest) ← decode_entry (b ∷ bs)
  entries ← decode_block fuel rest
  ok (e ∷ entries)

pub record IndexEntry : Type 0 where
  pub last_key : List ℕ
  pub offset : ℕ  -- uint64
  pub length : ℕ  -- uint64

unfoldable pub encode_index : List IndexEntry → List ℕ
encode_index [] = []
encode_index (e ∷ es) =
    uvarint (length e.last_key)
    ++ (e.last_key ++ (le 8 e.offset ++ (le 8 e.length ++ encode_index es)))

-- The two numbers behind a key.
unfoldable pub read_extent : List ℕ → Outcome (ℕ × ℕ × List ℕ)
read_extent rest = if ltb (length rest) 16 then err corrupt_index else do
  (offset, rest) ← read_le 8 rest
  (length, rest) ← read_le 8 rest
  ok (offset, length, rest)

unfoldable pub decode_entries : ℕ → List ℕ → Outcome (List IndexEntry)
decode_entries zero bytes = stuck
decode_entries (suc fuel) [] = ok []
decode_entries (suc fuel) (b ∷ bs) = do
  (key_len, rest) ← read_number corrupt_index (b ∷ bs)
  (key, rest) ← read_bytes corrupt_index key_len rest
  (offset, length, rest) ← read_extent rest
  entries ← decode_entries fuel rest
  ok (record { last_key = key; offset = offset; length = length } ∷ entries)

unfoldable pub decode_index : List ℕ → Outcome (List IndexEntry)
decode_index bytes = decode_entries (suc (length bytes)) bytes
