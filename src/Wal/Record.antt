-- ===== src/Wal/Record.antt =====
-- wal/record.go: a record, its payload and its frame.
pub mod RoundTrip
use key_value_store.Prelude.{
  ℕ, ◌+◌, ◌%◌, ◌^◌, List, [], ◌∷◌, ◌++◌, length, ltb, if◌then◌else◌, Outcome, ok, err, panic,
  corrupt_record, ◌>>=◌,
}
use key_value_store.Bytes.{le, block, read_byte, read_le, read_block}
use key_value_store.Wal.Checksum.{checksum}

-- RecordType is a byte: 0 is RecordPut, 1 is RecordDelete.
abbrev pub record_put : ℕ
record_put = 0

abbrev pub record_delete : ℕ
record_delete = 1

pub record Record : Type 0 where
  pub type : ℕ  -- uint8
  pub seq_num : ℕ  -- uint64
  pub key : List ℕ
  pub value : List ℕ

abbrev pub header_size : ℕ
header_size = 8

-- The bytes that `encode` writes after the header.
unfoldable pub payload : Record → List ℕ
payload r = (r.type % 256) ∷ (le 8 r.seq_num ++ (block r.key ++ block r.value))

-- The two lengths go through uint32.
unfoldable pub encode : Record → List ℕ
encode r = le 4 (checksum (payload r)) ++ (le 4 (length (payload r)) ++ payload r)

unfoldable pub decode_value : ℕ → ℕ → List ℕ → List ℕ → Outcome Record
decode_value t s key rest = if ltb (length rest) 4 then err corrupt_record else do
  (value, rest) ← read_block corrupt_record rest
  ok (record { type = t; seq_num = s; key = key; value = value })

unfoldable pub decode_payload : List ℕ → Outcome Record
decode_payload bytes = if ltb (length bytes) 13 then err corrupt_record else do
  (t, rest) ← read_byte bytes
  (s, rest) ← read_le 8 rest
  (key, rest) ← read_block corrupt_record rest
  decode_value t s key rest
