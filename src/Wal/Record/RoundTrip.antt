-- ===== src/Wal/Record/RoundTrip.antt =====
-- Decoding a payload: the round trip, and no panic.
use native.Mathlib.Nat.{mod-eq_of_lt}
use key_value_store.Prelude.{
  ◌+◌, ◌^◌, ◌<◌, ◌≡◌, ◌++◌, arith, length, length-append, le→ltb, ok, corrupt_record,
}
use key_value_store.Bytes.{
  block, read_byte, read_block, length-le, length-block, read_le-le, read_block-block,
  read_block-block_all,
}
use key_value_store.Wal.Record.{Record, payload, decode_value, decode_payload}

-- The values that the fields of a record can have, and that the frame can carry.
pub record Fits (r : Record) : Type 0 where
  pub type : r.type < 256
  pub seq_num : r.seq_num < 2 ^ 64
  pub lengths : 17 + length r.key + length r.value < 2 ^ 32

pub length-payload : (r : Record) → length (payload r) ≡ 17 + length r.key + length r.value
unfolding payload
length-payload r = simp (length-append, length-le, length-block) (omega arith)

decode_value-Fits :
    (r : Record) → Fits r → decode_value r.type r.seq_num r.key (block r.value) ≡ ok r
unfolding decode_value
decode_value-Fits r h =
    rw (le→ltb (length (block r.value)) 4 (omega (arith, length-block r.value)))
      (simp (read_block-block_all corrupt_record r.value (omega (arith, h.lengths))))

-- A payload decodes to the record that it was written from, where every field fits its width.
pub decode_payload-payload : (r : Record) → Fits r → decode_payload (payload r) ≡ ok r
unfolding decode_payload
decode_payload-payload r h = rw (le→ltb (length (payload r)) 13 (omega (arith, length-payload r))) (
    unfold payload read_byte in
    simp (mod-eq_of_lt h.type, read_le-le, mod-eq_of_lt h.seq_num, key, decode_value-Fits r h))
  where
    key : read_block corrupt_record (block r.key ++ block r.value) ≡ ok (r.key, block r.value)
    key =
        read_block-block corrupt_record r.key (block r.value)
          (rw length-block (omega (arith, h.lengths)))
