-- ===== src/Server/Command.antt =====
-- server/command.go: a client's operation as the data of a log entry.
use native.Mathlib.Nat.{mod-eq_of_lt}
use key_value_store.Prelude.{
  ℕ, ◌+◌, ◌%◌, ◌^◌, ◌<◌, ◌≡◌, List, ◌∷◌, ◌++◌, arith, length, length-append, ltb, le→ltb,
  if◌then◌else◌, Outcome, ok, err, malformed_command, ◌>>=◌,
}
use key_value_store.Bytes.{
  block, read_byte, read_block, length-block, read_block-block, read_block-block_all,
}

-- commandType is a byte: 0 is cmdPut, 1 is cmdDelete.
abbrev pub cmd_put : ℕ
cmd_put = 0

abbrev pub cmd_delete : ℕ
cmd_delete = 1

pub record Command : Type 0 where
  pub type : ℕ  -- byte
  pub key : List ℕ
  pub value : List ℕ

unfoldable pub encode_command : Command → List ℕ
encode_command c = (c.type % 256) ∷ (block c.key ++ block c.value)

unfoldable pub decode_command_value : ℕ → List ℕ → List ℕ → Outcome Command
decode_command_value t key rest = if ltb (length rest) 4 then err malformed_command else do
  (value, rest) ← read_block malformed_command rest
  ok (record { type = t; key = key; value = value })

unfoldable pub decode_command : List ℕ → Outcome Command
decode_command bytes = if ltb (length bytes) 5 then err malformed_command else do
  (t, rest) ← read_byte bytes
  (key, rest) ← read_block malformed_command rest
  decode_command_value t key rest

pub record FitsCommand (c : Command) : Type 0 where
  pub type : c.type < 256
  pub lengths : 9 + length c.key + length c.value < 2 ^ 32

decode_command_value-block :
    (c : Command) → FitsCommand c → decode_command_value c.type c.key (block c.value) ≡ ok c
unfolding decode_command_value
decode_command_value-block c h =
    rw (le→ltb (length (block c.value)) 4 (omega (arith, length-block c.value)))
      (simp (read_block-block_all malformed_command c.value (omega (arith, h.lengths))))

length-encode_command :
    (c : Command) → length (encode_command c) ≡ 9 + length c.key + length c.value
unfolding encode_command
length-encode_command c = simp (length-append, length-block) (omega arith)

-- A command decodes to what it was encoded from, where its type is a byte and its encoding is
-- shorter than 2 ^ 32 bytes.
pub decode_command-encode_command :
    (c : Command) → FitsCommand c → decode_command (encode_command c) ≡ ok c
unfolding decode_command
decode_command-encode_command c h =
    rw (le→ltb (length (encode_command c)) 5 (omega (arith, length-encode_command c))) (
      unfold encode_command read_byte in
      simp (mod-eq_of_lt h.type, key, decode_command_value-block c h))
  where
    key : read_block malformed_command (block c.key ++ block c.value) ≡ ok (c.key, block c.value)
    key =
        read_block-block malformed_command c.key (block c.value)
          (rw length-block (omega (arith, h.lengths)))
