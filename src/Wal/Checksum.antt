-- ===== src/Wal/Checksum.antt =====
-- hash/crc32's `Checksum(payload, MakeTable(Castagnoli))`, one bit at a time.
use Prim.Native.Nat.{bit_xor}
use key_value_store.Prelude.{
  ℕ, zero, suc, ◌/◌, ◌%◌, ◌^◌, ◌<◌, ◌≡◌, refl, List, [], ◌∷◌, arith, ◌==◌, if◌then◌else◌,
}

-- The reversed Castagnoli polynomial, over as many bits as the first argument says.
crc_bits : ℕ → ℕ → ℕ
crc_bits zero c = c
crc_bits (suc n) c = crc_bits n (if c % 2 == 1 then bit_xor (c / 2) 0x82f63b78 else c / 2)

crc_bytes : ℕ → List ℕ → ℕ
unfolding crc_bits
crc_bytes c [] = c
crc_bytes c (b ∷ bs) = crc_bytes (crc_bits 8 (bit_xor c b)) bs

-- A uint32.
unfoldable pub checksum : List ℕ → ℕ
unfolding crc_bytes
checksum bs = bit_xor (crc_bytes 0xffff_ffff bs) 0xffff_ffff % 2 ^ 32

pub checksum-lt : (bs : List ℕ) → checksum bs < 2 ^ 32
unfolding checksum
checksum-lt bs = omega arith

-- The check value of CRC-32C, that of the text "123456789".
checksum_check : checksum (49 ∷ 50 ∷ 51 ∷ 52 ∷ 53 ∷ 54 ∷ 55 ∷ 56 ∷ 57 ∷ []) ≡ 0xe306_9283
unfolding checksum
checksum_check = refl
