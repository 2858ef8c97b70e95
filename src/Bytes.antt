-- ===== src/Bytes.antt =====
-- Byte slices and encoding/binary's LittleEndian, as wal/record.go, raft/storage.go,
-- transport/codec.go and server/command.go use them. A slice is a list of numbers below 256, and an
-- offset into it is the part of the list that it leaves.
pub mod Order
use native.Mathlib.Nat.{mod-eq_of_lt, mod_def, div-div-eq-div-mul, div-add-mod, mul_comm, pow-suc}
use key_value_store.Prelude.{
  ℕ, zero, suc, ◌+◌, ◌*◌, ◌/◌, ◌%◌, ◌^◌, ◌≤◌, ◌≡◌, refl, ap, sym, ◌∙◌, List, [], ◌∷◌, ◌++◌, arith,
  length, take, drop, ltb, if◌then◌else◌, Error, Outcome, ok, err, panic, ◌>>=◌, ◌<◌, take-append,
  drop-append, length-append, le→ltb, append-nil, append_assoc,
}

-- PutUint32 (width 4) and PutUint64 (width 8): the low bytes first, the rest lost.
unfoldable pub le : ℕ → ℕ → List ℕ
le zero v = []
le (suc w) v = (v % 256) ∷ le w (v / 256)

unfoldable pub from_le : List ℕ → ℕ
from_le [] = 0
from_le (b ∷ bs) = b + 256 * from_le bs

-- `data[off:off+n]`, and what follows it. A slice past the end panics.
unfoldable pub slice : ℕ → List ℕ → Outcome (List ℕ × List ℕ)
slice n bs = if ltb (length bs) n then panic else ok (take n bs, drop n bs)

-- Uint32 (width 4) and Uint64 (width 8) at an offset.
unfoldable pub read_le : ℕ → List ℕ → Outcome (ℕ × List ℕ)
unfolding from_le
read_le w bs = do (field, rest) ← slice w bs; ok (from_le field, rest)

-- `data[0]`, at an offset.
unfoldable pub read_byte : List ℕ → Outcome (ℕ × List ℕ)
read_byte [] = panic
read_byte (b ∷ bs) = ok (b, bs)

-- A length that is above the bytes left is an error. The bytes left are cut to a uint32.
unfoldable pub sized : Error → ℕ → List ℕ → Outcome (List ℕ × List ℕ)
sized e n rest = if ltb (length rest % 2 ^ 32) n then err e else slice n rest

-- Bytes behind their length as a uint32.
unfoldable pub block : List ℕ → List ℕ
block bs = le 4 (length bs) ++ bs

unfoldable pub read_block : Error → List ℕ → Outcome (List ℕ × List ℕ)
unfolding sized
read_block e rest = do (n, rest) ← read_le 4 rest; sized e n rest

pub length-le : (w v : ℕ) → length (le w v) ≡ w
unfolding le
length-le zero v = refl
length-le (suc w) v = ap suc (length-le w (v / 256))

pub slice-append : (bs rest : List ℕ) → slice (length bs) (bs ++ rest) ≡ ok (bs, rest)
unfolding slice
slice-append bs rest =
    rw (le→ltb (length (bs ++ rest)) (length bs) (omega (arith, length-append bs rest)))
      (rw (take-append, drop-append))

pub slice-append_at :
    (n : ℕ) (bs rest : List ℕ) → length bs ≡ n → slice n (bs ++ rest) ≡ ok (bs, rest)
slice-append_at n bs rest h = rw (← h) (slice-append bs rest)

-- A slice that fits is taken.
pub slice_fits : (n : ℕ) (bs : List ℕ) → n ≤ length bs → slice n bs ≡ ok (take n bs, drop n bs)
unfolding slice
slice_fits n bs h = rw (le→ltb (length bs) n h)

digit_mod : (x v : ℕ) → v % 256 + 256 * (v / 256 % x) ≡ v % (256 * x)
digit_mod x v =
    rw (mod_def v (256 * x), ← div-div-eq-div-mul v 256 x) (omega (arith, div-add-mod (v / 256) x))

from_le-le : (w v : ℕ) → from_le (le w v) ≡ v % 256 ^ w
unfolding le from_le
from_le-le zero v = omega arith
from_le-le (suc w) v =
    rw (from_le-le w (v / 256))
      (digit_mod (256 ^ w) v ∙ ap (λ x. v % x) (mul_comm 256 (256 ^ w) ∙ sym (pow-suc 256 w)))

-- What was written is read back, up to the width.
pub read_le-le : (w v : ℕ) (rest : List ℕ) → read_le w (le w v ++ rest) ≡ ok (v % 256 ^ w, rest)
unfolding read_le
read_le-le w v rest = rw (slice-append_at w (le w v) rest (length-le w v)) (rw from_le-le)

-- So too where nothing follows.
pub read_le-le_all : (w v : ℕ) → read_le w (le w v) ≡ ok (v % 256 ^ w, [])
read_le-le_all w v = rw append-nil at (read_le-le w v [])

sized-append :
    (e : Error) (bs rest : List ℕ)
    → length (bs ++ rest) < 2 ^ 32
    → sized e (length bs) (bs ++ rest) ≡ ok (bs, rest)
unfolding sized
sized-append e bs rest h = rw (mod-eq_of_lt h) (
    rw (le→ltb (length (bs ++ rest)) (length bs) (omega (arith, length-append bs rest)))
      (slice-append bs rest))

pub length-block : (bs : List ℕ) → length (block bs) ≡ 4 + length bs
unfolding block
length-block bs = omega (arith, length-append (le 4 (length bs)) bs, length-le 4 (length bs))

-- A block is read back, where the bytes left fit a uint32.
pub read_block-block :
    (e : Error) (bs rest : List ℕ)
    → length bs + length rest < 2 ^ 32
    → read_block e (block bs ++ rest) ≡ ok (bs, rest)
unfolding read_block block
read_block-block e bs rest h =
    let small : length bs % 2 ^ 32 ≡ length bs = mod-eq_of_lt (omega (arith, h)) in
    let fits : length (bs ++ rest) < 2 ^ 32 = rw length-append h in
    simp (append_assoc, read_le-le, small, sized-append e bs rest fits)

pub read_block-block_all :
    (e : Error) (bs : List ℕ) → length bs < 2 ^ 32 → read_block e (block bs) ≡ ok (bs, [])
read_block-block_all e bs h = rw append-nil at (read_block-block e bs [] (omega (arith, h)))
