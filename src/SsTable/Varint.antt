-- ===== src/SsTable/Varint.antt =====
-- encoding/binary's AppendUvarint and Uvarint, as sstable/block.go uses them: groups of seven bits, the
-- lowest first, each in a byte with its high bit set where more follow.
use key_value_store.Prelude.{
  ℕ, zero, suc, ◌+◌, ◌*◌, ◌/◌, ◌%◌, ◌^◌, ◌<◌, ◌≡◌, refl, ap, inl, inr, List, [], ◌∷◌, ◌++◌, Option,
  none, some, arith, ltb, if◌then◌else◌, Bool-cases, false,
}

-- A number with the groups that may come before its last one.
unfoldable pub groups : ℕ → ℕ → List ℕ
groups zero x = x ∷ []
groups (suc more) x =
    let rest = groups more (x / 128) in if ltb x 128 then x ∷ [] else (x % 128 + 128) ∷ rest

-- A uint64 takes ten groups at most.
unfoldable pub uvarint : ℕ → List ℕ
uvarint x = groups 9 x

abbrev pub more_bits : ℕ → Option (ℕ × List ℕ) → Option (ℕ × List ℕ)
more_bits b none = none
more_bits b (some (x, rest)) = some (b % 128 + 128 * x, rest)

-- The tenth byte has one bit. A number that has no last byte, or is too large, is none.
unfoldable pub read_groups : ℕ → List ℕ → Option (ℕ × List ℕ)
read_groups more [] = none
read_groups zero (b ∷ bs) = if ltb b 2 then some (b, bs) else none
read_groups (suc more) (b ∷ bs) =
    let rest = read_groups more bs in if ltb b 128 then some (b, bs) else more_bits b rest

unfoldable pub read_uvarint : List ℕ → Option (ℕ × List ℕ)
read_uvarint bs = read_groups 9 bs

-- What fits into these groups and the last one.
room : ℕ → ℕ
room zero = 2
room (suc more) = 128 * room more

read_groups-groups :
    (more x : ℕ) (rest : List ℕ)
    → x < room more
    → read_groups more (groups more x ++ rest) ≡ some (x, rest)
unfolding read_groups groups room
read_groups-groups zero x rest h = ground (arith, h)
read_groups-groups (suc more) x rest h = elim (Bool-cases (ltb x 128)) [
  | inl e ↦ rw (e, e) refl
  | inr e ↦
      let high : ltb (x % 128 + 128) 128 ≡ false = ground arith in
      let fits : x / 128 < room more = omega (arith, h) in
      let whole : (x % 128 + 128) % 128 + 128 * (x / 128) ≡ x = omega arith in
      rw e (rw (high, read_groups-groups more (x / 128) rest fits) (ap (λ v. some (v, rest)) whole))
]

-- A uint64 is read back.
pub read_uvarint-uvarint :
    (x : ℕ) (rest : List ℕ) → x < 2 ^ 64 → read_uvarint (uvarint x ++ rest) ≡ some (x, rest)
unfolding read_uvarint uvarint room
read_uvarint-uvarint x rest h = read_groups-groups 9 x rest h
