-- ===== src/Wal/Replay/Rounds.antt =====
-- One round of the replay loop: over a whole frame, and over a part of one.
use native.Mathlib.Nat.{mod-eq_of_lt}
use key_value_store.Prelude.{
  ℕ, ◌+◌, ◌-◌, ◌^◌, ◌≤◌, ◌<◌, ◌≡◌, refl, sym, ap, ◌∙◌, List, [], ◌∷◌, ◌++◌, arith, length, take,
  length-append, append-nil, append_assoc, le→ltb, lt→ltb, le→leb, lt→leb, ==_refl, length-take,
  take-append, drop-append, ok, ltb, ◌==◌, if◌then◌else◌, true, ltb→lt, ==→≡, take-append_past,
  Bool-cases, inl, inr,
}
use key_value_store.Bytes.{le, length-le, read_le-le, read_le-le_all}
use key_value_store.Wal.Checksum.{checksum, checksum-lt}
use key_value_store.Wal.Record.{Record, payload, encode}
use key_value_store.Wal.Record.RoundTrip.{Fits, length-payload, decode_payload-payload}
use key_value_store.Wal.Replay.{
  Source, source, read_full, full, eof, unexpected_eof, return, continue, parse_header,
  replay_round, Recovery, truncate_and_return, clean_end,
}

read_full-append :
    (n : ℕ) (bs rest : List ℕ)
    → length bs ≡ n
    → read_full n (source (bs ++ rest)) ≡ (bs, full, source rest)
unfolding read_full
read_full-append n bs rest h = rw (← h) (
    rw (le→leb (length bs) (length (bs ++ rest)) (omega (arith, length-append bs rest)))
      (rw (take-append, drop-append)))

read_full_short :
    (n : ℕ) (bs : List ℕ)
    → length bs < n
    → read_full n (source bs) ≡ (bs, if length bs == 0 then eof else unexpected_eof, source [])
unfolding read_full
read_full_short n bs h = rw (lt→leb n (length bs) h)

abbrev header : ℕ → ℕ → List ℕ
header crc len = le 4 crc ++ le 4 len

length-header : (crc len : ℕ) → length (header crc len) ≡ 8
length-header crc len = simp (length-append, length-le)

parse_header-header :
    (crc len : ℕ) → crc < 2 ^ 32 → len < 2 ^ 32 → parse_header (header crc len) ≡ ok (crc, len)
parse_header-header crc len hc hl =
    simp (read_le-le, read_le-le_all, mod-eq_of_lt hc, mod-eq_of_lt hl)

-- A frame is its header and its payload.
encode-header :
    (r : Record) (more : List ℕ)
    → encode r ++ more ≡ header (checksum (payload r)) (length (payload r)) ++ (payload r ++ more)
unfolding encode
encode-header r more = simp append_assoc

pub length-encode : (r : Record) → length (encode r) ≡ 8 + length (payload r)
unfolding encode
length-encode r = simp (length-append, length-le) (omega arith)

-- A round over a whole frame reads its record.
pub replay_round-encode :
    (r : Record) (more : List ℕ) (acc : List Record) (off size : ℕ)
    → Fits r
    → off + length (encode r) ≤ size
    → replay_round (source (encode r ++ more)) acc off size
      ≡ continue r (length (payload r)) (source more)
unfolding replay_round
replay_round-encode r more acc off size h room = rw (encode-header r more) (
    simp (
      read_full-append 8 (header c n) (payload r ++ more) (length-header c n),
      parse_header-header c n (checksum-lt (payload r)) small,
      le→ltb size (off + 8 + n) (omega (arith, length-encode r)),
      read_full-append n (payload r) more refl,
      ==_refl c,
      decode_payload-payload r h,
    ))
  where
    c : ℕ
    c = checksum (payload r)

    n : ℕ
    n = length (payload r)

    small : length (payload r) < 2 ^ 32
    small = omega (arith, length-payload r, h.lengths)

-- The frames of a list of records, one after another, as AppendBatch writes them.
abbrev pub encode_all : List Record → List ℕ
encode_all [] = []
encode_all (r ∷ rs) = encode r ++ encode_all rs

-- What replay is to return: these records, so many bytes kept and so many cut off.
abbrev pub recovered : List Record → ℕ → ℕ → Recovery
recovered records kept lost = record {
  records = records;
  stats = record {
    records_recovered = length records;
    torn_write_truncated = ltb 0 lost;
    bytes_truncated = lost;
  };
  size = kept;
}

truncate_recovered :
    (acc : List Record) (f : Source) (off k size : ℕ)
    → f.truncates ≡ true
    → off + k ≡ size
    → truncate_and_return f acc off size ≡ ok (recovered acc off k)
unfolding truncate_and_return
truncate_recovered acc f off k size t h = let e : size - off ≡ k = omega arith in rw (t, e)

clean_recovered :
    (acc : List Record) (off k size : ℕ)
    → k ≡ 0
    → off + k ≡ size
    → clean_end acc size ≡ ok (recovered acc off k)
unfolding clean_end
clean_recovered acc off k size z h = let e : size ≡ off = omega arith in rw (z, e)

-- A round over a part of a frame: at the end of the file, in the header, or in the payload.
module _ (r : Record) (acc : List Record) (off k size : ℕ) (h : Fits r)
    (total : off + k ≡ size) where
  torn_header :
      k < 8
      → k ≤ length (encode r)
      → replay_round (source (take k (encode r))) acc off size ≡ return (ok (recovered acc off k))
  unfolding replay_round
  torn_header lt within =
      rw
        (
          read_full_short 8 (take k (encode r)) (rw (length-take k (encode r) within) lt),
          length-take k (encode r) within,
        )
        (elim (Bool-cases (k == 0)) [
          | inl z ↦ rw z (ap return (clean_recovered acc off k size (==→≡ k 0 z) total))
          | inr z ↦ rw z (ap return (truncate_recovered acc (source []) off k size refl total))
        ])

  torn_payload :
      8 ≤ k
      → k < length (encode r)
      → replay_round (source (take k (encode r))) acc off size ≡ return (ok (recovered acc off k))
  unfolding replay_round
  torn_payload ge within = rw split (
      simp
        (
          read_full-append 8 (header c n) (take (k - 8) (payload r)) (length-header c n),
          parse_header-header c n (checksum-lt (payload r)) small,
          lt→ltb size (off + 8 + n) (omega (arith, length-encode r)),
        )
        (ap return
          (truncate_recovered acc (source (take (k - 8) (payload r))) off k size refl total)))
    where
      c : ℕ
      c = checksum (payload r)

      n : ℕ
      n = length (payload r)

      small : length (payload r) < 2 ^ 32
      small = omega (arith, length-payload r, h.lengths)

      split :
          take k (encode r)
          ≡ header (checksum (payload r)) (length (payload r)) ++ take (k - 8) (payload r)
      split =
          ap (take k) (
            sym (append-nil (encode r))
            ∙ encode-header r []
            ∙ ap (λ t. header c n ++ t) (append-nil (payload r)))
          ∙ rw (length-header c n) at
              (take-append_past k (header c n) (payload r) (rw (length-header c n) ge))

  pub torn_round :
      k < length (encode r)
      → replay_round (source (take k (encode r))) acc off size ≡ return (ok (recovered acc off k))
  torn_round within = elim (Bool-cases (ltb k 8)) [
    | inl lt ↦ torn_header (ltb→lt k 8 lt) (omega arith)
    | inr ge ↦ torn_payload (ground arith) within
  ]
