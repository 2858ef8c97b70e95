-- ===== src/Transport/Framing.antt =====
-- transport/codec.go: length-prefixed messages over a stream connection.
use native.Mathlib.Nat.{mod-eq_of_lt}
use key_value_store.Prelude.{
  ◌⊎◌, inl, inr, Bool-cases, lt→ltb, ltb→lt, none, ℕ, ◌-◌, ◌*◌, ◌%◌, ◌≤◌, ◌<◌, ◌^◌, ◌≡◌, refl, ap,
  List, ◌++◌, append_assoc, Option, none, some, Bool-cases, length, take, length-append,
  take-append, drop-append, ltb, le→ltb, le→leb, if◌then◌else◌, arith, Outcome, ok, err, io_error,
  short_read, end_of_file, frame_too_long, ◌>>=◌,
}
use key_value_store.Bytes.{le, block, read_le, length-le, read_le-le_all}
use key_value_store.Wal.Replay.{Source, ReadEnd, read_full, source}
use key_value_store.Wal.Replay.ReadEnd.{full, eof, unexpected_eof, failed}
use key_value_store.Wal.Append.{and_then}

abbrev pub max_message_size : ℕ
max_message_size = 64 * 1024 * 1024

-- io.Writer: what was written to it, and after how many more bytes a Write fails, if one does.
pub record Writer : Type 0 where
  pub written : List ℕ
  pub fault : Option ℕ

unfoldable pub write_to : Option ℕ → List ℕ → Writer → Writer × Outcome (Unit {0})
write_to none bytes w = (record w { written = w.written ++ bytes }, ok tt)
write_to (some k) bytes w =
    if ltb k (length bytes)
    then (record { written = w.written ++ take k bytes; fault = some 0 }, err io_error)
    else (record { written = w.written ++ bytes; fault = some (k - length bytes) }, ok tt)

unfoldable pub write : List ℕ → Writer → Writer × Outcome (Unit {0})
unfolding write_to
write bytes w = write_to w.fault bytes w

unfoldable pub write_framed : List ℕ → Writer → Writer × Outcome (Unit {0})
write_framed payload w = and_then (write (le 4 (length payload)) w) (write payload)

-- After the payload was read into its buffer.
unfoldable pub framed_payload : List ℕ × ReadEnd × Source → Outcome (List ℕ × Source)
framed_payload (bytes, full, r) = ok (bytes, r)
framed_payload (bytes, _, r) = err short_read

unfoldable pub framed_length : Source → ℕ × List ℕ → Outcome (List ℕ × Source)
unfolding framed_payload
framed_length r (n, rest) =
    if ltb max_message_size n then err frame_too_long else framed_payload (read_full n r)

-- After the prefix was read. An end of the stream right before it is the clean close.
unfoldable pub framed_prefix : List ℕ × ReadEnd × Source → Outcome (List ℕ × Source)
framed_prefix (bytes, full, r) = read_le 4 bytes >>= framed_length r
framed_prefix (bytes, eof, r) = err end_of_file
framed_prefix (bytes, unexpected_eof, r) = err short_read
framed_prefix (bytes, failed, r) = err io_error

unfoldable pub read_framed : Source → Outcome (List ℕ × Source)
unfolding framed_prefix framed_length
read_framed r = framed_prefix (read_full 4 r)

-- Reading a buffer's worth of bytes from a stream with no fault.
read_full-append :
    (bs rest : List ℕ) → read_full (length bs) (source (bs ++ rest)) ≡ (bs, full, source rest)
unfolding read_full
read_full-append bs rest =
    rw (le→leb (length bs) (length (bs ++ rest)) (omega (arith, length-append bs rest)))
      (rw (take-append, drop-append) refl)

pub read_framed-block :
    (payload rest : List ℕ)
    → length payload ≤ max_message_size
    → read_framed (source (block payload ++ rest)) ≡ ok (payload, source rest)
unfolding read_framed block
read_framed-block payload rest h =
    let prefix : read_full 4 (source (le 4 (length payload) ++ (payload ++ rest)))
        ≡ (le 4 (length payload), full, source (payload ++ rest)) =
      rw length-le at (read_full-append (le 4 (length payload)) (payload ++ rest)) in
    let small : length payload % 2 ^ 32 ≡ length payload = mod-eq_of_lt (omega (arith, h)) in
    rw (append_assoc, prefix, read_le-le_all)
      (unfold framed_prefix framed_length framed_payload in
        simp (small, le→ltb max_message_size (length payload) h, read_full-append payload rest)
          refl)

too_long :
    (payload rest : List ℕ)
    → max_message_size < length payload
    → length payload < 2 ^ 32
    → read_framed (source (block payload ++ rest)) ≡ err frame_too_long
unfolding read_framed block
too_long payload rest h below =
    let prefix : read_full 4 (source (le 4 (length payload) ++ (payload ++ rest)))
        ≡ (le 4 (length payload), full, source (payload ++ rest)) =
      rw length-le at (read_full-append (le 4 (length payload)) (payload ++ rest)) in
    let small : length payload % 2 ^ 32 ≡ length payload = mod-eq_of_lt below in
    rw (append_assoc, prefix, read_le-le_all)
      (unfold framed_prefix framed_length framed_payload in
        simp (small, lt→ltb max_message_size (length payload) h) refl)

-- Writing a frame succeeds wherever no write fails, however long it is below 2 ^ 32 bytes. It is
-- read back whole, with what follows it left, if it has at most 64 MiB, and refused otherwise.
pub write_framed_limit :
    (payload rest before : List ℕ)
    → length payload < 2 ^ 32
    → (write_framed payload (record { written = before; fault = none })
        ≡ (record { written = before ++ block payload; fault = none }, ok tt))
      × (((length payload ≤ max_message_size)
            × (read_framed (source (block payload ++ rest)) ≡ ok (payload, source rest)))
          ⊎ ((max_message_size < length payload)
              × (read_framed (source (block payload ++ rest)) ≡ err frame_too_long)))
unfolding write_framed write write_to block
write_framed_limit payload rest before below = (
  ap (λ b. (record { written = b; fault = none }, ok tt))
      (append_assoc before (le 4 (length payload)) payload),
  elim (Bool-cases (ltb max_message_size (length payload))) [
    | inl e ↦ inr (ltb→lt _ _ e, too_long payload rest (ltb→lt _ _ e) below)
    | inr e ↦ inl (ground arith, read_framed-block payload rest (ground arith))
  ],
)
