-- ===== src/Transport/Codec/RoundTrip.antt =====
-- transport/codec.go: what was encoded is decoded.
use native.Mathlib.Nat.{mod-eq_of_lt}
use key_value_store.Prelude.{
  ℕ, ◌+◌, ◌*◌, ◌/◌, ◌%◌, ◌^◌, ◌<◌, ◌≤◌, ◌≡◌, refl, List, [], ◌∷◌, ◌++◌, append_assoc, Bool, true,
  false, not, All, arith, length, length-append, le→ltb, ◌==◌, ok, malformed_message,
}
use key_value_store.Bytes.{
  read_byte, length-le, length-block, read_le-le, read_block-block, read_block-block_all,
}
use key_value_store.Raft.Types.{LogEntry, Snapshot, MessageType, Message}
use key_value_store.Transport.Codec.{
  type_byte, type_of, bool_byte, encode_entry, encode_entries, encode_snapshot, encode_tail,
  encode_message, decode_entry, decode_entries, decode_counted, decode_snapshot, decode_tail,
  decode_message,
}

-- One of the eight types of messages.
abbrev pub IsNamed : MessageType → Type 0
IsNamed t = type_of (type_byte t) ≡ t

pub record FitsEntry (e : LogEntry) : Type 0 where
  pub term : e.term < 2 ^ 64
  pub index : e.index < 2 ^ 64

-- Numbers that are uint64, and an encoding that is shorter than 2 ^ 32 bytes.
pub record FitsMessage (m : Message) : Type 0 where
  pub type : IsNamed m.type
  pub from : m.from < 2 ^ 64
  pub to : m.to < 2 ^ 64
  pub term : m.term < 2 ^ 64
  pub last_log_index : m.last_log_index < 2 ^ 64
  pub last_log_term : m.last_log_term < 2 ^ 64
  pub prev_log_index : m.prev_log_index < 2 ^ 64
  pub prev_log_term : m.prev_log_term < 2 ^ 64
  pub entries : All FitsEntry m.entries
  pub leader_commit : m.leader_commit < 2 ^ 64
  pub match_index : m.match_index < 2 ^ 64
  pub read_context : m.read_context < 2 ^ 64
  pub snapshot_index : m.snapshot.last_included_index < 2 ^ 64
  pub snapshot_term : m.snapshot.last_included_term < 2 ^ 64
  pub size : length (encode_message m) < 2 ^ 32

bool-bool_byte : (b : Bool) → not (bool_byte b == 0) ≡ b
unfolding bool_byte
bool-bool_byte true = refl
bool-bool_byte false = refl

length-encode_entry : (e : LogEntry) → length (encode_entry e) ≡ 20 + length e.payload
unfolding encode_entry
length-encode_entry e = simp (length-append, length-le, length-block) (omega arith)

decode_entry-encode_entry :
    (e : LogEntry) (rest : List ℕ)
    → FitsEntry e
    → length (encode_entry e ++ rest) < 2 ^ 32
    → decode_entry (encode_entry e ++ rest) ≡ ok (e, rest)
unfolding decode_entry
decode_entry-encode_entry e rest h size =
    let total = length-append (encode_entry e) rest in
    let long = length-encode_entry e in
    rw (le→ltb (length (encode_entry e ++ rest)) 20 (omega (arith, total, long))) (
      unfold encode_entry in
      simp (
        append_assoc,
        read_le-le,
        mod-eq_of_lt h.term,
        mod-eq_of_lt h.index,
        read_block-block malformed_message e.payload rest (omega (arith, total, long, size)),
      ))

decode_entries-encode_entries :
    (es : List LogEntry) (rest : List ℕ)
    → All FitsEntry es
    → length (encode_entries es ++ rest) < 2 ^ 32
    → decode_entries (length es) (encode_entries es ++ rest) ≡ ok (es, rest)
unfolding decode_entries encode_entries
decode_entries-encode_entries [] rest h size = refl
decode_entries-encode_entries (e ∷ es) rest (p, h) size =
    let first : length (encode_entry e ++ (encode_entries es ++ rest)) < 2 ^ 32 =
      rw append_assoc at size in
    simp (
      append_assoc,
      decode_entry-encode_entry e (encode_entries es ++ rest) p first,
      decode_entries-encode_entries es rest h
          (omega (arith, first, length-append (encode_entry e) (encode_entries es ++ rest))),
    )

-- Every entry takes its header at least.
length-encode_entries : (es : List LogEntry) → 20 * length es ≤ length (encode_entries es)
unfolding encode_entries
length-encode_entries [] = omega arith
length-encode_entries (e ∷ es) = omega (
  arith,
  length-append (encode_entry e) (encode_entries es),
  length-encode_entry e,
  length-encode_entries es,
)

decode_counted-encode_entries :
    (es : List LogEntry) (rest : List ℕ)
    → All FitsEntry es
    → length (encode_entries es ++ rest) < 2 ^ 32
    → decode_counted (length es) (encode_entries es ++ rest) ≡ ok (es, rest)
unfolding decode_counted
decode_counted-encode_entries es rest h size = rw (mod-eq_of_lt size) (
    rw
      (le→ltb (length (encode_entries es ++ rest) / 20) (length es)
        (omega (arith, length-append (encode_entries es) rest, length-encode_entries es)))
      (decode_entries-encode_entries es rest h size))

length-encode_snapshot : (s : Snapshot) → length (encode_snapshot s) ≡ 20 + length s.payload
unfolding encode_snapshot
length-encode_snapshot s = simp (length-append, length-le, length-block) (omega arith)

length-encode_tail : (m : Message) → length (encode_tail m) ≡ 45 + length m.snapshot.payload
unfolding encode_tail
length-encode_tail m = simp (length-append, length-le, length-encode_snapshot) (omega arith)

decode_snapshot-encode_snapshot :
    (s : Snapshot)
    → s.last_included_index < 2 ^ 64
    → s.last_included_term < 2 ^ 64
    → length s.payload < 2 ^ 32
    → decode_snapshot (encode_snapshot s) ≡ ok s
unfolding decode_snapshot
decode_snapshot-encode_snapshot s index term size =
    rw (le→ltb (length (encode_snapshot s)) 20 (omega (arith, length-encode_snapshot s))) (
      unfold encode_snapshot in
      simp (
        read_le-le,
        mod-eq_of_lt index,
        mod-eq_of_lt term,
        read_block-block_all malformed_message s.payload size,
      ))

-- What the tail of a message's encoding adds to a message.
abbrev with_tail : Message → Message → Message
with_tail m n = record n {
  leader_commit = m.leader_commit;
  success = m.success;
  match_index = m.match_index;
  read_context = m.read_context;
  snapshot = m.snapshot;
}

decode_tail-encode_tail :
    (m n : Message)
    → FitsMessage m
    → length m.snapshot.payload < 2 ^ 32
    → decode_tail n (encode_tail m) ≡ ok (with_tail m n)
unfolding decode_tail
decode_tail-encode_tail m n h size =
    rw (le→ltb (length (encode_tail m)) 25 (omega (arith, length-encode_tail m))) (
      unfold encode_tail read_byte in
      simp (
        read_le-le,
        mod-eq_of_lt h.leader_commit,
        mod-eq_of_lt h.match_index,
        mod-eq_of_lt h.read_context,
        bool-bool_byte m.success,
        decode_snapshot-encode_snapshot m.snapshot h.snapshot_index h.snapshot_term size,
      ))

pub length-encode_message :
    (m : Message)
    → length (encode_message m) ≡ 62 + length (encode_entries m.entries) + length (encode_tail m)
unfolding encode_message
length-encode_message m = simp (length-append, length-le) (omega arith)

-- A message decodes to what it was encoded from, whatever entries and snapshot it carries. Its type
-- is one of the eight, its numbers are below 2 ^ 64, and its encoding is shorter than 2 ^ 32 bytes.
pub decode_message-encode_message :
    (m : Message) → FitsMessage m → decode_message (encode_message m) ≡ ok m
unfolding decode_message
decode_message-encode_message m h =
    rw (le→ltb (length (encode_message m)) 107 (omega (arith, long, length-encode_tail m))) (
      unfold encode_message read_byte in
      simp (
        read_le-le,
        mod-eq_of_lt h.from,
        mod-eq_of_lt h.to,
        mod-eq_of_lt h.term,
        mod-eq_of_lt h.last_log_index,
        mod-eq_of_lt h.last_log_term,
        mod-eq_of_lt h.prev_log_index,
        mod-eq_of_lt h.prev_log_term,
        h.type,
        bool-bool_byte m.vote_granted,
        count,
        decode_counted-encode_entries m.entries (encode_tail m) h.entries total,
        decode_tail-encode_tail m _ h payload,
      ))
  where
    long :
        length (encode_message m) ≡ 62 + length (encode_entries m.entries) + length (encode_tail m)
    long = length-encode_message m

    total : length (encode_entries m.entries ++ encode_tail m) < 2 ^ 32
    total = omega (arith, long, h.size, length-append (encode_entries m.entries) (encode_tail m))

    payload : length m.snapshot.payload < 2 ^ 32
    payload = omega (arith, long, h.size, length-encode_tail m)

    count : length m.entries % 2 ^ 32 ≡ length m.entries
    count = mod-eq_of_lt (omega (arith, long, h.size, length-encode_entries m.entries))
