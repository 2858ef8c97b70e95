-- ===== src/Raft/Storage/Records.antt =====
-- raft/storage.go: the kinds of records in the storage log, and their payloads.
use native.Mathlib.Nat.{mod-eq_of_lt}
use key_value_store.Prelude.{
  ℕ, ◌+◌, ◌-◌, ◌%◌, ◌^◌, ◌<◌, ◌≡◌, refl, not, List, [], ◌∷◌, ◌++◌, arith, length, length-append,
  ltb, le→ltb, ◌==◌, ==_refl, if◌then◌else◌, append-nil, Outcome, ok, err, panic, malformed_state,
  ◌>>=◌,
}
use key_value_store.Bytes.{
  le, slice, slice-append, block, read_le, length-le, length-block, read_le-le, read_le-le_all,
}
use key_value_store.Raft.Types.{LogEntry, HardState, Snapshot}

-- recordKind is a byte.
abbrev pub record_hard_state : ℕ
record_hard_state = 0

abbrev pub record_log_entry : ℕ
record_log_entry = 1

abbrev pub record_truncate_from : ℕ
record_truncate_from = 2

abbrev pub record_snapshot : ℕ
record_snapshot = 3

unfoldable pub encode_record : ℕ → List ℕ → List ℕ
encode_record kind payload = (kind % 256) ∷ payload

unfoldable pub decode_record : List ℕ → Outcome (ℕ × List ℕ)
decode_record [] = err malformed_state
decode_record (kind ∷ payload) = ok (kind, payload)

unfoldable pub encode_hard_state : HardState → List ℕ
encode_hard_state hs = le 8 hs.term ++ le 8 hs.vote

unfoldable pub decode_hard_state : List ℕ → Outcome HardState
decode_hard_state bytes = if not (length bytes == 16) then err malformed_state else do
  (term, rest) ← read_le 8 bytes
  (vote, rest) ← read_le 8 rest
  ok (record { term = term; vote = vote })

-- `data[20:20+dlen]`, behind the twenty bytes. The bound is a uint32.
unfoldable pub exact_data : ℕ → List ℕ → Outcome (List ℕ)
exact_data len rest =
    let bound = (20 + len) % 2 ^ 32 in
    if len == 0
    then ok []
    else if ltb bound 20
    then panic
    else (do (payload, rest) ← slice (bound - 20) rest; ok payload)

-- The bytes left have to be as many as the header says. They are cut to a uint32.
unfoldable pub matching : ℕ → List ℕ → Outcome (List ℕ)
matching len rest =
    if not (length rest % 2 ^ 32 == len) then err malformed_state else exact_data len rest

unfoldable pub read_exact : List ℕ → Outcome (List ℕ)
read_exact rest = do (len, rest) ← read_le 4 rest; matching len rest

unfoldable pub encode_log_entry : LogEntry → List ℕ
encode_log_entry e = le 8 e.term ++ (le 8 e.index ++ block e.payload)

unfoldable pub decode_log_entry : List ℕ → Outcome LogEntry
decode_log_entry bytes = if ltb (length bytes) 20 then err malformed_state else do
  (term, rest) ← read_le 8 bytes
  (index, rest) ← read_le 8 rest
  payload ← read_exact rest
  ok (record { term = term; index = index; payload = payload })

unfoldable pub encode_truncate_from : ℕ → List ℕ
encode_truncate_from first = le 8 first

unfoldable pub decode_truncate_from : List ℕ → Outcome ℕ
decode_truncate_from bytes =
    if not (length bytes == 8)
    then err malformed_state
    else do (first, rest) ← read_le 8 bytes; ok first

unfoldable pub encode_snapshot_payload : Snapshot → List ℕ
encode_snapshot_payload s =
    le 8 s.last_included_index ++ (le 8 s.last_included_term ++ block s.payload)

unfoldable pub decode_snapshot_payload : List ℕ → Outcome Snapshot
decode_snapshot_payload bytes = if ltb (length bytes) 20 then err malformed_state else do
  (index, rest) ← read_le 8 bytes
  (term, rest) ← read_le 8 rest
  payload ← read_exact rest
  ok (record { last_included_index = index; last_included_term = term; payload = payload })

-- Lengths that leave room for the fields of a record in the log.
abbrev pub Short : List ℕ → Type 0
Short bytes = 100 + length bytes < 2 ^ 32

exact_data_lem : (bs : List ℕ) → Short bs → exact_data (length bs) bs ≡ ok bs
unfolding exact_data
exact_data_lem [] h = refl
exact_data_lem (b ∷ bs) h =
    let whole : slice (length (b ∷ bs)) (b ∷ bs) ≡ ok (b ∷ bs, []) =
      rw append-nil at (slice-append (b ∷ bs) []) in
    let bound : (20 + length (b ∷ bs)) % 2 ^ 32 ≡ 20 + length (b ∷ bs) =
      mod-eq_of_lt (omega (arith, h)) in
    let same : 20 + length (b ∷ bs) - 20 ≡ length (b ∷ bs) = omega arith in
    rw bound
      (rw (le→ltb (20 + length (b ∷ bs)) 20 (omega arith)) (rw same (rw whole (ground arith))))

read_exact-block : (bs : List ℕ) → Short bs → read_exact (block bs) ≡ ok bs
unfolding read_exact matching block
read_exact-block bs h =
    let small : length bs % 2 ^ 32 ≡ length bs = mod-eq_of_lt (omega (arith, h)) in
    simp (read_le-le, small, ==_refl, exact_data_lem bs h)

pub decode_hard_state-encode_hard_state :
    (hs : HardState)
    → hs.term < 2 ^ 64
    → hs.vote < 2 ^ 64
    → decode_hard_state (encode_hard_state hs) ≡ ok hs
unfolding decode_hard_state encode_hard_state
decode_hard_state-encode_hard_state hs term vote =
    simp
      (length-append, length-le, read_le-le, read_le-le_all, mod-eq_of_lt term, mod-eq_of_lt vote)

pub record FitsState (e : LogEntry) : Type 0 where
  pub term : e.term < 2 ^ 64
  pub index : e.index < 2 ^ 64
  pub payload : Short e.payload

pub length-encode_log_entry : (e : LogEntry) → length (encode_log_entry e) ≡ 20 + length e.payload
unfolding encode_log_entry
length-encode_log_entry e = simp (length-append, length-le, length-block) (omega arith)

pub decode_log_entry-encode_log_entry :
    (e : LogEntry) → FitsState e → decode_log_entry (encode_log_entry e) ≡ ok e
unfolding decode_log_entry
decode_log_entry-encode_log_entry e h =
    rw (le→ltb (length (encode_log_entry e)) 20 (omega (arith, length-encode_log_entry e))) (
      unfold encode_log_entry in
      simp (
        read_le-le,
        mod-eq_of_lt h.term,
        mod-eq_of_lt h.index,
        read_exact-block e.payload h.payload,
      ))

pub decode_truncate_from-encode_truncate_from :
    (first : ℕ) → first < 2 ^ 64 → decode_truncate_from (encode_truncate_from first) ≡ ok first
unfolding decode_truncate_from encode_truncate_from
decode_truncate_from-encode_truncate_from first h = simp (length-le, read_le-le_all, mod-eq_of_lt h)

pub record FitsSnapshot (s : Snapshot) : Type 0 where
  pub index : s.last_included_index < 2 ^ 64
  pub term : s.last_included_term < 2 ^ 64
  pub payload : Short s.payload

pub length-encode_snapshot_payload :
    (s : Snapshot) → length (encode_snapshot_payload s) ≡ 20 + length s.payload
unfolding encode_snapshot_payload
length-encode_snapshot_payload s = simp (length-append, length-le, length-block) (omega arith)

pub decode_snapshot_payload-encode_snapshot_payload :
    (s : Snapshot) → FitsSnapshot s → decode_snapshot_payload (encode_snapshot_payload s) ≡ ok s
unfolding decode_snapshot_payload
decode_snapshot_payload-encode_snapshot_payload s h =
    rw
      (le→ltb (length (encode_snapshot_payload s)) 20
        (omega (arith, length-encode_snapshot_payload s)))
      (unfold encode_snapshot_payload in
        simp (
          read_le-le,
          mod-eq_of_lt h.term,
          mod-eq_of_lt h.index,
          read_exact-block s.payload h.payload,
        ))
