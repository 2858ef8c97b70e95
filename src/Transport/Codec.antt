-- ===== src/Transport/Codec.antt =====
-- transport/codec.go: a message as bytes.
pub mod RoundTrip
pub mod Total
use key_value_store.Prelude.{
  ℕ, zero, suc, ◌+◌, ◌*◌, ◌/◌, ◌%◌, ◌^◌, List, [], ◌∷◌, ◌++◌, Bool, true, false, not, length, ltb,
  ◌==◌, if◌then◌else◌, Outcome, ok, err, malformed_message, ◌>>=◌,
}
use key_value_store.Bytes.{le, block, read_byte, read_le, read_block}
use key_value_store.Raft.Types.{
  LogEntry, Snapshot, MessageType, Message, blank, msg_pre_vote, msg_pre_vote_response,
  msg_request_vote, msg_request_vote_response, msg_append_entries, msg_append_entries_response,
  msg_install_snapshot, msg_install_snapshot_response, msg_other,
}

abbrev pub fixed_fields_size : ℕ
fixed_fields_size = 107

abbrev pub entry_header_size : ℕ
entry_header_size = 20

-- `byte(m.Type)`, of constants that count from 0.
unfoldable pub type_byte : MessageType → ℕ
type_byte msg_pre_vote = 0
type_byte msg_pre_vote_response = 1
type_byte msg_request_vote = 2
type_byte msg_request_vote_response = 3
type_byte msg_append_entries = 4
type_byte msg_append_entries_response = 5
type_byte msg_install_snapshot = 6
type_byte msg_install_snapshot_response = 7
type_byte (msg_other n) = n % 256

-- `raft.MessageType(data[off])`.
unfoldable pub type_of : ℕ → MessageType
type_of n =
    if n == 0
    then msg_pre_vote
    else if n == 1
    then msg_pre_vote_response
    else if n == 2
    then msg_request_vote
    else if n == 3
    then msg_request_vote_response
    else if n == 4
    then msg_append_entries
    else if n == 5
    then msg_append_entries_response
    else if n == 6
    then msg_install_snapshot
    else if n == 7
    then msg_install_snapshot_response
    else msg_other n

unfoldable pub bool_byte : Bool → ℕ
bool_byte true = 1
bool_byte false = 0

unfoldable pub encode_entry : LogEntry → List ℕ
encode_entry e = le 8 e.term ++ (le 8 e.index ++ block e.payload)

unfoldable pub encode_entries : List LogEntry → List ℕ
encode_entries [] = []
encode_entries (e ∷ es) = encode_entry e ++ encode_entries es

-- What follows the entries.
unfoldable pub encode_snapshot : Snapshot → List ℕ
encode_snapshot s = le 8 s.last_included_index ++ (le 8 s.last_included_term ++ block s.payload)

unfoldable pub encode_tail : Message → List ℕ
encode_tail m =
    le 8 m.leader_commit
    ++ (bool_byte m.success
        ∷ (le 8 m.match_index ++ (le 8 m.read_context ++ encode_snapshot m.snapshot)))

unfoldable pub encode_message : Message → List ℕ
encode_message m =
    type_byte m.type
    ∷ (le 8 m.from
        ++ (le 8 m.to
            ++ (le 8 m.term
                ++ (le 8 m.last_log_index
                    ++ (le 8 m.last_log_term
                        ++ (bool_byte m.vote_granted
                            ∷ (le 8 m.prev_log_index
                                ++ (le 8 m.prev_log_term
                                    ++ (le 4 (length m.entries)
                                        ++ (encode_entries m.entries ++ encode_tail m))))))))))

unfoldable pub decode_entry : List ℕ → Outcome (LogEntry × List ℕ)
decode_entry rest = if ltb (length rest) entry_header_size then err malformed_message else do
  (term, rest) ← read_le 8 rest
  (index, rest) ← read_le 8 rest
  (payload, rest) ← read_block malformed_message rest
  ok (record { term = term; index = index; payload = payload }, rest)

-- The loop over the entries, with the rounds that are left.
unfoldable pub decode_entries : ℕ → List ℕ → Outcome (List LogEntry × List ℕ)
decode_entries zero rest = ok ([], rest)
decode_entries (suc n) rest = do
  (e, rest) ← decode_entry rest
  (es, rest) ← decode_entries n rest
  ok (e ∷ es, rest)

-- A count that the bytes left have no room for is an error. The bytes left are cut to a uint32.
unfoldable pub decode_counted : ℕ → List ℕ → Outcome (List LogEntry × List ℕ)
decode_counted count rest =
    if ltb (length rest % 2 ^ 32 / entry_header_size) count
    then err malformed_message
    else decode_entries count rest

-- Bytes that follow the snapshot are not looked at.
unfoldable pub decode_snapshot : List ℕ → Outcome Snapshot
decode_snapshot rest = if ltb (length rest) 20 then err malformed_message else do
  (index, rest) ← read_le 8 rest
  (term, rest) ← read_le 8 rest
  (payload, rest) ← read_block malformed_message rest
  ok (record { last_included_index = index; last_included_term = term; payload = payload })

-- The fields after the entries are put into the message that was decoded so far.
unfoldable pub decode_tail : Message → List ℕ → Outcome Message
decode_tail m rest = if ltb (length rest) 25 then err malformed_message else do
  (leader_commit, rest) ← read_le 8 rest
  (success, rest) ← read_byte rest
  (match_index, rest) ← read_le 8 rest
  (read_context, rest) ← read_le 8 rest
  snapshot ← decode_snapshot rest
  ok (record m {
    leader_commit = leader_commit;
    success = not (success == 0);
    match_index = match_index;
    read_context = read_context;
    snapshot = snapshot;
  })

unfoldable pub decode_message : List ℕ → Outcome Message
decode_message bytes = if ltb (length bytes) fixed_fields_size then err malformed_message else do
  (type, rest) ← read_byte bytes
  (from, rest) ← read_le 8 rest
  (to, rest) ← read_le 8 rest
  (term, rest) ← read_le 8 rest
  (last_log_index, rest) ← read_le 8 rest
  (last_log_term, rest) ← read_le 8 rest
  (vote_granted, rest) ← read_byte rest
  (prev_log_index, rest) ← read_le 8 rest
  (prev_log_term, rest) ← read_le 8 rest
  (count, rest) ← read_le 4 rest
  (entries, rest) ← decode_counted count rest
  decode_tail
      (record (blank (type_of type) to) {
        from = from;
        term = term;
        last_log_index = last_log_index;
        last_log_term = last_log_term;
        vote_granted = not (vote_granted == 0);
        prev_log_index = prev_log_index;
        prev_log_term = prev_log_term;
        entries = entries;
      })
      rest
