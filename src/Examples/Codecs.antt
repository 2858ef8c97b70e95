-- ===== src/Examples/Codecs.antt =====
-- Examples of the theorems on commands and messages.
use key_value_store.Wal.Replay.{source}
use key_value_store.Transport.Codec.Total.{Answers, decode_message-Answers}
use key_value_store.Transport.Framing.{
  max_message_size, write_framed, read_framed, write_framed_limit,
}
use key_value_store.Transport.Connection.{send_all, received, received-send_all}
use key_value_store.Prelude.{
  ◌++◌, ◌≤◌, ◌<◌, ◌⊎◌, none, err, frame_too_long, length, ◌≡◌, refl, [], ◌∷◌, ok, arith, false,
  true,
}
use key_value_store.Raft.Types.{Message, msg_append_entries}
use key_value_store.Server.Command.{
  Command, encode_command, decode_command, decode_command-encode_command,
}
use key_value_store.Transport.Codec.{
  encode_message, decode_message, encode_entries, encode_entry, encode_tail, encode_snapshot,
  type_of, type_byte,
}
use key_value_store.Bytes.{block, le}
use key_value_store.Transport.Codec.RoundTrip.{FitsMessage, decode_message-encode_message}

abbrev put_command : Command
put_command = record { type = 0; key = 107 ∷ []; value = 118 ∷ 49 ∷ [] }

decode_command-encode_command_example : decode_command (encode_command put_command) ≡ ok put_command
decode_command-encode_command_example = decode_command-encode_command put_command (omega arith)

-- An AppendEntries with two entries and no snapshot.
abbrev append_two : Message
append_two = record {
  type = msg_append_entries;
  from = 1;
  to = 2;
  term = 5;
  last_log_index = 0;
  last_log_term = 0;
  vote_granted = false;
  prev_log_index = 7;
  prev_log_term = 4;
  entries =
      record { term = 5; index = 8; payload = 1 ∷ 2 ∷ [] }
      ∷ record { term = 5; index = 9; payload = [] }
      ∷ [];
  leader_commit = 6;
  success = true;
  match_index = 0;
  read_context = 3;
  snapshot = record { last_included_index = 0; last_included_term = 0; payload = [] };
}

append_two-FitsMessage : FitsMessage append_two
unfolding encode_message encode_entries encode_entry encode_tail encode_snapshot block le type_of
    type_byte
append_two-FitsMessage = record {
  type = refl;
  from = omega arith;
  to = omega arith;
  term = omega arith;
  last_log_index = omega arith;
  last_log_term = omega arith;
  prev_log_index = omega arith;
  prev_log_term = omega arith;
  entries = (omega arith, (omega arith, tt));
  leader_commit = omega arith;
  match_index = omega arith;
  read_context = omega arith;
  snapshot_index = omega arith;
  snapshot_term = omega arith;
  size = omega arith;
}

decode_message-encode_message_example : decode_message (encode_message append_two) ≡ ok append_two
decode_message-encode_message_example =
    decode_message-encode_message append_two append_two-FitsMessage

decode_message-Answers_example : Answers (decode_message (6 ∷ 255 ∷ 255 ∷ []))
decode_message-Answers_example = decode_message-Answers (6 ∷ 255 ∷ 255 ∷ []) (omega arith)

write_framed_limit_example :
    (write_framed (7 ∷ 8 ∷ []) (record { written = 1 ∷ []; fault = none })
      ≡ (record { written = (1 ∷ []) ++ block (7 ∷ 8 ∷ []); fault = none }, ok tt))
    × (((2 ≤ max_message_size)
          × (read_framed (source (block (7 ∷ 8 ∷ []) ++ (9 ∷ [])))
              ≡ ok (7 ∷ 8 ∷ [], source (9 ∷ []))))
        ⊎ ((max_message_size < 2)
            × (read_framed (source (block (7 ∷ 8 ∷ []) ++ (9 ∷ []))) ≡ err frame_too_long)))
write_framed_limit_example = write_framed_limit (7 ∷ 8 ∷ []) (9 ∷ []) (1 ∷ []) (omega arith)

append_two_short : length (encode_message append_two) ≤ max_message_size
unfolding encode_message encode_entries encode_entry encode_tail encode_snapshot block le
append_two_short = omega arith

received-send_all_example :
    received (
      source
        (send_all (append_two ∷ append_two ∷ []) (record { written = []; fault = none })).written)
    ≡ append_two ∷ append_two ∷ []
received-send_all_example =
    received-send_all (append_two ∷ append_two ∷ [])
      ((append_two-FitsMessage, append_two_short), ((append_two-FitsMessage, append_two_short), tt))
