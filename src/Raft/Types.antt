-- ===== src/Raft/Types.antt =====
-- raft/message.go: the data that nodes keep and send.
use key_value_store.Prelude.{ℕ, List, [], Bool, false}

pub data Role : Type 0 where
  follower pre_candidate candidate leader : Role

pub record LogEntry : Type 0 where
  pub term : ℕ  -- uint64
  pub index : ℕ  -- uint64
  pub payload : List ℕ  -- Data

pub record Snapshot : Type 0 where
  pub last_included_index : ℕ  -- uint64
  pub last_included_term : ℕ  -- uint64
  pub payload : List ℕ  -- Data

-- Go's zero values.
abbrev pub zero_entry : LogEntry
zero_entry = record { term = 0; index = 0; payload = [] }

abbrev pub zero_snapshot : Snapshot
zero_snapshot = record { last_included_index = 0; last_included_term = 0; payload = [] }

-- An int. Only the eight constants are named; Step does nothing for another number.
pub data MessageType : Type 0 where
  msg_pre_vote msg_pre_vote_response : MessageType
  msg_request_vote msg_request_vote_response : MessageType
  msg_append_entries msg_append_entries_response : MessageType
  msg_install_snapshot msg_install_snapshot_response : MessageType
  msg_other : ℕ → MessageType

pub record Message : Type 0 where
  pub type : MessageType
  pub from : ℕ
  pub to : ℕ
  pub term : ℕ
  pub last_log_index : ℕ
  pub last_log_term : ℕ
  pub vote_granted : Bool
  pub prev_log_index : ℕ
  pub prev_log_term : ℕ
  pub entries : List LogEntry
  pub leader_commit : ℕ
  pub success : Bool
  pub match_index : ℕ
  pub read_context : ℕ
  pub snapshot : Snapshot

-- `Message{Type: t, To: to}`: the other fields are zero.
abbrev pub blank : MessageType → ℕ → Message
blank t to = record {
  type = t;
  from = 0;
  to = to;
  term = 0;
  last_log_index = 0;
  last_log_term = 0;
  vote_granted = false;
  prev_log_index = 0;
  prev_log_term = 0;
  entries = [];
  leader_commit = 0;
  success = false;
  match_index = 0;
  read_context = 0;
  snapshot = zero_snapshot;
}

pub record ReadState : Type 0 where
  pub index : ℕ
  pub context : ℕ

pub record HardState : Type 0 where
  pub term : ℕ
  pub vote : ℕ
