-- ===== src/Raft/State.antt =====
-- raft/raft.go: the state of one node, its configuration and its construction, and the
-- Ready/Advance cycle.
use key_value_store.Prelude.{
  ℕ, suc, ◌+◌, ◌-◌, ◌*◌, ◌%◌, ◌^◌, List, [], ◌∷◌, Bool, true, false, not, ◌||◌, Option, none, some,
  ltb, leb, ◌==◌, if◌then◌else◌, drop, Outcome, ok, err, bad_config, ◌>>◌,
}
use key_value_store.Raft.Types.{
  Role, follower, LogEntry, Snapshot, Message, ReadState, HardState, zero_entry, zero_snapshot,
}

-- uint64 addition and subtraction.
abbrev pub add64 : ℕ → ℕ → ℕ
add64 a b = (a + b) % 2 ^ 64

abbrev pub sub64 : ℕ → ℕ → ℕ
sub64 a b = (a + 2 ^ 64 - b) % 2 ^ 64

-- map[uint64]uint64: a key that is not there reads as 0.
abbrev pub IndexMap : Type 0
IndexMap = ℕ → ℕ

abbrev pub set_at : IndexMap → ℕ → ℕ → IndexMap
set_at m k v j = if k == j then v else m j

-- map[uint64]bool with the value true only: the list of its keys.
unfoldable pub contains : ℕ → List ℕ → Bool
contains k [] = false
contains k (x ∷ xs) = x == k || contains k xs

unfoldable pub add_key : ℕ → List ℕ → List ℕ
add_key k xs = if contains k xs then xs else k ∷ xs

pub record PendingRead : Type 0 where
  pub index : ℕ
  pub acked : List ℕ

pub record Config : Type 0 where
  pub id : ℕ
  pub peers : List ℕ
  pub election_tick : ℕ
  pub heartbeat_tick : ℕ

-- The slice `log` is `log[0]`, the sentinel, and the entries behind it. `rnd` is the stream of the
-- generator's draws that are to come.
pub record Raft : Type 0 where
  pub id : ℕ
  pub peers : List ℕ
  pub role : Role
  pub current_term : ℕ
  pub voted_for : ℕ
  pub leader_id : ℕ
  pub sentinel : LogEntry
  pub log : List LogEntry
  pub snapshot : Snapshot
  pub pending_snapshot_to_apply : Option Snapshot
  pub commit_index : ℕ
  pub last_applied : ℕ
  pub stable_term : ℕ
  pub stable_vote : ℕ
  pub unstable_index : ℕ
  pub stable_snapshot_index : ℕ
  pub next_index : IndexMap
  pub match_index : IndexMap
  pub sent_index : IndexMap
  pub votes_received : List ℕ
  pub pre_votes_received : List ℕ
  pub pending_reads : List (ℕ × PendingRead)
  pub read_states : List ReadState
  pub election_tick : ℕ
  pub heartbeat_tick : ℕ
  pub election_elapsed : ℕ
  pub heartbeat_elapsed : ℕ
  pub randomized_election_timeout : ℕ
  pub rnd : ℕ → ℕ
  pub msgs : List Message

abbrev pub guard : Bool → Outcome (Unit {0})
guard true = ok tt
guard false = err bad_config

unfoldable pub valid_peers : ℕ → List ℕ → Outcome (Unit {0})
valid_peers id [] = ok tt
valid_peers id (p ∷ ps) = do guard (not (p == 0)); guard (not (p == id)); valid_peers id ps

unfoldable pub validate : Config → Outcome (Unit {0})
unfolding valid_peers
validate c = do
  guard (not (c.id == 0))
  valid_peers c.id c.peers
  guard (not (leb c.election_tick 0 || leb c.heartbeat_tick 0))
  guard (not (ltb c.election_tick (c.heartbeat_tick * 2)))

-- `r.rnd.Intn(n)`: the next draw, below n.
unfoldable pub reset_election_timeout : Raft → Raft
reset_election_timeout r = record r {
  election_elapsed = 0;
  randomized_election_timeout = r.election_tick + r.rnd 0 % r.election_tick;
  rnd = λ i. r.rnd (suc i);
}

unfoldable pub fresh : Config → (ℕ → ℕ) → Raft
fresh c rnd = record {
  id = c.id;
  peers = c.peers;
  role = follower;
  current_term = 0;
  voted_for = 0;
  leader_id = 0;
  sentinel = zero_entry;
  log = [];
  snapshot = zero_snapshot;
  pending_snapshot_to_apply = none;
  commit_index = 0;
  last_applied = 0;
  stable_term = 0;
  stable_vote = 0;
  unstable_index = 1;
  stable_snapshot_index = 0;
  next_index = λ _. 0;
  match_index = λ _. 0;
  sent_index = λ _. 0;
  votes_received = [];
  pre_votes_received = [];
  pending_reads = [];
  read_states = [];
  election_tick = c.election_tick;
  heartbeat_tick = c.heartbeat_tick;
  election_elapsed = 0;
  heartbeat_elapsed = 0;
  randomized_election_timeout = 0;
  rnd = rnd;
  msgs = [];
}

-- New(cfg), with the draws of the generator that it seeds.
unfoldable pub new : Config → (ℕ → ℕ) → Outcome Raft
unfolding fresh validate reset_election_timeout
new c rnd = do validate c; ok (reset_election_timeout (fresh c rnd))

-- `r.log[len(r.log)-1]`.
unfoldable pub last_of : LogEntry → List LogEntry → LogEntry
last_of e [] = e
last_of e (x ∷ xs) = last_of x xs

abbrev pub last_log_index : Raft → ℕ
last_log_index r = (last_of r.sentinel r.log).index

abbrev pub last_log_term : Raft → ℕ
last_log_term r = (last_of r.sentinel r.log).term

-- `log[0].Index`.
abbrev pub base : Raft → ℕ
base r = r.sentinel.index

-- restoreState. The entries, if there are any, begin with their sentinel.
unfoldable pub restore_log : List LogEntry → Raft → Raft
restore_log [] r = r
restore_log (e ∷ es) r = record r { sentinel = e; log = es }

unfoldable pub restore_indices : Raft → Raft
restore_indices r = record r {
  commit_index = if ltb r.commit_index (base r) then base r else r.commit_index;
  unstable_index = add64 (last_log_index r) 1;
}

unfoldable pub restore_state : HardState → List LogEntry → Raft → Raft
unfolding restore_log restore_indices
restore_state hs entries r = restore_indices (
    restore_log entries (record r {
      current_term = hs.term;
      voted_for = hs.vote;
      stable_term = hs.term;
      stable_vote = hs.vote;
    }))

pub record Status : Type 0 where
  pub id : ℕ
  pub term : ℕ
  pub role : Role
  pub leader : ℕ
  pub commit_index : ℕ
  pub last_log_index : ℕ

unfoldable pub status : Raft → Status
status r = record {
  id = r.id;
  term = r.current_term;
  role = r.role;
  leader = r.leader_id;
  commit_index = r.commit_index;
  last_log_index = last_log_index r;
}

pub record Ready : Type 0 where
  pub hard_state : Option HardState
  pub unstable_entries : List LogEntry
  pub first_unstable_index : ℕ
  pub messages : List Message
  pub read_states : List ReadState
  pub snapshot : Option Snapshot
  pub snapshot_to_apply : Option Snapshot

abbrev is_unstable : Raft → Bool
is_unstable r = leb r.unstable_index (last_log_index r)

-- `r.log[r.logPos(r.unstableIndex):]`, for an unstable index that is not before the sentinel.
unfoldable pub ready : Raft → Ready
ready r = record {
  hard_state =
      if not (r.current_term == r.stable_term) || not (r.voted_for == r.stable_vote)
      then some (record { term = r.current_term; vote = r.voted_for })
      else none;
  unstable_entries =
      if is_unstable r then drop (r.unstable_index - base r) (r.sentinel ∷ r.log) else [];
  first_unstable_index = if is_unstable r then r.unstable_index else 0;
  messages = r.msgs;
  read_states = r.read_states;
  snapshot =
      if ltb r.stable_snapshot_index r.snapshot.last_included_index then some r.snapshot else none;
  snapshot_to_apply = r.pending_snapshot_to_apply;
}

unfoldable pub advance : Raft → Raft
advance r = record r {
  stable_term = r.current_term;
  stable_vote = r.voted_for;
  unstable_index = if is_unstable r then add64 (last_log_index r) 1 else r.unstable_index;
  stable_snapshot_index = r.snapshot.last_included_index;
  pending_snapshot_to_apply = none;
  msgs = [];
  read_states = [];
}
