-- ===== src/Raft.antt =====
-- The consensus state machine, raft/: its data, its log, its messages and its handlers. A method
-- that changes `*Raft` takes and returns the record. A uint64 wraps where the code adds or
-- subtracts, and an `int` counter of ticks or peers does not reach its bounds.
pub mod Types
pub mod State
pub mod Log
pub mod Replication
pub mod Election
pub mod ReadIndex
pub mod Append
pub mod Step
pub mod Frame
pub mod AppendFrame
pub mod Votes
pub mod VoteReplies
pub mod LogShape
pub mod Invariant
pub mod AppendOne
pub mod AppendLoop
pub mod Calm
pub mod Preserve
pub mod Follower
pub mod Proposals
pub mod CommitRule
pub mod Leader
pub mod Hazards
pub mod Reachable
pub mod Storage
pub mod Node
