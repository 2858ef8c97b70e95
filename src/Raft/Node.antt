-- ===== src/Raft/Node.antt =====
-- raft/node.go: the state machine together with its storage, and persisting before sending.
pub mod Saves
pub mod Persist
pub mod Restart
use key_value_store.Prelude.{
  ℕ, List, Bool, ltb, if◌then◌else◌, Option, none, some, Outcome, ok, err, panic, stuck, ◌>>=◌,
}
use key_value_store.Wal.Append.{File, and_then}
use key_value_store.Raft.Types.{LogEntry, HardState, Snapshot, Message, ReadState}
use key_value_store.Raft.State.{
  Config, Raft, Ready, new, ready, advance, restore_state, last_log_index,
}
use key_value_store.Raft.Log.{entries}
use key_value_store.Raft.Storage.Recover.{Persisted}
use key_value_store.Raft.Storage.Save.{
  Storage, Compaction, save_hard_state, save_entries, save_snapshot, open_storage,
}

pub record Node : Type 0 where
  pub raft : Raft
  pub storage : Storage

-- The snapshot's bookkeeping, where one was recovered.
unfoldable pub with_snapshot : Snapshot → Raft → Raft
with_snapshot s r =
    if ltb 0 s.last_included_index
    then record r { snapshot = s; stable_snapshot_index = s.last_included_index }
    else r

-- OpenNode(cfg, storagePath): the draws of the generator, and the file at the path.
unfoldable pub open_node : Config → (ℕ → ℕ) → File → Outcome (Node × Option Snapshot)
unfolding with_snapshot
open_node c rnd f = do
  (storage, p, log) ← open_storage f
  r ← new c rnd
  ok (
    record {
      raft = with_snapshot p.snapshot (restore_state p.hard_state log r);
      storage = storage;
    },
    if ltb 0 p.snapshot.last_included_index then some p.snapshot else none,
  )

unfoldable pub save_state : Option HardState → Storage → Storage × Outcome (Unit {0})
save_state none s = (s, ok tt)
save_state (some hs) s = save_hard_state hs s

-- Without a new snapshot: the term and the vote first, then the entries.
unfoldable pub save_changes : Ready → Storage → Storage × Outcome (Unit {0})
save_changes rd s =
    and_then (save_state rd.hard_state s) (save_entries rd.first_unstable_index rd.unstable_entries)

unfoldable pub save_ready :
    Compaction → Raft → Option Snapshot → Storage → Storage × Outcome (Unit {0})
unfolding save_changes
save_ready c r none s = save_changes (ready r) s
save_ready c r (some snap) s =
    save_snapshot c (record { term = r.current_term; vote = r.voted_for }) snap
      (entries r snap.last_included_index (last_log_index r)) s

abbrev pub Released : Type 0
Released = List Message × List ReadState × Option Snapshot

-- With an error the node is not advanced, and nothing is released.
unfoldable pub finish : Raft → Storage × Outcome (Unit {0}) → Node × Outcome Released
finish r (s, o) = elim o [
  | ok _ ↦ (
    record { raft = advance r; storage = s },
    ok (r.msgs, r.read_states, r.pending_snapshot_to_apply),
  )
  | err e ↦ (record { raft = r; storage = s }, err e)
  | panic ↦ (record { raft = r; storage = s }, panic)
  | stuck ↦ (record { raft = r; storage = s }, stuck)
]

unfoldable pub persist : Compaction → Node → Node × Outcome Released
unfolding save_ready finish
persist c n = finish n.raft (save_ready c n.raft (ready n.raft).snapshot n.storage)
