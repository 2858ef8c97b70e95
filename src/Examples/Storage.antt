-- ===== src/Examples/Storage.antt =====
-- Examples of saving a node's state.
use key_value_store.Raft.Node.Restart.{Restored, open_node-Restored}
use key_value_store.Prelude.{
  inr, ℕ, ◌≡◌, ◌⊎◌, inl, refl, List, [], ◌∷◌, some, none, true, arith, ok, err, io_error, take, map,
}
use key_value_store.Wal.Append.{File, open_wal}
use key_value_store.Raft.Types.{Snapshot}
use key_value_store.Raft.State.{
  Raft, last_of, new, validate, valid_peers, fresh, reset_election_timeout,
}
use key_value_store.Raft.Log.{compact, create_snapshot, term_at, nth}
use key_value_store.Raft.Storage.Recover.{sentinel_of, Persisted, nothing, recover}
use key_value_store.Raft.Storage.Save.{Storage, file_at, Compaction, save, save_snapshot}
use key_value_store.Raft.Storage.Items.{Item, truncate, value_of, applied_all}
use key_value_store.Raft.Storage.Items.{entry as entry_item}
use key_value_store.Raft.Storage.Crash.{Stores, Opens, Stores-Opens, save_recovers}
use key_value_store.Raft.Storage.Compact.{save_snapshot_atomic}
use key_value_store.Raft.Node.{Node, persist, open_node}
use key_value_store.Raft.Node.Saves.{current, Tracks}
use key_value_store.Raft.Node.Persist.{persist_recovers}
use key_value_store.Examples.Nodes.{config, entry, follow_node}

-- An empty file, whose writes fail after a hundred bytes.
abbrev small_file : File
small_file = record { bytes = []; synced = 0; fault = some 100; syncs = true; closes = true }

abbrev new_storage : Storage
new_storage = record { wal = open_wal small_file true; seq = 0; replaced = none }

new_storage-Stores : Stores new_storage nothing
unfolding open_wal recover
new_storage-Stores = record {
  clean = record { buffer = refl; broken = refl; closed = refl };
  in_place = refl;
  records = [];
  bytes = refl;
  fits = tt;
  recovers = refl;
}

abbrev three_items : List Item
three_items = truncate 1 ∷ entry_item (entry 1 1) ∷ entry_item (entry 1 2) ∷ []

save_recovers_example :
    let (s', o) = save (map value_of three_items) new_storage in
    (n : ℕ) × Opens s' (applied_all (take n three_items) nothing)
    × (((o ≡ ok tt) × (n ≡ 3) × Stores s' (applied_all three_items nothing)) ⊎ (o ≡ err io_error))
save_recovers_example =
    save_recovers three_items new_storage nothing new_storage-Stores
      (omega arith, (omega arith, (omega arith, tt)))

-- It has saved nothing yet, and takes a snapshot up to its first entry.
abbrev unsaved_node : Raft
unsaved_node = record follow_node { stable_term = 0; stable_vote = 0; unstable_index = 1 }

abbrev compacted_node : Raft
compacted_node = compact unsaved_node 1 (9 ∷ []) 1

unsaved_node_snapshot : create_snapshot unsaved_node 1 (9 ∷ []) ≡ ok compacted_node
unfolding create_snapshot term_at nth last_of
unsaved_node_snapshot = refl

abbrev first_persist : Node
first_persist = record { raft = compacted_node; storage = new_storage }

abbrev compaction : Compaction
compaction = record { temporary = ok small_file; renames = true; reopens = true }

persist_recovers_example :
    let (n', o) = persist compaction first_persist in
    ((o ≡ ok ([], [], none))
      × Opens n'.storage (current compacted_node)
      × Stores n'.storage (current compacted_node)
      × Tracks n'.raft (current compacted_node))
    ⊎ (o ≡ err io_error)
unfolding compact
persist_recovers_example =
    persist_recovers compaction small_file first_persist nothing (omega arith) (omega arith)
      new_storage-Stores (inl (omega arith)) refl refl refl

abbrev snapshot_at_two : Snapshot
snapshot_at_two = record { last_included_index = 2; last_included_term = 1; payload = 9 ∷ [] }

save_snapshot_atomic_example :
    let (s', o) =
      save_snapshot compaction
        (record { term = 1; vote = 0 })
        snapshot_at_two
        (entry 1 3 ∷ [])
        new_storage in
    let q : Persisted = record {
      hard_state = record { term = 1; vote = 0 };
      log = entry 1 3 ∷ [];
      snapshot = snapshot_at_two;
    } in
    (Opens s' nothing × (o ≡ err io_error))
    ⊎ (Opens s' q × (((o ≡ ok tt) × Stores s' q) ⊎ (o ≡ err io_error)))
save_snapshot_atomic_example =
    save_snapshot_atomic (record { term = 1; vote = 0 }) snapshot_at_two (entry 1 3 ∷ [])
      (omega arith, omega arith) (omega arith) (omega arith, tt) compaction small_file new_storage
      nothing new_storage-Stores refl refl

-- It has the term and the vote of a new node, and an empty log.
abbrev blank_node : Raft
blank_node = record follow_node { current_term = 0; log = []; commit_index = 0; unstable_index = 1 }

open_node-Restored_example :
    (n : Node) × (open_node config (λ _. 0) (file_at new_storage) ≡ ok (n, none))
    × Restored blank_node n.raft
unfolding new validate valid_peers sentinel_of
open_node-Restored_example =
    open_node-Restored config (λ _. 0) blank_node (omega arith) refl new_storage
      (reset_election_timeout (fresh config (λ _. 0))) (inr refl) refl
      (Stores-Opens new_storage nothing new_storage-Stores)
