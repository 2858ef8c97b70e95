-- ===== src/Raft/Node/Persist.antt =====
-- raft/node.go: what Persist has saved when it releases messages.
use key_value_store.Raft.Node.Saves.{
  current, Tracks, FitsRaft, Saved, save_changes-Saved, advance-Tracks,
}
use key_value_store.Prelude.{
  some, ltb, panic, stuck, ◌-◌, ◌<◌, ◌≡◌, ◌⊎◌, inl, inr, refl, ap, ◌∙◌, [], drop, arith, Bool-cases,
  none, Outcome, ok, err, io_error,
}
use key_value_store.Raft.State.{Raft, ready, base, last_log_index}
use key_value_store.Raft.Log.{entries}
use key_value_store.Raft.Leader.{entries_after}
use key_value_store.Wal.Append.{File}
use key_value_store.Raft.Storage.Compact.{save_snapshot_atomic}
use key_value_store.Raft.Invariant.{WellFormed, last_log_index_lem}
use key_value_store.Raft.Storage.Recover.{Persisted}
use key_value_store.Raft.Storage.Save.{Storage, Compaction}
use key_value_store.Raft.Storage.Crash.{Stores, Opens, Stores-Opens}
use key_value_store.Raft.Node.{Node, save_ready, finish, persist}

-- SaveSnapshot saves the whole node too.
save_snapshot-Saved :
    (c : Compaction) (f : File) (r : Raft) (s : Storage) (p : Persisted)
    → WellFormed r
    → FitsRaft r
    → base r ≡ r.snapshot.last_included_index
    → Stores s p
    → c.temporary ≡ ok f
    → f.bytes ≡ []
    → Saved (save_ready c r (some r.snapshot) s) (current r)
unfolding save_ready
save_snapshot-Saved c f r s p w fits edge h opened empty =
    let whole : entries r r.snapshot.last_included_index (last_log_index r) ≡ r.log =
      entries_after r r.snapshot.last_included_index w (omega (arith, edge))
        (omega (arith, edge, last_log_index_lem r w))
      ∙ ap (λ n. drop n r.log) none_before in
    rw whole
      (elim (save_snapshot_atomic (current r).hard_state r.snapshot r.log
        (fits.current_term, fits.voted_for) fits.snapshot fits.log c f s p h opened empty) [
          | inl (old, failed) ↦ inr failed
          | inr (new, outcome) ↦ elim outcome [
            | inl (fine, stores) ↦ inl (fine, stores)
            | inr failed ↦ inr failed
          ]
        ])
  where
    none_before : r.snapshot.last_included_index - base r ≡ 0
    none_before = omega (arith, edge)

-- A snapshot was taken or received that is not saved yet, so that SaveSnapshot is called.
abbrev pub SnapshotPending : Raft → Type 0
SnapshotPending r = r.stable_snapshot_index < r.snapshot.last_included_index

save_ready-Saved :
    (c : Compaction) (f : File) (r : Raft) (s : Storage) (p : Persisted)
    → WellFormed r
    → FitsRaft r
    → base r ≡ r.snapshot.last_included_index
    → Stores s p
    → SnapshotPending r ⊎ Tracks r p
    → c.temporary ≡ ok f
    → f.bytes ≡ []
    → Saved (save_ready c r (ready r).snapshot s) (current r)
save_ready-Saved c f r s p w fits edge h t opened empty =
    elim (Bool-cases (ltb r.stable_snapshot_index r.snapshot.last_included_index)) [
      | inl e ↦
          let new : (ready r).snapshot ≡ some r.snapshot = unfold ready in rw e refl in
          rw new (save_snapshot-Saved c f r s p w fits edge h opened empty)
      | inr e ↦
          let old : (ready r).snapshot ≡ none = unfold ready in rw e refl in
          let tracks : Tracks r p = elim t [ inl new ↦ absurd (ground arith) | inr h ↦ h ] in
          rw old (unfold save_ready in save_changes-Saved r w fits s p h tracks)
    ]

finish-Saved :
    (r : Raft)
    → WellFormed r
    → FitsRaft r
    → (x : Storage × Outcome (Unit {0})) → Saved x (current r)
    → let (n, o) = finish r x in
      ((o ≡ ok (r.msgs, r.read_states, r.pending_snapshot_to_apply))
        × Opens n.storage (current r)
        × Stores n.storage (current r)
        × Tracks n.raft (current r))
      ⊎ (o ≡ err io_error)
unfolding finish
finish-Saved r w f (s, ok _) (inl (e, h)) =
    inl (refl, Stores-Opens s (current r) h, h, advance-Tracks r w f)
finish-Saved r w f (s, ok _) (inr e) = absurd cc
finish-Saved r w f (s, err x) (inl (e, h)) = absurd cc
finish-Saved r w f (s, err x) (inr e) = inr cc
finish-Saved r w f (s, panic) (inl (e, h)) = absurd cc
finish-Saved r w f (s, panic) (inr e) = absurd cc
finish-Saved r w f (s, stuck) (inl (e, h)) = absurd cc
finish-Saved r w f (s, stuck) (inr e) = absurd cc

-- Persist, while writes, syncs, renames and reopening may fail at any point. Either the messages, the
-- confirmed reads and the snapshot to apply are released; then opening the storage again finds the
-- node's term, vote, log and snapshot, which are what the advanced node counts as stable. Or there
-- is an error, and nothing is released. The node is well formed, its log begins at its snapshot, its
-- numbers are below 2 ^ 64, its data fits a record, the temporary file of a compaction opens empty,
-- and the storage holds the node's stable part, or else holds anything that it has saved while the
-- node has a snapshot that is not saved yet.
pub persist_recovers :
    (c : Compaction) (f : File) (n : Node) (p : Persisted)
    → WellFormed n.raft
    → FitsRaft n.raft
    → Stores n.storage p
    → SnapshotPending n.raft ⊎ Tracks n.raft p
    → base n.raft ≡ n.raft.snapshot.last_included_index
    → c.temporary ≡ ok f
    → f.bytes ≡ []
    → let (n', o) = persist c n in
      ((o ≡ ok (n.raft.msgs, n.raft.read_states, n.raft.pending_snapshot_to_apply))
        × Opens n'.storage (current n.raft)
        × Stores n'.storage (current n.raft)
        × Tracks n'.raft (current n.raft))
      ⊎ (o ≡ err io_error)
unfolding persist
persist_recovers c f n p w fits h t edge opened empty =
    finish-Saved n.raft w fits (save_ready c n.raft (ready n.raft).snapshot n.storage)
      (save_ready-Saved c f n.raft n.storage p w fits edge h t opened empty)
