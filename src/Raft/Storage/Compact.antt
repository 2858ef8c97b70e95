-- ===== src/Raft/Storage/Compact.antt =====
-- raft/storage.go: SaveSnapshot replaces the log as a whole, or leaves it.
use mathlib.Core.Path.{subst}
use key_value_store.Prelude.{
  All-append, ℕ, ◌≡◌, ◌⊎◌, inl, inr, refl, sym, ap, ◌∙◌, List, [], ◌∷◌, ◌++◌, map, All, Bool, true,
  Bool-cases, none, Outcome, ok, err, panic, stuck, io_error,
}
use key_value_store.Wal.Record.{Record}
use key_value_store.Wal.Record.RoundTrip.{Fits}
use key_value_store.Wal.Replay.Rounds.{encode_all}
use key_value_store.Wal.Append.{File, Wal, open_wal, close}
use key_value_store.Wal.Append.Crash.{IsClean}
use key_value_store.Raft.Types.{LogEntry, HardState, Snapshot}
use key_value_store.Raft.Storage.Records.{FitsState}
use key_value_store.Raft.Storage.Recover.{Persisted, nothing, kept_after, recover}
use key_value_store.Raft.Storage.Save.{
  Storage, Compaction, numbered, next_seq, state_value, snapshot_value, entry_value,
  write_compacted, reopen, install_compacted, compact_into, save_snapshot,
}
use key_value_store.Raft.Storage.Items.{
  state, boundary, entry, value_of, FitsItem, applied, map-entry, All-entry, recover-numbered,
  recover-append, applied_all-entries,
}
use key_value_store.Raft.Storage.Crash.{
  Stores, Opens, Stores-Opens, numbered-Fits, encode_all-OpensFile,
}
use key_value_store.Wal.Append.Closing.{
  append_batch-Written, close-Kept, Closed, then-Closed, close-Closed,
}

-- The path names the new file. The storage appends to it, or there is an error.
abbrev Compacted : Storage × Outcome (Unit {0}) → Persisted → Type 0
Compacted x q = Opens x.0 q × (((x.1 ≡ ok tt) × Stores x.0 q) ⊎ (x.1 ≡ err io_error))

abbrev Atomic : Storage × Outcome (Unit {0}) → Persisted → Persisted → Type 0
Atomic x p q = (Opens x.0 p × (x.1 ≡ err io_error)) ⊎ Compacted x q

-- The records of a compacted log.
abbrev compacted : HardState → Snapshot → List LogEntry → List Record
compacted hs snap es =
    (numbered 0 (state_value hs ∷ []) ++ numbered 1 (snapshot_value snap ∷ []))
    ++ numbered 2 (map value_of (map entry es))

module _ (hs : HardState) (snap : Snapshot) (es : List LogEntry) (h : FitsItem (state hs))
    (k : FitsItem (boundary snap)) (l : All FitsState es) where
  first-Fits : All Fits (numbered 0 (state_value hs ∷ []))
  first-Fits = numbered-Fits 0 (state hs ∷ []) (h, tt)

  second-Fits : All Fits (numbered 1 (snapshot_value snap ∷ []))
  second-Fits = numbered-Fits 1 (boundary snap ∷ []) (k, tt)

  third-Fits : All Fits (numbered 2 (map value_of (map entry es)))
  third-Fits = numbered-Fits 2 (map entry es) (All-entry es l)

  compacted-Fits : All Fits (compacted hs snap es)
  compacted-Fits =
      All-append Fits (numbered 0 (state_value hs ∷ []) ++ numbered 1 (snapshot_value snap ∷ []))
        (numbered 2 (map value_of (map entry es)))
        (All-append Fits (numbered 0 (state_value hs ∷ [])) (numbered 1 (snapshot_value snap ∷ []))
          first-Fits second-Fits)
        third-Fits

  write_compacted-Closed :
      (f : File) → f.bytes ≡ [] → Closed (write_compacted hs snap es f) (compacted hs snap es)
  unfolding write_compacted
  write_compacted-Closed f empty =
      let first = numbered 0 (state_value hs ∷ []) in
      let second = numbered 1 (snapshot_value snap ∷ []) in
      let third = numbered 2 (map value_of (map entry es)) in
      let new : IsClean (open_wal f true) =
        unfold open_wal in record { buffer = refl; broken = refl; closed = refl } in
      let none_yet : (open_wal f true).file.bytes ≡ encode_all [] = unfold open_wal in empty in
      rw (map-entry es) (
        then-Closed _ _ first ((first ++ second) ++ third)
          (append_batch-Written [] first (open_wal f true) new none_yet tt first-Fits)
          (λ w c b.
            then-Closed _ _ (first ++ second) ((first ++ second) ++ third)
              (append_batch-Written first second w c b first-Fits second-Fits)
              (λ w' c' b'.
                then-Closed _ _ ((first ++ second) ++ third) ((first ++ second) ++ third)
                  (append_batch-Written (first ++ second) third w' c' b'
                    (All-append Fits first second first-Fits second-Fits) third-Fits)
                  (λ w'' c'' b''. close-Closed w'' ((first ++ second) ++ third) c'' b''))))

  -- What the compacted log stands for.
  abbrev pub snapshotted : Persisted
  snapshotted = record { hard_state = hs; log = es; snapshot = snap }

  recover-compacted : recover (compacted hs snap es) nothing ≡ ok snapshotted
  unfolding kept_after
  recover-compacted =
      let first = numbered 0 (state_value hs ∷ []) in
      let second = numbered 1 (snapshot_value snap ∷ []) in
      let third = numbered 2 (map value_of (map entry es)) in
      let p = applied (state hs) nothing in
      let q = applied (boundary snap) p in
      recover-append (first ++ second) third nothing q (
        recover-append first second nothing p (recover-numbered 0 (state hs ∷ []) nothing (h, tt))
        ∙ recover-numbered 1 (boundary snap ∷ []) p (k, tt))
      ∙ recover-numbered 2 (map entry es) q (All-entry es l)
      ∙ ap ok (applied_all-entries es q)

  reopen-Compacted :
      (reopens : Bool) (seq : ℕ) (f : File) (s : Storage) (x : Wal × Outcome (Unit {0}))
      → f.bytes ≡ encode_all (compacted hs snap es)
      → (x.1 ≡ ok tt) ⊎ (x.1 ≡ err io_error)
      → Compacted (reopen reopens seq f s x) snapshotted
  unfolding reopen
  reopen-Compacted reopens seq f s (old, ok _) b o = elim (Bool-cases reopens) [
    | inl e ↦ rw e (
        let stores : Stores (record { wal = open_wal f true; seq = seq; replaced = none })
            snapshotted =
          unfold open_wal in
          record {
            clean = record { buffer = refl; broken = refl; closed = refl };
            in_place = refl;
            records = compacted hs snap es;
            bytes = b;
            fits = compacted-Fits;
            recovers = recover-compacted;
          } in
        (Stores-Opens _ snapshotted stores, inl (refl, stores)))
    | inr e ↦ rw e (
      encode_all-OpensFile f (compacted hs snap es) snapshotted b compacted-Fits recover-compacted,
      inr refl,
    )
  ]
  reopen-Compacted reopens seq f s (old, err x) b (inl e) = absurd cc
  reopen-Compacted reopens seq f s (old, err x) b (inr e) = (
    encode_all-OpensFile f (compacted hs snap es) snapshotted b compacted-Fits recover-compacted,
    inr e,
  )
  reopen-Compacted reopens seq f s (old, panic) b (inl e) = absurd cc
  reopen-Compacted reopens seq f s (old, panic) b (inr e) = absurd cc
  reopen-Compacted reopens seq f s (old, stuck) b (inl e) = absurd cc
  reopen-Compacted reopens seq f s (old, stuck) b (inr e) = absurd cc

  install-Atomic :
      (c : Compaction) (seq : ℕ) (x : Wal × Outcome (Unit {0})) (s : Storage) (p : Persisted)
      → Stores s p
      → Closed x (compacted hs snap es)
      → Atomic (install_compacted c seq x s) p snapshotted
  unfolding install_compacted
  install-Atomic c seq (w, ok _) s p st (inl (e, b)) = elim (Bool-cases c.renames) [
    | inl e ↦ simp e (
        inr (reopen-Compacted c.reopens seq w.file s (close s.wal) b (close-Kept s.wal st.clean).1))
    | inr e ↦ simp e (inl (Stores-Opens s p st, refl))
  ]
  install-Atomic c seq (w, ok _) s p st (inr e) = absurd cc
  install-Atomic c seq (w, err x) s p st (inl (e, b)) = absurd cc
  install-Atomic c seq (w, err x) s p st (inr e) = inl (Stores-Opens s p st, e)
  install-Atomic c seq (w, panic) s p st (inl (e, b)) = absurd cc
  install-Atomic c seq (w, panic) s p st (inr e) = absurd cc
  install-Atomic c seq (w, stuck) s p st (inl (e, b)) = absurd cc
  install-Atomic c seq (w, stuck) s p st (inr e) = absurd cc

  -- SaveSnapshot is atomic, while writes, syncs, the closing of files, the rename and the reopening
  -- may fail at any point. Either it returns an error and opening the storage finds what was stored
  -- before, or opening it finds the given term, vote, snapshot and entries; then it may have
  -- succeeded, and the storage is ready for more, or have returned an error. The storage was open
  -- and stored a state before, nothing of it buffered; the temporary file
  -- opens empty, the numbers are below 2 ^ 64, and the data fits a record.
  pub save_snapshot_atomic :
      (c : Compaction) (f : File) (s : Storage) (p : Persisted)
      → Stores s p
      → c.temporary ≡ ok f
      → f.bytes ≡ []
      → let (s', o) = save_snapshot c hs snap es s in
        (Opens s' p × (o ≡ err io_error))
        ⊎ (Opens s' snapshotted × (((o ≡ ok tt) × Stores s' snapshotted) ⊎ (o ≡ err io_error)))
  unfolding save_snapshot compact_into
  save_snapshot_atomic c f s p st opened empty =
      subst (λ t. Atomic (compact_into t c hs snap es s) p snapshotted) (sym opened)
        (install-Atomic c (next_seq 2 (map entry_value es)) (write_compacted hs snap es f) s p st
          (write_compacted-Closed f empty))
