-- ===== src/Raft/Storage/Recover.antt =====
-- raft/storage.go: OpenStorage, from the records that the replay of the log returns.
use key_value_store.Prelude.{
  ℕ, List, [], ◌∷◌, ◌++◌, ltb, ◌==◌, if◌then◌else◌, Outcome, ok, err, unknown_kind, ◌>>=◌,
}
use key_value_store.Wal.Record.{Record}
use key_value_store.Raft.Types.{LogEntry, HardState, Snapshot, zero_entry, zero_snapshot}
use key_value_store.Raft.Storage.Records.{
  decode_record, decode_hard_state, decode_log_entry, decode_truncate_from, decode_snapshot_payload,
  record_hard_state, record_log_entry, record_truncate_from, record_snapshot,
}

-- The variables of the loop: hs, log and snap.
pub record Persisted : Type 0 where
  pub hard_state : HardState
  pub log : List LogEntry
  pub snapshot : Snapshot

abbrev pub nothing : Persisted
nothing = record { hard_state = record { term = 0; vote = 0 }; log = []; snapshot = zero_snapshot }

-- The two loops that filter the log.
unfoldable pub kept_before : ℕ → List LogEntry → List LogEntry
kept_before first [] = []
kept_before first (e ∷ es) =
    let kept = kept_before first es in if ltb e.index first then e ∷ kept else kept

unfoldable pub kept_after : ℕ → List LogEntry → List LogEntry
kept_after last [] = []
kept_after last (e ∷ es) =
    let kept = kept_after last es in if ltb last e.index then e ∷ kept else kept

-- The `switch` on the kind.
unfoldable pub apply_payload : ℕ → List ℕ → Persisted → Outcome Persisted
apply_payload kind payload p =
    if kind == record_hard_state
    then (do hs ← decode_hard_state payload; ok (record p { hard_state = hs }))
    else if kind == record_log_entry
    then (do e ← decode_log_entry payload; ok (record p { log = p.log ++ (e ∷ []) }))
    else if kind == record_truncate_from
    then (do first ← decode_truncate_from payload; ok (record p { log = kept_before first p.log }))
    else if kind == record_snapshot
    then (do
      s ← decode_snapshot_payload payload
      ok (record p { snapshot = s; log = kept_after s.last_included_index p.log }))
    else err unknown_kind

unfoldable pub apply_record : Record → Persisted → Outcome Persisted
apply_record r p = do (kind, payload) ← decode_record r.value; apply_payload kind payload p

unfoldable pub recover : List Record → Persisted → Outcome Persisted
recover [] p = ok p
recover (r ∷ rs) p = do p' ← apply_record r p; recover rs p'

-- maxSeq.
unfoldable pub max_seq : ℕ → List Record → ℕ
max_seq n [] = n
max_seq n (r ∷ rs) = max_seq (if ltb n r.seq_num then r.seq_num else n) rs

-- The entry that stands for what the snapshot covers.
unfoldable pub sentinel_of : Snapshot → LogEntry
sentinel_of s =
    if ltb 0 s.last_included_index
    then record { term = s.last_included_term; index = s.last_included_index; payload = [] }
    else zero_entry
