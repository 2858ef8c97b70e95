-- ===== src/Raft/Log.antt =====
-- raft/raft.go: the log of one node, and its compaction.
use key_value_store.Prelude.{
  ℕ, zero, suc, ◌+◌, ◌-◌, List, [], ◌∷◌, ◌||◌, ltb, leb, if◌then◌else◌, length, take, drop, Outcome,
  ok, panic, err, not_committed, not_newer,
}
use key_value_store.Raft.Types.{LogEntry, zero_entry}
use key_value_store.Raft.State.{Raft, last_log_index, base}

-- `r.log[i]`. A position past the end would panic in Go; a contiguous log has none between its
-- sentinel and its last index.
unfoldable pub nth : LogEntry → List LogEntry → ℕ → LogEntry
nth e es zero = e
nth e [] (suc i) = zero_entry
nth e (x ∷ xs) (suc i) = nth x xs i

-- `logPos(index)`, for an index that is not before the sentinel.
abbrev pub log_pos : Raft → ℕ → ℕ
log_pos r index = index - base r

-- termAt: 0 outside what the log covers.
unfoldable pub term_at : Raft → ℕ → ℕ
term_at r index =
    if ltb index (base r) || ltb (last_log_index r) index
    then 0
    else (nth r.sentinel r.log (log_pos r index)).term

-- Entries(start, end): the entries in (start, end], between the sentinel and the last one.
unfoldable pub entries : Raft → ℕ → ℕ → List LogEntry
entries r start end =
    let end' = if ltb (last_log_index r) end then last_log_index r else end in
    let start' = if ltb start (base r) then base r else start in
    if leb end' start'
    then []
    else take (log_pos r end' - log_pos r start') (drop (log_pos r start') r.log)

unfoldable pub compact : Raft → ℕ → List ℕ → ℕ → Raft
compact r index payload term = record r {
  sentinel = record { term = term; index = index; payload = [] };
  log = drop (log_pos r index) r.log;
  unstable_index = if leb r.unstable_index index then index + 1 else r.unstable_index;
  snapshot = record { last_included_index = index; last_included_term = term; payload = payload };
}

-- CreateSnapshot(index, data). The index is at most the commit index, so adding 1 does not wrap. A
-- position past the end of the log, where the commit index is ahead of it, panics.
unfoldable pub create_snapshot : Raft → ℕ → List ℕ → Outcome Raft
unfolding compact
create_snapshot r index payload =
    if ltb r.commit_index index
    then err not_committed
    else if leb index (base r)
    then err not_newer
    else if ltb (length r.log) (log_pos r index)
    then panic
    else ok (compact r index payload (term_at r index))
