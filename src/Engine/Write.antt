-- ===== src/Engine/Write.antt =====
-- engine/engine.go: ApplyBatch, Put, Delete and startFlushLocked. A call that finds a flush running
-- is the step that it takes after its wait.
use key_value_store.Prelude.{
  ℕ, ◌+◌, ◌*◌, ◌%◌, ◌^◌, List, [], ◌∷◌, Bool, true, false, ◌&&◌, some, leb, if◌then◌else◌, Outcome,
  ok, err, panic, stuck, closed_engine, flush_failed,
}
use key_value_store.Wal.Record.{Record, record_put, record_delete}
use key_value_store.Wal.Append.{Wal, append_batch}
use key_value_store.Memtable.Table
use key_value_store.Memtable.Table.{Memtable, new_memtable}
use key_value_store.Engine.State.{Engine}

pub record BatchOp : Type 0 where
  pub key : List ℕ
  pub value : List ℕ
  pub deleted : Bool

-- The default of withDefaults for a threshold that is not set.
unfoldable pub default_threshold : ℕ → ℕ
default_threshold threshold = if leb threshold 0 then 4 * 1024 * 1024 else threshold

-- `e.nextSeq++`.
abbrev pub after_seq : ℕ → ℕ
after_seq seq = (seq + 1) % 2 ^ 64

abbrev pub record_of : ℕ → BatchOp → Record
record_of seq op = record {
  type = if op.deleted then record_delete else record_put;
  seq_num = seq;
  key = op.key;
  value = op.value;
}

-- The records of a batch, numbered from a sequence number on, and the number after them.
unfoldable pub number_ops : ℕ → List BatchOp → List Record
number_ops seq [] = []
number_ops seq (op ∷ ops) = record_of seq op ∷ number_ops (after_seq seq) ops

unfoldable pub seq_after : ℕ → List BatchOp → ℕ
seq_after seq [] = seq
seq_after seq (op ∷ ops) = seq_after (after_seq seq) ops

unfoldable pub apply_op : ℕ → BatchOp → Memtable → Memtable
apply_op seq op m =
    if op.deleted then Table.delete op.key seq m else Table.put op.key op.value seq m

unfoldable pub apply_ops : ℕ → List BatchOp → Memtable → Memtable
apply_ops seq [] m = m
apply_ops seq (op ∷ ops) m = apply_ops (after_seq seq) ops (apply_op seq op m)

-- startFlushLocked, with the log that was opened and the draws of the new memtable.
unfoldable pub start_flush : Outcome Wal → (ℕ → Bool) → Engine → Engine × Outcome (Unit {0})
start_flush (ok log) rnd e = (
  record e {
    w = record { number = e.next_wal_seq; log = log };
    next_wal_seq = e.next_wal_seq + 1;
    mem = new_memtable rnd;
    immutable = some e.mem;
    flush = some (record { frozen = e.mem; frozen_wal = e.w; flush_seq = e.next_flush_seq });
    next_flush_seq = e.next_flush_seq + 1;
  },
  ok tt,
)
start_flush (err x) rnd e = (e, err x)
start_flush panic rnd e = (e, panic)
start_flush stuck rnd e = (e, stuck)

-- The batch is durable: it goes into the memtable, which is frozen if it has grown enough.
unfoldable pub appended :
    ℕ
    → List BatchOp
    → Outcome Wal
    → (ℕ → Bool)
    → Engine
    → Outcome (Unit {0})
    → Engine × Outcome (Unit {0})
appended seq ops opened rnd e (ok _) =
    let e = record e { mem = apply_ops seq ops e.mem } in
    if leb e.threshold e.mem.approx_size then start_flush opened rnd e else (e, ok tt)
appended seq ops opened rnd e (err x) = (e, err x)
appended seq ops opened rnd e panic = (e, panic)
appended seq ops opened rnd e stuck = (e, stuck)

unfoldable pub write_batch :
    List BatchOp → Outcome Wal → (ℕ → Bool) → Engine → Engine × Outcome (Unit {0})
write_batch [] opened rnd e = (e, ok tt)
write_batch (op ∷ ops) opened rnd e =
    let (log, o) = append_batch (number_ops e.next_seq (op ∷ ops)) e.w.log in
    appended e.next_seq (op ∷ ops) opened rnd
      (record e { w = record e.w { log = log }; next_seq = seq_after e.next_seq (op ∷ ops) }) o

-- ApplyBatch, which is told whether it waited for a flush.
unfoldable pub apply_batch :
    Bool → List BatchOp → Outcome Wal → (ℕ → Bool) → Engine → Engine × Outcome (Unit {0})
apply_batch waited ops opened rnd e =
    if waited && e.closed
    then (e, err closed_engine)
    else if e.flush_err
    then (e, err flush_failed)
    else write_batch ops opened rnd e

unfoldable pub put :
    Bool → List ℕ → List ℕ → Outcome Wal → (ℕ → Bool) → Engine → Engine × Outcome (Unit {0})
put waited key value =
    apply_batch waited (record { key = key; value = value; deleted = false } ∷ [])

unfoldable pub delete :
    Bool → List ℕ → Outcome Wal → (ℕ → Bool) → Engine → Engine × Outcome (Unit {0})
delete waited key = apply_batch waited (record { key = key; value = []; deleted = true } ∷ [])
