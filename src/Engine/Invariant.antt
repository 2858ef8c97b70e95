-- ===== src/Engine/Invariant.antt =====
-- engine/engine.go: what an engine holds, and what Get returns of it.
use mathlib.Core.Path.{subst}
use mathlib.Core.List.{map-append}
use key_value_store.Prelude.{
  ℕ, ◌<◌, ◌≡◌, refl, sym, ap, ◌∙◌, List, [], ◌∷◌, ◌++◌, Bool, true, false, Option, none, some, All,
  map, if◌then◌else◌, ok,
}
use key_value_store.Bytes.Order.{same}
use key_value_store.Wal.Record.{Record}
use key_value_store.Wal.Record.RoundTrip.{Fits}
use key_value_store.Wal.Replay.Rounds.{encode_all}
use key_value_store.Wal.Append.{Wal}
use key_value_store.Wal.Append.Crash.{IsClean}
use key_value_store.Memtable.Entries.{EntrySnapshot}
use key_value_store.Memtable.Table
use key_value_store.Memtable.Table.{Memtable}
use key_value_store.Memtable.Table.Laws.{Holds}
use key_value_store.Memtable.Table.History.{
  Write, write_one, write_all, write_all-Holds, insert_all, last_write, entry_of,
}
use key_value_store.Engine.State.{Engine, WalHandle, Flush, TableEntry, or_else, get_memtable, get}
use key_value_store.Engine.Write.{BatchOp, record_of, after_seq, number_ops, apply_op, apply_ops}
use key_value_store.Engine.Layers.{
  write_of, seen, value_of, MadeFrom, TablesRead, get-MadeFrom, seen-cons, get_tables-seen,
  last_write-append,
}

-- The value of a key after operations in order, and what it was before.
unfoldable pub latest : List ℕ → List BatchOp → Option (List ℕ) → Option (List ℕ)
latest key [] old = old
latest key (op ∷ ops) old =
    latest key ops (if same op.key key then (if op.deleted then none else some op.value) else old)

pub latest-append :
    (key : List ℕ) (ops ops' : List BatchOp) (old : Option (List ℕ))
    → latest key (ops ++ ops') old ≡ latest key ops' (latest key ops old)
unfolding latest
latest-append key [] ops' old = refl
latest-append key (op ∷ ops) ops' old =
    latest-append key ops ops'
      (if same op.key key then (if op.deleted then none else some op.value) else old)

-- The write that an operation makes.
op_entry :
    (seq : ℕ) (key value : List ℕ) (deleted : Bool)
    → let w =
        entry_of
          (write_of (record_of seq (record { key = key; value = value; deleted = deleted }))) in
      (w.key ≡ key) × (value_of (some w) ≡ (if deleted then none else some value))
unfolding write_of
op_entry seq key value true = (refl, refl)
op_entry seq key value false = (refl, refl)

-- The records of a batch stand for its operations.
pub last_write-number_ops :
    (key : List ℕ) (seq : ℕ) (ops : List BatchOp) (old : Option EntrySnapshot)
    → value_of (last_write key (map write_of (number_ops seq ops)) old)
      ≡ latest key ops (value_of old)
unfolding number_ops last_write latest
last_write-number_ops key seq [] old = refl
last_write-number_ops key seq (op ∷ ops) old =
    let e = entry_of (write_of (record_of seq op)) in
    let (same_key, value) = op_entry seq op.key op.value op.deleted in
    last_write-number_ops key (after_seq seq) ops (if same e.key key then some e else old)
    ∙ ap (λ o. latest key ops o)
        (branch (same e.key key) (same op.key key) e old (ap (λ k. same k key) same_key)
          (if op.deleted then none else some op.value) value)
  where
    branch :
        (b c : Bool) (e : EntrySnapshot) (old : Option EntrySnapshot)
        → b ≡ c
        → (v : Option (List ℕ)) → value_of (some e) ≡ v
        → value_of (if b then some e else old) ≡ (if c then v else value_of old)
    branch true true e old h v k = k
    branch true false e old h v k = cc
    branch false true e old h v k = cc
    branch false false e old h v k = refl

-- The records of a batch behind others show its operations behind the earlier ones.
pub latest-number_ops :
    (key : List ℕ) (seq : ℕ) (rs : List Record) (old new : List BatchOp)
    (base : Option EntrySnapshot)
    → value_of (last_write key (map write_of rs) base) ≡ latest key old none
    → value_of (last_write key (map write_of (rs ++ number_ops seq new)) base)
      ≡ latest key (old ++ new) none
latest-number_ops key seq rs old new base h =
    let ns = number_ops seq new in
    ap (λ ws. value_of (last_write key ws base)) (map-append write_of rs ns)
    ∙ ap value_of (last_write-append key (map write_of rs) (map write_of ns) base)
    ∙ last_write-number_ops key seq new (last_write key (map write_of rs) base)
    ∙ ap (latest key new) h
    ∙ sym (latest-append key old new none)

apply_op_lem :
    (seq : ℕ) (key value : List ℕ) (deleted : Bool) (m : Memtable)
    → let op : BatchOp = record { key = key; value = value; deleted = deleted } in
      apply_op seq op m ≡ write_one (write_of (record_of seq op)) m
unfolding apply_op write_one write_of
apply_op_lem seq key value true m = refl
apply_op_lem seq key value false m = refl

apply_ops_lem :
    (seq : ℕ) (ops : List BatchOp) (m : Memtable)
    → apply_ops seq ops m ≡ write_all (map write_of (number_ops seq ops)) m
unfolding apply_ops write_all number_ops
apply_ops_lem seq [] m = refl
apply_ops_lem seq (op ∷ ops) m =
    apply_ops_lem (after_seq seq) ops (apply_op seq op m)
    ∙ ap (write_all (map write_of (number_ops (after_seq seq) ops)))
        (apply_op_lem seq op.key op.value op.deleted m)

insert_all-append :
    (ws vs : List Write) (es : List EntrySnapshot)
    → insert_all (ws ++ vs) es ≡ insert_all vs (insert_all ws es)
unfolding insert_all
insert_all-append [] vs es = refl
insert_all-append (w ∷ ws) vs es = insert_all-append ws vs _

-- A batch goes into the memtable behind the records that it was made from.
pub apply_ops-MadeFrom :
    (seq : ℕ) (ops : List BatchOp) (m : Memtable) (rs : List Record)
    → MadeFrom m (map write_of rs)
    → MadeFrom (apply_ops seq ops m) (map write_of (rs ++ number_ops seq ops))
apply_ops-MadeFrom seq ops m rs h =
    let new = map write_of (number_ops seq ops) in
    let old = map write_of rs in
    let whole : map write_of (rs ++ number_ops seq ops) ≡ old ++ new =
      map-append write_of rs (number_ops seq ops) in
    subst (λ ws. Holds (apply_ops seq ops m) (insert_all ws [])) (sym whole)
      (subst (λ es. Holds (apply_ops seq ops m) es) (sym (insert_all-append old new []))
        (subst (λ t. Holds t (insert_all new (insert_all old []))) (sym (apply_ops_lem seq ops m))
          (write_all-Holds new m (insert_all old []) h)))

-- A log that is open, and holds whole records.
pub record LogHas (w : Wal) (rs : List Record) : Type 0 where
  pub clean : IsClean w
  pub bytes : w.file.bytes ≡ encode_all rs
  pub fits : All Fits rs

-- The memtable of a flush that is running, and its log.
abbrev pub FrozenBy : Option Memtable → Option Flush → List (List Record) → Type 0
FrozenBy none none frozen = frozen ≡ []
FrozenBy none (some f) frozen = ⊥
FrozenBy (some m) none frozen = ⊥
FrozenBy (some m) (some f) frozen =
    (rs : List Record) × (m ≡ f.frozen)
    × LogHas f.frozen_wal.log rs
    × MadeFrom f.frozen (map write_of rs)
    × (frozen ≡ rs ∷ [])

-- The logs that are left to remove are those of the newest tables.
abbrev pub LogsOf : List WalHandle → List (List Write) → Type 0
LogsOf [] tables = Unit {0}
LogsOf (h ∷ hs) [] = ⊥
LogsOf (h ∷ hs) (ws ∷ tables) =
    ((rs : List Record) × LogHas h.log rs × (ws ≡ map write_of rs)) × LogsOf hs tables

abbrev pub layers : List Record → List (List Record) → List (List Write) → List (List Write)
layers current frozen tables = map write_of current ∷ (map (map write_of) frozen ++ tables)

-- Numbers of files, the newest first, below a bound.
abbrev pub Descending : ℕ → List ℕ → Type 0
Descending bound [] = Unit {0}
Descending bound (n ∷ ns) = (n < bound) × Descending n ns

-- The logs that are on the disk, the newest first.
abbrev pub frozen_handles : Option Flush → List WalHandle
frozen_handles none = []
frozen_handles (some f) = f.frozen_wal ∷ []

abbrev pub wal_handles : Engine → List WalHandle
wal_handles e = e.w ∷ (frozen_handles e.flush ++ e.removing)

abbrev pub number_of : WalHandle → ℕ
number_of h = h.number

abbrev pub table_number : TableEntry → ℕ
table_number t = t.number

abbrev pub pending : Option Flush → List ℕ
pending none = []
pending (some f) = f.flush_seq ∷ []

-- Every file has a number of its own, and newer files have higher ones.
abbrev pub WalsNumbered : Engine → Type 0
WalsNumbered e = Descending e.next_wal_seq (map number_of (wal_handles e))

abbrev pub TablesNumbered : Engine → Type 0
TablesNumbered e = Descending e.next_flush_seq (pending e.flush ++ map table_number e.sstables)

-- An engine holds the result of operations: in its memtable, which is what its log says, in the
-- memtable of a flush, and in its tables.
pub record Serves (e : Engine) (ops : List BatchOp) : Type 0 where
  pub current : List Record
  pub frozen : List (List Record)
  pub tables : List (List Write)
  pub log : LogHas e.w.log current
  pub mem : MadeFrom e.mem (map write_of current)
  pub frozen_by : FrozenBy e.immutable e.flush frozen
  pub read : TablesRead e.sstables tables
  pub logs : LogsOf e.removing tables
  pub history :
      (key : List ℕ) → value_of (seen key (layers current frozen tables)) ≡ latest key ops none
  pub open_now : e.closed ≡ false
  pub wal_numbers : WalsNumbered e
  pub table_numbers : TablesNumbered e

frozen-seen :
    (key : List ℕ) (m : Option Memtable) (f : Option Flush) (frozen : List (List Record))
    (tables : List (List Write))
    → FrozenBy m f frozen
    → or_else (get_memtable key m) (ok (value_of (seen key tables)))
      ≡ ok (value_of (seen key (map (map write_of) frozen ++ tables)))
unfolding get_memtable
frozen-seen key none none frozen tables h = rw h refl
frozen-seen key none (some f) frozen tables h = absurd h
frozen-seen key (some m) none frozen tables h = absurd h
frozen-seen key (some m) (some f) frozen tables (rs, same_m, log, made, e) =
    rw (e, same_m, get-MadeFrom f.frozen (map write_of rs) key made)
      (seen-cons key (map write_of rs) tables)

-- Get returns the value of the last operation on the key, wherever the engine holds it.
pub get-Serves :
    (e : Engine) (ops : List BatchOp) (key : List ℕ)
    → Serves e ops
    → get key e ≡ ok (latest key ops none)
unfolding get
get-Serves e ops key s =
    let ws = map write_of s.current in
    let rest = map (map write_of) s.frozen ++ s.tables in
    simp s.open_now (
      ap (λ r. or_else (Table.get key e.mem) (or_else (get_memtable key e.immutable) r))
        (get_tables-seen key e.sstables s.tables s.read)
      ∙ ap (λ r. or_else (Table.get key e.mem) r)
          (frozen-seen key e.immutable e.flush s.frozen s.tables s.frozen_by)
      ∙ ap (λ o. or_else o (ok (value_of (seen key rest)))) (get-MadeFrom e.mem ws key s.mem)
      ∙ seen-cons key ws rest
      ∙ ap ok (s.history key))
