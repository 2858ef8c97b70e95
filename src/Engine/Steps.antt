-- ===== src/Engine/Steps.antt =====
-- engine/engine.go: the steps of an engine, whose writes and background flushes interleave.
use mathlib.Core.Path.{subst}
use key_value_store.Prelude.{
  ℕ, ◌≡◌, refl, sym, ap, ◌∙◌, inl, inr, List, [], ◌∷◌, ◌++◌, Bool, true, false, ◌&&◌, Option, none,
  some, All, All-append, map, leb, if◌then◌else◌, Bool-cases, Outcome, ok, err, panic, stuck,
  append-nil, append_assoc, arith, io_error, closed_engine, flush_failed, ◌==◌,
}
use key_value_store.Wal.Record.{Record}
use key_value_store.Wal.Record.RoundTrip.{Fits}
use key_value_store.Wal.Append.{Wal, append_batch}
use key_value_store.Wal.Append.Crash.{append_batch_recovers}
use key_value_store.Memtable.Table
use key_value_store.Memtable.Table.{Memtable, new_memtable}
use key_value_store.Memtable.Table.Laws.{new_memtable-Holds}
use key_value_store.Memtable.Table.History.{Write, insert_all, last_write}
use key_value_store.Engine.State.{Engine, WalHandle, Flush, Reader}
use key_value_store.Engine.Write.{
  BatchOp, number_ops, seq_after, apply_ops, start_flush, appended, write_batch, apply_batch,
}
use key_value_store.Engine.Flush.{install, finish_flush, remove_wal, flush_begin}
use key_value_store.Engine.Layers.{write_of, seen, value_of, MadeFrom, get-MadeFrom}
use key_value_store.Engine.Invariant.{
  latest-number_ops, apply_ops-MadeFrom, LogHas, FrozenBy, LogsOf, Serves, Descending,
  frozen_handles, number_of, table_number, pending,
}

-- A log that opens is empty.
abbrev pub OpensEmpty : Outcome Wal → Type 0
OpensEmpty opened = (log : Wal) → opened ≡ ok log → LogHas log []

-- Where no flush is running, no memtable is frozen.
no_frozen :
    (m : Option Memtable) (f : Option Flush) (frozen : List (List Record))
    → m ≡ none
    → FrozenBy m f frozen
    → frozen ≡ []
no_frozen none none frozen e h = h
no_frozen none (some f) frozen e h = absurd h
no_frozen (some m) f frozen e h = cc

no_flush :
    (m : Option Memtable) (f : Option Flush) (frozen : List (List Record))
    → m ≡ none
    → FrozenBy m f frozen
    → f ≡ none
no_flush none none frozen e h = refl
no_flush none (some f) frozen e h = absurd h
no_flush (some m) f frozen e h = cc

start_flush-Serves :
    (opened : Outcome Wal) (rnd : ℕ → Bool) (e : Engine) (ops : List BatchOp)
    → e.immutable ≡ none
    → OpensEmpty opened
    → Serves e ops
    → Serves (start_flush opened rnd e).0 ops
unfolding start_flush seen insert_all last_write
start_flush-Serves (ok log) rnd e ops idle empty s = record {
  current = [];
  frozen = s.current ∷ [];
  tables = s.tables;
  log = empty log refl;
  mem = new_memtable-Holds rnd;
  frozen_by = (s.current, refl, s.log, s.mem, refl);
  read = s.read;
  logs = s.logs;
  history = λ key.
      ap (λ f. value_of (seen key (map write_of s.current ∷ (map (map write_of) f ++ s.tables))))
        (sym (no_frozen e.immutable e.flush s.frozen idle s.frozen_by))
      ∙ s.history key;
  open_now = s.open_now;
  wal_numbers = (
    omega arith,
    subst (λ f. Descending e.next_wal_seq (map number_of (e.w ∷ (frozen_handles f ++ e.removing))))
        (no_flush e.immutable e.flush s.frozen idle s.frozen_by) s.wal_numbers,
  );
  table_numbers = (
    omega arith,
    subst (λ f. Descending e.next_flush_seq (pending f ++ map table_number e.sstables))
        (no_flush e.immutable e.flush s.frozen idle s.frozen_by) s.table_numbers,
  );
}
start_flush-Serves (err x) rnd e ops idle empty s = s
start_flush-Serves panic rnd e ops idle empty s = s
start_flush-Serves stuck rnd e ops idle empty s = s

-- The batch is behind the earlier operations once it is in the log and in the memtable.
appended-Serves :
    (seq : ℕ) (new : List BatchOp) (opened : Outcome Wal) (rnd : ℕ → Bool) (e : Engine)
    (o : Outcome (Unit {0})) (old : List BatchOp)
    → e.immutable ≡ none
    → OpensEmpty opened
    → Serves (record e { mem = apply_ops seq new e.mem }) (old ++ new)
    → (appended seq new opened rnd e o).1 ≡ ok tt
    → Serves (appended seq new opened rnd e o).0 (old ++ new)
unfolding appended
appended-Serves seq new opened rnd e (ok _) old idle empty s fine =
    let e' = record e { mem = apply_ops seq new e.mem } in
    elim (Bool-cases (leb e.threshold e'.mem.approx_size)) [
      | inl t ↦ rw t (start_flush-Serves opened rnd e' (old ++ new) idle empty s)
      | inr t ↦ rw t s
    ]
appended-Serves seq new opened rnd e (err x) old idle empty s fine = cc
appended-Serves seq new opened rnd e panic old idle empty s fine = cc
appended-Serves seq new opened rnd e stuck old idle empty s fine = cc

appended_fails :
    (seq : ℕ) (new : List BatchOp) (opened : Outcome Wal) (rnd : ℕ → Bool) (e : Engine)
    (o : Outcome (Unit {0}))
    → o ≡ err io_error
    → (appended seq new opened rnd e o).1 ≡ ok tt
    → ⊥
unfolding appended
appended_fails seq new opened rnd e (ok _) bad fine = cc
appended_fails seq new opened rnd e (err x) bad fine = cc
appended_fails seq new opened rnd e panic bad fine = cc
appended_fails seq new opened rnd e stuck bad fine = cc

-- A call that returns no error has passed its guards.
passes :
    (b c : Bool) (e : Engine) (r : Engine × Outcome (Unit {0}))
    → let guarded : Engine × Outcome (Unit {0}) =
        if b then (e, err closed_engine) else if c then (e, err flush_failed) else r in
      guarded.1 ≡ ok tt → guarded ≡ r
passes true c e r fine = cc
passes false true e r fine = cc
passes false false e r fine = refl

module _ (e : Engine) (old : List BatchOp) (s : Serves e old) where
  -- After an append to the log that has succeeded.
  batch-Serves :
      (new : List BatchOp) (log : Wal) (next : ℕ)
      → LogHas log (s.current ++ number_ops e.next_seq new)
      → Serves
          (record e {
            w = record e.w { log = log };
            next_seq = next;
            mem = apply_ops e.next_seq new e.mem;
          })
          (old ++ new)
  unfolding seen
  batch-Serves new log next has =
      let rs = number_ops e.next_seq new in
      record {
        current = s.current ++ rs;
        frozen = s.frozen;
        tables = s.tables;
        log = has;
        mem = apply_ops-MadeFrom e.next_seq new e.mem s.current s.mem;
        frozen_by = s.frozen_by;
        read = s.read;
        logs = s.logs;
        history = λ key.
            latest-number_ops key e.next_seq s.current old new
              (seen key (map (map write_of) s.frozen ++ s.tables)) (s.history key);
        open_now = s.open_now;
        wal_numbers = s.wal_numbers;
        table_numbers = s.table_numbers;
      }

  write_batch-Serves :
      (new : List BatchOp) (opened : Outcome Wal) (rnd : ℕ → Bool)
      → e.immutable ≡ none
      → OpensEmpty opened
      → All Fits (number_ops e.next_seq new)
      → (write_batch new opened rnd e).1 ≡ ok tt
      → Serves (write_batch new opened rnd e).0 (old ++ new)
  unfolding write_batch
  write_batch-Serves [] opened rnd idle empty fits fine = rw (append-nil old) s
  write_batch-Serves (op ∷ ops) opened rnd idle empty fits fine =
      let new = op ∷ ops in
      let rs = number_ops e.next_seq new in
      let log = (append_batch rs e.w.log).0 in
      let o = (append_batch rs e.w.log).1 in
      let next = record e { w = record e.w { log = log }; next_seq = seq_after e.next_seq new } in
      let (rec, n, replayed, records, outcome) =
        append_batch_recovers s.current rs e.w.log s.log.clean s.log.bytes s.log.fits fits in
      elim outcome [
        | inl (good, all, clean, bytes) ↦
            appended-Serves e.next_seq new opened rnd next o old idle empty
              (batch-Serves new log (seq_after e.next_seq new) (record {
                clean = clean;
                bytes = bytes;
                fits = All-append Fits s.current rs s.log.fits fits;
              }))
              fine
        | inr bad ↦ absurd (appended_fails e.next_seq new opened rnd next o bad fine)
      ]

  pub apply_batch-Serves :
      (waited : Bool) (new : List BatchOp) (opened : Outcome Wal) (rnd : ℕ → Bool)
      → e.immutable ≡ none
      → OpensEmpty opened
      → All Fits (number_ops e.next_seq new)
      → (apply_batch waited new opened rnd e).1 ≡ ok tt
      → Serves (apply_batch waited new opened rnd e).0 (old ++ new)
  unfolding apply_batch
  apply_batch-Serves waited new opened rnd idle empty fits fine =
      let r = write_batch new opened rnd e in
      let same_run = passes (waited && e.closed) e.flush_err e r fine in
      subst (λ x. Serves x.0 (old ++ new)) (sym same_run)
        (write_batch-Serves new opened rnd idle empty fits
          (ap (λ (x : Engine × Outcome (Unit {0})). x.1) (sym same_run) ∙ fine))

  pub flush_begin-Serves :
      (opened : Outcome Wal) (rnd : ℕ → Bool)
      → e.immutable ≡ none
      → OpensEmpty opened
      → Serves (flush_begin opened rnd e).0 old
  unfolding flush_begin
  flush_begin-Serves opened rnd idle empty =
      let start = start_flush-Serves opened rnd e old idle empty s in
      choose e.closed e.flush_err (Table.len e.mem == 0) (start_flush opened rnd e) start
    where
      choose :
          (b c d : Bool) (r : Engine × Outcome (Unit {0}))
          → Serves r.0 old
          → let guarded : Engine × Outcome (Unit {0}) =
              if b
              then (e, err closed_engine)
              else if c
              then (e, err flush_failed)
              else if d
              then (e, ok tt)
              else r in
            Serves guarded.0 old
      choose true c d r h = s
      choose false true d r h = s
      choose false false true r h = s
      choose false false false r h = h

-- The parts of a flush that is running.
frozen_part :
    (m : Option Memtable) (f : Option Flush) (frozen : List (List Record)) (g : Flush)
    → f ≡ some g
    → FrozenBy m f frozen
    → (rs : List Record) × LogHas g.frozen_wal.log rs
      × MadeFrom g.frozen (map write_of rs)
      × (frozen ≡ rs ∷ [])
frozen_part none none frozen g e h = cc
frozen_part none (some f) frozen g e h = absurd h
frozen_part (some m) none frozen g e h = absurd h
frozen_part (some m) (some f) frozen g e (rs, same_m, log, made, one) =
    let same_f : f ≡ g = ground arith in
    (
      rs,
      subst (λ t. LogHas t.frozen_wal.log rs) same_f log,
      subst (λ t. MadeFrom t.frozen (map write_of rs)) same_f made,
      one,
    )

-- The table that a flush has written takes the place of the memtable that it was written from.
pub finish_flush-Serves :
    (f : Flush) (r : Reader) (e : Engine) (ops : List BatchOp)
    → e.flush ≡ some f
    → ((key : List ℕ) → r.get key ≡ ok (Table.get key f.frozen))
    → Serves e ops
    → Serves (finish_flush f (ok tt) (ok r) e) ops
unfolding finish_flush install
finish_flush-Serves f r e ops running reads s =
    let (rs, log, made, one) = frozen_part e.immutable e.flush s.frozen f running s.frozen_by in
    record {
      current = s.current;
      frozen = [];
      tables = map write_of rs ∷ s.tables;
      log = s.log;
      mem = s.mem;
      frozen_by = refl;
      read = (λ key. reads key ∙ ap ok (get-MadeFrom f.frozen (map write_of rs) key made), s.read);
      logs = ((rs, log, refl), s.logs);
      history = λ key.
          ap
            (λ fs.
              value_of (seen key (map write_of s.current ∷ (map (map write_of) fs ++ s.tables))))
            (sym one)
          ∙ s.history key;
      open_now = s.open_now;
      wal_numbers =
          subst
            (λ g.
              Descending e.next_wal_seq (map number_of (e.w ∷ (frozen_handles g ++ e.removing))))
            running s.wal_numbers;
      table_numbers =
          subst (λ g. Descending e.next_flush_seq (pending g ++ map table_number e.sstables))
            running s.table_numbers;
    }

LogsOf-init :
    (hs : List WalHandle) (h : WalHandle) (tables : List (List Write))
    → LogsOf (hs ++ h ∷ []) tables
    → LogsOf hs tables
LogsOf-init [] h tables l = tt
LogsOf-init (g ∷ hs) h [] l = absurd l
LogsOf-init (g ∷ hs) h (ws ∷ tables) l = (l.0, LogsOf-init hs h tables l.1)

Descending-init :
    (hs : List WalHandle) (h : WalHandle) (bound : ℕ)
    → Descending bound (map number_of (hs ++ h ∷ []))
    → Descending bound (map number_of hs)
Descending-init [] h bound d = tt
Descending-init (g ∷ hs) h bound d = (d.0, Descending-init hs h g.number d.1)

-- The oldest log that is left goes away, or an error is noted.
pub remove_wal-Serves :
    (h : WalHandle) (others : List WalHandle) (removed : Outcome (Unit {0})) (e : Engine)
    (ops : List BatchOp)
    → e.removing ≡ others ++ h ∷ []
    → Serves e ops
    → Serves (remove_wal h others removed e) ops
unfolding remove_wal
remove_wal-Serves h others removed e ops oldest s = record {
  current = s.current;
  frozen = s.frozen;
  tables = s.tables;
  log = s.log;
  mem = s.mem;
  frozen_by = s.frozen_by;
  read = s.read;
  logs = LogsOf-init others h s.tables (subst (λ t. LogsOf t s.tables) oldest s.logs);
  history = s.history;
  open_now = s.open_now;
  wal_numbers = Descending-init (e.w ∷ (frozen_handles e.flush ++ others)) h e.next_wal_seq (
      subst (λ l. Descending e.next_wal_seq (map number_of (e.w ∷ l)))
        (ap (λ l. frozen_handles e.flush ++ l) oldest
          ∙ sym (append_assoc (frozen_handles e.flush) others (h ∷ [])))
        s.wal_numbers);
  table_numbers = s.table_numbers;
}
