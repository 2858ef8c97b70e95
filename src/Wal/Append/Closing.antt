-- ===== src/Wal/Append/Closing.antt =====
-- wal/wal.go: writing a log that is then closed, and closing one as it is.
use mathlib.Core.Path.{subst}
use key_value_store.Prelude.{
  le→ltb, ℕ, ◌≡◌, ◌⊎◌, inl, inr, refl, ap, ◌∙◌, List, [], ◌++◌, append-nil, All, true, false,
  Bool-cases, Option, none, some, arith, length, ltb, Outcome, ok, err, panic, stuck, io_error,
}
use key_value_store.Wal.Record.{Record}
use key_value_store.Wal.Record.RoundTrip.{Fits}
use key_value_store.Wal.Replay.Rounds.{encode_all}
use key_value_store.Wal.Append.{
  Wal, and_then, append_batch, flush, write_buffer, sync_file, close_file, close,
}
use key_value_store.Wal.Append.Crash.{IsClean, append_batch_recovers}

-- A clean log of these records, or an error.
abbrev Written : Wal × Outcome (Unit {0}) → List Record → Type 0
Written x rs =
    ((x.1 ≡ ok tt) × IsClean x.0 × (x.0.file.bytes ≡ encode_all rs)) ⊎ (x.1 ≡ err io_error)

pub append_batch-Written :
    (old new : List Record) (w : Wal)
    → IsClean w
    → w.file.bytes ≡ encode_all old
    → All Fits old
    → All Fits new
    → Written (append_batch new w) (old ++ new)
append_batch-Written old new w c b h k =
    let (r, n, replayed, records, outcome) = append_batch_recovers old new w c b h k in
    elim outcome [
      | inl (fine, all, clean, bytes) ↦ inl (fine, clean, bytes)
      | inr failed ↦ inr failed
    ]

-- The file keeps these bytes, whether or not there is an error.
abbrev Kept : List ℕ → Wal × Outcome (Unit {0}) → Type 0
Kept b x = (x.0.file.bytes ≡ b) × ((x.1 ≡ ok tt) ⊎ (x.1 ≡ err io_error))

then-Kept :
    (b : List ℕ) (x : Wal × Outcome (Unit {0})) (rest : Wal → Wal × Outcome (Unit {0}))
    → Kept b x
    → ((w : Wal) → w.file.bytes ≡ b → Kept b (rest w))
    → Kept b (and_then x rest)
then-Kept b (w, ok _) rest (h, o) k = k w h
then-Kept b (w, err e) rest h k = h
then-Kept b (w, panic) rest h k = h
then-Kept b (w, stuck) rest h k = h

write_buffer-Kept :
    (fault : Option ℕ) (w : Wal) → w.buffer ≡ [] → Kept w.file.bytes (write_buffer fault w)
unfolding write_buffer
write_buffer-Kept none w h = (ap (λ b. w.file.bytes ++ b) h ∙ append-nil _, inl refl)
write_buffer-Kept (some k) w h =
    let whole : ltb k (length w.buffer) ≡ false = rw h (le→ltb k 0 (omega arith)) in
    simp whole (ap (λ b. w.file.bytes ++ b) h ∙ append-nil _, inl refl)

flush-Kept : (w : Wal) → w.buffer ≡ [] → Kept w.file.bytes (flush w)
unfolding flush
flush-Kept w h = elim (Bool-cases w.broken) [
  | inl e ↦ simp e (refl, inr refl)
  | inr e ↦ simp e (write_buffer-Kept w.file.fault w h)
]

sync_file-Kept : (w : Wal) → Kept w.file.bytes (sync_file w)
unfolding sync_file
sync_file-Kept w = elim (Bool-cases w.file.syncs) [
  | inl e ↦ simp e (refl, inl refl)
  | inr e ↦ simp e (refl, inr refl)
]

close_file-Kept : (w : Wal) → Kept w.file.bytes (close_file w)
unfolding close_file
close_file-Kept w = elim (Bool-cases w.file.closes) [
  | inl e ↦ simp e (refl, inl refl)
  | inr e ↦ simp e (refl, inr refl)
]

-- Closing a log with nothing buffered leaves its bytes as they are.
pub close-Kept : (w : Wal) → IsClean w → Kept w.file.bytes (close w)
unfolding close
close-Kept w h = simp h.closed (
    then-Kept w.file.bytes _ _ (flush-Kept (record w { closed = true }) h.buffer) (λ w' e.
      then-Kept w.file.bytes _ _ (subst (λ b. Kept b (sync_file w')) e (sync_file-Kept w'))
        (λ w'' e'. subst (λ b. Kept b (close_file w'')) e' (close_file-Kept w''))))

-- The log that was compacted holds these records and is closed, or there is an error.
abbrev pub Closed : Wal × Outcome (Unit {0}) → List Record → Type 0
Closed x rs = ((x.1 ≡ ok tt) × (x.0.file.bytes ≡ encode_all rs)) ⊎ (x.1 ≡ err io_error)

pub then-Closed :
    (x : Wal × Outcome (Unit {0})) (rest : Wal → Wal × Outcome (Unit {0})) (rs ss : List Record)
    → Written x rs
    → ((w : Wal) → IsClean w → w.file.bytes ≡ encode_all rs → Closed (rest w) ss)
    → Closed (and_then x rest) ss
then-Closed (w, ok _) rest rs ss (inl (e, c, b)) k = k w c b
then-Closed (w, ok _) rest rs ss (inr e) k = absurd cc
then-Closed (w, err x) rest rs ss (inl (e, c, b)) k = absurd cc
then-Closed (w, err x) rest rs ss (inr e) k = inr e
then-Closed (w, panic) rest rs ss (inl (e, c, b)) k = absurd cc
then-Closed (w, panic) rest rs ss (inr e) k = inr e
then-Closed (w, stuck) rest rs ss (inl (e, c, b)) k = absurd cc
then-Closed (w, stuck) rest rs ss (inr e) k = inr e

pub close-Closed :
    (w : Wal) (rs : List Record) → IsClean w → w.file.bytes ≡ encode_all rs → Closed (close w) rs
close-Closed w rs c b =
    let (kept, outcome) = close-Kept w c in
    elim outcome [ inl fine ↦ inl (fine, kept ∙ b) | inr failed ↦ inr failed ]
