-- ===== src/Wal/Append/Crash.antt =====
-- wal/wal.go and wal/replay.go together: a batch that is appended, or cut short, and then replayed.
use mathlib.Core.Path.{subst}
use key_value_store.Prelude.{
  le→ltb, ℕ, suc, ◌-◌, ◌≤◌, ◌≡◌, ◌⊎◌, inl, inr, refl, sym, ap, ◌∙◌, List, [], ◌∷◌, ◌++◌,
  append_assoc, append-nil, false, Option, none, some, All, length, take, ltb, arith, Bool-cases,
  if_false, if◌then◌else◌, length-append, take_whole, Outcome, ok, err, panic, stuck, io_error,
}
use key_value_store.Wal.Record.{Record, encode}
use key_value_store.Wal.Record.RoundTrip.{Fits}
use key_value_store.Wal.Replay.{Recovery, source, replay_from}
use key_value_store.Wal.Replay.Rounds.{encode_all}
use key_value_store.Wal.Append.{
  Wal, and_then, write_records, write_buffer, flush, sync_file, append_batch,
}
use key_value_store.Wal.Append.Cut.{whole_frames, encode_all-append, replay_from-partial}

-- The highest sequence number after a batch.
abbrev pub raised : ℕ → List Record → ℕ
raised n [] = n
raised n (r ∷ rs) = raised (if ltb n r.seq_num then r.seq_num else n) rs

pub write_records-buffer :
    (rs : List Record) (w : Wal)
    → w.broken ≡ false
    → write_records rs w
      ≡ (record w { buffer = w.buffer ++ encode_all rs; last_seq = raised w.last_seq rs }, ok tt)
unfolding write_records
write_records-buffer [] w h = rw append-nil refl
write_records-buffer (r ∷ rs) w h =
    if_false _ _ h
    ∙ write_records-buffer rs
        (record w {
          buffer = w.buffer ++ encode r;
          last_seq = if ltb w.last_seq r.seq_num then r.seq_num else w.last_seq;
        })
        h
    ∙ ap (λ b. (record w { buffer = b; last_seq = raised w.last_seq (r ∷ rs) }, ok tt))
        (append_assoc w.buffer (encode r) (encode_all rs))

-- A log that is open, and whose buffer has been written out.
pub record IsClean (w : Wal) : Type 0 where
  pub buffer : w.buffer ≡ []
  pub broken : w.broken ≡ false
  pub closed : w.closed ≡ false

-- What becomes of pending bytes: all of them are behind the old ones in the file, and the log is
-- clean, or there is an error, and some of them are.
record Flushed (old pending : List ℕ) (w : Wal) (o : Outcome (Unit {0})) : Type 0 where
  amount : ℕ
  bytes : w.file.bytes ≡ old ++ take amount pending
  outcome : ((o ≡ ok tt) × (length pending ≤ amount) × IsClean w) ⊎ (o ≡ err io_error)

write_buffer-Flushed :
    (fault : Option ℕ) (w : Wal)
    → w.broken ≡ false
    → w.closed ≡ false
    → Flushed w.file.bytes w.buffer (write_buffer fault w).0 (write_buffer fault w).1
unfolding write_buffer
write_buffer-Flushed none w h k = record {
  amount = length w.buffer;
  bytes = ap (λ b. w.file.bytes ++ b) (sym (take_whole _ w.buffer (omega arith)));
  outcome = inl (refl, omega arith, record { buffer = refl; broken = h; closed = k });
}
write_buffer-Flushed (some n) w h k = elim (Bool-cases (ltb n (length w.buffer))) [
  | inl e ↦ rw e (record { amount = n; bytes = refl; outcome = inr refl })
  | inr e ↦ rw e (record {
    amount = length w.buffer;
    bytes = ap (λ b. w.file.bytes ++ b) (sym (take_whole _ w.buffer (omega arith)));
    outcome = inl (refl, omega arith, record { buffer = refl; broken = h; closed = k });
  })
]

flush-Flushed :
    (w : Wal)
    → w.broken ≡ false
    → w.closed ≡ false
    → Flushed w.file.bytes w.buffer (flush w).0 (flush w).1
unfolding flush
flush-Flushed w h k = simp h (write_buffer-Flushed w.file.fault w h k)

sync_file-Flushed :
    (old pending : List ℕ) (w : Wal)
    → Flushed old pending w (ok tt)
    → Flushed old pending (sync_file w).0 (sync_file w).1
unfolding sync_file
sync_file-Flushed old pending w f = elim (Bool-cases w.file.syncs) [
  | inl e ↦ simp e (record {
    amount = f.amount;
    bytes = f.bytes;
    outcome = elim f.outcome [
      | inl (fine, whole, c) ↦
          inl (refl, whole, record { buffer = c.buffer; broken = c.broken; closed = c.closed })
      | inr bad ↦ inr bad
    ];
  })
  | inr e ↦ simp e (record { amount = f.amount; bytes = f.bytes; outcome = inr refl })
]

-- Syncing leaves the bytes of the file as they are.
synced-Flushed :
    (old pending : List ℕ) (w : Wal) (o : Outcome (Unit {0}))
    → Flushed old pending w o
    → let s = and_then (w, o) (λ w. if w.sync_on_write then sync_file w else (w, ok tt)) in
      Flushed old pending s.0 s.1
synced-Flushed old pending w (ok _) f = elim (Bool-cases w.sync_on_write) [
  | inl e ↦ simp e (sync_file-Flushed old pending w f)
  | inr e ↦ simp e f
]
synced-Flushed old pending w (err x) f = f
synced-Flushed old pending w panic f = f
synced-Flushed old pending w stuck f = f

append_batch-Flushed :
    (rs : List Record) (w : Wal)
    → IsClean w
    → let (w', o) = append_batch rs w in Flushed w.file.bytes (encode_all rs) w' o
unfolding append_batch
append_batch-Flushed [] w h = record {
  amount = 0;
  bytes = sym (append-nil _);
  outcome = inl (refl, omega arith, h);
}
append_batch-Flushed (r ∷ rs) w h =
    let batch = r ∷ rs in
    let full : Wal = record w {
      buffer = w.buffer ++ encode_all batch;
      last_seq = raised w.last_seq batch;
    } in
    let flushed : Flushed w.file.bytes (encode_all batch) (flush full).0 (flush full).1 =
      subst (λ p. Flushed w.file.bytes p (flush full).0 (flush full).1)
        (ap (λ b. b ++ encode_all batch) h.buffer) (flush-Flushed full h.broken h.closed) in
    let run : append_batch batch w
        ≡ and_then (flush full) (λ w. if w.sync_on_write then sync_file w else (w, ok tt)) =
      if_false _ _ h.closed
      ∙ ap
          (λ x.
            and_then x
              (λ w. and_then (flush w) (λ w. if w.sync_on_write then sync_file w else (w, ok tt))))
          (write_records-buffer batch w h.broken) in
    subst (λ x. Flushed w.file.bytes (encode_all batch) x.0 x.1) (sym run)
      (synced-Flushed w.file.bytes (encode_all batch) (flush full).0 (flush full).1 flushed)

whole_frames_all :
    (n : ℕ) (rs : List Record) → length (encode_all rs) ≤ n → whole_frames n rs ≡ length rs
whole_frames_all n [] h = refl
whole_frames_all n (r ∷ rs) h =
    let total = length-append (encode r) (encode_all rs) in
    rw (le→ltb n (length (encode r)) (omega (arith, h, total)))
      (ap suc (whole_frames_all (n - length (encode r)) rs (omega (arith, h, total))))

-- A log holds whole frames, is open and has nothing buffered, and a batch is appended to it, while
-- writes and syncs may fail at any point. Replaying its file then gives the old records and the
-- first n of the batch. Either the append has succeeded, these are all of it, and the log is as
-- before with the batch behind it, or it has returned an error. The fields of every record fit their widths.
pub append_batch_recovers :
    (old new : List Record) (w : Wal)
    → IsClean w
    → w.file.bytes ≡ encode_all old
    → All Fits old
    → All Fits new
    → let (w', o) = append_batch new w in
      (s : Recovery) × (n : ℕ) × (replay_from (source w'.file.bytes) ≡ ok s)
      × (s.records ≡ old ++ take n new)
      × (((o ≡ ok tt) × (n ≡ length new) × IsClean w' × (w'.file.bytes ≡ encode_all (old ++ new)))
          ⊎ (o ≡ err io_error))
append_batch_recovers old new w clean bytes h k =
    let f = append_batch-Flushed new w clean in
    let (s, replayed, records) = replay_from-partial old new f.amount h k in
    (
      s,
      whole_frames f.amount new,
      rw (f.bytes, bytes) replayed,
      records,
      elim f.outcome [
        | inl (fine, whole, c) ↦ inl (
          fine,
          whole_frames_all f.amount new whole,
          c,
          f.bytes
              ∙ ap (λ b. b ++ take f.amount (encode_all new)) bytes
              ∙ ap (λ b. encode_all old ++ b) (take_whole f.amount (encode_all new) whole)
              ∙ sym (encode_all-append old new),
        )
        | inr failed ↦ inr failed
      ],
    )
