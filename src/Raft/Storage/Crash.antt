-- ===== src/Raft/Storage/Crash.antt =====
-- raft/storage.go: saving that may fail at any point, and what OpenStorage then finds.
use mathlib.Core.Path.{subst}
use key_value_store.Prelude.{
  All-append, ℕ, zero, suc, ◌+◌, ◌<◌, ◌≡◌, ◌^◌, ◌⊎◌, inl, inr, refl, sym, ap, ◌∙◌, List, [], ◌∷◌,
  none, true, ◌++◌, map, All, length, take, arith, length-append, append-nil, ok, err, io_error,
}
use key_value_store.Bytes.{length-le}
use key_value_store.Wal.Record.{Record, record_put}
use key_value_store.Wal.Record.RoundTrip.{Fits}
use key_value_store.Wal.Replay.{Recovery, source, replay_from}
use key_value_store.Wal.Replay.Rounds.{encode_all}
use key_value_store.Wal.Append.{File, open_wal}
use key_value_store.Wal.Append.Crash.{IsClean, append_batch_recovers}
use key_value_store.Wal.Append.Cut.{replay_from-partial}
use key_value_store.Raft.State.{add64}
use key_value_store.Raft.Storage.Records.{
  encode_record, encode_hard_state, encode_truncate_from, length-encode_log_entry,
  length-encode_snapshot_payload,
}
use key_value_store.Raft.Storage.Recover.{Persisted, nothing, recover, max_seq, sentinel_of}
use key_value_store.Raft.Storage.Save.{Storage, placed, file_at, numbered, save, open_storage}
use key_value_store.Raft.Storage.Items.{
  Item, state, entry, truncate, boundary, value_of, FitsItem, applied_all, recover-numbered,
  recover-append,
}

-- A storage log that is open, and from which p would be recovered.
pub record Stores (s : Storage) (p : Persisted) : Type 0 where
  pub clean : IsClean s.wal
  pub in_place : s.replaced ≡ none
  pub records : List Record
  pub bytes : s.wal.file.bytes ≡ encode_all records
  pub fits : All Fits records
  pub recovers : recover records nothing ≡ ok p

value-FitsItem : (i : Item) → FitsItem i → 17 + length (value_of i) < 2 ^ 32
unfolding encode_record encode_hard_state encode_truncate_from
value-FitsItem (state hs) h = simp (length-append, length-le) (omega arith)
value-FitsItem (entry e) h = omega (arith, length-encode_log_entry e, h.payload)
value-FitsItem (truncate first) h = simp length-le (omega arith)
value-FitsItem (boundary s) h = omega (arith, length-encode_snapshot_payload s, h.payload)

pub numbered-Fits :
    (n : ℕ) (is : List Item) → All FitsItem is → All Fits (numbered n (map value_of is))
unfolding numbered
numbered-Fits n [] h = tt
numbered-Fits n (i ∷ is) (f, h) = (
  record { type = omega arith; seq_num = omega arith; lengths = omega (arith, value-FitsItem i f) },
  numbered-Fits (add64 n 1) is h,
)

take-numbered :
    (k n : ℕ) (is : List Item)
    → take k (numbered n (map value_of is)) ≡ numbered n (map value_of (take k is))
unfolding numbered
take-numbered zero n is = refl
take-numbered (suc k) n [] = refl
take-numbered (suc k) n (i ∷ is) =
    ap (λ rs. record { type = record_put; seq_num = add64 n 1; key = []; value = value_of i } ∷ rs)
      (take-numbered k (add64 n 1) is)

length-numbered : (is : List Item) (n : ℕ) → length (numbered n (map value_of is)) ≡ length is
unfolding numbered
length-numbered [] n = refl
length-numbered (i ∷ is) n = ap suc (length-numbered is (add64 n 1))

All-take : (k : ℕ) (is : List Item) → All FitsItem is → All FitsItem (take k is)
All-take zero is h = tt
All-take (suc k) [] h = tt
All-take (suc k) (i ∷ is) (f, h) = (f, All-take k is h)

-- What OpenStorage returns for a recovered state, besides the storage itself.
abbrev pub OpensFile : File → Persisted → Type 0
OpensFile f p = (s : Storage) × (open_storage f ≡ ok (s, p, sentinel_of p.snapshot ∷ p.log))

-- So too for the file at the storage's path.
abbrev pub Opens : Storage → Persisted → Type 0
Opens s p = OpensFile (file_at s) p

recovered-OpensFile :
    (f : File) (r : Recovery) (p : Persisted)
    → replay_from (source f.bytes) ≡ ok r
    → recover r.records nothing ≡ ok p
    → OpensFile f p
unfolding open_storage
recovered-OpensFile f r p replayed found = (
  record {
    wal = open_wal (record f { bytes = take r.size f.bytes }) true;
    seq = max_seq 0 r.records;
    replaced = none;
  },
  simp (replayed, found) refl,
)

pub encode_all-OpensFile :
    (f : File) (rs : List Record) (p : Persisted)
    → f.bytes ≡ encode_all rs
    → All Fits rs
    → recover rs nothing ≡ ok p
    → OpensFile f p
encode_all-OpensFile f rs p bytes fits found =
    let (r, replayed, records) = replay_from-partial rs [] 0 fits tt in
    recovered-OpensFile f r p
      (ap (λ b. replay_from (source b)) (bytes ∙ sym (append-nil _)) ∙ replayed)
      (ap (λ rs. recover rs nothing) (records ∙ append-nil rs) ∙ found)

at_path : (s : Storage) (p : Persisted) → s.replaced ≡ none → OpensFile s.wal.file p → Opens s p
at_path s p here h = subst (λ o. OpensFile (placed o s.wal.file) p) (sym here) h

pub Stores-Opens : (s : Storage) (p : Persisted) → Stores s p → Opens s p
Stores-Opens s p h =
    at_path s p h.in_place (encode_all-OpensFile s.wal.file h.records p h.bytes h.fits h.recovers)

-- Records for some items are saved to a log that stores p, while writes and syncs may fail at any
-- point. Opening the log again then finds p with the first n items applied; either saving has
-- succeeded, these are all of them and the log stores them, or it has returned an error. The numbers in the items are
-- below 2 ^ 64, and their data is short enough for a record.
pub save_recovers :
    (is : List Item) (s : Storage) (p : Persisted)
    → Stores s p
    → All FitsItem is
    → let (s', o) = save (map value_of is) s in
      (n : ℕ) × Opens s' (applied_all (take n is) p)
      × (((o ≡ ok tt) × (n ≡ length is) × Stores s' (applied_all is p)) ⊎ (o ≡ err io_error))
unfolding save
save_recovers is s p h fits =
    let new = numbered s.seq (map value_of is) in
    let (r, n, replayed, records, outcome) =
      append_batch_recovers h.records new s.wal h.clean h.bytes h.fits
        (numbered-Fits s.seq is fits) in
    let found : recover r.records nothing ≡ ok (applied_all (take n is) p) =
      ap (λ rs. recover rs nothing) records
      ∙ recover-append h.records (take n new) nothing p h.recovers
      ∙ ap (λ rs. recover rs p) (take-numbered n s.seq is)
      ∙ recover-numbered s.seq (take n is) p (All-take n is fits) in
    (
      n,
      at_path (save (map value_of is) s).0 _ h.in_place
          (recovered-OpensFile (save (map value_of is) s).0.wal.file r _ replayed found),
      elim outcome [
        | inl (fine, all, clean, bytes) ↦ inl (
          fine,
          all ∙ length-numbered is s.seq,
          record {
            clean = clean;
            in_place = h.in_place;
            records = h.records ++ new;
            bytes = bytes;
            fits = All-append Fits h.records new h.fits (numbered-Fits s.seq is fits);
            recovers =
                recover-append h.records new nothing p h.recovers
                ∙ recover-numbered s.seq is p fits;
          },
        )
        | inr failed ↦ inr failed
      ],
    )
