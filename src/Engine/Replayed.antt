-- ===== src/Engine/Replayed.antt =====
-- engine/engine.go: the memtable that Open replays from the logs, the oldest first.
use mathlib.Core.List.{reverse, reverse-cons, map-append}
use key_value_store.Prelude.{
  ℕ, ◌≡◌, refl, sym, ap, ◌∙◌, inl, inr, List, [], ◌∷◌, ◌++◌, map, none, some, Option, Bool-cases,
  ltb, ◌==◌, if◌then◌else◌, Outcome, ok, err, panic, stuck, ◌>>=◌,
}
use key_value_store.Wal.Record.{Record, record_delete}
use key_value_store.Wal.Replay.{Source, Recovery, replay_from}
use key_value_store.Memtable.Entries.{EntrySnapshot}
use key_value_store.Memtable.Table.{Memtable}
use key_value_store.Memtable.Table.History.{Write, write_one, write_all, last_write}
use key_value_store.Engine.Open.{replay_record, replay_records, replay_wals}
use key_value_store.Engine.Layers.{write_of, seen, or_old, last_write-append, last_write_old}

-- The records of logs, of which the newest comes first, in the order in which they were written.
abbrev pub in_order : List (List Record) → List Record
in_order [] = []
in_order (rs ∷ logs) = in_order logs ++ rs

-- The files hold these records.
abbrev pub FilesHave : List (ℕ × Source) → List (List Record) → Type 0
FilesHave [] logs = logs ≡ []
FilesHave (f ∷ files) [] = ⊥
FilesHave (f ∷ files) (rs ∷ logs) =
    ((s : Recovery) × (replay_from f.1 ≡ ok s) × (s.records ≡ rs)) × FilesHave files logs

replay_record_lem : (r : Record) (m : Memtable) → replay_record r m ≡ write_one (write_of r) m
unfolding replay_record write_one write_of
replay_record_lem r m = elim (Bool-cases (r.type == record_delete)) [
  | inl e ↦ rw e refl
  | inr e ↦ rw e refl
]

replay_records_lem :
    (rs : List Record) (m : Memtable) (h : ℕ)
    → (h' : ℕ) × (replay_records rs (m, h) ≡ (write_all (map write_of rs) m, h'))
unfolding replay_records write_all
replay_records_lem [] m h = (h, refl)
replay_records_lem (r ∷ rs) m h =
    let (h', e) =
      replay_records_lem rs (write_one (write_of r) m) (if ltb h r.seq_num then r.seq_num else h) in
    (h', rw (replay_record_lem r m) e)

after_replay :
    (o : Outcome Recovery) (xs ys zs : List (ℕ × Source)) (s : Memtable × ℕ)
    → ((r : Recovery)
        → replay_wals zs (replay_records r.records s)
          ≡ (replay_wals xs (replay_records r.records s) >>= replay_wals ys))
    → (o >>= λ r. replay_wals zs (replay_records r.records s))
      ≡ ((o >>= λ r. replay_wals xs (replay_records r.records s)) >>= replay_wals ys)
after_replay (ok r) xs ys zs s h = h r
after_replay (err x) xs ys zs s h = refl
after_replay panic xs ys zs s h = refl
after_replay stuck xs ys zs s h = refl

replay_wals-append :
    (xs ys : List (ℕ × Source)) (s : Memtable × ℕ)
    → replay_wals (xs ++ ys) s ≡ (replay_wals xs s >>= replay_wals ys)
unfolding replay_wals
replay_wals-append [] ys s = refl
replay_wals-append ((n, bytes) ∷ xs) ys s =
    after_replay (replay_from bytes) xs ys (xs ++ ys) s
      (λ r. replay_wals-append xs ys (replay_records r.records s))

write_all-append :
    (ws vs : List Write) (m : Memtable) → write_all (ws ++ vs) m ≡ write_all vs (write_all ws m)
unfolding write_all
write_all-append [] vs m = refl
write_all-append (w ∷ ws) vs m = write_all-append ws vs (write_one w m)

-- The logs are replayed in order.
pub replay_wals_lem :
    (files : List (ℕ × Source)) (logs : List (List Record)) (m : Memtable) (h : ℕ)
    → FilesHave files logs
    → (h' : ℕ) × (replay_wals (reverse files) (m, h)
        ≡ ok (write_all (map write_of (in_order logs)) m, h'))
unfolding replay_wals write_all
replay_wals_lem [] logs m h e = (h, rw e refl)
replay_wals_lem (f ∷ files) [] m h e = absurd e
replay_wals_lem (f ∷ files) (rs ∷ logs) m h ((s, replayed, records), e) =
    let (h1, older) = replay_wals_lem files logs m h e in
    let m1 = write_all (map write_of (in_order logs)) m in
    let (h2, newest) = replay_records_lem rs m1 h1 in
    (
      h2,
      ap (λ t. replay_wals t (m, h)) (reverse-cons f files)
          ∙ replay_wals-append (reverse files) (f ∷ []) (m, h)
          ∙ rw (older, replayed, records, newest)
              (ap (λ t. ok (t, h2))
                (sym (
                  ap (λ ws. write_all ws m) (map-append write_of (in_order logs) rs)
                  ∙ write_all-append (map write_of (in_order logs)) (map write_of rs) m))),
    )

-- What the layers of logs show over older ones.
abbrev pub seen_over : List ℕ → List (List Record) → Option EntrySnapshot → Option EntrySnapshot
seen_over key [] old = old
seen_over key (rs ∷ logs) old = last_write key (map write_of rs) (seen_over key logs old)

pub last_write-in_order :
    (key : List ℕ) (logs : List (List Record)) (old : Option EntrySnapshot)
    → last_write key (map write_of (in_order logs)) old ≡ seen_over key logs old
unfolding last_write
last_write-in_order key [] old = refl
last_write-in_order key (rs ∷ logs) old =
    ap (λ ws. last_write key ws old) (map-append write_of (in_order logs) rs)
    ∙ last_write-append key (map write_of (in_order logs)) (map write_of rs) old
    ∙ ap (last_write key (map write_of rs)) (last_write-in_order key logs old)

pub seen_over-append :
    (key : List ℕ) (logs logs' : List (List Record)) (old : Option EntrySnapshot)
    → seen_over key (logs ++ logs') old ≡ seen_over key logs (seen_over key logs' old)
seen_over-append key [] logs' old = refl
seen_over-append key (rs ∷ logs) logs' old =
    ap (last_write key (map write_of rs)) (seen_over-append key logs logs' old)

pub seen-append :
    (key : List ℕ) (logs : List (List Record)) (tables : List (List Write))
    → seen key (map (map write_of) logs ++ tables) ≡ seen_over key logs (seen key tables)
unfolding seen
seen-append key [] tables = refl
seen-append key (rs ∷ logs) tables =
    ap (last_write key (map write_of rs)) (seen-append key logs tables)

-- The newest tables were made from these logs.
abbrev pub FirstOf : List (List Record) → List (List Write) → Type 0
FirstOf [] tables = Unit {0}
FirstOf (rs ∷ logs) [] = ⊥
FirstOf (rs ∷ logs) (ws ∷ tables) = (ws ≡ map write_of rs) × FirstOf logs tables

again : (p S X : Option EntrySnapshot) → (p ≡ none → X ≡ or_old p S) → or_old p X ≡ or_old p S
again none S X h = h refl
again (some e) S X h = refl

-- Logs that are replayed over the tables that were made from them change nothing.
pub seen_over_again :
    (key : List ℕ) (logs : List (List Record)) (tables : List (List Write))
    → FirstOf logs tables
    → seen_over key logs (seen key tables) ≡ seen key tables
unfolding seen
seen_over_again key [] tables f = refl
seen_over_again key (rs ∷ logs) [] f = absurd f
seen_over_again key (rs ∷ logs) (ws ∷ tables) (made, f) =
    let W = map write_of rs in
    let p = last_write key W none in
    let S = seen key tables in
    let shows_again : p ≡ none → seen_over key logs (last_write key W S) ≡ or_old p S = λ h.
      let through : last_write key W S ≡ S = last_write_old key W S ∙ ap (λ q. or_old q S) h in
      ap (seen_over key logs) through
      ∙ seen_over_again key logs tables f
      ∙ sym (ap (λ q. or_old q S) h) in
    rw made (
      last_write_old key W (seen_over key logs (last_write key W S))
      ∙ again p S (seen_over key logs (last_write key W S)) shows_again
      ∙ sym (last_write_old key W S))
