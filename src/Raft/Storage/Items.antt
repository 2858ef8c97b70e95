-- ===== src/Raft/Storage/Items.antt =====
-- raft/storage.go: what recovery makes of the records that were saved.
use key_value_store.Prelude.{
  ℕ, ◌<◌, ◌≡◌, ◌^◌, refl, ap, ◌∙◌, List, [], ◌∷◌, ◌++◌, append_assoc, append-nil, map, All, ok,
  >>=-eq-ok,
}
use key_value_store.Raft.State.{add64}
use key_value_store.Wal.Record.{Record, record_put}
use key_value_store.Raft.Types.{LogEntry, HardState, Snapshot}
use key_value_store.Raft.Storage.Records.{
  FitsState, FitsSnapshot, encode_record, decode_record, decode_hard_state-encode_hard_state,
  decode_log_entry-encode_log_entry, decode_truncate_from-encode_truncate_from,
  decode_snapshot_payload-encode_snapshot_payload,
}
use key_value_store.Raft.Storage.Recover.{
  Persisted, kept_before, kept_after, apply_payload, apply_record, recover,
}
use key_value_store.Raft.Storage.Save.{
  state_value, entry_value, truncate_value, snapshot_value, numbered,
}

-- What a record stands for.
pub data Item : Type 0 where
  state : HardState → Item
  entry : LogEntry → Item
  truncate : ℕ → Item
  boundary : Snapshot → Item

abbrev pub value_of : Item → List ℕ
value_of (state hs) = state_value hs
value_of (entry e) = entry_value e
value_of (truncate first) = truncate_value first
value_of (boundary s) = snapshot_value s

abbrev pub applied : Item → Persisted → Persisted
applied (state hs) p = record p { hard_state = hs }
applied (entry e) p = record p { log = p.log ++ (e ∷ []) }
applied (truncate first) p = record p { log = kept_before first p.log }
applied (boundary s) p = record p { snapshot = s; log = kept_after s.last_included_index p.log }

abbrev pub FitsItem : Item → Type 0
FitsItem (state hs) = (hs.term < 2 ^ 64) × (hs.vote < 2 ^ 64)
FitsItem (entry e) = FitsState e
FitsItem (truncate first) = first < 2 ^ 64
FitsItem (boundary s) = FitsSnapshot s

apply_record-applied :
    (r : Record) (i : Item) (p : Persisted)
    → r.value ≡ value_of i
    → FitsItem i
    → apply_record r p ≡ ok (applied i p)
unfolding apply_record
apply_record-applied r (state hs) p e (h, k) = rw e (
    unfold encode_record decode_record apply_payload in
    rw (decode_hard_state-encode_hard_state hs h k) refl)
apply_record-applied r (entry x) p e h = rw e (
    unfold encode_record decode_record apply_payload in
    rw (decode_log_entry-encode_log_entry x h) refl)
apply_record-applied r (truncate first) p e h = rw e (
    unfold encode_record decode_record apply_payload in
    rw (decode_truncate_from-encode_truncate_from first h) refl)
apply_record-applied r (boundary s) p e h = rw e (
    unfold encode_record decode_record apply_payload in
    rw (decode_snapshot_payload-encode_snapshot_payload s h) refl)

abbrev pub applied_all : List Item → Persisted → Persisted
applied_all [] p = p
applied_all (i ∷ is) p = applied_all is (applied i p)

-- Records that were saved for items give them back.
pub recover-numbered :
    (n : ℕ) (is : List Item) (p : Persisted)
    → All FitsItem is
    → recover (numbered n (map value_of is)) p ≡ ok (applied_all is p)
unfolding recover numbered
recover-numbered n [] p h = refl
recover-numbered n (i ∷ is) p (f, h) =
    simp
      (apply_record-applied
        (record { type = record_put; seq_num = add64 n 1; key = []; value = value_of i }) i p refl
        f)
      (recover-numbered (add64 n 1) is (applied i p) h)

-- Recovery goes through the records in order.
pub recover-append :
    (rs ss : List Record) (p p' : Persisted)
    → recover rs p ≡ ok p'
    → recover (rs ++ ss) p ≡ recover ss p'
unfolding recover
recover-append [] ss p p' h = cc
recover-append (r ∷ rs) ss p p' h =
    let (q, first, rest) = >>=-eq-ok (apply_record r p) (recover rs) h in
    rw first (recover-append rs ss q p' rest)

-- Saving entries replaces what was saved from their first index on.
pub applied_all-entries :
    (es : List LogEntry) (p : Persisted)
    → applied_all (map entry es) p ≡ record p { log = p.log ++ es }
applied_all-entries [] p = rw append-nil refl
applied_all-entries (e ∷ es) p =
    applied_all-entries es (applied (entry e) p)
    ∙ ap (λ l. record p { log = l }) (append_assoc p.log (e ∷ []) es)

pub map-entry : (es : List LogEntry) → map entry_value es ≡ map value_of (map entry es)
map-entry [] = refl
map-entry (e ∷ es) = ap (λ t. entry_value e ∷ t) (map-entry es)

pub All-entry : (es : List LogEntry) → All FitsState es → All FitsItem (map entry es)
All-entry [] h = tt
All-entry (e ∷ es) (f, h) = (f, All-entry es h)
