-- ===== src/Wal/Append/Cut.antt =====
-- wal/replay.go: a file that ends at any byte of a batch.
use key_value_store.Prelude.{
  All-append, ℕ, zero, suc, ◌-◌, ◌<◌, ◌≡◌, inl, inr, refl, sym, ap, ◌∙◌, List, [], ◌∷◌, ◌++◌,
  append_assoc, All, length, take, ltb, arith, Bool-cases, if◌then◌else◌, take-append_past,
  take-append_short, take_nil, ltb→lt, ok,
}
use key_value_store.Wal.Record.{Record, encode}
use key_value_store.Wal.Record.RoundTrip.{Fits}
use key_value_store.Wal.Replay.{Recovery, source, replay_from}
use key_value_store.Wal.Replay.Rounds.{encode_all, recovered, length-encode}
use key_value_store.Wal.Replay.TornTail.{replay_from-encode_all}

-- How many whole frames the first n bytes hold.
abbrev pub whole_frames : ℕ → List Record → ℕ
whole_frames n [] = 0
whole_frames n (r ∷ rs) =
    let rest = whole_frames (n - length (encode r)) rs in
    if ltb n (length (encode r)) then 0 else suc rest

abbrev empty_record : Record
empty_record = record { type = 0; seq_num = 0; key = []; value = [] }

-- The first bytes of frames: whole frames, and a strict part of one more.
record Cut (bytes : List ℕ) (rs : List Record) : Type 0 where
  next : Record
  part : ℕ
  fits : Fits next
  within : part < length (encode next)
  equal : bytes ≡ encode_all rs ++ take part (encode next)

encode_all-Cut :
    (n : ℕ) (rs : List Record)
    → All Fits rs
    → Cut (take n (encode_all rs)) (take (whole_frames n rs) rs)
encode_all-Cut n [] h = record {
  next = empty_record;
  part = 0;
  fits = omega arith;
  within = omega (arith, length-encode empty_record);
  equal = take_nil n;
}
encode_all-Cut n (r ∷ rs) (f, h) = elim (Bool-cases (ltb n (length (encode r)))) [
  | inl e ↦ rw e (record {
    next = r;
    part = n;
    fits = f;
    within = ltb→lt _ _ e;
    equal = take-append_short n (encode r) (encode_all rs) (omega (arith, ltb→lt _ _ e));
  })
  | inr e ↦ rw e (
      let c = encode_all-Cut (n - length (encode r)) rs h in
      record {
        next = c.next;
        part = c.part;
        fits = c.fits;
        within = c.within;
        equal =
            take-append_past n (encode r) (encode_all rs) (ground arith)
            ∙ ap (λ t. encode r ++ t) c.equal
            ∙ sym (append_assoc (encode r) _ _);
      })
]

pub encode_all-append :
    (rs ss : List Record) → encode_all (rs ++ ss) ≡ encode_all rs ++ encode_all ss
encode_all-append [] ss = refl
encode_all-append (r ∷ rs) ss =
    ap (λ t. encode r ++ t) (encode_all-append rs ss)
    ∙ sym (append_assoc (encode r) (encode_all rs) (encode_all ss))

All-take : (n : ℕ) (rs : List Record) → All Fits rs → All Fits (take n rs)
All-take zero rs h = tt
All-take (suc n) [] h = tt
All-take (suc n) (r ∷ rs) (f, h) = (f, All-take n rs h)

-- A file of whole frames and the first bytes of more is recovered to the records of the whole ones.
pub replay_from-partial :
    (old new : List Record) (n : ℕ)
    → All Fits old
    → All Fits new
    → (s : Recovery) × (replay_from (source (encode_all old ++ take n (encode_all new))) ≡ ok s)
      × (s.records ≡ old ++ take (whole_frames n new) new)
replay_from-partial old new n h k =
    let c = encode_all-Cut n new k in
    let whole = take (whole_frames n new) new in
    let bytes : encode_all old ++ take n (encode_all new)
        ≡ encode_all (old ++ whole) ++ take c.part (encode c.next) =
      ap (λ t. encode_all old ++ t) c.equal
      ∙ sym (append_assoc (encode_all old) (encode_all whole) _)
      ∙ ap (λ t. t ++ take c.part (encode c.next)) (sym (encode_all-append old whole)) in
    (
      recovered (old ++ whole) (length (encode_all (old ++ whole))) c.part,
      rw bytes (
          replay_from-encode_all (old ++ whole) c.next c.part
            (All-append Fits old whole h (All-take _ new k)) c.fits c.within),
      refl,
    )
