-- ===== src/Wal/Replay/TornTail.antt =====
-- A log file that ends in a torn record: replay keeps what stands before it.
use mathlib.Core.Path.{ap₂}
use key_value_store.Prelude.{
  ℕ, zero, suc, ◌+◌, ◌≤◌, ◌<◌, ◌≡◌, ◌∙◌, List, [], ◌∷◌, ◌++◌, arith, All, length, take,
  length-append, append-nil, append_assoc, length-take, ok, Outcome,
}
use key_value_store.Wal.Record.{Record, payload, encode}
use key_value_store.Wal.Record.RoundTrip.{Fits}
use key_value_store.Wal.Replay.{
  Source, source, return, continue, replay_round, replay_loop, replay_from, Recovery,
}
use key_value_store.Wal.Replay.Rounds.{
  length-encode, replay_round-encode, encode_all, recovered, torn_round,
}

pub replay_loop_return :
    (fuel : ℕ) (f : Source) (acc : List Record) (off size : ℕ) (x : Outcome Recovery)
    → replay_round f acc off size ≡ return x
    → replay_loop (suc fuel) f acc off size ≡ x
unfolding replay_loop
replay_loop_return fuel f acc off size x h = rw (h, replay_loop)

pub replay_loop_continue :
    (fuel : ℕ) (f f' : Source) (acc : List Record) (off size n : ℕ) (r : Record)
    → replay_round f acc off size ≡ continue r n f'
    → replay_loop (suc fuel) f acc off size
      ≡ replay_loop fuel f' (acc ++ (r ∷ [])) (off + 8 + n) size
unfolding replay_loop
replay_loop_continue fuel f f' acc off size n r h = rw (h, replay_loop)

replay_loop-encode_all :
    (rs : List Record) (r : Record) (k fuel off size : ℕ) (acc : List Record)
    → All Fits rs
    → Fits r
    → k < length (encode r)
    → off + length (encode_all rs) + k ≡ size
    → length rs < fuel
    → replay_loop fuel (source (encode_all rs ++ take k (encode r))) acc off size
      ≡ ok (recovered (acc ++ rs) (off + length (encode_all rs)) k)
replay_loop-encode_all rs r k zero off size acc fits fit within total enough = absurd (omega arith)
replay_loop-encode_all [] r k (suc fuel) off size acc fits fit within total enough =
    let e : off + 0 ≡ off = omega arith in
    replay_loop_return fuel (source (take k (encode r))) acc off size (ok (recovered acc off k))
      (torn_round r acc off k size fit (omega arith) within)
    ∙ rw (append-nil, e)
replay_loop-encode_all (x ∷ rs) r k (suc fuel) off size acc (fx, fits) fit within total enough =
    rw append_assoc (
      replay_loop_continue fuel (source (encode x ++ (encode_all rs ++ take k (encode r))))
        (source (encode_all rs ++ take k (encode r))) acc off size (length (payload x)) x
        (replay_round-encode x (encode_all rs ++ take k (encode r)) acc off size fx
          (omega (arith, room)))
      ∙ replay_loop-encode_all rs r k fuel (off + 8 + length (payload x)) size (acc ++ (x ∷ []))
          fits fit within (omega (arith, room, length-encode x)) (omega arith)
      ∙ ap₂ (λ acc' kept. ok (recovered acc' kept k)) (append_assoc acc (x ∷ []) rs) shift)
  where
    room : length (encode x ++ encode_all rs) ≡ length (encode x) + length (encode_all rs)
    room = length-append (encode x) (encode_all rs)

    shift :
        off + 8 + length (payload x) + length (encode_all rs)
        ≡ off + length (encode x ++ encode_all rs)
    shift = omega (arith, room, length-encode x)

length-le-encode_all : (rs : List Record) → length rs ≤ length (encode_all rs)
length-le-encode_all [] = omega arith
length-le-encode_all (r ∷ rs) =
    omega
      (arith, length-append (encode r) (encode_all rs), length-encode r, length-le-encode_all rs)

-- A file of whole frames that ends in a strict part of one more frame, of k bytes, is recovered to
-- the records of the whole frames, in order. The file is cut to those frames, and the statistics
-- say how many records there are, that k bytes were cut off, and whether k is above 0. The fields
-- of every record fit their widths, no read fails, and truncating succeeds.
pub replay_from-encode_all :
    (rs : List Record) (r : Record) (k : ℕ)
    → All Fits rs
    → Fits r
    → k < length (encode r)
    → replay_from (source (encode_all rs ++ take k (encode r)))
      ≡ ok (recovered rs (length (encode_all rs)) k)
unfolding replay_from
replay_from-encode_all rs r k fits fit within =
    replay_loop-encode_all rs r k (suc (length (encode_all rs ++ take k (encode r)))) 0
      (length (encode_all rs ++ take k (encode r))) [] fits fit within
      (omega (arith, total, length-take k (encode r) (omega arith)))
      (omega (arith, total, length-le-encode_all rs))
    ∙ rw none_before
  where
    total :
        length (encode_all rs ++ take k (encode r))
        ≡ length (encode_all rs) + length (take k (encode r))
    total = length-append (encode_all rs) (take k (encode r))

    none_before : 0 + length (encode_all rs) ≡ length (encode_all rs)
    none_before = omega arith
