-- ===== src/Examples/Logs.antt =====
-- Examples of the write-ahead log's theorems.
use key_value_store.Wal.Append.{Wal, append_batch}
use key_value_store.Wal.Append.Crash.{IsClean, append_batch_recovers}
use key_value_store.Prelude.{
  ℕ, refl, true, false, some, ◌⊎◌, err, io_error, ◌≡◌, [], ◌∷◌, ◌++◌, take, length, arith, ok,
}
use key_value_store.Wal.Record.{Record, encode}
use key_value_store.Wal.Record.RoundTrip.{Fits, length-payload}
use key_value_store.Wal.Replay.{Recovery, source, replay_from}
use key_value_store.Wal.Replay.Rounds.{encode_all, recovered, length-encode}
use key_value_store.Wal.Replay.TornTail.{replay_from-encode_all}

abbrev put_record : Record
put_record = record { type = 0; seq_num = 7; key = 107 ∷ []; value = 118 ∷ 49 ∷ [] }

abbrev delete_record : Record
delete_record = record { type = 1; seq_num = 8; key = 107 ∷ []; value = [] }

put_record-Fits : Fits put_record
put_record-Fits = omega arith

delete_record-Fits : Fits delete_record
delete_record-Fits = omega arith

-- The second record is cut in its payload, ten bytes into the frame.
replay_from-encode_all_example :
    replay_from (source (encode_all (put_record ∷ []) ++ take 10 (encode delete_record)))
    ≡ ok (recovered (put_record ∷ []) (length (encode_all (put_record ∷ []))) 10)
replay_from-encode_all_example =
    replay_from-encode_all (put_record ∷ []) delete_record 10 (put_record-Fits, tt)
      delete_record-Fits (omega (arith, length-encode delete_record, length-payload delete_record))

-- A log file with one record, whose writes fail after ten bytes more.
abbrev faulty_log : Wal
faulty_log = record {
  file = record {
    bytes = encode_all (put_record ∷ []);
    synced = 0;
    fault = some 10;
    syncs = true;
    closes = true;
  };
  buffer = [];
  broken = false;
  sync_on_write = true;
  closed = false;
  last_seq = 7;
}

append_batch_recovers_example :
    let (w', o) = append_batch (delete_record ∷ []) faulty_log in
    (s : Recovery) × (n : ℕ) × (replay_from (source w'.file.bytes) ≡ ok s)
    × (s.records ≡ (put_record ∷ []) ++ take n (delete_record ∷ []))
    × (((o ≡ ok tt)
          × (n ≡ 1)
          × IsClean w'
          × (w'.file.bytes ≡ encode_all (put_record ∷ delete_record ∷ [])))
        ⊎ (o ≡ err io_error))
append_batch_recovers_example =
    append_batch_recovers (put_record ∷ []) (delete_record ∷ []) faulty_log
      (record { buffer = refl; broken = refl; closed = refl }) refl (put_record-Fits, tt)
      (delete_record-Fits, tt)
