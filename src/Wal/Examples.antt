-- ===== src/Wal/Examples.antt =====
-- The write-ahead log on concrete records, with a toy checksum.
use order_matching_engine_ru.Prelude.{
  none, ℕ, suc, ◌+◌, ◌%◌, ◌^◌, ◌<◌, ◌≡◌, refl, List, [], ◌∷◌, ◌++◌, arith, length, take, keep, All,
  Outcome,
}
use order_matching_engine_ru.Prelude
use order_matching_engine_ru.Prelude.Result.{ok, err}
use order_matching_engine_ru.Wal.Record.{RecordType, WalRecord, truncated, encode, decode}
use order_matching_engine_ru.Wal.Record.RoundTrip.{Fits, decode-encode}
use order_matching_engine_ru.Wal.Reader.{replay}
use order_matching_engine_ru.Wal.Reader.Replay.{encode_all, collect, replay-keep}
use order_matching_engine_ru.Wal.Reader.Torn.{decode-take-encode, take-encode-IsTorn}
use order_matching_engine_ru.Wal.Writer.{
  WalWriter, Disk, every, segment_size, open_writer, flush, roll_segment, append_all,
}
use order_matching_engine_ru.Wal.Writer.Append.{indices, append_all-replay}

-- A checksum for the examples.
abbrev byte_sum : List ℕ → ℕ
byte_sum [] = 0
byte_sum (b ∷ bs) = (b + byte_sum bs) % 2 ^ 32

byte_sum-lt : (bytes : List ℕ) → byte_sum bytes < 2 ^ 32
byte_sum-lt [] = omega arith
byte_sum-lt (b ∷ bs) = omega arith

abbrev a_record : ℕ → WalRecord
a_record seq = record {
  seq = seq;
  ts = 1000;
  rec_type = RecordType.command;
  payload = 104 ∷ 105 ∷ [];
}

Fits-a_record_1 : Fits (a_record 1)
Fits-a_record_1 = record { seq = omega arith; ts = omega arith; size = omega arith }

Fits-a_record_2 : Fits (a_record 2)
Fits-a_record_2 = record { seq = omega arith; ts = omega arith; size = omega arith }

decode-encode_example :
    decode byte_sum (encode byte_sum (a_record 1) ++ 7 ∷ [])
    ≡ ok (a_record 1, length (encode byte_sum (a_record 1)))
decode-encode_example = decode-encode byte_sum (a_record 1) (7 ∷ []) Fits-a_record_1 byte_sum-lt

decode-take-encode_example :
    decode byte_sum (take 20 (encode byte_sum (a_record 1))) ≡ err (truncated 8)
unfolding encode Prelude.Bytes.to_le_bytes
decode-take-encode_example =
    decode-take-encode byte_sum (a_record 1) 20 Fits-a_record_1 (omega arith)

-- One segment with two records and a torn third.
replay-keep_example :
    replay byte_sum collect
      (ok (0 ∷ []))
      (λ (p : ℕ). ok (
        encode_all byte_sum (a_record 1 ∷ a_record 2 ∷ [])
        ++ take 20 (encode byte_sum (a_record 1))))
      1
      []
    ≡ Outcome.ok (ok (2, a_record 2 ∷ []))
unfolding encode Prelude.Bytes.to_le_bytes
replay-keep_example =
    replay-keep byte_sum 1 (λ (p : ℕ). a_record 1 ∷ a_record 2 ∷ [])
      (λ (p : ℕ). take 20 (encode byte_sum (a_record 1)))
      (λ (p : ℕ). ok (
        encode_all byte_sum (a_record 1 ∷ a_record 2 ∷ [])
        ++ take 20 (encode byte_sum (a_record 1))))
      (0 ∷ []) byte_sum-lt (λ p. refl) (λ p. (Fits-a_record_1, (Fits-a_record_2, tt)))
      (λ p. take-encode-IsTorn byte_sum (a_record 1) 20 Fits-a_record_1 (omega arith))

abbrev empty_disk : Disk
empty_disk = record { files = λ j. []; durable = λ j. [] }

append_all-replay_example :
    (w : WalWriter) × (d : Disk) × (append_all byte_sum
        (a_record 1 ∷ a_record 2 ∷ [])
        (open_writer none (every 2) empty_disk)
        empty_disk
      ≡ Outcome.ok (w, d))
    × (replay byte_sum collect
          (ok (indices (flush w d).0.seg_idx))
          (λ (j : ℕ). ok ((flush w d).1.files j))
          1
          []
        ≡ Outcome.ok (ok (2, a_record 2 ∷ [])))
append_all-replay_example =
    append_all-replay byte_sum (every 2) empty_disk (a_record 1 ∷ a_record 2 ∷ []) 1 byte_sum-lt
      (λ j. refl) (omega arith) (Fits-a_record_1, (Fits-a_record_2, tt)) (omega arith)

-- A roll under `Every(2)` leaves its segment without a sync: one record is in the file and not durable,
-- and the writer goes on to another file.
roll_leaves_unsynced :
    (roll_segment
        (record {
          seg_idx = 1;
          seg_bytes = segment_size;
          file = 7 ∷ [];
          fsync = every 2;
          write_count = 1;
        })
        empty_disk).1.durable
      1
    ≡ []
unfolding roll_segment
roll_leaves_unsynced = refl
