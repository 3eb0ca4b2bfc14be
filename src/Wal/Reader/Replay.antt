-- ===== src/Wal/Reader/Replay.antt =====
-- What a replay does on the bytes that a writer left behind.
use order_matching_engine_ru.Prelude.{
  ℕ, zero, suc, ◌+◌, ◌-◌, ◌%◌, ◌^◌, ◌<◌, ◌≤◌, ◌≡◌, refl, sym, ap, ◌∙◌, ◌⊎◌, inl, inr, Bool, true,
  false, List, [], ◌∷◌, ◌++◌, arith, ltb, ◌==◌, if◌then◌else◌, length, take, drop, keep, All,
  All-append, length-append, Bool-cases,
}
use order_matching_engine_ru.Prelude
use mathlib.Core.List.{append-nil, append_assoc}
use order_matching_engine_ru.Prelude.Result.{Result, ok, err, ◌>>=◌}
use order_matching_engine_ru.Wal.Record.{WalError, truncated, WalRecord, encode, decode}
use order_matching_engine_ru.Wal.Record.RoundTrip.{Fits, length-encode, decode-encode, drop_front}
use order_matching_engine_ru.Wal.Reader.{visit, replay_segment, replay_segments, replay}

module _ (crc32 : List ℕ → ℕ) where
  -- The bytes of a run of records.
  abbrev pub encode_all : List WalRecord → List ℕ
  encode_all [] = []
  encode_all (r ∷ rs) = encode crc32 r ++ encode_all rs

  -- What may stand behind the last whole record: nothing, or bytes that end before their record does.
  abbrev pub IsTorn : List ℕ → Type 0
  IsTorn [] = Unit {0}
  IsTorn (b ∷ bs) = (n : ℕ) × (decode crc32 (b ∷ bs) ≡ err (truncated n))

-- The records of a run in turn, for `f` that passes on a state.
module _ {St : Type 0} (f : WalRecord → St → Result St WalError) where
  abbrev pub visit_all : (List ℕ → ℕ) → ℕ → List WalRecord → ℕ × St → Result (ℕ × St) WalError
  visit_all crc32 after_seq [] s = ok s
  visit_all crc32 after_seq (r ∷ rs) s =
      visit crc32 f after_seq r s >>= λ s. visit_all crc32 after_seq rs s

-- The records of the segments, in order.
abbrev pub records_of : {P : Type 0} → (P → List WalRecord) → List P → List WalRecord
records_of records [] = []
records_of records (p ∷ ps) = records p ++ records_of records ps

module _ (crc32 : List ℕ → ℕ) (word : (bytes : List ℕ) → crc32 bytes < 2 ^ 32) {St : Type 0}
    (f : WalRecord → St → Result St WalError) (after_seq : ℕ) where
  replay_torn :
      (fuel : ℕ) (torn : List ℕ) (s : ℕ × St)
      → IsTorn crc32 torn
      → replay_segment crc32 f (suc fuel) after_seq torn s ≡ Prelude.ok (ok s)
  unfolding replay_segment
  replay_torn fuel [] s h = refl
  replay_torn fuel (b ∷ bs) s (n, h) = rw (replay_segment, h) refl

  -- The rounds after a record, if `f` accepts it.
  unfoldable next_round :
      ℕ → List ℕ → Result (ℕ × St) WalError → Prelude.Outcome (Result (ℕ × St) WalError)
  next_round fuel rest (err e) = Prelude.ok (err e)
  next_round fuel rest (ok s) = replay_segment crc32 f fuel after_seq rest s

  -- One round at a record.
  replay_round :
      (fuel n : ℕ) (r : WalRecord) (bytes : List ℕ) (s : ℕ × St)
      → 0 < length bytes
      → decode crc32 bytes ≡ ok (r, n)
      → replay_segment crc32 f (suc fuel) after_seq bytes s
        ≡ next_round fuel (drop n bytes) (visit crc32 f after_seq r s)
  unfolding replay_segment next_round
  replay_round fuel n r [] s more h = absurd (omega arith)
  replay_round fuel n r (b ∷ bs) s more h =
      rw (replay_segment, h) (elim (visit crc32 f after_seq r s) [ err e ↦ refl | ok s ↦ refl ])

  replay_record :
      (fuel : ℕ) (r : WalRecord) (rest : List ℕ) (s : ℕ × St)
      → Fits r
      → replay_segment crc32 f (suc fuel) after_seq (encode crc32 r ++ rest) s
        ≡ next_round fuel rest (visit crc32 f after_seq r s)
  replay_record fuel r rest s fits =
      let bytes = encode crc32 r in
      replay_round fuel (length bytes) r (bytes ++ rest) s
        (omega (arith, length-append bytes rest, length-encode crc32 r))
        (decode-encode crc32 r rest fits word)
      ∙ ap (λ xs. next_round fuel xs (visit crc32 f after_seq r s))
          (drop_front (length bytes) bytes rest refl)

  -- A segment that holds whole records and what a torn write left behind: `f` sees the records that
  -- are newer than `after_seq`, in order, up to the first that it refuses.
  pub replay_segment-encode_all :
      (fuel : ℕ) (rs : List WalRecord) (torn : List ℕ) (s : ℕ × St)
      → All Fits rs
      → IsTorn crc32 torn
      → length (encode_all crc32 rs ++ torn) < fuel
      → replay_segment crc32 f fuel after_seq (encode_all crc32 rs ++ torn) s
        ≡ Prelude.ok (visit_all f crc32 after_seq rs s)
  unfolding next_round
  replay_segment-encode_all zero rs torn s fit h fuel = absurd (omega arith)
  replay_segment-encode_all (suc n) [] torn s fit h fuel = replay_torn n torn s h
  replay_segment-encode_all (suc n) (r ∷ rs) torn s (fit, fits) h fuel =
      let bytes = encode crc32 r in
      let more = encode_all crc32 rs ++ torn in
      let shape = append_assoc bytes (encode_all crc32 rs) torn in
      let less : length more < n =
        omega (arith, ap length shape, length-append bytes more, length-encode crc32 r, fuel) in
      ap (λ xs. replay_segment crc32 f (suc n) after_seq xs s) shape
      ∙ replay_record n r more s fit
      ∙ onwards (visit crc32 f after_seq r s)
          (λ s'. replay_segment-encode_all n rs torn s' fits h less)
    where
      onwards :
          (v : Result (ℕ × St) WalError)
          → ((s' : ℕ × St)
              → replay_segment crc32 f n after_seq (encode_all crc32 rs ++ torn) s'
                ≡ Prelude.ok (visit_all f crc32 after_seq rs s'))
          → next_round n (encode_all crc32 rs ++ torn) v
            ≡ Prelude.ok (v >>= λ s. visit_all f crc32 after_seq rs s)
      onwards (err e) ih = refl
      onwards (ok s') ih = ih s'

  visit_all-append :
      (rs rs' : List WalRecord) (s : ℕ × St)
      → visit_all f crc32 after_seq (rs ++ rs') s
        ≡ (visit_all f crc32 after_seq rs s >>= λ s. visit_all f crc32 after_seq rs' s)
  visit_all-append [] rs' s = refl
  visit_all-append (r ∷ rs) rs' s = onwards (visit crc32 f after_seq r s) (visit_all-append rs rs')
    where
      onwards :
          (v : Result (ℕ × St) WalError)
          → ((s : ℕ × St)
              → visit_all f crc32 after_seq (rs ++ rs') s
                ≡ (visit_all f crc32 after_seq rs s >>= λ s. visit_all f crc32 after_seq rs' s))
          → (v >>= λ s. visit_all f crc32 after_seq (rs ++ rs') s) ≡ (
              v >>= (λ s. visit_all f crc32 after_seq rs s) >>= λ s.
              visit_all f crc32 after_seq rs' s)
      onwards (err e) ih = refl
      onwards (ok s) ih = ih s

  replay_segments-visit_all :
      {P : Type 0} (records : P → List WalRecord) (torn : P → List ℕ)
      (read : P → Result (List ℕ) WalError) (ps : List P) (s : ℕ × St)
      → ((p : P) → read p ≡ ok (encode_all crc32 (records p) ++ torn p))
      → ((p : P) → All Fits (records p))
      → ((p : P) → IsTorn crc32 (torn p))
      → replay_segments crc32 f read after_seq ps s
        ≡ Prelude.ok (visit_all f crc32 after_seq (records_of records ps) s)
  unfolding replay_segments
  replay_segments-visit_all records torn read [] s reads fit tail = refl
  replay_segments-visit_all records torn read (p ∷ ps) s reads fit tail =
      let bytes = encode_all crc32 (records p) ++ torn p in
      let run =
        replay_segment-encode_all (length bytes + 1) (records p) (torn p) s (fit p) (tail p)
          (omega arith) in
      rw (replay_segments, reads p, run, visit_all-append (records p) (records_of records ps) s)
        (onwards (visit_all f crc32 after_seq (records p) s)
          (λ s'. replay_segments-visit_all records torn read ps s' reads fit tail))
    where
      onwards :
          (v : Result (ℕ × St) WalError)
          → ((s : ℕ × St)
              → replay_segments crc32 f read after_seq ps s
                ≡ Prelude.ok (visit_all f crc32 after_seq (records_of records ps) s))
          → elim (Prelude.Outcome.ok v) [
            | Prelude.ok (ok s) ↦ replay_segments crc32 f read after_seq ps s
            | Prelude.ok (err e) ↦ Prelude.ok (err e)
            | Prelude.panic ↦ Prelude.panic
            | Prelude.out_of_fuel ↦ Prelude.out_of_fuel
          ]
            ≡ Prelude.ok (v >>= λ s. visit_all f crc32 after_seq (records_of records ps) s)
      onwards (err e) ih = refl
      onwards (ok s) ih = ih s

  -- A replay of a directory whose segments hold whole records, each with at most a torn record behind
  -- them, ends, and passes to `f` the records with a sequence number above `after_seq`, in the order of
  -- the segments and of the records in them, up to the first that `f` refuses; the number it returns is
  -- that of the last record passed to `f`, or `after_seq`.
  pub replay-visit_all :
      {P : Type 0} (records : P → List WalRecord) (torn : P → List ℕ)
      (read : P → Result (List ℕ) WalError) (ps : List P) (st : St)
      → ((p : P) → read p ≡ ok (encode_all crc32 (records p) ++ torn p))
      → ((p : P) → All Fits (records p))
      → ((p : P) → IsTorn crc32 (torn p))
      → replay crc32 f (ok ps) read after_seq st
        ≡ Prelude.ok (visit_all f crc32 after_seq (records_of records ps) (after_seq, st))
  unfolding replay
  replay-visit_all records torn read ps st reads fit tail =
      replay_segments-visit_all records torn read ps (after_seq, st) reads fit tail

-- `f` that keeps what it is given.
abbrev pub collect : WalRecord → List WalRecord → Result (List WalRecord) WalError
collect r st = ok (st ++ r ∷ [])

abbrev pub newer : ℕ → WalRecord → Bool
newer after_seq r = ltb after_seq r.seq

-- The sequence number of the last record, or else the given one.
abbrev pub final_seq : ℕ → List WalRecord → ℕ
final_seq n [] = n
final_seq n (r ∷ rs) = final_seq r.seq rs

visit_all-collect :
    (crc32 : List ℕ → ℕ) (after_seq : ℕ) (rs : List WalRecord) (n : ℕ) (st : List WalRecord)
    → visit_all collect crc32 after_seq rs (n, st)
      ≡ ok (final_seq n (keep (newer after_seq) rs), st ++ keep (newer after_seq) rs)
unfolding visit
visit_all-collect crc32 after_seq [] n st = rw (append-nil st) refl
visit_all-collect crc32 after_seq (r ∷ rs) n st = elim (Bool-cases (ltb after_seq r.seq)) [
  | inl new ↦
      rw
        (
          new,
          visit_all-collect crc32 after_seq rs r.seq (st ++ r ∷ []),
          append_assoc st (r ∷ []) (keep (newer after_seq) rs),
        )
        refl
  | inr old ↦ rw (old, visit_all-collect crc32 after_seq rs n st) refl
]

-- Recovery loses nothing and repeats nothing. A replay of a directory whose segments hold the
-- encodings of records that fit their words, each with at most a torn record behind them, ends
-- without an error. A callback that collects what it is given gets exactly the records with a
-- sequence number above `after_seq`, in the order of the segments and of the records in them. The
-- number returned is that of the last of them, or `after_seq` if there is none.
pub replay-keep :
    {P : Type 0} (crc32 : List ℕ → ℕ) (after_seq : ℕ) (records : P → List WalRecord)
    (torn : P → List ℕ) (read : P → Result (List ℕ) WalError) (ps : List P)
    → ((bytes : List ℕ) → crc32 bytes < 2 ^ 32)
    → ((p : P) → read p ≡ ok (encode_all crc32 (records p) ++ torn p))
    → ((p : P) → All Fits (records p))
    → ((p : P) → IsTorn crc32 (torn p))
    → let kept = keep (newer after_seq) (records_of records ps) in
      replay crc32 collect (ok ps) read after_seq []
      ≡ Prelude.ok (ok (final_seq after_seq kept, kept))
replay-keep crc32 after_seq records torn read ps word reads fit tail =
    replay-visit_all crc32 word collect after_seq records torn read ps [] reads fit tail
    ∙ ap Prelude.Outcome.ok (visit_all-collect crc32 after_seq (records_of records ps) after_seq [])
