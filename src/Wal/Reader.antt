-- ===== src/Wal/Reader.antt =====
-- crates/wal/src/reader.rs. Files are a parameter: the paths that `list_segments` returns, and what
-- `fs::read` gives for each, both of which may fail. `f` passes a state on.
pub mod Replay
pub mod Torn
use order_matching_engine_ru.Prelude.{
  ℕ, zero, suc, ◌+◌, ◌<◌, ◌≡◌, refl, Option, none, some, List, [], ◌∷◌, ltb, if◌then◌else◌, length,
  drop, Outcome, out_of_fuel,
}
use order_matching_engine_ru.Prelude
use order_matching_engine_ru.Prelude.Result.{Result, ok, err, ◌>>=◌}
use order_matching_engine_ru.Wal.Record.{WalError, io, crc, truncated, serialise, WalRecord, decode}

module _ (crc32 : List ℕ → ℕ) {St : Type 0} (f : WalRecord → St → Result St WalError) where
  -- The `Ok` branch, with `last_seq` and the state of `f`.
  unfoldable pub visit : ℕ → WalRecord → ℕ × St → Result (ℕ × St) WalError
  visit after_seq rec (last_seq, st) =
      if ltb after_seq rec.seq then (do st ← f rec st; ok (rec.seq, st)) else ok (last_seq, st)

  -- A failed read ends the segment if the record is torn, and the replay otherwise.
  unfoldable pub stop_at : WalError → ℕ × St → Result (ℕ × St) WalError
  stop_at (truncated _) s = ok s
  stop_at (crc expected actual) s = err (crc expected actual)
  stop_at (serialise byte) s = err (serialise byte)
  stop_at io s = err io

  -- The loop over one segment, from `offset` on. Every round takes at least one byte, so that more
  -- rounds than bytes are enough.
  unfoldable pub replay_segment : ℕ → ℕ → List ℕ → ℕ × St → Outcome (Result (ℕ × St) WalError)
  unfolding stop_at
  replay_segment zero after_seq bytes s = out_of_fuel
  replay_segment (suc fuel) after_seq [] s = Prelude.ok (ok s)
  replay_segment (suc fuel) after_seq (b ∷ bytes) s = elim (decode crc32 (b ∷ bytes)) [
    | err e ↦ Prelude.ok (stop_at e s)
    | ok (rec, consumed) ↦ elim (visit after_seq rec s) [
      | err e ↦ Prelude.ok (err e)
      | ok s ↦ replay_segment fuel after_seq (drop consumed (b ∷ bytes)) s
    ]
  ]

  unfoldable pub replay_segments :
      {P : Type 0}
      → (P → Result (List ℕ) WalError)
      → ℕ
      → List P
      → ℕ × St
      → Outcome (Result (ℕ × St) WalError)
  unfolding replay_segment
  replay_segments read after_seq [] s = Prelude.ok (ok s)
  replay_segments read after_seq (p ∷ ps) s = elim (read p) [
    | err e ↦ Prelude.ok (err e)
    | ok bytes ↦ elim (replay_segment (length bytes + 1) after_seq bytes s) [
      | Prelude.ok (ok s) ↦ replay_segments read after_seq ps s
      | Prelude.ok (err e) ↦ Prelude.ok (err e)
      | Prelude.panic ↦ Prelude.panic
      | out_of_fuel ↦ out_of_fuel
    ]
  ]

  unfoldable pub replay :
      {P : Type 0}
      → Result (List P) WalError
      → (P → Result (List ℕ) WalError)
      → ℕ
      → St
      → Outcome (Result (ℕ × St) WalError)
  unfolding replay_segments
  replay (err e) read after_seq st = Prelude.ok (err e)
  replay (ok paths) read after_seq st = replay_segments read after_seq paths (after_seq, st)
