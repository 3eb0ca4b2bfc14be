-- ===== src/Wal/Writer/Append.antt =====
-- Appends in a row, and the replay of what they leave.
pub mod LogOf
pub use LogOf.*
use order_matching_engine_ru.Prelude.{
  ℕ, zero, suc, ◌+◌, ◌^◌, ◌<◌, ◌≤◌, ◌≡◌, refl, sym, ap, ◌∙◌, Bool, true, false, Bool-cases, inl,
  inr, List, [], ◌∷◌, ◌++◌, arith, leb, ltb, ◌==◌, ==_refl, if◌then◌else◌, length, add_u64, Outcome,
  ◌>>=◌, All, All-append, keep, Option, none, some,
}
use order_matching_engine_ru.Prelude
use mathlib.Core.Path.{subst}
use mathlib.Core.List.{append-nil, append_assoc}
use order_matching_engine_ru.Prelude.Result.{ok}
use order_matching_engine_ru.Wal.Record.{WalRecord, encode}
use order_matching_engine_ru.Wal.Record.RoundTrip.{Fits}
use order_matching_engine_ru.Wal.Reader.{replay}
use order_matching_engine_ru.Wal.Reader.Replay.{
  encode_all, collect, newer, final_seq, records_of, replay-keep,
}
use order_matching_engine_ru.Wal.Writer.{
  FsyncPolicy, WalWriter, Disk, segment_size, flush, roll_segment, roll_if_full, open_writer,
  append, append_all,
}
use order_matching_engine_ru.Wal.Writer.Recovery.{
  Logs, with_record, flush-Logs, roll_segment-Logs, sync_by_policy-Logs, CanSync, encode_all-append,
}

module _ (crc32 : List ℕ → ℕ) where
  -- What a run of appends leaves: the log is longer by the records.
  abbrev pub Extends :
      (ℕ → List WalRecord) → WalWriter → List WalRecord → Outcome (WalWriter × Disk) → Type 0
  Extends runs w rs run =
      (runs' : ℕ → List WalRecord) × (w' : WalWriter) × (d' : Disk) × (run ≡ Prelude.ok (w', d'))
      × Logs crc32 runs' w' d'
      × (log_of runs' w'.seg_idx ≡ log_of runs w.seg_idx ++ rs)
      × (w'.seg_idx ≤ w.seg_idx + length rs)
      × (w'.fsync ≡ w.fsync)

  -- The writer with the bytes of a record in its buffer.
  buffered-Logs :
      (runs : ℕ → List WalRecord) (w : WalWriter) (d : Disk) (r : WalRecord) (n k : ℕ)
      → Fits r
      → Logs crc32 runs w d
      → Logs crc32
          (with_record runs w.seg_idx r)
          (record w { file = w.file ++ encode crc32 r; seg_bytes = n; write_count = k })
          d
  buffered-Logs runs w d r n k f h = record {
    past = λ j other. rw other (h.past j other);
    current = rw (==_refl w.seg_idx) (
        sym (append_assoc (d.files w.seg_idx) w.file (encode crc32 r))
        ∙ ap (λ xs. xs ++ encode crc32 r) h.current
        ∙ ap (λ xs. encode_all crc32 (runs w.seg_idx) ++ xs) (sym (append-nil (encode crc32 r)))
        ∙ sym (encode_all-append crc32 (runs w.seg_idx) (r ∷ [])));
    fresh = λ j above.
        (let other : (w.seg_idx == j) ≡ false = ground arith in rw other (h.fresh j above));
    fit = λ j. elim (Bool-cases (w.seg_idx == j)) [
      | inl at ↦ rw at (All-append Fits (runs j) (r ∷ []) (h.fit j) (f, tt))
      | inr other ↦ rw other (h.fit j)
    ];
    positive = h.positive;
  }

  -- The roll keeps the log.
  roll_if_full-Logs :
      (runs : ℕ → List WalRecord) (w : WalWriter) (d : Disk)
      → w.seg_idx + 1 < 2 ^ 64
      → Logs crc32 runs w d
      → (w' : WalWriter) × (d' : Disk) × (roll_if_full (w, d) ≡ (w', d'))
        × Logs crc32 runs w' d'
        × (log_of runs w'.seg_idx ≡ log_of runs w.seg_idx)
        × (w'.seg_idx ≤ w.seg_idx + 1)
        × (w'.fsync ≡ w.fsync)
  unfolding roll_if_full
  roll_if_full-Logs runs w d small h = elim (Bool-cases (leb segment_size w.seg_bytes)) [
    | inr room ↦ (w, d, rw room refl, h, refl, omega arith, refl)
    | inl full ↦
        let up : add_u64 w.seg_idx 1 ≡ suc w.seg_idx = omega (arith, small) in
        let g = roll_segment-Logs crc32 runs w d small h in
        let longer =
          log_of-suc runs w.seg_idx
          ∙ ap (λ xs. log_of runs w.seg_idx ++ xs) (h.fresh (suc w.seg_idx) (omega arith))
          ∙ append-nil (log_of runs w.seg_idx) in
        (
          (roll_segment w d).0,
          (roll_segment w d).1,
          rw full refl,
          g,
          ap (log_of runs) up ∙ longer,
          omega (arith, up),
          refl,
        )
  ]

  pub append-Extends :
      (runs : ℕ → List WalRecord) (w : WalWriter) (d : Disk) (r : WalRecord)
      → Fits r
      → CanSync w.fsync
      → w.seg_idx + 1 < 2 ^ 64
      → Logs crc32 runs w d
      → Extends runs w (r ∷ []) (append crc32 r w d)
  unfolding append
  append-Extends runs w d r f c small h =
      let bytes = encode crc32 r in
      let w₁ : WalWriter = record w {
        file = w.file ++ bytes;
        seg_bytes = add_u64 w.seg_bytes (length bytes);
        write_count = add_u64 w.write_count 1;
      } in
      let h₁ =
        buffered-Logs runs w d r (add_u64 w.seg_bytes (length bytes)) (add_u64 w.write_count 1) f
          h in
      let (w₂, d₂, run₂, h₂, at₂, kept₂) =
        sync_by_policy-Logs crc32 w.fsync (with_record runs w.seg_idx r) w₁ d c h₁ in
      let (w₃, d₃, run₃, h₃, log₃, at₃, kept₃) =
        roll_if_full-Logs (with_record runs w.seg_idx r) w₂ d₂ (omega (arith, at₂, small)) h₂ in
      (
        with_record runs w.seg_idx r,
        w₃,
        d₃,
        rw (run₂, run₃) refl,
        h₃,
        log₃
            ∙ ap (log_of (with_record runs w.seg_idx r)) at₂
            ∙ log_of-with_record runs w.seg_idx r h.positive,
        omega (arith, at₃, at₂),
        kept₃ ∙ kept₂,
      )

  pub append_all-Extends :
      (rs : List WalRecord) (runs : ℕ → List WalRecord) (w : WalWriter) (d : Disk)
      → All Fits rs
      → CanSync w.fsync
      → w.seg_idx + length rs < 2 ^ 64
      → Logs crc32 runs w d
      → Extends runs w rs (append_all crc32 rs w d)
  unfolding append_all
  append_all-Extends [] runs w d fits c small h =
      (runs, w, d, refl, h, sym (append-nil (log_of runs w.seg_idx)), omega arith, refl)
  append_all-Extends (r ∷ rs) runs w d (f, fits) c small h =
      let (runs₁, w₁, d₁, run₁, h₁, log₁, at₁, kept₁) =
        append-Extends runs w d r f c (omega (arith, small)) h in
      let (runs₂, w₂, d₂, run₂, h₂, log₂, at₂, kept₂) =
        append_all-Extends rs runs₁ w₁ d₁ fits (subst CanSync (sym kept₁) c)
          (omega (arith, small, at₁)) h₁ in
      (
        runs₂,
        w₂,
        d₂,
        rw (run₁, run₂) refl,
        h₂,
        log₂ ∙ ap (λ xs. xs ++ rs) log₁ ∙ append_assoc (log_of runs w.seg_idx) (r ∷ []) rs,
        omega (arith, at₁, at₂),
        kept₂ ∙ kept₁,
      )

  -- A writer that is opened on an empty directory.
  pub open_writer-Logs :
      (p : FsyncPolicy) (d : Disk)
      → ((j : ℕ) → d.files j ≡ [])
      → Logs crc32 (λ j. []) (open_writer none p d) d
  unfolding open_writer
  open_writer-Logs p d none_yet = record {
    past = λ j other. none_yet j;
    current = append-nil (d.files 1) ∙ none_yet 1;
    fresh = λ j above. refl;
    fit = λ j. tt;
    positive = omega arith;
  }

  -- With an empty buffer every segment holds its records.
  pub flushed_files :
      (runs : ℕ → List WalRecord) (w : WalWriter) (d : Disk)
      → w.file ≡ []
      → Logs crc32 runs w d
      → (j : ℕ) → d.files j ≡ encode_all crc32 (runs j)
  flushed_files runs w d none_left h j = elim (Bool-cases (w.seg_idx == j)) [
    | inl here ↦
        let same : w.seg_idx ≡ j = ground (arith, here) in
        subst (λ (i : ℕ). d.files i ≡ encode_all crc32 (runs i)) same
          (sym (append-nil (d.files w.seg_idx))
            ∙ ap (λ xs. d.files w.seg_idx ++ xs) (sym none_left)
            ∙ h.current)
    | inr other ↦ h.past j other
  ]

-- What a log comes back as when it is flushed and replayed.
abbrev pub Replays : (List ℕ → ℕ) → ℕ → List WalRecord → WalWriter → Disk → Type 0
Replays crc32 after_seq rs w d =
    replay crc32 collect (ok (indices w.seg_idx)) (λ (j : ℕ). ok (d.files j)) after_seq []
    ≡ Prelude.ok (ok (final_seq after_seq (keep (newer after_seq) rs), keep (newer after_seq) rs))

pub flush-Replays :
    (crc32 : List ℕ → ℕ) (after_seq : ℕ) (runs : ℕ → List WalRecord) (w : WalWriter) (d : Disk)
    → ((bytes : List ℕ) → crc32 bytes < 2 ^ 32)
    → Logs crc32 runs w d
    → Replays crc32 after_seq (log_of runs w.seg_idx) (flush w d).0 (flush w d).1
unfolding flush
flush-Replays crc32 after_seq runs w d word h =
    let g = flush-Logs crc32 runs w d h in
    let whole = flushed_files crc32 runs (flush w d).0 (flush w d).1 refl g in
    replay-keep crc32 after_seq runs (λ (j : ℕ). []) (λ (j : ℕ). ok ((flush w d).1.files j))
      (indices w.seg_idx) word (λ j. ap ok (whole j ∙ sym (append-nil (encode_all crc32 (runs j)))))
      h.fit (λ j. tt)

-- Nothing that was appended is lost. On an empty directory, under any policy but one that syncs every
-- 0 records, with fewer than 2 ^ 64 - 1 records that fit their words and a checksum of 32 bits: all
-- appends succeed, over as many segments as they fill, and after a flush a replay of the segments in
-- the order of their indices collects the appended records with a sequence number above `after_seq`,
-- in the order of the appends, and returns the number of the last of them, or `after_seq`.
pub append_all-replay :
    (crc32 : List ℕ → ℕ) (p : FsyncPolicy) (start : Disk) (rs : List WalRecord) (after_seq : ℕ)
    → ((bytes : List ℕ) → crc32 bytes < 2 ^ 32)
    → ((j : ℕ) → start.files j ≡ [])
    → CanSync p
    → All Fits rs
    → 1 + length rs < 2 ^ 64
    → let kept = keep (newer after_seq) rs in
      (w : WalWriter) × (d : Disk) × (append_all crc32 rs (open_writer none p start) start
        ≡ Prelude.ok (w, d))
      × (replay crc32 collect
            (ok (indices (flush w d).0.seg_idx))
            (λ (j : ℕ). ok ((flush w d).1.files j))
            after_seq
            []
          ≡ Prelude.ok (ok (final_seq after_seq kept, kept)))
unfolding flush open_writer
append_all-replay crc32 p start rs after_seq word empty c fits small =
    let (runs, w, d, run, h, log, at, kept) =
      append_all-Extends crc32 rs (λ j. []) (open_writer none p start) start fits c small
        (open_writer-Logs crc32 p start empty) in
    (
      w,
      d,
      run,
      subst (λ xs. Replays crc32 after_seq xs (flush w d).0 (flush w d).1) log
          (flush-Replays crc32 after_seq runs w d word h),
    )
