-- ===== src/Wal/Writer/Recovery.antt =====
-- The segments that a writer leaves, as runs of records, and what a replay makes of them.
use order_matching_engine_ru.Prelude.{
  ℕ, ◌+◌, ◌%◌, ◌^◌, ◌<◌, ◌≡◌, refl, sym, ap, ◌∙◌, false, Bool-cases, inl, inr, List, [], ◌∷◌, ◌++◌,
  arith, ◌==◌, ==_refl, if◌then◌else◌, add_u64, Outcome, ok, All,
}
use mathlib.Core.List.{append-nil, append_assoc}
use order_matching_engine_ru.Wal.Record.{WalRecord, encode}
use order_matching_engine_ru.Wal.Record.RoundTrip.{Fits}
use order_matching_engine_ru.Wal.Reader.Replay.{encode_all}
use order_matching_engine_ru.Wal.Writer.{
  FsyncPolicy, per_record, every, off, WalWriter, Disk, written, flush, do_fsync, roll_segment,
  sync_by_policy,
}

-- The runs with one more record in one segment.
abbrev pub with_record : (ℕ → List WalRecord) → ℕ → WalRecord → ℕ → List WalRecord
with_record runs i r j = if i == j then runs j ++ r ∷ [] else runs j

-- A writer whose policy does not divide by zero.
abbrev pub CanSync : FsyncPolicy → Type 0
CanSync per_record = Unit {0}
CanSync (every n) = 0 < n
CanSync off = Unit {0}

module _ (crc32 : List ℕ → ℕ) where
  pub encode_all-append :
      (rs rs' : List WalRecord)
      → encode_all crc32 (rs ++ rs') ≡ encode_all crc32 rs ++ encode_all crc32 rs'
  encode_all-append [] rs' = refl
  encode_all-append (r ∷ rs) rs' =
      ap (λ xs. encode crc32 r ++ xs) (encode_all-append rs rs')
      ∙ sym (append_assoc (encode crc32 r) (encode_all crc32 rs) (encode_all crc32 rs'))

  -- Each segment holds its run of records, the current one together with what the writer has not
  -- flushed. The segments above it are empty, and there is none with index 0.
  pub record Logs (runs : ℕ → List WalRecord) (w : WalWriter) (d : Disk) : Type 0 where
    pub past : (j : ℕ) → (w.seg_idx == j) ≡ false → d.files j ≡ encode_all crc32 (runs j)
    pub current : d.files w.seg_idx ++ w.file ≡ encode_all crc32 (runs w.seg_idx)
    pub fresh : (j : ℕ) → w.seg_idx < j → runs j ≡ []
    pub fit : (j : ℕ) → All Fits (runs j)
    pub positive : 0 < w.seg_idx

  pub flush-Logs :
      (runs : ℕ → List WalRecord) (w : WalWriter) (d : Disk)
      → Logs runs w d
      → Logs runs (flush w d).0 (flush w d).1
  unfolding flush
  flush-Logs runs w d h = record {
    past = λ j k. ground (arith, h.past j);
    current =
        append-nil (written d.files w.seg_idx (d.files w.seg_idx ++ w.file) w.seg_idx)
        ∙ rw (==_refl w.seg_idx) (h.current);
    fresh = h.fresh;
    fit = h.fit;
    positive = h.positive;
  }

  do_fsync-Logs :
      (runs : ℕ → List WalRecord) (w : WalWriter) (d : Disk)
      → Logs runs w d
      → Logs runs (do_fsync w d).0 (do_fsync w d).1
  unfolding do_fsync
  do_fsync-Logs runs w d h =
      let g = flush-Logs runs w d h in
      record {
        past = g.past;
        current = g.current;
        fresh = g.fresh;
        fit = g.fit;
        positive = g.positive;
      }

  pub roll_segment-Logs :
      (runs : ℕ → List WalRecord) (w : WalWriter) (d : Disk)
      → w.seg_idx + 1 < 2 ^ 64
      → Logs runs w d
      → Logs runs (roll_segment w d).0 (roll_segment w d).1
  unfolding roll_segment
  roll_segment-Logs runs w d small h =
      let up : add_u64 w.seg_idx 1 ≡ w.seg_idx + 1 = omega (arith, small) in
      record {
        past = λ j k. elim (Bool-cases (w.seg_idx == j)) [
          | inl at ↦
              let same : w.seg_idx ≡ j = ground (arith, at) in
              rw at (h.current ∙ ap (λ (i : ℕ). encode_all crc32 (runs i)) same)
          | inr other ↦ rw other (h.past j other)
        ];
        current =
            append-nil
              (written d.files w.seg_idx (d.files w.seg_idx ++ w.file) (add_u64 w.seg_idx 1))
            ∙ (let other : (w.seg_idx == add_u64 w.seg_idx 1) ≡ false = ground (arith, up) in
                rw other (h.past (add_u64 w.seg_idx 1) other));
        fresh = λ j k. h.fresh j (omega (arith, up, k));
        fit = h.fit;
        positive = omega (arith, up);
      }

  -- A run that leaves the same segment current.
  abbrev pub Synced : (ℕ → List WalRecord) → WalWriter → Outcome (WalWriter × Disk) → Type 0
  Synced runs w run =
      (w' : WalWriter) × (d' : Disk) × (run ≡ ok (w', d'))
      × Logs runs w' d'
      × (w'.seg_idx ≡ w.seg_idx)
      × (w'.fsync ≡ w.fsync)

  pub sync_by_policy-Logs :
      (p : FsyncPolicy) (runs : ℕ → List WalRecord) (w : WalWriter) (d : Disk)
      → CanSync p
      → Logs runs w d
      → Synced runs w (sync_by_policy p w d)
  unfolding sync_by_policy
  sync_by_policy-Logs per_record runs w d c h =
      ((do_fsync w d).0, (do_fsync w d).1, refl, do_fsync-Logs runs w d h, refl, refl)
  sync_by_policy-Logs off runs w d c h = (w, d, refl, h, refl, refl)
  sync_by_policy-Logs (every n) runs w d c h =
      let some_n : (n == 0) ≡ false = ground arith in
      elim (Bool-cases (w.write_count % n == 0)) [
        | inl now ↦ (
          (do_fsync w d).0,
          (do_fsync w d).1,
          rw (some_n, now) refl,
          do_fsync-Logs runs w d h,
          refl,
          refl,
        )
        | inr later ↦ (w, d, rw (some_n, later) refl, h, refl, refl)
      ]
