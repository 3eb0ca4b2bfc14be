-- ===== src/Wal/Reader/Torn.antt =====
-- What `WalRecord::decode` says of a record that was cut off while it was written.
use order_matching_engine_ru.Prelude.{
  ℕ, zero, suc, ◌+◌, ◌%◌, ◌^◌, ◌<◌, ◌≤◌, ◌≡◌, refl, ap, ◌∙◌, Bool-cases, inl, inr, true, List, [],
  ◌∷◌, ◌++◌, arith, ltb, if◌then◌else◌, length, take,
}
use mathlib.Core.List.{append_assoc}
use order_matching_engine_ru.Prelude.Bytes.{
  to_le_bytes, from_le_bytes, length-to_le_bytes, from_le_bytes-to_le_bytes,
}
use order_matching_engine_ru.Prelude.Result.{err}
use order_matching_engine_ru.Wal.Record.{truncated, WalRecord, body_of, encode, decode}
use order_matching_engine_ru.Wal.Record.RoundTrip.{Fits, length-encode, length-body, take_front}
use order_matching_engine_ru.Wal.Reader.Replay.{IsTorn}

take-take {ℓ} : {A : Type ℓ} (m n : ℕ) (xs : List A) → m ≤ n → take m (take n xs) ≡ take m xs
take-take zero n xs h = refl
take-take (suc m) zero xs h = absurd (omega arith)
take-take (suc m) (suc n) [] h = refl
take-take (suc m) (suc n) (x ∷ xs) h = ap (λ l. x ∷ l) (take-take m n xs (omega arith))

length-take {ℓ} : {A : Type ℓ} (n : ℕ) (xs : List A) → n ≤ length xs → length (take n xs) ≡ n
length-take zero xs h = refl
length-take (suc n) [] h = absurd (omega arith)
length-take (suc n) (x ∷ xs) h = omega (arith, length-take n xs (omega arith))

module _ (crc32 : List ℕ → ℕ) where
  -- The length that stands at the front of an encoding.
  header :
      (r : WalRecord) → Fits r → from_le_bytes (take 4 (encode crc32 r)) ≡ 17 + length r.payload
  unfolding encode
  header r f =
      let body = body_of r in
      let a = to_le_bytes 4 (length body % 2 ^ 32) in
      let small : length body % 2 ^ 32 ≡ 17 + length r.payload =
        omega (arith, length-body r, f.size) in
      ap from_le_bytes (
        ap (take 4) (append_assoc a (to_le_bytes 4 (crc32 body)) body)
        ∙ take_front 4 a (to_le_bytes 4 (crc32 body) ++ body)
            (length-to_le_bytes 4 (length body % 2 ^ 32)))
      ∙ from_le_bytes-to_le_bytes 4 (length body % 2 ^ 32) (omega (arith, small, f.size))
      ∙ small

  -- A record that fits its words and is cut off anywhere before its end is reported as truncated, at
  -- its header if that is cut and at its body otherwise.
  pub decode-take-encode :
      (r : WalRecord) (n : ℕ)
      → Fits r
      → n < length (encode crc32 r)
      → decode crc32 (take n (encode crc32 r)) ≡ err (truncated (if ltb n 8 then 0 else 8))
  unfolding decode
  decode-take-encode r n f cut =
      let size : length (take n (encode crc32 r)) ≡ n =
        length-take n (encode crc32 r) (omega (arith, cut)) in
      elim (Bool-cases (ltb n 8)) [
        | inl short ↦ rw (size, short) refl
        | inr long ↦
            let len =
              ap from_le_bytes (take-take 4 n (encode crc32 r) (ground (arith, long)))
              ∙ header r f in
            let missing : ltb n (8 + (17 + length r.payload)) ≡ true =
              ground (arith, length-encode crc32 r, cut) in
            rw (size, long, len, missing) refl
      ]

  -- What is left of a record that fits its words and is cut off anywhere ends a replay of its segment.
  pub take-encode-IsTorn :
      (r : WalRecord) (n : ℕ)
      → Fits r
      → n < length (encode crc32 r)
      → IsTorn crc32 (take n (encode crc32 r))
  take-encode-IsTorn r n f cut = torn (take n (encode crc32 r)) (decode-take-encode r n f cut)
    where
      torn : {k : ℕ} (bytes : List ℕ) → decode crc32 bytes ≡ err (truncated k) → IsTorn crc32 bytes
      torn [] h = tt
      torn (b ∷ bs) h = (_, h)
