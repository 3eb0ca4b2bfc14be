-- ===== src/Wal/Record/RoundTrip.antt =====
-- A record read back from its own bytes, and what every successful read takes.
use order_matching_engine_ru.Prelude.{
  ℕ, zero, suc, ◌+◌, ◌%◌, ◌^◌, ◌<◌, ◌≡◌, refl, ap, ◌∙◌, false, List, [], ◌∷◌, ◌++◌, arith, ltb,
  ==_refl, length, take, drop, IsU64, length-append,
}
use mathlib.Core.List.{append_assoc}
use order_matching_engine_ru.Prelude.Bytes.{
  to_le_bytes, from_le_bytes, length-to_le_bytes, from_le_bytes-to_le_bytes,
}
use order_matching_engine_ru.Prelude.Result.{ok, ◌>>=◌}
use order_matching_engine_ru.Wal.Record.{
  RecordType, command, event, snap, to_u8, from_u8, WalRecord, body_of, read_type, decode_body,
  encode, decode,
}

-- `take` and `drop` at the length of what stands in front.
pub take_front {ℓ} : {A : Type ℓ} (n : ℕ) (xs ys : List A) → length xs ≡ n → take n (xs ++ ys) ≡ xs
take_front zero [] ys h = refl
take_front zero (x ∷ xs) ys h = absurd (omega (arith, h))
take_front (suc n) [] ys h = absurd (omega (arith, h))
take_front (suc n) (x ∷ xs) ys h = ap (λ l. x ∷ l) (take_front n xs ys (omega (arith, h)))

pub drop_front {ℓ} : {A : Type ℓ} (n : ℕ) (xs ys : List A) → length xs ≡ n → drop n (xs ++ ys) ≡ ys
drop_front zero [] ys h = refl
drop_front zero (x ∷ xs) ys h = absurd (omega (arith, h))
drop_front (suc n) [] ys h = absurd (omega (arith, h))
drop_front (suc n) (x ∷ xs) ys h = drop_front n xs ys (omega (arith, h))

drop_tail {ℓ} : {A : Type ℓ} (n : ℕ) (xs : List A) → drop (suc n) xs ≡ drop 1 (drop n xs)
drop_tail zero xs = refl
drop_tail (suc n) [] = refl
drop_tail (suc n) (x ∷ xs) = drop_tail n xs

pub length-body : (r : WalRecord) → length (body_of r) ≡ 17 + length r.payload
unfolding body_of
length-body r =
    let a = to_le_bytes 8 r.seq in
    let b = to_le_bytes 8 r.ts in
    omega (
      arith,
      length-append (a ++ b) (to_u8 r.rec_type ∷ r.payload),
      length-append a b,
      length-to_le_bytes 8 r.seq,
      length-to_le_bytes 8 r.ts,
    )

-- What an encoding needs: the fields fit their words, and the length fits its header.
pub record Fits (r : WalRecord) : Type 0 where
  pub seq : IsU64 r.seq
  pub ts : IsU64 r.ts
  pub size : 17 + length r.payload < 2 ^ 32

read_type-to_u8 : (t : RecordType) → read_type (to_u8 t) ≡ ok t
unfolding read_type from_u8 to_u8
read_type-to_u8 command = refl
read_type-to_u8 event = refl
read_type-to_u8 snap = refl

unfoldable record_of : (a b : List ℕ) (t : RecordType) (p : List ℕ) → WalRecord
record_of a b t p = record {
  seq = from_le_bytes a;
  ts = from_le_bytes b;
  rec_type = t;
  payload = p;
}

-- A body in its parts is read part by part.
decode_body-parts :
    (a b : List ℕ) (c n : ℕ) (p : List ℕ)
    → length a ≡ 8
    → length b ≡ 8
    → decode_body (a ++ b ++ c ∷ p) n ≡ (read_type c >>= λ t. ok (record_of a b t p, n))
unfolding decode_body record_of
decode_body-parts a b c n p ha hb =
    let both : length (a ++ b) ≡ 16 = omega (arith, ha, hb, length-append a b) in
    let size : length (a ++ b ++ c ∷ p) ≡ 17 + length p =
      omega (arith, both, length-append (a ++ b) (c ∷ p)) in
    let long : ltb (length (a ++ b ++ c ∷ p)) 17 ≡ false = ground (arith, size) in
    let shape = append_assoc a b (c ∷ p) in
    let mid : drop 16 (a ++ b ++ c ∷ p) ≡ c ∷ p = drop_front 16 (a ++ b) (c ∷ p) both in
    let tail : drop 17 (a ++ b ++ c ∷ p) ≡ p = drop_tail 16 (a ++ b ++ c ∷ p) ∙ ap (drop 1) mid in
    let seq : take 8 (a ++ b ++ c ∷ p) ≡ a = ap (take 8) shape ∙ take_front 8 a (b ++ c ∷ p) ha in
    let ts : take 8 (drop 8 (a ++ b ++ c ∷ p)) ≡ b =
      ap (λ xs. take 8 (drop 8 xs)) shape
      ∙ ap (take 8) (drop_front 8 a (b ++ c ∷ p) ha)
      ∙ take_front 8 b (c ∷ p) hb in
    rw (long, mid, tail, seq, ts) refl

decode_body-body : (r : WalRecord) (n : ℕ) → Fits r → decode_body (body_of r) n ≡ ok (r, n)
unfolding body_of record_of
decode_body-body r n f =
    rw
      (
        decode_body-parts (to_le_bytes 8 r.seq) (to_le_bytes 8 r.ts) (to_u8 r.rec_type) n r.payload
            (length-to_le_bytes 8 r.seq) (length-to_le_bytes 8 r.ts),
        read_type-to_u8 r.rec_type,
        from_le_bytes-to_le_bytes 8 r.seq (omega (arith, f.seq)),
        from_le_bytes-to_le_bytes 8 r.ts (omega (arith, f.ts)),
      )
      refl

module _ (crc32 : List ℕ → ℕ) where
  pub length-encode : (r : WalRecord) → length (encode crc32 r) ≡ 25 + length r.payload
  unfolding encode
  length-encode r =
      let body = body_of r in
      let a = to_le_bytes 4 (length body % 2 ^ 32) in
      let c = to_le_bytes 4 (crc32 body) in
      omega (
        arith,
        length-append (a ++ c) body,
        length-append a c,
        length-to_le_bytes 4 (length body % 2 ^ 32),
        length-to_le_bytes 4 (crc32 body),
        length-body r,
      )

  -- The header of an encoding in its parts.
  decode-parts :
      (a c body rest : List ℕ)
      → length a ≡ 4
      → length c ≡ 4
      → from_le_bytes a ≡ length body
      → from_le_bytes c ≡ crc32 body
      → decode crc32 (a ++ c ++ body ++ rest) ≡ decode_body body (8 + length body)
  unfolding decode
  decode-parts a c body rest ha hc len sum =
      let whole = a ++ c ++ body ++ rest in
      let both : length (a ++ c) ≡ 8 = omega (arith, ha, hc, length-append a c) in
      let size : length whole ≡ 8 + length body + length rest =
        omega (arith, both, length-append (a ++ c ++ body) rest, length-append (a ++ c) body) in
      let shape = append_assoc (a ++ c) body rest in
      let inner = shape ∙ append_assoc a c (body ++ rest) in
      let back : drop 8 whole ≡ body ++ rest =
        ap (drop 8) shape ∙ drop_front 8 (a ++ c) (body ++ rest) both in
      let first : take 4 whole ≡ a = ap (take 4) inner ∙ take_front 4 a (c ++ (body ++ rest)) ha in
      let second : take 4 (drop 4 whole) ≡ c =
        ap (λ xs. take 4 (drop 4 xs)) inner
        ∙ ap (take 4) (drop_front 4 a (c ++ (body ++ rest)) ha)
        ∙ take_front 4 c (body ++ rest) hc in
      let header : ltb (length whole) 8 ≡ false = ground (arith, size) in
      let there : ltb (length whole) (8 + length body) ≡ false = ground (arith, size) in
      rw
        (
          header,
          first,
          len,
          there,
          back,
          take_front (length body) body rest refl,
          second,
          sum,
          ==_refl (crc32 body),
        )
        refl

  -- A record whose fields fit their words is read back from its encoding, whatever bytes follow, and
  -- exactly the bytes of the encoding are consumed, for every checksum function with 32-bit results.
  pub decode-encode :
      (r : WalRecord) (rest : List ℕ)
      → Fits r
      → ((bytes : List ℕ) → crc32 bytes < 2 ^ 32)
      → decode crc32 (encode crc32 r ++ rest) ≡ ok (r, length (encode crc32 r))
  unfolding encode
  decode-encode r rest f word =
      let body = body_of r in
      let small : length body % 2 ^ 32 ≡ length body = omega (arith, length-body r, f.size) in
      let a = to_le_bytes 4 (length body % 2 ^ 32) in
      let c = to_le_bytes 4 (crc32 body) in
      decode-parts a c body rest (length-to_le_bytes 4 (length body % 2 ^ 32))
        (length-to_le_bytes 4 (crc32 body))
        (from_le_bytes-to_le_bytes 4 (length body % 2 ^ 32)
            (omega (arith, small, length-body r, f.size))
          ∙ small)
        (from_le_bytes-to_le_bytes 4 (crc32 body) (omega (arith, word body)))
      ∙ decode_body-body r (8 + length body) f
      ∙ ap (λ (n : ℕ). ok (r, n)) (omega (arith, length-body r, length-encode r))
