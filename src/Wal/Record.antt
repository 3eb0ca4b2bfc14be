-- ===== src/Wal/Record.antt =====
-- crates/wal/src/record.rs and the errors of lib.rs. `crc32` stands for the checksum of crc32fast.
pub mod RoundTrip
use order_matching_engine_ru.Prelude.{
  ℕ, ◌+◌, ◌%◌, ◌^◌, ◌<◌, ◌≡◌, refl, Option, none, some, List, [], ◌∷◌, ◌++◌, ltb, ◌==◌,
  if◌then◌else◌, length, take, drop, IsU64, All,
}
use order_matching_engine_ru.Prelude.Bytes.{IsByte, to_le_bytes, from_le_bytes}
use order_matching_engine_ru.Prelude.Result.{Result, ok, err, ◌>>=◌}

pub data RecordType : Type 0 where
  command event snap : RecordType

-- `rec_type as u8`
unfoldable pub to_u8 : RecordType → ℕ
to_u8 command = 1
to_u8 event = 2
to_u8 snap = 3

unfoldable pub from_u8 : ℕ → Option RecordType
from_u8 b =
    if b == 1
    then some command
    else if b == 2
    then some event
    else if b == 3
    then some snap
    else none

-- `serialise` carries the unknown type byte that its message prints; `io` stands for a failed call
-- of the file system.
pub data WalError : Type 0 where
  io : WalError
  crc : (expected actual : ℕ) → WalError
  truncated : (offset : ℕ) → WalError
  serialise : (byte : ℕ) → WalError

pub record WalRecord : Type 0 where
  pub seq : ℕ
  pub ts : ℕ
  pub rec_type : RecordType
  pub payload : List ℕ

unfoldable pub body_of : WalRecord → List ℕ
unfolding to_u8
body_of r = to_le_bytes 8 r.seq ++ to_le_bytes 8 r.ts ++ to_u8 r.rec_type ∷ r.payload

-- `RecordType::from_u8(…).ok_or_else(…)`
unfoldable pub read_type : ℕ → Result RecordType WalError
unfolding from_u8
read_type b = elim (from_u8 b) [ none ↦ err (serialise b) | some t ↦ ok t ]

-- The byte at 16, and what stands behind it.
abbrev pub head_or : List ℕ → ℕ
head_or [] = 0
head_or (b ∷ _) = b

-- The fields of a body whose checksum is right.
unfoldable pub decode_body : List ℕ → ℕ → Result (WalRecord × ℕ) WalError
unfolding read_type
decode_body body total = if ltb (length body) 17 then err (truncated 8) else (do
  let seq = from_le_bytes (take 8 body)
  let ts = from_le_bytes (take 8 (drop 8 body))
  rec_type ← read_type (head_or (drop 16 body))
  ok (record { seq = seq; ts = ts; rec_type = rec_type; payload = drop 17 body }, total))

module _ (crc32 : List ℕ → ℕ) where
  -- `payload_len` is the length of the body as a `u32`.
  unfoldable pub encode : WalRecord → List ℕ
  unfolding body_of
  encode r =
      let body = body_of r in
      to_le_bytes 4 (length body % 2 ^ 32) ++ to_le_bytes 4 (crc32 body) ++ body

  unfoldable pub decode : List ℕ → Result (WalRecord × ℕ) WalError
  unfolding decode_body
  decode buf =
      if ltb (length buf) 8
      then err (truncated 0)
      else let payload_len = from_le_bytes (take 4 buf) in
        let stored_crc = from_le_bytes (take 4 (drop 4 buf)) in
        let total = 8 + payload_len in
        if ltb (length buf) total
        then err (truncated 8)
        else let body = take payload_len (drop 8 buf) in
          if crc32 body == stored_crc
          then decode_body body total
          else err (crc stored_crc (crc32 body))
