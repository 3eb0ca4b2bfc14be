-- ===== src/Protocol/Binary/RoundTrip.antt =====
-- Inbound messages read back from their wire layout.
use order_matching_engine_ru.Prelude.{
  ℕ, zero, suc, ◌+◌, ◌-◌, ◌/◌, ◌%◌, ◌^◌, ◌<◌, ◌≡◌, refl, ap, false, List, ◌∷◌, ◌++◌, ltb, length,
  take, drop, IsU64, IsU32, arith, length-append,
}
use order_matching_engine_ru.Prelude.Int.{ℤ, pos, negsuc, IsI64}
use order_matching_engine_ru.Prelude.Bytes.{
  to_le_bytes, from_le_bytes-to_le_bytes, length-to_le_bytes,
}
use order_matching_engine_ru.Prelude.Result.{ok}
use order_matching_engine_ru.Core.Types.{
  Side, buy, sell, OrderType, limit, market, ioc, fok, stop_market, stop_limit, TimeInForce, gtc,
  day,
}
use order_matching_engine_ru.Protocol.Binary.{
  InboundMsg, new_order, cancel, replace, BinNewOrder, BinCancel, BinReplace, tag_new_order,
  tag_cancel, tag_replace, to_u64, from_u64, get_le, get_i64_le, decode_side, decode_order_type,
  decode_tif, decode_inbound,
}

-- The code bytes of the wire format.
unfoldable pub side_code : Side → ℕ
side_code buy = 0
side_code sell = 1

unfoldable pub order_type_code : OrderType → ℕ
order_type_code limit = 0
order_type_code market = 1
order_type_code ioc = 2
order_type_code fok = 3
order_type_code stop_market = 4
order_type_code stop_limit = 5

unfoldable pub tif_code : TimeInForce → ℕ
tif_code gtc = 0
tif_code day = 1

-- The wire layout of a message in front of what follows in the buffer, in the 40, 13 or 29 bytes that
-- the comments of binary.rs give. The frames of interfaces.md are padded to 42, 16 and 32 bytes, and
-- are not these.
unfoldable pub layout : InboundMsg → List ℕ → List ℕ
unfolding to_u64
layout (new_order m) rest =
    tag_new_order
    ∷ (to_le_bytes 8 m.order_id
        ++ (to_le_bytes 4 m.symbol_id
            ++ (side_code m.side
                ∷ order_type_code m.order_type
                ∷ tif_code m.tif
                ∷ (to_le_bytes 8 (to_u64 m.price)
                    ++ (to_le_bytes 8 (to_u64 m.stop_price) ++ (to_le_bytes 8 m.qty ++ rest))))))
layout (cancel m) rest =
    tag_cancel ∷ (to_le_bytes 8 m.order_id ++ (to_le_bytes 4 m.symbol_id ++ rest))
layout (replace m) rest =
    tag_replace
    ∷ (to_le_bytes 8 m.order_id
        ++ (to_le_bytes 4 m.symbol_id
            ++ (to_le_bytes 8 (to_u64 m.new_price) ++ (to_le_bytes 8 m.new_qty ++ rest))))

-- The fields of a message fit their words.
abbrev pub FitsWire : InboundMsg → Type 0
FitsWire (new_order m) =
    IsU64 m.order_id × IsU32 m.symbol_id × IsI64 m.price × IsI64 m.stop_price × IsU64 m.qty
FitsWire (cancel m) = IsU64 m.order_id × IsU32 m.symbol_id
FitsWire (replace m) = IsU64 m.order_id × IsU32 m.symbol_id × IsI64 m.new_price × IsU64 m.new_qty

pub from_u64-to_u64 : (z : ℤ) → IsI64 z → from_u64 (to_u64 z) ≡ z
unfolding from_u64 to_u64
from_u64-to_u64 (pos n) (h, _) = ground arith
from_u64-to_u64 (negsuc n) (_, h) =
    let high : ltb (2 ^ 64 - (n + 1)) (2 ^ 63) ≡ false = ground arith in
    rw high (ap negsuc (omega arith))

to_u64-lt : (z : ℤ) → IsI64 z → to_u64 z < 2 ^ 64
unfolding to_u64
to_u64-lt (pos n) (h, _) = omega arith
to_u64-lt (negsuc n) (_, h) = omega arith

take_word : (n v : ℕ) (rest : List ℕ) → take n (to_le_bytes n v ++ rest) ≡ to_le_bytes n v
unfolding to_le_bytes
take_word zero v rest = refl
take_word (suc n) v rest = ap (λ xs. (v % 256) ∷ xs) (take_word n (v / 256) rest)

drop_word : (n v : ℕ) (rest : List ℕ) → drop n (to_le_bytes n v ++ rest) ≡ rest
unfolding to_le_bytes
drop_word zero v rest = refl
drop_word (suc n) v rest = drop_word n (v / 256) rest

get_le-word :
    (n v : ℕ) (rest : List ℕ) → v < 256 ^ n → get_le n (to_le_bytes n v ++ rest) ≡ (v, rest)
unfolding get_le
get_le-word n v rest h =
    rw (take_word n v rest, drop_word n v rest, from_le_bytes-to_le_bytes n v h) refl

get_i64_le-word :
    (z : ℤ) (rest : List ℕ) → IsI64 z → get_i64_le (to_le_bytes 8 (to_u64 z) ++ rest) ≡ (z, rest)
unfolding get_i64_le
get_i64_le-word z rest h =
    rw (get_le-word 8 (to_u64 z) rest (omega (arith, to_u64-lt z h)), from_u64-to_u64 z h) refl

decode_side-code : (s : Side) → decode_side (side_code s) ≡ ok s
unfolding decode_side side_code
decode_side-code buy = refl
decode_side-code sell = refl

decode_order_type-code : (k : OrderType) → decode_order_type (order_type_code k) ≡ ok k
unfolding decode_order_type order_type_code
decode_order_type-code limit = refl
decode_order_type-code market = refl
decode_order_type-code ioc = refl
decode_order_type-code fok = refl
decode_order_type-code stop_market = refl
decode_order_type-code stop_limit = refl

decode_tif-code : (t : TimeInForce) → decode_tif (tif_code t) ≡ ok t
unfolding decode_tif tif_code
decode_tif-code gtc = refl
decode_tif-code day = refl

length-word : (n v : ℕ) (rest : List ℕ) → length (to_le_bytes n v ++ rest) ≡ n + length rest
length-word n v rest = omega (arith, length-append (to_le_bytes n v) rest, length-to_le_bytes n v)

decode_cancel-layout :
    (m : BinCancel) (rest : List ℕ)
    → FitsWire (cancel m)
    → decode_inbound (layout (cancel m) rest) ≡ ok (cancel m, rest)
unfolding decode_inbound layout
decode_cancel-layout m rest (h₁, h₂) =
    let more = to_le_bytes 4 m.symbol_id ++ rest in
    let size : ltb (length (to_le_bytes 8 m.order_id ++ more)) 12 ≡ false =
      ground (arith, length-word 8 m.order_id more, length-word 4 m.symbol_id rest) in
    rw
      (
        size,
        get_le-word 8 m.order_id more (omega arith),
        get_le-word 4 m.symbol_id rest (omega arith),
      )
      refl

decode_replace-layout :
    (m : BinReplace) (rest : List ℕ)
    → FitsWire (replace m)
    → decode_inbound (layout (replace m) rest) ≡ ok (replace m, rest)
unfolding decode_inbound layout
decode_replace-layout m rest (h₁, h₂, h₃, h₄) =
    let more₄ = to_le_bytes 8 m.new_qty ++ rest in
    let more₃ = to_le_bytes 8 (to_u64 m.new_price) ++ more₄ in
    let more₂ = to_le_bytes 4 m.symbol_id ++ more₃ in
    let size : ltb (length (to_le_bytes 8 m.order_id ++ more₂)) 28 ≡ false = ground (
      arith,
      length-word 8 m.order_id more₂,
      length-word 4 m.symbol_id more₃,
      length-word 8 (to_u64 m.new_price) more₄,
      length-word 8 m.new_qty rest,
    ) in
    rw
      (
        size,
        get_le-word 8 m.order_id more₂ (omega arith),
        get_le-word 4 m.symbol_id more₃ (omega arith),
        get_i64_le-word m.new_price more₄ h₃,
        get_le-word 8 m.new_qty rest (omega arith),
      )
      refl

decode_new_order-layout :
    (m : BinNewOrder) (rest : List ℕ)
    → FitsWire (new_order m)
    → decode_inbound (layout (new_order m) rest) ≡ ok (new_order m, rest)
unfolding decode_inbound layout
decode_new_order-layout m rest (h₁, h₂, h₃, h₄, h₅) =
    let more₆ = to_le_bytes 8 m.qty ++ rest in
    let more₅ = to_le_bytes 8 (to_u64 m.stop_price) ++ more₆ in
    let more₄ = to_le_bytes 8 (to_u64 m.price) ++ more₅ in
    let more₃ = side_code m.side ∷ order_type_code m.order_type ∷ tif_code m.tif ∷ more₄ in
    let more₂ = to_le_bytes 4 m.symbol_id ++ more₃ in
    let size : ltb (length (to_le_bytes 8 m.order_id ++ more₂)) 39 ≡ false = ground (
      arith,
      length-word 8 m.order_id more₂,
      length-word 4 m.symbol_id more₃,
      length-word 8 (to_u64 m.price) more₅,
      length-word 8 (to_u64 m.stop_price) more₆,
      length-word 8 m.qty rest,
    ) in
    rw
      (
        size,
        get_le-word 8 m.order_id more₂ (omega arith),
        get_le-word 4 m.symbol_id more₃ (omega arith),
        decode_side-code m.side,
        decode_order_type-code m.order_type,
        decode_tif-code m.tif,
        get_i64_le-word m.price more₅ h₃,
        get_i64_le-word m.stop_price more₆ h₄,
        get_le-word 8 m.qty rest (omega arith),
      )
      refl

-- Every inbound message whose fields fit their words is read back from its layout without padding, the
-- 40, 13 or 29 bytes of binary.rs, and the bytes behind it stay in the buffer. So the padding that
-- interfaces.md puts behind a message would be read as the next one.
pub decode_inbound-layout :
    (m : InboundMsg) (rest : List ℕ) → FitsWire m → decode_inbound (layout m rest) ≡ ok (m, rest)
decode_inbound-layout (new_order m) rest h = decode_new_order-layout m rest h
decode_inbound-layout (cancel m) rest h = decode_cancel-layout m rest h
decode_inbound-layout (replace m) rest h = decode_replace-layout m rest h
