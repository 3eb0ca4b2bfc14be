-- ===== src/Protocol/Binary.antt =====
-- crates/protocol/src/binary.rs and error.rs. The reads of `bytes::Bytes` and the writes of
-- `bytes::BytesMut` are little endian, as their documentation says.
pub mod RoundTrip
use order_matching_engine_ru.Prelude.{
  ℕ, ◌+◌, ◌-◌, ◌*◌, ◌^◌, ◌<◌, ◌≡◌, refl, Bool, true, false, List, [], ◌∷◌, ◌++◌, ltb, ◌==◌,
  if◌then◌else◌, length, take, drop,
}
use order_matching_engine_ru.Prelude.Int.{ℤ, pos, negsuc}
use order_matching_engine_ru.Prelude.Bytes.{to_le_bytes, from_le_bytes}
use order_matching_engine_ru.Prelude.Result.{Result, ok, err, ◌>>=◌}
use order_matching_engine_ru.Core.Types.{
  Side, buy, sell, OrderType, limit, market, ioc, fok, stop_market, stop_limit, TimeInForce, gtc,
  day, NewOrder,
}

pub data FieldName : Type 0 where
  side order_type tif : FieldName

-- `json` stands for an error of serde_json.
pub data ProtoError : Type 0 where
  truncated : ProtoError
  unknown_tag : ℕ → ProtoError
  bad_field : FieldName → ProtoError
  json : ProtoError

-- `b'N'`, `b'C'`, … as bytes.
abbrev pub tag_new_order : ℕ
tag_new_order = 78

abbrev pub tag_cancel : ℕ
tag_cancel = 67

abbrev pub tag_replace : ℕ
tag_replace = 82

abbrev pub tag_ack : ℕ
tag_ack = 65

abbrev pub tag_reject : ℕ
tag_reject = 74

abbrev pub tag_fill : ℕ
tag_fill = 70

abbrev pub tag_cancelled : ℕ
tag_cancelled = 88

abbrev pub tag_replaced : ℕ
tag_replaced = 90

pub record BinNewOrder : Type 0 where
  pub order_id : ℕ
  pub symbol_id : ℕ
  pub side : Side
  pub order_type : OrderType
  pub tif : TimeInForce
  pub price : ℤ
  pub stop_price : ℤ
  pub qty : ℕ

pub record BinCancel : Type 0 where
  pub order_id : ℕ
  pub symbol_id : ℕ

pub record BinReplace : Type 0 where
  pub order_id : ℕ
  pub symbol_id : ℕ
  pub new_price : ℤ
  pub new_qty : ℕ

pub data InboundMsg : Type 0 where
  new_order : BinNewOrder → InboundMsg
  cancel : BinCancel → InboundMsg
  replace : BinReplace → InboundMsg

pub data OutboundMsg : Type 0 where
  ack : (order_id seq status : ℕ) → OutboundMsg
  reject : (order_id seq reason : ℕ) → OutboundMsg
  fill : (order_id seq : ℕ) (price : ℤ) (qty leaves : ℕ) (is_maker : Bool) → OutboundMsg
  cancelled : (order_id seq : ℕ) → OutboundMsg
  replaced : (order_id seq : ℕ) → OutboundMsg

-- The two's complement of an `i64`.
unfoldable pub to_u64 : ℤ → ℕ
to_u64 (pos n) = n
to_u64 (negsuc n) = 2 ^ 64 - (n + 1)

unfoldable pub from_u64 : ℕ → ℤ
from_u64 n = if ltb n (2 ^ 63) then pos n else negsuc (2 ^ 64 - n - 1)

unfoldable pub bit : Bool → ℕ
bit false = 0
bit true = 1

-- The bytes that are appended to `buf`.
unfoldable pub encode_outbound : OutboundMsg → List ℕ
unfolding to_u64 bit
encode_outbound (ack order_id seq status) =
    tag_ack ∷ to_le_bytes 8 order_id ++ to_le_bytes 8 seq ++ status ∷ []
encode_outbound (reject order_id seq reason) =
    tag_reject ∷ to_le_bytes 8 order_id ++ to_le_bytes 8 seq ++ reason ∷ []
encode_outbound (fill order_id seq price qty leaves is_maker) =
    tag_fill ∷ to_le_bytes 8 order_id
    ++ to_le_bytes 8 seq
    ++ to_le_bytes 8 (to_u64 price)
    ++ to_le_bytes 8 qty
    ++ to_le_bytes 8 leaves
    ++ bit is_maker ∷ []
encode_outbound (cancelled order_id seq) =
    tag_cancelled ∷ to_le_bytes 8 order_id ++ to_le_bytes 8 seq
encode_outbound (replaced order_id seq) = tag_replaced ∷ to_le_bytes 8 order_id ++ to_le_bytes 8 seq

unfoldable pub decode_side : ℕ → Result Side ProtoError
decode_side b =
    if b == 0 then ok buy else if b == 1 then ok sell else err (bad_field FieldName.side)

unfoldable pub decode_order_type : ℕ → Result OrderType ProtoError
decode_order_type b =
    if b == 0
    then ok limit
    else if b == 1
    then ok market
    else if b == 2
    then ok ioc
    else if b == 3
    then ok fok
    else if b == 4
    then ok stop_market
    else if b == 5
    then ok stop_limit
    else err (bad_field FieldName.order_type)

unfoldable pub decode_tif : ℕ → Result TimeInForce ProtoError
decode_tif b = if b == 0 then ok gtc else if b == 1 then ok day else err (bad_field FieldName.tif)

-- `buf.get_u64_le()` and the like, with the bytes left; the callers test `remaining` first.
unfoldable pub get_le : ℕ → List ℕ → ℕ × List ℕ
get_le n buf = (from_le_bytes (take n buf), drop n buf)

unfoldable pub get_i64_le : List ℕ → ℤ × List ℕ
get_i64_le buf = let (n, buf) = get_le 8 buf in (from_u64 n, buf)

unfoldable pub get_u8 : List ℕ → ℕ × List ℕ
get_u8 [] = (0, [])
get_u8 (b ∷ buf) = (b, buf)

-- The messages of these three functions stand with the bytes that are left in `buf`.
unfoldable pub decode_new_order : List ℕ → Result (InboundMsg × List ℕ) ProtoError
unfolding get_u8
decode_new_order buf =
    if ltb (length buf) 39
    then err truncated
    else let (order_id, buf) = get_le 8 buf in
      let (symbol_id, buf) = get_le 4 buf in
      let (side_byte, buf) = get_u8 buf in
      let (type_byte, buf) = get_u8 buf in
      decode_side side_byte >>= λ side. decode_order_type type_byte >>= λ order_type.
      let (tif_byte, buf) = get_u8 buf in
      decode_tif tif_byte >>= λ tif.
      let (price, buf) = get_i64_le buf in
      let (stop_price, buf) = get_i64_le buf in
      let (qty, buf) = get_le 8 buf in
      ok (
        new_order (record {
          order_id = order_id;
          symbol_id = symbol_id;
          side = side;
          order_type = order_type;
          tif = tif;
          price = price;
          stop_price = stop_price;
          qty = qty;
        }),
        buf,
      )

unfoldable pub decode_cancel : List ℕ → Result (InboundMsg × List ℕ) ProtoError
decode_cancel buf =
    if ltb (length buf) 12
    then err truncated
    else let (order_id, buf) = get_le 8 buf in
      let (symbol_id, buf) = get_le 4 buf in
      ok (cancel (record { order_id = order_id; symbol_id = symbol_id }), buf)

unfoldable pub decode_replace : List ℕ → Result (InboundMsg × List ℕ) ProtoError
decode_replace buf =
    if ltb (length buf) 28
    then err truncated
    else let (order_id, buf) = get_le 8 buf in
      let (symbol_id, buf) = get_le 4 buf in
      let (new_price, buf) = get_i64_le buf in
      let (new_qty, buf) = get_le 8 buf in
      ok (
        replace (record {
          order_id = order_id;
          symbol_id = symbol_id;
          new_price = new_price;
          new_qty = new_qty;
        }),
        buf,
      )

unfoldable pub decode_inbound : List ℕ → Result (InboundMsg × List ℕ) ProtoError
unfolding decode_new_order decode_cancel decode_replace
decode_inbound [] = err truncated
decode_inbound (tag ∷ buf) =
    if tag == tag_new_order
    then decode_new_order buf
    else if tag == tag_cancel
    then decode_cancel buf
    else if tag == tag_replace
    then decode_replace buf
    else err (unknown_tag tag)

-- `From<BinNewOrder> for NewOrder`
unfoldable pub from_bin_new_order : BinNewOrder → NewOrder
from_bin_new_order b = record {
  id = b.order_id;
  symbol = b.symbol_id;
  side = b.side;
  kind = b.order_type;
  tif = b.tif;
  price = b.price;
  stop_price = b.stop_price;
  qty = b.qty;
}
