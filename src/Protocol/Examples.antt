-- ===== src/Protocol/Examples.antt =====
-- The binary messages on concrete bytes, with the unit tests of binary.rs.
use order_matching_engine_ru.Prelude.{◌≡◌, refl, [], ◌∷◌, arith}
use order_matching_engine_ru.Prelude.Int.{pos, negsuc}
use order_matching_engine_ru.Prelude.Bytes.{from_le_bytes, to_le_bytes}
use order_matching_engine_ru.Prelude.Result.{ok, err}
use order_matching_engine_ru.Core.Types.{buy, limit, gtc}
use order_matching_engine_ru.Protocol.Binary.{
  InboundMsg, decode_inbound, unknown_tag, new_order, get_le, get_i64_le, from_u64, decode_side,
  decode_order_type, decode_tif,
}
use order_matching_engine_ru.Protocol.Binary.RoundTrip.{
  layout, decode_inbound-layout, side_code, order_type_code, tif_code,
}

abbrev a_message : InboundMsg
a_message = new_order (record {
  order_id = 42;
  symbol_id = 1;
  side = buy;
  order_type = limit;
  tif = gtc;
  price = pos 10050;
  stop_price = negsuc 0;
  qty = 100;
})

decode_inbound-layout_example : decode_inbound (layout a_message (9 ∷ [])) ≡ ok (a_message, 9 ∷ [])
decode_inbound-layout_example =
    decode_inbound-layout a_message (9 ∷ []) (
      omega arith,
      omega arith,
      (omega arith, omega arith),
      (omega arith, omega arith),
      omega arith,
    )

roundtrip_new_order : decode_inbound (layout a_message []) ≡ ok (a_message, [])
unfolding decode_inbound layout get_le get_i64_le from_u64 decode_side decode_order_type decode_tif
    from_le_bytes to_le_bytes side_code order_type_code tif_code
roundtrip_new_order = refl

unknown_tag_is_error : decode_inbound (255 ∷ []) ≡ err (unknown_tag 255)
unfolding decode_inbound
unknown_tag_is_error = refl
