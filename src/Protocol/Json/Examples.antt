-- ===== src/Protocol/Json/Examples.antt =====
-- Symbol names and a JSON order.
use order_matching_engine_ru.Prelude.{◌<◌, ◌^◌, ◌≡◌, refl, [], ◌∷◌}
use order_matching_engine_ru.Prelude.Int.{pos}
use order_matching_engine_ru.Core.Types.{buy, limit, gtc}
use order_matching_engine_ru.Protocol.Double.Whole.{whole_numbers}
use order_matching_engine_ru.Protocol.Json.{
  Str, JsonSide, JsonOrderType, JsonTif, JsonNewOrder, hash_byte, hash_from, symbol_to_id, side_of,
  kind_of, tif_of, dollars_to_ticks, order_from,
}
use order_matching_engine_ru.Protocol.Json.SymbolId.{symbol_to_id-lt}

-- "AAPL"
abbrev aapl : Str
aapl = 65 ∷ 65 ∷ 80 ∷ 76 ∷ []

-- The FNV-1a hash of "a", as its authors publish it.
hash_of_a : symbol_to_id (97 ∷ []) ≡ 0xe40c292c
unfolding symbol_to_id hash_from hash_byte
hash_of_a = refl

-- The id fits a `u32`.
aapl_lt : symbol_to_id aapl < 2 ^ 32
aapl_lt = symbol_to_id-lt aapl

abbrev a_json_order : JsonNewOrder whole_numbers
a_json_order = record {
  id = 42;
  symbol = aapl;
  side = JsonSide.buy;
  kind = JsonOrderType.limit;
  tif = JsonTif.gtc;
  price = 150;
  stop_price = 0;
  qty = 100;
}

-- The price in ticks of a hundredth of a cent.
ticks_of_order : order_from whole_numbers a_json_order ≡ record {
  id = 42;
  symbol = symbol_to_id aapl;
  side = buy;
  kind = limit;
  tif = gtc;
  price = pos 1500000;
  stop_price = pos 0;
  qty = 100;
}
unfolding order_from side_of kind_of tif_of dollars_to_ticks
ticks_of_order = refl
