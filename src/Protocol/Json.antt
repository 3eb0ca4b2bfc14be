-- ===== src/Protocol/Json.antt =====
-- crates/protocol/src/json_codec.rs, and crates/gateway/src/router.rs up to the reject reasons. A Rust
-- `String` is its bytes. Reading and writing JSON is serde_json's, over what serde derives.
pub mod SymbolId
mod Examples
use Prim.Native.Nat.{bit_xor}
use Prim.Native.String.{String}
use order_matching_engine_ru.Prelude.{ℕ, ◌*◌, ◌%◌, ◌^◌, Option, some, List, [], ◌∷◌}
use order_matching_engine_ru.Prelude.Int.{ℤ, pos}
use order_matching_engine_ru.Core.Types.{
  Side, OrderType, TimeInForce, NewOrder, Command, RejectReason, unknown_symbol, duplicate_id,
  unknown_id, zero_qty, bad_price, fok_unfillable, market_no_liquidity, self_trade, rate_limited,
}
use order_matching_engine_ru.Protocol.Double.{Double}

abbrev pub Str : Type 0
Str = List ℕ

abbrev pub tick_scale : ℤ
tick_scale = pos 10000

pub data JsonSide : Type 0 where
  buy sell : JsonSide

pub data JsonOrderType : Type 0 where
  limit market ioc fok stop_market stop_limit : JsonOrderType

pub data JsonTif : Type 0 where
  gtc day : JsonTif

-- One round of the hash, and the hash.
unfoldable pub hash_byte : ℕ → ℕ → ℕ
hash_byte h b = (bit_xor h b * 0x01000193) % 2 ^ 32

unfoldable pub hash_from : ℕ → Str → ℕ
unfolding hash_byte
hash_from h [] = h
hash_from h (b ∷ bs) = hash_from (hash_byte h b) bs

unfoldable pub symbol_to_id : Str → ℕ
unfolding hash_from
symbol_to_id s = hash_from 0x811c9dc5 s

unfoldable pub side_of : JsonSide → Side
side_of JsonSide.buy = Side.buy
side_of JsonSide.sell = Side.sell

unfoldable pub kind_of : JsonOrderType → OrderType
kind_of JsonOrderType.limit = OrderType.limit
kind_of JsonOrderType.market = OrderType.market
kind_of JsonOrderType.ioc = OrderType.ioc
kind_of JsonOrderType.fok = OrderType.fok
kind_of JsonOrderType.stop_market = OrderType.stop_market
kind_of JsonOrderType.stop_limit = OrderType.stop_limit

unfoldable pub tif_of : JsonTif → TimeInForce
tif_of JsonTif.gtc = TimeInForce.gtc
tif_of JsonTif.day = TimeInForce.day

unfoldable pub reject_reason_str : RejectReason → String
reject_reason_str unknown_symbol = "unknown_symbol"
reject_reason_str duplicate_id = "duplicate_id"
reject_reason_str unknown_id = "unknown_id"
reject_reason_str zero_qty = "zero_qty"
reject_reason_str bad_price = "bad_price"
reject_reason_str fok_unfillable = "fok_unfillable"
reject_reason_str market_no_liquidity = "no_liquidity"
reject_reason_str self_trade = "self_trade"
reject_reason_str rate_limited = "rate_limited"

module _ (D : Double) where
  open D use {F64}

  unfoldable pub dollars_to_ticks : F64 → ℤ
  dollars_to_ticks d = D.to_i64 (D.round (D.mul d (D.of_i64 tick_scale)))

  unfoldable pub ticks_to_dollars : ℤ → F64
  ticks_to_dollars t = D.div (D.of_i64 t) (D.of_i64 tick_scale)

  pub record JsonNewOrder : Type 0 where
    pub id : ℕ
    pub symbol : Str
    pub side : JsonSide
    pub kind : JsonOrderType
    pub tif : JsonTif
    pub price : F64
    pub stop_price : F64
    pub qty : ℕ

  pub record JsonCancel : Type 0 where
    pub id : ℕ
    pub symbol : Str

  pub record JsonReplace : Type 0 where
    pub id : ℕ
    pub symbol : Str
    pub new_price : F64
    pub new_qty : ℕ

  pub data JsonInbound : Type 0 where
    new : JsonNewOrder → JsonInbound
    cancel : JsonCancel → JsonInbound
    replace : JsonReplace → JsonInbound

  -- `NewOrder::from`
  unfoldable pub order_from : JsonNewOrder → NewOrder
  unfolding symbol_to_id side_of kind_of tif_of dollars_to_ticks
  order_from j = record {
    id = j.id;
    symbol = symbol_to_id j.symbol;
    side = side_of j.side;
    kind = kind_of j.kind;
    tif = tif_of j.tif;
    price = dollars_to_ticks j.price;
    stop_price = dollars_to_ticks j.stop_price;
    qty = j.qty;
  }

  unfoldable pub json_to_command : JsonInbound → Option Command
  unfolding order_from symbol_to_id dollars_to_ticks
  json_to_command (JsonInbound.new n) = some (Command.new (order_from n))
  json_to_command (JsonInbound.cancel c) = some (Command.cancel c.id (symbol_to_id c.symbol))
  json_to_command (JsonInbound.replace r) =
      some (Command.replace r.id (dollars_to_ticks r.new_price) r.new_qty (symbol_to_id r.symbol))
