-- ===== src/Core/Types.antt =====
-- crates/core/src/types.rs, order.rs and events.rs: the data of orders, commands and events.
use order_matching_engine_ru.Prelude.{ℕ, Bool, true, false, Option, none, ◌&&◌}
use order_matching_engine_ru.Prelude.Int.{ℤ}

-- `i64` ticks.
abbrev pub Price : Type 0
Price = ℤ

pub data Side : Type 0 where
  buy sell : Side

unfoldable pub opposite : Side → Side
opposite buy = sell
opposite sell = buy

pub data OrderType : Type 0 where
  limit market ioc fok stop_market stop_limit : OrderType

pub data TimeInForce : Type 0 where
  gtc day : TimeInForce

pub data OrderStatus : Type 0 where
  new accepted partially_filled filled cancelled rejected : OrderStatus

pub data RejectReason : Type 0 where
  unknown_symbol duplicate_id unknown_id zero_qty bad_price fok_unfillable : RejectReason
  market_no_liquidity self_trade rate_limited : RejectReason

-- Ids, quantities, sequence numbers and timestamps are `u64`, slots `usize`. `prev` and `next` link
-- the orders of one price level.
pub record Order : Type 0 where
  pub id : ℕ
  pub symbol : ℕ
  pub side : Side
  pub kind : OrderType
  pub tif : TimeInForce
  pub price : Price
  pub stop_price : Price
  pub qty : ℕ
  pub remaining : ℕ
  pub seq : ℕ
  pub ts : ℕ
  pub status : OrderStatus
  pub next : Option ℕ
  pub prev : Option ℕ

pub record NewOrder : Type 0 where
  pub id : ℕ
  pub symbol : ℕ
  pub side : Side
  pub kind : OrderType
  pub tif : TimeInForce
  pub price : Price
  pub stop_price : Price
  pub qty : ℕ

-- `Order::new` at the fields of a submitted order, which is how the matcher calls it.
unfoldable pub new_order : NewOrder → ℕ → ℕ → Order
new_order n seq ts = record {
  id = n.id;
  symbol = n.symbol;
  side = n.side;
  kind = n.kind;
  tif = n.tif;
  price = n.price;
  stop_price = n.stop_price;
  qty = n.qty;
  remaining = n.qty;
  seq = seq;
  ts = ts;
  status = new;
  next = none;
  prev = none;
}

pub data Command : Type 0 where
  new : NewOrder → Command
  cancel : (id symbol : ℕ) → Command
  replace : (id : ℕ) (new_price : Price) (new_qty symbol : ℕ) → Command

pub record Sequenced : Type 0 where
  pub seq : ℕ
  pub ts : ℕ
  pub cmd : Command

pub data OutputEvent : Type 0 where
  accepted : (id seq : ℕ) → OutputEvent
  rejected : (id : ℕ) (reason : RejectReason) (seq : ℕ) → OutputEvent
  trade : (seq taker maker : ℕ) (price : Price) (qty : ℕ) (side : Side) (ts : ℕ) → OutputEvent
  partially_filled : (id filled remaining seq : ℕ) → OutputEvent
  filled : (id seq : ℕ) → OutputEvent
  cancelled : (id seq : ℕ) → OutputEvent
  replaced : (id seq : ℕ) → OutputEvent

-- `matches!` on the order types that the matcher tests for, and `==` on one of them.
unfoldable pub has_limit_price : OrderType → Bool
has_limit_price market = false
has_limit_price stop_market = false
has_limit_price _ = true

unfoldable pub is_stop : OrderType → Bool
is_stop stop_market = true
is_stop stop_limit = true
is_stop _ = false

unfoldable pub is_fok : OrderType → Bool
is_fok fok = true
is_fok _ = false

-- `kind == Market || kind == Ioc || kind == Fok`: the kinds that `match_order` lets cross any price.
unfoldable pub crosses_any : OrderType → Bool
crosses_any market = true
crosses_any ioc = true
crosses_any fok = true
crosses_any _ = false

-- The kind that a stop order is resubmitted as.
unfoldable pub triggered_kind : OrderType → OrderType
triggered_kind stop_market = market
triggered_kind _ = limit

unfoldable pub rests : OrderType → Bool
rests limit = true
rests stop_limit = true
rests _ = false

unfoldable pub lasts : TimeInForce → Bool
lasts gtc = true
lasts day = true

-- `Order::is_resting`.
unfoldable pub is_resting : Order → Bool
unfolding rests lasts
is_resting o = rests o.kind && lasts o.tif
