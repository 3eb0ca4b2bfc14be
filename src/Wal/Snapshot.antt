-- ===== src/Wal/Snapshot.antt =====
-- crates/wal/src/snapshot.rs: the contents of a snapshot and the book that it is read back as. The
-- JSON text and the files are left out.
pub mod Restore
mod Examples
use order_matching_engine_ru.Prelude.{
  ℕ, ◌≡◌, refl, Option, none, some, List, [], ◌∷◌, ◌==◌, if◌then◌else◌, Outcome, ok, ◌>>=◌,
}
use order_matching_engine_ru.Prelude.Int.{ℤ}
use order_matching_engine_ru.Core.Types.{
  Price, Side, buy, sell, OrderType, limit, market, ioc, fok, stop_market, stop_limit, TimeInForce,
  gtc, day, OrderStatus, Order, NewOrder, new_order,
}
use order_matching_engine_ru.Core.Types
use order_matching_engine_ru.Core.Slab.{Slab, index, modify}
use order_matching_engine_ru.Core.Maps.{HashMap, insert}
use order_matching_engine_ru.Core.Book.{OrderBook, Location, insert_resting}
use order_matching_engine_ru.Core.Book

pub record SnapOrder : Type 0 where
  pub id : ℕ
  pub side : ℕ
  pub kind : ℕ
  pub tif : ℕ
  pub price : Price
  pub stop_price : Price
  pub qty : ℕ
  pub remaining : ℕ
  pub seq : ℕ
  pub ts : ℕ
  pub status : ℕ

pub record Snapshot : Type 0 where
  pub symbol : ℕ
  pub tick : Price
  pub last_seq : ℕ
  pub last_trade : Option Price
  pub resting_orders : List SnapOrder

unfoldable pub side_to_u8 : Side → ℕ
side_to_u8 buy = 0
side_to_u8 sell = 1

unfoldable pub kind_to_u8 : OrderType → ℕ
kind_to_u8 limit = 0
kind_to_u8 market = 1
kind_to_u8 ioc = 2
kind_to_u8 fok = 3
kind_to_u8 stop_market = 4
kind_to_u8 stop_limit = 5

unfoldable pub tif_to_u8 : TimeInForce → ℕ
tif_to_u8 gtc = 0
tif_to_u8 day = 1

unfoldable pub status_to_u8 : OrderStatus → ℕ
status_to_u8 OrderStatus.new = 0
status_to_u8 OrderStatus.accepted = 1
status_to_u8 OrderStatus.partially_filled = 2
status_to_u8 OrderStatus.filled = 3
status_to_u8 OrderStatus.cancelled = 4
status_to_u8 OrderStatus.rejected = 5

unfoldable pub snap_order : Order → SnapOrder
snap_order o = record {
  id = o.id;
  side = side_to_u8 o.side;
  kind = kind_to_u8 o.kind;
  tif = tif_to_u8 o.tif;
  price = o.price;
  stop_price = o.stop_price;
  qty = o.qty;
  remaining = o.remaining;
  seq = o.seq;
  ts = o.ts;
  status = status_to_u8 o.status;
}

unfoldable pub side_of : ℕ → Side
side_of c = if c == 0 then buy else sell

unfoldable pub kind_of : ℕ → OrderType
kind_of c =
    if c == 0
    then limit
    else if c == 1
    then market
    else if c == 2
    then ioc
    else if c == 3
    then fok
    else if c == 4
    then stop_market
    else stop_limit

unfoldable pub tif_of : ℕ → TimeInForce
tif_of c = if c == 0 then gtc else day

-- What the row is submitted to `Order::new` as; its `qty` is the remaining quantity.
unfoldable pub row_of : ℕ → SnapOrder → NewOrder
row_of symbol so = record {
  id = so.id;
  symbol = symbol;
  side = side_of so.side;
  kind = kind_of so.kind;
  tif = tif_of so.tif;
  price = so.price;
  stop_price = so.stop_price;
  qty = so.remaining;
}

-- The order that a row is read back as: `Order::new` with the writes to `qty` and `remaining`.
unfoldable pub load_order : ℕ → SnapOrder → Order
unfolding row_of new_order
load_order symbol so = record (new_order (row_of symbol so) so.seq so.ts) {
  qty = so.qty;
  remaining = so.remaining;
}

module _ (S : Slab Order) where
  open S use {Arena, key}

  unfoldable pub snap_orders : Arena → HashMap Location → Outcome (List SnapOrder)
  unfolding index snap_order
  snap_orders a [] = ok []
  snap_orders a ((_, loc) ∷ m) = do
    o ← index S a loc.slot
    rest ← snap_orders a m
    ok (snap_order o ∷ rest)

  -- What `save_snapshot` writes.
  unfoldable pub save_snapshot : OrderBook S → ℕ → Outcome Snapshot
  unfolding snap_orders
  save_snapshot b last_seq = do
    resting ← snap_orders b.arena b.id_index
    ok (record {
      symbol = b.symbol;
      tick = b.tick;
      last_seq = last_seq;
      last_trade = b.last_trade;
      resting_orders = resting;
    })

  -- One round of the loop of `load_snapshot`.
  unfoldable pub load_one : ℕ → SnapOrder → OrderBook S → Outcome (OrderBook S)
  unfolding row_of new_order modify
  load_one symbol so b = do
    let slot = key b.arena
    let side = side_of so.side
    let location : Location = record { price = so.price; side = side; slot = slot }
    a ←
        modify S (S.insert b.arena (new_order (row_of symbol so) so.seq so.ts)) slot
          (λ o. record o { qty = so.qty })
    a ← modify S a slot (λ o. record o { remaining = so.remaining })
    insert_resting S slot (record b { arena = a; id_index = insert so.id location b.id_index })

  unfoldable pub load_all : ℕ → List SnapOrder → OrderBook S → Outcome (OrderBook S)
  unfolding load_one
  load_all symbol [] b = ok b
  load_all symbol (so ∷ sos) b = do b ← load_one symbol so b; load_all symbol sos b

  -- The book that `load_snapshot` makes of what it has read.
  unfoldable pub load_snapshot : Snapshot → Outcome (OrderBook S × ℕ)
  unfolding load_all Book.new
  load_snapshot snap = do
    b ←
        load_all snap.symbol snap.resting_orders
          (record (Book.new S snap.symbol snap.tick) { last_trade = snap.last_trade })
    ok (b, snap.last_seq)

side_of-side_to_u8 : (s : Side) → side_of (side_to_u8 s) ≡ s
unfolding side_of side_to_u8
side_of-side_to_u8 buy = refl
side_of-side_to_u8 sell = refl

kind_of-kind_to_u8 : (k : OrderType) → kind_of (kind_to_u8 k) ≡ k
unfolding kind_of kind_to_u8
kind_of-kind_to_u8 limit = refl
kind_of-kind_to_u8 market = refl
kind_of-kind_to_u8 ioc = refl
kind_of-kind_to_u8 fok = refl
kind_of-kind_to_u8 stop_market = refl
kind_of-kind_to_u8 stop_limit = refl

tif_of-tif_to_u8 : (t : TimeInForce) → tif_of (tif_to_u8 t) ≡ t
unfolding tif_of tif_to_u8
tif_of-tif_to_u8 gtc = refl
tif_of-tif_to_u8 day = refl

-- A saved order that is read back under its own symbol is the same order, but for its status, which is
-- `New` again, and its links, which are empty.
pub load_order-snap_order :
    (o : Order)
    → load_order o.symbol (snap_order o)
      ≡ record o { status = OrderStatus.new; next = none; prev = none }
unfolding load_order snap_order
load_order-snap_order o =
    rw (side_of-side_to_u8 o.side, kind_of-kind_to_u8 o.kind, tif_of-tif_to_u8 o.tif) refl
