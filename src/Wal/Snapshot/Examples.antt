-- ===== src/Wal/Snapshot/Examples.antt =====
-- Snapshots on a concrete order.
use order_matching_engine_ru.Prelude.{◌≡◌, refl, none, some, [], ◌∷◌, ◌++◌, arith, ok}
use order_matching_engine_ru.Prelude.Int.{pos}
use order_matching_engine_ru.Core.Types.{sell, stop_limit, gtc, Order, OrderStatus}
use order_matching_engine_ru.Core.Slab.FirstVacant.{vacant_first}
use order_matching_engine_ru.Core.Maps.{find, insert}
use order_matching_engine_ru.Core.PriceLevel.{PriceLevel}
use order_matching_engine_ru.Core.Book.{OrderBook, Location}
use order_matching_engine_ru.Core.Book
use order_matching_engine_ru.Core.Book.Queue.{Holds, at_level}
use order_matching_engine_ru.Wal.Snapshot.{
  SnapOrder, snap_order, load_order, load_one, side_of, load_order-snap_order, side_to_u8,
  kind_to_u8, tif_to_u8, status_to_u8,
}
use order_matching_engine_ru.Wal.Snapshot.Restore.{load_one-append}

abbrev saved : Order
saved = record {
  id = 7;
  symbol = 1;
  side = sell;
  kind = stop_limit;
  tif = gtc;
  price = pos 100;
  stop_price = pos 90;
  qty = 5;
  remaining = 3;
  seq = 2;
  ts = 2;
  status = OrderStatus.partially_filled;
  next = some 4;
  prev = none;
}

load_order-snap_order_example :
    load_order 1 (snap_order saved)
    ≡ record saved { status = OrderStatus.new; next = none; prev = none }
load_order-snap_order_example = load_order-snap_order saved

abbrev row : SnapOrder
row = record {
  id = 7;
  side = 1;
  kind = 5;
  tif = 0;
  price = pos 100;
  stop_price = pos 90;
  qty = 5;
  remaining = 3;
  seq = 2;
  ts = 2;
  status = 2;
}

snap_order-saved : snap_order saved ≡ row
unfolding snap_order side_to_u8 kind_to_u8 tif_to_u8 status_to_u8
snap_order-saved = refl

-- A stop order is restored into a price level.
load_one-append_example :
    let location : Location = record { price = pos 100; side = sell; slot = 0 } in
    (a : vacant_first.Arena) × (l : PriceLevel) × (load_one vacant_first 1 row
        (Book.new vacant_first 1 (pos 1))
      ≡ ok (
          at_level vacant_first sell
            (pos 100)
            l
            a
            (record (Book.new vacant_first 1 (pos 1)) { id_index = insert 7 location [] })))
    × Holds vacant_first a l ([] ++ (0, load_order 1 row) ∷ [])
unfolding side_of Book.new find
load_one-append_example =
    load_one-append vacant_first (Book.new vacant_first 1 (pos 1)) 1 row []
      (record {
        sums = record { head = refl; tail = refl; total = refl; bounded = omega arith };
        distinct = tt;
        chain = tt;
      })
      (omega arith)
