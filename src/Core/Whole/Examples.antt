-- ===== src/Core/Whole/Examples.antt =====
-- A book with one resting order, and a run of commands from an empty book.
use order_matching_engine_ru.Prelude.{ℕ, ◌+◌, ◌≡◌, refl, true, none, some, List, [], ◌∷◌, arith, ok}
use order_matching_engine_ru.Prelude.Int.{pos}
use order_matching_engine_ru.Core.Types.{
  Side, buy, sell, opposite, Order, OrderStatus, limit, gtc, NewOrder, Command, Sequenced, accepted,
  trade, filled, partially_filled, cancelled, replaced,
}
use order_matching_engine_ru.Core.Slab.FirstVacant.{vacant_first}
use order_matching_engine_ru.Core.Maps.{lookup}
use order_matching_engine_ru.Core.PriceLevel.{PriceLevel}
use order_matching_engine_ru.Core.Book.{
  OrderBook, Location, new, check_no_cross, check_qty_conservation,
}
use order_matching_engine_ru.Core.Book.Queue.{Holds}
use order_matching_engine_ru.Core.Matcher.{is_limit, apply}
use order_matching_engine_ru.Core.Matcher.Sweep.{Ladder}
use order_matching_engine_ru.Core.Whole.Invariant.{IsBook, resting}
use order_matching_engine_ru.Core.Whole.Exchange.{
  exchange, exchange_all, empty_market, submits_stop,
}
use order_matching_engine_ru.Core.Whole.Commands.{apply-exchange}
use order_matching_engine_ru.Core.Whole.Trades.{market, Trades}
use order_matching_engine_ru.Core.Whole.Runs.{apply_all, apply_all-empty}

abbrev ask : Order
ask = record {
  id = 1;
  symbol = 1;
  side = sell;
  kind = limit;
  tif = gtc;
  price = pos 100;
  stop_price = pos 0;
  qty = 5;
  remaining = 5;
  seq = 1;
  ts = 1;
  status = OrderStatus.new;
  next = none;
  prev = none;
}

abbrev asks : Ladder
asks = (pos 100, (0, ask) ∷ []) ∷ []

abbrev place : Location
place = record { price = pos 100; side = sell; slot = 0 }

abbrev level : PriceLevel
level = record { head = some 0; tail = some 0; total_qty = 5; count = 1 }

abbrev one_ask : OrderBook vacant_first
one_ask = record {
  symbol = 1;
  tick = pos 1;
  asks = (pos 100, level) ∷ [];
  bids = [];
  id_index = (1, place) ∷ [];
  arena = some ask ∷ [];
  stop_buys = [];
  stop_sells = [];
  last_trade = none;
  seq = 1;
}

Holds-one_ask : Holds vacant_first one_ask.arena level ((0, ask) ∷ [])
Holds-one_ask = record {
  sums = record { head = refl; tail = refl; total = refl; bounded = omega arith };
  distinct = (refl, tt);
  chain = (refl, tt);
}

IsBook-one_ask : IsBook vacant_first Side.buy [] asks one_ask
unfolding opposite lookup is_limit
IsBook-one_ask = record {
  near = record { stands = tt; sorted = tt; distinct = tt; kept = tt };
  far = record {
    stands = (refl, Holds-one_ask, tt);
    sorted = (tt, tt);
    distinct = (refl, tt);
    kept = (
      record { own = refl; limited = refl; priced = refl; some_left = omega arith; known = refl },
      tt,
    );
  };
  apart = λ j inside. absurd cc;
  uncrossed = tt;
  listed = λ id loc at. ground (arith, at);
  unique = (refl, tt);
  stops = record { buys = refl; sells = refl };
}

abbrev bid : NewOrder
bid = record {
  id = 2;
  symbol = 1;
  side = buy;
  kind = limit;
  tif = gtc;
  price = pos 101;
  stop_price = pos 0;
  qty = 7;
}

abbrev first_command : Sequenced
first_command = record { seq = 2; ts = 9; cmd = Command.new bid }

apply-exchange_example :
    Trades vacant_first
      (exchange first_command (market [] asks))
      (resting [] asks + 7)
      []
      (apply vacant_first 1 first_command one_ask [])
unfolding submits_stop
apply-exchange_example =
    apply-exchange vacant_first 0 first_command one_ask [] asks [] IsBook-one_ask refl (omega arith)

-- What the exchange says of it.
exchange-first_command :
    (exchange first_command (market [] asks)).1
    ≡ accepted 2 2 ∷ trade 2 2 1 (pos 100) 5 buy 9 ∷ filled 1 2 ∷ partially_filled 2 5 2 2 ∷ []
unfolding exchange
exchange-first_command = refl

abbrev offer_of : ℕ → Side → ℕ → ℕ → NewOrder
offer_of id side price qty = record {
  id = id;
  symbol = 1;
  side = side;
  kind = limit;
  tif = gtc;
  price = pos price;
  stop_price = pos 0;
  qty = qty;
}

-- Two asks, a bid that takes the better one and a part of the other, a replacement of the rest, and a
-- cancellation of that.
abbrev session : List Sequenced
session =
    record { seq = 1; ts = 1; cmd = Command.new (offer_of 1 Side.sell 100 5) }
    ∷ record { seq = 2; ts = 2; cmd = Command.new (offer_of 2 Side.sell 101 5) }
    ∷ record { seq = 3; ts = 3; cmd = Command.new (offer_of 3 Side.buy 101 8) }
    ∷ record { seq = 4; ts = 4; cmd = Command.replace 2 (pos 102) 4 1 }
    ∷ record { seq = 5; ts = 5; cmd = Command.cancel 2 1 }
    ∷ []

apply_all-empty_example :
    (b : OrderBook vacant_first) × (bids asks : Ladder) × (apply_all vacant_first 1 session
        (new vacant_first 1 (pos 1))
        []
      ≡ ok (b, (exchange_all session empty_market).1))
    × IsBook vacant_first Side.buy bids asks b
    × (market bids asks ≡ (exchange_all session empty_market).0)
    × (check_no_cross vacant_first b ≡ true)
    × (check_qty_conservation vacant_first b ≡ ok true)
unfolding submits_stop
apply_all-empty_example =
    apply_all-empty vacant_first 1 (pos 1) 0 session (refl, (refl, (refl, (refl, (refl, tt)))))
      (omega arith)

exchange_all-session : exchange_all session empty_market ≡ (
  empty_market,
  accepted 1 1
      ∷ accepted 2 2
      ∷ accepted 3 3
      ∷ trade 3 3 1 (pos 100) 5 buy 3
      ∷ filled 1 3
      ∷ trade 3 3 2 (pos 101) 3 buy 3
      ∷ partially_filled 2 3 2 3
      ∷ filled 3 3
      ∷ replaced 2 4
      ∷ accepted 2 4
      ∷ cancelled 2 5
      ∷ [],
)
unfolding exchange_all
exchange_all-session = refl
