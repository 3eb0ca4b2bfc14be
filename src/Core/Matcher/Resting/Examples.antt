-- ===== src/Core/Matcher/Resting/Examples.antt =====
-- A market order and a limit order for more than the two makers of a book have.
use order_matching_engine_ru.Prelude.{
  ℕ, ◌-◌, ◌≡◌, refl, inl, none, some, [], ◌∷◌, ◌++◌, arith, ok, false, ◌==◌,
}
use order_matching_engine_ru.Prelude.Int.{pos}
use order_matching_engine_ru.Core.Types.{
  NewOrder, buy, sell, opposite, limit, market, gtc, Order, OrderStatus, accepted, trade, filled,
  partially_filled, cancelled, replaced, has_limit_price, is_stop, is_fok,
}
use order_matching_engine_ru.Core.Slab.FirstVacant.{vacant_first}
use order_matching_engine_ru.Core.Maps.{find, lookup, erase, put}
use order_matching_engine_ru.Core.PriceLevel.{PriceLevel}
use order_matching_engine_ru.Core.Book.{OrderBook, Location, before, side_levels}
use order_matching_engine_ru.Core.Book.Chain.{Entries, linked, has}
use order_matching_engine_ru.Core.Book.Queue.{Holds, at_level_or_drop}
use order_matching_engine_ru.Core.Matcher.{is_limit, apply_new, apply_replace, replacement}
use order_matching_engine_ru.Core.Matcher.Loop.{crosses}
use order_matching_engine_ru.Core.Matcher.Sweep.{Ladder, makers, or_else, sweep}
use order_matching_engine_ru.Core.Matcher.Sweep.Facts.{IsUncrossed}
use order_matching_engine_ru.Core.Matcher.Resting.{HasRoom, part_event, rest_of, apply_new-append}
use order_matching_engine_ru.Core.Matcher.Replace.{apply_replace-apply_new}
use order_matching_engine_ru.Core.Matcher.Immediate.{
  sweep_for, IsOpen, HasNoStops, IsAdmitted, ending, apply_new-ending,
}

abbrev a_maker : ℕ → Order
a_maker id = record {
  id = id;
  symbol = 1;
  side = sell;
  kind = limit;
  tif = gtc;
  price = pos 100;
  stop_price = pos 0;
  qty = 5;
  remaining = 5;
  seq = id;
  ts = id;
  status = OrderStatus.new;
  next = none;
  prev = none;
}

abbrev queue : Entries
queue = (0, a_maker 1) ∷ (1, a_maker 2) ∷ []

abbrev ladder : Ladder
ladder = (pos 100, queue) ∷ []

abbrev level : PriceLevel
level = record { head = some 0; tail = some 1; total_qty = 10; count = 2 }

abbrev asks_only : OrderBook vacant_first
asks_only = record {
  symbol = 1;
  tick = pos 1;
  asks = (pos 100, level) ∷ [];
  bids = [];
  id_index =
      (1, record { price = pos 100; side = sell; slot = 0 })
      ∷ (2, record { price = pos 100; side = sell; slot = 1 })
      ∷ [];
  arena = some (linked none (some 1) (a_maker 1)) ∷ some (linked (some 0) none (a_maker 2)) ∷ [];
  stop_buys = [];
  stop_sells = [];
  last_trade = none;
  seq = 1;
}

abbrev big_buy : NewOrder
big_buy = record {
  id = 3;
  symbol = 1;
  side = buy;
  kind = market;
  tif = gtc;
  price = pos 0;
  stop_price = pos 0;
  qty = 12;
}

Holds-asks_only : Holds vacant_first asks_only.arena level queue
Holds-asks_only = record {
  sums = record { head = refl; tail = refl; total = refl; bounded = omega arith };
  distinct = (refl, (refl, tt));
  chain = (refl, (refl, tt));
}

IsOpen-asks_only : IsOpen vacant_first buy ladder asks_only
unfolding opposite
IsOpen-asks_only = record {
  stands = (refl, Holds-asks_only, tt);
  distinct = (refl, (refl, tt));
  all_open = (omega arith, (omega arith, tt));
}

IsAdmitted-big_buy : IsAdmitted vacant_first big_buy asks_only
unfolding lookup has_limit_price is_stop is_fok
IsAdmitted-big_buy = record {
  some_qty = omega arith;
  small = omega arith;
  new = refl;
  good = refl;
  no_stop = refl;
  fillable = refl;
}

apply_new-ending_example :
    let w = sweep_for big_buy 3 9 ladder in
    (b' : OrderBook vacant_first) × (v' : Ladder) × (apply_new vacant_first 1 3 9 big_buy asks_only
        []
      ≡ ok (b', [] ++ accepted 3 3 ∷ [] ++ w.events ++ ending 3 3 (12 - w.rest) w.rest))
    × IsOpen vacant_first buy v' b'
    × (makers v' ≡ w.left)
    × (side_levels vacant_first buy b' ≡ side_levels vacant_first buy asks_only)
    × (lookup 3 b'.id_index ≡ none)
    × (vacant_first.get b'.arena (vacant_first.key asks_only.arena) ≡ none)
    × HasNoStops vacant_first b'
    × (b'.last_trade ≡ or_else w.last none)
unfolding is_limit
apply_new-ending_example =
    apply_new-ending vacant_first 0 3 9 big_buy asks_only ladder [] IsAdmitted-big_buy
      IsOpen-asks_only (record { buys = refl; sells = refl }) (inl refl)

-- What is said of it.
events_of_big_buy :
    (sweep_for big_buy 3 9 ladder).events
      ++ ending 3 3 (12 - (sweep_for big_buy 3 9 ladder).rest) (sweep_for big_buy 3 9 ladder).rest
    ≡ trade 3 3 1 (pos 100) 5 buy 9
      ∷ filled 1 3
      ∷ trade 3 3 2 (pos 100) 5 buy 9
      ∷ filled 2 3
      ∷ partially_filled 3 10 2 3
      ∷ cancelled 3 3
      ∷ []
unfolding sweep crosses
events_of_big_buy = refl

-- A limit order at the makers' price, whose own side is empty.
abbrev limit_buy : NewOrder
limit_buy = record {
  id = 3;
  symbol = 1;
  side = buy;
  kind = limit;
  tif = gtc;
  price = pos 100;
  stop_price = pos 0;
  qty = 12;
}

IsAdmitted-limit_buy : IsAdmitted vacant_first limit_buy asks_only
unfolding lookup has_limit_price is_stop is_fok
IsAdmitted-limit_buy = record {
  some_qty = omega arith;
  small = omega arith;
  new = refl;
  good = refl;
  no_stop = refl;
  fillable = refl;
}

HasRoom-limit_buy : HasRoom vacant_first limit_buy ladder [] asks_only
unfolding find
HasRoom-limit_buy = record {
  own = record {
    sums = record { head = refl; tail = refl; total = refl; bounded = omega arith };
    distinct = tt;
    chain = tt;
  };
  apart = λ j h. absurd cc;
  fits = omega arith;
}

apply_new-append_example :
    let w = sweep_for limit_buy 3 9 ladder in
    (b' : OrderBook vacant_first) × (v' : Ladder) × (l : PriceLevel) × (apply_new vacant_first 1 3 9
        limit_buy asks_only []
      ≡ ok (b', [] ++ accepted 3 3 ∷ [] ++ w.events ++ part_event 3 3 (12 - w.rest) w.rest))
    × IsOpen vacant_first buy v' b'
    × (makers v' ≡ w.left)
    × IsUncrossed (crosses buy limit (pos 100)) w.left
    × (side_levels vacant_first buy b'
        ≡ put (before buy) (pos 100) l (side_levels vacant_first buy asks_only))
    × Holds vacant_first b'.arena l
        ([] ++ (vacant_first.key asks_only.arena, rest_of limit_buy 3 9 w.rest) ∷ [])
    × (lookup 3 b'.id_index
        ≡ some (record { price = pos 100; side = buy; slot = vacant_first.key asks_only.arena }))
    × HasNoStops vacant_first b'
unfolding is_limit sweep crosses
apply_new-append_example =
    apply_new-append vacant_first 0 3 9 limit_buy asks_only ladder [] [] IsAdmitted-limit_buy
      IsOpen-asks_only (record { buys = refl; sells = refl }) HasRoom-limit_buy refl refl

abbrev first_place : Location
first_place = record { price = pos 100; side = sell; slot = 0 }

-- The first maker, made smaller, leaves its place before it is submitted again.
apply_replace-apply_new_example :
    (a : vacant_first.Arena) × (l' : PriceLevel) × (apply_replace vacant_first 1 1
        (pos 101)
        3
        4
        9
        asks_only
        []
      ≡ apply_new vacant_first 1 4 9
          (replacement vacant_first 1 (a_maker 1) (pos 101) 3)
          (at_level_or_drop vacant_first sell
            (pos 100)
            l'
            a
            (record asks_only { id_index = erase 1 asks_only.id_index }))
          ([] ++ replaced 1 4 ∷ []))
    × Holds vacant_first a l' ([] ++ (1, a_maker 2) ∷ [])
    × (vacant_first.get a 0 ≡ none)
    × ((j : ℕ)
        → has j ([] ++ (1, a_maker 2) ∷ []) ≡ false
        → (0 == j) ≡ false
        → vacant_first.get a j ≡ vacant_first.get asks_only.arena j)
unfolding lookup find
apply_replace-apply_new_example =
    apply_replace-apply_new vacant_first 1 1 (pos 101) 3 4 9 asks_only [] first_place level []
      ((1, a_maker 2) ∷ []) (a_maker 1) (omega arith) refl refl refl Holds-asks_only
