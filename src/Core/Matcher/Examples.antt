-- ===== src/Core/Matcher/Examples.antt =====
-- The theorems of the core on a concrete book: two sell orders at 100, one taker or resting order.
use order_matching_engine_ru.Prelude.{
  inr, ℕ, ◌==◌, false, ◌-◌, ◌+◌, ◌≡◌, refl, ◌⊎◌, none, some, [], ◌∷◌, ◌++◌, arith, ok,
}
use order_matching_engine_ru.Prelude.Int.{pos}
use order_matching_engine_ru.Core.Types.{
  NewOrder, cancelled, Side, buy, sell, opposite, crosses_any, OrderType, limit, fok, gtc, Order,
  OrderStatus,
}
use order_matching_engine_ru.Core.Slab.FirstVacant.{vacant_first}
use order_matching_engine_ru.Core.Maps.{find, lookup, erase}
use order_matching_engine_ru.Core.PriceLevel.{PriceLevel}
use order_matching_engine_ru.Core.Book.{
  OrderBook, side_levels, insert_resting, pop_head, remove_slot,
}
use order_matching_engine_ru.Core.Book.Chain.{Entries, linked, has, SameOutside}
use order_matching_engine_ru.Core.Book.Queue.{
  Holds, Leaves, at_level, at_level_or_drop, insert_resting-append, pop_head-cons,
  remove_slot-append, reinsert_at_head-cons,
}
use order_matching_engine_ru.Core.Matcher.{apply_cancel, apply_new}
use order_matching_engine_ru.Core.Matcher.Rejection.{Rejects, apply_new-Rejects}
use order_matching_engine_ru.Core.Matcher.Cancel.{apply_cancel-append}
use order_matching_engine_ru.Core.Matcher.Loop.{
  Events, match_order, available_qty, reinsert_at_head,
}
use order_matching_engine_ru.Core.Matcher.Sweep.{Ladder, makers, or_else, without}
use order_matching_engine_ru.Core.Matcher.Sweep.Facts.{volume, traded_total}
use order_matching_engine_ru.Core.Matcher.Refinement.{Ready}
use order_matching_engine_ru.Core.Matcher.MatchOrder.{sweep_of, match_order-sweep}
use order_matching_engine_ru.Core.Whole.Done.{NoneToTake, match_order-done}
use order_matching_engine_ru.Core.Matcher.Promises.{
  match_order-volume, match_order-volume_any, match_order_fok,
}

abbrev an_order : ℕ → Side → OrderType → ℕ → Order
an_order id side kind qty = record {
  id = id;
  symbol = 1;
  side = side;
  kind = kind;
  tif = gtc;
  price = pos 100;
  stop_price = pos 0;
  qty = qty;
  remaining = qty;
  seq = id;
  ts = id;
  status = OrderStatus.new;
  next = none;
  prev = none;
}

abbrev first_maker : Order
first_maker = an_order 1 sell limit 5

abbrev second_maker : Order
second_maker = an_order 2 sell limit 5

abbrev queue : Entries
queue = (0, first_maker) ∷ (1, second_maker) ∷ []

abbrev ladder : Ladder
ladder = (pos 100, queue) ∷ []

abbrev level : PriceLevel
level = record { head = some 0; tail = some 1; total_qty = 10; count = 2 }

-- The book with the two makers, and a third order in slot 2 that is in no level.
abbrev book : Order → OrderBook vacant_first
book t = record {
  symbol = 1;
  tick = pos 1;
  asks = (pos 100, level) ∷ [];
  bids = [];
  id_index =
      (1, record { price = pos 100; side = sell; slot = 0 })
      ∷ (2, record { price = pos 100; side = sell; slot = 1 })
      ∷ [];
  arena =
      some (linked none (some 1) first_maker)
      ∷ some (linked (some 0) none second_maker)
      ∷ some t
      ∷ [];
  stop_buys = [];
  stop_sells = [];
  last_trade = none;
  seq = 1;
}

Holds-book : (t : Order) → Holds vacant_first (book t).arena level queue
Holds-book t = record {
  sums = record { head = refl; tail = refl; total = refl; bounded = omega arith };
  distinct = (refl, (refl, tt));
  chain = (refl, (refl, tt));
}

abbrev buyer : Order
buyer = an_order 3 buy limit 7

abbrev fok_buyer : Order
fok_buyer = an_order 3 buy fok 7

Ready-book : (t : Order) → Ready vacant_first buy 2 t ladder (book t)
unfolding opposite
Ready-book t = record {
  stands = (refl, Holds-book t, tt);
  distinct = (refl, (refl, tt));
  all_open = (omega arith, (omega arith, tt));
  taker = refl;
  outside = refl;
}

match_order-sweep_example :
    let w = sweep_of buyer 3 3 ladder in
    (b' : OrderBook vacant_first) × (v' : Ladder) × (match_order vacant_first 2 3 3 (book buyer) []
      ≡ ok (buyer.remaining - w.rest, b', [] ++ w.events))
    × Ready vacant_first buy 2 (record buyer { remaining = w.rest }) v' b'
    × (makers v' ≡ w.left)
    × (b'.id_index ≡ without w.fills (book buyer).id_index)
    × (b'.last_trade ≡ or_else w.last (book buyer).last_trade)
    × (side_levels vacant_first buy b' ≡ side_levels vacant_first buy (book buyer))
match_order-sweep_example =
    match_order-sweep vacant_first 2 3 3 buyer ladder (book buyer) [] (Ready-book buyer)
      (omega arith)

match_order-volume_example :
    (filled rest : ℕ) × (b' : OrderBook vacant_first) × (v' : Ladder) × (es : Events) × (match_order
        vacant_first 2 3 3
        (book buyer)
        []
      ≡ ok (filled, b', [] ++ es))
    × Ready vacant_first buy 2 (record buyer { remaining = rest }) v' b'
    × (traded_total es ≡ filled)
    × (filled + rest ≡ 7)
    × (filled + volume (makers v') ≡ volume (makers ladder))
match_order-volume_example =
    match_order-volume vacant_first 2 3 3 buyer ladder (book buyer) [] (Ready-book buyer)
      (omega arith)

match_order-done_example :
    (filled rest : ℕ) × (b' : OrderBook vacant_first) × (v' : Ladder) × (es : Events) × (match_order
        vacant_first 2 3 3
        (book buyer)
        []
      ≡ ok (filled, b', [] ++ es))
    × Ready vacant_first buy 2 (record buyer { remaining = rest }) v' b'
    × ((rest ≡ 0) ⊎ NoneToTake limit buy (pos 100) (makers v'))
match_order-done_example =
    match_order-done vacant_first 2 3 3 buyer ladder (book buyer) [] (Ready-book buyer)
      (omega arith) (tt, tt)

match_order-volume_any_example :
    (filled : ℕ) × (b' : OrderBook vacant_first) × (v' : Ladder) × (es : Events) × (match_order
        vacant_first 2 3 3
        (book fok_buyer)
        []
      ≡ ok (filled, b', [] ++ es))
    × Ready vacant_first buy 2 (record fok_buyer { remaining = 7 - volume (makers ladder) }) v' b'
    × (filled ≡ 7 - (7 - volume (makers ladder)))
unfolding crosses_any
match_order-volume_any_example =
    match_order-volume_any vacant_first 2 3 3 fok_buyer ladder (book fok_buyer) []
      (Ready-book fok_buyer) (omega arith) refl

match_order_fok_example :
    (b' : OrderBook vacant_first) × (v' : Ladder) × (es : Events) × (match_order vacant_first 2 3 3
        (book fok_buyer)
        []
      ≡ ok (7, b', [] ++ es))
    × Ready vacant_first buy 2 (record fok_buyer { remaining = 0 }) v' b'
    × (traded_total es ≡ 7)
unfolding available_qty
match_order_fok_example =
    match_order_fok vacant_first 2 3 3 fok_buyer ladder (book fok_buyer) [] (Ready-book fok_buyer)
      (omega arith) refl (omega arith)

-- A third sell order, which joins the level.
abbrev third : Order
third = an_order 3 sell limit 4

insert_resting-append_example :
    Leaves vacant_first sell
      (pos 100)
      (book third)
      (queue ++ (2, third) ∷ [])
      (queue ++ (2, third) ∷ [])
      (insert_resting vacant_first 2 (book third))
unfolding find
insert_resting-append_example =
    insert_resting-append vacant_first (book third) 2 third queue refl (Holds-book third) refl
      (omega arith)

pop_head-cons_example :
    (a : vacant_first.Arena) × (l' : PriceLevel) × (pop_head vacant_first sell
        (pos 100)
        (book third)
      ≡ ok (some 0, at_level vacant_first sell (pos 100) l' a (book third)))
    × Holds vacant_first a l' ((1, second_maker) ∷ [])
    × SameOutside vacant_first ((1, second_maker) ∷ []) (book third).arena a
unfolding find
pop_head-cons_example =
    pop_head-cons vacant_first sell (pos 100) (book third) level 0 first_maker
      ((1, second_maker) ∷ []) refl (Holds-book third)

reinsert_at_head-cons_example :
    Leaves vacant_first sell
      (pos 100)
      (book third)
      ((2, third) ∷ queue)
      ((2, third) ∷ queue)
      (reinsert_at_head vacant_first 2 (pos 100) sell (book third))
unfolding find
reinsert_at_head-cons_example =
    reinsert_at_head-cons vacant_first sell (pos 100) (book third) 2 third queue refl
      (Holds-book third) refl (omega arith)

remove_slot-append_example :
    (a : vacant_first.Arena) × (l' : PriceLevel) × (remove_slot vacant_first 1 sell
        (pos 100)
        5
        (book third)
      ≡ ok (at_level_or_drop vacant_first sell (pos 100) l' a (book third)))
    × Holds vacant_first a l' (((0, first_maker) ∷ []) ++ [])
    × SameOutside vacant_first (((0, first_maker) ∷ []) ++ []) (book third).arena a
unfolding find
remove_slot-append_example =
    remove_slot-append vacant_first sell (pos 100) (book third) level ((0, first_maker) ∷ []) [] 1
      second_maker refl (Holds-book third)

apply_cancel-append_example :
    (a : vacant_first.Arena) × (l' : PriceLevel) × (apply_cancel vacant_first 2 4 (book third) []
      ≡ ok (
        at_level_or_drop vacant_first sell
            (pos 100)
            l'
            a
            (record (book third) { id_index = erase 2 (book third).id_index }),
        [] ++ cancelled 2 4 ∷ [],
      ))
    × Holds vacant_first a l' (((0, first_maker) ∷ []) ++ [])
    × (vacant_first.get a 1 ≡ none)
    × ((j : ℕ)
        → has j (((0, first_maker) ∷ []) ++ []) ≡ false
        → (1 == j) ≡ false
        → vacant_first.get a j ≡ vacant_first.get (book third).arena j)
unfolding find lookup
apply_cancel-append_example =
    apply_cancel-append vacant_first 2 4 (book third) []
      (record { price = pos 100; side = sell; slot = 1 }) level ((0, first_maker) ∷ []) []
      second_maker refl refl (Holds-book third)

abbrev big_fok : NewOrder
big_fok = record {
  id = 9;
  symbol = 1;
  side = buy;
  kind = fok;
  tif = gtc;
  price = pos 100;
  stop_price = pos 0;
  qty = 20;
}

apply_new-Rejects_example :
    Rejects vacant_first big_fok 5
      (book third)
      []
      (apply_new vacant_first 1 5 5 big_fok (book third) [])
unfolding available_qty
apply_new-Rejects_example =
    apply_new-Rejects vacant_first 0 5 5 big_fok (book third) []
      (inr (inr (inr (refl, omega arith))))
