-- ===== src/MarketData/Examples.antt =====
-- The market data on two symbols, one trade and a few levels, with whole numbers for `f64`.
use order_matching_engine_ru.Prelude.{◌≡◌, refl, List, [], ◌∷◌, ◌++◌, All}
use order_matching_engine_ru.Prelude.Int.{pos}
use order_matching_engine_ru.Core.Types.{Side, buy, sell, OutputEvent, accepted, filled}
use order_matching_engine_ru.Core.Maps.{insert}
use order_matching_engine_ru.Protocol.Double.Whole.{whole_numbers}
use order_matching_engine_ru.Protocol.Json.{Str, symbol_to_id, hash_from, hash_byte}
use order_matching_engine_ru.MarketData.SnapshotBuilder.{new, MarketEvent}
use order_matching_engine_ru.MarketData.SnapshotBuilder.Levels.{
  LevelUpdate, update_levels, IsView, qty_at, latest, update_levels-new,
}
use order_matching_engine_ru.MarketData.Consumer.{add_builders, consume}
use order_matching_engine_ru.MarketData.Consumer.Published.{
  ShowsNothing, consume-ShowsNothing, market_trades, trades_from, market_trades-consume,
}

-- "AAPL" and "MSFT"
abbrev names : List Str
names = (65 ∷ 65 ∷ 80 ∷ 76 ∷ []) ∷ (77 ∷ 83 ∷ 70 ∷ 84 ∷ []) ∷ []

abbrev events : List OutputEvent
events = accepted 1 1 ∷ OutputEvent.trade 2 2 1 (pos 20000) 5 buy 7 ∷ filled 1 2 ∷ []

consume-ShowsNothing_example :
    All (ShowsNothing whole_numbers) (consume whole_numbers events 0 (add_builders names []) [])
consume-ShowsNothing_example = consume-ShowsNothing whole_numbers names events

-- One trade of the engine, of one symbol, is two trades on the bus.
market_trades-consume_example :
    market_trades whole_numbers (consume whole_numbers events 0 (add_builders names []) [])
    ≡ [] ++ trades_from whole_numbers 1 events (add_builders names [])
market_trades-consume_example =
    market_trades-consume whole_numbers events 0 (add_builders names []) []

trades_of_events :
    trades_from whole_numbers 1 events (add_builders names [])
    ≡ MarketEvent.trade (77 ∷ 83 ∷ 70 ∷ 84 ∷ []) 2 5 "buy" 2 7
      ∷ MarketEvent.trade (65 ∷ 65 ∷ 80 ∷ 76 ∷ []) 2 5 "buy" 2 7
      ∷ []
unfolding add_builders new insert symbol_to_id hash_from hash_byte
trades_of_events = refl

abbrev updates : List LevelUpdate
updates =
    record { side = buy; price = pos 100; new_qty = 5 }
    ∷ record { side = buy; price = pos 101; new_qty = 7 }
    ∷ record { side = sell; price = pos 103; new_qty = 2 }
    ∷ record { side = buy; price = pos 100; new_qty = 0 }
    ∷ []

update_levels-new_example :
    IsView (update_levels updates (new 1 [] 20))
    × ((side : Side) (price : _)
        → qty_at side price (update_levels updates (new 1 [] 20)) ≡ latest side price updates 0)
update_levels-new_example = update_levels-new 1 [] 20 updates
