-- ===== src/Core/Matcher/Tests.antt =====
-- The unit tests of crates/core/src/matcher.rs, run on the model.
use order_matching_engine_ru.Prelude.{
  ℕ, ◌≡◌, refl, Option, none, some, List, [], ◌∷◌, ok, ◌>>=◌, out_of_fuel,
}
use order_matching_engine_ru.Prelude.Int.{pos}
use order_matching_engine_ru.Core.Types.{
  Side, buy, sell, OrderType, limit, market, fok, ioc, stop_limit, stop_market, gtc, NewOrder,
  Command, Sequenced, Order, OutputEvent, accepted, rejected, trade, partially_filled, filled,
  cancelled, fok_unfillable, unknown_id,
}
use order_matching_engine_ru.Core.Types
use order_matching_engine_ru.Core.Slab.FirstVacant.{vacant_first}
use order_matching_engine_ru.Core.Book.{OrderBook, best_bid, best_ask}
use order_matching_engine_ru.Core.Book
use order_matching_engine_ru.Core.Matcher.{Result, apply}
use order_matching_engine_ru.Core.Matcher.Loop.{Events}

abbrev order : ℕ → Side → OrderType → ℕ → ℕ → Command
order id side kind price qty = Command.new (record {
  id = id;
  symbol = 1;
  side = side;
  kind = kind;
  tif = gtc;
  price = pos price;
  stop_price = pos price;
  qty = qty;
})

run_from : ℕ → List Command → OrderBook vacant_first → Events → Result vacant_first
unfolding apply
run_from seq [] b out = ok (b, out)
run_from seq (c ∷ cs) b out = do
  (b, out) ← apply vacant_first 3 (record { seq = seq; ts = seq; cmd = c }) b out
  run_from (ℕ.suc seq) cs b out

run : List Command → Result vacant_first
unfolding run_from Book.new
run cs = run_from 1 cs (Book.new vacant_first 1 (pos 1)) []

tops : Result vacant_first → Option ((Option (Types.Price × ℕ)) × (Option (Types.Price × ℕ)))
unfolding best_bid best_ask
tops (ok (b, _)) = some (best_bid vacant_first b, best_ask vacant_first b)
tops _ = none

events : Result vacant_first → Events
events (ok (_, out)) = out
events _ = []

no_cross_no_trade :
    tops (run (order 1 buy limit 100 10 ∷ order 2 sell limit 101 10 ∷ []))
    ≡ some (some (pos 100, 10), some (pos 101, 10))
unfolding run tops
no_cross_no_trade = refl

partial_fill :
    tops (run (order 1 sell limit 100 5 ∷ order 2 buy limit 100 10 ∷ []))
    ≡ some (some (pos 100, 5), none)
unfolding run tops
partial_fill = refl

price_time_priority :
    events
      (run (order 1 sell limit 100 5 ∷ order 2 sell limit 100 5 ∷ order 3 buy limit 100 7 ∷ []))
    ≡ accepted 1 1
      ∷ accepted 2 2
      ∷ accepted 3 3
      ∷ trade 3 3 1 (pos 100) 5 buy 3
      ∷ filled 1 3
      ∷ trade 3 3 2 (pos 100) 2 buy 3
      ∷ partially_filled 2 2 3 3
      ∷ filled 3 3
      ∷ []
unfolding run events
price_time_priority = refl

cancel_removes_order :
    tops (run (order 1 buy limit 100 10 ∷ Command.cancel 1 1 ∷ [])) ≡ some (none, none)
unfolding run tops
cancel_removes_order = refl

fok_unfillable_zero_trades :
    events (run (order 1 sell limit 100 5 ∷ order 2 buy fok 100 10 ∷ []))
    ≡ accepted 1 1 ∷ accepted 2 2 ∷ rejected 2 fok_unfillable 2 ∷ []
unfolding run events
fok_unfillable_zero_trades = refl

-- A triggered stop-limit order that does not trade at once rests, is taken for a stop again, and
-- so on until the fuel runs out.
stop_limit_loops :
    run (
      order 1 sell limit 100 5
      ∷ order 2 buy limit 100 5
      ∷ order 3 buy stop_limit 90 5
      ∷ order 4 buy market 1 1
      ∷ [])
    ≡ out_of_fuel
unfolding run
stop_limit_loops = refl
