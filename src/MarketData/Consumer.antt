-- ===== src/MarketData/Consumer.antt =====
-- The thread of crates/gateway/src/main.rs that reads the egress bus for the market data. The builders
-- are the entries of its `HashMap`, in whatever order `values_mut` visits them.
pub mod Published
use order_matching_engine_ru.Prelude.{ℕ, List, [], ◌∷◌, add_u64}
use order_matching_engine_ru.Core.Types.{OutputEvent}
use order_matching_engine_ru.Core.Maps.{HashMap, insert}
use order_matching_engine_ru.Protocol.Double.{Double}
use order_matching_engine_ru.Protocol.Json.{Str, symbol_to_id}
use order_matching_engine_ru.MarketData.SnapshotBuilder.{SnapshotBuilder, MarketBus, process}
use order_matching_engine_ru.MarketData.SnapshotBuilder

-- One builder for each symbol name, of depth 20; a later name with the same id replaces an earlier one.
unfoldable pub add_builders : List Str → HashMap SnapshotBuilder → HashMap SnapshotBuilder
unfolding insert symbol_to_id SnapshotBuilder.new
add_builders [] m = m
add_builders (name ∷ names) m =
    let id = symbol_to_id name in add_builders names (insert id (SnapshotBuilder.new id name 20) m)

module _ (D : Double) where
  -- Both branches of the test for a trade are this loop.
  unfoldable pub process_all : OutputEvent → ℕ → HashMap SnapshotBuilder → MarketBus D → MarketBus D
  unfolding process
  process_all ev seq [] bus = bus
  process_all ev seq ((_, b) ∷ builders) bus = process_all ev seq builders (process D ev seq b bus)

  -- The loop over the events that it receives, from the last `seq`.
  unfoldable pub consume :
      List OutputEvent → ℕ → HashMap SnapshotBuilder → MarketBus D → MarketBus D
  unfolding process_all
  consume [] seq builders bus = bus
  consume (ev ∷ events) seq builders bus =
      let seq = add_u64 seq 1 in consume events seq builders (process_all ev seq builders bus)
