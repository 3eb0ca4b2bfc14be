-- ===== src/MarketData/SnapshotBuilder.antt =====
-- crates/marketdata/src/snapshot_builder.rs and the events of bus.rs. The broadcast channel behind
-- `MarketBus` is tokio's: `publish` adds to the list of what was sent to it.
pub mod Levels
use Prim.Native.String.{String}
use order_matching_engine_ru.Prelude.{
  ℕ, Option, List, [], ◌∷◌, ◌++◌, map, take, ◌==◌, if◌then◌else◌,
}
use order_matching_engine_ru.Core.Types.{
  Price, Side, buy, sell, OutputEvent, accepted, rejected, partially_filled, filled, cancelled,
  replaced,
}
use order_matching_engine_ru.Core.Maps.{ascending, descending, BTreeMap, put, delete}
use order_matching_engine_ru.Protocol.Double.{Double}
use order_matching_engine_ru.Protocol.Json.{Str, ticks_to_dollars}

-- The bids are under `Reverse` keys, so that both maps have the best price first. The bus that a
-- builder holds is an argument of its functions.
pub record SnapshotBuilder : Type 0 where
  pub symbol : ℕ
  pub sym_str : Str
  pub bids : BTreeMap ℕ
  pub asks : BTreeMap ℕ
  pub depth : ℕ

unfoldable pub new : ℕ → Str → ℕ → SnapshotBuilder
new symbol sym_str depth = record {
  symbol = symbol;
  sym_str = sym_str;
  bids = [];
  asks = [];
  depth = depth;
}

unfoldable pub update_level : Side → Price → ℕ → SnapshotBuilder → SnapshotBuilder
unfolding put delete
update_level buy price new_qty b = record b {
  bids = if new_qty == 0 then delete price b.bids else put descending price new_qty b.bids;
}
update_level sell price new_qty b = record b {
  asks = if new_qty == 0 then delete price b.asks else put ascending price new_qty b.asks;
}

unfoldable pub side_str : Side → String
side_str buy = "buy"
side_str sell = "sell"

module _ (D : Double) where
  open D use {F64}

  pub data MarketEvent : Type 0 where
    trade : (symbol : Str) (price : F64) (qty : ℕ) (side : String) (seq ts : ℕ) → MarketEvent
    snapshot : (symbol : Str) (seq : ℕ) (bids asks : List (F64 × F64)) → MarketEvent
    delta : (symbol : Str) (seq : ℕ) (bids asks : List (F64 × F64)) → MarketEvent

  abbrev pub MarketBus : Type 0
  MarketBus = List MarketEvent

  unfoldable pub publish : MarketEvent → MarketBus → MarketBus
  publish event bus = bus ++ event ∷ []

  unfoldable pub levels_of : ℕ → BTreeMap ℕ → List (F64 × F64)
  unfolding ticks_to_dollars
  levels_of depth m = map (λ (p, q). (ticks_to_dollars D p, D.of_u64 q)) (take depth m)

  unfoldable pub publish_snapshot : SnapshotBuilder → ℕ → MarketBus → MarketBus
  unfolding levels_of publish
  publish_snapshot b seq bus =
      publish
        (MarketEvent.snapshot b.sym_str seq (levels_of b.depth b.bids) (levels_of b.depth b.asks))
        bus

  -- `process` changes nothing of the builder.
  unfoldable pub process : OutputEvent → ℕ → SnapshotBuilder → MarketBus → MarketBus
  unfolding publish_snapshot side_str publish ticks_to_dollars
  process (OutputEvent.trade _ _ _ price qty side ts) seq b bus =
      publish (MarketEvent.trade b.sym_str (ticks_to_dollars D price) qty (side_str side) seq ts)
        bus
  process (accepted _ _) seq b bus = bus
  process (filled _ _) seq b bus = publish_snapshot b seq bus
  process (partially_filled _ _ _ _) seq b bus = publish_snapshot b seq bus
  process (cancelled _ _) seq b bus = publish_snapshot b seq bus
  process (rejected _ _ _) seq b bus = bus
  process (replaced _ _) seq b bus = bus
