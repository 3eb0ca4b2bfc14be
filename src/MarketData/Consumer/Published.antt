-- ===== src/MarketData/Consumer/Published.antt =====
-- What the market-data bus gets.
use Prim.Native.String.{String}
use order_matching_engine_ru.Prelude.{
  ℕ, zero, suc, ◌≡◌, refl, sym, ap, ◌∙◌, List, [], ◌∷◌, ◌++◌, arith, All, add_u64, All-append,
}
use mathlib.Core.List.{append-nil, append_assoc}
use order_matching_engine_ru.Prelude.Int.{pos}
use order_matching_engine_ru.Core.Types.{
  Side, buy, sell, OutputEvent, accepted, rejected, partially_filled, filled, cancelled, replaced,
}
use order_matching_engine_ru.Core.Maps.{HashMap, insert, erase}
use order_matching_engine_ru.Protocol.Double.{Double}
use order_matching_engine_ru.Protocol.Json.{Str, symbol_to_id, ticks_to_dollars}
use order_matching_engine_ru.MarketData.SnapshotBuilder.{
  SnapshotBuilder, side_str, MarketEvent, MarketBus, publish, publish_snapshot, levels_of, process,
}
use order_matching_engine_ru.MarketData.SnapshotBuilder
use order_matching_engine_ru.MarketData.Consumer.{add_builders, process_all, consume}

-- A builder that was never told a level.
abbrev pub IsBlank : ℕ × SnapshotBuilder → Type 0
IsBlank (_, b) = (b.bids ≡ []) × (b.asks ≡ [])

erase-IsBlank : (k : ℕ) (m : HashMap SnapshotBuilder) → All IsBlank m → All IsBlank (erase k m)
unfolding erase
erase-IsBlank k [] h = tt
erase-IsBlank k (e ∷ m) (h, more) = ground (arith, erase-IsBlank k m more, h)

add_builders-IsBlank :
    (names : List Str) (m : HashMap SnapshotBuilder)
    → All IsBlank m
    → All IsBlank (add_builders names m)
unfolding add_builders SnapshotBuilder.new insert
add_builders-IsBlank [] m h = h
add_builders-IsBlank (name ∷ names) m h =
    add_builders-IsBlank names
      (insert (symbol_to_id name) (SnapshotBuilder.new (symbol_to_id name) name 20) m)
      ((refl, refl), erase-IsBlank (symbol_to_id name) m h)

module _ (D : Double) where
  -- No snapshot shows a level, and there is no delta.
  abbrev pub ShowsNothing : MarketEvent D → Type 0
  ShowsNothing (MarketEvent.trade _ _ _ _ _ _) = Unit {0}
  ShowsNothing (MarketEvent.snapshot _ _ bids asks) = (bids ≡ []) × (asks ≡ [])
  ShowsNothing (MarketEvent.delta _ _ _ _) = ⊥

  levels_of-nil : (depth : ℕ) → levels_of D depth [] ≡ []
  unfolding levels_of
  levels_of-nil zero = refl
  levels_of-nil (suc depth) = refl

  publish_snapshot-ShowsNothing :
      (b : SnapshotBuilder) (key seq : ℕ) (bus : MarketBus D)
      → IsBlank (key, b)
      → All ShowsNothing bus
      → All ShowsNothing (publish_snapshot D b seq bus)
  unfolding publish_snapshot
  publish_snapshot-ShowsNothing b key seq bus (no_bids, no_asks) h =
      All-append ShowsNothing bus (_ ∷ []) h (
        (
          ap (levels_of D b.depth) no_bids ∙ levels_of-nil b.depth,
          ap (levels_of D b.depth) no_asks ∙ levels_of-nil b.depth,
        ),
        tt,
      )

  process-ShowsNothing :
      (ev : OutputEvent) (b : SnapshotBuilder) (key seq : ℕ) (bus : MarketBus D)
      → IsBlank (key, b)
      → All ShowsNothing bus
      → All ShowsNothing (process D ev seq b bus)
  unfolding process
  process-ShowsNothing (OutputEvent.trade _ _ _ price qty side ts) b key seq bus blank h =
      All-append ShowsNothing bus (_ ∷ []) h (tt, tt)
  process-ShowsNothing (accepted _ _) b key seq bus blank h = h
  process-ShowsNothing (filled _ _) b key seq bus blank h =
      publish_snapshot-ShowsNothing b key seq bus blank h
  process-ShowsNothing (partially_filled _ _ _ _) b key seq bus blank h =
      publish_snapshot-ShowsNothing b key seq bus blank h
  process-ShowsNothing (cancelled _ _) b key seq bus blank h =
      publish_snapshot-ShowsNothing b key seq bus blank h
  process-ShowsNothing (rejected _ _ _) b key seq bus blank h = h
  process-ShowsNothing (replaced _ _) b key seq bus blank h = h

  process_all-ShowsNothing :
      (ev : OutputEvent) (seq : ℕ) (builders : HashMap SnapshotBuilder) (bus : MarketBus D)
      → All IsBlank builders
      → All ShowsNothing bus
      → All ShowsNothing (process_all D ev seq builders bus)
  unfolding process_all
  process_all-ShowsNothing ev seq [] bus blank h = h
  process_all-ShowsNothing ev seq ((key, b) ∷ builders) bus (blank, more) h =
      process_all-ShowsNothing ev seq builders (process D ev seq b bus) more
        (process-ShowsNothing ev b key seq bus blank h)

  consume_from-ShowsNothing :
      (events : List OutputEvent) (seq : ℕ) (builders : HashMap SnapshotBuilder) (bus : MarketBus D)
      → All IsBlank builders
      → All ShowsNothing bus
      → All ShowsNothing (consume D events seq builders bus)
  unfolding consume
  consume_from-ShowsNothing [] seq builders bus blank h = h
  consume_from-ShowsNothing (ev ∷ events) seq builders bus blank h =
      consume_from-ShowsNothing events (add_u64 seq 1) builders
        (process_all D ev (add_u64 seq 1) builders bus) blank
        (process_all-ShowsNothing ev (add_u64 seq 1) builders bus blank h)

  -- The gateway's market data, whatever the symbols and the events of the engine: every snapshot that is
  -- published has no bids and no asks, and no delta is published. Only `update_level` would fill a
  -- builder, and the thread never calls it.
  pub consume-ShowsNothing :
      (names : List Str) (events : List OutputEvent)
      → All ShowsNothing (consume D events 0 (add_builders names []) [])
  consume-ShowsNothing names events =
      consume_from-ShowsNothing events 0 (add_builders names []) []
        (add_builders-IsBlank names [] tt) tt

  -- The trades among what is published.
  abbrev only_trades : MarketEvent D → MarketBus D
  only_trades (MarketEvent.trade symbol price qty side seq ts) =
      MarketEvent.trade symbol price qty side seq ts ∷ []
  only_trades _ = []

  abbrev pub market_trades : MarketBus D → MarketBus D
  market_trades [] = []
  market_trades (m ∷ ms) = only_trades m ++ market_trades ms

  abbrev side_name : Side → String
  side_name buy = "buy"
  side_name sell = "sell"

  -- What a trade of the engine is on the bus, under a symbol: the price in dollars, from ticks of a
  -- hundredth of a cent, and the number of the thread's count.
  abbrev pub event_trades : OutputEvent → ℕ → Str → MarketBus D
  event_trades (OutputEvent.trade _ _ _ price qty side ts) seq symbol =
      MarketEvent.trade symbol (D.div (D.of_i64 price) (D.of_i64 (pos 10000))) qty (side_name side)
        seq ts
      ∷ []
  event_trades _ seq symbol = []

  -- Under the symbol of each builder.
  abbrev pub under_each : OutputEvent → ℕ → HashMap SnapshotBuilder → MarketBus D
  under_each ev seq [] = []
  under_each ev seq ((_, b) ∷ builders) =
      event_trades ev seq b.sym_str ++ under_each ev seq builders

  -- For events that the thread counts from a number on.
  abbrev pub trades_from : ℕ → List OutputEvent → HashMap SnapshotBuilder → MarketBus D
  trades_from seq [] builders = []
  trades_from seq (ev ∷ events) builders =
      under_each ev seq builders ++ trades_from (add_u64 seq 1) events builders

  market_trades-append :
      (xs ys : MarketBus D) → market_trades (xs ++ ys) ≡ market_trades xs ++ market_trades ys
  market_trades-append [] ys = refl
  market_trades-append (x ∷ xs) ys =
      ap (λ zs. only_trades x ++ zs) (market_trades-append xs ys)
      ∙ sym (append_assoc (only_trades x) (market_trades xs) (market_trades ys))

  market_trades-process :
      (ev : OutputEvent) (seq : ℕ) (b : SnapshotBuilder) (bus : MarketBus D)
      → market_trades (process D ev seq b bus) ≡ market_trades bus ++ event_trades ev seq b.sym_str
  unfolding process publish_snapshot publish ticks_to_dollars side_str
  market_trades-process (OutputEvent.trade _ _ _ price qty buy ts) seq b bus =
      market_trades-append bus (_ ∷ [])
  market_trades-process (OutputEvent.trade _ _ _ price qty sell ts) seq b bus =
      market_trades-append bus (_ ∷ [])
  market_trades-process (accepted _ _) seq b bus = sym (append-nil (market_trades bus))
  market_trades-process (filled _ _) seq b bus = market_trades-append bus (_ ∷ [])
  market_trades-process (partially_filled _ _ _ _) seq b bus = market_trades-append bus (_ ∷ [])
  market_trades-process (cancelled _ _) seq b bus = market_trades-append bus (_ ∷ [])
  market_trades-process (rejected _ _ _) seq b bus = sym (append-nil (market_trades bus))
  market_trades-process (replaced _ _) seq b bus = sym (append-nil (market_trades bus))

  market_trades-process_all :
      (ev : OutputEvent) (seq : ℕ) (builders : HashMap SnapshotBuilder) (bus : MarketBus D)
      → market_trades (process_all D ev seq builders bus)
        ≡ market_trades bus ++ under_each ev seq builders
  unfolding process_all
  market_trades-process_all ev seq [] bus = sym (append-nil (market_trades bus))
  market_trades-process_all ev seq ((key, b) ∷ builders) bus =
      market_trades-process_all ev seq builders (process D ev seq b bus)
      ∙ ap (λ xs. xs ++ under_each ev seq builders) (market_trades-process ev seq b bus)
      ∙ append_assoc (market_trades bus) (event_trades ev seq b.sym_str)
          (under_each ev seq builders)

  -- The trades that the thread publishes behind those of the bus are, for the trades among the events
  -- in their order, one for each builder in the order of the builders: each has that builder's symbol,
  -- whatever symbol was traded, the price, quantity, side and time of the trade, and the place of the
  -- event in the thread's count.
  pub market_trades-consume :
      (events : List OutputEvent) (seq : ℕ) (builders : HashMap SnapshotBuilder) (bus : MarketBus D)
      → market_trades (consume D events seq builders bus)
        ≡ market_trades bus ++ trades_from (add_u64 seq 1) events builders
  unfolding consume
  market_trades-consume [] seq builders bus = sym (append-nil (market_trades bus))
  market_trades-consume (ev ∷ events) seq builders bus =
      market_trades-consume events (add_u64 seq 1) builders
        (process_all D ev (add_u64 seq 1) builders bus)
      ∙ ap (λ xs. xs ++ trades_from (add_u64 (add_u64 seq 1) 1) events builders)
          (market_trades-process_all ev (add_u64 seq 1) builders bus)
      ∙ append_assoc (market_trades bus) (under_each ev (add_u64 seq 1) builders)
          (trades_from (add_u64 (add_u64 seq 1) 1) events builders)
