-- ===== src/Engine/Shard.antt =====
-- crates/engine/src/shard.rs: the loop of one shard thread, over the commands that it pops. The text of
-- a command in the log (`serde_json::to_vec`) is a parameter. The calls of crates/metrics are a list,
-- and so are the latencies; pinning a thread to a core changes no state.
pub mod Log
pub mod Isolation
mod Examples
use Prim.Native.String.{String}
use order_matching_engine_ru.Prelude.{
  ℕ, ◌+◌, ◌-◌, ◌%◌, ◌^◌, ◌≡◌, Option, none, some, List, [], ◌∷◌, ◌++◌, map, ◌==◌, if◌then◌else◌,
  Outcome, ok, ◌>>=◌, saturating_sub,
}
use order_matching_engine_ru.Prelude.Int.{ℤ}
use order_matching_engine_ru.Core.Types.{
  Price, OrderType, limit, market, ioc, fok, stop_market, stop_limit, NewOrder, Command, Sequenced,
  Order, OutputEvent, trade, rejected, RejectReason, unknown_symbol, duplicate_id, unknown_id,
  zero_qty, bad_price, fok_unfillable, market_no_liquidity, self_trade, rate_limited,
}
use order_matching_engine_ru.Core.Slab.{Slab}
use order_matching_engine_ru.Core.Maps.{HashMap, lookup, insert}
use order_matching_engine_ru.Core.Book.{OrderBook, BookSnapshot, depth}
use order_matching_engine_ru.Core.Book
use order_matching_engine_ru.Core.Matcher.{apply}
use order_matching_engine_ru.Core.Matcher.Loop.{Events}
use order_matching_engine_ru.Protocol.Binary.{to_u64, from_u64}
use order_matching_engine_ru.Wal.Record.{RecordType, WalRecord}
use order_matching_engine_ru.Wal.Writer.{WalWriter, Disk, append, flush}
use order_matching_engine_ru.Engine.Channel.{Channel}
use order_matching_engine_ru.Engine.Egress.{EgressBus, send_batch}

unfoldable pub symbol_of : Command → ℕ
symbol_of (Command.new n) = n.symbol
symbol_of (Command.cancel _ symbol) = symbol
symbol_of (Command.replace _ _ _ symbol) = symbol

unfoldable pub shard_for : ℕ → ℕ → ℕ
shard_for symbol num_shards = symbol % num_shards

unfoldable pub kind_label : OrderType → String
kind_label limit = "limit"
kind_label market = "market"
kind_label ioc = "ioc"
kind_label fok = "fok"
kind_label stop_market = "stop_market"
kind_label stop_limit = "stop_limit"

unfoldable pub type_label : Command → String
unfolding kind_label
type_label (Command.new n) = kind_label n.kind
type_label (Command.cancel _ _) = "cancel"
type_label (Command.replace _ _ _ _) = "replace"

unfoldable pub reject_label : RejectReason → String
reject_label unknown_symbol = "unknown_symbol"
reject_label duplicate_id = "duplicate_id"
reject_label unknown_id = "unknown_id"
reject_label zero_qty = "zero_qty"
reject_label bad_price = "bad_price"
reject_label fok_unfillable = "fok_unfillable"
reject_label market_no_liquidity = "no_liquidity"
reject_label self_trade = "self_trade"
reject_label rate_limited = "rate_limited"

-- The calls of crates/metrics/src/registry.rs; the label of a symbol is its number, and a gauge has its
-- value before the cast to `f64`.
pub data Metric : Type 0 where
  inc_orders : (symbol : ℕ) (order_type : String) → Metric
  inc_trades : (symbol : ℕ) → Metric
  inc_rejects : (reason : String) → Metric
  set_book_depth : (symbol : ℕ) (side : String) (depth : ℕ) → Metric
  set_spread : (symbol : ℕ) (ticks : ℤ) → Metric

unfoldable pub event_metrics : ℕ → List OutputEvent → List Metric
unfolding reject_label
event_metrics symbol [] = []
event_metrics symbol (trade _ _ _ _ _ _ _ ∷ es) = inc_trades symbol ∷ event_metrics symbol es
event_metrics symbol (rejected _ reason _ ∷ es) =
    inc_rejects (reject_label reason) ∷ event_metrics symbol es
event_metrics symbol (_ ∷ es) = event_metrics symbol es

-- `ask - bid` on `i64`, which wraps in a release build.
unfoldable pub spread : Price → Price → ℤ
unfolding to_u64 from_u64
spread ask bid = from_u64 ((to_u64 ask + 2 ^ 64 - to_u64 bid) % 2 ^ 64)

-- The first of both sides, if both have one.
unfoldable pub top_metrics : ℕ → List (Price × ℕ) → List (Price × ℕ) → List Metric
unfolding spread
top_metrics symbol [] _ = []
top_metrics symbol (_ ∷ _) [] = []
top_metrics symbol ((bid, bq) ∷ _) ((ask, aq) ∷ _) =
    set_book_depth symbol "bid" bq
    ∷ set_book_depth symbol "ask" aq
    ∷ set_spread symbol (spread ask bid)
    ∷ []

module _ (S : Slab Order) where
  -- One book for each symbol of the configuration; a later entry for a symbol replaces an earlier one.
  unfoldable pub add_books : List (ℕ × Price) → HashMap (OrderBook S) → HashMap (OrderBook S)
  unfolding insert Book.new
  add_books [] m = m
  add_books ((symbol, tick) ∷ more) m = add_books more (insert symbol (Book.new S symbol tick) m)

  -- What the metrics of a command are, after it was applied.
  unfoldable pub command_metrics : Command → Events → OrderBook S → List Metric
  unfolding type_label event_metrics top_metrics depth
  command_metrics cmd events b =
      let symbol = symbol_of cmd in
      let snap = depth S 1 b in
      inc_orders symbol (type_label cmd)
      ∷ (event_metrics symbol events ++ top_metrics symbol snap.bids snap.asks)

module _ (S : Slab Order) (K : Channel OutputEvent) (crc32 : List ℕ → ℕ)
    (to_vec : Sequenced → List ℕ) (fuel : ℕ) where
  -- What a shard thread owns besides the log, with what it has sent out. The egress bus is shared by the
  -- shards, and stands here as this one alone would leave it.
  pub record Shard : Type 0 where
    pub books : HashMap (OrderBook S)
    pub egress : EgressBus K
    pub metrics : List Metric
    pub latencies : List ℕ

  unfoldable pub record_of : Sequenced → WalRecord
  record_of cmd = record {
    seq = cmd.seq;
    ts = cmd.ts;
    rec_type = RecordType.command;
    payload = to_vec cmd;
  }

  -- `if let Some(book) = books.get_mut(&symbol) { … }`, and the latency behind it. `now` is the time
  -- of the pop.
  unfoldable pub process : Sequenced → ℕ → Shard → Outcome Shard
  process cmd now s = elim (lookup (symbol_of cmd.cmd) s.books) [
    | none ↦ ok (record s { latencies = s.latencies ++ saturating_sub now cmd.ts ∷ [] })
    | some book ↦ do
      (book, events) ← apply S fuel cmd book []
      ok (record {
        books = insert (symbol_of cmd.cmd) book s.books;
        egress = send_batch K events s.egress;
        metrics = s.metrics ++ command_metrics S cmd.cmd events book;
        latencies = s.latencies ++ saturating_sub now cmd.ts ∷ [];
      })
  ]

  -- One round of the loop: the record is in the log before the command is applied.
  unfoldable pub shard_round :
      Sequenced → ℕ → WalWriter × Disk × Shard → Outcome (WalWriter × Disk × Shard)
  shard_round cmd now (w, d, s) = do
    (w, d) ← append crc32 (record_of cmd) w d
    s ← process cmd now s
    ok (w, d, s)

  -- The loop over the commands that it pops, each with the time of its pop, until the ring is closed.
  unfoldable pub shard_loop :
      List (Sequenced × ℕ) → WalWriter × Disk × Shard → Outcome (WalWriter × Disk × Shard)
  unfolding shard_round
  shard_loop [] s = ok s
  shard_loop ((cmd, now) ∷ more) s = do s ← shard_round cmd now s; shard_loop more s

  -- `run_shard`, from the log that is open to its last flush.
  unfoldable pub run_shard :
      List (ℕ × Price)
      → EgressBus K
      → List (Sequenced × ℕ)
      → WalWriter
      → Disk
      → Outcome (WalWriter × Disk × Shard)
  unfolding shard_loop flush
  run_shard symbols egress cmds w d = do
    let s : Shard = record {
      books = add_books S symbols [];
      egress = egress;
      metrics = [];
      latencies = [];
    }
    (w, d, s) ← shard_loop cmds (w, d, s)
    let (w, d) = flush w d
    ok (w, d, s)
