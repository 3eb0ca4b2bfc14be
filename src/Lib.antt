-- ===== src/Lib.antt =====
-- A matching engine for one exchange. A client's message (crates/protocol) becomes a command in a session
-- of crates/gateway. `submit` of crates/engine numbers it and pushes it to the ring of the shard that owns
-- its symbol. The shard pops it, appends it to its write-ahead log (crates/wal), applies it to the order
-- book of the symbol (crates/core), and sends the events that come of it to the egress bus, which
-- crates/marketdata reads.
--
-- Files, and what they model:
--   Prelude, Prelude/*    library names, tests on native numbers, lists, `Outcome` (a run that may panic
--                         or lack fuel), `Result`, `i64` prices, little endian bytes
--   Core/Types            crates/core/src/types.rs, order.rs and events.rs
--   Core/Slab             slab::Slab, a parameter: its operations with the laws its documentation gives;
--                         Core/Slab/FirstVacant is a slab for which they hold
--   Core/Maps             BTreeMap (a list in key order) and FxHashMap (a list of entries)
--   Core/PriceLevel       crates/core/src/price_level.rs
--   Core/Book             crates/core/src/book.rs: `OrderBook` with all its methods; a method that the
--                         source writes out for bids and for asks takes the side as an argument
--   Core/Book/Chain, Core/Book/Queue
--                         the intrusive list of a level against a FIFO queue of orders
--   Core/Matcher/Loop     crates/core/src/matcher.rs: `match_order`, `reinsert_at_head`, `available_qty`
--   Core/Matcher          the rest of matcher.rs: `apply`, `apply_new`, `apply_cancel`, `apply_replace`,
--                         `trigger_stops`
--   Core/Matcher/Sweep    the specification of a match: makers in the order of price and time
--   Core/Matcher/Ladder, Trade, Round, Refinement, MatchOrder, Promises, TakeOut, Cancel, Rejection
--                         a side of the book as a ladder of queues, one trade, one round, the loop,
--                         cancellation, the orders that are turned away
--   Core/Matcher/Replace  replacing, against cancelling and submitting
--   Core/Matcher/Immediate, Resting
--                         `apply_new` as a whole, for orders that do not rest and for those that do
--   Core/Whole/Exchange   a market of offers by price and time, without slots, links, levels or an index:
--                         what a book is to do
--   Core/Whole/Invariant, Kept, Unique, Quantity
--                         a well-formed book: both sides, the index and the arena, and what they count
--   Core/Whole/Offers, Zoom, Level, Place, Joined, Located, Swept, Matched
--                         one price of a side, an order more or less on a side, a match of both sides
--   Core/Whole/Ended, Joiner, Rested, Branches, Submit, Found, Taken, Withdraw, Trades, Commands,
--   Core/Whole/Runs, Done
--                         `apply_new`, `apply_cancel`, `apply_replace` and `apply` on a well-formed book
--                         against the market, any number of commands, and what a
--                         match leaves for an order to take
--   Wal/Record            crates/wal/src/record.rs; the checksum of crc32fast is a parameter
--   Wal/Reader            crates/wal/src/reader.rs; the files and their reads are parameters
--   Wal/Writer            crates/wal/src/writer.rs and the constant of segment.rs, over a disk that is the
--                         bytes of each segment and those of them that a sync has made durable
--   Wal/Writer/Recovery, Append
--                         the segments as runs of records, and a replay of what was appended
--   Wal/Snapshot, Wal/Snapshot/Restore
--                         crates/wal/src/snapshot.rs without its JSON text and files
--   Protocol/Binary       crates/protocol/src/binary.rs and error.rs; inbound messages have the 40, 13 and
--                         29 bytes of binary.rs, not the padded 42, 16 and 32 of interfaces.md
--   Protocol/Double       the `f64` operations that the source uses, a parameter; Protocol/Double/Whole
--                         has whole numbers in their place
--   Protocol/Json         crates/protocol/src/json_codec.rs and crates/gateway/src/router.rs
--   Protocol/Json/SymbolId
--                         the hash of symbol names fits a `u32`
--   Engine/Channel        the channels of crossbeam_channel, a parameter with the laws of sending and
--                         receiving; Engine/Channel/Queue has lists for which they hold
--   Engine/Egress         crates/engine/src/egress.rs
--   Engine/Sequencer      crates/engine/src/sequencer.rs and ring.rs
--   Engine/Shard          crates/engine/src/shard.rs: `run_shard` over the commands that it pops, with the
--                         calls of crates/metrics/src/registry.rs as data
--   Engine/Submit         crates/engine/src/lib.rs: the symbols of the shards and the empty rings in
--                         `start`, and `submit`
--   Engine/System         the same with threads, as a step relation: a caller's number, its push or the
--                         refusal of it, and a shard's pop are steps of their own. A pop is
--                         possible whenever the ring has a command, also when the shard is
--                         busy, so there are more runs than the threads have
--   Gateway/Session       crates/gateway/src/session.rs: the loop of one session
--   MarketData/SnapshotBuilder
--                         crates/marketdata/src/snapshot_builder.rs and the events of bus.rs
--   MarketData/Consumer   the market-data thread of crates/gateway/src/main.rs
--   */Examples, */Tests   the theorems at concrete inputs, and the repository's unit tests
--
-- State is passed explicitly: an operation takes the book and the events so far and returns both. An
-- `unwrap`, an index into the arena and a removal from it panic as values. A `u64` sum wraps as in a
-- release build. A clock's time is an argument.
--
-- Fuel. The loop of `match_order` gets one round more than the aggressor has units left, since each
-- round trades at least one unit. `replay_segment` gets one round more than the segment has bytes,
-- since a record takes at least one, and `drain` one more than there are messages, on a channel
-- that no one sends to meanwhile. The fuel of
-- `apply_new` bounds how deep triggered stops resubmit one another; the source has no such bound.
-- Where no stop order waits none is triggered, so that one unit is enough.
--
-- Not modelled: the capacity of the rings and the spawning of the shards; sockets, the accept loop, the WebSocket publisher and tokio's broadcast channel, since they
-- are calls of libraries; reading and writing JSON text, which serde derives; the latency histogram, which is
-- hdrhistogram's, and the Prometheus exporter; file names; the load generator, and the ml, web and deploy
-- directories.
pub mod Prelude
pub mod Core
pub mod Wal
pub mod Protocol
pub mod Engine
pub mod MarketData
pub mod Gateway
