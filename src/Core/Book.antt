-- ===== src/Core/Book.antt =====
-- crates/core/src/book.rs: the two sides of the book, the index by id and the arena. Where the
-- source repeats a function for bids and asks, the side is an argument here.
pub mod Chain
pub mod Queue
pub mod Sides
use order_matching_engine_ru.Prelude.{
  ℕ, zero, ◌+◌, Bool, true, false, Option, none, some, List, [], ◌∷◌, map, Outcome, ok, ◌>>=◌,
  unwrap, ◌==◌, if◌then◌else◌, take, head?, add_u64,
}
use order_matching_engine_ru.Prelude.Int.{ltb_ℤ}
use order_matching_engine_ru.Core.Types.{Price, Side, buy, sell, Order}
use order_matching_engine_ru.Core.Slab.{Slab, index, modify}
use order_matching_engine_ru.Core.Maps.{
  KeyOrder, ascending, descending, BTreeMap, find, put, delete, HashMap,
}
use order_matching_engine_ru.Core.PriceLevel.{
  PriceLevel, empty_level, is_none, is_empty, push_back, pop_front,
}
use order_matching_engine_ru.Core.PriceLevel

pub record Location : Type 0 where
  pub price : Price
  pub side : Side
  pub slot : ℕ

pub record BookSnapshot : Type 0 where
  pub bids : List (Price × ℕ)
  pub asks : List (Price × ℕ)
  pub last_trade : Option Price

abbrev pub Levels : Type 0
Levels = BTreeMap PriceLevel

-- `seq` is initialised and never read or written again by the source.
pub record OrderBook (S : Slab Order) : Type 0 where
  pub symbol : ℕ
  pub tick : Price
  pub asks : Levels
  pub bids : Levels
  pub id_index : HashMap Location
  pub arena : S.Arena
  pub stop_buys : BTreeMap (List ℕ)
  pub stop_sells : BTreeMap (List ℕ)
  pub last_trade : Option Price
  pub seq : ℕ

-- What stands for the bids, or for the asks.
abbrev pub choose {ℓ} : {A : Type ℓ} → Side → A → A → A
choose buy bid ask = bid
choose sell bid ask = ask

-- Asks have the lowest price first, bids the highest.
abbrev pub before : Side → KeyOrder
before buy = descending
before sell = ascending

abbrev pub is_slot : Option ℕ → ℕ → Bool
is_slot none k = false
is_slot (some j) k = j == k

-- The effect of `if next.is_none() { lvl.tail = None }` behind `lvl.head = next`.
abbrev pub tail_after : Option ℕ → Option ℕ → Option ℕ
tail_after none tail = none
tail_after (some n) tail = tail

abbrev pub level_or_new : Option PriceLevel → PriceLevel
level_or_new none = empty_level
level_or_new (some l) = l

unfoldable pub best_of : Levels → Option (Price × ℕ)
best_of [] = none
best_of ((p, l) ∷ _) = some (p, l.total_qty)

unfoldable pub depth_of : ℕ → Levels → List (Price × ℕ)
depth_of levels m = map (λ (p, l). (p, l.total_qty)) (take levels m)

-- The level without `slot`, between its neighbours.
unfoldable pub unlink_level : ℕ → Option ℕ → Option ℕ → ℕ → PriceLevel → PriceLevel
unfolding PriceLevel.remove
unlink_level slot prev next qty l = PriceLevel.remove qty (record l {
  head = if is_slot l.head slot then next else l.head;
  tail = if is_slot l.tail slot then prev else l.tail;
})

-- Whether the best bid is below the best ask.
unfoldable pub not_crossed : Option (Price × ℕ) → Option (Price × ℕ) → Bool
not_crossed none _ = true
not_crossed (some bid) none = true
not_crossed (some bid) (some ask) = ltb_ℤ bid.0 ask.0

-- The sums are `u64` sums, which wrap in a release build.
unfoldable pub total_of : Levels → ℕ
total_of [] = 0
total_of ((_, l) ∷ m) = add_u64 l.total_qty (total_of m)

module _ (S : Slab Order) where
  open S use {Arena}

  unfoldable pub new : ℕ → Price → OrderBook S
  new symbol tick = record {
    symbol = symbol;
    tick = tick;
    asks = [];
    bids = [];
    id_index = [];
    arena = S.empty;
    stop_buys = [];
    stop_sells = [];
    last_trade = none;
    seq = 0;
  }

  abbrev pub side_levels : Side → OrderBook S → Levels
  side_levels side b = choose side b.bids b.asks

  abbrev pub with_levels : Side → Levels → OrderBook S → OrderBook S
  with_levels side m b = record b { bids = choose side m b.bids; asks = choose side b.asks m }

  unfoldable pub best_bid : OrderBook S → Option (Price × ℕ)
  unfolding best_of
  best_bid b = best_of b.bids

  unfoldable pub best_ask : OrderBook S → Option (Price × ℕ)
  unfolding best_of
  best_ask b = best_of b.asks

  unfoldable pub depth : ℕ → OrderBook S → BookSnapshot
  unfolding depth_of
  depth levels b = record {
    bids = depth_of levels b.bids;
    asks = depth_of levels b.asks;
    last_trade = b.last_trade;
  }

  -- `if let Some(k) = link { arena[k].next = value }`, and the same for `prev`.
  unfoldable pub set_next : Option ℕ → Option ℕ → Arena → Outcome Arena
  unfolding modify index
  set_next none value a = ok a
  set_next (some k) value a = modify S a k (λ o. record o { next = value })

  unfoldable pub set_prev : Option ℕ → Option ℕ → Arena → Outcome Arena
  unfolding modify index
  set_prev none value a = ok a
  set_prev (some k) value a = modify S a k (λ o. record o { prev = value })

  unfoldable pub insert_resting : ℕ → OrderBook S → Outcome (OrderBook S)
  unfolding index modify set_next push_back put
  insert_resting slot b = do
    order ← index S b.arena slot
    let levels = side_levels order.side b
    let level = level_or_new (find order.price levels)
    let pushed = push_back slot order.remaining level
    a ← modify S b.arena slot (λ o. record o { prev = level.tail; next = none })
    a ← set_next level.tail (some slot) a
    ok (
        with_levels order.side (put (before order.side) order.price pushed levels)
          (record b { arena = a }))

  -- `pop_bid_head` and `pop_ask_head`.
  unfoldable pub pop_head : Side → Price → OrderBook S → Outcome (Option ℕ × OrderBook S)
  unfolding index set_prev pop_front put
  pop_head side price b = elim (find price (side_levels side b)) [
    | none ↦ ok (none, b)
    | some level ↦ elim level.head [
      | none ↦ ok (none, b)
      | some slot ↦ do
        order ← index S b.arena slot
        let (_, popped) = pop_front order.remaining level
        let advanced : PriceLevel = record popped {
          head = order.next;
          tail = tail_after order.next popped.tail;
        }
        a ← set_prev order.next none b.arena
        ok (
          some slot,
          with_levels side (put (before side) price advanced (side_levels side b))
              (record b { arena = a }),
        )
    ]
  ]

  -- `remove_empty_bid` and `remove_empty_ask`.
  unfoldable pub remove_empty : Side → Price → OrderBook S → OrderBook S
  unfolding is_empty delete
  remove_empty side price b = elim (find price (side_levels side b)) [
    | none ↦ b
    | some level ↦
        if is_empty level then with_levels side (delete price (side_levels side b)) b else b
  ]

  unfoldable pub remove_slot : ℕ → Side → Price → ℕ → OrderBook S → Outcome (OrderBook S)
  unfolding index set_next set_prev unlink_level is_empty put delete
  remove_slot slot side price qty b = do
    order ← index S b.arena slot
    a ← set_next order.prev order.next b.arena
    a ← set_prev order.next order.prev a
    let levels = side_levels side b
    let b : OrderBook S = record b { arena = a }
    elim (find price levels) [
      | none ↦ ok b
      | some level ↦
          let left = unlink_level slot order.prev order.next qty level in
          ok (
            with_levels side
              (if is_empty left then delete price levels else put (before side) price left levels)
              b)
    ]

  unfoldable pub check_no_cross : OrderBook S → Bool
  unfolding best_bid best_ask not_crossed
  check_no_cross b = not_crossed (best_bid b) (best_ask b)

  unfoldable pub index_total : Arena → HashMap Location → Outcome ℕ
  unfolding index
  index_total a [] = ok 0
  index_total a ((_, loc) ∷ m) = do
    order ← index S a loc.slot
    rest ← index_total a m
    ok (add_u64 order.remaining rest)

  unfoldable pub check_qty_conservation : OrderBook S → Outcome Bool
  unfolding total_of index_total
  check_qty_conservation b = do
    total ← index_total b.arena b.id_index
    ok (total == add_u64 (total_of b.bids) (total_of b.asks))
