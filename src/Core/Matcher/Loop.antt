-- ===== src/Core/Matcher/Loop.antt =====
-- crates/core/src/matcher.rs: `match_order`, `reinsert_at_head` and `available_qty`.
use order_matching_engine_ru.Prelude.{
  ℕ, zero, suc, ◌+◌, ◌-◌, min, Bool, ◌||◌, Option, none, some, List, [], ◌∷◌, ◌++◌, Outcome, ok,
  out_of_fuel, ◌>>=◌, ◌==◌, if◌then◌else◌, add_u64, saturating_add,
}
use order_matching_engine_ru.Prelude.Int.{ltb_ℤ, leb_ℤ}
use order_matching_engine_ru.Core.Types.{
  Price, Side, buy, sell, opposite, Order, OrderType, OutputEvent, trade, filled, partially_filled,
  crosses_any,
}
use order_matching_engine_ru.Core.Slab.{Slab, index, modify, take_out}
use order_matching_engine_ru.Core.Maps.{find, put, erase}
use order_matching_engine_ru.Core.PriceLevel.{PriceLevel}
use order_matching_engine_ru.Core.Book.{
  OrderBook, Levels, before, level_or_new, side_levels, with_levels, set_prev, pop_head,
  remove_empty,
}

abbrev pub Events : Type 0
Events = List OutputEvent

-- Whether an aggressor of this kind and limit trades at the maker's price.
unfoldable pub crosses : Side → OrderType → Price → Price → Bool
unfolding crosses_any
crosses buy kind limit p = crosses_any kind || leb_ℤ p limit
crosses sell kind limit p = crosses_any kind || leb_ℤ limit p

abbrev pub tail_or : Option ℕ → ℕ → Option ℕ
tail_or none slot = some slot
tail_or (some t) slot = some t

-- Where the loop over one side of the book stops.
abbrev pub beyond : Side → Price → Price → Bool
beyond buy limit p = ltb_ℤ limit p
beyond sell limit p = ltb_ℤ p limit

unfoldable pub available_in : Side → Price → Levels → ℕ → ℕ
available_in side limit [] total = total
available_in side limit ((p, l) ∷ m) total =
    let more = available_in side limit m (saturating_add total l.total_qty) in
    if beyond side limit p then total else more

module _ (S : Slab Order) where
  -- What the quantity is that `side` can take at its limit or better.
  unfoldable pub available_qty : Side → Price → OrderBook S → ℕ
  unfolding available_in opposite
  available_qty side limit b = available_in side limit (side_levels S (opposite side) b) 0

  unfoldable pub reinsert_at_head : ℕ → Price → Side → OrderBook S → Outcome (OrderBook S)
  unfolding index modify set_prev put
  reinsert_at_head slot price side b = do
    a ← modify S b.arena slot (λ o. record o { prev = none })
    let levels = side_levels S side b
    let level = level_or_new (find price levels)
    order ← index S a slot
    let led : PriceLevel = record level {
      head = some slot;
      tail = tail_or level.tail slot;
      total_qty = add_u64 level.total_qty order.remaining;
      count = add_u64 level.count 1;
    }
    a ← modify S a slot (λ o. record o { next = level.head })
    a ← set_prev S level.head (some slot) a
    ok (with_levels S side (put (before side) price led levels) (record b { arena = a }))

  -- The variables of the loop, with the arguments that it leaves alone beside it.
  pub record MatchState : Type 0 where
    pub book : OrderBook S
    pub out : Events
    pub total_filled : ℕ

  pub data Round : Type 0 where
    done : MatchState → Round
    again : MatchState → Round

  -- What happens to the maker after the trade, by what is left of it.
  unfoldable pub settle_maker :
      Side → Price → ℕ → Order → ℕ → ℕ → OrderBook S → Events → Outcome (OrderBook S × Events)
  unfolding take_out erase
  settle_maker side price slot maker traded seq b out =
      if maker.remaining == 0
      then (do
        a ← take_out S b.arena slot
        ok (
          remove_empty S (opposite side) price
              (record b { id_index = erase maker.id b.id_index; arena = a }),
          out ++ filled maker.id seq ∷ [],
        ))
      else (do
        b ← reinsert_at_head slot price (opposite side) b
        ok (b, out ++ partially_filled maker.id traded maker.remaining seq ∷ []))

  -- The trade with a popped maker. `trade_qty` is at most what either order has left, so the
  -- subtractions do not wrap.
  unfoldable pub trade_with : ℕ → Side → Price → ℕ → ℕ → ℕ → MatchState → Outcome MatchState
  unfolding index modify
  trade_with slot side price maker_slot seq ts s = do
    let b = s.book
    taker ← index S b.arena slot
    maker ← index S b.arena maker_slot
    let trade_qty = min taker.remaining maker.remaining
    a ← modify S b.arena slot (λ o. record o { remaining = o.remaining - trade_qty })
    a ← modify S a maker_slot (λ o. record o { remaining = o.remaining - trade_qty })
    taker ← index S a slot
    maker ← index S a maker_slot
    (b, out) ←
        settle_maker side price maker_slot maker trade_qty seq
          (record b { arena = a; last_trade = some price })
          (s.out ++ trade seq taker.id maker.id price trade_qty side ts ∷ [])
    ok (record { book = b; out = out; total_filled = add_u64 s.total_filled trade_qty })

  unfoldable pub match_at : ℕ → Side → Price → ℕ → ℕ → MatchState → Outcome Round
  unfolding pop_head trade_with opposite
  match_at slot side price seq ts s = do
    (popped, b) ← pop_head S (opposite side) price s.book
    let s : MatchState = record s { book = b }
    elim popped [
      | none ↦ ok (done s)
      | some maker_slot ↦ do s ← trade_with slot side price maker_slot seq ts s; ok (again s)
    ]

  -- One round of the loop against the best level of the other side.
  unfoldable pub match_best :
      ℕ → Side → OrderType → Price → ℕ → ℕ → Levels → MatchState → Outcome Round
  unfolding crosses match_at
  match_best slot side kind limit seq ts [] s = ok (done s)
  match_best slot side kind limit seq ts ((p, _) ∷ _) s =
      if crosses side kind limit p then match_at slot side p seq ts s else ok (done s)

  unfoldable pub match_round : ℕ → Side → OrderType → Price → ℕ → ℕ → MatchState → Outcome Round
  unfolding index match_best opposite
  match_round slot side kind limit seq ts s = do
    order ← index S s.book.arena slot
    if order.remaining == 0
        then ok (done s)
        else match_best slot side kind limit seq ts (side_levels S (opposite side) s.book) s

  unfoldable pub match_loop :
      ℕ → ℕ → Side → OrderType → Price → ℕ → ℕ → MatchState → Outcome MatchState
  unfolding match_round
  match_loop zero slot side kind limit seq ts s = out_of_fuel
  match_loop (suc fuel) slot side kind limit seq ts s = do
    round ← match_round slot side kind limit seq ts s
    elim round [ done s ↦ ok s | again s ↦ match_loop fuel slot side kind limit seq ts s ]

  -- Each round trades at least one unit, so the aggressor's quantity bounds the rounds.
  unfoldable pub match_order : ℕ → ℕ → ℕ → OrderBook S → Events → Outcome (ℕ × OrderBook S × Events)
  unfolding index match_loop
  match_order slot seq ts b out = do
    order ← index S b.arena slot
    s ←
        match_loop (order.remaining + 1) slot order.side order.kind order.price seq ts
          (record { book = b; out = out; total_filled = 0 })
    ok (s.total_filled, s.book, s.out)
