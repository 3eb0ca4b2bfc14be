-- ===== src/Core/Whole/Joiner.antt =====
-- The rest of a limit order, and its side of a well-formed book with it.
use order_matching_engine_ru.Prelude.{ℕ, ◌+◌, ◌<◌, ◌^◌, ◌≡◌, ◌++◌, arith}
use order_matching_engine_ru.Core.Types.{NewOrder, new_order, Order}
use order_matching_engine_ru.Core.Slab.{Slab}
use order_matching_engine_ru.Core.Book.{OrderBook, before, side_levels}
use order_matching_engine_ru.Core.Matcher.Sweep.{Ladder, Maker, makers, queue_makers}
use order_matching_engine_ru.Core.Matcher.Sweep.Facts.{volume}
use order_matching_engine_ru.Core.Matcher.Resting.{HasRoom, rest_of}
use order_matching_engine_ru.Core.Matcher.Immediate.{sweep_for}
use order_matching_engine_ru.Core.Whole.Zoom.{Zoom, zoom}
use order_matching_engine_ru.Core.Whole.Place.{Inserted}
use order_matching_engine_ru.Core.Whole.Level.{Stands-IsSorted}
use order_matching_engine_ru.Core.Whole.Invariant.{IsBook, before-IsOrder}
use order_matching_engine_ru.Core.Whole.Exchange.{place}
use order_matching_engine_ru.Core.Whole.Offers.{offers}
use order_matching_engine_ru.Core.Whole.Joined.{
  joined, joining, joined-parts, joined-place, zoom-has, zoom-total,
}

module _ (S : Slab Order) (seq ts : ℕ) (n : NewOrder) (b : OrderBook S) (own other : Ladder)
    (h : IsBook S n.side own other b) where
  open S use {Arena, get, key}

  -- The order's own side at its price.
  pub own-Zoom :
      Zoom S (before n.side) (before-IsOrder n.side) b.arena n.price (side_levels S n.side b) own
  own-Zoom =
      zoom S (before n.side) (before-IsOrder n.side) b.arena n.price (side_levels S n.side b) own
        h.near.stands
        (Stands-IsSorted S (before n.side) b.arena (side_levels S n.side b) own h.near.stands
          h.near.sorted)
        h.near.sorted

  module _
      (z : Zoom S
        (before n.side)
        (before-IsOrder n.side)
        b.arena
        n.price
        (side_levels S n.side b)
        own) where
    pub room : volume (makers own) + n.qty < 2 ^ 64 → HasRoom S n other z.queue b
    room fits = record {
      own = z.level;
      apart = λ j inside.
          h.apart j
            (ground (arith, inside, zoom-has j n.price z.better z.queue z.worse own z.whole));
      fits = omega (arith, fits, zoom-total n.price z.better z.queue z.worse own z.whole);
    }

    -- The order that rests, and its side then.
    abbrev pub resting_order : Order
    resting_order = rest_of n seq ts (sweep_for n seq ts other).rest

    abbrev pub own_after : Ladder
    own_after = joined n.price (key b.arena) resting_order z.better z.queue z.worse

    abbrev pub joiner : Maker
    joiner = joining n.price (key b.arena) resting_order

    pub own-Inserted : Inserted own own_after joiner
    own-Inserted =
        let (old, new) =
          joined-parts n.price (key b.arena) resting_order z.better z.queue z.worse own z.whole in
        (makers z.better ++ queue_makers n.price z.queue, makers z.worse, old, new)

    -- The market places the rest of the order where the book has it.
    pub own_after-offers :
        place n.side
          (record { id = n.id; price = n.price; qty = (sweep_for n seq ts other).rest })
          (offers (makers own))
        ≡ offers (makers own_after)
    unfolding new_order
    own_after-offers =
        joined-place n.side n.price (key b.arena) resting_order S b.arena (side_levels S n.side b)
          own z
