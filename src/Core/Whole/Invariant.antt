-- ===== src/Core/Whole/Invariant.antt =====
-- crates/core/src/book.rs: a well-formed book.
use order_matching_engine_ru.Prelude.{ℕ, ◌≡◌, true, some, [], ◌∷◌, ◌++◌, arith, List, All, ◌+◌}
use order_matching_engine_ru.Core.Types.{Side, opposite, Order}
use order_matching_engine_ru.Core.Slab.{Slab}
use order_matching_engine_ru.Core.Maps.{lookup}
use order_matching_engine_ru.Core.Maps.Laws.{
  IsOrder, IsSorted, ascending-IsOrder, descending-IsOrder,
}
use order_matching_engine_ru.Core.Book.{OrderBook, Location, before, side_levels}
use order_matching_engine_ru.Core.Book.Chain.{AreApart, IsDistinct}
use order_matching_engine_ru.Core.Matcher.Ladder.{entries, Stands}
use order_matching_engine_ru.Core.Matcher.Sweep.{Ladder, Maker, makers}
use order_matching_engine_ru.Core.Matcher.Sweep.Facts.{volume}
use order_matching_engine_ru.Core.Matcher.Immediate.{HasNoStops}
use order_matching_engine_ru.Core.Whole.Unique.{IsUnique}
use order_matching_engine_ru.Core.Whole.Kept.{has_id, AllKept, has_id-append}

pub before-IsOrder : (side : Side) → IsOrder (before side)
before-IsOrder Side.buy = descending-IsOrder
before-IsOrder Side.sell = ascending-IsOrder

-- No maker of the first list trades with one of the second, if the second is of the given side.
abbrev pub AreUncrossed : Side → List Maker → List Maker → Type 0
AreUncrossed side ms ms' =
    All (λ (m : Maker). All (λ (m' : Maker). before side m.price m'.price ≡ true) ms') ms

-- What rests on both sides together.
abbrev pub resting : Ladder → Ladder → ℕ
resting own other = volume (makers own) + volume (makers other)

module _ (S : Slab Order) where
  -- A side of the book stands for a ladder of limit orders, its prices in order, every order at its
  -- place in the index.
  pub record IsSide (side : Side) (v : Ladder) (b : OrderBook S) : Type 0 where
    pub stands : Stands S b.arena (side_levels S side b) v
    pub sorted : IsSorted (before side) v
    pub distinct : IsDistinct (entries v)
    pub kept : AllKept side b.id_index (makers v)

  -- A book without stop orders whose two sides stand for ladders, seen from one side: no slot is in
  -- both, no price of one side reaches one of the other, every id of the index is a resting order's, and none
  -- has two entries.
  pub record IsBook (side : Side) (own other : Ladder) (b : OrderBook S) : Type 0 where
    pub near : IsSide side own b
    pub far : IsSide (opposite side) other b
    pub apart : AreApart (entries own) (entries other)
    pub uncrossed : AreUncrossed (opposite side) (makers own) (makers other)
    pub listed :
        (id : ℕ) (loc : Location)
        → lookup id b.id_index ≡ some loc
        → has_id id (makers own ++ makers other) ≡ true
    pub unique : IsUnique b.id_index
    pub stops : HasNoStops S b

AllUncrossed_nil : (side : Side) (ms : List Maker) → AreUncrossed side ms []
AllUncrossed_nil side [] = tt
AllUncrossed_nil side (m ∷ ms) = (tt, AllUncrossed_nil side ms)

-- The other way round, one maker more in the second list.
AreUncrossed-cons :
    (side : Side) (m : Maker) (ms ms' : List Maker)
    → All (λ (m' : Maker). before side m'.price m.price ≡ true) ms
    → AreUncrossed side ms ms'
    → AreUncrossed side ms (m ∷ ms')
AreUncrossed-cons side m [] ms' h a = tt
AreUncrossed-cons side m (m' ∷ ms) ms' (h, more) (a, b) =
    ((h, a), AreUncrossed-cons side m ms ms' more b)

All-flip :
    (side : Side) (m : Maker) (ms : List Maker)
    → All (λ (m' : Maker). before (opposite side) m.price m'.price ≡ true) ms
    → All (λ (m' : Maker). before side m'.price m.price ≡ true) ms
unfolding opposite
All-flip side m [] a = tt
All-flip Side.buy m (m' ∷ ms) (h, a) = (h, All-flip Side.buy m ms a)
All-flip Side.sell m (m' ∷ ms) (h, a) = (h, All-flip Side.sell m ms a)

pub AreUncrossed-turn :
    (side : Side) (ms ms' : List Maker)
    → AreUncrossed (opposite side) ms ms'
    → AreUncrossed side ms' ms
AreUncrossed-turn side [] ms' a = AllUncrossed_nil side ms'
AreUncrossed-turn side (m ∷ ms) ms' (h, a) =
    AreUncrossed-cons side m ms' ms (All-flip side m ms' h) (AreUncrossed-turn side ms ms' a)

module _ (S : Slab Order) where
  -- The same book seen from the other side.
  pub turned :
      (side : Side) (own other : Ladder) (b : OrderBook S)
      → IsBook S side own other b
      → IsBook S (opposite side) other own b
  unfolding opposite
  turned Side.buy own other b h = record {
    near = h.far;
    far = h.near;
    apart = λ j out. ground (arith, h.apart j);
    uncrossed = AreUncrossed-turn Side.buy (makers own) (makers other) h.uncrossed;
    listed = λ id loc at. ground (
      arith,
      h.listed id loc at,
      has_id-append id (makers own) (makers other),
      has_id-append id (makers other) (makers own),
    );
    unique = h.unique;
    stops = h.stops;
  }
  turned Side.sell own other b h = record {
    near = h.far;
    far = h.near;
    apart = λ j out. ground (arith, h.apart j);
    uncrossed = AreUncrossed-turn Side.sell (makers own) (makers other) h.uncrossed;
    listed = λ id loc at. ground (
      arith,
      h.listed id loc at,
      has_id-append id (makers own) (makers other),
      has_id-append id (makers other) (makers own),
    );
    unique = h.unique;
    stops = h.stops;
  }
