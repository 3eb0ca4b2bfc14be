-- ===== src/Core/Matcher/Replace.antt =====
-- `apply_replace` on a resting order.
use order_matching_engine_ru.Prelude.{
  ℕ, ◌≡◌, refl, false, none, some, [], ◌∷◌, ◌++◌, arith, ◌==◌, ◌<◌,
}
use order_matching_engine_ru.Core.Types.{Price, Order, replaced}
use order_matching_engine_ru.Core.Slab.{Slab}
use order_matching_engine_ru.Core.Maps.{find, lookup, erase}
use order_matching_engine_ru.Core.PriceLevel.{PriceLevel}
use order_matching_engine_ru.Core.Book.{OrderBook, Location, side_levels}
use order_matching_engine_ru.Core.Book.Chain.{Entries, has}
use order_matching_engine_ru.Core.Book.Queue.{Holds, at_level_or_drop}
use order_matching_engine_ru.Core.Matcher.{apply_new, apply_replace, replacement}
use order_matching_engine_ru.Core.Matcher.TakeOut.{remove_slot-Removal}
use order_matching_engine_ru.Core.Matcher.Loop.{Events}

module _ (S : Slab Order) where
  open S use {Arena, get}

  -- Replacing an order whose index entry points at its place in the queue of a level, and says its side,
  -- by one with a quantity is to take it out of the book as a cancellation does and to submit the
  -- replacement behind a `Replaced` event. The order is out of the index and its slot is vacant before
  -- that, and the level stands for the queue without it, or is dropped if it was the last. So the
  -- replacement loses the order's place in time, whatever its price and quantity are.
  pub apply_replace-apply_new :
      (fuel id : ℕ) (new_price : Price) (new_qty seq ts : ℕ) (b : OrderBook S) (out : Events)
      (loc : Location) (l : PriceLevel) (q r : Entries) (o : Order)
      → 0 < new_qty
      → lookup id b.id_index ≡ some loc
      → o.side ≡ loc.side
      → find loc.price (side_levels S loc.side b) ≡ some l
      → Holds S b.arena l (q ++ (loc.slot, o) ∷ r)
      → (a : Arena) × (l' : PriceLevel) × (apply_replace S fuel id new_price new_qty seq ts b out
          ≡ apply_new S fuel seq ts
              (replacement S id o new_price new_qty)
              (at_level_or_drop S loc.side loc.price l' a
                (record b { id_index = erase id b.id_index }))
              (out ++ replaced id seq ∷ []))
        × Holds S a l' (q ++ r)
        × (get a loc.slot ≡ none)
        × ((j : ℕ) → has j (q ++ r) ≡ false → (loc.slot == j) ≡ false → get a j ≡ get b.arena j)
  unfolding apply_replace
  apply_replace-apply_new fuel id new_price new_qty seq ts b out loc l q r o some_qty known side at
        h =
      let b₁ : OrderBook S = record b { id_index = erase id b.id_index } in
      let empty : (new_qty == 0) ≡ false = ground (arith, some_qty) in
      let t = remove_slot-Removal S loc.side loc.price b₁ l q r loc.slot o at h in
      (
        S.remove t.arena loc.slot,
        t.level,
        rw (apply_replace, empty, known) (rw t.at (rw (side, t.ran) (rw t.there refl))),
        t.hold,
        t.gone,
        t.same,
      )
