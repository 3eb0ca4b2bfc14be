-- ===== src/Core/Matcher/Cancel.antt =====
-- `apply_cancel` on a resting order.
use order_matching_engine_ru.Prelude.{ℕ, ◌≡◌, refl, ◌==◌, false, none, some, [], ◌∷◌, ◌++◌, ok}
use order_matching_engine_ru.Core.Types.{Order, cancelled}
use order_matching_engine_ru.Core.Slab.{Slab}
use order_matching_engine_ru.Core.Maps.{find, lookup, erase}
use order_matching_engine_ru.Core.PriceLevel.{PriceLevel}
use order_matching_engine_ru.Core.Book.{OrderBook, Location, side_levels}
use order_matching_engine_ru.Core.Book.Chain.{Entries, has}
use order_matching_engine_ru.Core.Book.Queue.{Holds, at_level_or_drop}
use order_matching_engine_ru.Core.Matcher.{apply_cancel}
use order_matching_engine_ru.Core.Matcher.TakeOut.{remove_slot-Removal}
use order_matching_engine_ru.Core.Matcher.Loop.{Events}

module _ (S : Slab Order) where
  open S use {Arena, get}

  -- Cancelling an order whose index entry points at its place in the queue of a level succeeds and
  -- emits `Cancelled`. The order is out of the index and its slot is vacant. The level stands for the
  -- queue without it, the other orders in their places, and is dropped if it was the last. Nothing
  -- else of the book changes, nor a cell outside that queue.
  pub apply_cancel-append :
      (id seq : ℕ) (b : OrderBook S) (out : Events) (loc : Location) (l : PriceLevel)
      (q r : Entries) (o : Order)
      → lookup id b.id_index ≡ some loc
      → find loc.price (side_levels S loc.side b) ≡ some l
      → Holds S b.arena l (q ++ (loc.slot, o) ∷ r)
      → (a : Arena) × (l' : PriceLevel) × (apply_cancel S id seq b out
          ≡ ok (
            at_level_or_drop S loc.side loc.price l' a
                (record b { id_index = erase id b.id_index }),
            out ++ cancelled id seq ∷ [],
          ))
        × Holds S a l' (q ++ r)
        × (get a loc.slot ≡ none)
        × ((j : ℕ) → has j (q ++ r) ≡ false → (loc.slot == j) ≡ false → get a j ≡ get b.arena j)
  unfolding apply_cancel
  apply_cancel-append id seq b out loc l q r o known at h =
      let b₁ : OrderBook S = record b { id_index = erase id b.id_index } in
      let t = remove_slot-Removal S loc.side loc.price b₁ l q r loc.slot o at h in
      (
        S.remove t.arena loc.slot,
        t.level,
        rw (apply_cancel, known) (rw (t.at, t.ran) (rw t.there refl)),
        t.hold,
        t.gone,
        t.same,
      )
