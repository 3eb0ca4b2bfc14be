-- ===== src/Core/Matcher/TakeOut.antt =====
-- crates/core/src/matcher.rs: the step that `apply_cancel` and `apply_replace` share, which takes a
-- resting order out of its level and out of the arena.
use order_matching_engine_ru.Prelude.{ℕ, ◌≡◌, ◌∙◌, false, none, some, ◌∷◌, ◌++◌, arith, ok, ◌==◌}
use order_matching_engine_ru.Core.Types.{Price, Side, Order}
use order_matching_engine_ru.Core.Slab.{Slab}
use order_matching_engine_ru.Core.Maps.{find}
use order_matching_engine_ru.Core.PriceLevel.{PriceLevel}
use order_matching_engine_ru.Core.Book.{OrderBook, side_levels, remove_slot}
use order_matching_engine_ru.Core.Book.Chain.{Entries, linked, first, final, has, Chain-split}
use order_matching_engine_ru.Core.Book.Queue.{
  Holds, at_level_or_drop, remove_slot-append, IsDistinct-split, has-append,
}
use order_matching_engine_ru.Core.Matcher.Ladder.{Holds-frame}

module _ (S : Slab Order) where
  open S use {Arena, get}

  -- The order's cell, then the arena behind `remove_slot` and the level that the order has left, the arena
  -- without the order, and the cells of other orders.
  pub record Removal (side : Side) (price : Price) (b : OrderBook S) (q r : Entries) (s : ℕ)
      (o : Order) : Type 0 where
    pub arena : Arena
    pub level : PriceLevel
    pub at : get b.arena s ≡ some (linked (final none q) (first r none) o)
    pub ran :
        remove_slot S s side price o.remaining b ≡ ok (at_level_or_drop S side price level arena b)
    pub there : get arena s ≡ some (linked (final none q) (first r none) o)
    pub hold : Holds S (S.remove arena s) level (q ++ r)
    pub gone : get (S.remove arena s) s ≡ none
    pub same :
        (j : ℕ)
        → has j (q ++ r) ≡ false
        → (s == j) ≡ false
        → get (S.remove arena s) j ≡ get b.arena j

  pub remove_slot-Removal :
      (side : Side) (price : Price) (b : OrderBook S) (l : PriceLevel) (q r : Entries) (s : ℕ)
      (o : Order)
      → find price (side_levels S side b) ≡ some l
      → Holds S b.arena l (q ++ (s, o) ∷ r)
      → Removal side price b q r s o
  remove_slot-Removal side price b l q r s o at h =
      let (_, (cell, _)) = Chain-split S b.arena none q ((s, o) ∷ r) none h.chain in
      let (_, (out_r, _), apart) = IsDistinct-split q ((s, o) ∷ r) h.distinct in
      let gone : has s (q ++ r) ≡ false = ground (arith, has-append s q r, apart s, out_r) in
      let (a, l', run, hold, same) = remove_slot-append S side price b l q r s o at h in
      let there = same s gone ∙ cell in
      let removed = λ (j : ℕ). S.get-remove a s j there in
      record {
        arena = a;
        level = l';
        at = cell;
        ran = run;
        there = there;
        hold =
            Holds-frame S a (S.remove a s) l' (q ++ r) (λ j k. ground (arith, removed j, gone))
              hold;
        gone = ground (arith, removed s);
        same = λ j out other. ground (arith, removed j, same j out, other);
      }
