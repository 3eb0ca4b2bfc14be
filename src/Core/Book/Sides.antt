-- ===== src/Core/Book/Sides.antt =====
-- The two sides of the book under writes to one of them, and writes to the best level.
use order_matching_engine_ru.Prelude.{◌≡◌, refl, sym, Bool, true, false, some, ◌∷◌, if◌then◌else◌}
use order_matching_engine_ru.Prelude.Int.{eqb_ℤ_refl}
use order_matching_engine_ru.Core.Types.{Price, Side, buy, sell, opposite, Order}
use order_matching_engine_ru.Core.Slab.{Slab}
use order_matching_engine_ru.Core.Maps.{KeyOrder, BTreeMap, find, put, delete}
use order_matching_engine_ru.Core.PriceLevel.{PriceLevel, is_empty}
use order_matching_engine_ru.Core.Book.{
  OrderBook, Levels, choose, side_levels, with_levels, remove_empty,
}

module _ {V : Type 0} (p : Price) (v : V) (m : BTreeMap V) where
  pub find_head : find p ((p, v) ∷ m) ≡ some v
  unfolding find
  find_head = rw eqb_ℤ_refl

  pub put_head : (before : KeyOrder) (w : V) → put before p w ((p, v) ∷ m) ≡ (p, w) ∷ m
  unfolding put
  put_head before w = rw eqb_ℤ_refl

  pub delete_head : delete p ((p, v) ∷ m) ≡ m
  unfolding delete
  delete_head = rw eqb_ℤ_refl

pub choose-same {ℓ} :
    {A : Type ℓ} (side : Side) (x y z : A) → choose side (choose side x y) (choose side z x) ≡ x
choose-same buy x y z = refl
choose-same sell x y z = refl

module _ (S : Slab Order) where
  pub side_levels-with_levels :
      (side : Side) (m : Levels) (b : OrderBook S) → side_levels S side (with_levels S side m b) ≡ m
  side_levels-with_levels buy m b = refl
  side_levels-with_levels sell m b = refl

  pub side_levels-with_levels-opposite :
      (side : Side) (m : Levels) (b : OrderBook S)
      → side_levels S side (with_levels S (opposite side) m b) ≡ side_levels S side b
  unfolding opposite
  side_levels-with_levels-opposite buy m b = refl
  side_levels-with_levels-opposite sell m b = refl

  -- What `remove_empty_ask` and `remove_empty_bid` make of a side whose best level is at the price.
  pub remove_empty_lem :
      (side : Side) (p : Price) (l : PriceLevel) (m : Levels) (b : OrderBook S)
      → side_levels S side b ≡ (p, l) ∷ m
      → remove_empty S side p b ≡ (if is_empty l then with_levels S side m b else b)
  unfolding remove_empty
  remove_empty_lem side p l m b at =
      rw (at, find_head p l m, remove_empty) (rw (at, delete_head p l m))

  -- Writing back the levels that are there changes nothing, and of two writes the last counts.
  pub with_levels-side_levels :
      (side : Side) (b : OrderBook S) → with_levels S side (side_levels S side b) b ≡ b
  with_levels-side_levels buy b = refl
  with_levels-side_levels sell b = refl

  pub with_levels-with_levels :
      (side : Side) (m m' : Levels) (b : OrderBook S)
      → with_levels S side m (with_levels S side m' b) ≡ with_levels S side m b
  with_levels-with_levels buy m m' b = refl
  with_levels-with_levels sell m m' b = refl

  pub with_levels_if :
      (side : Side) (m : Levels) (c : Bool) (b : OrderBook S)
      → (if c then with_levels S side m b else b)
        ≡ with_levels S side (if c then m else side_levels S side b) b
  with_levels_if side m true b = refl
  with_levels_if side m false b = sym (with_levels-side_levels side b)
