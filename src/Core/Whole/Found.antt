-- ===== src/Core/Whole/Found.antt =====
-- crates/core/src/book.rs: a resting order of a well-formed book, by its id.
use order_matching_engine_ru.Prelude.{
  ℕ, ◌≡◌, refl, ap, ◌∙◌, true, false, some, List, [], ◌∷◌, ◌++◌, arith, ◌==◌, if◌then◌else◌, inl,
  inr, Bool-cases,
}
use mathlib.Core.Path.{subst}
use order_matching_engine_ru.Core.Types.{Price, Side, Order}
use order_matching_engine_ru.Core.Slab.{Slab}
use order_matching_engine_ru.Core.PriceLevel.{PriceLevel, is_none, is_empty}
use order_matching_engine_ru.Core.Maps.{HashMap, lookup, find}
use order_matching_engine_ru.Core.Book.{
  OrderBook, Levels, Location, before, side_levels, level_or_new,
}
use order_matching_engine_ru.Core.Book.Chain.{Entries}
use order_matching_engine_ru.Core.Book.Queue.{Holds}
use order_matching_engine_ru.Core.Matcher.Ladder.{rung, Stands}
use order_matching_engine_ru.Core.Matcher.Sweep.{Ladder, Maker, makers}
use order_matching_engine_ru.Core.Whole.Zoom.{Zoom, zoom}
use order_matching_engine_ru.Core.Whole.Kept.{has_id, place_of, AllKept}
use order_matching_engine_ru.Core.Whole.Level.{Stands-IsSorted}
use order_matching_engine_ru.Core.Whole.Invariant.{IsBook, before-IsOrder}
use order_matching_engine_ru.Core.Whole.Located.{Split, locate, level-some}

-- A maker of the id, if there is one, with its place.
known_place :
    (side : Side) (ids : HashMap Location) (id : ℕ) (ms : List Maker)
    → AllKept side ids ms
    → has_id id ms ≡ true
    → (loc : Location) × (lookup id ids ≡ some loc)
known_place side ids id [] a inside = absurd cc
known_place side ids id (m ∷ ms) (h, a) inside = elim (Bool-cases (m.order.id == id)) [
  | inl same ↦
      let e : id ≡ m.order.id = ground (arith, same) in
      (place_of side m, ap (λ (j : ℕ). lookup j ids) e ∙ h.known)
  | inr other ↦ known_place side ids id ms a (ground (arith, inside, other))
]

module _ (S : Slab Order) where
  open S use {Arena, get}

  -- A level in front of a side, if its queue has an order.
  pub rung-Stands :
      (a : Arena) (p : Price) (l : PriceLevel) (q : Entries) (m : Levels) (v : Ladder)
      → Holds S a l q
      → Stands S a m v
      → Stands S a ((if is_empty l then [] else (p, l) ∷ []) ++ m) (rung p q v)
  unfolding is_empty
  rung-Stands a p l [] m v h hs = rw h.sums.head hs
  rung-Stands a p l (e ∷ q) m v h hs =
      let full : is_empty l ≡ false = ap is_none h.sums.head in rw full (refl, h, hs)

  -- An order of the id on a side: its price, its place in the queue and its level.
  pub record Found (side : Side) (own : Ladder) (b : OrderBook S) (id : ℕ) : Type 0 where
    pub price : Price
    pub zoomed : Zoom S (before side) (before-IsOrder side) b.arena price (side_levels S side b) own
    pub split : Split id zoomed.queue
    pub level : PriceLevel
    pub at : find price (side_levels S side b) ≡ some level
    pub hold : Holds S b.arena level (split.ahead ++ (split.slot, split.order) ∷ split.behind)

  module _ (side : Side) (own other : Ladder) (b : OrderBook S) (h : IsBook S side own other b)
      (id : ℕ) where
    pub find_order : has_id id (makers own) ≡ true → Found side own b id
    find_order inside =
        let (loc, known) = known_place side b.id_index id (makers own) h.near.kept inside in
        let levels = side_levels S side b in
        let z =
          zoom S (before side) (before-IsOrder side) b.arena loc.price levels own h.near.stands
            (Stands-IsSorted S (before side) b.arena levels own h.near.stands h.near.sorted)
            h.near.sorted in
        let t =
          locate S (before side) (before-IsOrder side) side b.id_index id loc b.arena levels own z
            h.near.kept known inside in
        let (l, at, hold) =
          level-some S (before side) (before-IsOrder side) b.arena loc.price levels t.ahead t.behind
            (t.slot, t.order)
            (subst (λ q. Holds S b.arena (level_or_new (find loc.price levels)) q) t.whole
              z.level) in
        record { price = loc.price; zoomed = z; split = t; level = l; at = at; hold = hold }
