-- ===== src/Core/Matcher/Immediate.antt =====
-- `apply_new` on orders that do not rest: no stop orders wait, and the order is filled or its kind does
-- not stay in the book.
pub mod Admission
pub mod Ending
pub use Admission.{sweep_for, IsOpen, HasNoStops, IsAdmitted}
pub use Ending.{ending}
use Admission.{lookup-without, placed, placed-Ready, apply_new-execute, side_levels-placed}
use Ending.{check_stops_none, index_after, finish-ending}
use order_matching_engine_ru.Prelude.{
  ℕ, zero, suc, ◌+◌, ◌-◌, ◌≤◌, ◌<◌, ◌^◌, ◌≡◌, refl, sym, ap, ◌∙◌, ◌⊎◌, inl, inr, Bool, true, false,
  ◌&&◌, Option, none, some, List, [], ◌∷◌, ◌++◌, arith, ok, ◌>>=◌, ◌==◌, ltb, if◌then◌else◌,
  Bool-cases,
}
use mathlib.Core.Path.{subst}
use mathlib.Core.List.{append_assoc}
use order_matching_engine_ru.Prelude.Int.{pos, leb_ℤ}
use order_matching_engine_ru.Core.Types.{
  Price, Side, opposite, Order, NewOrder, new_order, accepted, filled, partially_filled, cancelled,
  has_limit_price, is_stop, is_fok,
}
use order_matching_engine_ru.Core.Slab.{Slab, index, take_out}
use order_matching_engine_ru.Core.Maps.{KeyOrder, HashMap, lookup, erase}
use order_matching_engine_ru.Core.Maps.Laws.{lookup-erase, IsSorted}
use order_matching_engine_ru.Core.Book.{OrderBook, Levels, side_levels}
use order_matching_engine_ru.Core.Book.Sides.{side_levels-with_levels-opposite}
use order_matching_engine_ru.Core.Book.Chain.{Entries, linked, first, has, Chain, IsDistinct}
use order_matching_engine_ru.Core.Book.Queue.{Holds, has-append}
use order_matching_engine_ru.Core.Matcher.{
  Result, is_limit, settle, finish, check_stops, trigger_stops, execute, apply_new_with, apply_new,
}
use order_matching_engine_ru.Core.Matcher.Loop.{Events, available_qty, crosses, match_order}
use order_matching_engine_ru.Core.Matcher.Sweep.{
  Ladder, Maker, Swept, makers, sweep, or_else, without,
}
use order_matching_engine_ru.Core.Matcher.Ladder.{entries, AllOpen, Stands, Stands-frame}
use order_matching_engine_ru.Core.Matcher.Refinement.{Ready}
use order_matching_engine_ru.Core.Matcher.MatchOrder.{sweep_of, swept_book, match_order-after}

module _ (S : Slab Order) where
  open S use {Arena, get, key}

  pub side_levels_same :
      (side : Side) (b b' : OrderBook S)
      → b'.bids ≡ b.bids
      → b'.asks ≡ b.asks
      → side_levels S side b' ≡ side_levels S side b
  side_levels_same Side.buy b b' bids asks = bids
  side_levels_same Side.sell b b' bids asks = asks

  -- The book when the order has left the arena.
  abbrev pub ended : NewOrder → ℕ → ℕ → OrderBook S → OrderBook S
  ended n k rest b = record (index_after S n.id rest b) { arena = S.remove b.arena k }

  pub ended-IsOpen :
      (n : NewOrder) (k rest : ℕ) (t : Order) (v : Ladder) (b : OrderBook S)
      → Ready S n.side k t v b
      → IsOpen S n.side v (ended n k rest b)
  ended-IsOpen n k rest t v b h = record {
    stands =
        subst (λ m. Stands S (S.remove b.arena k) m v)
          (sym (side_levels_same (opposite n.side) b (ended n k rest b) refl refl))
          (Stands-frame S b.arena (S.remove b.arena k) (side_levels S (opposite n.side) b) v
            (λ j inside. ground (arith, S.get-remove b.arena k j h.taker, inside, h.outside))
            h.stands);
    distinct = h.distinct;
    all_open = h.all_open;
  }

  pub execute-ended :
      (submit : NewOrder → OrderBook S → Events → Result S) (seq ts : ℕ) (n : NewOrder)
      (b : OrderBook S) (v : Ladder) (out : Events)
      → n.qty < 2 ^ 64
      → 0 < n.qty
      → IsOpen S n.side v b
      → HasNoStops S b
      → (is_limit n.kind ≡ false) ⊎ ((sweep_for n seq ts v).rest ≡ 0)
      → let w = sweep_for n seq ts v in
        (levels : Levels) × (arena : Arena) × (v' : Ladder) × (execute S submit n seq ts b out
          ≡ ok (
            ended n (key b.arena) w.rest (swept_book S n.side levels arena w (placed S n seq ts b)),
            out ++ w.events ++ ending n.id seq (n.qty - w.rest) w.rest,
          ))
        × Ready S n.side
            (key b.arena)
            (record (new_order n seq ts) { remaining = w.rest })
            v'
            (swept_book S n.side levels arena w (placed S n seq ts b))
        × (makers v' ≡ w.left)
        × ((j : ℕ)
            → has j (entries v) ≡ false
            → (has j (entries v') ≡ false)
              × ((key b.arena == j) ≡ false → get arena j ≡ get (placed S n seq ts b).arena j))
        × ((before : KeyOrder) → IsSorted before v → IsSorted before v')
  unfolding execute new_order
  execute-ended submit seq ts n b v out small some_qty h stops why =
      let k = key b.arena in
      let w = sweep_for n seq ts v in
      let (levels, arena, v', run, ready, left, le, same, sorted) =
        match_order-after S k seq ts (new_order n seq ts) v (placed S n seq ts b) out
          (placed-Ready S n seq ts b v h) small in
      let b₁ = swept_book S n.side levels arena w (placed S n seq ts b) in
      let fin =
        finish-ending S n k seq (n.qty - w.rest)
          (record (new_order n seq ts) { remaining = w.rest }) b₁ (out ++ w.events) ready.taker
          (λ done. omega (arith, done, some_qty)) why in
      (
        levels,
        arena,
        v',
        rw (run, fin)
            (check_stops_none S submit (ended n k w.rest b₁)
              (out ++ w.events ++ ending n.id seq (n.qty - w.rest) w.rest)
              (record { buys = stops.buys; sells = stops.sells })),
        ready,
        left,
        same,
        sorted,
      )

  abbrev pub traded : Arena → Swept → OrderBook S → OrderBook S
  traded arena w b = record b {
    arena = arena;
    id_index = without w.fills b.id_index;
    last_trade = or_else w.last b.last_trade;
  }

  ended-lookup :
      (n : NewOrder) (k : ℕ) (w : Swept) (side : Side) (levels : Levels) (arena : Arena)
      (b : OrderBook S)
      → lookup n.id b.id_index ≡ none
      → lookup n.id (ended n k w.rest (swept_book S side levels arena w b)).id_index ≡ none
  ended-lookup n k w side levels arena b new =
      let gone = lookup-without n.id w.fills b.id_index new in
      ground (arith, gone, lookup-erase n.id n.id (without w.fills b.id_index))

  -- With no stop order waiting and the other side a ladder of open orders, an order that the checks let
  -- through does not rest if its kind is not a limit order's, or if the makers can fill it. Then
  -- `apply_new` returns, and does the following. After the acknowledgement come the events of the sweep
  -- over the makers by price and time, and then those of the end: `Filled`, or `Cancelled` with
  -- `PartiallyFilled` before it if there was a trade. The other side stands for the makers that the sweep
  -- leaves, the order's own side is unchanged, the order is neither in the index nor in the arena, still no
  -- stop order waits, and the last trade is the sweep's.
  pub apply_new-ending :
      (fuel seq ts : ℕ) (n : NewOrder) (b : OrderBook S) (v : Ladder) (out : Events)
      → IsAdmitted S n b
      → IsOpen S n.side v b
      → HasNoStops S b
      → (is_limit n.kind ≡ false) ⊎ ((sweep_for n seq ts v).rest ≡ 0)
      → let w = sweep_for n seq ts v in
        (b' : OrderBook S) × (v' : Ladder) × (apply_new S (suc fuel) seq ts n b out
          ≡ ok (
            b',
            out ++ accepted n.id seq ∷ [] ++ w.events ++ ending n.id seq (n.qty - w.rest) w.rest,
          ))
        × IsOpen S n.side v' b'
        × (makers v' ≡ w.left)
        × (side_levels S n.side b' ≡ side_levels S n.side b)
        × (lookup n.id b'.id_index ≡ none)
        × (get b'.arena (key b.arena) ≡ none)
        × HasNoStops S b'
        × (b'.last_trade ≡ or_else w.last b.last_trade)
  apply_new-ending fuel seq ts n b v out g h stops why =
      let k = key b.arena in
      let w = sweep_for n seq ts v in
      let (levels, arena, v', run, ready, left, _, _) =
        execute-ended (apply_new S fuel seq ts) seq ts n b v (out ++ accepted n.id seq ∷ []) g.small
          g.some_qty h stops why in
      let p = placed S n seq ts b in
      let b₁ = swept_book S n.side levels arena w p in
      (
        ended n k w.rest b₁,
        v',
        apply_new-execute S fuel seq ts n b out g ∙ run,
        ended-IsOpen n k w.rest (record (new_order n seq ts) { remaining = w.rest }) v' b₁ ready,
        left,
        side_levels_same n.side b₁ (ended n k w.rest b₁) refl refl
            ∙ side_levels-with_levels-opposite S n.side levels (traded arena w p)
            ∙ side_levels_same n.side b (traded arena w p) refl refl,
        ended-lookup n k w n.side levels arena (placed S n seq ts b) g.new,
        ground (arith, S.get-remove arena k k ready.taker),
        record { buys = stops.buys; sells = stops.sells },
        refl,
      )
