-- ===== src/Core/Matcher/MatchOrder.antt =====
-- `match_order` as a whole: it ends, and it leaves what the specification leaves.
use order_matching_engine_ru.Prelude.{
  ℕ, ◌+◌, ◌-◌, ◌<◌, ◌≤◌, ◌^◌, ◌≡◌, refl, false, ◌==◌, ◌++◌, ok, arith,
}
use order_matching_engine_ru.Core.Types.{Side, Order}
use order_matching_engine_ru.Core.Slab.{Slab}
use order_matching_engine_ru.Core.Book.Chain.{has}
use order_matching_engine_ru.Core.Matcher.Ladder.{entries}
use order_matching_engine_ru.Core.Maps.{KeyOrder}
use order_matching_engine_ru.Core.Maps.Laws.{IsSorted}
use order_matching_engine_ru.Core.Book.{OrderBook, Levels, side_levels}
use order_matching_engine_ru.Core.Book.Sides.{side_levels-with_levels-opposite}
use order_matching_engine_ru.Core.Matcher.Loop.{Events, MatchState, crosses, match_order}
use order_matching_engine_ru.Core.Matcher.Sweep.{Ladder, makers, Swept, sweep, or_else, without}
use order_matching_engine_ru.Core.Matcher.Round.{after}
use order_matching_engine_ru.Core.Matcher.Refinement.{Ready, match_loop-swept}

-- The specification at an order, its own side, kind and limit.
abbrev pub sweep_of : Order → ℕ → ℕ → Ladder → Swept
sweep_of t seq ts v =
    sweep (crosses t.side t.kind t.price) t.side t.id seq ts t.remaining (makers v)

-- The book with what a sweep leaves.
abbrev pub swept_book :
    (S : Slab Order) → Side → Levels → S.Arena → Swept → OrderBook S → OrderBook S
swept_book S side levels arena w b =
    after S side levels arena (without w.fills b.id_index) (or_else w.last b.last_trade) b

module _ (S : Slab Order) (k seq ts : ℕ) (t : Order) (v : Ladder) (b : OrderBook S) (out : Events)
    (ready : Ready S t.side k t v b) (small : t.remaining < 2 ^ 64) where
  -- The run of the loop, with the book that it leaves written out.
  pub match_order-after :
      let w = sweep_of t seq ts v in
      (levels : Levels) × (arena : S.Arena) × (v' : Ladder) × (match_order S k seq ts b out
        ≡ ok (t.remaining - w.rest, swept_book S t.side levels arena w b, out ++ w.events))
      × Ready S t.side k (record t { remaining = w.rest }) v' (swept_book S t.side levels arena w b)
      × (makers v' ≡ w.left)
      × (w.rest ≤ t.remaining)
      × ((j : ℕ)
          → has j (entries v) ≡ false
          → (has j (entries v') ≡ false) × ((k == j) ≡ false → S.get arena j ≡ S.get b.arena j))
      × ((before : KeyOrder) → IsSorted before v → IsSorted before v')
  unfolding match_order
  match_order-after =
      let s : MatchState S = record { book = b; out = out; total_filled = 0 } in
      let h =
        match_loop-swept S t.side t.kind t.price k seq ts (t.remaining + 1) t v s ready
          (omega arith) (omega arith) in
      let w = sweep_of t seq ts v in
      let none_first : 0 + (t.remaining - w.rest) ≡ t.remaining - w.rest = omega arith in
      (
        h.levels,
        h.arena,
        h.ladder,
        rw (ready.taker, h.ran, none_first),
        h.ready,
        h.left,
        h.rest_le,
        λ j out. (h.within j out, λ apart. h.same j out apart),
        h.sorted,
      )

  -- On a book whose other side stands for a ladder of open orders, with the taker in the arena and
  -- outside the ladder, `match_order` returns. It fills what the sweep over the makers by price and
  -- time fills and emits its events. The other side then stands for the makers that the sweep
  -- leaves, the taker has the rest of the sweep, used up makers are out of the index, the last trade
  -- is the sweep's, and the taker's own side is unchanged.
  pub match_order-sweep :
      let w = sweep_of t seq ts v in
      (b' : OrderBook S) × (v' : Ladder) × (match_order S k seq ts b out
        ≡ ok (t.remaining - w.rest, b', out ++ w.events))
      × Ready S t.side k (record t { remaining = w.rest }) v' b'
      × (makers v' ≡ w.left)
      × (b'.id_index ≡ without w.fills b.id_index)
      × (b'.last_trade ≡ or_else w.last b.last_trade)
      × (side_levels S t.side b' ≡ side_levels S t.side b)
  match_order-sweep =
      let (levels, arena, v', run, ready', left, _, _, _) = match_order-after in
      let w = sweep_of t seq ts v in
      (
        swept_book S t.side levels arena w b,
        v',
        run,
        ready',
        left,
        refl,
        refl,
        side_levels-with_levels-opposite S t.side levels b,
      )
