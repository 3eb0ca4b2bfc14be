-- ===== src/Core/Whole/Done.antt =====
-- crates/core/src/matcher.rs: what `match_order` leaves for an order to take.
use order_matching_engine_ru.Prelude.{
  ℕ, ◌<◌, ◌≡◌, refl, ◌⊎◌, inl, inr, ◌-◌, ◌^◌, true, List, [], ◌∷◌, ◌++◌, ok, arith, All,
}
use order_matching_engine_ru.Prelude.Int.{◌<ℤ◌}
use order_matching_engine_ru.Core.Types.{
  Price, Side, buy, sell, opposite, Order, OrderType, limit, market, ioc, fok, stop_market,
  stop_limit, crosses_any,
}
use order_matching_engine_ru.Core.Slab.{Slab}
use order_matching_engine_ru.Core.Maps.Laws.{IsSorted}
use order_matching_engine_ru.Core.Book.{OrderBook, before, side_levels}
use order_matching_engine_ru.Core.Matcher.Loop.{Events, crosses, match_order}
use order_matching_engine_ru.Core.Matcher.Sweep.{Ladder, Maker, makers}
use order_matching_engine_ru.Core.Matcher.Sweep.Facts.{IsUncrossed, sweep-done}
use order_matching_engine_ru.Core.Matcher.Refinement.{Ready}
use order_matching_engine_ru.Core.Matcher.MatchOrder.{sweep_of, swept_book, match_order-after}
use order_matching_engine_ru.Core.Whole.Joined.{beyond-All}

-- The makers ask for more than the buyer's limit, or bid less than the seller's.
abbrev pub AllTooDear : Side → Price → List Maker → Type 0
AllTooDear buy bound ms = All (λ (m : Maker). bound <ℤ m.price) ms
AllTooDear sell bound ms = All (λ (m : Maker). m.price <ℤ bound) ms

-- A market, IOC or FOK order has no maker left; any other order has none within its limit.
abbrev pub NoneToTake : OrderType → Side → Price → List Maker → Type 0
NoneToTake market side bound ms = ms ≡ []
NoneToTake ioc side bound ms = ms ≡ []
NoneToTake fok side bound ms = ms ≡ []
NoneToTake limit side bound ms = AllTooDear side bound ms
NoneToTake stop_market side bound ms = AllTooDear side bound ms
NoneToTake stop_limit side bound ms = AllTooDear side bound ms

uncrossed-nil :
    (side : Side) (kind : OrderType) (bound : Price) (ms : List Maker)
    → crosses_any kind ≡ true
    → IsUncrossed (crosses side kind bound) ms
    → ms ≡ []
unfolding crosses
uncrossed-nil side kind bound [] any h = refl
uncrossed-nil buy kind bound (m ∷ ms) any h = ground (arith, any, h)
uncrossed-nil sell kind bound (m ∷ ms) any h = ground (arith, any, h)

too_dear :
    (side : Side) (bound : Price) (ms : List Maker)
    → All (λ (m : Maker). before (opposite side) bound m.price ≡ true) ms
    → AllTooDear side bound ms
unfolding opposite
too_dear buy bound [] h = tt
too_dear sell bound [] h = tt
too_dear buy bound (m ∷ ms) (h, hs) = (ground (arith, h), too_dear buy bound ms hs)
too_dear sell bound (m ∷ ms) (h, hs) = (ground (arith, h), too_dear sell bound ms hs)

module _ (S : Slab Order) (k seq ts : ℕ) (t : Order) (v : Ladder) (b : OrderBook S) (out : Events)
    (ready : Ready S t.side k t v b) (small : t.remaining < 2 ^ 64) where
  none_to_take :
      (v' : Ladder) (b' : OrderBook S) (rest : ℕ) (kind : OrderType)
      → Ready S t.side k (record t { remaining = rest }) v' b'
      → IsSorted (before (opposite t.side)) v'
      → IsUncrossed (crosses t.side kind t.price) (makers v')
      → NoneToTake kind t.side t.price (makers v')
  unfolding crosses_any
  none_to_take v' b' rest market r s u = uncrossed-nil t.side market t.price (makers v') refl u
  none_to_take v' b' rest ioc r s u = uncrossed-nil t.side ioc t.price (makers v') refl u
  none_to_take v' b' rest fok r s u = uncrossed-nil t.side fok t.price (makers v') refl u
  none_to_take v' b' rest kind r s u = too_dear t.side t.price (makers v') (
      beyond-All S b'.arena t.side kind t.price (side_levels S (opposite t.side) b') v' r.stands s
        u)

  -- On a book whose other side stands for a ladder of open orders in the order of its prices, with the
  -- taker in the arena and outside the ladder and less than 2 ^ 64 units left of it, `match_order`
  -- returns and leaves nothing undone. The taker has nothing left; or no maker is left, if it is a market, IOC or FOK order, and for any other kind every
  -- maker left asks for more than the limit of a buyer, or bids less than the limit of a seller.
  pub match_order-done :
      IsSorted (before (opposite t.side)) v
      → (filled rest : ℕ) × (b' : OrderBook S) × (v' : Ladder) × (es : Events) × (match_order S k
            seq ts b out
          ≡ ok (filled, b', out ++ es))
        × Ready S t.side k (record t { remaining = rest }) v' b'
        × ((rest ≡ 0) ⊎ NoneToTake t.kind t.side t.price (makers v'))
  match_order-done sorted =
      let (levels, arena, v', run, ready', left, _, _, keeps) =
        match_order-after S k seq ts t v b out ready small in
      let w = sweep_of t seq ts v in
      let b' = swept_book S t.side levels arena w b in
      let spec =
        sweep-done (crosses t.side t.kind t.price) t.side t.id seq ts t.remaining (makers v) in
      (
        t.remaining - w.rest,
        w.rest,
        b',
        v',
        w.events,
        run,
        ready',
        elim spec [
          | inl none ↦ inl none
          | inr u ↦ inr (
              none_to_take v' b' w.rest t.kind ready' (keeps (before (opposite t.side)) sorted)
                (rw left u))
        ],
      )
