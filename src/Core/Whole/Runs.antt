-- ===== src/Core/Whole/Runs.antt =====
-- crates/core/src/matcher.rs: any number of commands, from an empty book on.
use order_matching_engine_ru.Prelude.{
  ℕ, suc, ◌+◌, ◌<◌, ◌^◌, ◌≡◌, refl, sym, ap, ◌∙◌, true, false, List, [], ◌∷◌, ◌++◌, arith, ok,
  ◌>>=◌, All,
}
use mathlib.Core.List.{append-nil, append_assoc}
use order_matching_engine_ru.Core.Types.{Price, Side, Order, Sequenced, opposite}
use order_matching_engine_ru.Core.Slab.{Slab}
use order_matching_engine_ru.Core.Maps.{lookup}
use order_matching_engine_ru.Core.Book.{
  OrderBook, Levels, new, not_crossed, best_of, best_bid, best_ask, check_no_cross,
  check_qty_conservation,
}
use order_matching_engine_ru.Core.Matcher.{Result, apply}
use order_matching_engine_ru.Core.Matcher.Loop.{Events}
use order_matching_engine_ru.Core.Matcher.Ladder.{Stands}
use order_matching_engine_ru.Core.Matcher.Sweep.{Ladder, makers}
use order_matching_engine_ru.Core.Whole.Invariant.{IsBook, AreUncrossed, resting}
use order_matching_engine_ru.Core.Whole.Quantity.{IsBook-check_qty_conservation}
use order_matching_engine_ru.Core.Whole.Exchange.{
  exchange, exchange_all, empty_market, qty_of_all, submits_stop,
}
use order_matching_engine_ru.Core.Whole.Commands.{apply-exchange}
use order_matching_engine_ru.Core.Whole.Trades.{market, Trades}

-- Stop orders aside.
abbrev pub HasNoStopOrders : List Sequenced → Type 0
HasNoStopOrders cs = All (λ (c : Sequenced). submits_stop c.cmd ≡ false) cs

-- The best levels of two sides that stand for uncrossed ladders do not cross.
best_uncrossed :
    (S : Slab Order) (a : S.Arena) (m m' : Levels) (v v' : Ladder)
    → Stands S a m v
    → Stands S a m' v'
    → AreUncrossed Side.sell (makers v) (makers v')
    → not_crossed (best_of m) (best_of m') ≡ true
unfolding not_crossed best_of
best_uncrossed S a [] m' v v' h h' u = refl
best_uncrossed S a (_ ∷ _) [] v v' h h' u = refl
best_uncrossed S a (_ ∷ _) (_ ∷ _) [] v' h h' u = absurd h
best_uncrossed S a (_ ∷ _) (_ ∷ _) ((_, []) ∷ _) v' h h' u = absurd h
best_uncrossed S a (_ ∷ _) (_ ∷ _) ((_, _ ∷ _) ∷ _) [] h h' u = absurd h'
best_uncrossed S a (_ ∷ _) (_ ∷ _) ((_, _ ∷ _) ∷ _) ((_, []) ∷ _) h h' u = absurd h'
best_uncrossed S a ((p, l) ∷ m) ((p', l') ∷ m') ((i, (s, o) ∷ q) ∷ v) ((j, (t, r) ∷ q') ∷ v')
      (at, _, _) (at', _, _) ((u, _), _) =
    ground (arith, at, at', u)

module _ (S : Slab Order) where
  -- Commands one after the other, on one book and one vector of events.
  unfoldable pub apply_all : ℕ → List Sequenced → OrderBook S → Events → Result S
  apply_all fuel [] b out = ok (b, out)
  apply_all fuel (c ∷ cs) b out = do (b, out) ← apply S fuel c b out; apply_all fuel cs b out

  -- A new book is well-formed.
  pub new-IsBook : (symbol : ℕ) (tick : Price) → IsBook S Side.buy [] [] (new S symbol tick)
  unfolding new opposite lookup
  new-IsBook symbol tick = record {
    near = record { stands = tt; sorted = tt; distinct = tt; kept = tt };
    far = record { stands = tt; sorted = tt; distinct = tt; kept = tt };
    apart = λ j inside. refl;
    uncrossed = tt;
    listed = λ id loc at. absurd cc;
    unique = tt;
    stops = record { buys = refl; sells = refl };
  }

  apply_all-step :
      (fuel : ℕ) (c : Sequenced) (cs : List Sequenced) (b b' : OrderBook S) (out out' : Events)
      → apply S fuel c b out ≡ ok (b', out')
      → apply_all fuel (c ∷ cs) b out ≡ apply_all fuel cs b' out'
  unfolding apply_all
  apply_all-step fuel c cs b b' out out' run = rw run refl

  -- Any number of commands on a well-formed book.
  pub apply_all-exchange_all :
      (fuel : ℕ) (cs : List Sequenced) (b : OrderBook S) (bids asks : Ladder) (out : Events)
      → IsBook S Side.buy bids asks b
      → HasNoStopOrders cs
      → resting bids asks + qty_of_all cs < 2 ^ 64
      → Trades S
          (exchange_all cs (market bids asks))
          (resting bids asks + qty_of_all cs)
          out
          (apply_all (suc fuel) cs b out)
  unfolding apply_all exchange_all
  apply_all-exchange_all fuel [] b bids asks out h stops fits = record {
    book = b;
    bids = bids;
    asks = asks;
    ran = ap (λ es. ok (b, es)) (sym (append-nil out));
    sound = h;
    offered = refl;
    bounded = omega arith;
  }
  apply_all-exchange_all fuel (c ∷ cs) b bids asks out h (stop, stops) fits =
      let t = apply-exchange S fuel c b bids asks out h stop (omega (arith, fits)) in
      let es = (exchange c (market bids asks)).1 in
      let rest =
        apply_all-exchange_all fuel cs t.book t.bids t.asks (out ++ es) t.sound stops
          (omega (arith, fits, t.bounded)) in
      let moved = ap (λ m. exchange_all cs m) t.offered in
      record {
        book = rest.book;
        bids = rest.bids;
        asks = rest.asks;
        ran =
            apply_all-step (suc fuel) c cs b t.book out (out ++ es) t.ran
            ∙ rest.ran
            ∙ ap (λ r. ok (rest.book, out ++ es ++ r.1)) moved
            ∙ ap (λ es. ok (rest.book, es))
                (append_assoc out es (exchange_all cs (exchange c (market bids asks)).0).1);
        sound = rest.sound;
        offered = rest.offered ∙ ap (λ r. r.0) moved;
        bounded = omega (arith, rest.bounded, t.bounded);
      }

  -- The test for a crossed book does not fail on a well-formed one.
  pub IsBook-check_no_cross :
      (b : OrderBook S) (bids asks : Ladder)
      → IsBook S Side.buy bids asks b
      → check_no_cross S b ≡ true
  unfolding check_no_cross best_bid best_ask opposite
  IsBook-check_no_cross b bids asks h =
      best_uncrossed S b.arena b.bids b.asks bids asks h.near.stands h.far.stands h.uncrossed

  -- Any number of commands other than stop orders on a new book, whose quantities together fit a `u64`.
  -- One after the other they are applied without a panic, on any fuel but 0. The events are
  -- those of the exchange, in order, and the book that is left is well-formed, stands for the exchange's
  -- offers and passes the source's own tests, for a crossed book and for phantom liquidity.
  pub apply_all-empty :
      (symbol : ℕ) (tick : Price) (fuel : ℕ) (cs : List Sequenced)
      → HasNoStopOrders cs
      → qty_of_all cs < 2 ^ 64
      → (b : OrderBook S) × (bids asks : Ladder) × (apply_all (suc fuel) cs (new S symbol tick) []
          ≡ ok (b, (exchange_all cs empty_market).1))
        × IsBook S Side.buy bids asks b
        × (market bids asks ≡ (exchange_all cs empty_market).0)
        × (check_no_cross S b ≡ true)
        × (check_qty_conservation S b ≡ ok true)
  apply_all-empty symbol tick fuel cs stops fits =
      let t =
        apply_all-exchange_all fuel cs (new S symbol tick) [] [] [] (new-IsBook symbol tick) stops
          (omega (arith, fits)) in
      (
        t.book,
        t.bids,
        t.asks,
        t.ran,
        t.sound,
        t.offered,
        IsBook-check_no_cross t.book t.bids t.asks t.sound,
        IsBook-check_qty_conservation S t.book t.bids t.asks t.sound
            (omega (arith, fits, t.bounded)),
      )
