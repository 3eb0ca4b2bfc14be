-- ===== src/Core/Whole/Trades.antt =====
-- Runs on a well-formed book against the market, seen from either side.
use order_matching_engine_ru.Prelude.{ℕ, ◌≤◌, ◌≡◌, refl, ◌++◌, arith, ok}
use order_matching_engine_ru.Core.Types.{Side, opposite, Order}
use order_matching_engine_ru.Core.Slab.{Slab}
use order_matching_engine_ru.Core.Book.{OrderBook, choose}
use order_matching_engine_ru.Core.Matcher.{Result}
use order_matching_engine_ru.Core.Matcher.Loop.{Events}
use order_matching_engine_ru.Core.Matcher.Sweep.{Ladder, makers}
use order_matching_engine_ru.Core.Whole.Invariant.{IsBook, resting, turned}
use order_matching_engine_ru.Core.Whole.Exchange.{Market, Turn, stepped, offers_of}
use order_matching_engine_ru.Core.Whole.Offers.{offers}
use order_matching_engine_ru.Core.Whole.Submit.{Refines}

-- The market that the ladders of a book are.
abbrev pub market : Ladder → Ladder → Market
market bids asks = record { bids = offers (makers bids); asks = offers (makers asks) }

pub choose-offers :
    (side : Side) (bids asks : Ladder)
    → offers (makers (choose side bids asks)) ≡ offers_of side (market bids asks)
choose-offers Side.buy bids asks = refl
choose-offers Side.sell bids asks = refl

pub choose-offers-opposite :
    (side : Side) (bids asks : Ladder)
    → offers (makers (choose side asks bids)) ≡ offers_of (opposite side) (market bids asks)
unfolding opposite
choose-offers-opposite Side.buy bids asks = refl
choose-offers-opposite Side.sell bids asks = refl

pub choose-resting :
    (side : Side) (bids asks : Ladder)
    → resting (choose side bids asks) (choose side asks bids) ≡ resting bids asks
choose-resting Side.buy bids asks = refl
choose-resting Side.sell bids asks = omega arith

module _ (S : Slab Order) where
  -- A run that leaves a well-formed book, whose offers are the market's, with the market's events, and
  -- with at most the bound resting.
  pub record Trades (r : Market × Events) (bound : ℕ) (out : Events) (run : Result S) : Type 0 where
    pub book : OrderBook S
    pub bids : Ladder
    pub asks : Ladder
    pub ran : run ≡ ok (book, out ++ r.1)
    pub sound : IsBook S Side.buy bids asks book
    pub offered : market bids asks ≡ r.0
    pub bounded : resting bids asks ≤ bound

  pub Refines-Trades :
      (side : Side) (t : Turn) (bound : ℕ) (out : Events) (run : Result S)
      → Refines S side t bound out run
      → Trades (stepped side t) bound out run
  unfolding opposite
  Refines-Trades Side.buy t bound out run r = record {
    book = r.book;
    bids = r.own;
    asks = r.other;
    ran = r.ran;
    sound = r.sound;
    offered = λ i. record { bids = r.own_offers i; asks = r.other_offers i };
    bounded = r.bounded;
  }
  Refines-Trades Side.sell t bound out run r = record {
    book = r.book;
    bids = r.other;
    asks = r.own;
    ran = r.ran;
    sound = turned S Side.sell r.own r.other r.book r.sound;
    offered = λ i. record { bids = r.other_offers i; asks = r.own_offers i };
    bounded = omega (arith, r.bounded);
  }

  pub Trades-le :
      (r : Market × Events) (n k : ℕ) (out : Events) (run : Result S)
      → n ≤ k
      → Trades r n out run
      → Trades r k out run
  Trades-le r n k out run le t = record {
    book = t.book;
    bids = t.bids;
    asks = t.asks;
    ran = t.ran;
    sound = t.sound;
    offered = t.offered;
    bounded = omega (arith, t.bounded);
  }
