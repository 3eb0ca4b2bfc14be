-- ===== src/Core/Matcher/Sweep.antt =====
-- The specification of a match: the makers on the other side, in the order of price and then of
-- time, are filled one after the other while they cross and the taker has something left.
pub mod Facts
use order_matching_engine_ru.Prelude.{
  ℕ, ◌-◌, ◌≤◌, ◌<◌, ◌≡◌, refl, true, false, arith, Bool, List, [], ◌∷◌, ◌++◌, map, Option, none,
  some, ◌==◌, if◌then◌else◌, leb,
}
use order_matching_engine_ru.Core.Types.{
  Price, Side, Order, OutputEvent, trade, filled, partially_filled,
}
use order_matching_engine_ru.Core.Maps.{HashMap, erase}
use order_matching_engine_ru.Core.Book.Chain.{Entries}
use order_matching_engine_ru.Core.Matcher.Loop.{Events}

-- The queue of each price, best price first.
abbrev pub Ladder : Type 0
Ladder = List (Price × Entries)

pub record Maker : Type 0 where
  pub price : Price
  pub slot : ℕ
  pub order : Order

abbrev pub queue_makers : Price → Entries → List Maker
queue_makers p [] = []
queue_makers p ((s, o) ∷ q) = record { price = p; slot = s; order = o } ∷ queue_makers p q

-- The makers by price and time.
abbrev pub makers : Ladder → List Maker
makers [] = []
makers ((p, q) ∷ v) = queue_makers p q ++ makers v

abbrev pub reduced : Order → ℕ → Order
reduced o n = record o { remaining = o.remaining - n }

-- What the taker leaves: its own rest, the makers that stay, the events and the fills, in order.
pub record Swept : Type 0 where
  pub rest : ℕ
  pub left : List Maker
  pub events : Events
  pub fills : List Maker
  pub last : Option Price

-- The last trade's price, if there was a trade.
abbrev pub or_else : Option Price → Option Price → Option Price
or_else none p = p
or_else (some q) p = some q

-- The index without the filled makers.
abbrev pub without : {V : Type 0} → List Maker → HashMap V → HashMap V
without [] ids = ids
without (m ∷ ms) ids = without ms (erase m.order.id ids)

abbrev pub stopped : ℕ → List Maker → Swept
stopped r ms = record { rest = r; left = ms; events = []; fills = []; last = none }

module _ (crosses : Price → Bool) (side : Side) (taker seq ts : ℕ) where
  abbrev pub trade_event : Maker → ℕ → OutputEvent
  trade_event m n = trade seq taker m.order.id m.price n side ts

  -- The first maker is used up, and the sweep goes on.
  abbrev pub use_up : Maker → Swept → Swept
  use_up m w = record w {
    events = trade_event m m.order.remaining ∷ filled m.order.id seq ∷ w.events;
    fills = m ∷ w.fills;
    last = or_else w.last (some m.price);
  }

  -- The first maker has more than the taker wants, and keeps its place.
  abbrev pub use_part : ℕ → Maker → List Maker → Swept
  use_part r m ms =
      let o : Order = reduced m.order r in
      record {
        rest = 0;
        left = record m { order = o } ∷ ms;
        events = trade_event m r ∷ partially_filled o.id r o.remaining seq ∷ [];
        fills = [];
        last = some m.price;
      }

  unfoldable pub sweep : ℕ → List Maker → Swept
  sweep r [] = stopped r []
  sweep r (m ∷ ms) =
      let more = use_up m (sweep (r - m.order.remaining) ms) in
      if r == 0
      then stopped r (m ∷ ms)
      else if crosses m.price
      then (if leb m.order.remaining r then more else use_part r m ms)
      else stopped r (m ∷ ms)

  -- A taker with nothing left stops, and so does one that the best maker does not cross.
  pub sweep_filled : (r : ℕ) (ms : List Maker) → (r == 0) ≡ true → sweep r ms ≡ stopped r ms
  unfolding sweep
  sweep_filled r [] h = refl
  sweep_filled r (m ∷ ms) h = rw h

  pub sweep_uncrossed :
      (r : ℕ) (m : Maker) (ms : List Maker)
      → crosses m.price ≡ false
      → sweep r (m ∷ ms) ≡ stopped r (m ∷ ms)
  unfolding sweep
  sweep_uncrossed r m ms h = ground arith

  pub sweep_all :
      (r : ℕ) (m : Maker) (ms : List Maker)
      → crosses m.price ≡ true
      → (r == 0) ≡ false
      → m.order.remaining ≤ r
      → sweep r (m ∷ ms) ≡ use_up m (sweep (r - m.order.remaining) ms)
  unfolding sweep
  sweep_all r m ms h some_left fits = ground arith

  pub sweep_part :
      (r : ℕ) (m : Maker) (ms : List Maker)
      → crosses m.price ≡ true
      → (r == 0) ≡ false
      → r < m.order.remaining
      → sweep r (m ∷ ms) ≡ use_part r m ms
  unfolding sweep
  sweep_part r m ms h some_left fits = ground arith
