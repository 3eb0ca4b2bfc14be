-- ===== src/Core/Matcher/Sweep/Facts.antt =====
-- What the specification of a match promises: no quantity is lost, and no trade is left undone.
use order_matching_engine_ru.Prelude.{
  ℕ, ◌+◌, ◌-◌, ◌≡◌, ◌⊎◌, inr, Bool, false, List, [], ◌∷◌, arith, if◌then◌else◌,
}
use order_matching_engine_ru.Core.Types.{Price, Side, OutputEvent, trade}
use order_matching_engine_ru.Core.Matcher.Loop.{Events}
use order_matching_engine_ru.Core.Matcher.Sweep.{Maker, Swept, sweep}

-- What the makers have left together.
abbrev pub volume : List Maker → ℕ
volume [] = 0
volume (m ∷ ms) = m.order.remaining + volume ms

-- The quantities of the trades among some events.
abbrev pub traded_qty : OutputEvent → ℕ
traded_qty (trade _ _ _ _ n _ _) = n
traded_qty _ = 0

abbrev pub traded_total : Events → ℕ
traded_total [] = 0
traded_total (e ∷ es) = traded_qty e + traded_total es

-- The first of the makers, if there is one, is not crossed.
abbrev pub IsUncrossed : (Price → Bool) → List Maker → Type 0
IsUncrossed crosses [] = Unit {0}
IsUncrossed crosses (m ∷ ms) = crosses m.price ≡ false

-- The volume at the front of the makers that is crossed.
abbrev pub crossed_volume : (Price → Bool) → List Maker → ℕ
crossed_volume crosses [] = 0
crossed_volume crosses (m ∷ ms) =
    if crosses m.price then m.order.remaining + crossed_volume crosses ms else 0

module _ (crosses : Price → Bool) (side : Side) (taker seq ts : ℕ) where
  abbrev run : ℕ → List Maker → Swept
  run = sweep crosses side taker seq ts

  -- The trades add up to what the taker gains and to what the makers lose.
  pub sweep-volume :
      (r : ℕ) (ms : List Maker)
      → (traded_total (run r ms).events + (run r ms).rest ≡ r)
        × (traded_total (run r ms).events + volume (run r ms).left ≡ volume ms)
  unfolding sweep
  sweep-volume r [] = omega arith
  sweep-volume r (m ∷ ms) = ground (arith, sweep-volume (r - m.order.remaining) ms)

  -- At the end the taker has nothing left or crosses no maker.
  pub sweep-done :
      (r : ℕ) (ms : List Maker) → ((run r ms).rest ≡ 0) ⊎ IsUncrossed crosses (run r ms).left
  unfolding sweep
  sweep-done r [] = inr tt
  sweep-done r (m ∷ ms) = ground (arith, sweep-done (r - m.order.remaining) ms)

  -- The rest is what the crossed makers at the front cannot fill.
  pub sweep-rest : (r : ℕ) (ms : List Maker) → (run r ms).rest ≡ r - crossed_volume crosses ms
  unfolding sweep
  sweep-rest r [] = omega arith
  sweep-rest r (m ∷ ms) = ground (arith, sweep-rest (r - m.order.remaining) ms)
