-- ===== src/Core/Whole/Offers.antt =====
-- The makers of a side, seen as the offers of a market.
use order_matching_engine_ru.Prelude.{
  ℕ, ◌+◌, ◌-◌, ◌<◌, ◌^◌, ◌≡◌, refl, ap, Bool, true, false, ◌||◌, List, [], ◌∷◌, ◌++◌, arith, ◌==◌,
  leb, saturating_add, All, inl, inr, Bool-cases,
}
use mathlib.Core.Path.{subst}
use order_matching_engine_ru.Core.Types.{Price, Side, Order, trade, filled}
use order_matching_engine_ru.Core.Slab.{Slab}
use order_matching_engine_ru.Core.Book.{Levels, before}
use order_matching_engine_ru.Core.Book.Chain.{Entries}
use order_matching_engine_ru.Core.Book.Queue.{total_remaining}
use order_matching_engine_ru.Core.Matcher.Ladder.{Stands}
use order_matching_engine_ru.Core.Matcher.Loop.{beyond, available_in}
use order_matching_engine_ru.Core.Matcher.Sweep.{Ladder, Maker, queue_makers, makers, Swept, sweep}
use order_matching_engine_ru.Core.Matcher.Sweep.Facts.{volume}
use order_matching_engine_ru.Core.Matcher.Promises.{volume-queue_makers}
use order_matching_engine_ru.Core.Whole.Kept.{has_id}
use order_matching_engine_ru.Core.Whole.Exchange.{
  Offer, Filling, is_offered, withdraw, place, liquidity, fill,
}

abbrev pub offer : Maker → Offer
offer m = record { id = m.order.id; price = m.price; qty = m.order.remaining }

abbrev pub offers : List Maker → List Offer
offers [] = []
offers (m ∷ ms) = offer m ∷ offers ms

-- What a sweep is to the market.
abbrev pub filling : Swept → Filling
filling w = record { rest = w.rest; left = offers w.left; events = w.events }

pub is_offered-offers : (id : ℕ) (ms : List Maker) → is_offered id (offers ms) ≡ has_id id ms
unfolding is_offered
is_offered-offers id [] = refl
is_offered-offers id (m ∷ ms) = ap (λ x. (m.order.id == id) || x) (is_offered-offers id ms)

pub place-offers :
    (side : Side) (m : Maker) (xs ys : List Maker)
    → All (λ (x : Maker). before side m.price x.price ≡ false) xs
    → All (λ (y : Maker). before side m.price y.price ≡ true) ys
    → place side (offer m) (offers (xs ++ ys)) ≡ offers (xs ++ m ∷ ys)
unfolding place
place-offers side m [] [] a b = refl
place-offers side m [] (y ∷ ys) a (h, b) = rw h refl
place-offers side m (x ∷ xs) ys (h, a) b =
    rw h (ap (λ (os : List Offer). offer x ∷ os) (place-offers side m xs ys a b))

pub withdraw-offers :
    (m : Maker) (xs ys : List Maker)
    → has_id m.order.id xs ≡ false
    → withdraw m.order.id (offers (xs ++ m ∷ ys)) ≡ offers (xs ++ ys)
unfolding withdraw
withdraw-offers m [] ys out =
    let same : (m.order.id == m.order.id) ≡ true = ground arith in rw same refl
withdraw-offers m (x ∷ xs) ys out =
    let other : (x.order.id == m.order.id) ≡ false = ground arith in
    rw other (ap (λ (os : List Offer). offer x ∷ os) (withdraw-offers m xs ys (ground arith)))

-- The sweep over makers fills their offers.
pub fill-offers :
    (crossing : Price → Bool) (side : Side) (taker seq ts r : ℕ) (ms : List Maker)
    → fill crossing side taker seq ts r (offers ms)
      ≡ filling (sweep crossing side taker seq ts r ms)
unfolding fill sweep
fill-offers crossing side taker seq ts r [] = refl
fill-offers crossing side taker seq ts r (m ∷ ms) = elim (Bool-cases (r == 0)) [
  | inl full ↦ rw full refl
  | inr more ↦ elim (Bool-cases (crossing m.price)) [
    | inr past ↦ rw (more, past) refl
    | inl crossed ↦ elim (Bool-cases (leb m.order.remaining r)) [
      | inr over ↦ rw (more, crossed, over) refl
      | inl fits ↦
          rw (more, crossed, fits)
            (ap
              (λ (f : Filling). record f {
                events =
                    trade seq taker m.order.id m.price m.order.remaining side ts
                    ∷ filled m.order.id seq
                    ∷ f.events;
              })
              (fill-offers crossing side taker seq ts (r - m.order.remaining) ms))
    ]
  ]
]

liquidity-reached :
    (side : Side) (bound p : Price) (q : Entries) (ms : List Maker)
    → beyond side bound p ≡ false
    → liquidity side bound (offers (queue_makers p q ++ ms))
      ≡ total_remaining q + liquidity side bound (offers ms)
unfolding liquidity
liquidity-reached side bound p [] ms h = omega arith
liquidity-reached side bound p ((s, o) ∷ q) ms h =
    rw h (omega (arith, liquidity-reached side bound p q ms h))

-- What the liquidity check of a FOK order counts, as long as the sum fits a `u64`.
pub available_in-liquidity :
    (S : Slab Order) (a : S.Arena) (side : Side) (bound : Price) (m : Levels) (v : Ladder)
    (total : ℕ)
    → Stands S a m v
    → total + volume (makers v) < 2 ^ 64
    → available_in side bound m total ≡ total + liquidity side bound (offers (makers v))
unfolding available_in liquidity
available_in-liquidity S a side bound [] [] total h fits = omega arith
available_in-liquidity S a side bound [] (_ ∷ _) total h fits = absurd h
available_in-liquidity S a side bound (_ ∷ _) [] total h fits = absurd h
available_in-liquidity S a side bound (_ ∷ _) ((_, []) ∷ _) total h fits = absurd h
available_in-liquidity S a side bound ((p, l) ∷ m) ((p', (s, o) ∷ q) ∷ v) total (at, hold, hs)
      fits =
    elim (Bool-cases (beyond side bound p)) [
      | inl past ↦
          let past' : beyond side bound p' ≡ true =
            subst (λ x. beyond side bound x ≡ true) at past in
          rw (past, past') (omega arith)
      | inr reached ↦
          let reached' : beyond side bound p' ≡ false =
            subst (λ x. beyond side bound x ≡ false) at reached in
          let whole = volume-queue_makers p' ((s, o) ∷ q) (makers v) in
          let sum : saturating_add total l.total_qty ≡ total + total_remaining ((s, o) ∷ q) =
            ground (arith, hold.sums.total, whole, fits) in
          let ih =
            available_in-liquidity S a side bound m v (total + total_remaining ((s, o) ∷ q)) hs
              (omega (arith, whole, fits)) in
          let there = liquidity-reached side bound p' ((s, o) ∷ q) (makers v) reached' in
          rw (reached, sum) (omega (arith, ih, there))
    ]
