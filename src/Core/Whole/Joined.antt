-- ===== src/Core/Whole/Joined.antt =====
-- crates/core/src/book.rs: a side of a well-formed book with an order behind the queue of its price.
use order_matching_engine_ru.Prelude.{
  ℕ, ◌≤◌, ◌≡◌, sym, ap, ◌∙◌, true, false, ◌||◌, [], ◌∷◌, ◌++◌, arith, All,
}
use mathlib.Core.Path.{subst}
use mathlib.Core.List.{append-nil}
use order_matching_engine_ru.Core.Types.{Price, Side, opposite, OrderType, Order}
use order_matching_engine_ru.Core.Slab.{Slab}
use order_matching_engine_ru.Core.Maps.Laws.{IsSorted, AllAfter-trans}
use order_matching_engine_ru.Core.Book.{Levels, before}
use order_matching_engine_ru.Core.Book.Chain.{Entries, has, IsDistinct}
use order_matching_engine_ru.Core.Book.Queue.{
  has-append, IsDistinct-split, total_remaining, total_remaining-append,
}
use order_matching_engine_ru.Core.Matcher.Loop.{crosses}
use order_matching_engine_ru.Core.Matcher.Ladder.{entries, rung, Stands, Stands-frame}
use order_matching_engine_ru.Core.Matcher.Sweep.{Ladder, Maker, makers, queue_makers}
use order_matching_engine_ru.Core.Matcher.Sweep.Facts.{volume, IsUncrossed}
use order_matching_engine_ru.Core.Whole.Zoom.{Zoom}
use order_matching_engine_ru.Core.Whole.Place.{volume-append}
use order_matching_engine_ru.Core.Whole.Level.{
  makers_zoom, makers_parts, entries_zoom, makers_after, makers_not_behind, Stands-append,
}
use order_matching_engine_ru.Core.Matcher.Promises.{volume-queue_makers}
use order_matching_engine_ru.Core.Whole.Invariant.{before-IsOrder}
use order_matching_engine_ru.Core.Whole.Exchange.{place}
use order_matching_engine_ru.Core.Whole.Offers.{offer, offers, place-offers}

crosses_not :
    (side : Side) (kind : OrderType) (bound p : Price)
    → crosses side kind bound p ≡ false
    → before (opposite side) bound p ≡ true
unfolding crosses opposite
crosses_not Side.buy kind bound p h = ground (arith, h)
crosses_not Side.sell kind bound p h = ground (arith, h)

-- A side that the order does not cross at its best price is behind the order's limit altogether.
pub beyond-All :
    (S : Slab Order) (a : S.Arena) (side : Side) (kind : OrderType) (bound : Price) (m : Levels)
    (v : Ladder)
    → Stands S a m v
    → IsSorted (before (opposite side)) v
    → IsUncrossed (crosses side kind bound) (makers v)
    → All (λ (m' : Maker). before (opposite side) bound m'.price ≡ true) (makers v)
beyond-All S a side kind bound [] [] h s u = tt
beyond-All S a side kind bound [] (_ ∷ _) h s u = absurd h
beyond-All S a side kind bound (_ ∷ _) [] h s u = absurd h
beyond-All S a side kind bound (_ ∷ _) ((_, []) ∷ _) h s u = absurd h
beyond-All S a side kind bound ((p, l) ∷ m) ((i, e ∷ q) ∷ v) h (later, s) u =
    let ord = before-IsOrder (opposite side) in
    let first = crosses_not side kind bound i u in
    makers_after (before (opposite side)) ord bound ((i, e ∷ q) ∷ v)
      (first, AllAfter-trans (before (opposite side)) ord bound i v first later)

total_le : (xs ys : Entries) (n : ℕ) → total_remaining (xs ++ ys) ≤ n → total_remaining ys ≤ n
total_le xs ys n h = omega (arith, total_remaining-append xs ys)

-- The ladder with an order behind the queue of a price.
abbrev pub joined : Price → ℕ → Order → Ladder → Entries → Ladder → Ladder
joined p k o better q worse = better ++ rung p (q ++ (k, o) ∷ []) worse

abbrev pub joining : Price → ℕ → Order → Maker
joining p k o = record { price = p; slot = k; order = o }

pub joined-parts :
    (p : Price) (k : ℕ) (o : Order) (better : Ladder) (q : Entries) (worse own : Ladder)
    → own ≡ better ++ rung p q worse
    → let xs = makers better ++ queue_makers p q in
      (makers own ≡ xs ++ makers worse)
      × (makers (joined p k o better q worse) ≡ xs ++ joining p k o ∷ makers worse)
joined-parts p k o better q worse own whole = (
  ap makers whole
      ∙ ap (λ (x : Entries). makers (better ++ rung p x worse)) (sym (append-nil q))
      ∙ makers_parts p q [] better worse,
  makers_parts p q ((k, o) ∷ []) better worse,
)

-- An order behind the queue of its price is placed by price and then by time.
pub joined-place :
    (side : Side) (p : Price) (k : ℕ) (o : Order) (S : Slab Order) (a : S.Arena) (m : Levels)
    (own : Ladder)
    → (z : Zoom S (before side) (before-IsOrder side) a p m own)
    → place side (offer (joining p k o)) (offers (makers own))
      ≡ offers (makers (joined p k o z.better z.queue z.worse))
joined-place side p k o S a m own z =
    let (old, new) = joined-parts p k o z.better z.queue z.worse own z.whole in
    let xs = makers z.better ++ queue_makers p z.queue in
    ap (λ ms. place side (offer (joining p k o)) (offers ms)) old
    ∙ place-offers side (joining p k o) xs (makers z.worse)
        (makers_not_behind (before side) (before-IsOrder side) p z.queue z.better z.before)
        (makers_after (before side) (before-IsOrder side) p z.worse z.after)
    ∙ ap offers (sym new)

-- The slots of a queue are the side's, and those of the other queues are not in it.
pub zoom-has :
    (j : ℕ) (p : Price) (better : Ladder) (q : Entries) (worse own : Ladder)
    → own ≡ better ++ rung p q worse
    → has j (entries own) ≡ (has j (entries better) || (has j q || has j (entries worse)))
zoom-has j p better q worse own whole =
    ap (λ v. has j (entries v)) whole
    ∙ ap (has j) (entries_zoom p q better worse)
    ∙ has-append j (entries better) (q ++ entries worse)
    ∙ ap (λ x. has j (entries better) || x) (has-append j q (entries worse))

pub zoom-apart :
    (j : ℕ) (p : Price) (better : Ladder) (q : Entries) (worse own : Ladder)
    → own ≡ better ++ rung p q worse
    → IsDistinct (entries own)
    → has j q ≡ true
    → (has j (entries better) ≡ false) × (has j (entries worse) ≡ false)
zoom-apart j p better q worse own whole d inside =
    let (_, rest, front) =
      IsDistinct-split (entries better) (q ++ entries worse)
        (subst IsDistinct (ap entries whole ∙ entries_zoom p q better worse) d) in
    let (_, _, back) = IsDistinct-split q (entries worse) rest in
    (ground (arith, front j, has-append j q (entries worse)), back j inside)

pub zoom-total :
    (p : Price) (better : Ladder) (q : Entries) (worse own : Ladder)
    → own ≡ better ++ rung p q worse
    → total_remaining q ≤ volume (makers own)
zoom-total p better q worse own whole = omega (
  arith,
  ap (λ v. volume (makers v)) whole,
  ap volume (makers_zoom p q better worse),
  volume-append (makers better) (queue_makers p q ++ makers worse),
  volume-queue_makers p q (makers worse),
)

module _ (S : Slab Order) (side : Side) where
  open S use {Arena, get}

  -- The levels with the one of the price written, or dropped if its queue is empty, stand for the ladder.
  pub Zoom-Stands :
      (a a' : Arena) (p : Price) (m : Levels) (own : Ladder)
      (z : Zoom S (before side) (before-IsOrder side) a p m own)
      → IsDistinct (entries own)
      → ((j : ℕ) → has j (entries own) ≡ true → has j z.queue ≡ false → get a' j ≡ get a j)
      → (middle : Levels) (q : Entries)
      → ((m : Levels) (v : Ladder) → Stands S a' m v → Stands S a' (middle ++ m) (rung p q v))
      → Stands S a' (z.above ++ (middle ++ z.below)) (z.better ++ rung p q z.worse)
  Zoom-Stands a a' p m own z d same middle q put_in =
      let has_own = λ (j : ℕ). zoom-has j p z.better z.queue z.worse own z.whole in
      let away = λ (j : ℕ). zoom-apart j p z.better z.queue z.worse own z.whole d in
      Stands-append S a' z.above (middle ++ z.below) z.better (rung p q z.worse)
        (Stands-frame S a a' z.above z.better
          (λ j inside. same j (ground (arith, has_own j)) (ground (arith, away j))) z.front)
        (put_in z.below z.worse (
          Stands-frame S a a' z.below z.worse
            (λ j inside. same j (ground (arith, has_own j)) (ground (arith, away j))) z.back))
