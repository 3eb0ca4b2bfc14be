-- ===== src/Core/Matcher/Promises.antt =====
-- What `match_order` promises: quantities, and the kinds that cross any price.
use order_matching_engine_ru.Prelude.{
  ℕ, ◌+◌, ◌-◌, ◌<◌, ◌≤◌, ◌^◌, ◌≡◌, refl, ap, ◌∙◌, Bool, true, List, [], ◌∷◌, ◌++◌, ok, arith,
  if◌then◌else◌, saturating_add,
}
use mathlib.Core.Path.{subst}
use order_matching_engine_ru.Core.Types.{
  Price, Side, buy, sell, opposite, Order, OrderType, fok, crosses_any,
}
use order_matching_engine_ru.Core.Slab.{Slab}
use order_matching_engine_ru.Core.Book.{OrderBook, Levels, side_levels}
use order_matching_engine_ru.Core.Book.Chain.{Entries}
use order_matching_engine_ru.Core.Book.Queue.{total_remaining}
use order_matching_engine_ru.Core.Matcher.Loop.{
  Events, crosses, beyond, available_in, available_qty, match_order,
}
use order_matching_engine_ru.Core.Matcher.Sweep.{Ladder, Maker, makers, queue_makers}
use order_matching_engine_ru.Core.Matcher.Sweep.Facts.{
  volume, traded_total, crossed_volume, sweep-volume, sweep-rest,
}
use order_matching_engine_ru.Core.Matcher.Ladder.{Stands}
use order_matching_engine_ru.Core.Matcher.Refinement.{Ready}
use order_matching_engine_ru.Core.Matcher.MatchOrder.{sweep_of, match_order-sweep}

-- Market, IOC and FOK orders cross every price.
crossed_volume-volume :
    (side : Side) (kind : OrderType) (limit : Price) (ms : List Maker)
    → crosses_any kind ≡ true
    → crossed_volume (crosses side kind limit) ms ≡ volume ms
unfolding crosses
crossed_volume-volume side kind limit [] h = refl
crossed_volume-volume buy kind limit (m ∷ ms) h =
    rw h (ap (λ (n : ℕ). m.order.remaining + n) (crossed_volume-volume buy kind limit ms h))
crossed_volume-volume sell kind limit (m ∷ ms) h =
    rw h (ap (λ (n : ℕ). m.order.remaining + n) (crossed_volume-volume sell kind limit ms h))

pub volume-queue_makers :
    (p : Price) (q : Entries) (ms : List Maker)
    → volume (queue_makers p q ++ ms) ≡ total_remaining q + volume ms
volume-queue_makers p [] ms = omega arith
volume-queue_makers p ((s, o) ∷ q) ms = omega (arith, volume-queue_makers p q ms)

-- The liquidity check of a FOK order counts at most what there is.
available_in-le :
    (S : Slab Order) (a : S.Arena) (side : Side) (limit : Price) (m : Levels) (v : Ladder)
    (total : ℕ)
    → Stands S a m v
    → available_in side limit m total ≤ total + volume (makers v)
unfolding available_in
available_in-le S a side limit [] [] total h = omega arith
available_in-le S a side limit [] (_ ∷ _) total h = absurd h
available_in-le S a side limit (_ ∷ _) [] total h = absurd h
available_in-le S a side limit (_ ∷ _) ((_, []) ∷ _) total h = absurd h
available_in-le S a side limit ((p, l) ∷ m) ((p', e ∷ q) ∷ v) total (_, hold, hs) =
    level_then (beyond side limit p) l.total_qty total _ _ _ hold.sums.total
      (volume-queue_makers p' (e ∷ q) (makers v))
      (available_in-le S a side limit m v (saturating_add total l.total_qty) hs)
  where
    level_then :
        (c : Bool) (n total more q rest : ℕ) {whole : ℕ}
        → n ≡ q
        → whole ≡ q + rest
        → more ≤ saturating_add total n + rest
        → (if c then total else more) ≤ total + whole
    level_then c n total more q rest e f h = ground arith

module _ (S : Slab Order) (k seq ts : ℕ) (t : Order) (v : Ladder) (b : OrderBook S) (out : Events)
    (ready : Ready S t.side k t v b) (small : t.remaining < 2 ^ 64) where
  -- On a book whose other side stands for a ladder of open orders, with the taker in the arena and
  -- outside the ladder, no quantity is lost in a match. The trades that `match_order` emits add up to the quantity that it
  -- returns, the taker has that much less, and so have the makers of the other side together.
  pub match_order-volume :
      (filled rest : ℕ) × (b' : OrderBook S) × (v' : Ladder) × (es : Events) × (match_order S k seq
          ts b out
        ≡ ok (filled, b', out ++ es))
      × Ready S t.side k (record t { remaining = rest }) v' b'
      × (traded_total es ≡ filled)
      × (filled + rest ≡ t.remaining)
      × (filled + volume (makers v') ≡ volume (makers v))
  match_order-volume =
      let (b', v', run, ready', left, _, _, _) =
        match_order-sweep S k seq ts t v b out ready small in
      let w = sweep_of t seq ts v in
      let (sums, volumes) =
        sweep-volume (crosses t.side t.kind t.price) t.side t.id seq ts t.remaining (makers v) in
      (
        t.remaining - w.rest,
        w.rest,
        b',
        v',
        w.events,
        run,
        ready',
        omega (arith, sums),
        omega (arith, sums),
        rw left (omega (arith, sums, volumes)),
      )

  -- On a book whose other side stands for a ladder of open orders, with the taker in the arena and
  -- outside the ladder, a market, IOC or FOK order takes all that the other side has, up to its own quantity, whatever
  -- its limit price says.
  pub match_order-volume_any :
      crosses_any t.kind ≡ true
      → (filled : ℕ) × (b' : OrderBook S) × (v' : Ladder) × (es : Events) × (match_order S k seq ts
            b out
          ≡ ok (filled, b', out ++ es))
        × Ready S t.side k (record t { remaining = t.remaining - volume (makers v) }) v' b'
        × (filled ≡ t.remaining - (t.remaining - volume (makers v)))
  match_order-volume_any any =
      let (b', v', run, ready', left, _, _, _) =
        match_order-sweep S k seq ts t v b out ready small in
      let w = sweep_of t seq ts v in
      let rest : w.rest ≡ t.remaining - volume (makers v) =
        sweep-rest (crosses t.side t.kind t.price) t.side t.id seq ts t.remaining (makers v)
        ∙ ap (λ (n : ℕ). t.remaining - n)
            (crossed_volume-volume t.side t.kind t.price (makers v) any) in
      (
        t.remaining - w.rest,
        b',
        v',
        w.events,
        run,
        subst (λ n. Ready S t.side k (record t { remaining = n }) v' b') rest ready',
        ap (λ (n : ℕ). t.remaining - n) rest,
      )

  -- On a book whose other side stands for a ladder of open orders, with the taker in the arena and
  -- outside the ladder, a FOK order that passes the liquidity check of `apply_new` is filled as a
  -- whole, by trades that add up to its quantity.
  pub match_order_fok :
      t.kind ≡ fok
      → t.remaining ≤ available_qty S t.side t.price b
      → (b' : OrderBook S) × (v' : Ladder) × (es : Events) × (match_order S k seq ts b out
          ≡ ok (t.remaining, b', out ++ es))
        × Ready S t.side k (record t { remaining = 0 }) v' b'
        × (traded_total es ≡ t.remaining)
  unfolding crosses_any available_qty
  match_order_fok is_fok enough =
      let any : crosses_any t.kind ≡ true = ap crosses_any is_fok in
      let bound =
        available_in-le S b.arena t.side t.price (side_levels S (opposite t.side) b) v 0
          ready.stands in
      let (b', v', run, ready', left, _, _, _) =
        match_order-sweep S k seq ts t v b out ready small in
      let w = sweep_of t seq ts v in
      let rest : w.rest ≡ t.remaining - volume (makers v) =
        sweep-rest (crosses t.side t.kind t.price) t.side t.id seq ts t.remaining (makers v)
        ∙ ap (λ (n : ℕ). t.remaining - n)
            (crossed_volume-volume t.side t.kind t.price (makers v) any) in
      let none_left : w.rest ≡ 0 = omega (arith, rest, bound, enough) in
      let sums =
        sweep-volume (crosses t.side t.kind t.price) t.side t.id seq ts t.remaining (makers v) in
      (
        b',
        v',
        w.events,
        run ∙ ap (λ (n : ℕ). ok (n, b', out ++ w.events)) (omega (arith, none_left)),
        subst (λ n. Ready S t.side k (record t { remaining = n }) v' b') none_left ready',
        omega (arith, sums.0, none_left),
      )
