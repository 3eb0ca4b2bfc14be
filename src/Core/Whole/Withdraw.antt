-- ===== src/Core/Whole/Withdraw.antt =====
-- crates/core/src/matcher.rs: `apply_cancel` and `apply_replace` on a well-formed book do what the market
-- does with an order that rests.
use order_matching_engine_ru.Prelude.{
  ℕ, suc, ◌+◌, ◌<◌, ◌^◌, ◌≡◌, refl, ap, ◌∙◌, true, [], ◌∷◌, ◌++◌, arith, ok,
}
use mathlib.Core.List.{append_assoc}
use order_matching_engine_ru.Prelude.Int.{pos}
use order_matching_engine_ru.Core.Types.{
  Price, Side, Order, OrderType, limit, NewOrder, cancelled, replaced, is_stop,
}
use order_matching_engine_ru.Core.Slab.{Slab}
use order_matching_engine_ru.Core.Book.{OrderBook}
use order_matching_engine_ru.Core.Matcher.{
  is_limit, apply_new, apply_cancel, apply_replace, replacement,
}
use order_matching_engine_ru.Core.Matcher.Cancel.{apply_cancel-append}
use order_matching_engine_ru.Core.Matcher.Replace.{apply_replace-apply_new}
use order_matching_engine_ru.Core.Matcher.Loop.{Events}
use order_matching_engine_ru.Core.Matcher.Sweep.{Ladder, makers}
use order_matching_engine_ru.Core.Whole.Kept.{has_id, place_of}
use order_matching_engine_ru.Core.Whole.Invariant.{IsBook, resting}
use order_matching_engine_ru.Core.Whole.Found.{find_order}
use order_matching_engine_ru.Core.Whole.Taken.{
  own_without, taken, taken-known, taken-IsKept, taken_book, taken-IsBook, taken-offers,
  taken-volume,
}
use order_matching_engine_ru.Core.Whole.Exchange.{Turn, submitted, withdraw}
use order_matching_engine_ru.Core.Whole.Offers.{offers}
use order_matching_engine_ru.Core.Whole.Submit.{Refines, apply_new-Refines}

is_limit_lem : (k : OrderType) → is_limit k ≡ true → k ≡ limit
unfolding is_limit
is_limit_lem k h = ground (arith, h)

module _ (S : Slab Order) (side : Side) (own other : Ladder) (b : OrderBook S) (out : Events)
    (h : IsBook S side own other b) (id : ℕ) (inside : has_id id (makers own) ≡ true) where
  -- What a cancellation makes of the market.
  abbrev cancel_step : ℕ → Turn
  cancel_step seq = record {
    own = withdraw id (offers (makers own));
    other = offers (makers other);
    events = cancelled id seq ∷ [];
  }

  pub apply_cancel-Refines :
      (seq : ℕ)
      → Refines S side (cancel_step seq) (resting own other) out (apply_cancel S id seq b out)
  apply_cancel-Refines seq =
      let f = find_order S side own other b h id inside in
      let t = f.split in
      let (a, l', run, hold, _, same) =
        apply_cancel-append S id seq b out (place_of side (taken S side own other b h id f)) f.level
          t.ahead t.behind t.order (taken-known S side own other b h id f) f.at f.hold in
      record {
        book = taken_book S side own other b h id f a l' hold same;
        own = own_without S side own other b h id f;
        other = other;
        ran = run;
        sound = taken-IsBook S side own other b h id f a l' hold same;
        own_offers = taken-offers S side own other b h id f;
        other_offers = refl;
        bounded = omega (arith, taken-volume S side own other b h id f);
      }

  -- The submission of a replacement.
  abbrev replace_step : ℕ → ℕ → Price → ℕ → Turn
  replace_step seq ts price qty =
      let t =
        submitted (record { id = id; side = side; kind = limit; price = price; qty = qty }) seq ts
          (withdraw id (offers (makers own))) (offers (makers other)) in
      record t { events = replaced id seq ∷ t.events }

  -- The replacement of an order of the side.
  abbrev replacing : Order → Price → ℕ → NewOrder
  replacing o price qty = record {
    id = id;
    symbol = o.symbol;
    side = side;
    kind = limit;
    tif = o.tif;
    price = price;
    stop_price = pos 0;
    qty = qty;
  }

  replacement_lem :
      (o : Order) (price : Price) (qty : ℕ)
      → o.side ≡ side
      → is_limit o.kind ≡ true
      → replacement S id o price qty ≡ replacing o price qty
  unfolding replacement
  replacement_lem o price qty e limited =
      let k = is_limit_lem o.kind limited in
      λ i. record {
        id = id;
        symbol = o.symbol;
        side = e i;
        kind = k i;
        tif = o.tif;
        price = price;
        stop_price = pos 0;
        qty = qty;
      }

  pub apply_replace-Refines :
      (fuel seq ts : ℕ) (price : Price) (qty : ℕ)
      → 0 < qty
      → resting own other + qty < 2 ^ 64
      → Refines S side
          (replace_step seq ts price qty)
          (resting own other + qty)
          out
          (apply_replace S (suc fuel) id price qty seq ts b out)
  unfolding is_stop
  apply_replace-Refines fuel seq ts price qty some_qty fits =
      let f = find_order S side own other b h id inside in
      let t = f.split in
      let kept = taken-IsKept S side own other b h id f in
      let (a, l', run, hold, _, same) =
        apply_replace-apply_new S (suc fuel) id price qty seq ts b out
          (place_of side (taken S side own other b h id f)) f.level t.ahead t.behind t.order
          some_qty (taken-known S side own other b h id f) kept.own f.at f.hold in
      let volume = taken-volume S side own other b h id f in
      let n = replacing t.order price qty in
      let b' = taken_book S side own other b h id f a l' hold same in
      let own' = own_without S side own other b h id f in
      let r =
        apply_new-Refines S fuel seq ts n b' own' other (out ++ replaced id seq ∷ [])
          (taken-IsBook S side own other b h id f a l' hold same) (omega (arith, volume, fits))
          refl in
      let offers_same =
        ap
          (λ os.
            submitted (record { id = id; side = side; kind = limit; price = price; qty = qty }) seq
              ts os (offers (makers other)))
          (taken-offers S side own other b h id f) in
      record {
        book = r.book;
        own = r.own;
        other = r.other;
        ran =
            run
            ∙ ap (λ m. apply_new S (suc fuel) seq ts m b' (out ++ replaced id seq ∷ []))
                (replacement_lem t.order price qty kept.own kept.limited)
            ∙ r.ran
            ∙ ap (λ es. ok (r.book, es)) (append_assoc out (replaced id seq ∷ []) _)
            ∙ ap (λ (x : Turn). ok (r.book, out ++ replaced id seq ∷ x.events)) offers_same;
        sound = r.sound;
        own_offers = r.own_offers ∙ ap (λ (x : Turn). x.own) offers_same;
        other_offers = r.other_offers ∙ ap (λ (x : Turn). x.other) offers_same;
        bounded = omega (arith, r.bounded, volume);
      }
