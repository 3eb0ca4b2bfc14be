-- ===== src/Core/Matcher/Refinement/Steps.antt =====
-- One round of the loop of `match_order`, against the specification of the rest of it.
use order_matching_engine_ru.Prelude.{
  ℕ, suc, ◌+◌, ◌-◌, ◌<◌, ◌≤◌, ◌^◌, ◌≡◌, refl, ap, true, false, [], ◌∷◌, ◌++◌, some, Outcome, ok,
  ◌>>=◌, arith, ◌==◌, add_u64, or_false,
}
use mathlib.Core.Path.{subst}
use order_matching_engine_ru.Core.Types.{
  Price, Side, opposite, Order, OrderType, OutputEvent, trade, filled, partially_filled,
}
use order_matching_engine_ru.Core.Slab.{Slab}
use order_matching_engine_ru.Core.Book.{Levels, side_levels}
use order_matching_engine_ru.Core.PriceLevel.{PriceLevel}
use order_matching_engine_ru.Core.Book.Chain.{Entries, has}
use order_matching_engine_ru.Core.Book.Sides.{side_levels-with_levels}
use order_matching_engine_ru.Core.Matcher.Loop.{
  MatchState, done, again, crosses, match_round, match_loop, match_best, match_at,
}
use order_matching_engine_ru.Core.Maps.{erase}
use order_matching_engine_ru.Core.Matcher.Sweep.{
  Ladder, Maker, makers, queue_makers, Swept, sweep, stopped, reduced, sweep_filled, sweep_all,
  sweep_part,
}
use order_matching_engine_ru.Core.Matcher.Ladder.{
  entries, rung, Stands, entries-rung, makers-rung, rung-IsSorted,
}
use order_matching_engine_ru.Core.Matcher.Round.{after, none_left}
use order_matching_engine_ru.Core.Matcher.Refinement.Runs.{Ready, Matched, Matched-again}

still_fits : (a r n : ℕ) → n ≤ r → a + r < 2 ^ 64 → add_u64 a n + (r - n) < 2 ^ 64
still_fits a r n h fits = omega arith

still_fuel : (r f : ℕ) → (r == 0) ≡ false → r < suc f → r - r < f
still_fuel r f more fuel = ground arith

sub_self : (n : ℕ) → n - n ≡ 0
sub_self n = omega arith

module _ (S : Slab Order) (side : Side) (kind : OrderType) (limit : Price) (k seq ts : ℕ) where
  open S use {Arena, get}

  abbrev pub swept : Order → Ladder → Swept
  swept t v = sweep (crosses side kind limit) side t.id seq ts t.remaining (makers v)

  abbrev pub Sweeps : ℕ → Type 0
  Sweeps f =
      (t : Order) (v : Ladder) (s : MatchState S)
      → Ready S side k t v s.book
      → s.total_filled + t.remaining < 2 ^ 64
      → t.remaining < f
      → Matched S side k t v s (swept t v) (match_loop S f k side kind limit seq ts s)

  -- The loop from its first round.
  abbrev pub from_best : ℕ → Levels → MatchState S → Outcome (MatchState S)
  from_best f ms s = do
    round ← match_best S k side kind limit seq ts ms s
    elim round [ done s ↦ ok s | again s ↦ match_loop S f k side kind limit seq ts s ]

  pub match_loop-from_best :
      (f : ℕ) (t : Order) (s : MatchState S)
      → get s.book.arena k ≡ some t
      → (t.remaining == 0) ≡ false
      → match_loop S (suc f) k side kind limit seq ts s
        ≡ from_best f (side_levels S (opposite side) s.book) s
  unfolding match_loop match_round
  match_loop-from_best f t s at more = rw (at, more)

  pub match_loop-filled :
      (f : ℕ) (t : Order) (s : MatchState S)
      → get s.book.arena k ≡ some t
      → (t.remaining == 0) ≡ true
      → match_loop S (suc f) k side kind limit seq ts s ≡ ok s
  unfolding match_loop match_round
  match_loop-filled f t s at none_left = rw (at, none_left)

  module _ (f : ℕ) (t : Order) (p : Price) (l : PriceLevel) (m : Levels) (c : ℕ) (o : Order)
      (q : Entries) (v : Ladder) (s : MatchState S) (m' : Levels) (a : Arena) (ih : Sweeps f)
      (r : Ready S side k t ((p, (c, o) ∷ q) ∷ v) s.book)
      (fits : s.total_filled + t.remaining < 2 ^ 64) (fuel : t.remaining < suc f)
      (more : (t.remaining == 0) ≡ false) (crossed : crosses side kind limit p ≡ true)
      (same : (j : ℕ)
        → has j (((c, o) ∷ q) ++ entries v) ≡ false
        → (k == j) ≡ false
        → get a j ≡ get s.book.arena j) where
    abbrev maker : Maker
    maker = record { price = p; slot = c; order = o }

    outside_tail : has k (q ++ entries v) ≡ false
    outside_tail = (or_false (c == k) (has k (q ++ entries v)) r.outside).1

    -- The first maker of the best level is used up.
    pub loop-filled :
        let n = o.remaining in
        let out = (s.out ++ trade seq t.id o.id p n side ts ∷ []) ++ filled o.id seq ∷ [] in
        match_at S k side p seq ts s
          ≡ ok (
              again (record {
                book = after S side m' a (erase o.id s.book.id_index) (some p) s.book;
                out = out;
                total_filled = add_u64 s.total_filled n;
              }))
        → Stands S a m' (rung p q v)
        → get a k ≡ some (reduced t n)
        → n ≤ t.remaining
        → Matched S side k t
            ((p, (c, o) ∷ q) ∷ v)
            s
            (swept t ((p, (c, o) ∷ q) ∷ v))
            (from_best f ((p, l) ∷ m) s)
    unfolding match_best
    loop-filled run stands taker le =
        let n = o.remaining in
        let t' = reduced t n in
        let v' = rung p q v in
        let ids = erase o.id s.book.id_index in
        let s' : MatchState S = record {
          book = after S side m' a ids (some p) s.book;
          out = (s.out ++ trade seq t.id o.id p n side ts ∷ []) ++ filled o.id seq ∷ [];
          total_filled = add_u64 s.total_filled n;
        } in
        let r' : Ready S side k t' v' s'.book = record {
          stands = rw (side_levels-with_levels S (opposite side) m') stands;
          distinct = rw (entries-rung p q v) r.distinct.1;
          all_open = rw (entries-rung p q v) r.all_open.1;
          taker = taker;
          outside = rw (entries-rung p q v) outside_tail;
        } in
        let h =
          ih t' v' s' r' (still_fits s.total_filled t.remaining n le fits)
            (omega (arith, r.all_open.0)) in
        let spec = sweep (crosses side kind limit) side t.id seq ts (t.remaining - n) in
        let h' =
          subst (λ w. Matched S side k t' v' s' w (match_loop S f k side kind limit seq ts s'))
            (ap spec (makers-rung p q v)) h in
        rw
          (
            crossed,
            run,
            sweep_all (crosses side kind limit) side t.id seq ts t.remaining maker
                (queue_makers p q ++ makers v) crossed more le,
          )
          (Matched-again S side k t ((p, (c, o) ∷ q) ∷ v) v' s m' a ids p n
            (trade seq t.id o.id p n side ts) (filled o.id seq)
            (spec (queue_makers p q ++ makers v))
            (maker ∷ (spec (queue_makers p q ++ makers v)).fills) _ le fits same
            (λ j x. rw (entries-rung p q v) (or_false (c == j) (has j (q ++ entries v)) x).1)
            (λ before x. rung-IsSorted before p (c, o) q v x) refl h')

    -- The first maker of the best level is more than enough.
    pub loop-part :
        let n = t.remaining in
        let out =
          (s.out ++ trade seq t.id o.id p n side ts ∷ [])
          ++ partially_filled o.id n (o.remaining - n) seq ∷ [] in
        match_at S k side p seq ts s
          ≡ ok (
              again (record {
                book = after S side m' a s.book.id_index (some p) s.book;
                out = out;
                total_filled = add_u64 s.total_filled n;
              }))
        → Stands S a m' ((p, (c, reduced o n) ∷ q) ∷ v)
        → get a k ≡ some (reduced t n)
        → n < o.remaining
        → Matched S side k t
            ((p, (c, o) ∷ q) ∷ v)
            s
            (swept t ((p, (c, o) ∷ q) ∷ v))
            (from_best f ((p, l) ∷ m) s)
    unfolding match_best
    loop-part run stands taker lt =
        let n = t.remaining in
        let t' = reduced t n in
        let v' = (p, (c, reduced o n) ∷ q) ∷ v in
        let ids = s.book.id_index in
        let e₁ : OutputEvent = trade seq t.id o.id p n side ts in
        let e₂ : OutputEvent = partially_filled o.id n (o.remaining - n) seq in
        let s' : MatchState S = record {
          book = after S side m' a ids (some p) s.book;
          out = (s.out ++ e₁ ∷ []) ++ e₂ ∷ [];
          total_filled = add_u64 s.total_filled n;
        } in
        let r' : Ready S side k t' v' s'.book = record {
          stands = rw (side_levels-with_levels S (opposite side) m') stands;
          distinct = r.distinct;
          all_open = (omega arith, r.all_open.1);
          taker = taker;
          outside = r.outside;
        } in
        let h =
          ih t' v' s' r' (still_fits s.total_filled t.remaining n (omega arith) fits)
            (still_fuel n f more fuel) in
        let h' =
          subst (λ w. Matched S side k t' v' s' w (match_loop S f k side kind limit seq ts s'))
            (sweep_filled (crosses side kind limit) side t.id seq ts (n - n) (makers v')
              (none_left n))
            h in
        rw
          (
            crossed,
            run,
            sweep_part (crosses side kind limit) side t.id seq ts n maker
                (queue_makers p q ++ makers v) crossed more lt,
          )
          (subst
            (λ x.
              Matched S side k t ((p, (c, o) ∷ q) ∷ v) s
                (record {
                  rest = x;
                  left = makers v';
                  events = e₁ ∷ e₂ ∷ [];
                  fills = [];
                  last = some p;
                })
                (match_loop S f k side kind limit seq ts s'))
            (sub_self n)
            (Matched-again S side k t ((p, (c, o) ∷ q) ∷ v) v' s m' a ids p n e₁ e₂
              (stopped (n - n) (makers v')) [] _ (omega arith) fits same (λ j x. x) (λ before x. x)
              refl h'))
