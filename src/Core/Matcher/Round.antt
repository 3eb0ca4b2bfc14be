-- ===== src/Core/Matcher/Round.antt =====
-- One round of `match_order` against the first order of the best level.
pub mod Parts
pub use Parts.*
use order_matching_engine_ru.Prelude.{
  ℕ, ◌-◌, ◌<◌, ◌≤◌, min, ◌≡◌, refl, ap, ◌∙◌, true, false, [], ◌∷◌, ◌++◌, Option, none, some,
  Outcome, ok, arith, ◌==◌, ==_comm, ==_refl, or_false, if◌then◌else◌, add_u64,
}
use order_matching_engine_ru.Core.Types.{
  Price, Side, opposite, Order, trade, filled, partially_filled,
}
use order_matching_engine_ru.Core.Slab.{Slab}
use order_matching_engine_ru.Core.Maps.{HashMap, put, erase, find}
use order_matching_engine_ru.Core.PriceLevel.{PriceLevel, is_empty}
use order_matching_engine_ru.Core.Book.{
  OrderBook, Levels, Location, before, side_levels, with_levels, remove_empty, pop_head,
  level_or_new,
}
use order_matching_engine_ru.Core.Book.Chain.{Entries, first, linked, has, IsDistinct, SameOutside}
use order_matching_engine_ru.Core.Book.Queue.{
  Holds, at_level, pop_head-cons, reinsert_at_head-cons, not-has-append, apart_front,
}
use order_matching_engine_ru.Core.Book.Sides.{
  find_head, put_head, side_levels-with_levels, side_levels-with_levels-opposite, remove_empty_lem,
  with_levels_if, with_levels-with_levels,
}
use order_matching_engine_ru.Core.Matcher.Loop.{
  Events, settle_maker, reinsert_at_head, Round, again, match_at,
}
use order_matching_engine_ru.Core.Matcher.Sweep.{Ladder, reduced}
use order_matching_engine_ru.Core.Matcher.Ladder.{entries, rung, Stands, Stands-frame, Holds-frame}
use order_matching_engine_ru.Core.Matcher.Trade.{traded, get-traded, trade_with-settle}

module _ (S : Slab Order) where
  open S use {Arena, get}

  module _ (side : Side) (b : OrderBook S) (p : Price) (l : PriceLevel) (m : Levels) (s : ℕ)
      (o : Order) (q : Entries) (v : Ladder) (k : ℕ) (t : Order)
      (at : side_levels S (opposite side) b ≡ (p, l) ∷ m) (hold : Holds S b.arena l ((s, o) ∷ q))
      (others : Stands S b.arena m v) (distinct : IsDistinct (((s, o) ∷ q) ++ entries v))
      (taker : get b.arena k ≡ some t) (outside : has k (((s, o) ∷ q) ++ entries v) ≡ false) where
    -- A round that leads to a book with the other side standing for `w`, the taker changed to `t'`
    -- and no other cell written but the makers'.
    abbrev pub Leads : (Outcome (Round S)) → Ladder → Order → Events → ℕ → HashMap Location → Type 0
    Leads run w t' out total ids =
        (m' : Levels) × (a : Arena) × (run
          ≡ ok (
              again (record {
                book = after S side m' a ids (some p) b;
                out = out;
                total_filled = total;
              })))
        × Stands S a m' w
        × (get a k ≡ some t')
        × ((j : ℕ)
            → has j (((s, o) ∷ q) ++ entries v) ≡ false
            → (k == j) ≡ false
            → get a j ≡ get b.arena j)

    abbrev opp : Side
    opp = opposite side

    out_front : (has k ((s, o) ∷ q) ≡ false) × (has k (entries v) ≡ false)
    out_front = not-has-append k ((s, o) ∷ q) (entries v) outside

    apart_taker : (k == s) ≡ false
    apart_taker = ==_comm k s ∙ (or_false (s == k) (has k q) out_front.0).0

    apart_maker : (s == k) ≡ false
    apart_maker = (or_false (s == k) (has k q) out_front.0).0

    out_q : has k q ≡ false
    out_q = (or_false (s == k) (has k q) out_front.0).1

    -- A slot of another level is neither the taker's nor one of this level.
    elsewhere :
        (j : ℕ)
        → has j (entries v) ≡ true
        → (has j q ≡ false) × ((s == j) ≡ false) × ((k == j) ≡ false)
    elsewhere j h =
        let clear = apart_front j ((s, o) ∷ q) (entries v) distinct h in
        let here = or_false (s == j) (has j q) clear in
        (here.1, here.0, differs S k j (entries v) out_front.1 h)

    -- What every round does first: the maker leaves the queue.
    abbrev Popped : Arena → PriceLevel → Type 0
    Popped a l₁ =
        (pop_head S opp p b ≡ ok (some s, at_level S opp p l₁ a b))
        × Holds S a l₁ q
        × SameOutside S q b.arena a
        × (get a s ≡ some (linked none (first q none) o))
        × (get a k ≡ some t)

    popped : (a : Arena) × (l₁ : PriceLevel) × Popped a l₁
    popped =
        let found : find p (side_levels S opp b) ≡ some l = rw at (find_head p l m) in
        let (a, l₁, run, hold₁, same) = pop_head-cons S opp p b l s o q found hold in
        (a, l₁, (run, hold₁, same, same s hold.distinct.0 ∙ hold.chain.0, same k out_q ∙ taker))

    -- The other levels, past writes to the two orders of the trade and to this level.
    others_after :
        (a : Arena)
        → ((j : ℕ)
            → has j q ≡ false
            → (s == j) ≡ false
            → (k == j) ≡ false
            → get a j ≡ get b.arena j)
        → Stands S a m v
    others_after a same =
        Stands-frame S b.arena a m v (λ j h. let e = elsewhere j h in same j e.0 e.1 e.2) others

    same_after :
        (a : Arena)
        → ((j : ℕ)
            → has j q ≡ false
            → (s == j) ≡ false
            → (k == j) ≡ false
            → get a j ≡ get b.arena j)
        → (j : ℕ) → has j (((s, o) ∷ q) ++ entries v) ≡ false
        → (k == j) ≡ false
        → get a j ≡ get b.arena j
    same_after a same j h other =
        let out = (not-has-append j ((s, o) ∷ q) (entries v) h).0 in
        let here = or_false (s == j) (has j q) out in same j here.1 here.0 other

    -- The maker is used up: it leaves the arena and the index, and an empty level goes.
    pub match_at-filled :
        (seq ts total : ℕ) (out : Events)
        → o.remaining ≤ t.remaining
        → Leads
            (match_at S k side p seq ts (record { book = b; out = out; total_filled = total }))
            (rung p q v)
            (reduced t o.remaining)
            ((out ++ trade seq t.id o.id p o.remaining side ts ∷ []) ++ filled o.id seq ∷ [])
            (add_u64 total o.remaining)
            (erase o.id b.id_index)
    unfolding match_at settle_maker
    match_at-filled seq ts total out fits =
        let (a₁, l₁, (run₁, hold₁, same₁, maker₁, taker₁)) = popped in
        let n = o.remaining in
        let end = (out ++ trade seq t.id o.id p n side ts ∷ []) ++ filled o.id seq ∷ [] in
        let mo = linked none (first q none) o in
        let b₁ = at_level S opp p l₁ a₁ b in
        let all : min t.remaining o.remaining ≡ o.remaining = omega arith in
        let a₂ = traded S b₁ k s t mo n in
        let cells₂ = get-traded S b₁ k s t mo taker₁ maker₁ apart_taker n in
        let maker₂ : get a₂ s ≡ some (reduced mo n) = cells₂ s ∙ rw (==_refl s) in
        let a₃ = S.remove a₂ s in
        let cells₃ : (j : ℕ) → (s == j) ≡ false → (k == j) ≡ false → get a₃ j ≡ get a₁ j =
          λ j h g. S.get-remove a₂ s j maker₂ ∙ rw (h, cells₂ j, h, g) in
        let same : (j : ℕ)
            → has j q ≡ false
            → (s == j) ≡ false
            → (k == j) ≡ false
            → get a₃ j ≡ get b.arena j =
          λ j u h g. cells₃ j h g ∙ same₁ j u in
        let hold₃ =
          Holds-frame S a₁ a₃ l₁ q
            (λ j h. cells₃ j (differs S s j q hold.distinct.0 h) (differs S k j q out_q h)) hold₁ in
        (
          (if is_empty l₁ then m else (p, l₁) ∷ m),
          a₃,
          rw
              (
                run₁,
                trade_with-settle S b₁ k s t mo taker₁ maker₁ apart_taker side p seq ts out total,
                all,
              )
              (rw (none_left n, maker₂)
                (ap
                  (λ (c : OrderBook S).
                    ok (again (record { book = c; out = end; total_filled = add_u64 total n })))
                  (settled S side p l₁ m a₁ a₃ (erase o.id b.id_index) (some p) b l at))),
          rung-Stands S a₃ p l₁ m q v hold₃ (others_after a₃ same),
          S.get-remove a₂ s k maker₂ ∙ rw (apart_maker, cells₂ k, apart_maker, ==_refl k),
          same_after a₃ same,
        )

    settle_maker-part :
        (seq n : ℕ) (out : Events) (mo : Order) (a₁ a₂ a₃ : Arena) (l₁ l₃ : PriceLevel)
        → let b₂ : OrderBook S = record (at_level S opp p l₁ a₁ b) {
          arena = a₂;
          last_trade = some p;
        } in
          (mo.remaining == 0) ≡ false
          → side_levels S opp b₂ ≡ (p, l₁) ∷ m
          → reinsert_at_head S s p opp b₂ ≡ ok (at_level S opp p l₃ a₃ b₂)
          → settle_maker S side p s mo n seq b₂ out
            ≡ ok (
              after S side ((p, l₃) ∷ m) a₃ b.id_index (some p) b,
              out ++ partially_filled mo.id n mo.remaining seq ∷ [],
            )
    unfolding settle_maker
    settle_maker-part seq n out mo a₁ a₂ a₃ l₁ l₃ more levels run =
        let b₂ : OrderBook S = record (at_level S opp p l₁ a₁ b) {
          arena = a₂;
          last_trade = some p;
        } in
        rw (more, run)
          (ap (λ (c : OrderBook S). ok (c, out ++ partially_filled mo.id n mo.remaining seq ∷ []))
            (rewritten S side p l₃ m a₃ b₂ l₁ levels
              ∙ with_levels-with_levels S opp ((p, l₃) ∷ m) _
                  (record b { arena = a₃; last_trade = some p })))

    match_at_run :
        (seq ts total n : ℕ) (out : Events) (a₁ a₃ : Arena) (l₁ l₃ : PriceLevel)
        → let mo = linked none (first q none) o in
          let b₁ = at_level S opp p l₁ a₁ b in
          let b₂ : OrderBook S = record b₁ {
            arena = traded S b₁ k s t mo n;
            last_trade = some p;
          } in
          let end =
            (out ++ trade seq t.id o.id p n side ts ∷ [])
            ++ partially_filled o.id n (o.remaining - n) seq ∷ [] in
          Popped a₁ l₁
          → min t.remaining o.remaining ≡ n
          → n < o.remaining
          → side_levels S opp b₂ ≡ (p, l₁) ∷ m
          → reinsert_at_head S s p opp b₂ ≡ ok (at_level S opp p l₃ a₃ b₂)
          → match_at S k side p seq ts (record { book = b; out = out; total_filled = total })
            ≡ ok (
                again (record {
                  book = after S side ((p, l₃) ∷ m) a₃ b.id_index (some p) b;
                  out = end;
                  total_filled = add_u64 total n;
                }))
    unfolding match_at
    match_at_run seq ts total n out a₁ a₃ l₁ l₃ (run₁, hold₁, same₁, maker₁, taker₁) part more
          levels₂ run₃ =
        let mo = linked none (first q none) o in
        let b₁ = at_level S opp p l₁ a₁ b in
        rw
          (
            run₁,
            trade_with-settle S b₁ k s t mo taker₁ maker₁ apart_taker side p seq ts out total,
            part,
          )
          (rw (
            settle_maker-part seq n (out ++ trade seq t.id o.id p n side ts ∷ []) (reduced mo n) a₁
              (traded S b₁ k s t mo n) a₃ l₁ l₃ (some_left S o.remaining n more) levels₂ run₃))

    -- The maker has more than the taker wants: it goes back to the front of its queue.
    pub match_at-part :
        (seq ts total : ℕ) (out : Events)
        → t.remaining < o.remaining
        → Leads
            (match_at S k side p seq ts (record { book = b; out = out; total_filled = total }))
            ((p, (s, reduced o t.remaining) ∷ q) ∷ v)
            (reduced t t.remaining)
            ((out ++ trade seq t.id o.id p t.remaining side ts ∷ [])
              ++ partially_filled o.id t.remaining (o.remaining - t.remaining) seq ∷ [])
            (add_u64 total t.remaining)
            b.id_index
    match_at-part seq ts total out more =
        let (a₁, l₁, (run₁, hold₁, same₁, maker₁, taker₁)) = popped in
        let n = t.remaining in
        let mo = linked none (first q none) o in
        let b₁ = at_level S opp p l₁ a₁ b in
        let part : min t.remaining o.remaining ≡ t.remaining = omega arith in
        let a₂ = traded S b₁ k s t mo n in
        let cells₂ = get-traded S b₁ k s t mo taker₁ maker₁ apart_taker n in
        let maker₂ : get a₂ s ≡ some (reduced mo n) = cells₂ s ∙ rw (==_refl s) in
        let b₂ : OrderBook S = record b₁ { arena = a₂; last_trade = some p } in
        let levels₂ : side_levels S opp b₂ ≡ (p, l₁) ∷ m =
          side_levels-with_levels S opp _ b ∙ rw at (put_head p l m (before opp) l₁) in
        let hold₂ : Holds S a₂ (level_or_new (find p (side_levels S opp b₂))) q =
          rw (levels₂, find_head p l₁ m)
            (Holds-frame S a₁ a₂ l₁ q
              (λ j h. cells₂ j ∙ rw (differs S s j q hold.distinct.0 h, differs S k j q out_q h))
              hold₁) in
        let (a₃, l₃, run₃, hold₃, same₃) =
          reinsert_at_head-cons S opp p b₂ s (reduced mo n) q maker₂ hold₂ hold.distinct.0
            (omega (arith, hold.sums.bounded)) in
        let same : (j : ℕ)
            → has j q ≡ false
            → (s == j) ≡ false
            → (k == j) ≡ false
            → get a₃ j ≡ get b.arena j =
          λ j u h g. same₃ j (rw (h, u)) ∙ cells₂ j ∙ rw (h, g) (same₁ j u) in
        (
          (p, l₃) ∷ m,
          a₃,
          match_at_run seq ts total n out a₁ a₃ l₁ l₃ popped.2 part more levels₂ run₃,
          (
            refl,
            Holds-relink S a₃ l₃ s (reduced o n) none (first q none) q hold₃,
            others_after a₃ same,
          ),
          same₃ k (rw (apart_maker, out_q)) ∙ cells₂ k ∙ rw (apart_maker, ==_refl k),
          same_after a₃ same,
        )
