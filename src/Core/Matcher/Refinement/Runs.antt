-- ===== src/Core/Matcher/Refinement/Runs.antt =====
-- What the loop of `match_order` needs and what a run of it leaves, with the two ways to extend a run.
use order_matching_engine_ru.Prelude.{
  ℕ, ◌+◌, ◌-◌, ◌<◌, ◌≤◌, ◌^◌, ◌≡◌, refl, sym, ap, ◌∙◌, false, List, [], ◌∷◌, ◌++◌, Option, none,
  some, Outcome, ok, arith, ◌==◌, add_u64,
}
use mathlib.Core.Path.{subst}
use mathlib.Core.List.{append-nil, append_assoc}
use order_matching_engine_ru.Core.Types.{Price, Side, opposite, Order, OutputEvent}
use order_matching_engine_ru.Core.Slab.{Slab, index}
use order_matching_engine_ru.Core.Book.{OrderBook, Levels, Location, side_levels}
use order_matching_engine_ru.Core.Book.Chain.{has, IsDistinct}
use order_matching_engine_ru.Core.Book.Sides.{with_levels-side_levels, with_levels-with_levels}
use order_matching_engine_ru.Core.Matcher.Loop.{MatchState}
use order_matching_engine_ru.Core.Maps.{KeyOrder, HashMap}
use order_matching_engine_ru.Core.Maps.Laws.{IsSorted}
use order_matching_engine_ru.Core.Matcher.Sweep.{
  Ladder, Maker, makers, Swept, stopped, or_else, without, reduced,
}
use order_matching_engine_ru.Core.Matcher.Ladder.{entries, AllOpen, Stands}
use order_matching_engine_ru.Core.Matcher.Round.{after}

total_kept : (a n : ℕ) → a ≡ a + (n - n)
total_kept a n = omega arith

total_moved :
    (a r n e : ℕ) → n ≤ r → e ≤ r - n → a + r < 2 ^ 64 → add_u64 a n + (r - n - e) ≡ a + (r - e)
total_moved a r n e h g fits = omega arith

or_else-some :
    (x y : Option Price) (p : Price) → or_else x (some p) ≡ or_else (or_else x (some p)) y
or_else-some none y p = refl
or_else-some (some q) y p = refl

module _ (S : Slab Order) where
  open S use {Arena, get}

  -- What a match needs: the other side stands for a ladder of open orders, the taker is not in it.
  pub record Ready (side : Side) (k : ℕ) (t : Order) (v : Ladder) (b : OrderBook S) : Type 0 where
    pub stands : Stands S b.arena (side_levels S (opposite side) b) v
    pub distinct : IsDistinct (entries v)
    pub all_open : AllOpen (entries v)
    pub taker : get b.arena k ≡ some t
    pub outside : has k (entries v) ≡ false

  -- A run of the loop that ends with what the sweep `w` says.
  pub record Matched (side : Side) (k : ℕ) (t : Order) (v : Ladder) (s : MatchState S) (w : Swept)
      (run : Outcome (MatchState S)) : Type 0 where
    pub levels : Levels
    pub arena : Arena
    pub ladder : Ladder
    pub ran :
        run
        ≡ ok (record {
          book =
              after S side levels arena
                (without w.fills s.book.id_index)
                (or_else w.last s.book.last_trade)
                s.book;
          out = s.out ++ w.events;
          total_filled = s.total_filled + (t.remaining - w.rest);
        })
    pub rest_le : w.rest ≤ t.remaining
    pub left : makers ladder ≡ w.left
    pub ready :
        Ready side k
          (record t { remaining = w.rest })
          ladder
          (after S side levels arena
            (without w.fills s.book.id_index)
            (or_else w.last s.book.last_trade)
            s.book)
    pub same :
        (j : ℕ) → has j (entries v) ≡ false → (k == j) ≡ false → get arena j ≡ get s.book.arena j
    pub within : (j : ℕ) → has j (entries v) ≡ false → has j (entries ladder) ≡ false
    pub sorted : (before : KeyOrder) → IsSorted before v → IsSorted before ladder

  -- A loop that stops at once.
  pub Matched-stopped :
      (side : Side) (k : ℕ) (t : Order) (v : Ladder) (s : MatchState S)
      → Ready side k t v s.book
      → s.total_filled + t.remaining < 2 ^ 64
      → Matched side k t v s (stopped t.remaining (makers v)) (ok s)
  Matched-stopped side k t v s r fits =
      let whole = with_levels-side_levels S (opposite side) s.book in
      record {
        levels = side_levels S (opposite side) s.book;
        arena = s.book.arena;
        ladder = v;
        ran = λ i. ok (record {
          book = sym whole i;
          out = sym (append-nil s.out) i;
          total_filled = total_kept s.total_filled t.remaining i;
        });
        rest_le = omega arith;
        left = refl;
        ready = subst (λ b. Ready side k t v b) (sym whole) r;
        same = λ j h g. refl;
        within = λ j h. h;
        sorted = λ before h. h;
      }

  -- A loop that goes on after a round with `n` traded.
  pub Matched-again :
      (side : Side) (k : ℕ) (t : Order) (v v' : Ladder) (s : MatchState S) (m : Levels) (a : Arena)
      (ids : HashMap Location) (p : Price) (n : ℕ) (e₁ e₂ : OutputEvent) (w : Swept)
      (fills : List Maker) (run : Outcome (MatchState S))
      → n ≤ t.remaining
      → s.total_filled + t.remaining < 2 ^ 64
      → ((j : ℕ) → has j (entries v) ≡ false → (k == j) ≡ false → get a j ≡ get s.book.arena j)
      → ((j : ℕ) → has j (entries v) ≡ false → has j (entries v') ≡ false)
      → ((before : KeyOrder) → IsSorted before v → IsSorted before v')
      → without w.fills ids ≡ without fills s.book.id_index
      → Matched side k
          (reduced t n)
          v'
          (record {
            book = after S side m a ids (some p) s.book;
            out = (s.out ++ e₁ ∷ []) ++ e₂ ∷ [];
            total_filled = add_u64 s.total_filled n;
          })
          w
          run
      → Matched side k t v s
          (record {
            rest = w.rest;
            left = w.left;
            events = e₁ ∷ e₂ ∷ w.events;
            fills = fills;
            last = or_else w.last (some p);
          })
          run
  Matched-again side k t v v' s m a ids p n e₁ e₂ w fills run le fits cells inner order index h =
      let opp = opposite side in
      let last = or_else w.last (some p) in
      let book₁ =
        with_levels-with_levels S opp h.levels m
          (record s.book { arena = h.arena; id_index = without w.fills ids; last_trade = last }) in
      let book₂ =
        ap (λ (x : Option Price). after S side h.levels h.arena (without w.fills ids) x s.book)
          (or_else-some w.last s.book.last_trade p) in
      let book₃ =
        ap
          (λ (x : HashMap Location).
            after S side h.levels h.arena x (or_else last s.book.last_trade) s.book)
          index in
      let book = book₁ ∙ book₂ ∙ book₃ in
      let out =
        append_assoc (s.out ++ e₁ ∷ []) (e₂ ∷ []) w.events
        ∙ append_assoc s.out (e₁ ∷ []) (e₂ ∷ w.events) in
      let total = total_moved s.total_filled t.remaining n w.rest le h.rest_le fits in
      record {
        levels = h.levels;
        arena = h.arena;
        ladder = h.ladder;
        ran = h.ran ∙ (λ i. ok (record { book = book i; out = out i; total_filled = total i }));
        rest_le = omega (arith, h.rest_le);
        left = h.left;
        ready = subst (λ b. Ready side k (record t { remaining = w.rest }) h.ladder b) book h.ready;
        same = λ j x y. h.same j (inner j x) y ∙ cells j x y;
        within = λ j x. h.within j (inner j x);
        sorted = λ before x. h.sorted before (order before x);
      }
