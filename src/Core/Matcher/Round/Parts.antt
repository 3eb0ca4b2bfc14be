-- ===== src/Core/Matcher/Round/Parts.antt =====
-- What a round leaves alone, and the level of the maker after a round.
use order_matching_engine_ru.Prelude.{
  ℕ, ◌-◌, ◌<◌, ◌≡◌, refl, ap, ◌∙◌, true, false, [], ◌∷◌, Option, none, some, arith, ◌==◌,
  if◌then◌else◌,
}
use order_matching_engine_ru.Core.Types.{Price, Side, opposite, Order}
use order_matching_engine_ru.Core.Slab.{Slab}
use order_matching_engine_ru.Core.Maps.{HashMap, put}
use order_matching_engine_ru.Core.PriceLevel.{PriceLevel, is_empty}
use order_matching_engine_ru.Core.Book.{
  OrderBook, Levels, Location, before, side_levels, with_levels, remove_empty,
}
use order_matching_engine_ru.Core.Book.Chain.{Entries, linked, has}
use order_matching_engine_ru.Core.Book.Queue.{Holds, at_level}
use order_matching_engine_ru.Core.Book.Sides.{
  put_head, side_levels-with_levels, side_levels-with_levels-opposite, remove_empty_lem,
  with_levels_if, with_levels-with_levels,
}
use order_matching_engine_ru.Core.Matcher.Sweep.{Ladder}
use order_matching_engine_ru.Core.Matcher.Ladder.{rung, Stands}

pub none_left : (n : ℕ) → (n - n == 0) ≡ true
none_left n = ground arith

module _ (S : Slab Order) where
  open S use {Arena, get}

  -- What a match of an order of this side leaves alone.
  pub record SameBut (side : Side) (b b' : OrderBook S) : Type 0 where
    pub own : side_levels S side b' ≡ side_levels S side b
    pub symbol : b'.symbol ≡ b.symbol
    pub tick : b'.tick ≡ b.tick
    pub stop_buys : b'.stop_buys ≡ b.stop_buys
    pub stop_sells : b'.stop_sells ≡ b.stop_sells

  SameBut-with_levels :
      (side : Side) (m : Levels) (a : Arena) (ids : HashMap Location) (last : Option Price)
      (b : OrderBook S)
      → SameBut side b (
          with_levels S
            (opposite side)
            m
            (record b { arena = a; id_index = ids; last_trade = last }))
  SameBut-with_levels side m a ids last b = record {
    own = side_levels-with_levels-opposite S side m b;
    symbol = refl;
    tick = refl;
    stop_buys = refl;
    stop_sells = refl;
  }

  -- The book with the other side, the arena, the index and the last trade written.
  abbrev pub after :
      Side → Levels → Arena → HashMap Location → Option Price → OrderBook S → OrderBook S
  after side m a ids last b =
      with_levels S (opposite side) m (record b { arena = a; id_index = ids; last_trade = last })

  is_empty-some : (l : PriceLevel) {s : ℕ} → l.head ≡ some s → is_empty l ≡ false
  unfolding is_empty
  is_empty-some l h = ground arith

  is_empty-none : (l : PriceLevel) → l.head ≡ none → is_empty l ≡ true
  unfolding is_empty
  is_empty-none l h = ground arith

  -- A level that has run empty is no rung.
  pub rung-Stands :
      (a : Arena) (p : Price) (l : PriceLevel) (m : Levels) (q : Entries) (v : Ladder)
      → Holds S a l q
      → Stands S a m v
      → Stands S a (if is_empty l then m else (p, l) ∷ m) (rung p q v)
  rung-Stands a p l m [] v h hs = rw (is_empty-none l h.sums.head) hs
  rung-Stands a p l m ((s, o) ∷ q) v h hs = rw (is_empty-some l h.sums.head) (refl, h, hs)

  -- Removing the best level if it is empty, over the book that `pop_head` left.
  pub settled :
      (side : Side) (p : Price) (l : PriceLevel) (m : Levels) (a a' : Arena)
      (ids : HashMap Location) (last : Option Price) (b : OrderBook S) (l₀ : PriceLevel)
      → side_levels S (opposite side) b ≡ (p, l₀) ∷ m
      → remove_empty S (opposite side) p (record (at_level S (opposite side) p l a b) {
        arena = a';
        id_index = ids;
        last_trade = last;
      })
        ≡ after side (if is_empty l then m else (p, l) ∷ m) a' ids last b
  settled side p l m a a' ids last b l₀ at =
      let opp = opposite side in
      let u : OrderBook S = record (at_level S opp p l a b) {
        arena = a';
        id_index = ids;
        last_trade = last;
      } in
      let u_levels : side_levels S opp u ≡ (p, l) ∷ m =
        side_levels-with_levels S opp _ b ∙ rw at (put_head p l₀ m (before opp) l) in
      remove_empty_lem S opp p l m u u_levels
      ∙ with_levels_if S opp m (is_empty l) u
      ∙ rw u_levels (
          with_levels-with_levels S opp _ _
            (record b { arena = a'; id_index = ids; last_trade = last }))

  -- A write of the best level, where it stands.
  pub rewritten :
      (side : Side) (p : Price) (l : PriceLevel) (m : Levels) (a : Arena) (b : OrderBook S)
      (l₀ : PriceLevel)
      → side_levels S (opposite side) b ≡ (p, l₀) ∷ m
      → at_level S (opposite side) p l a b
        ≡ with_levels S (opposite side) ((p, l) ∷ m) (record b { arena = a })
  rewritten side p l m a b l₀ at =
      ap (λ (w : Levels). with_levels S (opposite side) w (record b { arena = a }))
        (ap (put (before (opposite side)) p l) at ∙ put_head p l₀ m (before (opposite side)) l)

  -- The links of an entry are of no account.
  pub Holds-relink :
      (a : Arena) (l : PriceLevel) (s : ℕ) (o : Order) (x y : Option ℕ) (q : Entries)
      → Holds S a l ((s, linked x y o) ∷ q)
      → Holds S a l ((s, o) ∷ q)
  Holds-relink a l s o x y q h = record {
    sums = record {
      head = h.sums.head;
      tail = h.sums.tail;
      total = h.sums.total;
      bounded = h.sums.bounded;
    };
    distinct = h.distinct;
    chain = h.chain;
  }

  pub some_left : (m n : ℕ) → n < m → (m - n == 0) ≡ false
  some_left m n h = ground arith

  pub differs : (k j : ℕ) (r : Entries) → has k r ≡ false → has j r ≡ true → (k == j) ≡ false
  differs k j [] h g = cc
  differs k j ((i, u) ∷ r) h g = ground (arith, differs k j r)
