-- ===== src/Core/Whole/Quantity.antt =====
-- crates/core/src/book.rs: `check_qty_conservation` on a well-formed book.
use order_matching_engine_ru.Prelude.{
  ℕ, ◌+◌, ◌<◌, ◌^◌, ◌≡◌, refl, sym, ap, ◌∙◌, true, false, Option, none, some, List, [], ◌∷◌, ◌++◌,
  arith, ok, ◌==◌, add_u64, inl, inr, Bool-cases, All, All-append,
}
use mathlib.Core.Path.{subst}
use order_matching_engine_ru.Core.Types.{Price, Side, opposite, Order}
use order_matching_engine_ru.Core.Slab.{Slab, index}
use order_matching_engine_ru.Core.Maps.{HashMap, lookup}
use order_matching_engine_ru.Core.Book.{
  OrderBook, Levels, Location, total_of, index_total, check_qty_conservation,
}
use order_matching_engine_ru.Core.Book.Chain.{Entries, has, IsDistinct, Chain}
use order_matching_engine_ru.Core.Matcher.Ladder.{entries, Stands}
use order_matching_engine_ru.Core.Matcher.Promises.{volume-queue_makers}
use order_matching_engine_ru.Core.Matcher.Sweep.{Ladder, Maker, queue_makers, makers}
use order_matching_engine_ru.Core.Matcher.Sweep.Facts.{volume}
use order_matching_engine_ru.Core.Whole.Kept.{
  has_id, entries_of, entries_of-makers, AllKept, has_id-append, has_id_elsewhere,
}
use order_matching_engine_ru.Core.Whole.Unique.{
  sum_of, IsFresh, Counts, sum_of-volume, entries_known,
}
use order_matching_engine_ru.Core.Whole.Place.{volume-append}
use order_matching_engine_ru.Core.Whole.Invariant.{IsBook, resting}

abbrev remaining_in : Option Order → ℕ
remaining_in none = 0
remaining_in (some o) = o.remaining

find_maker :
    (P : Maker → Type 0) (id : ℕ) (ms : List Maker)
    → has_id id ms ≡ true
    → All P ms
    → (m : Maker) × (m.order.id ≡ id) × P m
find_maker P id [] inside a = absurd cc
find_maker P id (m ∷ ms) inside (h, a) = elim (Bool-cases (m.order.id == id)) [
  | inl same ↦ (m, ground (arith, same), h)
  | inr other ↦ find_maker P id ms (ground (arith, inside, other)) a
]

Kept-IsFresh :
    (side : Side) (ids : HashMap Location) (ms : List Maker)
    → AllKept side ids ms
    → IsDistinct (entries_of ms)
    → IsFresh ms
Kept-IsFresh side ids [] a d = tt
Kept-IsFresh side ids (m ∷ ms) (h, a) (out, d) =
    (has_id_elsewhere side ids m.order.id _ ms a h.known out, Kept-IsFresh side ids ms a d)

append-IsFresh :
    (side side' : Side) (ids : HashMap Location) (xs ys : List Maker)
    → AllKept side ids xs
    → AllKept side' ids ys
    → ((j : ℕ) → has j (entries_of xs) ≡ true → has j (entries_of ys) ≡ false)
    → IsFresh xs
    → IsFresh ys
    → IsFresh (xs ++ ys)
append-IsFresh side side' ids [] ys a b apart u v = v
append-IsFresh side side' ids (m ∷ xs) ys (h, a) b apart (new, u) v =
    let out = has_id_elsewhere side' ids m.order.id _ ys b h.known (apart m.slot (ground arith)) in
    (
      ground (arith, new, out, has_id-append m.order.id xs ys),
      append-IsFresh side side' ids xs ys a b (λ j k. apart j (ground arith)) u v,
    )

module _ (S : Slab Order) where
  open S use {Arena, get}

  -- A maker's cell has what the maker has left.
  abbrev HasCell : Arena → Maker → Type 0
  HasCell a m = (o : Order) × (get a m.slot ≡ some o) × (o.remaining ≡ m.order.remaining)

  Chain-HasCell :
      (a : Arena) (p : Price) (before : Option ℕ) (q : Entries)
      → Chain S a before q none
      → All (HasCell a) (queue_makers p q)
  Chain-HasCell a p before [] c = tt
  Chain-HasCell a p before ((s, o) ∷ q) (c, cs) = ((_, c, refl), Chain-HasCell a p (some s) q cs)

  -- The levels' totals and the cells say what the ladder says.
  Stands-HasCell :
      (a : Arena) (m : Levels) (v : Ladder) → Stands S a m v → All (HasCell a) (makers v)
  Stands-HasCell a [] [] h = tt
  Stands-HasCell a [] (_ ∷ _) h = absurd h
  Stands-HasCell a (_ ∷ _) [] h = absurd h
  Stands-HasCell a (_ ∷ _) ((_, []) ∷ _) h = absurd h
  Stands-HasCell a ((p, l) ∷ m) ((i, e ∷ q) ∷ v) (_, h, hs) =
      All-append (HasCell a) (queue_makers i (e ∷ q)) (makers v)
        (Chain-HasCell a i none (e ∷ q) h.chain) (Stands-HasCell a m v hs)

  Stands-total :
      (a : Arena) (m : Levels) (v : Ladder)
      → Stands S a m v
      → volume (makers v) < 2 ^ 64
      → total_of m ≡ volume (makers v)
  unfolding total_of
  Stands-total a [] [] h fits = omega arith
  Stands-total a [] (_ ∷ _) h fits = absurd h
  Stands-total a (_ ∷ _) [] h fits = absurd h
  Stands-total a (_ ∷ _) ((_, []) ∷ _) h fits = absurd h
  Stands-total a ((p, l) ∷ m) ((i, e ∷ q) ∷ v) (_, h, hs) fits =
      let whole = volume-queue_makers i (e ∷ q) (makers v) in
      omega (arith, whole, h.sums.total, Stands-total a m v hs (omega (arith, whole, fits)))

  Kept-Counts :
      (a : Arena) (side : Side) (ids : HashMap Location) (ms : List Maker)
      → AllKept side ids ms
      → All (HasCell a) ms
      → All (Counts (λ (loc : Location). remaining_in (get a loc.slot)) ids) ms
  Kept-Counts a side ids [] k c = tt
  Kept-Counts a side ids (m ∷ ms) (h, k) ((o, at, count), c) =
      ((_, h.known, ap remaining_in at ∙ count), Kept-Counts a side ids ms k c)

  -- The sum over the index, where every place of it has a cell.
  index_total_lem :
      (a : Arena) (ids : HashMap Location)
      → All (λ (e : ℕ × Location). (o : Order) × (get a e.1.slot ≡ some o)) ids
      → sum_of (λ (loc : Location). remaining_in (get a loc.slot)) ids < 2 ^ 64
      → index_total S a ids ≡ ok (sum_of (λ (loc : Location). remaining_in (get a loc.slot)) ids)
  unfolding index_total index
  index_total_lem a [] c fits = refl
  index_total_lem a ((k, loc) ∷ ids) ((o, at), c) fits =
      let cell : remaining_in (get a loc.slot) ≡ o.remaining = ap remaining_in at in
      let rest = index_total_lem a ids c (omega (arith, fits)) in
      let sum = λ (x : ℕ). x + sum_of (λ (loc : Location). remaining_in (get a loc.slot)) ids in
      rw (index_total, at, rest) (ap ok (omega (arith, fits, cell)))

  -- A maker's place in the index has a cell.
  abbrev HasPlace : Arena → HashMap Location → Maker → Type 0
  HasPlace a ids m =
      (loc : Location) × (lookup m.order.id ids ≡ some loc)
      × ((o : Order) × (get a loc.slot ≡ some o))

  Kept-HasPlace :
      (a : Arena) (side : Side) (ids : HashMap Location) (ms : List Maker)
      → AllKept side ids ms
      → All (HasCell a) ms
      → All (HasPlace a ids) ms
  Kept-HasPlace a side ids [] k c = tt
  Kept-HasPlace a side ids (m ∷ ms) (h, k) ((o, at, _), c) =
      ((_, h.known, (o, at)), Kept-HasPlace a side ids ms k c)

  -- So has every place of the index, if every id is a maker's.
  index-cells :
      (a : Arena) (ids xs : HashMap Location) (ms : List Maker)
      → All (HasPlace a ids) ms
      → ((id : ℕ) (loc : Location) → lookup id ids ≡ some loc → has_id id ms ≡ true)
      → All (λ (e : ℕ × Location). lookup e.0 ids ≡ some e.1) xs
      → All (λ (e : ℕ × Location). (o : Order) × (get a e.1.slot ≡ some o)) xs
  index-cells a ids [] ms p listed k = tt
  index-cells a ids ((id, loc) ∷ xs) ms p listed (at, k) =
      let (m, same, (loc', at', (o, cell))) =
        find_maker (HasPlace a ids) id ms (listed id loc at) p in
      let there : some loc' ≡ some loc = sym at' ∙ ap (λ (j : ℕ). lookup j ids) same ∙ at in
      let place : loc' ≡ loc = cc in
      (
        (o, subst (λ (x : Location). get a x.slot ≡ some o) place cell),
        index-cells a ids xs ms p listed k,
      )

  -- The test for phantom liquidity does not fail, nor does it panic, on a well-formed book on which what
  -- rests fits a `u64`.
  pub IsBook-check_qty_conservation :
      (b : OrderBook S) (bids asks : Ladder)
      → IsBook S Side.buy bids asks b
      → resting bids asks < 2 ^ 64
      → check_qty_conservation S b ≡ ok true
  unfolding check_qty_conservation opposite
  IsBook-check_qty_conservation b bids asks h fits =
      let ids = b.id_index in
      let f = λ (loc : Location). remaining_in (get b.arena loc.slot) in
      let ms = makers bids ++ makers asks in
      let bid_cells = Stands-HasCell b.arena b.bids bids h.near.stands in
      let ask_cells = Stands-HasCell b.arena b.asks asks h.far.stands in
      let distinct = λ (v : Ladder) (d : IsDistinct (entries v)).
        subst IsDistinct (sym (entries_of-makers v)) d in
      let fresh =
        append-IsFresh Side.buy Side.sell ids (makers bids) (makers asks) h.near.kept h.far.kept
          (λ j inside.
            rw (entries_of-makers asks)
              (h.apart j (subst (λ q. has j q ≡ true) (entries_of-makers bids) inside)))
          (Kept-IsFresh Side.buy ids (makers bids) h.near.kept (distinct bids h.near.distinct))
          (Kept-IsFresh Side.sell ids (makers asks) h.far.kept (distinct asks h.far.distinct)) in
      let counts =
        All-append (Counts f ids) (makers bids) (makers asks)
          (Kept-Counts b.arena Side.buy ids (makers bids) h.near.kept bid_cells)
          (Kept-Counts b.arena Side.sell ids (makers asks) h.far.kept ask_cells) in
      let places =
        All-append (HasPlace b.arena ids) (makers bids) (makers asks)
          (Kept-HasPlace b.arena Side.buy ids (makers bids) h.near.kept bid_cells)
          (Kept-HasPlace b.arena Side.sell ids (makers asks) h.far.kept ask_cells) in
      let sum : sum_of f ids ≡ resting bids asks =
        sum_of-volume f ms ids h.unique fresh counts h.listed
        ∙ volume-append (makers bids) (makers asks) in
      let total =
        index_total_lem b.arena ids
          (index-cells b.arena ids ids ms places h.listed (entries_known ids h.unique))
          (omega (arith, sum, fits)) in
      let of_bids = Stands-total b.arena b.bids bids h.near.stands (omega (arith, fits)) in
      let of_asks = Stands-total b.arena b.asks asks h.far.stands (omega (arith, fits)) in
      let equal : (sum_of f ids == add_u64 (total_of b.bids) (total_of b.asks)) ≡ true =
        ground (arith, sum, of_bids, of_asks, fits) in
      rw total (ap ok equal)
