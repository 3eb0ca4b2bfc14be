-- ===== src/MarketData/SnapshotBuilder/Levels.antt =====
-- The price levels of a builder against the latest quantity that each price was given.
use order_matching_engine_ru.Prelude.{
  ℕ, ◌≡◌, ◌≢◌, refl, sym, ap, ◌∙◌, inl, inr, Bool, true, false, ◌&&◌, Option, none, some, List, [],
  ◌∷◌, ◌==◌, if◌then◌else◌, arith, Bool-cases,
}
use mathlib.Core.Path.{subst}
use order_matching_engine_ru.Prelude.Int.{ℤ, eqb_ℤ, eqb_ℤ_iff}
use order_matching_engine_ru.Core.Types.{Price, Side, buy, sell}
use order_matching_engine_ru.Core.Maps.{KeyOrder, BTreeMap, find, put, delete}
use order_matching_engine_ru.Core.Maps.Laws.{
  find-put, find-delete_ne, find-delete_self, IsOrder, ascending-IsOrder, descending-IsOrder,
  IsSorted, put-IsSorted, delete-IsSorted,
}
use order_matching_engine_ru.Core.Book.{choose, before}
use order_matching_engine_ru.Protocol.Json.{Str}
use order_matching_engine_ru.MarketData.SnapshotBuilder.{SnapshotBuilder, new, update_level}

-- A call of `update_level`.
pub record LevelUpdate : Type 0 where
  pub side : Side
  pub price : Price
  pub new_qty : ℕ

abbrev pub update_levels : List LevelUpdate → SnapshotBuilder → SnapshotBuilder
update_levels [] b = b
update_levels (u ∷ us) b = update_levels us (update_level u.side u.price u.new_qty b)

abbrev pub same_side : Side → Side → Bool
same_side buy buy = true
same_side sell sell = true
same_side _ _ = false

-- The quantity of a price, from `q` on: an update of the same side and price replaces it.
abbrev pub latest : Side → Price → List LevelUpdate → ℕ → ℕ
latest side price [] q = q
latest side price (u ∷ us) q =
    latest side price us (if same_side u.side side && eqb_ℤ u.price price then u.new_qty else q)

abbrev pub or_zero : Option ℕ → ℕ
or_zero none = 0
or_zero (some q) = q

abbrev pub levels : Side → SnapshotBuilder → BTreeMap ℕ
levels side b = choose side b.bids b.asks

-- What a builder says about a price; 0 is no level.
abbrev pub qty_at : Side → Price → SnapshotBuilder → ℕ
qty_at side price b = or_zero (find price (levels side b))

-- No level is empty.
abbrev pub NoneEmpty : BTreeMap ℕ → Type 0
NoneEmpty m = (price : Price) → find price m ≢ some 0

-- Both sides have the best price first, each price once, and no empty level.
pub record IsView (b : SnapshotBuilder) : Type 0 where
  pub sorted : (side : Side) → IsSorted (before side) (levels side b)
  pub some_qty : (side : Side) → NoneEmpty (levels side b)

abbrev update_map : KeyOrder → Price → ℕ → BTreeMap ℕ → BTreeMap ℕ
update_map order price q m = if q == 0 then delete price m else put order price q m

find-update_map :
    (order : KeyOrder) (ord : IsOrder order) (price p : Price) (q : ℕ) (m : BTreeMap ℕ)
    → IsSorted order m
    → or_zero (find p (update_map order price q m))
      ≡ (if eqb_ℤ price p then q else or_zero (find p m))
find-update_map order ord price p q m s = elim (Bool-cases (eqb_ℤ price p)) [
  | inl same ↦
      let e : price ≡ p = (eqb_ℤ_iff price p).0 same in
      let gone : find p (delete price m) ≡ none =
        subst (λ (j : ℤ). find j (delete price m) ≡ none) e
          (find-delete_self order ord price m s) in
      ground (arith, same, gone, find-put order price p q m)
  | inr other ↦ ground (arith, other, find-put order price p q m, find-delete_ne price p m other)
]

update_map-NoneEmpty :
    (order : KeyOrder) (ord : IsOrder order) (price : Price) (q : ℕ) (m : BTreeMap ℕ)
    → IsSorted order m
    → NoneEmpty m
    → NoneEmpty (update_map order price q m)
update_map-NoneEmpty order ord price q m s ne p h = elim (Bool-cases (eqb_ℤ price p)) [
  | inl same ↦
      let e : price ≡ p = (eqb_ℤ_iff price p).0 same in
      let gone : find p (delete price m) ≡ none =
        subst (λ (j : ℤ). find j (delete price m) ≡ none) e
          (find-delete_self order ord price m s) in
      ground (arith, same, gone, find-put order price p q m, h)
  | inr other ↦
      ground (arith, other, find-put order price p q m, find-delete_ne price p m other, ne p, h)
]

before-IsOrder : (side : Side) → IsOrder (before side)
before-IsOrder buy = descending-IsOrder
before-IsOrder sell = ascending-IsOrder

update_map-IsSorted :
    (order : KeyOrder) (ord : IsOrder order) (price : Price) (q : ℕ) (m : BTreeMap ℕ)
    → IsSorted order m
    → IsSorted order (update_map order price q m)
update_map-IsSorted order ord price q m s =
    ground (arith, put-IsSorted order ord price q m s, delete-IsSorted order ord price m s)

-- `update_level` is a change of the map of its side.
levels-update_level :
    (side s : Side) (price : Price) (q : ℕ) (b : SnapshotBuilder)
    → levels s (update_level side price q b)
      ≡ (if same_side side s then update_map (before s) price q (levels s b) else levels s b)
unfolding update_level
levels-update_level buy buy price q b = refl
levels-update_level buy sell price q b = refl
levels-update_level sell buy price q b = refl
levels-update_level sell sell price q b = refl

update_level-IsView :
    (side : Side) (price : Price) (q : ℕ) (b : SnapshotBuilder)
    → IsView b
    → IsView (update_level side price q b)
update_level-IsView side price q b v = record {
  sorted = λ s. subst (IsSorted (before s)) (sym (levels-update_level side s price q b)) (either s);
  some_qty = λ s. subst NoneEmpty (sym (levels-update_level side s price q b)) (neither s);
}
  where
    either :
        (s : Side)
        → IsSorted
            (before s)
            (if same_side side s then update_map (before s) price q (levels s b) else levels s b)
    either s = ground (
      arith,
      update_map-IsSorted (before s) (before-IsOrder s) price q (levels s b) (v.sorted s),
      v.sorted s,
    )

    neither :
        (s : Side)
        → NoneEmpty
            (if same_side side s then update_map (before s) price q (levels s b) else levels s b)
    neither s = elim (Bool-cases (same_side side s)) [
      | inl same ↦ rw same (
          update_map-NoneEmpty (before s) (before-IsOrder s) price q (levels s b) (v.sorted s)
            (v.some_qty s))
      | inr other ↦ rw other (v.some_qty s)
    ]

qty_at-update_level :
    (side s : Side) (price p : Price) (q : ℕ) (b : SnapshotBuilder)
    → IsView b
    → qty_at s p (update_level side price q b)
      ≡ (if same_side side s && eqb_ℤ price p then q else qty_at s p b)
qty_at-update_level side s price p q b v =
    ap (λ m. or_zero (find p m)) (levels-update_level side s price q b)
    ∙ elim (Bool-cases (same_side side s)) [
      | inl same ↦
          rw same
            (find-update_map (before s) (before-IsOrder s) price p q (levels s b) (v.sorted s))
      | inr other ↦ rw other refl
    ]

update_levels-latest :
    (us : List LevelUpdate) (b : SnapshotBuilder)
    → IsView b
    → IsView (update_levels us b)
      × ((side : Side) (price : Price)
          → qty_at side price (update_levels us b) ≡ latest side price us (qty_at side price b))
update_levels-latest [] b v = (v, λ side price. refl)
update_levels-latest (u ∷ us) b v =
    let (v', at) =
      update_levels-latest us (update_level u.side u.price u.new_qty b)
        (update_level-IsView u.side u.price u.new_qty b v) in
    (
      v',
      λ side price.
          at side price
          ∙ ap (latest side price us) (qty_at-update_level u.side side u.price price u.new_qty b v),
    )

new-IsView : (symbol : ℕ) (name : Str) (depth : ℕ) → IsView (new symbol name depth)
unfolding new find
new-IsView symbol name depth = record {
  sorted = λ side. elim side as (λ s. IsSorted (before s) (levels s (new symbol name depth))) [
    | buy ↦ tt
    | sell ↦ tt
  ];
  some_qty = λ side. elim side as (λ s. NoneEmpty (levels s (new symbol name depth))) [
    | buy ↦ λ p h. absurd cc
    | sell ↦ λ p h. absurd cc
  ];
}

-- A new builder, after any calls of `update_level`, gives each price of each side the quantity that the
-- last call for it said, and 0 if there was none. Both sides have the best price first and no price
-- twice, and a level whose quantity became 0 is gone.
pub update_levels-new :
    (symbol : ℕ) (name : Str) (depth : ℕ) (us : List LevelUpdate)
    → IsView (update_levels us (new symbol name depth))
      × ((side : Side) (price : Price)
          → qty_at side price (update_levels us (new symbol name depth)) ≡ latest side price us 0)
unfolding new find
update_levels-new symbol name depth us =
    let (view, at) =
      update_levels-latest us (new symbol name depth) (new-IsView symbol name depth) in
    (
      view,
      λ side price.
          elim side
            as (λ s.
              qty_at s price (update_levels us (new symbol name depth)) ≡ latest s price us 0) [
                | buy ↦ at buy price
                | sell ↦ at sell price
              ],
    )
